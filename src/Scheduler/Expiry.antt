-- ===== src/Scheduler/Expiry.antt =====
-- Which payments the expiry sweep expires (src/application/scheduler/scheduler-service.ts).
use oscar_payment_gateway.Prelude.{
  ℕ, ◌+◌, ◌<◌, ◌≡◌, refl, ap, ◌∙◌, Bool, true, false, ◌&&◌, some, List, [], ◌∷◌, if-elim, inl, inr,
  ltb, ==_refl, arith,
}
use oscar_payment_gateway.Payments.{
  pending, expired, evaluate_payment_transition, legal, TransitionEvaluation-cases,
}
use oscar_payment_gateway.Payments.Table.{evaluate_iff_Permits, Permits}
use oscar_payment_gateway.Store.{
  Key, Db, Env, Payment, payment_expired, partial, commit, pure, ok,
  with_required_transaction-commit, update_payment, update_payment-some, update_payment-none,
  updated, updated-payments, bumped, unchanged_since, append_audit, payload_for, claimed_total,
  write_get-then, write-then, >>=-commit, enqueue, deliver_webhook,
}
use oscar_payment_gateway.Matching.{dispatch}
use oscar_payment_gateway.Matching.Outcomes.{Config, about_payment}
use oscar_payment_gateway.Matching.Notify.{notify_commits}
use oscar_payment_gateway.Confirmation.Transitions.{try_update}
use oscar_payment_gateway.Confirmation.Safety.{annotate_payments}
use oscar_payment_gateway.Scheduler.{
  sweep_attempt, set_swept, sweep_audit, after_sweep, sweep_tx, finish_sweep, sweep_one,
}

dispatch_payments : (ids : List Key) (db : Db) → (dispatch ids db).payments ≡ db.payments
unfolding dispatch enqueue
dispatch_payments [] db = refl
dispatch_payments (d ∷ ds) db = dispatch_payments ds (enqueue (deliver_webhook d) db)

module _ (cfg : Config) (env : Env) (p : Payment) (seen db : Db) where
  finish_sweep_payments :
      (total : ℕ) (done : Bool) (ids : List Key) (mid : Db)
      → ((finish_sweep cfg env p total (ok (done, ids), mid)).0 ≡ some done)
        × ((finish_sweep cfg env p total (ok (done, ids), mid)).1.payments ≡ mid.payments)
  unfolding finish_sweep
  finish_sweep_payments total done ids mid = (
    refl,
    dispatch_payments ids _
        ∙ if-elim (λ (x : Db). x.payments ≡ mid.payments) (ltb 0 total && ltb total p.amount) _ _
            (λ _. annotate_payments (about_payment p partial) mid) (λ _. refl),
  )

  due_is_legal :
      p.expires_at < env.now
      → claimed_total p.payment_id seen.events < p.amount
      → evaluate_payment_transition
          (sweep_attempt cfg env p (claimed_total p.payment_id seen.events))
        ≡ legal
  due_is_legal past short =
      (evaluate_iff_Permits (sweep_attempt cfg env p (claimed_total p.payment_id seen.events))).1
        (Permits.expire past (ground arith))

  -- A payment past its expiry, pending and unchanged since the sweep read it, whose canonical claims
  -- were read to stay below its amount, is expired at the time of the sweep, with the claims' total as
  -- its partial receipt, flagged as underpaid exactly when something was received, one version later.
  pub due_payment_expires :
      db.payments p.payment_id ≡ some p
      → p.status ≡ pending
      → p.expires_at < env.now
      → claimed_total p.payment_id seen.events < p.amount
      → let total = claimed_total p.payment_id seen.events in
        (q : Payment) × ((sweep_one cfg env p seen db).0 ≡ some true)
        × ((sweep_one cfg env p seen db).1.payments p.payment_id ≡ some q)
        × (q.status ≡ expired)
        × (q.terminal_at ≡ some env.now)
        × (q.partial_amount_received ≡ some total)
        × (q.underpayment_flag ≡ ltb 0 total)
        × (q.version ≡ p.version + 1)
  unfolding sweep_one sweep_tx try_update after_sweep append_audit set_swept pure
  due_payment_expires found pend past short =
      let total = claimed_total p.payment_id seen.events in
      let change = set_swept cfg env total in
      let accepts = unchanged_since pending p.version in
      let step1 = updated p.payment_id change p db in
      let audited = append_audit (sweep_audit cfg env p) step1 in
      let (ids, mid, run, same_payments, same_events) =
        notify_commits cfg env
          (payload_for (record p { status = expired; partial_amount_received = some total })
            payment_expired env.now)
          audited in
      let hit : update_payment p.payment_id accepts change db ≡ some step1 =
        update_payment-some p.payment_id accepts change p db found (rw (pend, ==_refl p.version)) in
      let stored : try_update (update_payment p.payment_id accepts change) db ≡ (true, step1) =
        rw (hit, try_update) in
      let committed : sweep_tx cfg env p total db ≡ commit (true, ids) mid =
        write_get-then _ _ db
        ∙ (ap (λ (r : Bool × Db). after_sweep cfg env p total r.0 r.1) stored
            ∙ (write-then _ _ step1 ∙ >>=-commit _ _ audited ids mid run)) in
      let ended : sweep_one cfg env p seen db ≡ finish_sweep cfg env p total (ok (true, ids), mid) =
        rw (due_is_legal past short, sweep_one)
          (ap (finish_sweep cfg env p total) (
            with_required_transaction-commit (sweep_tx cfg env p total) db (true, ids) mid
              committed)) in
      let (reported, kept) = finish_sweep_payments total true ids mid in
      (
        bumped change p,
        rw ended reported,
        rw ended (rw kept (rw same_payments (updated-payments p.payment_id change p db))),
        refl,
        refl,
        refl,
        ground arith,
        refl,
      )

  -- A payment that another worker changed since the sweep read it is not expired, and no payment is
  -- changed.
  pub changed_payment_not_swept :
      (q : Payment)
      → db.payments p.payment_id ≡ some q
      → unchanged_since pending p.version q ≡ false
      → ((sweep_one cfg env p seen db).0 ≡ some false)
        × ((sweep_one cfg env p seen db).1.payments ≡ db.payments)
  unfolding sweep_one sweep_tx try_update after_sweep pure
  changed_payment_not_swept q found moved =
      let total = claimed_total p.payment_id seen.events in
      let change = set_swept cfg env total in
      let accepts = unchanged_since pending p.version in
      let missed : try_update (update_payment p.payment_id accepts change) db ≡ (false, db) =
        rw (update_payment-none p.payment_id accepts change q db found moved, try_update) in
      let committed : sweep_tx cfg env p total db ≡ commit (false, []) db =
        write_get-then _ _ db
        ∙ ap (λ (r : Bool × Db). after_sweep cfg env p total r.0 r.1) missed in
      elim (TransitionEvaluation-cases
        (evaluate_payment_transition (sweep_attempt cfg env p total))) [
          | inl allowed ↦
              rw (allowed, sweep_one)
                (rw
                  (with_required_transaction-commit (sweep_tx cfg env p total) db (false, []) db
                    committed)
                  (finish_sweep_payments total false [] db))
          | inr (r, refused) ↦ rw (refused, sweep_one) (refl, refl)
        ]
