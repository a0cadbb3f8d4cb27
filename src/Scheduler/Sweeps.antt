-- ===== src/Scheduler/Sweeps.antt =====
-- What the expiry sweep does to a due payment (src/application/scheduler/scheduler-service.ts).
use oscar_payment_gateway.Prelude.{
  ℕ, ◌≡◌, refl, Bool, true, false, ◌&&◌, List, [], ◌∷◌, All, Option-cases, inl, inr, ltb,
}
use oscar_payment_gateway.Payments.{
  pending, evaluate_payment_transition, TransitionEvaluation-cases,
}
use oscar_payment_gateway.Payments.Table.{pending_expired}
use oscar_payment_gateway.Payments.Graph.{step, here}
use oscar_payment_gateway.Store.{
  Key, Db, Env, Payment, partial, Result, ok, err, with_required_transaction, update_payment,
  unchanged_since, claimed_total, write_get-Keeps,
}
use oscar_payment_gateway.Lifecycle.{DbEvolves, DbEvolves-refl, DbEvolves-trans}
use oscar_payment_gateway.Lifecycle.Rules.{
  IsChange, Lawful, lawful_rules, pure-Lawful, >>=-Lawful, update_payment-DbEvolves,
  annotate-DbEvolves, with_required_transaction-DbEvolves,
}
use oscar_payment_gateway.Matching.Outcomes.{Config, about_payment}
use oscar_payment_gateway.Matching.RouteHistory.{notify-Lawful, snapshot_status, dispatch-DbEvolves}
use oscar_payment_gateway.Confirmation.Transitions.{try_update}
use oscar_payment_gateway.Confirmation.Evolution.{if-DbEvolves}
use oscar_payment_gateway.Scheduler.{
  sweep_attempt, set_swept, after_sweep, sweep_tx, finish_sweep, sweep_one, count_expired,
  expire_due_payments,
}

module _ (cfg : Config) (env : Env) where
  swept-IsChange :
      (total version : ℕ) (p : Payment)
      → unchanged_since pending version p ≡ true
      → IsChange (set_swept cfg env total) p
  unfolding set_swept
  swept-IsChange total version p h = record {
    same_terms = refl;
    along = rw (snapshot_status pending version p h) (step pending_expired here);
  }

  sweep_update-DbEvolves :
      (p : Payment) (total : ℕ) (db : Db)
      → DbEvolves db
          (try_update
            (update_payment p.payment_id
              (unchanged_since pending p.version)
              (set_swept cfg env total))
            db).1
  unfolding try_update
  sweep_update-DbEvolves p total db =
      let accepts = unchanged_since pending p.version in
      let change = set_swept cfg env total in
      elim (Option-cases (update_payment p.payment_id accepts change db)) [
        | inl missed ↦ rw (missed, try_update) (DbEvolves-refl db)
        | inr (after, hit) ↦
            rw (hit, try_update)
              (update_payment-DbEvolves p.payment_id accepts change db
                (λ q _ fits. swept-IsChange total p.version q fits) after hit)
      ]

  after_sweep-Lawful : (p : Payment) (total : ℕ) (b : Bool) → Lawful (after_sweep cfg env p total b)
  unfolding after_sweep
  after_sweep-Lawful p total true = search (lawful_rules, notify-Lawful)
  after_sweep-Lawful p total false = pure-Lawful (false, [])

  sweep_tx-Lawful : (p : Payment) (total : ℕ) → Lawful (sweep_tx cfg env p total)
  unfolding sweep_tx
  sweep_tx-Lawful p total =
      >>=-Lawful _ _ (write_get-Keeps DbEvolves _ (sweep_update-DbEvolves p total))
        (after_sweep-Lawful p total)

  finish_sweep-DbEvolves :
      (p : Payment) (total : ℕ) (start : Db) (r : Result (Bool × List Key) × Db)
      → DbEvolves start r.1
      → DbEvolves start (finish_sweep cfg env p total r).1
  unfolding finish_sweep
  finish_sweep-DbEvolves p total start (err r, db) h = h
  finish_sweep-DbEvolves p total start (ok (done, ids), db) h =
      DbEvolves-trans
        (if-DbEvolves (ltb 0 total && ltb total p.amount) start _ _
          (DbEvolves-trans h (annotate-DbEvolves (about_payment p partial) db)) h)
        (dispatch-DbEvolves ids _)

  pub sweep_one-DbEvolves :
      (p : Payment) (seen db : Db) → DbEvolves db (sweep_one cfg env p seen db).1
  unfolding sweep_one
  sweep_one-DbEvolves p seen db =
      let total = claimed_total p.payment_id seen.events in
      elim (TransitionEvaluation-cases
        (evaluate_payment_transition (sweep_attempt cfg env p total))) [
          | inl allowed ↦
              rw (allowed, sweep_one)
                (finish_sweep-DbEvolves p total db
                  (with_required_transaction (sweep_tx cfg env p total) db)
                  (with_required_transaction-DbEvolves (sweep_tx cfg env p total)
                    (sweep_tx-Lawful p total) db))
          | inr (r, refused) ↦ rw (refused, sweep_one) (DbEvolves-refl db)
        ]

  -- A whole sweep keeps every payment's terms, moves its status only along the state diagram and only
  -- with a higher version, deletes no payment or event, and changes no claim, whatever its reads saw,
  -- where the other workers' writes in between do so.
  pub expire_due_payments-DbEvolves :
      (due : List (Payment × Db × (Db → Db))) (db : Db) (n : ℕ)
      → All (λ (d : Payment × Db × (Db → Db)). (x : Db) → DbEvolves x (d.2 x)) due
      → DbEvolves db (expire_due_payments cfg env due db n).1
  unfolding expire_due_payments
  expire_due_payments-DbEvolves [] db n fair = DbEvolves-refl db
  expire_due_payments-DbEvolves ((p, seen, others) ∷ due) db n (kept, fair) =
      let swept = DbEvolves-trans (kept db) (sweep_one-DbEvolves p seen (others db)) in
      elim (Option-cases (sweep_one cfg env p seen (others db)).0) [
        | inl thrown ↦ rw (thrown, expire_due_payments) swept
        | inr (b, done) ↦
            rw (done, expire_due_payments)
              (DbEvolves-trans swept (
                expire_due_payments-DbEvolves due (sweep_one cfg env p seen (others db)).1
                  (count_expired cfg env b n) fair))
      ]
