-- ===== src/Matching/Expiry.antt =====
-- A deposit that arrives after the expiry of a pending payment, or at a terminal one.
use oscar_payment_gateway.Prelude.{
  ℕ, ◌+◌, ◌≤◌, ◌<◌, ◌≡◌, refl, ap, ◌∙◌, Option, none, some, List, ltb, ==_refl, arith,
}
use oscar_payment_gateway.Payments.{pending, expired, evaluate_payment_transition, legal}
use oscar_payment_gateway.Payments.Table.{evaluate_iff_Permits, expire}
use oscar_payment_gateway.Store.{
  payload_for, payment_expired, payment_to, Key, Db, Env, Event, Payment, Attempt, commit, abort,
  ◌>>=◌, bumped, updated, claimed_total, update_payment-some, updated-payments, unchanged_since,
  update_or_throw-then, write-then, append_audit,
}
use oscar_payment_gateway.Matching.Notify.{notify_commits}
use oscar_payment_gateway.Matching.Outcomes.{
  audit_of, Config, ClaimOutcome, late_arrival_annotated, MatchAction,
}
use oscar_payment_gateway.Matching.Routes.{
  set_expired, expiry_attempt, write_expired, expire_in_transaction,
}
use oscar_payment_gateway.Matching.Apply.{apply_claim, apply_claim_to}

-- What a transaction reports, and the payment and the events that it leaves.
abbrev pub full_report :
    Key → Attempt ClaimOutcome → Option (MatchAction × Option Payment × List Event)
full_report id (commit o db) = some (o.action, db.payments id, db.events)
full_report id (abort r) = none

module _ (cfg : Config) (env : Env) (event : Event) where
  write_expired_commits :
      (p : Payment) (total : ℕ) (db : Db)
      → db.payments p.payment_id ≡ some p
      → p.status ≡ pending
      → (ids : List Key) × (mid : Db) × (write_expired cfg env event p total db ≡ commit ids mid)
        × (mid.payments p.payment_id ≡ some (bumped (set_expired cfg env event total) p))
        × (mid.events ≡ db.events)
  unfolding write_expired append_audit
  write_expired_commits p total db found pend =
      let change = set_expired cfg env event total in
      let step1 = updated p.payment_id change p db in
      let (ids, mid, run, same_payments, same_events) =
        notify_commits cfg env
          (payload_for (record p { status = expired; partial_amount_received = some total })
            payment_expired env.now)
          (append_audit (audit_of p (payment_to expired) expired event) step1) in
      (
        ids,
        mid,
        update_or_throw-then _ _ _ db _ (
              update_payment-some p.payment_id (unchanged_since pending p.version) change p db found
                (rw (pend, ==_refl p.version)))
            ∙ (write-then _ _ step1 ∙ run),
        rw same_payments (updated-payments p.payment_id change p db),
        same_events,
      )

  expire_when :
      (p : Payment) (db : Db)
      → db.payments p.payment_id ≡ some p
      → p.status ≡ pending
      → p.expires_at < env.now
      → claimed_total p.payment_id db.events < p.amount
      → full_report p.payment_id (expire_in_transaction cfg env event p db)
        ≡ some (
          late_arrival_annotated,
          some (bumped (set_expired cfg env event (claimed_total p.payment_id db.events)) p),
          db.events,
        )
  unfolding expire_in_transaction ◌>>=◌
  expire_when p db found pend past short =
      let total = claimed_total p.payment_id db.events in
      let (ids, mid, run, paid, kept) = write_expired_commits p total db found pend in
      let allowed : evaluate_payment_transition (expiry_attempt cfg env event p total) ≡ legal =
        (evaluate_iff_Permits (expiry_attempt cfg env event p total)).1
          (expire past (ground arith)) in
      rw allowed (rw run (rw (paid, kept)))

  keep_when_funded :
      (p : Payment) (db : Db)
      → db.payments p.payment_id ≡ some p
      → p.amount ≤ claimed_total p.payment_id db.events
      → full_report p.payment_id (expire_in_transaction cfg env event p db)
        ≡ some (late_arrival_annotated, some p, db.events)
  unfolding expire_in_transaction ◌>>=◌ evaluate_payment_transition
  keep_when_funded p db found funded = ground arith

  apply_claim_past :
      (p : Payment) (db : Db)
      → db.payments p.payment_id ≡ some p
      → p.status ≡ pending
      → p.expires_at < env.now
      → apply_claim cfg env event p.payment_id db ≡ expire_in_transaction cfg env event p db
  unfolding apply_claim apply_claim_to ◌>>=◌
  apply_claim_past p db found pend past = rw found (ground arith)

  -- A deposit for a pending payment whose expiry has passed, and whose canonical claims stay below its
  -- amount: the payment becomes expired at that moment, with the claims' total as its partial receipt,
  -- flagged as underpaid exactly when something was received, one version later; the deposit is not
  -- claimed.
  pub late_deposit_expires :
      (p : Payment) (db : Db)
      → db.payments p.payment_id ≡ some p
      → p.status ≡ pending
      → p.expires_at < env.now
      → claimed_total p.payment_id db.events < p.amount
      → let total = claimed_total p.payment_id db.events in
        (q : Payment) × (full_report p.payment_id (apply_claim cfg env event p.payment_id db)
          ≡ some (late_arrival_annotated, some q, db.events))
        × (q.status ≡ expired)
        × (q.terminal_at ≡ some env.now)
        × (q.partial_amount_received ≡ some total)
        × (q.underpayment_flag ≡ ltb 0 total)
        × (q.version ≡ p.version + 1)
  unfolding set_expired
  late_deposit_expires p db found pend past short =
      let total = claimed_total p.payment_id db.events in
      (
        bumped (set_expired cfg env event total) p,
        ap (full_report p.payment_id) (apply_claim_past p db found pend past)
            ∙ expire_when p db found pend past short,
        refl,
        refl,
        refl,
        ground arith,
        refl,
      )

  -- A late deposit leaves a pending payment as it is when its canonical claims already reach its
  -- amount, and is not claimed.
  pub late_deposit_keeps_funded :
      (p : Payment) (db : Db)
      → db.payments p.payment_id ≡ some p
      → p.status ≡ pending
      → p.expires_at < env.now
      → p.amount ≤ claimed_total p.payment_id db.events
      → full_report p.payment_id (apply_claim cfg env event p.payment_id db)
        ≡ some (late_arrival_annotated, some p, db.events)
  late_deposit_keeps_funded p db found pend past funded =
      ap (full_report p.payment_id) (apply_claim_past p db found pend past)
      ∙ keep_when_funded p db found funded
