-- ===== src/Confirmation/Effects.antt =====
-- What a transition writes to the payments, for a current and for a stale snapshot.
use oscar_payment_gateway.Prelude.{
  ◌≡◌, inl, inr, refl, ◌∙◌, Bool, true, false, some, List, [], ◌∷◌, Option-cases,
}
use oscar_payment_gateway.Payments.{PaymentStatus}
use oscar_payment_gateway.Store.{
  pure, ok, write_get-then, write-then, >>=-commit, with_required_transaction-commit,
  update_payment-some, update_payment-none, updated-payments, deliver_webhook, Key, Db, Event,
  Payment, AuditAction, commit, ◌>>=◌, update_payment, bumped, unchanged_since, append_audit,
  enqueue, payload_for,
}
use oscar_payment_gateway.Matching.Notify.{notify_commits}
use oscar_payment_gateway.Matching.Outcomes.{Config}
use oscar_payment_gateway.Confirmation.Transitions.{
  World, transition_audit, try_update, webhook_type, notify_transition, transition_tx, enqueue_ids,
  dispatch_applied, apply_transition,
}

module _ (cfg : Config) (w : World) (p : Payment) (to : PaymentStatus) (action : AuditAction)
    (change : Payment → Payment) (event : Event) where
  -- The collection after the conditional update of a transition.
  abbrev after_update : Db → Bool × Db
  after_update =
      try_update (update_payment p.payment_id (unchanged_since p.status p.version) change)

  notify_transition_commits :
      (b : Bool) (db : Db)
      → (ids : List Key) × (mid : Db) × (notify_transition cfg w p to action change event b db
          ≡ commit ids mid)
        × (mid.payments ≡ db.payments)
  unfolding notify_transition ◌>>=◌
  notify_transition_commits true db = elim (Option-cases (webhook_type to)) [
    | inl silent ↦ ([], db, rw (silent, notify_transition), refl)
    | inr (t, loud) ↦
        let (ids, mid, run, kept, _) =
          notify_commits cfg (record { now = w.now2; uuid = w.uuid })
            (payload_for (record p { status = to }) t w.now2) db in
        (ids, mid, rw (loud, notify_transition) run, kept)
  ]
  notify_transition_commits false db = elim (Option-cases (webhook_type to)) [
    | inl silent ↦ ([], db, rw (silent, notify_transition), refl)
    | inr (t, loud) ↦ ([], db, rw (loud, notify_transition), refl)
  ]

  enqueue_ids_payments :
      (ids : List Key) (db : Db)
      → (enqueue_ids cfg w p to action change event ids db).payments ≡ db.payments
  unfolding enqueue_ids enqueue
  enqueue_ids_payments [] db = refl
  enqueue_ids_payments (d ∷ ds) db = enqueue_ids_payments ds (enqueue (deliver_webhook d) db)

  transition_tx_commits :
      (db : Db)
      → (ids : List Key) × (mid : Db) × (transition_tx cfg w p to action change event db
          ≡ commit ((after_update db).0, ids) mid)
        × (mid.payments ≡ (after_update db).1.payments)
  unfolding transition_tx append_audit pure
  transition_tx_commits db =
      let (u, after) = after_update db in
      let audited = append_audit (transition_audit cfg w p to action change event) after in
      let (ids, mid, run, kept) = notify_transition_commits u audited in
      (
        ids,
        mid,
        write_get-then _ _ db ∙ (write-then _ _ after ∙ >>=-commit _ _ audited ids mid run),
        kept,
      )

  dispatch_applied_payments :
      (b : Bool) (ids : List Key) (db : Db)
      → (dispatch_applied cfg w p to action change event (ok (b, ids), db)).payments ≡ db.payments
  unfolding dispatch_applied
  dispatch_applied_payments true ids db = enqueue_ids_payments ids db
  dispatch_applied_payments false ids db = refl

  -- The payments after a transition are those after its conditional update.
  pub apply_transition_payments :
      (db : Db)
      → (apply_transition cfg w p to action change event db).payments ≡ (after_update db).1.payments
  unfolding apply_transition
  apply_transition_payments db =
      let (ids, mid, run, kept) = transition_tx_commits db in
      rw
        (with_required_transaction-commit (transition_tx cfg w p to action change event) db
          ((after_update db).0, ids) mid run)
        (dispatch_applied_payments (after_update db).0 ids mid ∙ kept)

  -- A snapshot that is still current is replaced; any other leaves every payment as it is.
  pub transition_fresh :
      (q : Payment) (db : Db)
      → db.payments p.payment_id ≡ some q
      → unchanged_since p.status p.version q ≡ true
      → (apply_transition cfg w p to action change event db).payments p.payment_id
        ≡ some (bumped change q)
  unfolding try_update
  transition_fresh q db found fits = rw (apply_transition_payments db) (
      rw
        (
          update_payment-some p.payment_id (unchanged_since p.status p.version) change q db found
              fits,
          try_update,
        )
        (updated-payments p.payment_id change q db))

  pub transition_stale :
      (q : Payment) (db : Db)
      → db.payments p.payment_id ≡ some q
      → unchanged_since p.status p.version q ≡ false
      → (apply_transition cfg w p to action change event db).payments ≡ db.payments
  unfolding try_update
  transition_stale q db found unfit =
      apply_transition_payments db
      ∙ rw (
        update_payment-none p.payment_id (unchanged_since p.status p.version) change q db found
            unfit,
        try_update,
      )
