-- ===== src/Confirmation/Evolution.antt =====
-- What the writes of a transition keep of the database
-- (src/application/processing/payment-confirmation-service.ts).
use oscar_payment_gateway.Prelude.{
  ◌≡◌, inl, inr, Bool, true, false, List, [], ◌∷◌, if◌then◌else◌, Option-cases,
}
use oscar_payment_gateway.Payments.{PaymentStatus}
use oscar_payment_gateway.Store.{
  Key, Db, Event, Payment, AuditAction, Result, ok, err, write_get-Keeps, update_payment,
  unchanged_since, with_required_transaction, enqueue, deliver_webhook,
}
use oscar_payment_gateway.Lifecycle.{DbEvolves, DbEvolves-refl, DbEvolves-trans}
use oscar_payment_gateway.Lifecycle.Rules.{
  IsChange, Lawful, lawful_rules, if-Lawful, pure-Lawful, >>=-Lawful, update_payment-DbEvolves,
  append_audit-DbEvolves, enqueue-DbEvolves, with_required_transaction-DbEvolves,
}
use oscar_payment_gateway.Matching.Outcomes.{Config}
use oscar_payment_gateway.Matching.RouteHistory.{notify-Lawful}
use oscar_payment_gateway.Confirmation.Transitions.{
  World, try_update, webhook_type, notify_transition, transition_tx, enqueue_ids, dispatch_applied,
  apply_transition, record_rejection,
}

module _ (cfg : Config) (w : World) (p : Payment) (to : PaymentStatus) (action : AuditAction)
    (change : Payment → Payment) (event : Event)
    (lawful : (q : Payment) → unchanged_since p.status p.version q ≡ true → IsChange change q) where
  try_update-DbEvolves :
      (db : Db)
      → DbEvolves db
          (try_update
            (update_payment p.payment_id (unchanged_since p.status p.version) change)
            db).1
  unfolding try_update
  try_update-DbEvolves db =
      elim (Option-cases
        (update_payment p.payment_id (unchanged_since p.status p.version) change db)) [
          | inl missed ↦ rw (missed, try_update) (DbEvolves-refl db)
          | inr (after, hit) ↦
              rw (hit, try_update)
                (update_payment-DbEvolves p.payment_id (unchanged_since p.status p.version) change
                  db (λ q _ fits. lawful q fits) after hit)
        ]

  notify_transition-Lawful :
      (b : Bool) → Lawful (notify_transition cfg w p to action change event b)
  unfolding notify_transition
  notify_transition-Lawful b = elim (Option-cases (webhook_type to)) [
    | inl silent ↦ rw (silent, notify_transition) (pure-Lawful [])
    | inr (t, loud) ↦
        rw (loud, notify_transition) (if-Lawful b _ _ (notify-Lawful cfg _ _) (pure-Lawful []))
  ]

  transition_tx-Lawful : Lawful (transition_tx cfg w p to action change event)
  unfolding transition_tx
  transition_tx-Lawful =
      >>=-Lawful _ _ (write_get-Keeps DbEvolves _ try_update-DbEvolves)
        (λ updated. search (lawful_rules, notify_transition-Lawful))

  enqueue_ids-DbEvolves :
      (ids : List Key) (db : Db) → DbEvolves db (enqueue_ids cfg w p to action change event ids db)
  unfolding enqueue_ids
  enqueue_ids-DbEvolves [] db = DbEvolves-refl db
  enqueue_ids-DbEvolves (d ∷ ds) db =
      DbEvolves-trans (enqueue-DbEvolves (deliver_webhook d) db)
        (enqueue_ids-DbEvolves ds (enqueue (deliver_webhook d) db))

  dispatch_applied-DbEvolves :
      (start : Db) (r : Result (Bool × List Key) × Db)
      → DbEvolves start r.1
      → DbEvolves start (dispatch_applied cfg w p to action change event r)
  unfolding dispatch_applied
  dispatch_applied-DbEvolves start (ok (true, ids), db) h =
      DbEvolves-trans h (enqueue_ids-DbEvolves ids db)
  dispatch_applied-DbEvolves start (ok (false, ids), db) h = h
  dispatch_applied-DbEvolves start (err r, db) h = h

  pub apply_transition-DbEvolves :
      (db : Db) → DbEvolves db (apply_transition cfg w p to action change event db)
  unfolding apply_transition
  apply_transition-DbEvolves db =
      dispatch_applied-DbEvolves db
        (with_required_transaction (transition_tx cfg w p to action change event) db)
        (with_required_transaction-DbEvolves (transition_tx cfg w p to action change event)
          transition_tx-Lawful db)

pub record_rejection-DbEvolves :
    (p : Payment) (from : PaymentStatus) (event : Event) (db : Db)
    → DbEvolves db (record_rejection p from event db)
unfolding record_rejection
record_rejection-DbEvolves p from event db = append_audit-DbEvolves _ db

pub if-DbEvolves :
    (b : Bool) (start x y : Db)
    → DbEvolves start x
    → DbEvolves start y
    → DbEvolves start (if b then x else y)
if-DbEvolves true start x y h k = h
if-DbEvolves false start x y h k = k
