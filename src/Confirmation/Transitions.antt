-- ===== src/Confirmation/Transitions.antt =====
-- `#applyTransition` and `#recordRejection`
-- (src/application/processing/payment-confirmation-service.ts), and what a step reads from outside.
use oscar_payment_gateway.Prelude.{
  ℕ, Bool, true, false, Option, none, some, List, [], ◌∷◌, if◌then◌else◌,
}
use oscar_payment_gateway.Payments.{PaymentStatus, confirmed, failed}
use oscar_payment_gateway.Store.{
  Key, Db, Event, Payment, AuditEntry, AuditAction, payment_transition_rejected, WebhookEventType,
  payment_confirmed, payment_failed, deliver_webhook, Tx, ◌>>=◌, ◌>>◌, pure, write, write_get,
  Result, ok, err, with_required_transaction, update_payment, unchanged_since, append_audit,
  payload_for, enqueue,
}
use oscar_payment_gateway.Screening.{ScreeningVerdict}
use oscar_payment_gateway.Matching.Outcomes.{Config, notify}

-- `ConfirmationObservation`.
pub data Observation : Type 0 where
  observed : Option ℕ → Option Bool → Observation
  unavailable : Observation

pub data ReviewDecision : Type 0 where
  release block : ReviewDecision

-- What a step reads from outside: the clock (twice), a fresh identifier, the confirmation reader, the
-- latest review decision, and the screening provider.
pub record World : Type 0 where
  pub now : ℕ
  pub now2 : ℕ
  pub uuid : Key
  pub observe : Event → Observation
  pub latest_review_decision : Key → Option ReviewDecision
  pub screen : Event → ScreeningVerdict

-- `findOneAndUpdate`, and whether a document was found.
unfoldable pub try_update : (Db → Option Db) → Db → Bool × Db
try_update u db = elim (u db) [ some db' ↦ (true, db') | none ↦ (false, db) ]

-- The webhook of a terminal transition; the other transitions emit none.
abbrev pub webhook_type : PaymentStatus → Option WebhookEventType
webhook_type confirmed = some payment_confirmed
webhook_type failed = some payment_failed
webhook_type _ = none

module _ (cfg : Config) (w : World) (p : Payment) (to : PaymentStatus) (action : AuditAction)
    (change : Payment → Payment) (event : Event) where
  abbrev pub transition_audit : AuditEntry
  transition_audit = record {
    entity_id = p.payment_id;
    action = action;
    before = p.status;
    after = to;
    event_id = some event.event_id;
  }

  unfoldable pub notify_transition : Bool → Tx (List Key)
  notify_transition updated = elim (webhook_type to) [
    | none ↦ pure []
    | some t ↦
        if updated
        then notify cfg (record { now = w.now2; uuid = w.uuid })
            (payload_for (record p { status = to }) t w.now2)
        else pure []
  ]

  -- The audit row is written whether or not the conditional update found its document.
  unfoldable pub transition_tx : Tx (Bool × List Key)
  unfolding try_update notify_transition
  transition_tx = do
    updated ←
        write_get
          (try_update (update_payment p.payment_id (unchanged_since p.status p.version) change))
    write (append_audit transition_audit)
    ids ← notify_transition updated
    pure (updated, ids)

  unfoldable pub enqueue_ids : List Key → Db → Db
  enqueue_ids [] db = db
  enqueue_ids (d ∷ ds) db = enqueue_ids ds (enqueue (deliver_webhook d) db)

  unfoldable pub dispatch_applied : Result (Bool × List Key) × Db → Db
  unfolding enqueue_ids
  dispatch_applied (ok (true, ids), db) = enqueue_ids ids db
  dispatch_applied (ok (false, ids), db) = db
  dispatch_applied (err r, db) = db

  unfoldable pub apply_transition : Db → Db
  unfolding dispatch_applied transition_tx
  apply_transition db = dispatch_applied (with_required_transaction transition_tx db)

-- A rejected attempt is an audit row and nothing else.
unfoldable pub record_rejection : Payment → PaymentStatus → Event → Db → Db
record_rejection p from event db =
    append_audit
      (record {
        entity_id = p.payment_id;
        action = payment_transition_rejected;
        before = from;
        after = from;
        event_id = some event.event_id;
      })
      db
