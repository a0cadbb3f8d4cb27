-- ===== src/Store/Writes.antt =====
-- The writes and reads that the services share: conditional payment updates, audit rows, annotations
-- (`#annotate`), the webhook outbox (src/application/webhooks/webhook-outbox.ts), queue jobs.
use oscar_payment_gateway.Prelude.{
  ==_refl, ◌≡◌, ℕ, ◌+◌, Bool, true, false, ◌&&◌, Option, none, some, List, [], ◌∷◌, ◌++◌, ◌==◌,
  if◌then◌else◌, any, put, opt_eq,
}
use oscar_payment_gateway.Payments.{PaymentStatus, is}
use oscar_payment_gateway.Store.Documents.{
  Key, Db, Env, Event, Payment, Annotation, EntityType, payment, on_chain_event, Category, orphan,
  late, partial, excess, reorg, compliance, stale, AuditEntry, WebhookEventType, payment_matched,
  payment_confirmed, payment_expired, payment_failed, WebhookPayload, WebhookDelivery, Job,
  effective_amount,
}

-- `$set` with `change`, and `$inc: { version: 1 }`.
abbrev pub bumped : (Payment → Payment) → Payment → Payment
bumped change p = let q = change p in record q { version = p.version + 1 }

-- `Payment.findOneAndUpdate(filter, { $set, $inc: { version: 1 } })`; `none` when the filter matches
-- no document.
unfoldable pub update_payment : Key → (Payment → Bool) → (Payment → Payment) → Db → Option Db
update_payment id accepts change db = elim (db.payments id) [
  | none ↦ none
  | some p ↦
      if accepts p
      then some (record db { payments = put id (bumped change p) db.payments })
      else none
]

-- The database after a successful update.
abbrev pub updated : Key → (Payment → Payment) → Payment → Db → Db
updated id change p db = record db { payments = put id (bumped change p) db.payments }

pub update_payment-some :
    (id : Key) (accepts : Payment → Bool) (change : Payment → Payment) (p : Payment) (db : Db)
    → db.payments id ≡ some p
    → accepts p ≡ true
    → update_payment id accepts change db ≡ some (updated id change p db)
unfolding update_payment
update_payment-some id accepts change p db found fits = rw (found, update_payment) (rw fits)

pub update_payment-none :
    (id : Key) (accepts : Payment → Bool) (change : Payment → Payment) (p : Payment) (db : Db)
    → db.payments id ≡ some p
    → accepts p ≡ false
    → update_payment id accepts change db ≡ none
unfolding update_payment
update_payment-none id accepts change p db found unfit = rw (found, update_payment) (rw unfit)

pub updated-payments :
    (id : Key) (change : Payment → Payment) (p : Payment) (db : Db)
    → (updated id change p db).payments id ≡ some (bumped change p)
updated-payments id change p db = rw (==_refl id)

-- The filter `{ status, version }` of a snapshot read earlier.
abbrev pub unchanged_since : PaymentStatus → ℕ → Payment → Bool
unchanged_since status version p = is p.status status && p.version == version

unfoldable pub append_audit : AuditEntry → Db → Db
append_audit a db = record db { audits = db.audits ++ a ∷ [] }

abbrev pub same_entity : EntityType → EntityType → Bool
same_entity payment payment = true
same_entity on_chain_event on_chain_event = true
same_entity _ _ = false

abbrev pub same_category : Category → Category → Bool
same_category orphan orphan = true
same_category late late = true
same_category partial partial = true
same_category excess excess = true
same_category reorg reorg = true
same_category compliance compliance = true
same_category stale stale = true
same_category _ _ = false

-- Equality of annotation identifiers.
abbrev pub same_annotation : Annotation → Annotation → Bool
same_annotation a b =
    same_entity a.entity_type b.entity_type
    && a.entity_id == b.entity_id
    && same_category a.category b.category

-- `#annotate`: the unique index turns a second insertion into a no-op.
unfoldable pub annotate : Annotation → Db → Db
annotate a db =
    if any (same_annotation a) db.annotations
    then db
    else record db { annotations = db.annotations ++ a ∷ [] }

abbrev pub annotate_all : List Annotation → Db → Db
annotate_all [] db = db
annotate_all (a ∷ as') db = annotate_all as' (annotate a db)

abbrev pub same_type : WebhookEventType → WebhookEventType → Bool
same_type payment_matched payment_matched = true
same_type payment_confirmed payment_confirmed = true
same_type payment_expired payment_expired = true
same_type payment_failed payment_failed = true
same_type _ _ = false

-- Equality of idempotency keys, which name the payment, the event type and the payment's version.
abbrev pub same_key : WebhookPayload → WebhookPayload → Bool
same_key p q =
    p.payment_id == q.payment_id
    && same_type p.event_type q.event_type
    && p.payment_version == q.payment_version

-- `WebhookOutboxWriter.payloadFor`.
unfoldable pub payload_for : Payment → WebhookEventType → ℕ → WebhookPayload
payload_for p type occurred_at = record {
  payment_id = p.payment_id;
  merchant_id = p.merchant_id;
  event_type = type;
  status = p.status;
  payment_version = p.version;
  chain = p.chain;
  token = p.token;
  amount = p.amount;
  amount_received = p.amount_received;
  excess_amount = p.excess_amount;
  partial_amount_received = p.partial_amount_received;
  transaction_hash = p.transaction_hash;
  occurred_at = occurred_at;
}

abbrev pub has_key : WebhookPayload → WebhookDelivery → Bool
has_key p d = same_key p d.payload

-- `WebhookOutboxWriter.writeInTransaction`.
unfoldable pub write_outbox : Env → WebhookPayload → Db → Option Key × Db
write_outbox env p db = if any (has_key p) db.deliveries then (none, db) else (
  some env.uuid,
  record db { deliveries = db.deliveries ++ record { delivery_id = env.uuid; payload = p } ∷ [] },
)

-- `enqueueConfirmation`, `enqueueWebhookDelivery`.
unfoldable pub enqueue : Job → Db → Db
enqueue j db = record db { jobs = db.jobs ++ j ∷ [] }

-- The filter `{ matchedPaymentId, canonical: true }`.
abbrev pub is_canonical_claim : Key → Event → Bool
is_canonical_claim id e = opt_eq e.matched_payment_id (some id) && e.canonical

-- What the payment's claimed canonical events add up to.
abbrev pub claimed_total : Key → List Event → ℕ
claimed_total id [] = 0
claimed_total id (e ∷ es) =
    (if is_canonical_claim id e then effective_amount e else 0) + claimed_total id es
