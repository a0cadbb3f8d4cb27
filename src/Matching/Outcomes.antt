-- ===== src/Matching/Outcomes.antt =====
-- What a match reports: `MatchAction` and `ClaimOutcome`, and the audit rows, annotations and outbox
-- rows that the routes share (src/application/processing/payment-matching-service.ts).
use oscar_payment_gateway.Prelude.{
  ℕ, zero, suc, Bool, Option, none, some, List, [], ◌∷◌, if◌then◌else◌,
}
use oscar_payment_gateway.Payments.{PaymentStatus}
use oscar_payment_gateway.Store.{
  Key, Env, Event, Payment, Annotation, payment, on_chain_event, Category, AuditEntry, AuditAction,
  WebhookPayload, Tx, Db, write_get, pure, write_outbox,
}

-- `config.processing`, and whether a webhook dispatcher is configured.
pub record Config : Type 0 where
  pub late_payment_grace_sec : ℕ
  pub overpayment_allow : Bool
  pub has_outbox : Bool

pub data MatchAction : Type 0 where
  claimed_matched : MatchAction
  claimed_partial : MatchAction
  replacement_linked : MatchAction
  excess_linked : MatchAction
  late_arrival_annotated : MatchAction
  orphan_annotated : MatchAction
  skipped : MatchAction

-- A `ClaimOutcome`: the annotations of `postTransaction`, and the deliveries to dispatch.
pub record ClaimOutcome : Type 0 where
  pub action : MatchAction
  pub annotations : List Annotation
  pub delivery_ids : List Key

abbrev pub outcome : MatchAction → ClaimOutcome
outcome a = record { action = a; annotations = []; delivery_ids = [] }

abbrev pub audit_of : Payment → AuditAction → PaymentStatus → Event → AuditEntry
audit_of p action after event = record {
  entity_id = p.payment_id;
  action = action;
  before = p.status;
  after = after;
  event_id = some event.event_id;
}

abbrev pub about_payment : Payment → Category → Annotation
about_payment p c = record { entity_type = payment; entity_id = p.payment_id; category = c }

abbrev pub about_event : Event → Category → Annotation
about_event e c = record { entity_type = on_chain_event; entity_id = e.event_id; category = c }

abbrev pub optional_ids : Option Key → List Key
optional_ids none = []
optional_ids (some d) = d ∷ []

outbox_row : Env → WebhookPayload → Db → List Key × Db
outbox_row env p db = let (d, db') = write_outbox env p db in (optional_ids d, db')

-- The outbox row of a transition, where a dispatcher is configured.
unfoldable pub notify : Config → Env → WebhookPayload → Tx (List Key)
unfolding outbox_row
notify cfg env p = if cfg.has_outbox then write_get (outbox_row env p) else pure []

-- `excess === 0n ? {} : { excessAmount }`.
abbrev pub with_excess : ℕ → Option ℕ → Option ℕ
with_excess zero old = old
with_excess (suc n) old = some (suc n)
