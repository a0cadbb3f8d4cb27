-- ===== src/Store/Documents.antt =====
-- The documents (src/infrastructure/mongodb/models.ts) as records, and the database that holds them.
use oscar_payment_gateway.Prelude.{ℕ, Bool, Option, List, get_or}
use oscar_payment_gateway.Payments.{PaymentStatus}

abbrev pub Key : Type 0
Key = ℕ

abbrev pub Text : Type 0
Text = List ℕ

pub data AssetType : Type 0 where
  erc20 native : AssetType

pub data InterpretationStatus : Type 0 where
  accepted rejected review : InterpretationStatus

pub data InterpretationReason : Type 0 where
  disabled_or_unknown_chain : InterpretationReason
  unknown_or_disabled_token : InterpretationReason
  malformed_log : InterpretationReason
  malformed_transaction : InterpretationReason
  nonzero_value_missing : InterpretationReason
  unknown_recipient : InterpretationReason
  balance_delta_disagreement : InterpretationReason
  balance_delta_unavailable : InterpretationReason
  balance_delta_negative : InterpretationReason

pub data PaymentScreeningStatus : Type 0 where
  clear flagged blocked pending : PaymentScreeningStatus

-- A value of a raw payload, of which only strings are read.
pub data Unknown : Type 0 where
  string : Text → Unknown
  other : Unknown

-- The fields of the verbatim payload that are read; `topics` is `none` when it is not an array.
pub record RawEvent : Type 0 where
  pub topics : Option (List Unknown)
  pub data_ : Unknown
  pub value : Unknown
  pub from : Unknown
  pub to : Unknown

pub record Event : Type 0 where
  pub event_id : Key
  pub chain : Key
  pub asset_type : AssetType
  pub token : Option Key
  pub contract_address : Option Text
  pub normalized_contract_address : Option Text
  pub transaction_hash : Text
  pub log_index : Option ℕ
  pub block_number : ℕ
  pub block_hash : Key
  pub from_address : Text
  pub normalized_from_address : Text
  pub to_address : Text
  pub normalized_to_address : Text
  pub amount : ℕ
  pub raw_event : RawEvent
  pub interpretation_status : Option InterpretationStatus
  pub interpretation_reason : Option InterpretationReason
  pub verified_received_amount : Option ℕ
  pub interpreted_at : Option ℕ
  pub interpretation_revision : Option Key
  pub matched_payment_id : Option Key
  pub canonical : Bool
  pub confirmations_at_ingest : Option ℕ
  pub ingested_at : ℕ

pub record Payment : Type 0 where
  pub payment_id : Key
  pub merchant_id : Key
  pub chain : Key
  pub token : Key
  pub wallet_address_id : Key
  pub amount : ℕ
  pub amount_received : Option ℕ
  pub partial_amount_received : Option ℕ
  pub excess_amount : Option ℕ
  pub underpayment_flag : Bool
  pub overpayment_flag : Bool
  pub status : PaymentStatus
  pub version : ℕ
  pub required_confirmations : ℕ
  pub confirmations : ℕ
  pub screening_status : PaymentScreeningStatus
  pub automation_hold : Bool
  pub automation_hold_reorg_id : Option Key
  pub matched_event_id : Option Key
  pub transaction_hash : Option Text
  pub expires_at : ℕ
  pub matched_at : Option ℕ
  pub confirmed_at : Option ℕ
  pub terminal_at : Option ℕ
  pub created_at : ℕ

pub data WalletAddressStatus : Type 0 where
  available assigned retired : WalletAddressStatus

pub record WalletAddress : Type 0 where
  pub chain : Key
  pub normalized_address : Text
  pub status : WalletAddressStatus
  pub assigned_payment_id : Option Key

pub data EntityType : Type 0 where
  payment on_chain_event : EntityType

pub data Category : Type 0 where
  orphan late partial excess reorg compliance stale : Category

-- The annotation's identifier is a digest of the entity and the category.
pub record Annotation : Type 0 where
  pub entity_type : EntityType
  pub entity_id : Key
  pub category : Category

pub data AuditAction : Type 0 where
  payment_to : PaymentStatus → AuditAction
  payment_partial_accumulated : AuditAction
  payment_replacement_linked : AuditAction
  payment_excess_linked : AuditAction
  payment_transition_rejected : AuditAction
  payment_compliance_hold : AuditAction
  payment_compliance_override_released : AuditAction
  payment_finality_incident : AuditAction

-- What the tests and statements read of an audit row.
pub record AuditEntry : Type 0 where
  pub entity_id : Key
  pub action : AuditAction
  pub before : PaymentStatus
  pub after : PaymentStatus
  pub event_id : Option Key

pub data WebhookEventType : Type 0 where
  payment_matched payment_confirmed payment_expired payment_failed : WebhookEventType

pub record WebhookPayload : Type 0 where
  pub payment_id : Key
  pub merchant_id : Key
  pub event_type : WebhookEventType
  pub status : PaymentStatus
  pub payment_version : ℕ
  pub chain : Key
  pub token : Key
  pub amount : ℕ
  pub amount_received : Option ℕ
  pub excess_amount : Option ℕ
  pub partial_amount_received : Option ℕ
  pub transaction_hash : Option Text
  pub occurred_at : ℕ

-- A row of the webhook outbox; it is written with status `pending` and no attempts.
pub record WebhookDelivery : Type 0 where
  pub delivery_id : Key
  pub payload : WebhookPayload

-- Jobs that were handed to the queues.
pub data Job : Type 0 where
  interpret_event : Key → Job
  confirm_payment : Key → Job
  deliver_webhook : Key → Job

pub record Db : Type 0 where
  pub payments : Key → Option Payment
  pub events : List Event
  pub wallets : List WalletAddress
  pub annotations : List Annotation
  pub audits : List AuditEntry
  pub deliveries : List WebhookDelivery
  pub jobs : List Job

-- What a service reads from outside at the time of a call.
pub record Env : Type 0 where
  pub now : ℕ
  pub uuid : Key

-- `BigInt(event.verifiedReceivedAmount ?? event.amount)`.
abbrev pub effective_amount : Event → ℕ
effective_amount e = get_or e.verified_received_amount e.amount
