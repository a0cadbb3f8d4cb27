-- ===== src/Ingestion.antt =====
-- Persisting raw on-chain events: EventIngestionService
-- (src/application/ingestion/event-ingestion-service.ts) and the indexes and validators of the
-- on-chain events (src/infrastructure/mongodb/models.ts).
pub mod Identity
pub mod Firsts
pub mod Calls
pub mod FirstWrite
pub mod Replays
use oscar_payment_gateway.Prelude.{
  ℕ, Bool, true, false, not, ◌&&◌, ◌||◌, Option, none, some, List, [], ◌∷◌, ◌++◌, ◌==◌, any, map,
  if◌then◌else◌, is_some, get_or, opt_eq, leb,
}
use oscar_payment_gateway.Money.{parse_base_units, format_base_units}
use oscar_payment_gateway.Store.{
  Key, Text, AssetType, erc20, native, Db, Event, RawEvent, enqueue, interpret_event,
}
use oscar_payment_gateway.Texts.{text_eq, to_lower, evm_address_pattern, transaction_hash_pattern}

pub record IngestEventInput : Type 0 where
  pub chain : Key
  pub asset_type : Option AssetType
  pub transaction_hash : Text
  pub log_index : Option ℕ
  pub block_number : ℕ
  pub block_hash : Key
  pub contract_address : Option Text
  pub from_address : Text
  pub to_address : Text
  pub amount : Text
  pub raw_event : RawEvent
  pub confirmations_at_ingest : Option ℕ

pub record IngestionOutcome : Type 0 where
  pub event_id : Key
  pub replayed : Bool

-- What names stand for: `key` numbers the identifiers, `chain_text` is a chain's identifier, and
-- `sha256` gives the hexadecimal digest of a text.
pub record Naming : Type 0 where
  pub key : Text → Key
  pub chain_text : Key → Text
  pub sha256 : Text → Text

abbrev pub is_native : Option AssetType → Bool
is_native (some native) = true
is_native _ = false

-- `event_` and `native_tx_`.
abbrev pub event_prefix : Text
event_prefix = b'e' ∷ b'v' ∷ b'e' ∷ b'n' ∷ b't' ∷ b'_' ∷ []

abbrev pub native_prefix : Text
native_prefix = b'n' ∷ b'a' ∷ b't' ∷ b'i' ∷ b'v' ∷ b'e' ∷ b'_' ∷ b't' ∷ b'x' ∷ b'_' ∷ []

-- The text `chain|transactionHash|logIndex`.
unfoldable pub identity_text : Naming → Key → Text → ℕ → Text
unfolding format_base_units
identity_text w chain hash log_index =
    w.chain_text chain ++ (b'|' ∷ (hash ++ (b'|' ∷ format_base_units log_index)))

-- The text of an event's identity.
unfoldable pub event_id_text : Naming → Key → Text → Option ℕ → Text
unfolding to_lower identity_text
event_id_text w chain hash none = native_prefix ++ to_lower hash
event_id_text w chain hash (some log_index) =
    event_prefix ++ w.sha256 (identity_text w chain hash log_index)

unfoldable pub derive_event_id : Naming → Key → Text → Option ℕ → Key
unfolding event_id_text
derive_event_id w chain hash log_index = w.key (event_id_text w chain hash log_index)

-- The identity that `ingest` gives to an input.
unfoldable pub input_id : Naming → IngestEventInput → Key
unfolding derive_event_id
input_id w i =
    derive_event_id w i.chain i.transaction_hash
      (if is_native i.asset_type then none else i.log_index)

abbrev lower_opt : Option Text → Option Text
lower_opt none = none
lower_opt (some t) = some (to_lower t)

-- The document that `ingest` inserts, with `normalizeAmount` of the amount as `amount`.
unfoldable pub document : Naming → ℕ → ℕ → IngestEventInput → Event
unfolding to_lower input_id
document w now amount i = record {
  event_id = input_id w i;
  chain = i.chain;
  asset_type = get_or i.asset_type erc20;
  token = none;
  contract_address = i.contract_address;
  normalized_contract_address = lower_opt i.contract_address;
  transaction_hash = i.transaction_hash;
  log_index = i.log_index;
  block_number = i.block_number;
  block_hash = i.block_hash;
  from_address = i.from_address;
  normalized_from_address = to_lower i.from_address;
  to_address = i.to_address;
  normalized_to_address = to_lower i.to_address;
  amount = amount;
  raw_event = i.raw_event;
  interpretation_status = none;
  interpretation_reason = none;
  verified_received_amount = none;
  interpreted_at = none;
  interpretation_revision = none;
  matched_payment_id = none;
  canonical = true;
  confirmations_at_ingest = i.confirmations_at_ingest;
  ingested_at = now;
}

abbrev optional_address : Option Text → Bool
optional_address none = true
optional_address (some t) = evm_address_pattern t

-- A counter of the schema: at most `Number.MAX_SAFE_INTEGER`.
abbrev bounded_counter : ℕ → Bool
bounded_counter n = leb n 9007199254740991

abbrev optional_counter : Option ℕ → Bool
optional_counter none = true
optional_counter (some n) = bounded_counter n

-- The validators of the schema on the transaction's hash, addresses and counters, and what an ERC-20
-- event must have. Identifiers and the block's hash are keys here, which have no pattern.
unfoldable pub is_valid : Event → Bool
is_valid e =
    transaction_hash_pattern e.transaction_hash
    && evm_address_pattern e.from_address
    && evm_address_pattern e.to_address
    && optional_address e.contract_address
    && optional_counter e.log_index
    && bounded_counter e.block_number
    && optional_counter e.confirmations_at_ingest
    && (is_native (some e.asset_type) || (is_some e.contract_address && is_some e.log_index))

-- The unique indexes on the event id, on chain, transaction and log, and on chain and transaction of
-- events without a log.
abbrev pub same_place : Event → Event → Bool
same_place d e =
    d.chain == e.chain
    && text_eq d.transaction_hash e.transaction_hash
    && opt_eq d.log_index e.log_index

unfoldable pub violates_index : Event → Event → Bool
violates_index d e = e.event_id == d.event_id || same_place d e

pub data Insertion : Type 0 where
  inserted duplicate invalid : Insertion

-- `OnChainEvent.create`.
unfoldable pub create_event : Event → Db → Insertion × Db
unfolding is_valid violates_index
create_event d db =
    if not (is_valid d)
    then (invalid, db)
    else if any (violates_index d) db.events
    then (duplicate, db)
    else (inserted, record db { events = db.events ++ d ∷ [] })

-- `enqueueInterpretation` and the outcome; the queue is a parameter that may fail.
abbrev after_create : Key → Bool → Insertion × Db → Option IngestionOutcome × Db
after_create id queue_up (invalid, db) = (none, db)
after_create id queue_up (inserted, db) =
    if queue_up
    then (some (record { event_id = id; replayed = false }), enqueue (interpret_event id) db)
    else (none, db)
after_create id queue_up (duplicate, db) =
    if queue_up
    then (some (record { event_id = id; replayed = true }), enqueue (interpret_event id) db)
    else (none, db)

-- `none`: the call throws. Its writes before the throw stay.
unfoldable pub ingest : Naming → ℕ → Bool → IngestEventInput → Db → Option IngestionOutcome × Db
unfolding parse_base_units document create_event enqueue
ingest w now queue_up i db = elim (parse_base_units i.amount) [
  | none ↦ (none, db)
  | some amount ↦ after_create (input_id w i) queue_up (create_event (document w now amount i) db)
]
