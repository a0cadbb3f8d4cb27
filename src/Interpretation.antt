-- ===== src/Interpretation.antt =====
-- Interpreting persisted events against the registry: EventInterpretationService
-- (src/application/ingestion/event-interpretation-service.ts).
pub mod Decode
pub mod Acceptance
pub mod Unique
pub mod Outcome
use oscar_payment_gateway.Prelude.{
  ℕ, Bool, true, false, not, ◌&&◌, Option, none, some, List, [], ◌∷◌, ◌==◌, any, find, update_first,
  if◌then◌else◌, is_some,
}
use oscar_payment_gateway.Money.{format_base_units}
use oscar_payment_gateway.Store.{
  Key, Text, AssetType, erc20, native, InterpretationStatus, accepted, rejected, review,
  InterpretationReason, disabled_or_unknown_chain, unknown_or_disabled_token, malformed_log,
  malformed_transaction, nonzero_value_missing, unknown_recipient, balance_delta_disagreement,
  balance_delta_unavailable, balance_delta_negative, Event, WalletAddress, available, assigned,
  retired, Db,
}
use oscar_payment_gateway.Texts.{text_eq, to_lower, slice, ℤ, pos, negsuc}
use oscar_payment_gateway.Registry.{
  RegistrySnapshot, RegistryTokenRecord, RegistryChainRecord, VerificationPolicy,
  balance_delta_required, event_only,
}
use oscar_payment_gateway.Matching.Claims.{has_event_id}
use Decode.{DecodedTransfer, decode_transfer_from_raw, decode_native_transfer_from_raw}

-- `BalanceDeltaRead`; the decimal text of the delta is the integer that it denotes.
pub data BalanceDeltaRead : Type 0 where
  agreeing : Option ℤ → BalanceDeltaRead
  disagreement unavailable : BalanceDeltaRead

-- `readDelta` of the reader, which asks the chain's providers: chain, contract, holder, block.
abbrev pub ReadDelta : Type 0
ReadDelta = Key → Option Text → Text → ℕ → BalanceDeltaRead

-- What `#finalize` is called with.
pub record Judgement : Type 0 where
  pub status : InterpretationStatus
  pub reason : Option InterpretationReason
  pub token_id : Option Key
  pub verified_received_amount : Option ℕ

abbrev pub refuse : InterpretationReason → Option Key → Judgement
refuse reason token_id = record {
  status = rejected;
  reason = some reason;
  token_id = token_id;
  verified_received_amount = none;
}

abbrev pub refer : InterpretationReason → Key → Judgement
refer reason token_id = record {
  status = review;
  reason = some reason;
  token_id = some token_id;
  verified_received_amount = none;
}

abbrev pub accept : Key → Option ℕ → Judgement
accept token_id amount = record {
  status = accepted;
  reason = none;
  token_id = some token_id;
  verified_received_amount = amount;
}

-- The judgement of a delta that was read for a token.
abbrev pub judge_delta : Key → BalanceDeltaRead → Judgement
judge_delta token_id disagreement = refer balance_delta_disagreement token_id
judge_delta token_id unavailable = refer balance_delta_unavailable token_id
judge_delta token_id (agreeing none) = refer balance_delta_unavailable token_id
judge_delta token_id (agreeing (some (pos n))) =
    if n == 0 then refer balance_delta_negative token_id else accept token_id (some n)
judge_delta token_id (agreeing (some (negsuc n))) = refer balance_delta_negative token_id

-- By the token's verification policy.
abbrev pub judge_policy : Key → VerificationPolicy → BalanceDeltaRead → Judgement
judge_policy token_id balance_delta_required read = judge_delta token_id read
judge_policy token_id event_only read = accept token_id none

abbrev is_usable : WalletAddress → Bool
is_usable a = elim a.status [ available ↦ true | assigned ↦ true | retired ↦ false ]

-- `#isKnownRecipient`.
abbrev pub is_known_recipient : Key → Text → List WalletAddress → Bool
is_known_recipient chain address wallets =
    any
      (λ (a : WalletAddress).
        a.chain == chain && text_eq a.normalized_address address && is_usable a)
      wallets

-- From the found token on, which is the same for both kinds of assets.
unfoldable pub judge_token :
    ReadDelta → List WalletAddress → Event → Option Text → Option RegistryTokenRecord → Judgement
judge_token read_delta wallets e contract none = refuse unknown_or_disabled_token none
judge_token read_delta wallets e contract (some token) =
    if not (is_known_recipient e.chain e.normalized_to_address wallets)
    then refuse unknown_recipient (some token.token_id)
    else judge_policy token.token_id token.verification_policy
        (read_delta e.chain contract e.normalized_to_address e.block_number)

abbrev opt_text_eq : Option Text → Option Text → Bool
opt_text_eq (some s) (some t) = text_eq s t
opt_text_eq none none = true
opt_text_eq _ _ = false

abbrev pub is_token_of : Event → RegistryTokenRecord → Bool
is_token_of e t =
    t.chain == e.chain && opt_text_eq t.normalized_contract_address e.normalized_contract_address

abbrev pub is_native_asset : AssetType → Bool
is_native_asset native = true
is_native_asset erc20 = false

abbrev pub is_native_token_of : Event → RegistryTokenRecord → Bool
is_native_token_of e t = t.chain == e.chain && is_native_asset t.asset_type

-- `0x${address.slice(2).toLowerCase()}`.
abbrev pub lower_address : Text → Text
lower_address t = b'0' ∷ b'x' ∷ to_lower (slice 2 t)

abbrev pub fields_match : Event → DecodedTransfer → Bool
fields_match e d =
    text_eq (lower_address e.normalized_from_address) (to_lower d.from_address)
    && text_eq (lower_address e.normalized_to_address) (to_lower d.to_address)
    && text_eq (format_base_units e.amount) d.amount

abbrev pub native_fields_match : Event → DecodedTransfer → Bool
native_fields_match e d =
    text_eq (to_lower e.normalized_from_address) d.from_address
    && text_eq (to_lower e.normalized_to_address) d.to_address
    && text_eq (format_base_units e.amount) d.amount

abbrev pub matches : (DecodedTransfer → Bool) → Option DecodedTransfer → Bool
matches p none = false
matches p (some d) = p d

-- `#interpretNative`, as far as its call of `#finalize`; the normalized addresses of a stored event
-- are never absent.
unfoldable pub judge_native : ReadDelta → RegistrySnapshot → List WalletAddress → Event → Judgement
unfolding judge_token format_base_units
judge_native read_delta registry wallets e =
    if not (matches (native_fields_match e) (decode_native_transfer_from_raw e.raw_event))
    then refuse malformed_transaction none
    else if e.amount == 0
    then refuse nonzero_value_missing none
    else judge_token read_delta wallets e none (find (is_native_token_of e) registry.tokens)

unfoldable pub judge_erc20 : ReadDelta → RegistrySnapshot → List WalletAddress → Event → Judgement
unfolding judge_token format_base_units
judge_erc20 read_delta registry wallets e =
    if not (matches (fields_match e) (decode_transfer_from_raw e.raw_event))
    then refuse malformed_log none
    else judge_token read_delta wallets e e.normalized_contract_address
        (find (is_token_of e) registry.tokens)

-- The branch on the kind of asset.
unfoldable pub judge_asset :
    AssetType → ReadDelta → RegistrySnapshot → List WalletAddress → Event → Judgement
unfolding judge_native judge_erc20
judge_asset native read_delta registry wallets e = judge_native read_delta registry wallets e
judge_asset erc20 read_delta registry wallets e = judge_erc20 read_delta registry wallets e

-- `interpret`, from the registry's refresh to its call of `#finalize`.
unfoldable pub judge : ReadDelta → RegistrySnapshot → List WalletAddress → Event → Judgement
unfolding judge_asset
judge read_delta registry wallets e =
    if not (any (λ (c : RegistryChainRecord). c.chain_id == e.chain) registry.chains)
    then refuse disabled_or_unknown_chain none
    else judge_asset e.asset_type read_delta registry wallets e

pub record InterpretationOutcome : Type 0 where
  pub event_id : Key
  pub status : InterpretationStatus
  pub reason : Option InterpretationReason
  pub verified_received_amount : Option ℕ
  pub applied : Bool

-- `#existingOutcome`, of an event whose status is set.
abbrev pub existing_outcome : Event → InterpretationStatus → InterpretationOutcome
existing_outcome e status = record {
  event_id = e.event_id;
  status = status;
  reason = e.interpretation_reason;
  verified_received_amount = e.verified_received_amount;
  applied = false;
}

abbrev pub or_keep : {A : Type 0} → Option A → Option A → Option A
or_keep none old = old
or_keep (some a) old = some a

abbrev pub set_outcome : ℕ → Key → Judgement → Event → Event
set_outcome now revision j e = record e {
  interpretation_status = some j.status;
  interpreted_at = some now;
  interpretation_revision = some revision;
  interpretation_reason = or_keep j.reason e.interpretation_reason;
  token = or_keep j.token_id e.token;
  verified_received_amount = or_keep j.verified_received_amount e.verified_received_amount;
}

abbrev pub is_uninterpreted : Key → Event → Bool
is_uninterpreted id e = e.event_id == id && not (is_some e.interpretation_status)

-- Another worker's outcome; `none`: the call throws.
abbrev pub stored_outcome : Option Event → Option InterpretationOutcome
stored_outcome none = none
stored_outcome (some e) = elim e.interpretation_status [
  | some status ↦ some (existing_outcome e status)
  | none ↦ none
]

abbrev pub applied_outcome : Key → Judgement → InterpretationOutcome
applied_outcome id j = record {
  event_id = id;
  status = j.status;
  reason = j.reason;
  verified_received_amount = j.verified_received_amount;
  applied = true;
}

abbrev pub with_outcome : ℕ → Key → Judgement → Key → Db → Db
with_outcome now revision j id db = record db {
  events = update_first (is_uninterpreted id) (set_outcome now revision j) db.events;
}

-- `#finalize`.
unfoldable pub finalize : ℕ → Key → Judgement → Key → Db → Option InterpretationOutcome × Db
finalize now revision j id db =
    if any (is_uninterpreted id) db.events
    then (some (applied_outcome id j), with_outcome now revision j id db)
    else (stored_outcome (find (has_event_id id) db.events), db)

-- The early return for an event whose status is set.
abbrev pub unless_interpreted :
    Event
    → Option InterpretationStatus
    → Db
    → Option InterpretationOutcome × Db
    → Option InterpretationOutcome × Db
unless_interpreted e (some status) db next = (some (existing_outcome e status), db)
unless_interpreted e none db next = next

-- `interpret`: the event as it was read first, the wallets as they were looked up, and the database at
-- the conditional update may come from three times. `none`: the call throws.
unfoldable pub interpret :
    ReadDelta
    → RegistrySnapshot
    → ℕ
    → Key
    → Option Event
    → List WalletAddress
    → Db
    → Option InterpretationOutcome × Db
unfolding judge finalize
interpret read_delta registry now id none wallets db = (none, db)
interpret read_delta registry now id (some e) wallets db =
    unless_interpreted e e.interpretation_status db
      (finalize now registry.revision (judge read_delta registry wallets e) id db)
