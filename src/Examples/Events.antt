-- ===== src/Examples/Events.antt =====
-- Ingesting and interpreting a token transfer of 100 units to the gateway's wallet.
use mathlib.Core.List.{Memᴰ}
use oscar_payment_gateway.Prelude.{
  ◌↔◌, filter, ℕ, zero, suc, ◌+◌, ◌*◌, ◌≡◌, ◌↔◌, refl, true, false, Option, none, some, List, [],
  ◌∷◌, ◌++◌, arith,
}
use oscar_payment_gateway.Money.{parse_base_units, format_base_units}
use oscar_payment_gateway.Money.RoundTrip.{parse_base_units-format_base_units}
use oscar_payment_gateway.Store.{
  Key, Text, AssetType, erc20, native, string, other, RawEvent, Event, Db, enqueue, interpret_event,
  WalletAddress, assigned,
}
use oscar_payment_gateway.Texts.{pos, matches_hex}
use oscar_payment_gateway.Lifecycle.{DbEvolves-refl, DbEvolves}
use oscar_payment_gateway.Matching.Claims.{has_event_id}
use oscar_payment_gateway.Ingestion.{
  IngestEventInput, Naming, ingest, input_id, derive_event_id, event_id_text, document, is_valid,
}
use oscar_payment_gateway.Ingestion.Identity.{SameIdentity, SameIdentity-iff}
use oscar_payment_gateway.Ingestion.Replays.{IsAccepted, retry_replays, native_collapses}
use oscar_payment_gateway.Ingestion.Calls.{Call, ingest_all}
use oscar_payment_gateway.Ingestion.Firsts.{or_else, to_list}
use oscar_payment_gateway.Ingestion.FirstWrite.{first_write, first_write_wins}
use oscar_payment_gateway.Registry.{
  ChainDocument, TokenDocument, Collation, RegistrySnapshot, RegistryTokenRecord, token_record,
  refresh, verified, balance_delta_required, evm,
}
use oscar_payment_gateway.Registry.Laws.{IsListed, refresh-IsListed}
use oscar_payment_gateway.Interpretation.{
  ReadDelta, agreeing, judge, interpret, applied_outcome, with_outcome, accept,
}
use oscar_payment_gateway.Interpretation.Decode.{transfer_topic, decode_transfer_from_raw}
use oscar_payment_gateway.Interpretation.Acceptance.{Supports, is_on_enabled_chain, judge-accepted}
use oscar_payment_gateway.Interpretation.Outcome.{found_again, interpret-DbEvolves, outcome_stands}

abbrev twelve : Text
twelve = b'1' ∷ b'2' ∷ []

parse_base_units-format_base_units_example :
    (parse_base_units twelve ≡ some 12) ↔ (twelve ≡ format_base_units 12)
parse_base_units-format_base_units_example = parse_base_units-format_base_units twelve 12

abbrev repeated : ℕ → ℕ → Text
repeated zero c = []
repeated (suc n) c = c ∷ repeated n c

abbrev pub hex : ℕ → ℕ → Text
hex n c = b'0' ∷ b'x' ∷ repeated n c

abbrev code : Text → Key
code [] = 0
code (c ∷ t) = c + 2 * code t

-- Chains are named by one character, and digests are the texts themselves.
abbrev names : Naming
names = record { key = code; chain_text = λ c. (b'0' + c) ∷ []; sha256 = λ t. t }

SameIdentity-iff_example :
    (derive_event_id names 1 (hex 64 b'A') none ≡ derive_event_id names 2 (hex 64 b'a') none)
    ↔ SameIdentity 1 (hex 64 b'A') none 2 (hex 64 b'a') none
unfolding event_id_text
SameIdentity-iff_example =
    SameIdentity-iff names 1 2 (hex 64 b'A') (hex 64 b'a') none none (λ _. refl) (λ s t e. e)
      (λ e. absurd (ground arith)) refl refl refl refl

abbrev topic_of : ℕ → Text
topic_of c = b'0' ∷ b'x' ∷ (repeated 24 b'0' ++ repeated 40 c)

-- The capture of a log of 100 units.
abbrev capture : RawEvent
capture = record {
  topics = some (string transfer_topic ∷ string (topic_of b'3') ∷ string (topic_of b'4') ∷ []);
  data_ = string (b'0' ∷ b'x' ∷ (repeated 62 b'0' ++ (b'6' ∷ b'4' ∷ [])));
  value = other;
  from = other;
  to = other;
}

abbrev transfer : Option AssetType → Option ℕ → IngestEventInput
transfer asset log = record {
  chain = 1;
  asset_type = asset;
  transaction_hash = hex 64 b'a';
  log_index = log;
  block_number = 90;
  block_hash = 91;
  contract_address = some (hex 40 b'c');
  from_address = hex 40 b'3';
  to_address = hex 40 b'4';
  amount = b'1' ∷ b'0' ∷ b'0' ∷ [];
  raw_event = capture;
  confirmations_at_ingest = none;
}

abbrev usdc : IngestEventInput
usdc = transfer none (some 7)

abbrev ether : IngestEventInput
ether = transfer (some native) none

abbrev receiving : WalletAddress
receiving = record {
  chain = 1;
  normalized_address = hex 40 b'4';
  status = assigned;
  assigned_payment_id = some 7;
}

abbrev pub holding : List Event → Db
holding events = record {
  payments = λ _. none;
  events = events;
  wallets = receiving ∷ [];
  annotations = [];
  audits = [];
  deliveries = [];
  jobs = [];
}

usdc-IsAccepted : IsAccepted names usdc 100
unfolding parse_base_units is_valid document matches_hex
usdc-IsAccepted = record { parses = refl; valid = refl }

ether-IsAccepted : IsAccepted names ether 100
unfolding parse_base_units is_valid document matches_hex
ether-IsAccepted = record { parses = refl; valid = refl }

abbrev stored_usdc : Db
stored_usdc = (ingest names 5 false usdc (holding [])).1

-- The queue failed in the first ingestion.
retry_replays_example : ingest names 6 true usdc stored_usdc ≡ (
  some (record { event_id = input_id names usdc; replayed = true }),
  enqueue (interpret_event (input_id names usdc)) stored_usdc,
)
retry_replays_example =
    retry_replays names usdc 100 5 6 false (holding []) stored_usdc usdc-IsAccepted
      (DbEvolves-refl stored_usdc)

abbrev calls : List Call
calls =
    record { now = 5; queue_up = true; input = usdc }
    ∷ record { now = 6; queue_up = true; input = ether }
    ∷ record { now = 7; queue_up = true; input = usdc }
    ∷ []

first_write_wins_example :
    filter (has_event_id (input_id names usdc)) (ingest_all names calls (holding [])).events
    ≡ to_list (or_else none (first_write names (input_id names usdc) calls))
first_write_wins_example =
    first_write_wins names calls (holding []) (input_id names usdc) tt refl
      ((λ k. absurd (ground arith)), ((λ _. refl), ((λ k. absurd (ground arith)), tt)))

-- The same hash was ingested on chain 2.
abbrev elsewhere : Event
elsewhere = document names 3 100 (record ether { chain = 2 })

native_collapses_example : ingest names 8 true ether (holding (elsewhere ∷ [])) ≡ (
  some (record { event_id = input_id names ether; replayed = true }),
  enqueue (interpret_event (input_id names ether)) (holding (elsewhere ∷ [])),
)
unfolding document input_id
native_collapses_example =
    native_collapses names ether 100 8 2 (hex 64 b'a') (holding (elsewhere ∷ [])) ether-IsAccepted
      refl refl refl

abbrev pub chain_document : ChainDocument
chain_document = record {
  chain_id = 1;
  network_family = evm;
  network_chain_id = 1;
  rpc_providers = (1, 1) ∷ (2, 2) ∷ [];
  required_confirmations = 3;
  version = 0;
  enabled = true;
  allocation_sequence = 0;
  verified_at = some 2;
}

abbrev pub token_document : TokenDocument
token_document = record {
  token_id = 5;
  chain = 1;
  asset_type = erc20;
  symbol = [];
  contract_address = some (hex 40 b'c');
  normalized_contract_address = some (hex 40 b'c');
  decimals = 6;
  min_amount = 1;
  max_amount = 1000;
  verification_policy = balance_delta_required;
  version = 0;
  enabled = true;
  allocation_sequence = 0;
  verification_status = verified;
  verified_at = some 3;
}

abbrev collation : Collation
collation = record { digest = λ cs ts. 8; no_later = λ a b. true }

abbrev registry : RegistrySnapshot
registry = refresh collation 4 (chain_document ∷ []) (token_document ∷ [])

abbrev token_listed : RegistryTokenRecord
token_listed = token_record token_document 3

token_listed-IsListed : IsListed registry (token_document ∷ []) token_listed
unfolding refresh
token_listed-IsListed = record {
  document = token_document;
  found = Memᴰ.head refl;
  enabled = refl;
  reviewed = refl;
  verified_at = refl;
  on_chain = refl;
  copied = refl;
}

refresh-IsListed_example :
    Memᴰ token_listed registry.tokens ↔ IsListed registry (token_document ∷ []) token_listed
refresh-IsListed_example =
    refresh-IsListed collation 4 (chain_document ∷ []) (token_document ∷ []) token_listed

-- The providers agree that 97 of the 100 units arrived.
abbrev read_delta : ReadDelta
read_delta chain contract holder block = agreeing (some (pos 97))

abbrev captured : Event
captured = document names 5 100 usdc

abbrev nobody : List WalletAddress
nobody = []

judge-accepted_example :
    (is_on_enabled_chain read_delta registry (receiving ∷ []) captured ≡ true)
    × Supports erc20 read_delta registry
        (receiving ∷ [])
        captured
        (judge read_delta registry (receiving ∷ []) captured)
unfolding judge refresh document decode_transfer_from_raw
judge-accepted_example = judge-accepted read_delta registry (receiving ∷ []) captured refl

abbrev interpreted : Db
interpreted = with_outcome 9 8 (accept 5 (some 97)) (input_id names usdc) (holding (captured ∷ []))

-- A second worker finds the chain disabled.
outcome_stands_example :
    interpret read_delta
      (refresh collation 9 [] [])
      10
      (input_id names usdc)
      (some captured)
      nobody
      interpreted
    ≡ (some (found_again (applied_outcome (input_id names usdc) (accept 5 (some 97)))), interpreted)
unfolding interpret refresh document decode_transfer_from_raw
outcome_stands_example =
    outcome_stands read_delta read_delta registry (refresh collation 9 [] []) 9 10
      (input_id names usdc) captured captured (receiving ∷ []) nobody (holding (captured ∷ []))
      interpreted interpreted (applied_outcome (input_id names usdc) (accept 5 (some 97))) refl refl
      (λ _. refl, tt) refl refl (DbEvolves-refl interpreted) (λ _. refl, tt) refl

interpret-DbEvolves_example :
    DbEvolves
      (holding (captured ∷ []))
      (interpret read_delta registry 9
        (input_id names usdc)
        (some captured)
        (receiving ∷ [])
        (holding (captured ∷ []))).1
interpret-DbEvolves_example =
    interpret-DbEvolves read_delta registry 9 (input_id names usdc) (some captured) (receiving ∷ [])
      (holding (captured ∷ []))
