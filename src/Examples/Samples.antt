-- ===== src/Examples/Samples.antt =====
-- Sample documents: a payment of 100 units, deposits for it, and what the services read from outside.
use oscar_payment_gateway.Prelude.{
  ℕ, Bool, true, false, Option, none, some, List, [], ◌∷◌, ◌==◌, if◌then◌else◌,
}
use oscar_payment_gateway.Payments.{PaymentStatus, TransitionGuardInput}
use oscar_payment_gateway.Store.{
  Key, Db, Env, Event, Payment, WalletAddress, erc20, accepted, assigned, RawEvent, other,
  PaymentScreeningStatus,
}
use oscar_payment_gateway.Screening.{ScreeningVerdict}
use oscar_payment_gateway.Matching.Outcomes.{Config}
use oscar_payment_gateway.Confirmation.Transitions.{World, Observation, ReviewDecision}

abbrev pub guard : PaymentStatus → PaymentStatus → ℕ → TransitionGuardInput
guard from to confirmations = record {
  from = from;
  to = to;
  now = 50;
  expires_at = 100;
  reorg_grace_ms = 10;
  confirmations = confirmations;
  required_confirmations = 3;
  canonical = true;
  compliance_clear = true;
  qualifying_event_claimed = true;
}

abbrev pub invoice : PaymentStatus → Payment
invoice status = record {
  payment_id = 7;
  merchant_id = 2;
  chain = 1;
  token = 5;
  wallet_address_id = 3;
  amount = 100;
  amount_received = none;
  partial_amount_received = none;
  excess_amount = none;
  underpayment_flag = false;
  overpayment_flag = false;
  status = status;
  version = 4;
  required_confirmations = 3;
  confirmations = 0;
  screening_status = PaymentScreeningStatus.pending;
  automation_hold = false;
  automation_hold_reorg_id = none;
  matched_event_id = some 11;
  transaction_hash = none;
  expires_at = 1000;
  matched_at = none;
  confirmed_at = none;
  terminal_at = none;
  created_at = 0;
}

-- The capture of a log that was not kept.
abbrev pub no_capture : RawEvent
no_capture = record { topics = none; data_ = other; value = other; from = other; to = other }

abbrev pub deposit : Key → ℕ → Option Key → Bool → Event
deposit id amount claimed_by canonical = record {
  event_id = id;
  chain = 1;
  asset_type = erc20;
  token = some 5;
  contract_address = some (12 ∷ []);
  normalized_contract_address = some (12 ∷ []);
  transaction_hash = 40 ∷ [];
  log_index = some 0;
  block_number = 90;
  block_hash = 91;
  from_address = 3 ∷ [];
  normalized_from_address = 3 ∷ [];
  to_address = 4 ∷ [];
  normalized_to_address = 4 ∷ [];
  amount = amount;
  raw_event = no_capture;
  interpretation_status = some accepted;
  interpretation_reason = none;
  verified_received_amount = none;
  interpreted_at = some 6;
  interpretation_revision = some 8;
  matched_payment_id = claimed_by;
  canonical = canonical;
  confirmations_at_ingest = none;
  ingested_at = 5;
}

abbrev pub wallet : WalletAddress
wallet = record {
  chain = 1;
  normalized_address = 4 ∷ [];
  status = assigned;
  assigned_payment_id = some 7;
}

abbrev pub database : Payment → List Event → Db
database p events = record {
  payments = λ id. if id == 7 then some p else none;
  events = events;
  wallets = wallet ∷ [];
  annotations = [];
  audits = [];
  deliveries = [];
  jobs = [];
}

abbrev pub settings : Config
settings = record { late_payment_grace_sec = 1; overpayment_allow = true; has_outbox = true }

abbrev pub at_time : ℕ → Env
at_time now = record { now = now; uuid = 77 }

abbrev pub outside : ℕ → Observation → Option ReviewDecision → ScreeningVerdict → World
outside now seen decision verdict = record {
  now = now;
  now2 = now;
  uuid = 77;
  observe = λ _. seen;
  latest_review_decision = λ _. decision;
  screen = λ _. verdict;
}
