-- ===== src/Examples/Creations.antt =====
-- Creating a payment of 100 units under an idempotency key, and showing it.
use oscar_payment_gateway.Prelude.{
  ℕ, ◌≡◌, refl, true, false, none, some, [], ◌∷◌, ◌++◌, any, if◌then◌else◌, arith,
}
use oscar_payment_gateway.Payments.{
  pending, matched, expired, TransitionGuardInput, legal, evaluate_payment_transition,
}
use oscar_payment_gateway.Store.{Text, PaymentScreeningStatus}
use oscar_payment_gateway.Texts.{text_eq}
use oscar_payment_gateway.Screening.{ScreeningVerdict}
use oscar_payment_gateway.Creation.Documents.{
  Books, MerchantWallet, AddressRow, CreatePaymentInput, StoredPaymentResponse,
}
use oscar_payment_gateway.Creation.Effect.{idempotency_conflict}
use oscar_payment_gateway.Creation.Insert.{same_index}
use oscar_payment_gateway.Creation.{
  Services, Fresh, create_payment, CreatePaymentResult, responded, failed_with,
}
use oscar_payment_gateway.Creation.Idempotency.{repeated_creation}
use oscar_payment_gateway.Creation.Stored.{Stored, creation-Stored}
use oscar_payment_gateway.Creation.Indexes.{AreUnique, IndexesBelow}
use oscar_payment_gateway.Creation.Allocation.{creation_indexes}
use oscar_payment_gateway.Creation.View.{PaymentView, ViewResult, shown, get_payment, shown_status}
use oscar_payment_gateway.Creation.Shown.{IsShown, get_payment-IsShown, shown_expired_can_match}
use oscar_payment_gateway.Examples.Samples.{guard, invoice}
use oscar_payment_gateway.Examples.Events.{hex, holding, chain_document, token_document}

abbrev services : Services
services = record {
  expiry_min_sec = 60;
  expiry_max_sec = 600;
  expiry_default_sec = 300;
  idempotency_ttl_sec = 3600;
  network_of = λ chain. some chain;
  derive = λ xpub network index. some (hex 40 b'7');
  screen = λ address chain. some ScreeningVerdict.clear;
  get_address = λ address. some address;
  lower = λ address. address;
  fingerprint = λ i. i.amount;
}

abbrev order : Text → CreatePaymentInput
order amount = record { chain = 1; token = 5; amount = amount; expires_in_sec = some 10 }

abbrev hundred : Text
hundred = b'1' ∷ b'0' ∷ b'0' ∷ []

abbrev key : Text
key = b'k' ∷ []

abbrev wallet : MerchantWallet
wallet = record {
  xpub_id = 6;
  merchant_id = 2;
  chain = 1;
  public_extended_key = some (b'x' ∷ []);
  next_derivation_index = 4;
  active = true;
}

abbrev books : Books
books = record {
  db = holding [];
  chains = chain_document ∷ [];
  tokens = token_document ∷ [];
  active_merchants = 2 ∷ [];
  merchant_wallets = wallet ∷ [];
  addresses = [];
  paid_addresses = [];
  idempotency_keys = [];
  creation_audits = [];
}

abbrev fresh : ℕ → Fresh
fresh now = record { now = now; payment_id = 7; wallet_address_id = 3 }

abbrev no_response : StoredPaymentResponse
no_response = record {
  status_code = 500;
  body = record {
    payment_id = 0;
    status = pending;
    chain = 0;
    token = 0;
    amount = 0;
    recipient_address = [];
    qr_code_data = [];
    expires_at = 0;
    created_at = 0;
    required_confirmations = 0;
    screening_status = PaymentScreeningStatus.pending;
  };
}

abbrev run : CreatePaymentResult × Books
run = create_payment services (some true) (fresh 1000) 2 (order hundred) (some key) books books

abbrev response : CreatePaymentResult → StoredPaymentResponse
response (responded r again) = r
response (failed_with e) = no_response

abbrev answer : StoredPaymentResponse
answer = response run.0

abbrev booked : Books
booked = run.1

ran :
    create_payment services (some true) (fresh 1000) 2 (order hundred) (some key) books books
    ≡ (responded answer false, booked)
unfolding create_payment
ran = refl

creation-Stored_example : Stored services (fresh 1000) 2 (order hundred) books booked answer
creation-Stored_example =
    creation-Stored services (fresh 1000) 2 (order hundred) (some key) books books booked answer
      (omega arith) (omega arith) ran

-- The request is repeated with another amount.
repeated_creation_example :
    create_payment services (some true) (fresh 2000) 2 (order (b'5' ∷ [])) (some key) booked booked
    ≡ (
      (if text_eq hundred (b'5' ∷ [])
          then responded answer true
          else failed_with idempotency_conflict),
      booked,
    )
repeated_creation_example =
    repeated_creation services (fresh 1000) (fresh 2000) 2 (order hundred) (order (b'5' ∷ [])) key
      books books booked answer booked booked ran refl

creation_indexes_example :
    (a : AddressRow) × (booked.addresses ≡ [] ++ a ∷ [])
    × (any (same_index a) [] ≡ false)
    × AreUnique booked.merchant_wallets
    × IndexesBelow booked.merchant_wallets booked.addresses
creation_indexes_example =
    creation_indexes services (fresh 1000) 2 (order hundred) (some key) books books booked answer
      (tt, tt) tt ran

abbrev no_view : PaymentView
no_view = record {
  payment_id = 0;
  status = pending;
  chain = 0;
  token = 0;
  amount = 0;
  amount_received = none;
  partial_amount_received = none;
  excess_amount = none;
  underpayment_flag = false;
  overpayment_flag = false;
  screening_status = PaymentScreeningStatus.pending;
  recipient_address = [];
  qr_code_data = [];
  expires_at = 0;
  created_at = 0;
  required_confirmations = 0;
  confirmations = 0;
  is_confirmed = false;
  matched_at = none;
  confirmed_at = none;
}

abbrev view_or : ViewResult → PaymentView
view_or (shown v) = v
view_or (ViewResult.refused_with e) = no_view

abbrev seen_view : PaymentView
seen_view = view_or (get_payment services.get_address 1500 2 7 booked)

get_payment-IsShown_example : IsShown 1500 2 7 booked seen_view
unfolding get_payment create_payment
get_payment-IsShown_example =
    get_payment-IsShown services.get_address 1500 2 booked seen_view 7 refl

abbrev at_expiry : TransitionGuardInput
at_expiry = record (guard pending matched 0) { now = 1000; expires_at = 1000 }

shown_expired_can_match_example :
    (shown_status 1000 (invoice pending) ≡ expired)
    × (evaluate_payment_transition at_expiry ≡ legal)
shown_expired_can_match_example =
    shown_expired_can_match (invoice pending) at_expiry refl refl refl refl refl refl
