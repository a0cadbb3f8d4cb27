-- ===== src/Creation/View.antt =====
-- What a merchant sees of a payment: `getPayment` (src/application/payments/payment-service.ts).
use oscar_payment_gateway.Prelude.{
  ℕ, Bool, ◌&&◌, Option, none, some, ◌==◌, find, min, if◌then◌else◌, leb,
}
use oscar_payment_gateway.Money.{format_base_units}
use oscar_payment_gateway.Payments.{PaymentStatus, pending, expired, confirmed, is}
use oscar_payment_gateway.Store.{Key, Text, Payment, PaymentScreeningStatus}
use oscar_payment_gateway.Registry.{ChainDocument, TokenDocument}
use oscar_payment_gateway.Creation.Documents.{Books, AddressRow}
use oscar_payment_gateway.Creation.Effect.{CreateError, not_found, internal, type_error}
use oscar_payment_gateway.Creation.Uri.{build_eip681_uri}

pub record PaymentView : Type 0 where
  pub payment_id : Key
  pub status : PaymentStatus
  pub chain : Key
  pub token : Key
  pub amount : ℕ
  pub amount_received : Option ℕ
  pub partial_amount_received : Option ℕ
  pub excess_amount : Option ℕ
  pub underpayment_flag : Bool
  pub overpayment_flag : Bool
  pub screening_status : PaymentScreeningStatus
  pub recipient_address : Text
  pub qr_code_data : Text
  pub expires_at : ℕ
  pub created_at : ℕ
  pub required_confirmations : ℕ
  pub confirmations : ℕ
  pub is_confirmed : Bool
  pub matched_at : Option ℕ
  pub confirmed_at : Option ℕ

-- The status that is shown at a time.
abbrev pub shown_status : ℕ → Payment → PaymentStatus
shown_status now p = if is p.status pending && leb p.expires_at now then expired else p.status

abbrev pub view_of : ℕ → Payment → Text → Text → PaymentView
view_of now p recipient uri = record {
  payment_id = p.payment_id;
  status = shown_status now p;
  chain = p.chain;
  token = p.token;
  amount = p.amount;
  amount_received = p.amount_received;
  partial_amount_received = p.partial_amount_received;
  excess_amount = p.excess_amount;
  underpayment_flag = p.underpayment_flag;
  overpayment_flag = p.overpayment_flag;
  screening_status = p.screening_status;
  recipient_address = recipient;
  qr_code_data = uri;
  expires_at = p.expires_at;
  created_at = p.created_at;
  required_confirmations = p.required_confirmations;
  confirmations = min p.confirmations p.required_confirmations;
  is_confirmed = is (shown_status now p) confirmed;
  matched_at = p.matched_at;
  confirmed_at = p.confirmed_at;
}

pub data ViewResult : Type 0 where
  shown : PaymentView → ViewResult
  refused_with : CreateError → ViewResult

abbrev pub uri_of :
    (Text → Option Text) → Payment → AddressRow → TokenDocument → ChainDocument → Option Text
uri_of get_address p a t c = build_eip681_uri get_address (record {
  network_chain_id = c.network_chain_id;
  asset_type = t.asset_type;
  contract_address = t.contract_address;
  recipient_address = a.address;
  amount = format_base_units p.amount;
})

-- `if (… === null) throw …`.
abbrev pub or_refuse : {A : Type 0} → Option A → CreateError → (A → ViewResult) → ViewResult
or_refuse none e next = refused_with e
or_refuse (some a) e next = next a

abbrev pub link :
    (Text → Option Text) → ℕ → Payment → AddressRow → TokenDocument → ChainDocument → ViewResult
link get_address now p a t c =
    or_refuse (uri_of get_address p a t c) type_error (λ uri. shown (view_of now p a.address uri))

abbrev pub of_merchant : Key → Option Payment → Option Payment
of_merchant merchant none = none
of_merchant merchant (some p) = if p.merchant_id == merchant then some p else none

abbrev pub is_token : Key → TokenDocument → Bool
is_token id t = t.token_id == id

abbrev pub is_chain : Key → ChainDocument → Bool
is_chain id c = c.chain_id == id

abbrev pub is_address_of : Key → Payment → AddressRow → Bool
is_address_of merchant p a = a.merchant_id == merchant && a.wallet_address_id == p.wallet_address_id

abbrev pub on_chain_of :
    (Text → Option Text) → ℕ → Books → Payment → AddressRow → TokenDocument → ViewResult
on_chain_of get_address now b p a t =
    or_refuse (find (is_chain p.chain) b.chains) internal (link get_address now p a t)

abbrev pub with_registry : (Text → Option Text) → ℕ → Books → Payment → AddressRow → ViewResult
with_registry get_address now b p a =
    or_refuse (find (is_token p.token) b.tokens) internal (on_chain_of get_address now b p a)

abbrev pub with_payment_found : (Text → Option Text) → ℕ → Key → Books → Payment → ViewResult
with_payment_found get_address now merchant b p =
    or_refuse (find (is_address_of merchant p) b.addresses) internal
      (with_registry get_address now b p)

-- `getPayment`.
unfoldable pub get_payment : (Text → Option Text) → ℕ → Key → Key → Books → ViewResult
unfolding build_eip681_uri format_base_units
get_payment get_address now merchant payment_id b =
    or_refuse (of_merchant merchant (b.db.payments payment_id)) not_found
      (with_payment_found get_address now merchant b)
