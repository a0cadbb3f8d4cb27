-- ===== src/Creation/Terms.antt =====
-- What a creation is given, and the documents that it makes (src/application/payments/payment-service.ts).
use oscar_payment_gateway.Prelude.{ℕ, ◌+◌, ◌*◌, ◌-◌, false, Option, none, some}
use oscar_payment_gateway.Payments.{pending}
use oscar_payment_gateway.Store.{Key, Text, Payment, PaymentScreeningStatus}
use oscar_payment_gateway.Screening.{ScreeningVerdict}
use oscar_payment_gateway.Creation.Documents.{
  MerchantWallet, AddressRow, IdempotencyKey, PaymentBody, CreatePaymentInput, CreationAudit,
}
use oscar_payment_gateway.Creation.Uri.{PaymentUriInput}
use oscar_payment_gateway.Creation.Reserve.{PaymentRegistrySnapshot}

-- The configuration and the services that a creation uses: `derive` is `deriveReceivingAddress` over the
-- HD-key library, `get_address` is viem's checksum, `screen` is `none` when the screening throws.
pub record Services : Type 0 where
  pub expiry_min_sec : ℕ
  pub expiry_max_sec : ℕ
  pub expiry_default_sec : ℕ
  pub idempotency_ttl_sec : ℕ
  pub network_of : Key → Option Key
  pub derive : Text → Key → ℕ → Option Text
  pub screen : Text → Key → Option ScreeningVerdict
  pub get_address : Text → Option Text
  pub lower : Text → Text
  pub fingerprint : CreatePaymentInput → Text

-- The clock and the two fresh identifiers of a call.
pub record Fresh : Type 0 where
  pub now : ℕ
  pub payment_id : Key
  pub wallet_address_id : Key

-- The payment as it is created.
abbrev pub new_payment :
    Fresh
    → Key
    → CreatePaymentInput
    → ℕ
    → ℕ
    → PaymentRegistrySnapshot
    → PaymentScreeningStatus
    → Payment
new_payment f merchant i amount expiry_sec s screening = record {
  payment_id = f.payment_id;
  merchant_id = merchant;
  chain = i.chain;
  token = i.token;
  wallet_address_id = f.wallet_address_id;
  amount = amount;
  amount_received = none;
  partial_amount_received = none;
  excess_amount = none;
  underpayment_flag = false;
  overpayment_flag = false;
  status = pending;
  version = 0;
  required_confirmations = s.required_confirmations;
  confirmations = 0;
  screening_status = screening;
  automation_hold = false;
  automation_hold_reorg_id = none;
  matched_event_id = none;
  transaction_hash = none;
  expires_at = f.now + expiry_sec * 1000;
  matched_at = none;
  confirmed_at = none;
  terminal_at = none;
  created_at = f.now;
}

abbrev pub new_address :
    Services → Fresh → Key → CreatePaymentInput → MerchantWallet → Text → AddressRow
new_address w f merchant i wallet recipient = record {
  wallet_address_id = f.wallet_address_id;
  merchant_id = merchant;
  chain = i.chain;
  address = recipient;
  normalized_address = w.lower recipient;
  xpub_id = wallet.xpub_id;
  derivation_index = wallet.next_derivation_index - 1;
  assigned_payment_id = f.payment_id;
  assigned_at = f.now;
}

abbrev pub new_audit : Payment → CreationAudit
new_audit p = record {
  merchant_id = p.merchant_id;
  payment_id = p.payment_id;
  amount = p.amount;
  screening_status = p.screening_status;
}

abbrev pub new_body : Payment → Text → Text → ℕ → PaymentBody
new_body p recipient uri now = record {
  payment_id = p.payment_id;
  status = p.status;
  chain = p.chain;
  token = p.token;
  amount = p.amount;
  recipient_address = recipient;
  qr_code_data = uri;
  expires_at = p.expires_at;
  created_at = now;
  required_confirmations = p.required_confirmations;
  screening_status = p.screening_status;
}

abbrev pub new_key : Services → ℕ → Key → Text → Text → PaymentBody → IdempotencyKey
new_key w now merchant key fingerprint body = record {
  key = key;
  scope = merchant;
  request_fingerprint = fingerprint;
  response = record { status_code = 201; body = body };
  created_at = now;
  expires_at = now + w.idempotency_ttl_sec * 1000;
}

abbrev pub uri_input : PaymentRegistrySnapshot → CreatePaymentInput → Text → PaymentUriInput
uri_input s i recipient = record {
  network_chain_id = s.network_chain_id;
  asset_type = s.token_asset_type;
  contract_address = s.token_contract_address;
  recipient_address = recipient;
  amount = i.amount;
}

-- The row of the request, if it has a key.
abbrev pub key_row :
    (PaymentBody → Text → IdempotencyKey) → PaymentBody → Option Text → Option IdempotencyKey
key_row row body none = none
key_row row body (some key) = some (row body key)
