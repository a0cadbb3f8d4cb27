-- ===== src/Creation/Documents.antt =====
-- The documents of a payment's creation (src/infrastructure/mongodb/models.ts), and what the service
-- takes and returns (src/application/payments/payment-service.ts).
use oscar_payment_gateway.Prelude.{ℕ, Bool, Option, List}
use oscar_payment_gateway.Payments.{PaymentStatus}
use oscar_payment_gateway.Store.{Key, Text, Db, PaymentScreeningStatus}
use oscar_payment_gateway.Registry.{ChainDocument, TokenDocument}

pub record MerchantWallet : Type 0 where
  pub xpub_id : Key
  pub merchant_id : Key
  pub chain : Key
  pub public_extended_key : Option Text
  pub next_derivation_index : ℕ
  pub active : Bool

-- A wallet address, beside what `Db` keeps of it.
pub record AddressRow : Type 0 where
  pub wallet_address_id : Key
  pub merchant_id : Key
  pub chain : Key
  pub address : Text
  pub normalized_address : Text
  pub xpub_id : Key
  pub derivation_index : ℕ
  pub assigned_payment_id : Key
  pub assigned_at : ℕ

-- What the response to a creation says.
pub record PaymentBody : Type 0 where
  pub payment_id : Key
  pub status : PaymentStatus
  pub chain : Key
  pub token : Key
  pub amount : ℕ
  pub recipient_address : Text
  pub qr_code_data : Text
  pub expires_at : ℕ
  pub created_at : ℕ
  pub required_confirmations : ℕ
  pub screening_status : PaymentScreeningStatus

pub record StoredPaymentResponse : Type 0 where
  pub status_code : ℕ
  pub body : PaymentBody

-- The scope is the merchant's.
pub record IdempotencyKey : Type 0 where
  pub key : Text
  pub scope : Key
  pub request_fingerprint : Text
  pub response : StoredPaymentResponse
  pub created_at : ℕ
  pub expires_at : ℕ

pub record CreationAudit : Type 0 where
  pub merchant_id : Key
  pub payment_id : Key
  pub amount : ℕ
  pub screening_status : PaymentScreeningStatus

pub record Books : Type 0 where
  pub db : Db
  pub chains : List ChainDocument
  pub tokens : List TokenDocument
  pub active_merchants : List Key
  pub merchant_wallets : List MerchantWallet
  pub addresses : List AddressRow
  pub paid_addresses : List Key
  pub idempotency_keys : List IdempotencyKey
  pub creation_audits : List CreationAudit

pub record CreatePaymentInput : Type 0 where
  pub chain : Key
  pub token : Key
  pub amount : Text
  pub expires_in_sec : Option ℕ
