-- ===== src/Creation.antt =====
-- Creating payments: PaymentService (src/application/payments/payment-service.ts). The collections that
-- a creation reads and writes are in Creation/Documents, the
-- transaction in Creation/Transaction.
pub mod Documents
pub mod Effect
pub mod Uri
pub mod Reserve
pub mod Insert
pub mod Terms
pub mod Transaction
pub mod Created
pub mod Idempotency
pub mod Stored
pub mod View
pub mod Shown
pub mod Indexes
pub mod Allocation
use oscar_payment_gateway.Prelude.{
  ℕ, ◌+◌, ◌*◌, ◌-◌, Bool, true, false, not, ◌&&◌, Option, none, some, List, [], ◌∷◌, ◌==◌, find,
  any, min, max, if◌then◌else◌, leb, is_some,
}
use oscar_payment_gateway.Money.{parse_positive_base_units}
use oscar_payment_gateway.Payments.{pending}
use oscar_payment_gateway.Store.{Key, Text, Payment, PaymentScreeningStatus}
use oscar_payment_gateway.Texts.{text_eq}
use oscar_payment_gateway.Screening.{ScreeningVerdict, screening_status_for_verdict}
use Documents.{
  Books, MerchantWallet, AddressRow, IdempotencyKey, PaymentBody, CreatePaymentInput, CreationAudit,
  StoredPaymentResponse,
}
use Effect.{
  Step, Ran, returned, raised, CreateError, validation, not_found, internal, unavailable,
  compliance_hold, rate_limited, idempotency_conflict, conflict, type_error, duplicate_key, ok,
  raise, require, some_or, write_or, get_books, ◌>>=◌, ◌>>◌,
}
use Uri.{PaymentUriInput, build_eip681_uri}
use Reserve.{PaymentRegistrySnapshot, reserve_payment_configuration, allocate_wallet}
use Insert.{insert_address, insert_payment, insert_key, with_creation_audit, is_key_of}
pub use Terms.*
unfoldable pub use Transaction.*

-- `clampExpirySec`.
unfoldable pub clamp_expiry_sec : Option ℕ → ℕ → ℕ → ℕ → ℕ
clamp_expiry_sec none min_sec max_sec default_sec = default_sec
clamp_expiry_sec (some requested) min_sec max_sec default_sec = min (max requested min_sec) max_sec

-- What the rate limiter tells: `none` when it cannot be asked, else whether the call is allowed.
abbrev pub QuotaAnswer : Type 0
QuotaAnswer = Option Bool

pub data CreatePaymentResult : Type 0 where
  responded : StoredPaymentResponse → Bool → CreatePaymentResult
  failed_with : CreateError → CreatePaymentResult

abbrev pub settle_creation : Books → Ran PaymentBody → CreatePaymentResult × Books
settle_creation b (returned body c) =
    (responded (record { status_code = 201; body = body }) false, c)
settle_creation b (raised e) = (failed_with e, b)

abbrev pub create_parsed :
    Services
    → Fresh
    → Key
    → CreatePaymentInput
    → Text
    → Option Text
    → Option ℕ
    → Books
    → CreatePaymentResult × Books
create_parsed w f merchant i fingerprint key none b = (failed_with type_error, b)
create_parsed w f merchant i fingerprint key (some amount) b = settle_creation b (
    create_in_transaction w f merchant i amount
      (clamp_expiry_sec i.expires_in_sec w.expiry_min_sec w.expiry_max_sec w.expiry_default_sec)
      fingerprint key b)

-- `#createPayment`.
unfoldable pub create_once :
    Services
    → Fresh
    → Key
    → CreatePaymentInput
    → Text
    → Option Text
    → Books
    → CreatePaymentResult × Books
unfolding clamp_expiry_sec parse_positive_base_units create_in_transaction
create_once w f merchant i fingerprint key b =
    create_parsed w f merchant i fingerprint key (parse_positive_base_units i.amount) b

-- A stored response, for the same request only.
abbrev pub replay : Text → IdempotencyKey → CreatePaymentResult
replay fingerprint k =
    if text_eq k.request_fingerprint fingerprint
    then responded k.response true
    else failed_with idempotency_conflict

abbrev pub is_duplicate_key : CreateError → Bool
is_duplicate_key duplicate_key = true
is_duplicate_key _ = false

abbrev pub committed_answer : Text → Option IdempotencyKey → CreatePaymentResult
committed_answer fingerprint none = failed_with conflict
committed_answer fingerprint (some k) = replay fingerprint k

-- The `catch` of `createPayment`: after a duplicate key, the committed row answers.
abbrev pub after_race :
    Key → Text → Text → CreatePaymentResult × Books → CreatePaymentResult × Books
after_race merchant fingerprint key (responded r again, b) = (responded r again, b)
after_race merchant fingerprint key (failed_with e, b) =
    if is_duplicate_key e
    then (committed_answer fingerprint (find (is_key_of merchant key) b.idempotency_keys), b)
    else (failed_with e, b)

abbrev pub unless_stored :
    Services
    → Fresh
    → Key
    → CreatePaymentInput
    → Text
    → Text
    → Option IdempotencyKey
    → Books
    → CreatePaymentResult × Books
unless_stored w f merchant i fingerprint key (some k) b = (replay fingerprint k, b)
unless_stored w f merchant i fingerprint key none b =
    after_race merchant fingerprint key (create_once w f merchant i fingerprint (some key) b)

-- `createPayment` past its quota. The first lookup sees `seen`, the transaction and the second lookup
-- run on `b`.
abbrev pub create_keyed :
    Services
    → Fresh
    → Key
    → CreatePaymentInput
    → Text
    → Option Text
    → Books
    → Books
    → CreatePaymentResult × Books
create_keyed w f merchant i fingerprint none seen b = create_once w f merchant i fingerprint none b
create_keyed w f merchant i fingerprint (some key) seen b =
    unless_stored w f merchant i fingerprint key
      (find (is_key_of merchant key) seen.idempotency_keys) b

-- `createPayment`, `#consumeCreationQuota` first.
unfoldable pub create_payment :
    Services
    → QuotaAnswer
    → Fresh
    → Key
    → CreatePaymentInput
    → Option Text
    → Books
    → Books
    → CreatePaymentResult × Books
unfolding create_once
create_payment w none f merchant i key seen b = (failed_with unavailable, b)
create_payment w (some false) f merchant i key seen b = (failed_with rate_limited, b)
create_payment w (some true) f merchant i key seen b =
    create_keyed w f merchant i (w.fingerprint i) key seen b
