-- ===== src/Creation/Stored.antt =====
-- What a creation leaves in the database that matching and confirmation work on
-- (src/application/payments/payment-service.ts).
use oscar_payment_gateway.Prelude.{
  ℕ, ◌+◌, ◌*◌, ◌≤◌, ◌≡◌, refl, sym, ap, ◌∙◌, Bool, true, false, ◌||◌, Option, none, some, [], ◌∷◌,
  ◌++◌, ◌==◌, ==_refl, any, find, if◌then◌else◌, is_some, put, Bool-cases, Option-cases, inl, inr,
  arith,
}
use mathlib.Core.Option.{some-injective}
use oscar_payment_gateway.Money.{parse_positive_base_units}
use oscar_payment_gateway.Payments.{pending}
use oscar_payment_gateway.Store.{Key, Text, Db, Payment, WalletAddress, assigned}
use oscar_payment_gateway.Screening.{screening_status_for_verdict}
use oscar_payment_gateway.Creation.Documents.{
  Books, MerchantWallet, IdempotencyKey, PaymentBody, CreatePaymentInput, StoredPaymentResponse,
  AddressRow,
}
use oscar_payment_gateway.Creation.Effect.{Ran, returned, raised}
use oscar_payment_gateway.Creation.Reserve.{
  PaymentRegistrySnapshot, reserve_payment_configuration, allocate_wallet, is_usable_chain,
  is_usable_token, has_index_left, is_active_wallet,
}
use oscar_payment_gateway.Creation.Insert.{
  insert_address, insert_payment, insert_key, wallet_of, address_taken, is_key_of, with_address,
  with_payment, payment_taken, with_key,
}
use oscar_payment_gateway.Creation.Created.{Created, KeyWritten, create_in_transaction-Created}
use oscar_payment_gateway.Creation.Idempotency.{create_payment-create_once, create_once-responded}
use oscar_payment_gateway.Creation.{
  Services, Fresh, new_payment, new_address, create_payment, responded, clamp_expiry_sec,
}

-- An insert that succeeded was not refused.
pub guarded-some :
    (t : Bool) (x y : Books) → (if t then none else some x) ≡ some y → (t ≡ false) × (y ≡ x)
guarded-some true x y h = absurd (ground arith)
guarded-some false x y h = (refl, some-injective _ _ (sym h))

-- The database after a step, `d` if it throws.
abbrev db_of : {A : Type 0} → Db → Ran A → Db
db_of d (returned a b) = b.db
db_of d (raised e) = d

reserve-db :
    (chain token : Key) (b mid : Books) (s : PaymentRegistrySnapshot)
    → reserve_payment_configuration chain token b ≡ returned s mid
    → mid.db ≡ b.db
unfolding reserve_payment_configuration
reserve-db chain token b mid s h = ap (db_of b.db) (sym h) ∙ kept
  where
    kept : db_of b.db (reserve_payment_configuration chain token b) ≡ b.db
    kept = elim (Option-cases (find (is_usable_chain chain) b.chains)) [
      | inl absent ↦ rw (absent, reserve_payment_configuration) refl
      | inr (c, found) ↦ elim (Option-cases (find (is_usable_token chain token) b.tokens)) [
        | inl no_token ↦ rw (found, reserve_payment_configuration) (rw no_token refl)
        | inr (t, has_token) ↦ rw (found, reserve_payment_configuration) (rw has_token refl)
      ]
    ]

insert_key-db :
    (k : Option IdempotencyKey) (b after : Books) → KeyWritten k b after → after.db ≡ b.db
unfolding insert_key
insert_key-db none b after h = ap (λ (c : Books). c.db) (sym h)
insert_key-db (some k) b after h =
    let (free, stored) =
      guarded-some (any (is_key_of k.scope k.key) b.idempotency_keys) (with_key k b) after h in
    ap (λ (c : Books). c.db) stored

pub insert_address-done :
    (a : AddressRow) (b after : Books)
    → insert_address a b ≡ some after
    → (any (address_taken a) b.addresses ≡ false) × (after ≡ with_address a b)
unfolding insert_address
insert_address-done a b after h =
    guarded-some (any (address_taken a) b.addresses) (with_address a b) after h

||-left : (a b : Bool) → (a || b) ≡ false → a ≡ false
||-left false b h = refl
||-left true b h = h

pub insert_payment-done :
    (p : Payment) (b after : Books)
    → insert_payment p b ≡ some after
    → (payment_taken p b ≡ false) × (after ≡ with_payment p b)
unfolding insert_payment
insert_payment-done p b after h = guarded-some (payment_taken p b) (with_payment p b) after h

allocate-db :
    (merchant chain : Key) (b mid : Books) (w : MerchantWallet)
    → allocate_wallet merchant chain b ≡ returned w mid
    → mid.db ≡ b.db
unfolding allocate_wallet
allocate-db merchant chain b mid w h = ap (db_of b.db) (sym h) ∙ kept
  where
    kept : db_of b.db (allocate_wallet merchant chain b) ≡ b.db
    kept = elim (Option-cases (find (has_index_left merchant chain) b.merchant_wallets)) [
      | inr (found_wallet, found) ↦ rw (found, allocate_wallet) refl
      | inl absent ↦
          rw (absent, allocate_wallet)
            (elim (Bool-cases
              (is_some (find (is_active_wallet merchant chain) b.merchant_wallets))) [
                | inl active ↦ rw active refl
                | inr inactive ↦ rw inactive refl
              ])
    ]

-- The expiry that is granted is within the configured bounds, as the default is.
pub clamp_expiry_sec_bounds :
    (requested : Option ℕ) (low high default : ℕ)
    → low ≤ default
    → default ≤ high
    → (low ≤ clamp_expiry_sec requested low high default)
      × (clamp_expiry_sec requested low high default ≤ high)
unfolding clamp_expiry_sec
clamp_expiry_sec_bounds none low high default a b = (a, b)
clamp_expiry_sec_bounds (some n) low high default a b = (omega arith, omega arith)

-- The wallet by which matching finds the payment.
abbrev pub receiver : CreatePaymentInput → Services → Fresh → Text → WalletAddress
receiver i w f address = record {
  chain = i.chain;
  normalized_address = w.lower address;
  status = assigned;
  assigned_payment_id = some f.payment_id;
}

abbrev with_creation : AddressRow → Payment → Db → Db
with_creation a p d = record d {
  wallets = d.wallets ++ wallet_of a ∷ [];
  payments = put p.payment_id p d.payments;
}

-- What a creation has left: the pending payment under a new identifier, with the agreed amount and an
-- expiry within the configured bounds; the wallet that receives it; everything else as it was.
pub record Stored (w : Services) (f : Fresh) (merchant : Key) (i : CreatePaymentInput)
    (b after : Books) (r : StoredPaymentResponse) : Type 0 where
  pub payment : Payment
  pub stored : after.db.payments f.payment_id ≡ some payment
  pub was_new : is_some (b.db.payments f.payment_id) ≡ false
  pub others : (id : Key) → (id == f.payment_id) ≡ false → after.db.payments id ≡ b.db.payments id
  pub agreed_amount : parse_positive_base_units i.amount ≡ some payment.amount
  pub starts_pending : payment.status ≡ pending
  pub of_merchant : payment.merchant_id ≡ merchant
  pub not_before : f.now + w.expiry_min_sec * 1000 ≤ payment.expires_at
  pub not_after : payment.expires_at ≤ f.now + w.expiry_max_sec * 1000
  pub receives : after.db.wallets ≡ b.db.wallets ++ receiver i w f r.body.recipient_address ∷ []
  pub same_events : after.db.events ≡ b.db.events
  pub told_id : r.body.payment_id ≡ f.payment_id
  pub told_expiry : r.body.expires_at ≡ payment.expires_at

module _ (w : Services) (f : Fresh) (merchant : Key) (i : CreatePaymentInput)
    (key : Option Text) where
  Created-Stored :
      (amount expiry_sec : ℕ) (b after : Books) (answer : PaymentBody) (r : StoredPaymentResponse)
      → parse_positive_base_units i.amount ≡ some amount
      → w.expiry_min_sec ≤ expiry_sec
      → expiry_sec ≤ w.expiry_max_sec
      → r ≡ record { status_code = 201; body = answer }
      → Created w f merchant i amount expiry_sec (w.fingerprint i) key b after answer
      → Stored w f merchant i b after r
  Created-Stored amount expiry_sec b after answer r parsed low high same c =
      let p =
        new_payment f merchant i amount expiry_sec c.snapshot
          (screening_status_for_verdict c.verdict) in
      let a = new_address w f merchant i c.wallet c.recipient in
      let (_, addressed) =
        insert_address-done a c.allocated c.written.addressed c.written.address_inserted in
      let (untaken, paid) =
        insert_payment-done p c.written.addressed c.written.paid c.written.payment_inserted in
      let free = ||-left (is_some (c.written.addressed.db.payments f.payment_id)) _ untaken in
      let before : c.allocated.db ≡ b.db =
        allocate-db merchant i.chain c.reserved c.allocated c.wallet c.allocates
        ∙ reserve-db i.chain i.token b c.reserved c.snapshot c.reserves in
      let db_paid : after.db ≡ (with_payment p (with_address a c.allocated)).db =
        insert_key-db _ _ after c.written.key_written
        ∙ ap (λ (k : Books). k.db) paid
        ∙ ap (λ (k : Books). (with_payment p k).db) addressed in
      let all : after.db ≡ with_creation a p b.db = db_paid ∙ ap (with_creation a p) before in
      let told = c.answered ∙ ap (λ (k : StoredPaymentResponse). k.body) (sym same) in
      record {
        payment = p;
        stored = ap (λ (d : Db). d.payments f.payment_id) all ∙ (rw (==_refl f.payment_id) refl);
        was_new =
            sym (
              ap (λ (k : Books). is_some (k.db.payments f.payment_id)) addressed
              ∙ ap (λ (d : Db). is_some (d.payments f.payment_id)) before)
            ∙ free;
        others = λ id other'. ap (λ (d : Db). d.payments id) all ∙ (rw other' refl);
        agreed_amount = parsed;
        starts_pending = refl;
        of_merchant = refl;
        not_before = omega arith;
        not_after = omega arith;
        receives =
            ap (λ (d : Db). d.wallets) all
            ∙ ap
                (λ (body : PaymentBody). b.db.wallets ++ receiver i w f body.recipient_address ∷ [])
                told;
        same_events = ap (λ (d : Db). d.events) all;
        told_id = ap (λ (k : PaymentBody). k.payment_id) (sym told);
        told_expiry = ap (λ (k : PaymentBody). k.expires_at) (sym told);
      }

  -- A creation that responds, and not by a replay, has stored a new pending payment of the merchant with
  -- the amount of the request and an expiry within the configured bounds, and the wallet of the address
  -- it tells as the payment's; it changes no other payment and no event. The default expiry is within the
  -- bounds.
  pub creation-Stored :
      (seen b after : Books) (r : StoredPaymentResponse)
      → w.expiry_min_sec ≤ w.expiry_default_sec
      → w.expiry_default_sec ≤ w.expiry_max_sec
      → create_payment w (some true) f merchant i key seen b ≡ (responded r false, after)
      → Stored w f merchant i b after r
  creation-Stored seen b after r low high h =
      let (amount, body, parsed, ran, same) =
        create_once-responded w f merchant i (w.fingerprint i) key b r after
          (create_payment-create_once w f merchant i key seen b r after h) in
      let (at_least, at_most) =
        clamp_expiry_sec_bounds i.expires_in_sec w.expiry_min_sec w.expiry_max_sec
          w.expiry_default_sec low high in
      Created-Stored amount _ b after body r parsed at_least at_most same (
        create_in_transaction-Created w f merchant i amount _ (w.fingerprint i) key b after body
          ran)
