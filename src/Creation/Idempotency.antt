-- ===== src/Creation/Idempotency.antt =====
-- A repeated creation under one idempotency key (src/application/payments/payment-service.ts).
use oscar_payment_gateway.Prelude.{
  ℕ, ◌+◌, ◌*◌, ◌≡◌, refl, sym, ap, ◌∙◌, Bool, true, false, Option, none, some, List, [], ◌∷◌, ◌++◌,
  ==_refl, any, find, if-elim, if◌then◌else◌, Bool-cases, inl, inr, arith,
}
use mathlib.Core.Option.{some-injective}
use oscar_payment_gateway.Money.{parse_positive_base_units}
use oscar_payment_gateway.Store.{Key, Text}
use oscar_payment_gateway.Texts.{text_eq}
use oscar_payment_gateway.Texts.Laws.{text_eq_refl}
use oscar_payment_gateway.Creation.Documents.{
  Books, IdempotencyKey, PaymentBody, CreatePaymentInput, StoredPaymentResponse,
}
use oscar_payment_gateway.Creation.Effect.{Ran, returned, raised, idempotency_conflict}
use oscar_payment_gateway.Creation.Insert.{is_key_of, insert_key, with_key}
use oscar_payment_gateway.Creation.Created.{create_in_transaction-Created}
use oscar_payment_gateway.Creation.{
  Services, Fresh, create_in_transaction, create_once, create_payment, create_parsed, unless_stored,
  is_duplicate_key, committed_answer, CreatePaymentResult, responded, failed_with, settle_creation,
  after_race, replay, clamp_expiry_sec,
}

find-appended :
    (p : IdempotencyKey → Bool) (ks : List IdempotencyKey) (k : IdempotencyKey)
    → any p ks ≡ false
    → p k ≡ true
    → find p (ks ++ k ∷ []) ≡ some k
find-appended p [] k none_before fits = rw fits refl
find-appended p (l ∷ ks) k none_before fits =
    let other' : p l ≡ false = ground arith in rw other' (find-appended p ks k (ground arith) fits)

insert_key-find :
    (k : IdempotencyKey) (b after : Books)
    → insert_key k b ≡ some after
    → find (is_key_of k.scope k.key) after.idempotency_keys ≡ some k
unfolding insert_key
insert_key-find k b after h = elim (Bool-cases (any (is_key_of k.scope k.key) b.idempotency_keys)) [
  | inl taken ↦
      let refused : insert_key k b ≡ none = rw (taken, insert_key) refl in
      absurd (ground (arith, refused, h))
  | inr free ↦
      let stored : insert_key k b ≡ some (with_key k b) = rw (free, insert_key) refl in
      ap (λ (c : Books). find (is_key_of k.scope k.key) c.idempotency_keys)
        (some-injective _ _ (sym h ∙ stored))
      ∙ find-appended (is_key_of k.scope k.key) b.idempotency_keys k free
          (rw (==_refl k.scope) (text_eq_refl k.key))
]

abbrev pub response_or : StoredPaymentResponse → CreatePaymentResult → StoredPaymentResponse
response_or d (responded r again) = r
response_or d (failed_with e) = d

abbrev pub again_or : Bool → CreatePaymentResult → Bool
again_or d (responded r again) = again
again_or d (failed_with e) = d

-- What a response that is no replay rests on.
settle_creation-responded :
    (b : Books) (ran : Ran PaymentBody) (r : StoredPaymentResponse) (after : Books)
    → settle_creation b ran ≡ (responded r false, after)
    → (body : PaymentBody) × (ran ≡ returned body after)
      × (r ≡ record { status_code = 201; body = body })
settle_creation-responded b (returned body c) r after h =
    (body, ap (returned body) (ap (λ k. k.1) h), ap (response_or r) (sym (ap (λ k. k.0) h)))
settle_creation-responded b (raised e) r after h =
    absurd (ground (arith, ap (λ k. again_or true k.0) h))

pub create_once-responded :
    (w : Services) (f : Fresh) (merchant : Key) (i : CreatePaymentInput) (fingerprint : Text)
    (key : Option Text) (b : Books) (r : StoredPaymentResponse) (after : Books)
    → create_once w f merchant i fingerprint key b ≡ (responded r false, after)
    → (amount : ℕ) × (body : PaymentBody) × (parse_positive_base_units i.amount ≡ some amount)
      × (create_in_transaction w f merchant i amount
            (clamp_expiry_sec i.expires_in_sec w.expiry_min_sec w.expiry_max_sec
              w.expiry_default_sec)
            fingerprint
            key
            b
          ≡ returned body after)
      × (r ≡ record { status_code = 201; body = body })
unfolding create_once
create_once-responded w f merchant i fingerprint key b r after h =
    go (parse_positive_base_units i.amount) h
  where
    go :
        (parsed : Option ℕ)
        → create_parsed w f merchant i fingerprint key parsed b ≡ (responded r false, after)
        → (amount : ℕ) × (body : PaymentBody) × (parsed ≡ some amount)
          × (create_in_transaction w f merchant i amount
                (clamp_expiry_sec i.expires_in_sec w.expiry_min_sec w.expiry_max_sec
                  w.expiry_default_sec)
                fingerprint
                key
                b
              ≡ returned body after)
          × (r ≡ record { status_code = 201; body = body })
    go none h = absurd (ground (arith, ap (λ k. again_or true k.0) h))
    go (some amount) h =
        let (body, ran, same) = settle_creation-responded b _ r after h in
        (amount, body, refl, ran, same)

replay-again :
    (fingerprint : Text) (k : IdempotencyKey) → again_or true (replay fingerprint k) ≡ true
replay-again fingerprint k = ground arith

committed_answer-again :
    (fingerprint : Text) (o : Option IdempotencyKey)
    → again_or true (committed_answer fingerprint o) ≡ true
committed_answer-again fingerprint none = refl
committed_answer-again fingerprint (some k) = replay-again fingerprint k

-- A response that is no replay does not come from a lookup.
after_race-responded :
    (merchant : Key) (fingerprint key : Text) (c : CreatePaymentResult × Books)
    (r : StoredPaymentResponse) (after : Books)
    → after_race merchant fingerprint key c ≡ (responded r false, after)
    → c ≡ (responded r false, after)
after_race-responded merchant fingerprint key (responded s again, b) r after h = h
after_race-responded merchant fingerprint key (failed_with e, b) r after h =
    absurd (ground (arith, late, ap (λ k. again_or true k.0) h))
  where
    late : again_or true (after_race merchant fingerprint key (failed_with e, b)).0 ≡ true
    late =
        if-elim (λ (k : CreatePaymentResult × Books). again_or true k.0 ≡ true) (is_duplicate_key e)
          (committed_answer fingerprint (find (is_key_of merchant key) b.idempotency_keys), b)
          (failed_with e, b)
          (λ _.
            committed_answer-again fingerprint (find (is_key_of merchant key) b.idempotency_keys))
          (λ _. refl)

create_payment-once :
    (w : Services) (f : Fresh) (merchant : Key) (i : CreatePaymentInput) (key : Text)
    (seen b : Books) (r : StoredPaymentResponse) (after : Books)
    → create_payment w (some true) f merchant i (some key) seen b ≡ (responded r false, after)
    → create_once w f merchant i (w.fingerprint i) (some key) b ≡ (responded r false, after)
unfolding create_payment
create_payment-once w f merchant i key seen b r after h =
    go (find (is_key_of merchant key) seen.idempotency_keys) h
  where
    go :
        (stored : Option IdempotencyKey)
        → unless_stored w f merchant i (w.fingerprint i) key stored b ≡ (responded r false, after)
        → create_once w f merchant i (w.fingerprint i) (some key) b ≡ (responded r false, after)
    go (some k) h =
        absurd (ground (arith, replay-again (w.fingerprint i) k, ap (λ c. again_or true c.0) h))
    go none h = after_race-responded merchant (w.fingerprint i) key _ r after h

abbrev key_with_response :
    Services → Fresh → Key → CreatePaymentInput → Text → StoredPaymentResponse → IdempotencyKey
key_with_response w f merchant i key r = record {
  key = key;
  scope = merchant;
  request_fingerprint = w.fingerprint i;
  response = r;
  created_at = f.now;
  expires_at = f.now + w.idempotency_ttl_sec * 1000;
}

-- The same without a key.
pub create_payment-create_once :
    (w : Services) (f : Fresh) (merchant : Key) (i : CreatePaymentInput) (key : Option Text)
    (seen b : Books) (r : StoredPaymentResponse) (after : Books)
    → create_payment w (some true) f merchant i key seen b ≡ (responded r false, after)
    → create_once w f merchant i (w.fingerprint i) key b ≡ (responded r false, after)
unfolding create_payment
create_payment-create_once w f merchant i none seen b r after h = h
create_payment-create_once w f merchant i (some key) seen b r after h =
    create_payment-once w f merchant i key seen b r after h

-- What a creation under a key stores with it.
created_key :
    (w : Services) (f : Fresh) (merchant : Key) (i : CreatePaymentInput) (key : Text)
    (seen b : Books) (r : StoredPaymentResponse) (after : Books)
    → create_payment w (some true) f merchant i (some key) seen b ≡ (responded r false, after)
    → find (is_key_of merchant key) after.idempotency_keys
      ≡ some (key_with_response w f merchant i key r)
created_key w f merchant i key seen b r after h =
    let (amount, body, parsed, ran, same) =
      create_once-responded w f merchant i (w.fingerprint i) (some key) b r after
        (create_payment-once w f merchant i key seen b r after h) in
    let c =
      create_in_transaction-Created w f merchant i amount _ (w.fingerprint i) (some key) b after
        body ran in
    let row = insert_key-find _ _ after c.written.key_written in
    row
    ∙ ap
        (λ answer.
          some (key_with_response w f merchant i key (record { status_code = 201; body = answer })))
        c.answered
    ∙ ap (λ response. some (key_with_response w f merchant i key response)) (sym same)

-- After a creation under a key, a request of the merchant under this key gets the first response
-- again, marked as replayed, if it has the same fingerprint, and the idempotency conflict
-- otherwise, and changes nothing; where it passes the quota and its first lookup finds what the
-- first creation left under the key.
pub repeated_creation :
    (w : Services) (f later : Fresh) (merchant : Key) (i again : CreatePaymentInput) (key : Text)
    (seen b after : Books) (r : StoredPaymentResponse) (seen' b' : Books)
    → create_payment w (some true) f merchant i (some key) seen b ≡ (responded r false, after)
    → find (is_key_of merchant key) seen'.idempotency_keys
      ≡ find (is_key_of merchant key) after.idempotency_keys
    → create_payment w (some true) later merchant again (some key) seen' b' ≡ (
      (if text_eq (w.fingerprint i) (w.fingerprint again)
          then responded r true
          else failed_with idempotency_conflict),
      b',
    )
unfolding create_payment
repeated_creation w f later merchant i again key seen b after r seen' b' h kept =
    ap (λ o. unless_stored w later merchant again (w.fingerprint again) key o b')
      (kept ∙ created_key w f merchant i key seen b r after h)
