-- ===== src/Creation/Shown.antt =====
-- What a shown payment says of the stored one (src/application/payments/payment-service.ts).
use oscar_payment_gateway.Prelude.{
  find-fits, find-mem, ℕ, ◌≤◌, ◌≡◌, ◌↔◌, refl, sym, ap, subst, Bool, true, false, ◌&&◌, Option,
  none, some, ◌==◌, ==→eq, find, if◌then◌else◌, leb, ltb, Bool-cases, inl, inr, arith,
}
use mathlib.Core.List.{Memᴰ}
use mathlib.Core.Option.{some-injective}
use oscar_payment_gateway.Payments.{
  PaymentStatus, pending, matched, confirming, confirmed, expired, failed, is, TransitionGuardInput,
  legal, evaluate_payment_transition,
}
use oscar_payment_gateway.Store.{Key, Text, Payment}
use oscar_payment_gateway.Creation.Documents.{Books, AddressRow}
use oscar_payment_gateway.Creation.Effect.{CreateError, internal, type_error, not_found}
use oscar_payment_gateway.Creation.View.{
  or_refuse, uri_of, is_token, is_chain, is_address_of, on_chain_of, PaymentView, ViewResult, shown,
  refused_with, shown_status, view_of, link, of_merchant, with_registry, with_payment_found,
  get_payment,
}

confirmed_shown :
    (s : PaymentStatus) (late : Bool)
    → (is (if is s pending && late then expired else s) confirmed ≡ true) ↔ (s ≡ confirmed)
confirmed_shown pending true = ((λ h. absurd (ground arith)), (λ h. absurd (ground arith)))
confirmed_shown pending false = ((λ h. absurd (ground arith)), (λ h. absurd (ground arith)))
confirmed_shown matched late = ((λ h. absurd (ground arith)), (λ h. absurd (ground arith)))
confirmed_shown confirming late = ((λ h. absurd (ground arith)), (λ h. absurd (ground arith)))
confirmed_shown confirmed late = ((λ _. refl), (λ _. refl))
confirmed_shown expired late = ((λ h. absurd (ground arith)), (λ h. absurd (ground arith)))
confirmed_shown failed late = ((λ h. absurd (ground arith)), (λ h. absurd (ground arith)))

-- The stored payment behind a view.
pub record IsShown (now : ℕ) (merchant id : Key) (b : Books) (v : PaymentView) : Type 0 where
  pub payment : Payment
  pub stored : b.db.payments id ≡ some payment
  pub owned : payment.merchant_id ≡ merchant
  pub confirmed_iff : (v.is_confirmed ≡ true) ↔ (payment.status ≡ confirmed)
  pub status : v.status ≡ shown_status now payment
  pub at_most_required : v.confirmations ≤ payment.required_confirmations
  pub address : AddressRow
  pub found : Memᴰ address b.addresses
  pub address_owned : address.merchant_id ≡ merchant
  pub address_assigned : address.wallet_address_id ≡ payment.wallet_address_id
  pub recipient : v.recipient_address ≡ address.address

refused≢shown : {e : CreateError} {v : PaymentView} → refused_with e ≡ shown v → ⊥
refused≢shown h = subst IsRefused h tt
  where
    IsRefused : ViewResult → Type 0
    IsRefused (refused_with e) = Unit
    IsRefused (shown v) = ⊥

shown-injective : {u v : PaymentView} → shown u ≡ shown v → u ≡ v
shown-injective {u} h = ap (view_or u) h
  where
    view_or : PaymentView → ViewResult → PaymentView
    view_or d (shown v) = v
    view_or d (refused_with e) = d

-- A result that depends on a lookup is shown only if something was found.
found-shown :
    {A : Type 0} (o : Option A) (e : CreateError) (f : A → ViewResult) (v : PaymentView)
    → or_refuse o e f ≡ shown v
    → (a : A) × (o ≡ some a) × (f a ≡ shown v)
found-shown none e f v h = absurd (refused≢shown h)
found-shown (some a) e f v h = (a, refl, h)

of_merchant-some :
    (merchant : Key) (o : Option Payment) (p : Payment)
    → of_merchant merchant o ≡ some p
    → (o ≡ some p) × (p.merchant_id ≡ merchant)
of_merchant-some merchant none p h = absurd (ground arith)
of_merchant-some merchant (some q) p h = elim (Bool-cases (q.merchant_id == merchant)) [
  | inl mine ↦
      let same : q ≡ p = some-injective _ _ (rw mine at h) in
      (ap some same, subst (λ (k : Payment). k.merchant_id ≡ merchant) same (==→eq _ _ mine))
  | inr other' ↦ let nothing = rw other' at h in absurd (ground (arith, nothing))
]

module _ (get_address : Text → Option Text) (now : ℕ) (merchant : Key) (b : Books)
    (v : PaymentView) where
  view_of-IsShown :
      (id : Key) (p : Payment) (a : AddressRow) (uri : Text)
      → b.db.payments id ≡ some p
      → p.merchant_id ≡ merchant
      → Memᴰ a b.addresses
      → a.merchant_id ≡ merchant
      → a.wallet_address_id ≡ p.wallet_address_id
      → view_of now p a.address uri ≡ v
      → IsShown now merchant id b v
  view_of-IsShown id p a uri stored owned found address_owned assigned' same = record {
    payment = p;
    stored = stored;
    owned = owned;
    confirmed_iff =
        subst (λ (k : PaymentView). (k.is_confirmed ≡ true) ↔ (p.status ≡ confirmed)) same
          (confirmed_shown p.status (leb p.expires_at now));
    status = ap (λ (k : PaymentView). k.status) (sym same);
    at_most_required =
        subst (λ (k : PaymentView). k.confirmations ≤ p.required_confirmations) same (omega arith);
    address = a;
    found = found;
    address_owned = address_owned;
    address_assigned = assigned';
    recipient = ap (λ (k : PaymentView). k.recipient_address) (sym same);
  }

  with_registry-shown :
      (p : Payment) (a : AddressRow)
      → with_registry get_address now b p a ≡ shown v
      → (uri : Text) × (view_of now p a.address uri ≡ v)
  with_registry-shown p a h =
      let (t, _, h1) =
        found-shown (find (is_token p.token) b.tokens) internal (on_chain_of get_address now b p a)
          v h in
      let (c, _, h2) =
        found-shown (find (is_chain p.chain) b.chains) internal (link get_address now p a t) v h1 in
      let (uri, _, h3) =
        found-shown (uri_of get_address p a t c) type_error (λ u. shown (view_of now p a.address u))
          v h2 in
      (uri, shown-injective h3)

  -- A payment that is shown to a merchant is stored and the merchant's, and the address shown is that of a
  -- stored row of the merchant with the payment's wallet address; it is shown as confirmed exactly when it
  -- is, and never with more confirmations than it requires.
  pub get_payment-IsShown :
      (id : Key) → get_payment get_address now merchant id b ≡ shown v → IsShown now merchant id b v
  unfolding get_payment
  get_payment-IsShown id h =
      let (p, mine, h1) =
        found-shown (of_merchant merchant (b.db.payments id)) not_found
          (with_payment_found get_address now merchant b) v h in
      let (stored, owned) = of_merchant-some merchant (b.db.payments id) p mine in
      let (a, found, h2) =
        found-shown (find (is_address_of merchant p) b.addresses) internal
          (with_registry get_address now b p) v h1 in
      let fits = find-fits (is_address_of merchant p) b.addresses a found in
      let (uri, same) = with_registry-shown p a h2 in
      view_of-IsShown id p a uri stored owned
        (find-mem (is_address_of merchant p) b.addresses a found)
        (==→eq a.merchant_id merchant (ground arith))
        (==→eq a.wallet_address_id p.wallet_address_id (ground arith)) same

-- At the very time of its expiry a pending payment is shown as expired, while the state machine still lets
-- a qualifying event match it.
pub shown_expired_can_match :
    (p : Payment) (i : TransitionGuardInput)
    → p.status ≡ pending
    → i.from ≡ pending
    → i.to ≡ matched
    → i.expires_at ≡ p.expires_at
    → i.now ≡ p.expires_at
    → i.qualifying_event_claimed ≡ true
    → (shown_status i.now p ≡ expired) × (evaluate_payment_transition i ≡ legal)
unfolding evaluate_payment_transition
shown_expired_can_match p i status from to same now' claimed =
    let shown_late : leb p.expires_at i.now ≡ true = ground arith in
    let in_time : ltb i.expires_at i.now ≡ false = ground arith in
    (rw (status, shown_late) refl, rw (from, to, in_time, claimed) refl)
