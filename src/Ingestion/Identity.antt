-- ===== src/Ingestion/Identity.antt =====
-- Which transfers share an identity: `deriveEventId`
-- (src/application/ingestion/event-ingestion-service.ts).
use oscar_payment_gateway.Prelude.{
  ℕ, ◌≡◌, ◌↔◌, refl, sym, ap, ◌∙◌, Bool, true, not, Option, none, some, [], ◌∷◌, ◌++◌, ◌==◌, all,
  arith,
}
use mathlib.Core.Option.{some-injective}
use oscar_payment_gateway.Money.{parse_base_units, format_base_units}
use oscar_payment_gateway.Money.RoundTrip.{parse_base_units-format_base_units}
use oscar_payment_gateway.Store.{Key, Text}
use oscar_payment_gateway.Texts.{to_lower}
use oscar_payment_gateway.Ingestion.{
  Naming, derive_event_id, event_id_text, identity_text, event_prefix, native_prefix,
}

abbrev pub has_no_bar : Text → Bool
has_no_bar t = all (λ c. not (c == b'|')) t

-- The transfers that `deriveEventId` does not tell apart.
abbrev pub SameIdentity : Key → Text → Option ℕ → Key → Text → Option ℕ → Type 0
SameIdentity c h none d k none = to_lower h ≡ to_lower k
SameIdentity c h (some l) d k (some m) = (c ≡ d) × (h ≡ k) × (l ≡ m)
SameIdentity _ _ _ _ _ _ = ⊥

head-∷ : {a b : ℕ} {s t : Text} → a ∷ s ≡ b ∷ t → a ≡ b
head-∷ e = ground arith

tail-∷ : {a b : ℕ} {s t : Text} → a ∷ s ≡ b ∷ t → s ≡ t
tail-∷ e = ground arith

-- Texts are cut at their first bar in one way.
split_at_bar :
    (s t r q : Text)
    → has_no_bar s ≡ true
    → has_no_bar t ≡ true
    → s ++ (b'|' ∷ r) ≡ t ++ (b'|' ∷ q)
    → (s ≡ t) × (r ≡ q)
split_at_bar [] [] r q a b e = (refl, tail-∷ e)
split_at_bar [] (c ∷ t) r q a b e = let bar : c ≡ b'|' = sym (head-∷ e) in absurd (ground arith)
split_at_bar (c ∷ s) [] r q a b e = let bar : c ≡ b'|' = head-∷ e in absurd (ground arith)
split_at_bar (c ∷ s) (d ∷ t) r q a b e =
    let same : c ≡ d = head-∷ e in
    let (front, back) = split_at_bar s t r q (ground arith) (ground arith) (tail-∷ e) in
    (ap (λ x. x ∷ s) same ∙ ap (λ x. d ∷ x) front, back)

prefix_cancel : (p s t : Text) → p ++ s ≡ p ++ t → s ≡ t
prefix_cancel [] s t e = e
prefix_cancel (c ∷ p) s t e = prefix_cancel p s t (tail-∷ e)

format_base_units-injective : (m n : ℕ) → format_base_units m ≡ format_base_units n → m ≡ n
format_base_units-injective m n e =
    let read : parse_base_units (format_base_units n) ≡ some m =
      (parse_base_units-format_base_units (format_base_units n) m).1 (sym e) in
    let back : parse_base_units (format_base_units n) ≡ some n =
      (parse_base_units-format_base_units (format_base_units n) n).1 refl in
    some-injective _ _ (sym read ∙ back)

native≢event : (s t : Text) → native_prefix ++ s ≡ event_prefix ++ t → ⊥
native≢event s t e = let first : (b'n' ≡ b'e') = head-∷ e in absurd (omega (arith, first))

module _ (w : Naming) (c d : Key) (h k : Text) where
  identity_text-injective :
      (w.chain_text c ≡ w.chain_text d → c ≡ d)
      → has_no_bar (w.chain_text c) ≡ true
      → has_no_bar (w.chain_text d) ≡ true
      → has_no_bar h ≡ true
      → has_no_bar k ≡ true
      → (l m : ℕ) → identity_text w c h l ≡ identity_text w d k m
      → (c ≡ d) × (h ≡ k) × (l ≡ m)
  unfolding identity_text
  identity_text-injective chains c_plain d_plain h_plain k_plain l m e =
      let (same_chain, rest) =
        split_at_bar (w.chain_text c) (w.chain_text d) (h ++ (b'|' ∷ format_base_units l))
          (k ++ (b'|' ∷ format_base_units m)) c_plain d_plain e in
      let (same_hash, log) =
        split_at_bar h k (format_base_units l) (format_base_units m) h_plain k_plain rest in
      (chains same_chain, same_hash, format_base_units-injective l m log)

  -- Where no digests collide and no two identifiers share a number, and chains and hashes have no
  -- bar, two transfers have one identity exactly when both are native and their hashes agree up to
  -- case, whatever their chains, or both are of tokens and agree in chain, hash and log index.
  pub SameIdentity-iff :
      (l m : Option ℕ)
      → (w.key (event_id_text w c h l) ≡ w.key (event_id_text w d k m)
          → event_id_text w c h l ≡ event_id_text w d k m)
      → ((s t : Text) → w.sha256 s ≡ w.sha256 t → s ≡ t)
      → (w.chain_text c ≡ w.chain_text d → c ≡ d)
      → has_no_bar (w.chain_text c) ≡ true
      → has_no_bar (w.chain_text d) ≡ true
      → has_no_bar h ≡ true
      → has_no_bar k ≡ true
      → (derive_event_id w c h l ≡ derive_event_id w d k m) ↔ SameIdentity c h l d k m
  unfolding derive_event_id event_id_text
  SameIdentity-iff none none keys digests chains c_plain d_plain h_plain k_plain =
      (λ e. prefix_cancel native_prefix _ _ (keys e), λ e. ap (λ t. w.key (native_prefix ++ t)) e)
  SameIdentity-iff none (some m) keys digests chains c_plain d_plain h_plain k_plain =
      (λ e. absurd (native≢event _ _ (keys e)), λ e. absurd e)
  SameIdentity-iff (some l) none keys digests chains c_plain d_plain h_plain k_plain =
      (λ e. absurd (native≢event _ _ (sym (keys e))), λ e. absurd e)
  SameIdentity-iff (some l) (some m) keys digests chains c_plain d_plain h_plain k_plain = (
    λ e.
        identity_text-injective chains c_plain d_plain h_plain k_plain l m
          (digests _ _ (prefix_cancel event_prefix _ _ (keys e))),
    λ e. let (same_chain, same_hash, same_log) = e in cc (same_chain, same_hash, same_log),
  )
