-- ===== src/Creation/Indexes.antt =====
-- The derivation indexes of the merchants' wallets (src/application/payments/payment-service.ts).
use oscar_payment_gateway.Prelude.{
  ℕ, ◌<◌, ◌≡◌, refl, sym, ◌∙◌, subst, Bool, false, some, List, [], ◌∷◌, ◌++◌, ==→eq, any, find, All,
  update_first, Bool-cases, inl, inr, arith,
}
use mathlib.Core.Option.{some-injective}
use oscar_payment_gateway.Creation.Documents.{MerchantWallet, AddressRow}
use oscar_payment_gateway.Creation.Reserve.{next_index}
use oscar_payment_gateway.Creation.Insert.{same_index}

-- Every address of a wallet has an index below the wallet's next one.
abbrev pub IsBelow : MerchantWallet → AddressRow → Type 0
IsBelow w a = w.xpub_id ≡ a.xpub_id → a.derivation_index < w.next_derivation_index

abbrev pub IndexesBelow : List MerchantWallet → List AddressRow → Type 0
IndexesBelow ws as' = All (λ a. All (λ w. IsBelow w a) ws) as'

-- As the unique index on `xpubId` has it.
abbrev pub AreUnique : List MerchantWallet → Type 0
AreUnique [] = Unit
AreUnique (w ∷ ws) = All (λ v. v.xpub_id ≡ w.xpub_id → ⊥) ws × AreUnique ws

pub All-find :
    (P : MerchantWallet → Type 0) (p : MerchantWallet → Bool) (ws : List MerchantWallet)
    (w : MerchantWallet)
    → All P ws
    → find p ws ≡ some w
    → P w
All-find P p [] w hs found = absurd (ground arith)
All-find P p (v ∷ ws) w (h, hs) found = elim (Bool-cases (p v)) [
  | inl here' ↦ subst P (some-injective _ _ (rw here' at found)) h
  | inr later ↦ All-find P p ws w hs (rw later at found)
]

pub All-map :
    {P Q : MerchantWallet → Type 0}
    → ((v : MerchantWallet) → P v → Q v)
    → (ws : List MerchantWallet) → All P ws
    → All Q ws
All-map f [] hs = tt
All-map {P} {Q} f (w ∷ ws) (h, hs) = (f w h, All-map {P = P} {Q = Q} f ws hs)

-- An increment keeps the indexes below.
pub update-IsBelow :
    (p : MerchantWallet → Bool) (ws : List MerchantWallet) (a : AddressRow)
    → All (λ w. IsBelow w a) ws
    → All (λ w. IsBelow w a) (update_first p next_index ws)
update-IsBelow p [] a hs = tt
update-IsBelow p (w ∷ ws) a (h, hs) = elim (Bool-cases (p w)) [
  | inl here' ↦ rw here' (λ same. let below = h same in omega arith, hs)
  | inr later ↦ rw later (h, update-IsBelow p ws a hs)
]

pub update-IndexesBelow :
    (p : MerchantWallet → Bool) (ws : List MerchantWallet) (as' : List AddressRow)
    → IndexesBelow ws as'
    → IndexesBelow (update_first p next_index ws) as'
update-IndexesBelow p ws [] hs = tt
update-IndexesBelow p ws (a ∷ as') (h, hs) =
    (update-IsBelow p ws a h, update-IndexesBelow p ws as' hs)

pub All-absurd :
    (w : MerchantWallet) (n : ℕ) (ws : List MerchantWallet)
    → All (λ v. v.xpub_id ≡ w.xpub_id → ⊥) ws
    → All (λ (v : MerchantWallet). v.xpub_id ≡ w.xpub_id → n < v.next_derivation_index) ws
All-absurd w n [] hs = tt
All-absurd w n (v ∷ ws) (h, hs) = ((λ same. absurd (h same)), All-absurd w n ws hs)

-- The index that is handed out is below the next one of its wallet.
pub handed_out :
    (p : MerchantWallet → Bool) (ws : List MerchantWallet) (w : MerchantWallet)
    → AreUnique ws
    → find p ws ≡ some w
    → All
        (λ (v : MerchantWallet).
          v.xpub_id ≡ w.xpub_id → w.next_derivation_index < v.next_derivation_index)
        (update_first p next_index ws)
handed_out p [] w unique found = absurd (ground arith)
handed_out p (v ∷ ws) w (unique, rest) found = elim (Bool-cases (p v)) [
  | inl here' ↦
      let same : v ≡ w = some-injective _ _ (rw here' at found) in
      rw here' (
        subst
          (λ (u : MerchantWallet).
            All
              (λ (x : MerchantWallet).
                x.xpub_id ≡ u.xpub_id → u.next_derivation_index < x.next_derivation_index)
              (next_index v ∷ ws))
          same ((λ _. omega arith), All-absurd v v.next_derivation_index ws unique))
  | inr later ↦
      let found_later = rw later at found in
      rw later (
        (λ same.
            absurd
              (All-find (λ u. u.xpub_id ≡ v.xpub_id → ⊥) p ws w unique found_later (sym same))),
        handed_out p ws w rest found_later,
      )
]

pub update-AreUnique :
    (p : MerchantWallet → Bool) (ws : List MerchantWallet)
    → AreUnique ws
    → AreUnique (update_first p next_index ws)
update-AreUnique p [] unique = tt
update-AreUnique p (w ∷ ws) (unique, rest) = elim (Bool-cases (p w)) [
  | inl here' ↦ rw here' (unique, rest)
  | inr later ↦ rw later (update-distinct w ws unique, update-AreUnique p ws rest)
]
  where
    update-distinct :
        (w : MerchantWallet) (ws : List MerchantWallet)
        → All (λ v. v.xpub_id ≡ w.xpub_id → ⊥) ws
        → All (λ v. v.xpub_id ≡ w.xpub_id → ⊥) (update_first p next_index ws)
    update-distinct w [] hs = tt
    update-distinct w (v ∷ ws) (h, hs) = elim (Bool-cases (p v)) [
      | inl here' ↦ rw here' (h, hs)
      | inr later ↦ rw later (h, update-distinct w ws hs)
    ]

pub append-IndexesBelow :
    (ws : List MerchantWallet) (as' : List AddressRow) (a : AddressRow)
    → IndexesBelow ws as'
    → All (λ w. IsBelow w a) ws
    → IndexesBelow ws (as' ++ a ∷ [])
append-IndexesBelow ws [] a hs h = (h, tt)
append-IndexesBelow ws (c ∷ as') a (k, hs) h = (k, append-IndexesBelow ws as' a hs h)

-- An index that is not below itself is no address's of the wallet.
pub unused_index :
    (ws : List MerchantWallet) (p : MerchantWallet → Bool) (w : MerchantWallet) (a : AddressRow)
    (as' : List AddressRow)
    → find p ws ≡ some w
    → a.xpub_id ≡ w.xpub_id
    → a.derivation_index ≡ w.next_derivation_index
    → IndexesBelow ws as'
    → any (same_index a) as' ≡ false
unused_index ws p w a [] found owner index hs = refl
unused_index ws p w a (c ∷ as') found owner index (h, hs) =
    let rest = unused_index ws p w a as' found owner index hs in
    elim (Bool-cases (same_index a c)) [
      | inr other' ↦ rw other' rest
      | inl same ↦
          let same_xpub : c.xpub_id ≡ a.xpub_id = ==→eq c.xpub_id a.xpub_id (ground arith) in
          let same_place : c.derivation_index ≡ a.derivation_index =
            ==→eq c.derivation_index a.derivation_index (ground arith) in
          let below = All-find (λ u. IsBelow u c) p ws w h found (sym owner ∙ sym same_xpub) in
          absurd (omega arith)
    ]
