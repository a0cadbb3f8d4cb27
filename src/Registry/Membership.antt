-- ===== src/Registry/Membership.antt =====
-- What `sort` and `filter` keep of the queries' documents (src/application/registry/registry-reader.ts).
use mathlib.Core.List.{Memᴰ}
use mathlib.Core.List.Memᴰ
use oscar_payment_gateway.Prelude.{
  ◌≡◌, sym, ap, ◌∙◌, Bool, true, List, [], ◌∷◌, filter, if-elim, inl, inr, arith,
}
use oscar_payment_gateway.Registry.{insert_by, sort_by}

module _ {A : Type 0} (no_later : A → A → Bool) (x : A) where
  mem_of_insert_by : (a : A) (bs : List A) → Memᴰ x (insert_by no_later a bs) → Memᴰ x (a ∷ bs)
  mem_of_insert_by a [] m = m
  mem_of_insert_by a (b ∷ bs) m =
      if-elim (λ l. Memᴰ x l → Memᴰ x (a ∷ b ∷ bs)) (no_later a b) (a ∷ b ∷ bs)
        (b ∷ insert_by no_later a bs) (λ _ m. m)
        (λ _ m. elim (Memᴰ.cases_cons m) [
          | inl it ↦ Memᴰ.tail (Memᴰ.head it)
          | inr rest ↦ elim (Memᴰ.cases_cons (mem_of_insert_by a bs rest)) [
            | inl it ↦ Memᴰ.head it
            | inr later ↦ Memᴰ.tail (Memᴰ.tail later)
          ]
        ])
        m

  mem-insert_by : (a : A) (bs : List A) → Memᴰ x (a ∷ bs) → Memᴰ x (insert_by no_later a bs)
  mem-insert_by a [] m = m
  mem-insert_by a (b ∷ bs) m =
      if-elim (Memᴰ x) (no_later a b) (a ∷ b ∷ bs) (b ∷ insert_by no_later a bs) (λ _. m)
        (λ _. elim (Memᴰ.cases_cons m) [
          | inl it ↦ Memᴰ.tail (mem-insert_by a bs (Memᴰ.head it))
          | inr rest ↦ elim (Memᴰ.cases_cons rest) [
            | inl it ↦ Memᴰ.head it
            | inr later ↦ Memᴰ.tail (mem-insert_by a bs (Memᴰ.tail later))
          ]
        ])

  pub mem_of_sort_by : (as' : List A) → Memᴰ x (sort_by no_later as') → Memᴰ x as'
  mem_of_sort_by [] m = m
  mem_of_sort_by (a ∷ as') m =
      elim (Memᴰ.cases_cons (mem_of_insert_by a (sort_by no_later as') m)) [
        | inl it ↦ Memᴰ.head it
        | inr rest ↦ Memᴰ.tail (mem_of_sort_by as' rest)
      ]

  pub mem-sort_by : (as' : List A) → Memᴰ x as' → Memᴰ x (sort_by no_later as')
  mem-sort_by [] m = m
  mem-sort_by (a ∷ as') m = mem-insert_by a (sort_by no_later as') (elim (Memᴰ.cases_cons m) [
    | inl it ↦ Memᴰ.head it
    | inr rest ↦ Memᴰ.tail (mem-sort_by as' rest)
  ])

module _ {A : Type 0} (p : A → Bool) (x : A) where
  pub mem_of_filter : (as' : List A) → Memᴰ x (filter p as') → Memᴰ x as' × (p x ≡ true)
  mem_of_filter [] m = absurd (Memᴰ.not-nil m)
  mem_of_filter (a ∷ as') m =
      if-elim (λ l. Memᴰ x l → Memᴰ x (a ∷ as') × (p x ≡ true)) (p a) (a ∷ filter p as')
        (filter p as')
        (λ fits m. elim (Memᴰ.cases_cons m) [
          | inl it ↦ (Memᴰ.head it, ap p it ∙ fits)
          | inr rest ↦ let (there, kept) = mem_of_filter as' rest in (Memᴰ.tail there, kept)
        ])
        (λ _ m. let (there, kept) = mem_of_filter as' m in (Memᴰ.tail there, kept)) m

  pub mem-filter : (as' : List A) → Memᴰ x as' → p x ≡ true → Memᴰ x (filter p as')
  mem-filter [] m fits = m
  mem-filter (a ∷ as') m fits =
      if-elim (Memᴰ x) (p a) (a ∷ filter p as') (filter p as')
        (λ _. elim (Memᴰ.cases_cons m) [
          | inl it ↦ Memᴰ.head it
          | inr rest ↦ Memᴰ.tail (mem-filter as' rest fits)
        ])
        (λ unfit. elim (Memᴰ.cases_cons m) [
          | inl it ↦
              let clash : p a ≡ true = ap p (sym it) ∙ fits in absurd (ground (arith, clash, unfit))
          | inr rest ↦ mem-filter as' rest fits
        ])
