-- ===== src/Registry/Laws.antt =====
-- What the registry's snapshot lists (src/application/registry/registry-reader.ts).
use mathlib.Core.List.{Memᴰ}
use mathlib.Core.List.Memᴰ
use mathlib.Core.Option.{some-injective}
use oscar_payment_gateway.Prelude.{
  ℕ, none, some, ◌↔◌, ◌≡◌, refl, sym, ap, ◌∙◌, subst, Bool, true, List, [], ◌∷◌, ◌==◌, any, filter,
  All, if-elim, Option-cases, inl, inr, arith,
}
use oscar_payment_gateway.Store.{Key}
use oscar_payment_gateway.Registry.Membership.{
  mem_of_filter, mem-filter, mem_of_sort_by, mem-sort_by,
}
use oscar_payment_gateway.Registry.{
  ChainDocument, TokenDocument, RegistryTokenRecord, Collation, insert_by, sort_by,
  is_enabled_chain, is_enabled_token, token_record, token_records, chain_documents, refresh,
  RegistrySnapshot, RegistryChainRecord, chain_records, is_listed_status, chain_no_later,
  token_no_later,
}

module _ {A : Type 0} (P : A → Type 0) (no_later : A → A → Bool) where
  insert_by-All : (a : A) (as' : List A) → P a → All P as' → All P (insert_by no_later a as')
  insert_by-All a [] h hs = (h, tt)
  insert_by-All a (b ∷ bs) h (k, ks) =
      if-elim (All P) (no_later a b) (a ∷ b ∷ bs) (b ∷ insert_by no_later a bs) (λ _. (h, (k, ks)))
        (λ _. (k, insert_by-All a bs h ks))

  pub sort_by-All : (as' : List A) → All P as' → All P (sort_by no_later as')
  sort_by-All [] hs = tt
  sort_by-All (a ∷ as') (h, hs) = insert_by-All a (sort_by no_later as') h (sort_by-All as' hs)

filter-All : {A : Type 0} (p : A → Bool) (as' : List A) → All (λ a. p a ≡ true) (filter p as')
filter-All p [] = tt
filter-All {A} p (a ∷ as') =
    if-elim (All (λ (b : A). p b ≡ true)) (p a) (a ∷ filter p as') (filter p as')
      (λ fits. (fits, filter-All p as')) (λ _. filter-All p as')

abbrev is_record_of : Key → RegistryChainRecord → Bool
is_record_of id c = c.chain_id == id

-- The records of enabled and verified chains lose none of them.
chain_records-any :
    (id : Key) (cs : List ChainDocument)
    → All (λ c. is_enabled_chain c ≡ true) cs
    → any (is_record_of id) (chain_records cs) ≡ any (λ c. c.chain_id == id) cs
chain_records-any id [] hs = refl
chain_records-any id (c ∷ cs) (h, hs) = elim (Option-cases c.verified_at) [
  | inl unverified' ↦ absurd (ground arith)
  | inr (at, verified') ↦ rw (verified', chain_records) (rw (chain_records-any id cs hs) refl)
]

-- The record is that of a token of the collection that is enabled, verified or marked for manual
-- review, was verified at the record's time, and whose chain the snapshot lists.
pub record IsListed (s : RegistrySnapshot) (tokens : List TokenDocument) (r : RegistryTokenRecord)
    : Type 0 where
  pub document : TokenDocument
  pub found : Memᴰ document tokens
  pub enabled : document.enabled ≡ true
  pub reviewed : is_listed_status document.verification_status ≡ true
  pub verified_at : document.verified_at ≡ some r.verified_at
  pub on_chain : any (is_record_of document.chain) s.chains ≡ true
  pub copied : r ≡ token_record document r.verified_at

chain_documents-enabled :
    (o : Collation) (chains : List ChainDocument)
    → All (λ c. is_enabled_chain c ≡ true) (chain_documents o chains)
chain_documents-enabled o chains =
    sort_by-All (λ c. is_enabled_chain c ≡ true) (chain_no_later o) (filter is_enabled_chain chains)
      (filter-All is_enabled_chain chains)

mem_of_token_records :
    (r : RegistryTokenRecord) (ts : List TokenDocument)
    → Memᴰ r (token_records ts)
    → (t : TokenDocument) × Memᴰ t ts
      × (t.verified_at ≡ some r.verified_at)
      × (r ≡ token_record t r.verified_at)
mem_of_token_records r [] m = absurd (Memᴰ.not-nil m)
mem_of_token_records r (t ∷ ts) m = elim (Option-cases t.verified_at) [
  | inl never ↦
      let same : token_records (t ∷ ts) ≡ token_records ts = rw (never, token_records) refl in
      let (u, there, time, copied) = mem_of_token_records r ts (subst (Memᴰ r) same m) in
      (u, Memᴰ.tail there, time, copied)
  | inr (at, verified') ↦
      let same : token_records (t ∷ ts) ≡ token_record t at ∷ token_records ts =
        rw (verified', token_records) refl in
      elim (Memᴰ.cases_cons (subst (Memᴰ r) same m)) [
        | inl it ↦
            let time : r.verified_at ≡ at = ap (λ k. k.verified_at) it in
            (t, Memᴰ.head refl, verified' ∙ ap some (sym time), it ∙ ap (token_record t) (sym time))
        | inr later ↦
            let (u, there, time, copied) = mem_of_token_records r ts later in
            (u, Memᴰ.tail there, time, copied)
      ]
]

mem-token_records :
    (t : TokenDocument) (at : ℕ) (ts : List TokenDocument)
    → Memᴰ t ts
    → t.verified_at ≡ some at
    → Memᴰ (token_record t at) (token_records ts)
mem-token_records t at [] m fits = absurd (Memᴰ.not-nil m)
mem-token_records t at (u ∷ ts) m fits = elim (Option-cases u.verified_at) [
  | inl never ↦ elim (Memᴰ.cases_cons m) [
    | inl it ↦
        let clash : t.verified_at ≡ none = ap (λ k. k.verified_at) it ∙ never in
        absurd (ground (arith, clash, fits))
    | inr rest ↦
        let same : token_records (u ∷ ts) ≡ token_records ts = rw (never, token_records) refl in
        subst (Memᴰ (token_record t at)) (sym same) (mem-token_records t at ts rest fits)
  ]
  | inr (time, verified') ↦
      let same : token_records (u ∷ ts) ≡ token_record u time ∷ token_records ts =
        rw (verified', token_records) refl in
      subst (Memᴰ (token_record t at)) (sym same) (elim (Memᴰ.cases_cons m) [
        | inl it ↦
            let when : at ≡ time =
              some-injective _ _ (sym fits ∙ ap (λ k. k.verified_at) it ∙ verified') in
            Memᴰ.head (ap (λ k. token_record k at) it ∙ ap (token_record u) when)
        | inr rest ↦ Memᴰ.tail (mem-token_records t at ts rest fits)
      ])
]

module _ (o : Collation) (now : ℕ) (chains : List ChainDocument) (tokens : List TokenDocument) where
  same_chains :
      (id : Key)
      → any (is_record_of id) (refresh o now chains tokens).chains
        ≡ any (λ c. c.chain_id == id) (chain_documents o chains)
  unfolding refresh
  same_chains id =
      chain_records-any id (chain_documents o chains) (chain_documents-enabled o chains)

  listed :
      (r : RegistryTokenRecord)
      → Memᴰ r (refresh o now chains tokens).tokens
      → IsListed (refresh o now chains tokens) tokens r
  unfolding refresh
  listed r m =
      let fits = is_enabled_token (chain_documents o chains) in
      let (t, there, time, copied) =
        mem_of_token_records r (sort_by (token_no_later o) (filter fits tokens)) m in
      let (found, kept) =
        mem_of_filter fits t tokens
          (mem_of_sort_by (token_no_later o) t (filter fits tokens) there) in
      record {
        document = t;
        found = found;
        enabled = ground arith;
        reviewed = ground arith;
        verified_at = time;
        on_chain = same_chains t.chain ∙ ground arith;
        copied = copied;
      }

  listing :
      (r : RegistryTokenRecord)
      → IsListed (refresh o now chains tokens) tokens r
      → Memᴰ r (refresh o now chains tokens).tokens
  unfolding refresh
  listing r l =
      let t = l.document in
      let fits = is_enabled_token (chain_documents o chains) in
      let on_chain : any (λ (c : ChainDocument). c.chain_id == t.chain) (chain_documents o chains)
          ≡ true =
        sym (same_chains t.chain) ∙ l.on_chain in
      let is_fit : fits t ≡ true = rw (on_chain, l.enabled, l.reviewed, l.verified_at) refl in
      let there =
        mem-sort_by (token_no_later o) t (filter fits tokens)
          (mem-filter fits t tokens l.found is_fit) in
      subst (λ k. Memᴰ k (refresh o now chains tokens).tokens) (sym l.copied)
        (mem-token_records t r.verified_at (sort_by (token_no_later o) (filter fits tokens)) there
          l.verified_at)

-- A snapshot lists a token exactly when the collection has it, enabled, with a time of verification, and
-- verified or marked for manual review, on a chain that the snapshot lists too.
pub refresh-IsListed :
    (o : Collation) (now : ℕ) (chains : List ChainDocument) (tokens : List TokenDocument)
    (r : RegistryTokenRecord)
    → Memᴰ r (refresh o now chains tokens).tokens ↔ IsListed (refresh o now chains tokens) tokens r
refresh-IsListed o now chains tokens r =
    (listed o now chains tokens r, listing o now chains tokens r)
