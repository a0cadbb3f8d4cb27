-- ===== src/ScreeningCache/Verdicts.antt =====
-- When a screening is clear (src/application/compliance/screening-service.ts).
use oscar_payment_gateway.Prelude.{
  ◌≡◌, ◌≢◌, ◌⊎◌, inl, inr, refl, ap, ◌∙◌, sym, subst, Bool, true, false, Option, none, some, List,
  [], ◌∷◌, ◌++◌, if-elim, ltb, filter, get_or, Bool-cases, Option-cases, arith,
}
use mathlib.Core.Option.{some-injective}
use oscar_payment_gateway.Screening.{clear}
use oscar_payment_gateway.ScreeningCache.{
  ProviderAnswer, ScreeningRequest, ScreeningResult, ScreeningRow, ScreeningWorld, well_formed,
  fresh_result, is_unexpired_for, latest, later_row, fresh_row, list_moved, unless_moved,
  reusable_verdict, screen, screen_with, failure_answer, malformed_result, is_empty,
}

-- A row of a cache.
pub data IsCached (row : ScreeningRow) : List ScreeningRow → Type 0 where
  first : {rows : List ScreeningRow} → IsCached row (row ∷ rows)
  later :
      {other : ScreeningRow} {rows : List ScreeningRow}
      → IsCached row rows
      → IsCached row (other ∷ rows)

IsCached-cons :
    {row one : ScreeningRow} {rows : List ScreeningRow}
    → IsCached row (one ∷ rows)
    → (row ≡ one) ⊎ IsCached row rows
IsCached-cons first = inl refl
IsCached-cons (later h) = inr h

pub IsCached-filter :
    (p : ScreeningRow → Bool) (rows : List ScreeningRow) (row : ScreeningRow)
    → IsCached row (filter p rows)
    → IsCached row rows × (p row ≡ true)
IsCached-filter p [] row h = elim h [ ]
IsCached-filter p (one ∷ rows) row h = elim (Bool-cases (p one)) [
  | inl here ↦
      let kept : filter p (one ∷ rows) ≡ one ∷ filter p rows = rw here in
      elim (IsCached-cons (subst (IsCached row) kept h)) [
        | inl e ↦
            (subst (λ (r : ScreeningRow). IsCached r (one ∷ rows)) (sym e) first, ap p e ∙ here)
        | inr rest ↦
            let (cached, accepted) = IsCached-filter p rows row rest in (later cached, accepted)
      ]
  | inr away ↦
      let kept : filter p (one ∷ rows) ≡ filter p rows = rw away in
      let (cached, accepted) = IsCached-filter p rows row (subst (IsCached row) kept h) in
      (later cached, accepted)
]

module _ (w : ScreeningWorld) where
  IsCached-later_row :
      (one : ScreeningRow) (rows : List ScreeningRow) (o : Option ScreeningRow)
      → ((r : ScreeningRow) → o ≡ some r → IsCached r rows)
      → IsCached (later_row w one o) (one ∷ rows)
  IsCached-later_row one rows none rest = first
  IsCached-later_row one rows (some other) rest =
      if-elim (λ (r : ScreeningRow). IsCached r (one ∷ rows)) (ltb other.checked_at one.checked_at)
        one other (λ _. first) (λ _. later (rest other refl))

  pub IsCached-latest :
      (rows : List ScreeningRow) (row : ScreeningRow) → latest w rows ≡ some row → IsCached row rows
  IsCached-latest [] row e = absurd (ground arith)
  IsCached-latest (one ∷ rows) row e =
      subst (λ (r : ScreeningRow). IsCached r (one ∷ rows)) (some-injective _ _ e)
        (IsCached-later_row one rows (latest w rows) (IsCached-latest rows))

  accepted_result :
      (o : Option ScreeningResult)
      → (get_or o (malformed_result w)).verdict ≡ clear
      → o ≡ some (get_or o (malformed_result w))
  accepted_result none e = absurd (ground arith)
  accepted_result (some r) e = refl

  failure_not_clear : (get_or (well_formed (failure_answer w)) (malformed_result w)).verdict ≢ clear
  unfolding well_formed
  failure_not_clear =
      if-elim (λ (o : Option ScreeningResult). (get_or o (malformed_result w)).verdict ≢ clear)
        (is_empty w.provider_id) _ _ (λ _. ground arith) (λ _. ground arith)

  -- A clear result of a fresh call is the provider's own, in a well-formed answer.
  fresh_clear :
      (request : ScreeningRequest)
      → (fresh_result w request).verdict ≡ clear
      → (answer : ProviderAnswer) × (w.screen_provider request ≡ some answer)
        × (well_formed answer ≡ some (fresh_result w request))
  unfolding fresh_result
  fresh_clear request now_clear = elim (Option-cases (w.screen_provider request)) [
    | inl silent ↦ absurd (
        failure_not_clear (
          subst
            (λ (o : Option ProviderAnswer).
              (get_or (well_formed (get_or o (failure_answer w))) (malformed_result w)).verdict
              ≡ clear)
            silent now_clear))
    | inr (answer, spoke) ↦ (
      answer,
      spoke,
      ap (λ (o : Option ProviderAnswer). well_formed (get_or o (failure_answer w))) (sym spoke)
          ∙ accepted_result (well_formed (get_or (w.screen_provider request) (failure_answer w)))
              now_clear,
    )
  ]

  reused_row :
      (o : Option ScreeningRow) (result : ScreeningResult)
      → unless_moved w o ≡ some result
      → (row : ScreeningRow) × (o ≡ some row)
        × (list_moved w w.active_list_version row ≡ false)
        × (row.result ≡ result)
  reused_row none result e = absurd (ground arith)
  reused_row (some row) result e = elim (Bool-cases (list_moved w w.active_list_version row)) [
    | inl moved ↦ absurd (ground arith)
    | inr same ↦ (row, refl, same, some-injective _ _ (sym (rw same) ∙ e))
  ]

  pub screen_miss :
      (request : ScreeningRequest) (cache : List ScreeningRow)
      → reusable_verdict w request cache ≡ none
      → screen w request cache ≡ (fresh_result w request, cache ++ fresh_row w request ∷ [])
  unfolding screen screen_with
  screen_miss request cache miss = ap (screen_with w request cache) miss

  pub screen_hit :
      (request : ScreeningRequest) (cache : List ScreeningRow) (cached : ScreeningResult)
      → reusable_verdict w request cache ≡ some cached
      → screen w request cache ≡ (cached, cache)
  unfolding screen screen_with
  screen_hit request cache cached hit = ap (screen_with w request cache) hit

  -- A screening that is clear rests on a clear verdict: either the provider answered the call with a
  -- well-formed clear result, or a cached clear verdict stands for the same address and chain, has not
  -- expired, and is not of another list version than the provider tells. A failing provider and a
  -- malformed answer never clear an address.
  pub clear_requires :
      (request : ScreeningRequest) (cache : List ScreeningRow)
      → (screen w request cache).0.verdict ≡ clear
      → ((answer : ProviderAnswer) × (w.screen_provider request ≡ some answer)
          × (well_formed answer ≡ some (screen w request cache).0))
        ⊎ ((row : ScreeningRow) × IsCached row cache
            × (is_unexpired_for w request row ≡ true)
            × (list_moved w w.active_list_version row ≡ false)
            × (row.result.verdict ≡ clear))
  unfolding reusable_verdict
  clear_requires request cache now_clear = elim (Option-cases (reusable_verdict w request cache)) [
    | inl miss ↦
        let answered =
          ap (λ (r : ScreeningResult × List ScreeningRow). r.0) (screen_miss request cache miss) in
        let (answer, spoke, fine) =
          fresh_clear request
            (sym (ap (λ (r : ScreeningResult). r.verdict) answered) ∙ now_clear) in
        inl (answer, spoke, fine ∙ ap (λ (r : ScreeningResult). some r) (sym answered))
    | inr (cached, hit) ↦
        let answered =
          ap (λ (r : ScreeningResult × List ScreeningRow). r.0)
            (screen_hit request cache cached hit) in
        let (row, found, same, is_result) =
          reused_row (latest w (filter (is_unexpired_for w request) cache)) cached hit in
        let (kept, accepted) =
          IsCached-filter (is_unexpired_for w request) cache row
            (IsCached-latest (filter (is_unexpired_for w request) cache) row found) in
        inr (
          row,
          kept,
          accepted,
          same,
          ap (λ (r : ScreeningResult). r.verdict) (is_result ∙ sym answered) ∙ now_clear,
        )
  ]
