-- ===== src/ScreeningCache/Reuse.antt =====
-- When a verdict is reused (src/application/compliance/screening-service.ts).
use oscar_payment_gateway.Prelude.{
  ℕ, ◌+◌, ◌*◌, ◌<◌, ◌≡◌, ap, ◌∙◌, Bool, true, false, none, some, List, [], ◌∷◌, ◌++◌, ==_refl, ltb,
  lt→ltb, filter, All, Bool-cases, Option-cases, inl, inr, arith,
}
use oscar_payment_gateway.Texts.Laws.{text_eq_refl}
use oscar_payment_gateway.ScreeningCache.{
  ScreeningRequest, ScreeningResult, ScreeningRow, ScreeningWorld, fresh_result, fresh_row,
  is_unexpired_for, latest, list_moved, unless_moved, reusable_verdict, screen,
}
use oscar_payment_gateway.ScreeningCache.Verdicts.{
  screen_miss, screen_hit, IsCached, IsCached-filter, IsCached-latest,
}

-- The rows were checked before `time`.
abbrev pub IsBefore : ℕ → List ScreeningRow → Type 0
IsBefore time rows = All (λ (row : ScreeningRow). row.checked_at < time) rows

latest_snoc :
    (w : ScreeningWorld) (p : ScreeningRow → Bool) (rows : List ScreeningRow) (row : ScreeningRow)
    → IsBefore row.checked_at rows
    → p row ≡ true
    → latest w (filter p (rows ++ row ∷ [])) ≡ some row
latest_snoc w p [] row before accepted = rw accepted
latest_snoc w p (one ∷ rows) row (older, before) accepted =
    let ih = latest_snoc w p rows row before accepted in
    elim (Bool-cases (p one)) [
      | inl here ↦
          let newer : ltb row.checked_at one.checked_at ≡ false = ground arith in
          rw here (rw ih (rw newer))
      | inr away ↦ rw away ih
    ]

-- A fresh verdict, asked of the provider because the cache had none to reuse, is reused: a later screening of the same address, up
-- to case, and chain gives the same result and leaves the cache as it is, while the verdict has not
-- expired and the provider does not tell another list version. The rows of the cache were checked
-- before the call.
pub fresh_verdict_reused :
    (w later_w : ScreeningWorld) (request again : ScreeningRequest) (cache : List ScreeningRow)
    → IsBefore w.now cache
    → reusable_verdict w request cache ≡ none
    → later_w.lower again.address ≡ w.lower request.address
    → again.chain ≡ request.chain
    → later_w.now < w.now + w.screening_cache_ttl_sec * 1000
    → list_moved later_w later_w.active_list_version (fresh_row w request) ≡ false
    → screen later_w again (screen w request cache).1
      ≡ (fresh_result w request, (screen w request cache).1)
unfolding reusable_verdict
fresh_verdict_reused w later_w request again cache before miss same_address same_chain in_time
      unmoved =
    let stored : (screen w request cache).1 ≡ cache ++ fresh_row w request ∷ [] =
      ap (λ (r : ScreeningResult × List ScreeningRow). r.1) (screen_miss w request cache miss) in
    let accepted : is_unexpired_for later_w again (fresh_row w request) ≡ true =
      rw (same_address, same_chain, text_eq_refl (w.lower request.address), ==_refl request.chain)
        (lt→ltb _ _ in_time) in
    let hit : reusable_verdict later_w again (cache ++ fresh_row w request ∷ [])
        ≡ some (fresh_result w request) =
      ap (unless_moved later_w) (
        latest_snoc later_w (is_unexpired_for later_w again) cache (fresh_row w request) before
          accepted)
      ∙ rw unmoved in
    rw stored
      (screen_hit later_w again (cache ++ fresh_row w request ∷ []) (fresh_result w request) hit)

-- A list update asks the provider again: when every cached row is of another list version than the
-- provider tells, the result is that of a fresh call, and is added to the cache.
pub moved_list_asks_again :
    (w : ScreeningWorld) (request : ScreeningRequest) (cache : List ScreeningRow)
    → ((row : ScreeningRow) → IsCached row cache → list_moved w w.active_list_version row ≡ true)
    → screen w request cache ≡ (fresh_result w request, cache ++ fresh_row w request ∷ [])
unfolding reusable_verdict
moved_list_asks_again w request cache moved =
    let accepted = filter (is_unexpired_for w request) cache in
    let miss : reusable_verdict w request cache ≡ none = elim (Option-cases (latest w accepted)) [
      | inl nothing ↦ ap (unless_moved w) nothing
      | inr (row, found) ↦
          let kept =
            (IsCached-filter (is_unexpired_for w request) cache row
              (IsCached-latest w accepted row found)).0 in
          ap (unless_moved w) found ∙ rw (moved row kept)
    ] in
    screen_miss w request cache miss
