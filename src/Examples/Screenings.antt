-- ===== src/Examples/Screenings.antt =====
-- The screening cache at a concrete provider, with list versions 1 and 2.
use oscar_payment_gateway.Prelude.{
  ℕ, ◌≡◌, ◌⊎◌, refl, true, false, none, some, [], ◌∷◌, Option, arith,
}
use oscar_payment_gateway.Store.{Key}
use oscar_payment_gateway.Screening.{clear}
use oscar_payment_gateway.ScreeningCache.{
  ProviderAnswer, ScreeningRequest, ScreeningRow, ScreeningWorld, ScreeningRiskLevel, well_formed,
  fresh_result, fresh_row, is_unexpired_for, list_moved, reusable_verdict, screen, screen_with,
}
use oscar_payment_gateway.ScreeningCache.Verdicts.{IsCached, first, later, clear_requires}
use oscar_payment_gateway.ScreeningCache.Reuse.{fresh_verdict_reused}

abbrev clear_answer : Key → ProviderAnswer
clear_answer version = record {
  verdict = some clear;
  risk_level = some ScreeningRiskLevel.low;
  sanctioned = some false;
  provider = some (8 ∷ []);
  list_version = some version;
  raw_response_is_object = true;
}

abbrev at_version : ℕ → Key → ScreeningWorld
at_version now version = record {
  now = now;
  lower = λ t. t;
  provider_id = 9 ∷ [];
  screen_provider = λ _. some (clear_answer version);
  active_list_version = some (some version);
  screening_cache_ttl_sec = 60;
}

abbrev sender : ScreeningRequest
sender = record { address = 3 ∷ []; chain = 1 }

empty_miss : reusable_verdict (at_version 100 1) sender [] ≡ none
unfolding reusable_verdict
empty_miss = refl

first_is_clear : (screen (at_version 100 1) sender []).0.verdict ≡ clear
unfolding screen screen_with reusable_verdict fresh_result well_formed
first_is_clear = refl

clear_requires_example :
    ((answer : ProviderAnswer) × (Path
        (Option ProviderAnswer)
        (some (clear_answer 1))
        (some answer))
      × (well_formed answer ≡ some (screen (at_version 100 1) sender []).0))
    ⊎ ((row : ScreeningRow) × IsCached row []
        × (is_unexpired_for (at_version 100 1) sender row ≡ true)
        × (list_moved (at_version 100 1) (some (some 1)) row ≡ false)
        × (row.result.verdict ≡ clear))
clear_requires_example = clear_requires (at_version 100 1) sender [] first_is_clear

fresh_verdict_reused_example :
    screen (at_version 200 1) sender (screen (at_version 100 1) sender []).1
    ≡ (fresh_result (at_version 100 1) sender, (screen (at_version 100 1) sender []).1)
unfolding fresh_result well_formed
fresh_verdict_reused_example =
    fresh_verdict_reused (at_version 100 1) (at_version 200 1) sender sender [] tt empty_miss refl
      refl (omega arith) refl

abbrev cached_row : ScreeningRow
cached_row = fresh_row (at_version 100 1) sender

cached_moved :
    (row : ScreeningRow)
    → IsCached row (cached_row ∷ [])
    → list_moved (at_version 200 2) (some (some 2)) row ≡ true
unfolding fresh_result well_formed
cached_moved row first = refl
cached_moved row (later i) = elim i [ ]
