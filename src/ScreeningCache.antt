-- ===== src/ScreeningCache.antt =====
-- `ScreeningService` (src/application/compliance/screening-service.ts): a screening provider behind a
-- cache of its verdicts. The provider, its list version, the clock and `toLowerCase` are parameters.
pub mod Verdicts
pub mod Reuse
use oscar_payment_gateway.Prelude.{
  ℕ, ◌+◌, ◌*◌, Bool, true, false, not, ◌&&◌, Option, none, some, List, [], ◌∷◌, ◌++◌, ◌==◌,
  if◌then◌else◌, ltb, filter, get_or, opt_eq,
}
use oscar_payment_gateway.Store.{Key, Text}
use oscar_payment_gateway.Texts.{text_eq}
use oscar_payment_gateway.Screening.{ScreeningVerdict, unavailable, indeterminate}

pub data ScreeningRiskLevel : Type 0 where
  clear low medium high blocked unknown : ScreeningRiskLevel

pub record ScreeningRequest : Type 0 where
  pub address : Text
  pub chain : Key

pub record ScreeningResult : Type 0 where
  pub verdict : ScreeningVerdict
  pub risk_level : ScreeningRiskLevel
  pub sanctioned : Bool
  pub provider : Text
  pub list_version : Option Key

-- What a provider answers, before it is checked: `none` where a value is not of its type.
pub record ProviderAnswer : Type 0 where
  pub verdict : Option ScreeningVerdict
  pub risk_level : Option ScreeningRiskLevel
  pub sanctioned : Option Bool
  pub provider : Option Text
  pub list_version : Option Key
  pub raw_response_is_object : Bool

-- A `ComplianceScreening` document.
pub record ScreeningRow : Type 0 where
  pub normalized_address : Text
  pub chain : Key
  pub result : ScreeningResult
  pub checked_at : ℕ
  pub expires_at : ℕ

-- The provider (`none`: it threw), its active list version if it tells one (`some none`: it has none at
-- the moment), the clock, and the configuration.
pub record ScreeningWorld : Type 0 where
  pub now : ℕ
  pub lower : Text → Text
  pub provider_id : Text
  pub screen_provider : ScreeningRequest → Option ProviderAnswer
  pub active_list_version : Option (Option Key)
  pub screening_cache_ttl_sec : ℕ

abbrev pub is_empty : Text → Bool
is_empty [] = true
is_empty (c ∷ cs) = false

well_formed_parts :
    Option ScreeningVerdict
    → Option ScreeningRiskLevel
    → Option Bool
    → Option Text
    → Option Key
    → Option ScreeningResult
well_formed_parts (some v) (some r) (some s) (some p) list_version =
    if is_empty p
    then none
    else some (record {
      verdict = v;
      risk_level = r;
      sanctioned = s;
      provider = p;
      list_version = list_version;
    })
well_formed_parts _ _ _ _ list_version = none

-- `isWellFormedResult`, with the result that it accepts.
unfoldable pub well_formed : ProviderAnswer → Option ScreeningResult
unfolding well_formed_parts
well_formed a =
    if a.raw_response_is_object
    then well_formed_parts a.verdict a.risk_level a.sanctioned a.provider a.list_version
    else none

module _ (w : ScreeningWorld) where
  -- A provider's failure, made into an answer.
  abbrev pub failure_answer : ProviderAnswer
  failure_answer = record {
    verdict = some unavailable;
    risk_level = some unknown;
    sanctioned = some false;
    provider = some w.provider_id;
    list_version = none;
    raw_response_is_object = true;
  }

  abbrev pub malformed_result : ScreeningResult
  malformed_result = record {
    verdict = indeterminate;
    risk_level = unknown;
    sanctioned = false;
    provider = w.provider_id;
    list_version = none;
  }

  -- The result of a fresh call of the provider.
  unfoldable pub fresh_result : ScreeningRequest → ScreeningResult
  unfolding well_formed
  fresh_result request =
      get_or (well_formed (get_or (w.screen_provider request) failure_answer)) malformed_result

  abbrev pub fresh_row : ScreeningRequest → ScreeningRow
  fresh_row request = record {
    normalized_address = w.lower request.address;
    chain = request.chain;
    result = fresh_result request;
    checked_at = w.now;
    expires_at = w.now + w.screening_cache_ttl_sec * 1000;
  }

  -- The filter of the cached verdicts.
  abbrev pub is_unexpired_for : ScreeningRequest → ScreeningRow → Bool
  is_unexpired_for request row =
      text_eq row.normalized_address (w.lower request.address)
      && row.chain == request.chain
      && ltb w.now row.expires_at

  -- `.sort({ checkedAt: -1 })` and the first. The order of two rows of one time is open in the source;
  -- here it is the one inserted later.
  abbrev pub later_row : ScreeningRow → Option ScreeningRow → ScreeningRow
  later_row row none = row
  later_row row (some other) = if ltb other.checked_at row.checked_at then row else other

  abbrev pub latest : List ScreeningRow → Option ScreeningRow
  latest [] = none
  latest (row ∷ rows) = some (later_row row (latest rows))

  -- The provider tells a list version, and it is not the row's.
  abbrev pub list_moved : Option (Option Key) → ScreeningRow → Bool
  list_moved (some (some version)) row = not (opt_eq row.result.list_version (some version))
  list_moved _ row = false

  abbrev pub unless_moved : Option ScreeningRow → Option ScreeningResult
  unless_moved none = none
  unless_moved (some row) = if list_moved w.active_list_version row then none else some row.result

  unfoldable pub reusable_verdict : ScreeningRequest → List ScreeningRow → Option ScreeningResult
  reusable_verdict request cache = unless_moved (latest (filter (is_unexpired_for request) cache))

  unfoldable pub screen_with :
      ScreeningRequest
      → List ScreeningRow
      → Option ScreeningResult
      → ScreeningResult × List ScreeningRow
  screen_with request cache (some cached) = (cached, cache)
  screen_with request cache none = (fresh_result request, cache ++ fresh_row request ∷ [])

  -- The result, and the cache after the call.
  unfoldable pub screen : ScreeningRequest → List ScreeningRow → ScreeningResult × List ScreeningRow
  unfolding reusable_verdict fresh_result screen_with
  screen request cache = screen_with request cache (reusable_verdict request cache)
