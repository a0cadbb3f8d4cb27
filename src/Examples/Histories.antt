-- ===== src/Examples/Histories.antt =====
-- Whole matches at concrete deposits.
use oscar_payment_gateway.Prelude.{◌≡◌, refl, true, none, some, [], ◌∷◌}
use oscar_payment_gateway.Payments.{pending}
use oscar_payment_gateway.Store.{Db, Event}
use oscar_payment_gateway.Lifecycle.{DbEvolves}
use oscar_payment_gateway.Matching.Outcomes.{MatchAction}
use oscar_payment_gateway.Matching.History.{match_event-DbEvolves}
use oscar_payment_gateway.Matching.{match_event, match_found, route, run_route}
use oscar_payment_gateway.Examples.Samples.{invoice, deposit, database, settings, at_time}

abbrev payment_in_full : Event
payment_in_full = deposit 11 100 none true

abbrev before : Db
before = database (invoice pending) (payment_in_full ∷ [])

-- A payment in full, read and matched in the same state.
abbrev matched_run : MatchAction × Db
matched_run = run_route settings (at_time 500) payment_in_full (route payment_in_full before) before

match_ran :
    match_event settings (at_time 500) 11 before before ≡ some (matched_run.0, matched_run.1)
unfolding match_event match_found
match_ran = refl

match_event-DbEvolves_example : DbEvolves before matched_run.1
match_event-DbEvolves_example =
    match_event-DbEvolves settings (at_time 500) 11 before before matched_run.0 matched_run.1
      match_ran
