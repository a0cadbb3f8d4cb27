-- ===== src/Examples/Confirmations.antt =====
-- The confirmation theorems at concrete observations, verdicts and decisions.
use oscar_payment_gateway.Prelude.{◌≡◌, ℕ, refl, true, false, none, some, [], ◌∷◌, inr, arith}
use oscar_payment_gateway.Payments.{confirming, confirmed, failed}
use oscar_payment_gateway.Store.{Db, Event, Payment, PaymentScreeningStatus}
use oscar_payment_gateway.Screening.{clear, flagged, screening_status_for_verdict}
use oscar_payment_gateway.Confirmation.Transitions.{World, observed, unavailable, release, block}
use oscar_payment_gateway.Confirmation.Guard.{IsDeep, IsCleared, confirmed_requires}
use oscar_payment_gateway.Confirmation.Progress.{
  cleared_payment_confirms, release_override_stays_confirming,
}
use oscar_payment_gateway.Confirmation.Reorg.{orphaned_payment_fails}
use oscar_payment_gateway.Confirmation.History.{advance_payment-DbEvolves}
use oscar_payment_gateway.Lifecycle.{DbEvolves}
use oscar_payment_gateway.Confirmation.{advance_payment, terminal, matching_event}
use oscar_payment_gateway.Examples.Samples.{invoice, deposit, database, settings, outside}

abbrev full_deposit : Event
full_deposit = deposit 11 100 (some 7) true

abbrev claimed : Db
claimed = database (invoice confirming) (full_deposit ∷ [])

abbrev clean : World
clean = outside 500 (observed (some 5) (some true)) none clear

clean-IsDeep : IsDeep clean (invoice confirming) full_deposit
clean-IsDeep = (some 5, refl, refl, omega arith)

clean-IsCleared : IsCleared clean (invoice confirming) full_deposit
unfolding screening_status_for_verdict
clean-IsCleared = (ground arith, refl)

cleared_payment_confirms_example :
    (after : Db) × (q : Payment) × (advance_payment settings clean 7 claimed claimed
      ≡ some (terminal confirmed, after))
    × (after.payments 7 ≡ some q)
    × (q.status ≡ confirmed)
    × (q.confirmations ≡ 3)
    × (q.confirmed_at ≡ some 500)
    × (q.version ≡ 5)
cleared_payment_confirms_example =
    cleared_payment_confirms settings clean (invoice confirming) claimed claimed full_deposit refl
      refl refl refl refl clean-IsDeep clean-IsCleared

abbrev run_of_clean :
    (after : Db) × (q : Payment) × (advance_payment settings clean 7 claimed claimed
      ≡ some (terminal confirmed, after))
    × (after.payments 7 ≡ some q)
    × (q.status ≡ confirmed)
    × (q.confirmations ≡ 3)
    × (q.confirmed_at ≡ some 500)
    × (q.version ≡ 5)
run_of_clean =
    cleared_payment_confirms settings clean (invoice confirming) claimed claimed full_deposit refl
      refl refl refl refl clean-IsDeep clean-IsCleared

confirmed_requires_example :
    (event : Event) × (matching_event (invoice confirming) claimed ≡ some event)
    × IsDeep clean (invoice confirming) event
    × IsCleared clean (invoice confirming) event
confirmed_requires_example =
    confirmed_requires settings clean (invoice confirming) claimed claimed refl
      (invoice confirming, refl, ground arith) (terminal confirmed) run_of_clean.0 run_of_clean.1
      run_of_clean.2 run_of_clean.3 run_of_clean.4

advance_payment-DbEvolves_example : DbEvolves claimed run_of_clean.0
advance_payment-DbEvolves_example =
    advance_payment-DbEvolves settings clean 7 claimed claimed (terminal confirmed) run_of_clean.0
      run_of_clean.2

abbrev overridden : World
overridden = outside 500 (observed (some 5) (some true)) (some release) flagged

overridden-IsDeep : IsDeep overridden (invoice confirming) full_deposit
overridden-IsDeep = (some 5, refl, refl, omega arith)

release_override_stays_confirming_example :
    (after : Db) × (q : Payment) × (advance_payment settings overridden 7 claimed claimed
      ≡ some (terminal confirmed, after))
    × (after.payments 7 ≡ some q)
    × (q.status ≡ confirming)
    × (q.screening_status ≡ PaymentScreeningStatus.clear)
    × (q.version ≡ 5)
unfolding screening_status_for_verdict
release_override_stays_confirming_example =
    release_override_stays_confirming settings overridden (invoice confirming) claimed claimed
      full_deposit refl refl refl refl refl overridden-IsDeep refl refl

abbrev pinned : World
pinned = outside 500 (observed (some 5) (some true)) (some block) clear

pinned-IsDeep : IsDeep pinned (invoice confirming) full_deposit
pinned-IsDeep = (some 5, refl, refl, omega arith)

abbrev silent : World
silent = outside 500 unavailable none clear

abbrev gone_at : ℕ → World
gone_at now = outside now (observed none (some false)) none clear

orphaned_payment_fails_example :
    (after : Db) × (q : Payment) × (advance_payment settings (gone_at 2500) 7 claimed claimed
      ≡ some (terminal failed, after))
    × (after.payments 7 ≡ some q)
    × (q.status ≡ failed)
    × (q.terminal_at ≡ some 2500)
    × (q.version ≡ 5)
orphaned_payment_fails_example =
    orphaned_payment_fails settings (gone_at 2500) (invoice confirming) claimed claimed refl refl
      (inr refl) full_deposit none (some false) refl refl refl (omega arith) refl
