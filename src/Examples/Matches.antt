-- ===== src/Examples/Matches.antt =====
-- The matching theorems at concrete deposits.
use oscar_payment_gateway.Prelude.{◌≡◌, ◌<◌, refl, true, false, none, some, [], ◌∷◌, arith, ℕ}
use oscar_payment_gateway.Payments.{pending, matched, expired}
use oscar_payment_gateway.Store.{abort, payment_changed_concurrently, Payment, Event, Db}
use oscar_payment_gateway.Matching.Claims.{claim_event}
use oscar_payment_gateway.Matching.Outcomes.{
  claimed_matched, claimed_partial, late_arrival_annotated,
}
use oscar_payment_gateway.Matching.Apply.{apply_claim}
use oscar_payment_gateway.Matching.Totals.{report}
use oscar_payment_gateway.Matching.Settlement.{
  covered_payment_matched, short_payment_accumulates, orphaned_event_matches, shortfall_aborts,
  wins_claim,
}
use oscar_payment_gateway.Matching.Expiry.{late_deposit_expires, full_report}
use oscar_payment_gateway.Examples.Samples.{invoice, deposit, database, settings, at_time}

abbrev first_half : Event
first_half = deposit 10 60 (some 7) true

abbrev second_half : Event
second_half = deposit 11 60 none true

abbrev two_deposits : Db
two_deposits = database (invoice pending) (first_half ∷ second_half ∷ [])

wins : wins_claim second_half (invoice pending) two_deposits ≡ true
unfolding claim_event
wins = refl

covered_payment_matched_example :
    (q : Payment) × (report 7 (apply_claim settings (at_time 500) second_half 7 two_deposits)
      ≡ some (claimed_matched, some q))
    × (q.status ≡ matched)
    × (q.matched_event_id ≡ some 11)
    × (q.amount_received ≡ some 120)
    × (q.overpayment_flag ≡ true)
    × (100 < 120 → q.excess_amount ≡ some 20)
    × (q.version ≡ 5)
unfolding claim_event
covered_payment_matched_example =
    covered_payment_matched settings (at_time 500) second_half (invoice pending) two_deposits refl
      refl (omega arith) wins refl (omega arith) (λ _. refl)

abbrev small_deposit : Event
small_deposit = deposit 11 20 none true

abbrev two_small : Db
two_small = database (invoice pending) (first_half ∷ small_deposit ∷ [])

short_payment_accumulates_example :
    (q : Payment) × (report 7 (apply_claim settings (at_time 500) small_deposit 7 two_small)
      ≡ some (claimed_partial, some q))
    × (q.status ≡ pending)
    × (q.partial_amount_received ≡ some 80)
    × (q.underpayment_flag ≡ true)
    × (q.version ≡ 5)
unfolding claim_event
short_payment_accumulates_example =
    short_payment_accumulates settings (at_time 500) small_deposit (invoice pending) two_small refl
      refl (omega arith) refl refl (omega arith)

-- The deposit was read as canonical; the stored one was orphaned since.
abbrev orphaned_half : Db
orphaned_half = database (invoice pending) (first_half ∷ deposit 11 60 none false ∷ [])

orphaned_event_matches_example :
    (q : Payment) × (received : ℕ) × (report 7
        (apply_claim settings (at_time 500) second_half 7 orphaned_half)
      ≡ some (claimed_matched, some q))
    × (q.status ≡ matched)
    × (q.amount_received ≡ some received)
    × (60 < received)
unfolding claim_event
orphaned_event_matches_example =
    orphaned_event_matches settings (at_time 500) second_half (invoice pending) orphaned_half refl
      refl (omega arith) refl refl (omega arith) (omega arith) (λ _. refl)

-- The payment was matched by a deposit that a reorg removed; half of it arrives again.
abbrev half_replaced : Db
half_replaced = database (invoice matched) (deposit 10 100 (some 7) false ∷ second_half ∷ [])

shortfall_aborts_example :
    apply_claim settings (at_time 500) second_half 7 half_replaced
    ≡ abort payment_changed_concurrently
unfolding claim_event
shortfall_aborts_example =
    shortfall_aborts settings (at_time 500) second_half (invoice matched) half_replaced refl refl
      (ground arith) refl refl (omega arith)

abbrev contested : Db
contested = database (invoice pending) (deposit 11 60 (some 8) true ∷ [])

late_deposit_expires_example :
    (q : Payment) × (full_report 7 (apply_claim settings (at_time 2000) second_half 7 two_deposits)
      ≡ some (late_arrival_annotated, some q, first_half ∷ second_half ∷ []))
    × (q.status ≡ expired)
    × (q.terminal_at ≡ some 2000)
    × (q.partial_amount_received ≡ some 60)
    × (q.underpayment_flag ≡ true)
    × (q.version ≡ 5)
late_deposit_expires_example =
    late_deposit_expires settings (at_time 2000) second_half (invoice pending) two_deposits refl
      refl (omega arith) (omega arith)

abbrev funded : Db
funded = database (invoice pending) (deposit 10 100 (some 7) true ∷ second_half ∷ [])
