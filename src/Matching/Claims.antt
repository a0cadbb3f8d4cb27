-- ===== src/Matching/Claims.antt =====
-- Claiming an event for a payment and adding up the claims: `#claimEvent` and
-- `#cumulativeIncluding` (src/application/processing/payment-matching-service.ts).
use oscar_payment_gateway.Prelude.{
  ℕ, ◌+◌, Bool, true, false, not, ◌&&◌, Option, none, some, List, [], ◌∷◌, ◌==◌, if◌then◌else◌, any,
  find, filter, update_first, opt_eq, is_some,
}
use oscar_payment_gateway.Store.{Key, Event, effective_amount, is_canonical_claim}

abbrev pub has_event_id : Key → Event → Bool
has_event_id id e = e.event_id == id

-- The filter `{ eventId, matchedPaymentId: { $exists: false } }`.
abbrev pub is_unclaimed : Key → Event → Bool
is_unclaimed id e = e.event_id == id && not (is_some e.matched_payment_id)

abbrev pub set_claim : Key → Event → Event
set_claim payment_id e = record e { matched_payment_id = some payment_id }

abbrev owned_by : Key → Option Event → Bool
owned_by payment_id none = false
owned_by payment_id (some e) = opt_eq e.matched_payment_id (some payment_id)

-- Whether the event is the payment's, and the collection after the conditional update.
unfoldable pub claim_event : Key → Key → List Event → Bool × List Event
claim_event event_id payment_id events =
    if any (is_unclaimed event_id) events
    then (true, update_first (is_unclaimed event_id) (set_claim payment_id) events)
    else (owned_by payment_id (find (has_event_id event_id) events), events)

-- The loop over the claims, with `total` and `includesEvent`.
unfoldable pub add_claims : Key → List Event → ℕ → Bool → ℕ × Bool
add_claims event_id [] total includes = (total, includes)
add_claims event_id (claim ∷ claims) total includes =
    add_claims event_id claims (total + effective_amount claim)
      (if has_event_id event_id claim then true else includes)

unfoldable pub cumulative_including : Event → Key → List Event → ℕ
unfolding add_claims
cumulative_including event payment_id events =
    let (total, includes) =
      add_claims event.event_id (filter (is_canonical_claim payment_id) events) 0 false in
    if includes then total else total + effective_amount event
