-- ===== src/Matching.antt =====
-- `matchEvent` (src/application/processing/payment-matching-service.ts): the reads, the claim
-- transaction, and what follows its commit or its abort. The reads see the database `seen`; the
-- transaction runs later, on `db`, so that other workers may have written in between. The payment
-- lock only orders workers (`withLock` runs its operation with or without the lock) and is left out.
pub mod Claims
pub mod Outcomes
pub mod Routes
pub mod Apply
pub mod RouteHistory
pub mod History
pub mod Totals
pub mod Settlement
pub mod Notify
pub mod Expiry
use oscar_payment_gateway.Prelude.{
  ℕ, Bool, true, false, not, ◌&&◌, ◌||◌, Option, none, some, List, [], ◌∷◌, ◌==◌, if◌then◌else◌,
  find, opt_eq,
}
use oscar_payment_gateway.Payments.{PaymentStatus}
use oscar_payment_gateway.Store.{
  Key, Text, Db, Env, Event, Payment, WalletAddress, assigned, WalletAddressStatus, accepted,
  InterpretationStatus, on_chain_event, payment, Annotation, orphan, excess,
  payment_transition_rejected, Job, confirm_payment, deliver_webhook, AbortReason,
  payment_changed_concurrently, payment_terminal, tolerance_exceeded, Result, ok, err,
  with_required_transaction, append_audit, annotate, annotate_all, enqueue,
}
use Claims.{has_event_id}
use oscar_payment_gateway.Texts.{text_eq}
use Outcomes.{
  Config, MatchAction, claimed_matched, replacement_linked, orphan_annotated, skipped, ClaimOutcome,
  audit_of, about_event,
}
use Apply.{apply_claim}

abbrev pub is_assigned : WalletAddressStatus → Bool
is_assigned assigned = true
is_assigned _ = false

-- The filter `{ chain, normalizedAddress, status: "assigned" }`.
abbrev is_recipient : Event → WalletAddress → Bool
is_recipient e w =
    w.chain == e.chain
    && text_eq w.normalized_address e.normalized_to_address
    && is_assigned w.status

abbrev assigned_payment : Option WalletAddress → Option Key
assigned_payment none = none
assigned_payment (some w) = w.assigned_payment_id

abbrev pub is_accepted : Option InterpretationStatus → Bool
is_accepted (some accepted) = true
is_accepted _ = false

-- `#handleAbortedClaim`.
unfoldable pub handle_aborted_claim : Event → Payment → AbortReason → Db → Db
handle_aborted_claim event p tolerance_exceeded db = annotate (about_event event excess) db
handle_aborted_claim event p _ db =
    append_audit (audit_of p payment_transition_rejected p.status event) db

needs_confirmation : MatchAction → Bool
needs_confirmation claimed_matched = true
needs_confirmation replacement_linked = true
needs_confirmation _ = false

unfoldable pub dispatch : List Key → Db → Db
dispatch [] db = db
dispatch (d ∷ ds) db = dispatch ds (enqueue (deliver_webhook d) db)

start_confirmation : MatchAction → Key → Db → Db
unfolding needs_confirmation
start_confirmation a payment_id db =
    if needs_confirmation a then enqueue (confirm_payment payment_id) db else db

-- After a commit: the confirmation job, the annotations, the webhook jobs.
unfoldable pub after_claim : Key → ClaimOutcome → Db → Db
unfolding start_confirmation dispatch
after_claim payment_id o db =
    dispatch o.delivery_ids (annotate_all o.annotations (start_confirmation o.action payment_id db))

-- What became of the claim, by the transaction's result.
unfoldable pub finish : Event → Payment → Key → Result ClaimOutcome × Db → MatchAction × Db
finish event p payment_id (ok o, db) = (o.action, after_claim payment_id o db)
finish event p payment_id (err r, db) = (skipped, handle_aborted_claim event p r db)

-- What the reads decide: nothing to do, an orphan to annotate, or a claim to try.
pub data Routing : Type 0 where
  nothing : Routing
  orphaned : Routing
  claim : Key → Payment → Routing

route_payment : Event → Key → Option Payment → Routing
route_payment event id none = orphaned
route_payment event id (some p) =
    if p.chain == event.chain && opt_eq (some p.token) event.token then claim id p else orphaned

route_assigned : Event → Option Key → Db → Routing
unfolding route_payment
route_assigned event none seen = orphaned
route_assigned event (some id) seen = route_payment event id (seen.payments id)

unfoldable pub route : Event → Db → Routing
unfolding route_assigned
route event seen =
    if not (is_accepted event.interpretation_status)
    then nothing
    else if not event.canonical
    then nothing
    else route_assigned event (assigned_payment (find (is_recipient event) seen.wallets)) seen

unfoldable pub run_route : Config → Env → Event → Routing → Db → MatchAction × Db
run_route cfg env event nothing db = (skipped, db)
run_route cfg env event orphaned db = (orphan_annotated, annotate (about_event event orphan) db)
run_route cfg env event (claim id p) db =
    finish event p id (with_required_transaction (apply_claim cfg env event id) db)

unfoldable pub match_found : Config → Env → Db → Db → Option Event → Option (MatchAction × Db)
match_found cfg env seen db none = none
match_found cfg env seen db (some event) = some (run_route cfg env event (route event seen) db)

-- `none`: the event was not found, and the call throws.
unfoldable pub match_event : Config → Env → Key → Db → Db → Option (MatchAction × Db)
unfolding match_found
match_event cfg env event_id seen db =
    match_found cfg env seen db (find (has_event_id event_id) seen.events)
