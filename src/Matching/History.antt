-- ===== src/Matching/History.antt =====
-- Matching an event keeps every payment's and every event's history.
use oscar_payment_gateway.Prelude.{find, subst, ap, ◌≡◌, inl, inr, Option, none, some, Bool-cases}
use oscar_payment_gateway.Store.{
  confirm_payment, annotate_all, Key, Db, Env, Event, Payment, AbortReason, Result, ok, err,
  tolerance_exceeded, with_required_transaction,
}
use oscar_payment_gateway.Lifecycle.{DbEvolves, DbEvolves-refl, DbEvolves-trans}
use oscar_payment_gateway.Lifecycle.Rules.{
  append_audit-DbEvolves, enqueue-DbEvolves, annotate-DbEvolves, annotate_all-DbEvolves,
  with_required_transaction-DbEvolves,
}
use oscar_payment_gateway.Matching.Claims.{has_event_id}
use oscar_payment_gateway.Matching.Outcomes.{MatchAction, Config, ClaimOutcome}
use oscar_payment_gateway.Matching.Apply.{apply_claim}
use mathlib.Core.Option.{some-injective}
use oscar_payment_gateway.Matching.{
  nothing, orphaned, claim, match_found, needs_confirmation, start_confirmation, Routing,
  handle_aborted_claim, after_claim, finish, run_route, route, match_event,
}
use oscar_payment_gateway.Matching.RouteHistory.{dispatch-DbEvolves, apply_claim-Lawful}

start_confirmation-DbEvolves :
    (a : MatchAction) (id : Key) (db : Db) → DbEvolves db (start_confirmation a id db)
unfolding start_confirmation
start_confirmation-DbEvolves a id db = elim (Bool-cases (needs_confirmation a)) [
  | inl on ↦ rw on (enqueue-DbEvolves (confirm_payment id) db)
  | inr off ↦ rw off (DbEvolves-refl db)
]

after_claim-DbEvolves : (id : Key) (o : ClaimOutcome) (db : Db) → DbEvolves db (after_claim id o db)
unfolding after_claim
after_claim-DbEvolves id o db =
    let first = start_confirmation o.action id db in
    let second = annotate_all o.annotations first in
    DbEvolves-trans (start_confirmation-DbEvolves o.action id db) (
      DbEvolves-trans (annotate_all-DbEvolves o.annotations first)
        (dispatch-DbEvolves o.delivery_ids second))

handle_aborted_claim-DbEvolves :
    (event : Event) (p : Payment) (r : AbortReason) (db : Db)
    → DbEvolves db (handle_aborted_claim event p r db)
unfolding handle_aborted_claim
handle_aborted_claim-DbEvolves event p tolerance_exceeded db = annotate-DbEvolves _ db
handle_aborted_claim-DbEvolves event p _ db = append_audit-DbEvolves _ db

finish-DbEvolves :
    (event : Event) (p : Payment) (id : Key) (start : Db) (r : Result ClaimOutcome × Db)
    → DbEvolves start r.1
    → DbEvolves start (finish event p id r).1
unfolding finish
finish-DbEvolves event p id start (ok o, db) h = DbEvolves-trans h (after_claim-DbEvolves id o db)
finish-DbEvolves event p id start (err r, db) h =
    DbEvolves-trans h (handle_aborted_claim-DbEvolves event p r db)

run_route-DbEvolves :
    (cfg : Config) (env : Env) (event : Event) (r : Routing) (db : Db)
    → DbEvolves db (run_route cfg env event r db).1
unfolding run_route
run_route-DbEvolves cfg env event nothing db = DbEvolves-refl db
run_route-DbEvolves cfg env event orphaned db = annotate-DbEvolves _ db
run_route-DbEvolves cfg env event (claim id p) db =
    finish-DbEvolves event p id db (with_required_transaction (apply_claim cfg env event id) db) (
      with_required_transaction-DbEvolves (apply_claim cfg env event id)
        (apply_claim-Lawful cfg env event id) db)

-- Whatever event is matched, and whatever was read before the transaction: every payment keeps its
-- terms, moves only along the state diagram, and is changed only together with a higher version; no
-- payment or event is deleted; no event loses or changes its claim.
pub match_event-DbEvolves :
    (cfg : Config) (env : Env) (event_id : Key) (seen db : Db) (a : MatchAction) (after : Db)
    → match_event cfg env event_id seen db ≡ some (a, after)
    → DbEvolves db after
unfolding match_event
match_event-DbEvolves cfg env event_id seen db a after h =
    go (find (has_event_id event_id) seen.events) h
  where
    go :
        (found : Option Event)
        → match_found cfg env seen db found ≡ some (a, after)
        → DbEvolves db after
    go none e = cc
    go (some event) e =
        subst (DbEvolves db) (ap (λ (r : MatchAction × Db). r.1) (some-injective _ _ e))
          (run_route-DbEvolves cfg env event (route event seen) db)
