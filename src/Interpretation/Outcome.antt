-- ===== src/Interpretation/Outcome.antt =====
-- What `interpret` leaves in the database and returns, whoever else interprets the event
-- (src/application/ingestion/event-interpretation-service.ts).
use oscar_payment_gateway.Prelude.{
  ℕ, ◌≡◌, refl, sym, ap, ◌∙◌, subst, true, false, Option, none, some, List, [], ◌∷◌, any, find,
  update_first, Bool-cases, Option-cases, inl, inr, arith,
}
use mathlib.Core.Option.{some-injective}
use oscar_payment_gateway.Store.{Key, InterpretationStatus, Event, Db, WalletAddress}
use oscar_payment_gateway.Matching.Claims.{has_event_id}
use oscar_payment_gateway.Lifecycle.{
  outcome_of, EventEvolves, EventsEvolve, DbEvolves, EventEvolves-refl, EventsEvolve-refl,
  DbEvolves-refl, PaymentEvolves-refl,
}
use oscar_payment_gateway.Registry.{RegistrySnapshot}
use oscar_payment_gateway.Interpretation.{
  ReadDelta, Judgement, InterpretationOutcome, applied_outcome, with_outcome, existing_outcome,
  stored_outcome, set_outcome, is_uninterpreted, finalize, judge, interpret, unless_interpreted,
  or_keep,
}
use oscar_payment_gateway.Interpretation.Unique.{
  IsUnique, find_updated, find-EventsEvolve, no_other, find-has_event_id,
}

set_outcome-EventEvolves :
    (now : ℕ) (revision : Key) (j : Judgement) (id : Key) (e : Event)
    → is_uninterpreted id e ≡ true
    → EventEvolves e (set_outcome now revision j e)
set_outcome-EventEvolves now revision j id e h = ground arith

update_first-EventsEvolve :
    (now : ℕ) (revision : Key) (j : Judgement) (id : Key) (es : List Event)
    → EventsEvolve es (update_first (is_uninterpreted id) (set_outcome now revision j) es)
update_first-EventsEvolve now revision j id [] = tt
update_first-EventsEvolve now revision j id (e ∷ es) = elim (Bool-cases (is_uninterpreted id e)) [
  | inl open' ↦ rw open' (set_outcome-EventEvolves now revision j id e open', EventsEvolve-refl es)
  | inr closed ↦ rw closed (EventEvolves-refl e, update_first-EventsEvolve now revision j id es)
]

finalize-DbEvolves :
    (now : ℕ) (revision : Key) (j : Judgement) (id : Key) (db : Db)
    → DbEvolves db (finalize now revision j id db).1
unfolding finalize
finalize-DbEvolves now revision j id db = elim (Bool-cases (any (is_uninterpreted id) db.events)) [
  | inl open' ↦
      rw (open', finalize)
        (record {
          payments = λ k. PaymentEvolves-refl (db.payments k);
          events = update_first-EventsEvolve now revision j id db.events;
        })
  | inr closed ↦ rw (closed, finalize) (DbEvolves-refl db)
]

-- The outcome that was applied, as another worker finds it.
abbrev pub found_again : InterpretationOutcome → InterpretationOutcome
found_again o = record o { applied = false }

stored_outcome-not_applied :
    (m : Option Event) (o : InterpretationOutcome) → stored_outcome m ≡ some o → o.applied ≡ false
stored_outcome-not_applied none o h = absurd (ground arith)
stored_outcome-not_applied (some e) o h = elim (Option-cases e.interpretation_status) [
  | inl open' ↦
      let thrown : stored_outcome (some e) ≡ none = rw (open', stored_outcome) refl in
      absurd (ground (arith, thrown, h))
  | inr (status, set) ↦
      let stored : stored_outcome (some e) ≡ some (existing_outcome e status) =
        rw (set, stored_outcome) refl in
      ap (λ (k : InterpretationOutcome). k.applied) (some-injective _ _ (sym h ∙ stored))
]

finalize-open :
    (now : ℕ) (revision : Key) (j : Judgement) (id : Key) (db : Db)
    → any (is_uninterpreted id) db.events ≡ true
    → finalize now revision j id db
      ≡ (some (applied_outcome id j), with_outcome now revision j id db)
unfolding finalize
finalize-open now revision j id db open' = rw (open', finalize) refl

finalize-closed :
    (now : ℕ) (revision : Key) (j : Judgement) (id : Key) (db : Db)
    → any (is_uninterpreted id) db.events ≡ false
    → finalize now revision j id db ≡ (stored_outcome (find (has_event_id id) db.events), db)
unfolding finalize
finalize-closed now revision j id db closed = rw (closed, finalize) refl

module _ (rd : ReadDelta) (registry : RegistrySnapshot) (now : ℕ) (id : Key) (e : Event)
    (ws : List WalletAddress) (db : Db) where
  interpret-open :
      e.interpretation_status ≡ none
      → interpret rd registry now id (some e) ws db
        ≡ finalize now registry.revision (judge rd registry ws e) id db
  unfolding interpret
  interpret-open open' =
      ap
        (λ s.
          unless_interpreted e s db (finalize now registry.revision (judge rd registry ws e) id db))
        open'

  interpret-existing :
      (status : InterpretationStatus)
      → e.interpretation_status ≡ some status
      → interpret rd registry now id (some e) ws db ≡ (some (existing_outcome e status), db)
  unfolding interpret
  interpret-existing status set =
      ap
        (λ s.
          unless_interpreted e s db (finalize now registry.revision (judge rd registry ws e) id db))
        set

  -- What an applied outcome is, and what it leaves.
  applied_requires :
      (after : Db) (o : InterpretationOutcome)
      → interpret rd registry now id (some e) ws db ≡ (some o, after)
      → o.applied ≡ true
      → (any (is_uninterpreted id) db.events ≡ true)
        × (o ≡ applied_outcome id (judge rd registry ws e))
        × (after ≡ with_outcome now registry.revision (judge rd registry ws e) id db)
  applied_requires after o ran applied = elim (Option-cases e.interpretation_status) [
    | inr (status, set) ↦
        let same = some-injective _ _ (ap (λ r. r.0) (sym ran ∙ interpret-existing status set)) in
        absurd (ground (arith, ap (λ (k : InterpretationOutcome). k.applied) same, applied))
    | inl open' ↦
        let run = sym ran ∙ interpret-open open' in
        elim (Bool-cases (any (is_uninterpreted id) db.events)) [
          | inl free ↦
              let result =
                run ∙ finalize-open now registry.revision (judge rd registry ws e) id db free in
              (free, some-injective _ _ (ap (λ r. r.0) result), ap (λ r. r.1) result)
          | inr taken ↦
              let result =
                run ∙ finalize-closed now registry.revision (judge rd registry ws e) id db taken in
              absurd (
                ground
                  (arith, stored_outcome-not_applied _ o (sym (ap (λ r. r.0) result)), applied))
        ]
  ]

or_keep-fresh : {A : Type 0} (a old : Option A) → old ≡ none → or_keep a old ≡ a
or_keep-fresh none old fresh = fresh
or_keep-fresh (some a) old fresh = refl

-- What another worker's `finalize` does where the stored event has the outcome of `j`.
finalize-taken :
    (later : ℕ) (revision : Key) (mine : Judgement) (id : Key) (f : Event) (j : Judgement) (db : Db)
    → IsUnique id db.events
    → find (has_event_id id) db.events ≡ some f
    → f.interpretation_status ≡ some j.status
    → f.interpretation_reason ≡ j.reason
    → f.verified_received_amount ≡ j.verified_received_amount
    → f.event_id ≡ id
    → finalize later revision mine id db ≡ (some (found_again (applied_outcome id j)), db)
finalize-taken later revision mine id f j db unique found set reason amount named =
    finalize-closed later revision mine id db (no_other id db.events f unique found (rw set refl))
    ∙ ap (λ m. (stored_outcome m, db)) found
    ∙ ap (λ k. (k, db)) stored
  where
    stored : stored_outcome (some f) ≡ some (found_again (applied_outcome id j))
    stored = rw (set, stored_outcome) (rw (reason, amount, named) refl)

-- An event whose outcome one worker applied keeps it: after any changes that keep the history, a
-- worker that still takes the event for uninterpreted, with another registry, other wallets and
-- other readings, changes nothing and reports the first worker's outcome, as not applied by itself;
-- where the event had no reason or verified amount before and event identifiers are unique.
pub outcome_stands :
    (rd rd' : ReadDelta) (registry registry' : RegistrySnapshot) (now later : ℕ) (id : Key)
    (e seen' : Event) (ws ws' : List WalletAddress) (db after db' : Db) (o : InterpretationOutcome)
    → find (has_event_id id) db.events ≡ some e
    → outcome_of e ≡ (none, none, none)
    → IsUnique id db.events
    → interpret rd registry now id (some e) ws db ≡ (some o, after)
    → o.applied ≡ true
    → DbEvolves after db'
    → IsUnique id db'.events
    → seen'.interpretation_status ≡ none
    → interpret rd' registry' later id (some seen') ws' db' ≡ (some (found_again o), db')
outcome_stands rd rd' registry registry' now later id e seen' ws ws' db after db' o found fresh
      unique ran applied evolves unique' unread =
    let j = judge rd registry ws e in
    let (open', outcome, left_db) =
      applied_requires rd registry now id e ws db after o ran applied in
    let change : Event → Event = set_outcome now registry.revision j in
    let stored = find_updated id change db.events e (λ f. refl) unique found open' in
    let (f, found_f, evolved) =
      find-EventsEvolve id (update_first (is_uninterpreted id) change db.events) db'.events
        (change e) (subst (λ (d : Db). EventsEvolve d.events db'.events) left_db evolves.events)
        stored in
    let kept = evolved.keeps_outcome refl in
    let none_before : (e.interpretation_reason ≡ none) × (e.verified_received_amount ≡ none) =
      (ap (λ k. k.1) fresh, ap (λ k. k.2) fresh) in
    let reason : f.interpretation_reason ≡ j.reason =
      ap (λ k. k.1) kept ∙ or_keep-fresh j.reason e.interpretation_reason none_before.0 in
    let amount : f.verified_received_amount ≡ j.verified_received_amount =
      ap (λ k. k.2) kept
      ∙ or_keep-fresh j.verified_received_amount e.verified_received_amount none_before.1 in
    let named : f.event_id ≡ id = find-has_event_id id db'.events f found_f in
    interpret-open rd' registry' later id seen' ws' db' unread
    ∙ finalize-taken later registry'.revision (judge rd' registry' ws' seen') id f j db' unique'
        found_f (ap (λ k. k.0) kept) reason amount named
    ∙ ap (λ k. (some (found_again k), db')) (sym outcome)

-- An interpretation keeps every payment's terms, moves its status only along the state diagram and
-- only with a higher version, deletes no payment or event, and changes no place, amount, claim or
-- outcome that an event has.
pub interpret-DbEvolves :
    (rd : ReadDelta) (registry : RegistrySnapshot) (now : ℕ) (id : Key) (seen : Option Event)
    (ws : List WalletAddress) (db : Db)
    → DbEvolves db (interpret rd registry now id seen ws db).1
unfolding interpret
interpret-DbEvolves rd registry now id none ws db = DbEvolves-refl db
interpret-DbEvolves rd registry now id (some e) ws db = go e.interpretation_status
  where
    go :
        (s : Option InterpretationStatus)
        → DbEvolves db
            (unless_interpreted e s db
              (finalize now registry.revision (judge rd registry ws e) id db)).1
    go (some status) = DbEvolves-refl db
    go none = finalize-DbEvolves now registry.revision (judge rd registry ws e) id db
