-- ===== src/Interpretation/Unique.antt =====
-- Finding an event by its identifier, through updates and changes of the collection
-- (src/application/ingestion/event-interpretation-service.ts).
use oscar_payment_gateway.Prelude.{
  ◌≡◌, refl, sym, ap, ◌∙◌, subst, true, false, some, List, [], ◌∷◌, ◌==◌, any, find, update_first,
  Bool-cases, inl, inr, is_some, ==→eq, arith,
}
use mathlib.Core.Option.{some-injective}
use oscar_payment_gateway.Store.{Key, Event}
use oscar_payment_gateway.Matching.Claims.{has_event_id}
use oscar_payment_gateway.Lifecycle.{EventEvolves, EventsEvolve}
use oscar_payment_gateway.Interpretation.{is_uninterpreted}

-- No two events have the identifier, as the unique index has it.
abbrev pub IsUnique : Key → List Event → Type 0
IsUnique id [] = Unit
IsUnique id (e ∷ es) =
    (has_event_id id e ≡ true → any (has_event_id id) es ≡ false) × IsUnique id es

pub uninterpreted_named :
    (id : Key) (es : List Event)
    → any (has_event_id id) es ≡ false
    → any (is_uninterpreted id) es ≡ false
uninterpreted_named id [] h = refl
uninterpreted_named id (e ∷ es) h = ground (arith, uninterpreted_named id es)

pub find_updated :
    (id : Key) (change : Event → Event) (es : List Event) (e : Event)
    → ((f : Event) → (change f).event_id ≡ f.event_id)
    → IsUnique id es
    → find (has_event_id id) es ≡ some e
    → any (is_uninterpreted id) es ≡ true
    → find (has_event_id id) (update_first (is_uninterpreted id) change es) ≡ some (change e)
find_updated id change [] e keeps unique found open' = absurd (ground arith)
find_updated id change (f ∷ es) e keeps (unique, rest) found open' =
    elim (Bool-cases (has_event_id id f)) [
      | inr other' ↦
          let closed : is_uninterpreted id f ≡ false = rw other' refl in
          let later : any (is_uninterpreted id) es ≡ true = rw closed at open' in
          let step = find_updated id change es e keeps rest (rw other' at found) later in
          rw closed (rw other' step)
      | inl named ↦
          let same : f ≡ e = some-injective _ _ (rw named at found) in
          elim (Bool-cases (is_uninterpreted id f)) [
            | inl free ↦
                let still : has_event_id id (change f) ≡ true =
                  ap (λ k. k == id) (keeps f) ∙ named in
                rw free (rw still (ap (λ k. some (change k)) same))
            | inr closed ↦
                let later : any (is_uninterpreted id) es ≡ true = rw closed at open' in
                absurd (ground (arith, uninterpreted_named id es (unique named), later))
          ]
    ]

pub find-EventsEvolve :
    (id : Key) (es fs : List Event) (e : Event)
    → EventsEvolve es fs
    → find (has_event_id id) es ≡ some e
    → (f : Event) × (find (has_event_id id) fs ≡ some f) × EventEvolves e f
find-EventsEvolve id [] fs e evolve found = absurd (ground arith)
find-EventsEvolve id (c ∷ es) [] e evolve found = absurd evolve
find-EventsEvolve id (c ∷ es) (f ∷ fs) e (evolves, evolve) found =
    let kept : has_event_id id f ≡ has_event_id id c = ap (λ k. k == id) evolves.same_event_id in
    elim (Bool-cases (has_event_id id c)) [
      | inl named ↦
          let same : c ≡ e = some-injective _ _ (rw named at found) in
          (f, rw (kept ∙ named) refl, subst (λ k. EventEvolves k f) same evolves)
      | inr other' ↦
          let (g, found_g, evolves_g) = find-EventsEvolve id es fs e evolve (rw other' at found) in
          (g, rw (kept ∙ other') found_g, evolves_g)
    ]

pub no_other :
    (id : Key) (fs : List Event) (f : Event)
    → IsUnique id fs
    → find (has_event_id id) fs ≡ some f
    → is_some f.interpretation_status ≡ true
    → any (is_uninterpreted id) fs ≡ false
no_other id [] f unique found set = absurd (ground arith)
no_other id (c ∷ fs) f (unique, rest) found set = elim (Bool-cases (has_event_id id c)) [
  | inl named ↦
      let same : c ≡ f = some-injective _ _ (rw named at found) in
      let closed : is_some c.interpretation_status ≡ true =
        ap (λ (k : Event). is_some k.interpretation_status) same ∙ set in
      rw (named, closed) (uninterpreted_named id fs (unique named))
  | inr other' ↦ rw other' (no_other id fs f rest (rw other' at found) set)
]

pub find-has_event_id :
    (id : Key) (es : List Event) (e : Event) → find (has_event_id id) es ≡ some e → e.event_id ≡ id
find-has_event_id id [] e found = absurd (ground arith)
find-has_event_id id (c ∷ es) e found = elim (Bool-cases (has_event_id id c)) [
  | inl named ↦
      let same : c ≡ e = some-injective _ _ (rw named at found) in
      ap (λ (k : Event). k.event_id) (sym same) ∙ ==→eq c.event_id id named
  | inr other' ↦ find-has_event_id id es e (rw other' at found)
]
