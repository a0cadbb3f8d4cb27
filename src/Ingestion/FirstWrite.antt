-- ===== src/Ingestion/FirstWrite.antt =====
-- What the stored events are after any sequence of ingestions: for each identity the first accepted
-- input (src/application/ingestion/event-ingestion-service.ts).
use mathlib.Core.List.{append-nil}
use oscar_payment_gateway.Prelude.{
  ◌≡◌, refl, sym, ap, ◌∙◌, Option, none, some, List, [], ◌∷◌, ◌++◌, any, find, filter, All,
  Bool-cases, inl, inr, if◌then◌else◌, is_some, ==→eq, if-elim,
}
use oscar_payment_gateway.Store.{Key, Event, Db}
use oscar_payment_gateway.Matching.Claims.{has_event_id}
use oscar_payment_gateway.Ingestion.{Naming, ingest, violates_index}
use oscar_payment_gateway.Ingestion.Calls.{
  Call, ingest_all, accepted_document, IsDerived, IsPlaced, add_document, taken_iff_named,
  accepted_document-IsDerived, ingest-add_document,
}
use oscar_payment_gateway.Ingestion.Firsts.{
  or_else, to_list, AllOf, find-append, filter-append, is_some-none, All-append, or_else-none,
  or_else-some, or_else_assoc,
}

abbrev if_named : Key → Option Event → Option Event
if_named id none = none
if_named id (some d) = if has_event_id id d then some d else none

-- The specification: the document of the first accepted call with the identity.
abbrev pub first_write : Naming → Key → List Call → Option Event
first_write w id [] = none
first_write w id (c ∷ cs) = or_else (if_named id (accepted_document w c)) (first_write w id cs)

-- No two of the events have the identity.
abbrev pub IsSingle : Key → List Event → Type 0
IsSingle id es = filter (has_event_id id) es ≡ to_list (find (has_event_id id) es)

module _ (w : Naming) where
  add_document-IsDerived :
      (o : Option Event) (es : List Event)
      → AllOf (IsDerived w) o
      → All (IsDerived w) es
      → All (IsDerived w) (add_document o es)
  add_document-IsDerived none es at_o at_es = at_es
  add_document-IsDerived (some d) es at_d at_es =
      if-elim (All (IsDerived w)) (any (violates_index d) es) es (es ++ d ∷ []) (λ taken. at_es)
        (λ free. All-append (IsDerived w) es d at_es at_d)

  find-add_document :
      (id : Key) (o : Option Event) (es : List Event)
      → AllOf (IsDerived w) o
      → All (IsDerived w) es
      → find (has_event_id id) (add_document o es)
        ≡ or_else (find (has_event_id id) es) (if_named id o)
  find-add_document id none es at_o at_es = sym (or_else-none (find (has_event_id id) es))
  find-add_document id (some d) es at_d at_es =
      let named = taken_iff_named w d es at_d at_es in
      elim (Bool-cases (any (violates_index d) es)) [
        | inr free ↦ rw free (find-append (has_event_id id) es d)
        | inl taken ↦ rw taken (elim (Bool-cases (has_event_id id d)) [
          | inr other' ↦ rw other' (sym (or_else-none (find (has_event_id id) es)))
          | inl it ↦
              let same : d.event_id ≡ id = ==→eq _ _ it in
              or_else-some (find (has_event_id id) es) _
                (ap (λ k. is_some (find (has_event_id k) es)) (sym same) ∙ sym named ∙ taken)
        ])
      ]

  -- The indexes let no second event of an identity in.
  add_document-IsSingle :
      (id : Key) (o : Option Event) (es : List Event)
      → AllOf (IsDerived w) o
      → All (IsDerived w) es
      → IsSingle id es
      → IsSingle id (add_document o es)
  add_document-IsSingle id none es at_o at_es single = single
  add_document-IsSingle id (some d) es at_d at_es single =
      let p = has_event_id id in
      let named = taken_iff_named w d es at_d at_es in
      elim (Bool-cases (any (violates_index d) es)) [
        | inl taken ↦ rw taken single
        | inr free ↦
            rw (free, filter-append p es d, find-append p es d)
              (elim (Bool-cases (p d)) [
                | inr other' ↦
                    rw (other', or_else-none (find p es), append-nil (filter p es)) single
                | inl it ↦
                    let same : d.event_id ≡ id = ==→eq _ _ it in
                    let fresh : find p es ≡ none = is_some-none (find p es) (
                      ap (λ k. is_some (find (has_event_id k) es)) (sym same) ∙ sym named ∙ free) in
                    let no_other : filter p es ≡ [] = single ∙ ap to_list fresh in
                    rw (it, fresh, no_other) refl
              ])
      ]

module _ (w : Naming) where
  find-ingest_all :
      (calls : List Call) (db : Db) (id : Key)
      → All (IsDerived w) db.events
      → All IsPlaced calls
      → find (has_event_id id) (ingest_all w calls db).events
        ≡ or_else (find (has_event_id id) db.events) (first_write w id calls)
  find-ingest_all [] db id at_es placed = sym (or_else-none (find (has_event_id id) db.events))
  find-ingest_all (c ∷ cs) db id at_es (placed, all_placed) =
      let next : Db = (ingest w c.now c.queue_up c.input db).1 in
      let o = accepted_document w c in
      let at_o = accepted_document-IsDerived w c placed in
      let stored = ingest-add_document w c db in
      find-ingest_all cs next id (rw stored (add_document-IsDerived w o db.events at_o at_es))
        all_placed
      ∙ ap (λ es. or_else (find (has_event_id id) es) (first_write w id cs)) stored
      ∙ ap (λ k. or_else k (first_write w id cs)) (find-add_document w id o db.events at_o at_es)
      ∙ or_else_assoc (find (has_event_id id) db.events) (if_named id o) (first_write w id cs)

  ingest_all-IsSingle :
      (calls : List Call) (db : Db) (id : Key)
      → All (IsDerived w) db.events
      → All IsPlaced calls
      → IsSingle id db.events
      → IsSingle id (ingest_all w calls db).events
  ingest_all-IsSingle [] db id at_es placed single = single
  ingest_all-IsSingle (c ∷ cs) db id at_es (placed, all_placed) single =
      let next : Db = (ingest w c.now c.queue_up c.input db).1 in
      let o = accepted_document w c in
      let at_o = accepted_document-IsDerived w c placed in
      let stored = ingest-add_document w c db in
      ingest_all-IsSingle cs next id (rw stored (add_document-IsDerived w o db.events at_o at_es))
        all_placed (rw stored (add_document-IsSingle w id o db.events at_o at_es single))

-- After any sequence of ingestions, whether the queue failed or not, at most one event is stored of each
-- identity: the one stored before, and else the document of the first accepted call with this identity;
-- where the stored events have the identities of their places, no two of them this identity, and native
-- transfers come without a log index.
pub first_write_wins :
    (w : Naming) (calls : List Call) (db : Db) (id : Key)
    → All (IsDerived w) db.events
    → IsSingle id db.events
    → All IsPlaced calls
    → filter (has_event_id id) (ingest_all w calls db).events
      ≡ to_list (or_else (find (has_event_id id) db.events) (first_write w id calls))
first_write_wins w calls db id at_es single placed =
    ingest_all-IsSingle w calls db id at_es placed single
    ∙ ap to_list (find-ingest_all w calls db id at_es placed)
