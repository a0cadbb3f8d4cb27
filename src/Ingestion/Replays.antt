-- ===== src/Ingestion/Replays.antt =====
-- Ingesting a transfer again: EventIngestionService.ingest
-- (src/application/ingestion/event-ingestion-service.ts).
use oscar_payment_gateway.Prelude.{
  ℕ, ◌≡◌, refl, ap, ◌∙◌, Bool, true, false, none, some, List, [], ◌∷◌, ◌++◌, ◌==◌, any, Bool-cases,
  inl, inr, if◌then◌else◌, ==_refl, ==→eq, arith,
}
use oscar_payment_gateway.Money.{parse_base_units}
use oscar_payment_gateway.Store.{Key, Text, Event, Db, enqueue, interpret_event}
use oscar_payment_gateway.Texts.{to_lower}
use oscar_payment_gateway.Lifecycle.{EventEvolves, EventsEvolve, DbEvolves}
use oscar_payment_gateway.Ingestion.{
  Naming, IngestEventInput, ingest, input_id, derive_event_id, event_id_text, document, is_valid,
  violates_index, create_event, after_create, inserted, duplicate, invalid, Insertion, is_native,
  native_prefix,
}

-- An input that `ingest` does not refuse, with the amount that it denotes.
pub record IsAccepted (w : Naming) (i : IngestEventInput) (amount : ℕ) : Type 0 where
  pub parses : parse_base_units i.amount ≡ some amount
  pub valid : is_valid (document w 0 amount i) ≡ true

any-here :
    (p : Event → Bool) (es : List Event) (d : Event) → p d ≡ true → any p (es ++ (d ∷ [])) ≡ true
any-here p [] d h = rw h refl
any-here p (e ∷ es) d h = ground (arith, any-here p es d h)

any-implied :
    (p q : Event → Bool) (es : List Event)
    → ((e : Event) → p e ≡ true → q e ≡ true)
    → any p es ≡ true
    → any q es ≡ true
any-implied p q [] k h = absurd (ground arith)
any-implied p q (e ∷ es) k h = elim (Bool-cases (p e)) [
  | inl yes' ↦ let there = k e yes' in rw there refl
  | inr no' ↦ ground (arith, any-implied p q es k)
]

violates_index-EventEvolves :
    (d e f : Event) → EventEvolves e f → violates_index d f ≡ violates_index d e
unfolding violates_index
violates_index-EventEvolves d e f k =
    rw (k.same_event_id, k.same_chain, k.same_transaction, k.same_log) refl

any-EventsEvolve :
    (d : Event) (es fs : List Event)
    → EventsEvolve es fs
    → any (violates_index d) es ≡ true
    → any (violates_index d) fs ≡ true
any-EventsEvolve d [] fs k h = absurd (ground arith)
any-EventsEvolve d (e ∷ es) [] k h = absurd k
any-EventsEvolve d (e ∷ es) (f ∷ fs) (k, ks) h =
    ground (arith, violates_index-EventEvolves d e f k, any-EventsEvolve d es fs ks)

-- The database with one more event.
abbrev pub with_event : Event → Db → Db
with_event d db = record db { events = db.events ++ d ∷ [] }

pub create_event-duplicate :
    (d : Event) (db : Db)
    → is_valid d ≡ true
    → any (violates_index d) db.events ≡ true
    → create_event d db ≡ (duplicate, db)
unfolding create_event
create_event-duplicate d db valid taken = rw (valid, taken) refl

pub create_event-inserted :
    (d : Event) (db : Db)
    → is_valid d ≡ true
    → any (violates_index d) db.events ≡ false
    → create_event d db ≡ (inserted, with_event d db)
unfolding create_event
create_event-inserted d db valid free = rw (valid, free) refl

after_create-events :
    (id : Key) (up : Bool) (n : Insertion) (db : Db)
    → (after_create id up (n, db)).1.events ≡ db.events
unfolding enqueue
after_create-events id true inserted db = refl
after_create-events id false inserted db = refl
after_create-events id true duplicate db = refl
after_create-events id false duplicate db = refl
after_create-events id up invalid db = refl

violates_index_self : (d : Event) → violates_index d d ≡ true
unfolding violates_index
violates_index_self d = rw (==_refl d.event_id) refl

module _ (w : Naming) (i : IngestEventInput) (amount : ℕ) (ok : IsAccepted w i amount) where
  valid_at : (now : ℕ) → is_valid (document w now amount i) ≡ true
  unfolding is_valid document
  valid_at now = ok.valid

  pub ingest-accepted :
      (now : ℕ) (up : Bool) (db : Db)
      → ingest w now up i db
        ≡ after_create (input_id w i) up (create_event (document w now amount i) db)
  unfolding ingest
  ingest-accepted now up db = rw (ok.parses, ingest) refl

  -- An accepted input is stored, or its identity or place is.
  pub ingest-events :
      (now : ℕ) (up : Bool) (db : Db)
      → (ingest w now up i db).1.events ≡ (
          if any (violates_index (document w now amount i)) db.events
          then db.events
          else db.events ++ document w now amount i ∷ [])
  ingest-events now up db =
      let d = document w now amount i in
      ap (λ r. r.1.events) (ingest-accepted now up db)
      ∙ elim (Bool-cases (any (violates_index d) db.events)) [
        | inl taken ↦
            ap (λ r. (after_create (input_id w i) up r).1.events)
              (create_event-duplicate d db (valid_at now) taken)
            ∙ after_create-events (input_id w i) up duplicate db
            ∙ rw taken refl
        | inr free ↦
            ap (λ r. (after_create (input_id w i) up r).1.events)
              (create_event-inserted d db (valid_at now) free)
            ∙ after_create-events (input_id w i) up inserted (with_event d db)
            ∙ rw free refl
      ]

  -- Where the identity or place of an accepted input is taken, ingesting it stores nothing.
  ingest-taken :
      (now : ℕ) (db : Db)
      → any (violates_index (document w now amount i)) db.events ≡ true
      → ingest w now true i db ≡ (
        some (record { event_id = input_id w i; replayed = true }),
        enqueue (interpret_event (input_id w i)) db,
      )
  ingest-taken now db taken =
      ingest-accepted now true db
      ∙ ap (after_create (input_id w i) true)
          (create_event-duplicate (document w now amount i) db (valid_at now) taken)

-- The identity or place of an accepted input is taken in what `ingest` leaves.
taken_after :
    (w : Naming) (i : IngestEventInput) (amount : ℕ) (now later : ℕ) (up : Bool) (db : Db)
    → IsAccepted w i amount
    → any (violates_index (document w later amount i)) (ingest w now up i db).1.events ≡ true
unfolding violates_index document
taken_after w i amount now later up db ok =
    let d = document w now amount i in
    let events = ingest-events w i amount ok now up db in
    elim (Bool-cases (any (violates_index d) db.events)) [
      | inl taken ↦ ap (any (violates_index d)) (events ∙ (rw taken refl)) ∙ taken
      | inr free ↦
          ap (any (violates_index d)) (events ∙ (rw free refl))
          ∙ any-here (violates_index d) db.events d (violates_index_self d)
    ]

-- Ingesting an accepted input again stores nothing, reports it as replayed with its identity and
-- hands the interpretation to the queue once more, whatever changes that keep the history the
-- database saw since the first ingestion; also when the queue failed in the first ingestion, so
-- that it threw.
pub retry_replays :
    (w : Naming) (i : IngestEventInput) (amount : ℕ) (now later : ℕ) (up : Bool) (db db' : Db)
    → IsAccepted w i amount
    → DbEvolves (ingest w now up i db).1 db'
    → ingest w later true i db' ≡ (
      some (record { event_id = input_id w i; replayed = true }),
      enqueue (interpret_event (input_id w i)) db',
    )
retry_replays w i amount now later up db db' ok evolves = ingest-taken w i amount ok later db' (
    any-EventsEvolve (document w later amount i) (ingest w now up i db).1.events db'.events
      evolves.events (taken_after w i amount now later up db ok))

native_id :
    (w : Naming) (chain : Key) (hash : Text) (j : IngestEventInput)
    → is_native j.asset_type ≡ true
    → to_lower hash ≡ to_lower j.transaction_hash
    → derive_event_id w chain hash none ≡ input_id w j
unfolding input_id derive_event_id event_id_text
native_id w chain hash j is_nat same = rw is_nat (ap (λ t. w.key (native_prefix ++ t)) same)

-- An accepted native transfer is not stored but reported as replayed, when an event has the identity
-- of a native transfer whose transaction hash is the same up to case, on whatever chain that was.
pub native_collapses :
    (w : Naming) (j : IngestEventInput) (amount now : ℕ) (chain : Key) (hash : Text) (db : Db)
    → IsAccepted w j amount
    → is_native j.asset_type ≡ true
    → to_lower hash ≡ to_lower j.transaction_hash
    → any (λ e. e.event_id == derive_event_id w chain hash none) db.events ≡ true
    → ingest w now true j db ≡ (
      some (record { event_id = input_id w j; replayed = true }),
      enqueue (interpret_event (input_id w j)) db,
    )
unfolding document violates_index
native_collapses w j amount now chain hash db ok is_nat same_hash stored =
    ingest-taken w j amount ok now db (
      any-implied _ (violates_index (document w now amount j)) db.events
        (λ e known.
          let same : e.event_id ≡ input_id w j =
            ==→eq _ _ known ∙ native_id w chain hash j is_nat same_hash in
          rw (same, ==_refl (input_id w j)) refl)
        stored)
