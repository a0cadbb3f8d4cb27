-- ===== src/Ingestion/Calls.antt =====
-- A sequence of ingestions, call by call: the document of a call, and what it leaves of the stored
-- events (src/application/ingestion/event-ingestion-service.ts).
use oscar_payment_gateway.Prelude.{
  ℕ, ◌≡◌, refl, sym, ap, ◌∙◌, subst, ◌⊎◌, Bool, true, false, Option, none, some, List, [], ◌∷◌,
  ◌++◌, any, find, All, Bool-cases, Option-cases, inl, inr, if◌then◌else◌, is_some, ==_refl, ==→eq,
  arith,
}
use oscar_payment_gateway.Money.{parse_base_units}
use oscar_payment_gateway.Store.{Event, Db}
use oscar_payment_gateway.Texts.Laws.{text_eq→eq}
use oscar_payment_gateway.Matching.Claims.{has_event_id}
use oscar_payment_gateway.Ingestion.{
  Naming, IngestEventInput, ingest, input_id, derive_event_id, document, is_valid, violates_index,
  same_place, is_native, create_event,
}
use oscar_payment_gateway.Ingestion.Firsts.{AllOf, opt_eq→eq, ||-implied}
use oscar_payment_gateway.Ingestion.Replays.{IsAccepted, ingest-events}

-- A call of `ingest`: its time, whether the queue took the job, and its input.
pub record Call : Type 0 where
  pub now : ℕ
  pub queue_up : Bool
  pub input : IngestEventInput

abbrev pub ingest_all : Naming → List Call → Db → Db
ingest_all w [] db = db
ingest_all w (c ∷ cs) db = ingest_all w cs (ingest w c.now c.queue_up c.input db).1

-- The document of a call, `none` if it is refused.
abbrev pub accepted_document : Naming → Call → Option Event
accepted_document w c = elim (parse_base_units c.input.amount) [
  | none ↦ none
  | some amount ↦ let d = document w c.now amount c.input in if is_valid d then some d else none
]

-- A stored event's identity is that of its place.
abbrev pub IsDerived : Naming → Event → Type 0
IsDerived w e = e.event_id ≡ derive_event_id w e.chain e.transaction_hash e.log_index

-- As the producers call it: a native transfer has no log index.
abbrev pub IsPlaced : Call → Type 0
IsPlaced c = is_native c.input.asset_type ≡ true → c.input.log_index ≡ none

-- What `ingest` leaves of the events, given the accepted document.
abbrev pub add_document : Option Event → List Event → List Event
add_document none es = es
add_document (some d) es = if any (violates_index d) es then es else es ++ d ∷ []

module _ (w : Naming) where
  -- Documents at one place have one identity.
  same_place→same_id :
      (d e : Event)
      → IsDerived w d
      → IsDerived w e
      → same_place d e ≡ true
      → e.event_id ≡ d.event_id
  same_place→same_id d e at_d at_e same =
      let chain : d.chain ≡ e.chain = ==→eq _ _ (ground arith) in
      let hash : d.transaction_hash ≡ e.transaction_hash = text_eq→eq _ _ (ground arith) in
      let log : d.log_index ≡ e.log_index = opt_eq→eq _ _ (ground arith) in
      at_e
      ∙ ap (λ k. derive_event_id w k e.transaction_hash e.log_index) (sym chain)
      ∙ ap (λ k. derive_event_id w d.chain k e.log_index) (sym hash)
      ∙ ap (λ k. derive_event_id w d.chain d.transaction_hash k) (sym log)
      ∙ sym at_d

  violates_index-has_event_id :
      (d e : Event) → IsDerived w d → IsDerived w e → violates_index d e ≡ has_event_id d.event_id e
  unfolding violates_index
  violates_index-has_event_id d e at_d at_e =
      ||-implied (has_event_id d.event_id e) (same_place d e) (λ place.
        let same : e.event_id ≡ d.event_id = same_place→same_id d e at_d at_e place in
        rw (same, ==_refl d.event_id) refl)

  -- Under derived identities the indexes forbid just a second event of one identity.
  pub taken_iff_named :
      (d : Event) (es : List Event)
      → IsDerived w d
      → All (IsDerived w) es
      → any (violates_index d) es ≡ is_some (find (has_event_id d.event_id) es)
  taken_iff_named d [] at_d at_es = refl
  taken_iff_named d (e ∷ es) at_d (at_e, at_es) =
      let one = violates_index-has_event_id d e at_d at_e in
      elim (Bool-cases (has_event_id d.event_id e)) [
        | inl named ↦ rw (one, named) refl
        | inr unnamed ↦ rw (one, unnamed) (taken_iff_named d es at_d at_es)
      ]

  document-IsDerived :
      (c : Call) (amount : ℕ) → IsPlaced c → IsDerived w (document w c.now amount c.input)
  unfolding document input_id
  document-IsDerived c amount placed = elim (Bool-cases (is_native c.input.asset_type)) [
    | inl nat ↦ let no_log = placed nat in rw (nat, no_log) refl
    | inr token ↦ rw token refl
  ]

  ingest-refused :
      (c : Call) (db : Db)
      → parse_base_units c.input.amount ≡ none
      → ingest w c.now c.queue_up c.input db ≡ (none, db)
  unfolding ingest
  ingest-refused c db refused = rw (refused, ingest) refl

  ingest-invalid :
      (c : Call) (amount : ℕ) (db : Db)
      → parse_base_units c.input.amount ≡ some amount
      → is_valid (document w c.now amount c.input) ≡ false
      → ingest w c.now c.queue_up c.input db ≡ (none, db)
  unfolding ingest create_event
  ingest-invalid c amount db parsed unfit = rw (parsed, ingest) (rw unfit refl)

  accepted :
      (c : Call) (amount : ℕ)
      → parse_base_units c.input.amount ≡ some amount
      → is_valid (document w c.now amount c.input) ≡ true
      → IsAccepted w c.input amount
  unfolding is_valid document
  accepted c amount parsed fit = record { parses = parsed; valid = fit }

  -- A call is refused and writes nothing, or its document is accepted.
  Call-cases :
      (c : Call)
      → ((accepted_document w c ≡ none)
          × ((db : Db) → ingest w c.now c.queue_up c.input db ≡ (none, db)))
        ⊎ ((amount : ℕ) × (accepted_document w c ≡ some (document w c.now amount c.input))
            × IsAccepted w c.input amount)
  Call-cases c = elim (Option-cases (parse_base_units c.input.amount)) [
    | inl refused ↦ inl (rw (refused, accepted_document) refl, λ db. ingest-refused c db refused)
    | inr (amount, parsed) ↦ elim (Bool-cases (is_valid (document w c.now amount c.input))) [
      | inl fit ↦
          inr (amount, rw (parsed, accepted_document) (rw fit refl), accepted c amount parsed fit)
      | inr unfit ↦ inl (
        rw (parsed, accepted_document) (rw unfit refl),
        λ db. ingest-invalid c amount db parsed unfit,
      )
    ]
  ]

  pub accepted_document-IsDerived :
      (c : Call) → IsPlaced c → AllOf (IsDerived w) (accepted_document w c)
  accepted_document-IsDerived c placed = elim (Call-cases c) [
    | inl (refused, _) ↦ subst (AllOf (IsDerived w)) (sym refused) tt
    | inr (amount, kept, _) ↦
        subst (AllOf (IsDerived w)) (sym kept) (document-IsDerived c amount placed)
  ]

  -- A call stores its document, if it is accepted and forbidden by no index.
  pub ingest-add_document :
      (c : Call) (db : Db)
      → (ingest w c.now c.queue_up c.input db).1.events
        ≡ add_document (accepted_document w c) db.events
  ingest-add_document c db = elim (Call-cases c) [
    | inl (refused, untouched) ↦
        ap (λ r. r.1.events) (untouched db) ∙ ap (λ o. add_document o db.events) (sym refused)
    | inr (amount, kept, ok) ↦
        ingest-events w c.input amount ok c.now c.queue_up db
        ∙ ap (λ o. add_document o db.events) (sym kept)
  ]
