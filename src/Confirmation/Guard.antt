-- ===== src/Confirmation/Guard.antt =====
-- What holds of a payment, its event and its sender when a step of `advancePayment`
-- (src/application/processing/payment-confirmation-service.ts) makes the payment confirmed.
use oscar_payment_gateway.Prelude.{
  ℕ, ◌≤◌, ◌≡◌, ◌≢◌, ◌⊎◌, inl, inr, refl, ap, ◌∙◌, sym, subst, Bool, true, false, not, ◌&&◌, ◌||◌,
  Option, none, some, if-elim, ltb, min, get_or, arith,
}
use mathlib.Core.Option.{some-injective}
use oscar_payment_gateway.Payments.{matched, confirming, confirmed, is, is_terminal}
use oscar_payment_gateway.Store.{Db, Event, Payment, PaymentScreeningStatus}
use oscar_payment_gateway.Screening.{screening_status_for_verdict, same_screening}
use oscar_payment_gateway.Matching.Outcomes.{Config}
use oscar_payment_gateway.Confirmation.Transitions.{
  World, Observation, observed, unavailable, block,
}
use oscar_payment_gateway.Confirmation.Safety.{
  Unconfirmed, reorg_stage-Unconfirmed, start_stage-Unconfirmed, progress_stage-Unconfirmed,
  decided_stage-Unconfirmed,
}
use oscar_payment_gateway.Confirmation.{
  gate_stage, depth_stage, observed_stage, observe_stage, event_stage, payment_stage, advance_found,
  advance_payment, ConfirmationAdvance, matching_event, is_true,
}

-- The fresh verdict on the sender is clear, and the latest review decision is not a block.
abbrev pub IsCleared : World → Payment → Event → Type 0
IsCleared w p event =
    (w.latest_review_decision p.payment_id ≢ some block)
    × (same_screening (screening_status_for_verdict (w.screen event)) PaymentScreeningStatus.clear
        ≡ true)

-- The observation says that the event is on the canonical chain and deep enough.
abbrev pub IsDeep : World → Payment → Event → Type 0
IsDeep w p event =
    (n : Option ℕ) × (w.observe event ≡ observed n (some true))
    × (event.canonical ≡ true)
    × (p.required_confirmations ≤ get_or n 0)

module _ (cfg : Config) (w : World) (p : Payment) (db : Db)
    (before : Unconfirmed p.payment_id db.payments) (open' : p.status ≢ confirmed) where
  depth_stage-Unconfirmed :
      (event : Event) (n : ℕ)
      → Unconfirmed p.payment_id (depth_stage cfg w p event n db).1.payments
        ⊎ ((p.required_confirmations ≤ n) × IsCleared w p event)
  unfolding depth_stage gate_stage
  depth_stage-Unconfirmed event n =
      let capped = min n p.required_confirmations in
      if-elim
        (λ (r : ConfirmationAdvance × Db).
          Unconfirmed p.payment_id r.1.payments
          ⊎ ((p.required_confirmations ≤ n) × IsCleared w p event))
        (ltb capped p.required_confirmations) _ _
        (λ _. inl (
          if-elim (λ (r : ConfirmationAdvance × Db). Unconfirmed p.payment_id r.1.payments)
            (ltb p.confirmations capped) _ _
            (λ _. progress_stage-Unconfirmed cfg w p event db before capped) (λ _. before)))
        (λ deep.
          elim (decided_stage-Unconfirmed cfg w p event db before open'
            (w.latest_review_decision p.payment_id) capped) [
              | inl safe ↦ inl safe
              | inr cleared ↦ inr (ground arith, cleared)
            ])

  observed_stage-Unconfirmed :
      (event : Event) (canonical : Bool) (n : ℕ)
      → Unconfirmed p.payment_id (observed_stage cfg w p event canonical n db).1.payments
        ⊎ ((canonical ≡ true) × (p.required_confirmations ≤ n) × IsCleared w p event)
  unfolding observed_stage
  observed_stage-Unconfirmed event false n = inl (reorg_stage-Unconfirmed cfg w p event db before n)
  observed_stage-Unconfirmed event true n =
      if-elim
        (λ (r : ConfirmationAdvance × Db).
          Unconfirmed p.payment_id r.1.payments
          ⊎ ((Path Bool true true) × (p.required_confirmations ≤ n) × IsCleared w p event))
        (is p.status matched) _ _ (λ _. inl (start_stage-Unconfirmed cfg w p event db before n))
        (λ _. elim (depth_stage-Unconfirmed event n) [
          | inl safe ↦ inl safe
          | inr (deep, cleared) ↦ inr (refl, deep, cleared)
        ])

  canonical_both :
      (c : Option Bool) (b : Bool) → (is_true c && b) ≡ true → (c ≡ some true) × (b ≡ true)
  canonical_both (some true) true h = (refl, refl)
  canonical_both (some true) false h = absurd (ground arith)
  canonical_both (some false) b h = absurd (ground arith)
  canonical_both none b h = absurd (ground arith)

  observe_stage-Unconfirmed :
      (event : Event) (o : Observation)
      → Unconfirmed p.payment_id (observe_stage cfg w p event o db).1.payments
        ⊎ ((n : Option ℕ) × (o ≡ observed n (some true))
            × (event.canonical ≡ true)
            × (p.required_confirmations ≤ get_or n 0)
            × IsCleared w p event)
  unfolding observe_stage
  observe_stage-Unconfirmed event unavailable = inl before
  observe_stage-Unconfirmed event (observed n c) =
      elim (observed_stage-Unconfirmed event (is_true c && event.canonical) (get_or n 0)) [
        | inl safe ↦ inl safe
        | inr (both, deep, cleared) ↦
            let (reader, stored) = canonical_both c event.canonical both in
            inr (n, ap (observed n) reader, stored, deep, cleared)
      ]

  event_stage-Unconfirmed :
      (found : Option Event)
      → Unconfirmed p.payment_id (event_stage cfg w p found db).1.payments
        ⊎ ((event : Event) × (found ≡ some event) × IsDeep w p event × IsCleared w p event)
  unfolding event_stage
  event_stage-Unconfirmed none = inl before
  event_stage-Unconfirmed (some event) = elim (observe_stage-Unconfirmed event (w.observe event)) [
    | inl safe ↦ inl safe
    | inr (n, says, stored, deep, cleared) ↦ inr (event, refl, (n, says, stored, deep), cleared)
  ]

payment_stage-Unconfirmed :
    (cfg : Config) (w : World) (p : Payment) (seen db : Db)
    → Unconfirmed p.payment_id db.payments
    → Unconfirmed p.payment_id (payment_stage cfg w p seen db).1.payments
      ⊎ ((event : Event) × (matching_event p seen ≡ some event)
          × IsDeep w p event
          × IsCleared w p event)
unfolding payment_stage
payment_stage-Unconfirmed cfg w p seen db before =
    let Goal : ConfirmationAdvance × Db → Type 0 = λ r.
      Unconfirmed p.payment_id r.1.payments
      ⊎ ((event : Event) × (matching_event p seen ≡ some event)
          × IsDeep w p event
          × IsCleared w p event) in
    if-elim Goal p.automation_hold _ _ (λ _. inl before)
      (λ _.
        if-elim Goal (is_terminal p.status) _ _ (λ _. inl before)
          (λ live.
            if-elim Goal (not (is p.status matched || is p.status confirming)) _ _ (λ _. inl before)
              (λ _.
                event_stage-Unconfirmed cfg w p db before (ground arith) (matching_event p seen))))

-- A step that makes confirmed a payment that the database does not hold as confirmed: the payment's
-- matching event exists and is stored as canonical, the readers agree that it is on the canonical chain
-- with at least the required confirmations, the fresh verdict on its sender is clear, and the latest
-- review decision on the payment is not a block. The other workers' writes between the reads and the
-- step's writes are arbitrary.
pub confirmed_requires :
    (cfg : Config) (w : World) (p : Payment) (seen db : Db)
    → seen.payments p.payment_id ≡ some p
    → Unconfirmed p.payment_id db.payments
    → (advance : ConfirmationAdvance) (after : Db) (q : Payment)
    → advance_payment cfg w p.payment_id seen db ≡ some (advance, after)
    → after.payments p.payment_id ≡ some q
    → q.status ≡ confirmed
    → (event : Event) × (matching_event p seen ≡ some event)
      × IsDeep w p event
      × IsCleared w p event
unfolding advance_payment advance_found
confirmed_requires cfg w p seen db read before advance after q ran now_q now_confirmed =
    let same : payment_stage cfg w p seen db ≡ (advance, after) =
      some-injective _ _ (sym (rw read) ∙ ran) in
    elim (payment_stage-Unconfirmed cfg w p seen db before) [
      | inl (q', found, other) ↦
          let at_after : after.payments p.payment_id ≡ some q' =
            subst (λ (r : ConfirmationAdvance × Db). r.1.payments p.payment_id ≡ some q') same
              found in
          absurd (
            other (
              ap (λ (x : Payment). x.status) (some-injective _ _ (sym at_after ∙ now_q))
              ∙ now_confirmed))
      | inr grounds ↦ grounds
    ]
