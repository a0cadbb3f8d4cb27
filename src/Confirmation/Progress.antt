-- ===== src/Confirmation/Progress.antt =====
-- What a step of `advancePayment` (src/application/processing/payment-confirmation-service.ts) does to
-- a confirming payment whose matching event is deep enough, and to one whose event is gone.
use oscar_payment_gateway.Prelude.{
  ℕ, ◌+◌, ◌≡◌, ◌≢◌, refl, ap, ◌∙◌, true, false, Option, none, some, ltb, min, get_or, arith,
  ==_refl,
}
use oscar_payment_gateway.Payments.{
  matched, confirming, confirmed, is, is_terminal, evaluate_payment_transition, legal,
}
use oscar_payment_gateway.Payments.Table.{evaluate_iff_Permits, Permits}
use oscar_payment_gateway.Store.{
  compliance, Key, Db, Event, Payment, PaymentScreeningStatus, bumped, unchanged_since, payment_to,
  payment_compliance_override_released,
}
use oscar_payment_gateway.Screening.{screening_status_for_verdict, same_screening}
use oscar_payment_gateway.Matching.Outcomes.{Config}
use oscar_payment_gateway.Confirmation.Transitions.{
  World, observed, ReviewDecision, release, block, apply_transition,
}
use oscar_payment_gateway.Confirmation.Effects.{transition_fresh}
use oscar_payment_gateway.Confirmation.Safety.{second_transition, annotate_payments}
use oscar_payment_gateway.Confirmation.Guard.{IsDeep, IsCleared}
use oscar_payment_gateway.Confirmation.{
  attempt, set_confirmed, set_screening, finish_stage, release_stage, not_clear_stage, screen_stage,
  decided_stage, gate_stage, depth_stage, observed_stage, observe_stage, event_stage, payment_stage,
  advance_found, advance_payment, ConfirmationAdvance, terminal, held, note, matching_event,
}

module _ (cfg : Config) (w : World) (p : Payment) (seen db : Db) (event : Event)
    (read : seen.payments p.payment_id ≡ some p) (stored : db.payments p.payment_id ≡ some p)
    (automated : p.automation_hold ≡ false) (now_confirming : p.status ≡ confirming)
    (named : matching_event p seen ≡ some event) where
  fits : unchanged_since p.status p.version p ≡ true
  fits = rw (now_confirming, ==_refl p.version)

  observes :
      (n : Option ℕ)
      → w.observe event ≡ observed n (some true)
      → event.canonical ≡ true
      → advance_payment cfg w p.payment_id seen db
        ≡ some (depth_stage cfg w p event (get_or n 0) db)
  unfolding advance_payment advance_found payment_stage event_stage observe_stage observed_stage
  observes n says canonical =
      let m : is p.status matched ≡ false = rw now_confirming in
      let c : is p.status confirming ≡ true = rw now_confirming in
      let t : is_terminal p.status ≡ false = rw now_confirming in
      rw read (simp (automated, t, m, c, named, says, canonical))

  reaches_gate :
      IsDeep w p event
      → advance_payment cfg w p.payment_id seen db
        ≡ some (gate_stage cfg w p event p.required_confirmations db)
  unfolding depth_stage
  reaches_gate (n, says, canonical, deep) =
      let capped : min (get_or n 0) p.required_confirmations ≡ p.required_confirmations =
        omega arith in
      let enough : ltb p.required_confirmations p.required_confirmations ≡ false = ground arith in
      observes n says canonical ∙ rw (capped, enough)

  finishes :
      (d : Db)
      → finish_stage cfg w p event p.required_confirmations d ≡ (
        terminal confirmed,
        apply_transition cfg w p confirmed
            (payment_to confirmed)
            (set_confirmed cfg w p event)
            event
            d,
      )
  unfolding finish_stage
  finishes d =
      let i =
        attempt cfg w p event confirming confirmed w.now2 p.required_confirmations true true in
      let allowed : evaluate_payment_transition i ≡ legal =
        (evaluate_iff_Permits i).1 (Permits.confirm (omega arith) refl refl) in
      rw (allowed, finish_stage)

  finishes_stored :
      (q : Payment) × ((finish_stage cfg w p event p.required_confirmations db).1.payments
          p.payment_id
        ≡ some q)
      × (q.status ≡ confirmed)
      × (q.confirmations ≡ p.required_confirmations)
      × (q.confirmed_at ≡ some w.now2)
      × (q.version ≡ p.version + 1)
  unfolding set_confirmed
  finishes_stored = (
    bumped (set_confirmed cfg w p event) p,
    ap (λ (r : ConfirmationAdvance × Db). r.1.payments p.payment_id) (finishes db)
        ∙ transition_fresh cfg w p confirmed (payment_to confirmed) (set_confirmed cfg w p event)
            event p db stored fits,
    refl,
    refl,
    refl,
    refl,
  )

  gate_cleared :
      (d : Option ReviewDecision) (n : ℕ)
      → d ≢ some block
      → same_screening (screening_status_for_verdict (w.screen event)) PaymentScreeningStatus.clear
        ≡ true
      → decided_stage cfg w p event d n db ≡ finish_stage cfg w p event n db
  unfolding decided_stage screen_stage
  gate_cleared none n free clean = rw clean
  gate_cleared (some release) n free clean = rw clean
  gate_cleared (some block) n free clean = absurd (free refl)

  -- A confirming payment that no hold keeps from automation, whose matching event is canonical and has
  -- the required confirmations, whose sender's verdict is clear and whose latest review decision is not
  -- a block: the step reports the payment as confirmed, and the payment is stored as confirmed, with
  -- the required number of confirmations and the time of the step, one version later. No other worker
  -- has written the payment since the step read it.
  pub cleared_payment_confirms :
      IsDeep w p event
      → IsCleared w p event
      → (after : Db) × (q : Payment) × (advance_payment cfg w p.payment_id seen db
          ≡ some (terminal confirmed, after))
        × (after.payments p.payment_id ≡ some q)
        × (q.status ≡ confirmed)
        × (q.confirmations ≡ p.required_confirmations)
        × (q.confirmed_at ≡ some w.now2)
        × (q.version ≡ p.version + 1)
  unfolding gate_stage
  cleared_payment_confirms deep (free, clean) =
      let (q, found, as_confirmed, depth, at, version) = finishes_stored in
      let n = p.required_confirmations in
      (
        (finish_stage cfg w p event n db).1,
        q,
        reaches_gate deep
            ∙ ap (λ (r : ConfirmationAdvance × Db). some r)
                (gate_cleared (w.latest_review_decision p.payment_id) n free clean
                  ∙ ap (λ (a : ConfirmationAdvance). (a, (finish_stage cfg w p event n db).1))
                      (ap (λ (r : ConfirmationAdvance × Db). r.0) (finishes db))),
        found,
        as_confirmed,
        depth,
        at,
        version,
      )

  gate_released :
      same_screening (screening_status_for_verdict (w.screen event)) PaymentScreeningStatus.clear
        ≡ false
      → decided_stage cfg w p event (some release) p.required_confirmations db
        ≡ finish_stage cfg w p event p.required_confirmations (
            apply_transition cfg w p p.status payment_compliance_override_released
              (set_screening cfg w p event PaymentScreeningStatus.clear)
              event
              db)
  unfolding decided_stage screen_stage not_clear_stage release_stage
  gate_released dirty = rw dirty

  -- A release of a compliance hold reports the payment as confirmed and leaves it confirming: with the
  -- sender's verdict not clear and the latest decision a release, the stored payment gets the clear
  -- screening status and one version later, and the confirmation, which goes by the version read
  -- before, misses it. The conditions on the payment and its event are those of a confirmation.
  pub release_override_stays_confirming :
      IsDeep w p event
      → w.latest_review_decision p.payment_id ≡ some release
      → same_screening (screening_status_for_verdict (w.screen event)) PaymentScreeningStatus.clear
        ≡ false
      → (after : Db) × (q : Payment) × (advance_payment cfg w p.payment_id seen db
          ≡ some (terminal confirmed, after))
        × (after.payments p.payment_id ≡ some q)
        × (q.status ≡ confirming)
        × (q.screening_status ≡ PaymentScreeningStatus.clear)
        × (q.version ≡ p.version + 1)
  unfolding gate_stage set_screening
  release_override_stays_confirming deep decided dirty =
      let change = set_screening cfg w p event PaymentScreeningStatus.clear in
      let action = payment_compliance_override_released in
      let d = apply_transition cfg w p p.status action change event db in
      let final =
        apply_transition cfg w p confirmed (payment_to confirmed) (set_confirmed cfg w p event)
          event d in
      (
        final,
        bumped change p,
        reaches_gate deep
            ∙ ap (λ (r : ConfirmationAdvance × Db). some r)
                (ap
                    (λ (o : Option ReviewDecision).
                      decided_stage cfg w p event o p.required_confirmations db)
                    decided
                  ∙ (gate_released dirty ∙ finishes d)),
        ap (λ (m : Key → Option Payment). m p.payment_id)
              (second_transition cfg w p event p.status confirmed action (payment_to confirmed)
                change (set_confirmed cfg w p event) p db stored)
            ∙ transition_fresh cfg w p p.status action change event p db stored fits,
        now_confirming,
        refl,
        refl,
      )

  -- A block holds a deep payment, whatever the screening says, and leaves every payment as it is.
  pub blocked_payment_held :
      IsDeep w p event
      → w.latest_review_decision p.payment_id ≡ some block
      → (after : Db) × (advance_payment cfg w p.payment_id seen db ≡ some (held, after))
        × (after.payments ≡ db.payments)
  unfolding gate_stage decided_stage note
  blocked_payment_held deep decided = (
    note p compliance db,
    reaches_gate deep
        ∙ ap
            (λ (o : Option ReviewDecision).
              some (decided_stage cfg w p event o p.required_confirmations db))
            decided,
    annotate_payments _ db,
  )
