-- ===== src/Confirmation/Safety.antt =====
-- When a step can make a payment confirmed.
use oscar_payment_gateway.Prelude.{
  ℕ, ◌≡◌, ◌≢◌, ◌⊎◌, inl, inr, ap, ◌∙◌, true, false, Option, none, some, if-elim, Bool-cases, arith,
}
use oscar_payment_gateway.Payments.{
  PaymentStatus, matched, confirming, confirmed, failed, evaluate_payment_transition,
  TransitionEvaluation-cases,
}
use oscar_payment_gateway.Store.{
  Key, Db, Event, Payment, PaymentScreeningStatus, AuditAction, payment_to,
  payment_compliance_override_released, bumped, unchanged_since, annotate, append_audit, Annotation,
}
use oscar_payment_gateway.Screening.{screening_status_for_verdict, same_screening}
use oscar_payment_gateway.Matching.Outcomes.{Config}
use oscar_payment_gateway.Confirmation.Transitions.{
  World, ReviewDecision, release, block, apply_transition, record_rejection,
}
use oscar_payment_gateway.Confirmation.Effects.{transition_fresh, transition_stale}
use oscar_payment_gateway.Confirmation.{
  note, set_failed, set_confirming, set_confirmed, set_screening, attempt, reorg_stage, start_stage,
  progress_stage, finish_stage, hold_stage, release_stage, not_clear_stage, screen_stage,
  decided_stage,
}

-- The collection holds the payment, and not as confirmed.
abbrev pub Unconfirmed : Key → (Key → Option Payment) → Type 0
Unconfirmed id m = (q : Payment) × (m id ≡ some q) × (q.status ≢ confirmed)

pub annotate_payments : (a : Annotation) (db : Db) → (annotate a db).payments ≡ db.payments
unfolding annotate
annotate_payments a db = ground arith

module _ (cfg : Config) (w : World) (p : Payment) (event : Event) where
  -- A transition to another state leaves the payment unconfirmed.
  transition-Unconfirmed :
      (to : PaymentStatus) (action : AuditAction) (change : Payment → Payment) (db : Db)
      → ((q : Payment) → (change q).status ≢ confirmed)
      → Unconfirmed p.payment_id db.payments
      → Unconfirmed p.payment_id (apply_transition cfg w p to action change event db).payments
  transition-Unconfirmed to action change db other (q, found, open') =
      elim (Bool-cases (unchanged_since p.status p.version q)) [
        | inl fits ↦ (
          bumped change q,
          transition_fresh cfg w p to action change event q db found fits,
          other q,
        )
        | inr unfit ↦ (
          q,
          ap (λ (m : Key → Option Payment). m p.payment_id)
                (transition_stale cfg w p to action change event q db found unfit)
              ∙ found,
          open',
        )
      ]

  -- After one transition from a snapshot, a second from the same snapshot finds it stale.
  pub second_transition :
      (to to' : PaymentStatus) (action action' : AuditAction) (change change' : Payment → Payment)
      (q : Payment) (db : Db)
      → db.payments p.payment_id ≡ some q
      → (apply_transition cfg w p to' action' change' event
          (apply_transition cfg w p to action change event db)).payments
        ≡ (apply_transition cfg w p to action change event db).payments
  second_transition to to' action action' change change' q db found =
      elim (Bool-cases (unchanged_since p.status p.version q)) [
        | inl fits ↦
            transition_stale cfg w p to' action' change' event (bumped change q) _
              (transition_fresh cfg w p to action change event q db found fits) (ground arith)
        | inr unfit ↦
            transition_stale cfg w p to' action' change' event q _
              (ap (λ (m : Key → Option Payment). m p.payment_id)
                  (transition_stale cfg w p to action change event q db found unfit)
                ∙ found)
              unfit
      ]

  -- No stage but the last makes the payment confirmed.
  module _ (db : Db) (before : Unconfirmed p.payment_id db.payments) where
    pub reorg_stage-Unconfirmed :
        (n : ℕ) → Unconfirmed p.payment_id (reorg_stage cfg w p event n db).1.payments
    unfolding reorg_stage note set_failed
    reorg_stage-Unconfirmed n =
        elim (TransitionEvaluation-cases (
          evaluate_payment_transition
            (attempt cfg w p event p.status failed w.now n false false))) [
              | inl allowed ↦
                  rw (allowed, reorg_stage)
                    (rw (annotate_payments) (
                      transition-Unconfirmed failed _ (set_failed cfg w p event) db
                        (λ q. ground arith) before))
              | inr (r, refused) ↦ rw (refused, reorg_stage) before
            ]

    pub start_stage-Unconfirmed :
        (n : ℕ) → Unconfirmed p.payment_id (start_stage cfg w p event n db).1.payments
    unfolding start_stage set_confirming record_rejection append_audit
    start_stage-Unconfirmed n =
        elim (TransitionEvaluation-cases (
          evaluate_payment_transition
            (attempt cfg w p event matched confirming w.now n true true))) [
              | inl allowed ↦
                  rw (allowed, start_stage)
                    (transition-Unconfirmed confirming _ (set_confirming cfg w p event 0) db
                      (λ q. ground arith) before)
              | inr (r, refused) ↦ rw (refused, start_stage) before
            ]

    pub progress_stage-Unconfirmed :
        (n : ℕ) → Unconfirmed p.payment_id (progress_stage cfg w p event n db).1.payments
    unfolding progress_stage set_confirming record_rejection append_audit
    progress_stage-Unconfirmed n =
        elim (TransitionEvaluation-cases (
          evaluate_payment_transition
            (attempt cfg w p event confirming confirming w.now n true true))) [
              | inl allowed ↦
                  rw (allowed, progress_stage)
                    (transition-Unconfirmed confirming _ (set_confirming cfg w p event n) db
                      (λ q. ground arith) before)
              | inr (r, refused) ↦ rw (refused, progress_stage) before
            ]

    module _ (open' : p.status ≢ confirmed) where
      hold_stage-Unconfirmed :
          (s : PaymentScreeningStatus)
          → Unconfirmed p.payment_id (hold_stage cfg w p event s db).1.payments
      unfolding hold_stage note set_screening
      hold_stage-Unconfirmed s = rw (annotate_payments) (
          if-elim (λ (x : Db). Unconfirmed p.payment_id x.payments)
            (same_screening p.screening_status s) db _ (λ _. before)
            (λ _.
              transition-Unconfirmed p.status _ (set_screening cfg w p event s) db (λ q. open')
                before))

      -- A release does not confirm: the transition after its own finds the snapshot stale.
      release_stage-Unconfirmed :
          (n : ℕ) → Unconfirmed p.payment_id (release_stage cfg w p event n db).1.payments
      unfolding release_stage finish_stage set_screening record_rejection append_audit
      release_stage-Unconfirmed n =
          let (q, found, _) = before in
          let change = set_screening cfg w p event PaymentScreeningStatus.clear in
          let released =
            transition-Unconfirmed p.status payment_compliance_override_released change db
              (λ q. open') before in
          elim (TransitionEvaluation-cases (
            evaluate_payment_transition
              (attempt cfg w p event confirming confirmed w.now2 n true true))) [
                | inl allowed ↦
                    rw (allowed, finish_stage)
                      (rw
                        (second_transition p.status confirmed payment_compliance_override_released
                          (payment_to confirmed) change (set_confirmed cfg w p event) q db found)
                        released)
                | inr (r, refused) ↦ rw (refused, finish_stage) released
              ]

      not_clear_stage-Unconfirmed :
          (decision : Option ReviewDecision) (s : PaymentScreeningStatus) (n : ℕ)
          → Unconfirmed p.payment_id (not_clear_stage cfg w p event decision s n db).1.payments
      unfolding not_clear_stage
      not_clear_stage-Unconfirmed none s n = hold_stage-Unconfirmed s
      not_clear_stage-Unconfirmed (some block) s n = hold_stage-Unconfirmed s
      not_clear_stage-Unconfirmed (some release) s n = release_stage-Unconfirmed n

      -- A step that leaves the payment unconfirmed, or the sender is clear and not blocked.
      screen_stage-Unconfirmed :
          (decision : Option ReviewDecision) (n : ℕ)
          → Unconfirmed p.payment_id (screen_stage cfg w p event decision n db).1.payments
            ⊎ (same_screening
                  (screening_status_for_verdict (w.screen event))
                  PaymentScreeningStatus.clear
                ≡ true)
      unfolding screen_stage
      screen_stage-Unconfirmed decision n =
          elim (Bool-cases (
            same_screening (screening_status_for_verdict (w.screen event))
              PaymentScreeningStatus.clear)) [
                | inl clean ↦ inr clean
                | inr dirty ↦ inl (rw dirty (not_clear_stage-Unconfirmed decision _ n))
              ]

      pub decided_stage-Unconfirmed :
          (decision : Option ReviewDecision) (n : ℕ)
          → Unconfirmed p.payment_id (decided_stage cfg w p event decision n db).1.payments
            ⊎ ((decision ≢ some block)
                × (same_screening
                      (screening_status_for_verdict (w.screen event))
                      PaymentScreeningStatus.clear
                    ≡ true))
      unfolding decided_stage note
      decided_stage-Unconfirmed none n = elim (screen_stage-Unconfirmed none n) [
        | inl safe ↦ inl safe
        | inr clean ↦ inr (ground arith, clean)
      ]
      decided_stage-Unconfirmed (some release) n =
          elim (screen_stage-Unconfirmed (some release) n) [
            | inl safe ↦ inl safe
            | inr clean ↦ inr (ground arith, clean)
          ]
      decided_stage-Unconfirmed (some block) n = inl (rw (annotate_payments) before)
