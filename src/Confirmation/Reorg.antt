-- ===== src/Confirmation/Reorg.antt =====
-- What a step of `advancePayment` (src/application/processing/payment-confirmation-service.ts) does
-- when the matching event is missing, unobserved, or no longer canonical.
use oscar_payment_gateway.Prelude.{
  ℕ, ◌+◌, ◌*◌, ◌≤◌, ◌<◌, ◌≡◌, ◌⊎◌, inl, inr, refl, ap, ◌∙◌, Bool, true, false, ◌&&◌, Option, none,
  some, get_or, arith,
}
use oscar_payment_gateway.Payments.{matched, confirming, failed, evaluate_payment_transition, legal}
use oscar_payment_gateway.Payments.Table.{evaluate_iff_Permits, Permits}
use oscar_payment_gateway.Store.{
  reorg, Key, Db, Event, Payment, bumped, unchanged_since, payment_to,
}
use oscar_payment_gateway.Matching.Outcomes.{Config}
use oscar_payment_gateway.Confirmation.Transitions.{World, observed, unavailable, apply_transition}
use oscar_payment_gateway.Confirmation.Effects.{transition_fresh}
use oscar_payment_gateway.Confirmation.Safety.{annotate_payments}
use oscar_payment_gateway.Confirmation.{
  attempt, set_failed, reorg_stage, observed_stage, observe_stage, event_stage, note, payment_stage,
  advance_found, advance_payment, ConfirmationAdvance, terminal, waiting, matching_event, is_true,
}

module _ (cfg : Config) (w : World) (p : Payment) (seen db : Db)
    (read : seen.payments p.payment_id ≡ some p) (automated : p.automation_hold ≡ false)
    (live : (p.status ≡ matched) ⊎ (p.status ≡ confirming)) where
  reads_event :
      advance_payment cfg w p.payment_id seen db
      ≡ some (event_stage cfg w p (matching_event p seen) db)
  unfolding advance_payment advance_found payment_stage
  reads_event = ground arith

  -- A matched or confirming payment whose matching event is missing, or for which the readers give no
  -- observation, waits, and the step writes nothing.
  pub unobserved_payment_waits :
      (matching_event p seen ≡ none)
        ⊎ ((event : Event) × (matching_event p seen ≡ some event) × (w.observe event ≡ unavailable))
      → advance_payment cfg w p.payment_id seen db ≡ some (waiting, db)
  unfolding event_stage observe_stage
  unobserved_payment_waits (inl missing) = reads_event ∙ rw missing
  unobserved_payment_waits (inr (event, named, down)) = reads_event ∙ rw (named, down)

  module _ (event : Event) (n : Option ℕ) (c : Option Bool)
      (named : matching_event p seen ≡ some event) (says : w.observe event ≡ observed n c)
      (gone : (is_true c && event.canonical) ≡ false) where
    reads_reorg :
        advance_payment cfg w p.payment_id seen db
        ≡ some (reorg_stage cfg w p event (get_or n 0) db)
    unfolding event_stage observe_stage observed_stage
    reads_reorg = reads_event ∙ rw (named, says) (simp gone)

    -- A matched or confirming payment whose matching event is off the canonical chain waits without a
    -- write until the grace after its expiry has passed.
    pub orphaned_payment_waits :
        w.now ≤ p.expires_at + cfg.late_payment_grace_sec * 1000
        → advance_payment cfg w p.payment_id seen db ≡ some (waiting, db)
    unfolding reorg_stage evaluate_payment_transition
    orphaned_payment_waits early = elim live [
      | inl m ↦ reads_reorg ∙ ap (λ (r : ConfirmationAdvance × Db). some r) (ground arith)
      | inr k ↦ reads_reorg ∙ ap (λ (r : ConfirmationAdvance × Db). some r) (ground arith)
    ]

    -- A matched or confirming payment that no hold keeps from automation, and whose matching event is
    -- observed, but is not both stored as canonical and read as canonical, fails once the grace after its
    -- expiry has passed, at the time of the step and one version later. No other worker has written the payment since the step read it.
    pub orphaned_payment_fails :
        p.expires_at + cfg.late_payment_grace_sec * 1000 < w.now
        → db.payments p.payment_id ≡ some p
        → (after : Db) × (q : Payment) × (advance_payment cfg w p.payment_id seen db
            ≡ some (terminal failed, after))
          × (after.payments p.payment_id ≡ some q)
          × (q.status ≡ failed)
          × (q.terminal_at ≡ some w.now)
          × (q.version ≡ p.version + 1)
    unfolding reorg_stage note set_failed
    orphaned_payment_fails late stored =
        let i = attempt cfg w p event p.status failed w.now (get_or n 0) false false in
        let allowed : evaluate_payment_transition i ≡ legal = elim live [
          | inl m ↦ (evaluate_iff_Permits i).1 (rw m (Permits.fail_matched refl late))
          | inr k ↦ (evaluate_iff_Permits i).1 (rw k (Permits.fail_confirming refl late))
        ] in
        let change = set_failed cfg w p event in
        let d = apply_transition cfg w p failed (payment_to failed) change event db in
        let fits : unchanged_since p.status p.version p ≡ true = ground arith in
        (
          note p reorg d,
          bumped change p,
          reads_reorg ∙ rw (allowed, reorg_stage),
          ap (λ (m : Key → Option Payment). m p.payment_id) (annotate_payments _ d)
              ∙ transition_fresh cfg w p failed (payment_to failed) change event p db stored fits,
          refl,
          refl,
          refl,
        )
