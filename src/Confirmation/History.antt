-- ===== src/Confirmation/History.antt =====
-- A confirmation step keeps every payment's and every event's history.
use oscar_payment_gateway.Prelude.{
  if-elim, ◌⊎◌, ℕ, ◌≡◌, refl, inl, inr, ap, subst, Bool, true, false, not, ◌&&◌, ◌||◌, Option, none,
  some, Bool-cases, ltb, min, get_or, arith,
}
use mathlib.Core.Option.{some-injective}
use oscar_payment_gateway.Payments.{
  TransitionEvaluation-cases, matched, confirming, confirmed, failed, is, is_terminal,
  evaluate_payment_transition,
}
use oscar_payment_gateway.Payments.Table.{
  IsRow, matched_confirming, confirming_confirming, confirming_confirmed, evaluate_iff_Permits,
  Permits-IsRow,
}
use oscar_payment_gateway.Payments.Graph.{here, step}
use oscar_payment_gateway.Store.{Key, Db, Event, Payment, PaymentScreeningStatus, unchanged_since}
use oscar_payment_gateway.Screening.{screening_status_for_verdict, same_screening}
use oscar_payment_gateway.Lifecycle.{DbEvolves, DbEvolves-refl, DbEvolves-trans}
use oscar_payment_gateway.Lifecycle.Rules.{IsChange, annotate-DbEvolves}
use oscar_payment_gateway.Matching.Outcomes.{Config}
use oscar_payment_gateway.Matching.RouteHistory.{snapshot_status}
use oscar_payment_gateway.Confirmation.Transitions.{
  World, Observation, observed, unavailable, ReviewDecision, release, block,
}
use oscar_payment_gateway.Confirmation.{
  advance_found, note, set_failed, set_confirming, set_confirmed, set_screening, attempt,
  reorg_stage, start_stage, progress_stage, finish_stage, hold_stage, release_stage, screen_stage,
  not_clear_stage, decided_stage, gate_stage, depth_stage, observed_stage, observe_stage,
  event_stage, payment_stage, advance_payment, ConfirmationAdvance, matching_event, is_true,
}
use oscar_payment_gateway.Confirmation.Evolution.{
  apply_transition-DbEvolves, record_rejection-DbEvolves, if-DbEvolves,
}

module _ (cfg : Config) (w : World) (p : Payment) (event : Event) where
  failed-IsChange :
      IsRow p.status failed
      → (q : Payment) → unchanged_since p.status p.version q ≡ true
      → IsChange (set_failed cfg w p event) q
  unfolding set_failed
  failed-IsChange row q fits = record {
    same_terms = refl;
    along = rw (snapshot_status p.status p.version q fits) (step row here);
  }

  confirming-IsChange :
      (n : ℕ)
      → IsRow p.status confirming
      → (q : Payment) → unchanged_since p.status p.version q ≡ true
      → IsChange (set_confirming cfg w p event n) q
  unfolding set_confirming
  confirming-IsChange n row q fits = record {
    same_terms = refl;
    along = rw (snapshot_status p.status p.version q fits) (step row here);
  }

  confirmed-IsChange :
      IsRow p.status confirmed
      → (q : Payment) → unchanged_since p.status p.version q ≡ true
      → IsChange (set_confirmed cfg w p event) q
  unfolding set_confirmed
  confirmed-IsChange row q fits = record {
    same_terms = refl;
    along = rw (snapshot_status p.status p.version q fits) (step row here);
  }

  screening-IsChange :
      (s : PaymentScreeningStatus) (q : Payment)
      → unchanged_since p.status p.version q ≡ true
      → IsChange (set_screening cfg w p event s) q
  unfolding set_screening
  screening-IsChange s q fits = record {
    same_terms = refl;
    along = rw (snapshot_status p.status p.version q fits) here;
  }

  reorg_stage-DbEvolves : (n : ℕ) (db : Db) → DbEvolves db (reorg_stage cfg w p event n db).1
  unfolding reorg_stage note
  reorg_stage-DbEvolves n db =
      let i = attempt cfg w p event p.status failed w.now n false false in
      elim (TransitionEvaluation-cases (evaluate_payment_transition i)) [
        | inl yes' ↦
            rw (yes', reorg_stage)
              (DbEvolves-trans
                (apply_transition-DbEvolves cfg w p failed _ _ event
                  (failed-IsChange (Permits-IsRow ((evaluate_iff_Permits i).0 yes'))) db)
                (annotate-DbEvolves _ _))
        | inr (r, no') ↦ rw (no', reorg_stage) (DbEvolves-refl db)
      ]

  start_stage-DbEvolves :
      (n : ℕ) (db : Db) → p.status ≡ matched → DbEvolves db (start_stage cfg w p event n db).1
  unfolding start_stage
  start_stage-DbEvolves n db now_matched =
      let i = attempt cfg w p event matched confirming w.now n true true in
      elim (TransitionEvaluation-cases (evaluate_payment_transition i)) [
        | inl yes' ↦
            rw (yes', start_stage)
              (apply_transition-DbEvolves cfg w p confirming _ _ event
                (confirming-IsChange 0 (rw now_matched matched_confirming)) db)
        | inr (r, no') ↦ rw (no', start_stage) (record_rejection-DbEvolves p matched event db)
      ]

  progress_stage-DbEvolves :
      (n : ℕ) (db : Db) → p.status ≡ confirming → DbEvolves db (progress_stage cfg w p event n db).1
  unfolding progress_stage
  progress_stage-DbEvolves n db now_confirming =
      let i = attempt cfg w p event confirming confirming w.now n true true in
      elim (TransitionEvaluation-cases (evaluate_payment_transition i)) [
        | inl yes' ↦
            rw (yes', progress_stage)
              (apply_transition-DbEvolves cfg w p confirming _ _ event
                (confirming-IsChange n (rw now_confirming confirming_confirming)) db)
        | inr (r, no') ↦ rw (no', progress_stage) (record_rejection-DbEvolves p confirming event db)
      ]

  finish_stage-DbEvolves :
      (n : ℕ) (db : Db) → p.status ≡ confirming → DbEvolves db (finish_stage cfg w p event n db).1
  unfolding finish_stage
  finish_stage-DbEvolves n db now_confirming =
      let i = attempt cfg w p event confirming confirmed w.now2 n true true in
      elim (TransitionEvaluation-cases (evaluate_payment_transition i)) [
        | inl yes' ↦
            rw (yes', finish_stage)
              (apply_transition-DbEvolves cfg w p confirmed _ _ event
                (confirmed-IsChange (rw now_confirming confirming_confirmed)) db)
        | inr (r, no') ↦ rw (no', finish_stage) (record_rejection-DbEvolves p confirming event db)
      ]

  hold_stage-DbEvolves :
      (s : PaymentScreeningStatus) (db : Db) → DbEvolves db (hold_stage cfg w p event s db).1
  unfolding hold_stage note
  hold_stage-DbEvolves s db =
      DbEvolves-trans
        (if-DbEvolves (same_screening p.screening_status s) db db _ (DbEvolves-refl db)
          (apply_transition-DbEvolves cfg w p p.status _ _ event (screening-IsChange s) db))
        (annotate-DbEvolves _ _)

  release_stage-DbEvolves :
      (n : ℕ) (db : Db) → p.status ≡ confirming → DbEvolves db (release_stage cfg w p event n db).1
  unfolding release_stage
  release_stage-DbEvolves n db now_confirming =
      DbEvolves-trans
        (apply_transition-DbEvolves cfg w p p.status _ _ event
          (screening-IsChange PaymentScreeningStatus.clear) db)
        (finish_stage-DbEvolves n _ now_confirming)

  not_clear_stage-DbEvolves :
      (d : Option ReviewDecision) (s : PaymentScreeningStatus) (n : ℕ) (db : Db)
      → p.status ≡ confirming
      → DbEvolves db (not_clear_stage cfg w p event d s n db).1
  unfolding not_clear_stage
  not_clear_stage-DbEvolves none s n db c = hold_stage-DbEvolves s db
  not_clear_stage-DbEvolves (some block) s n db c = hold_stage-DbEvolves s db
  not_clear_stage-DbEvolves (some release) s n db c = release_stage-DbEvolves n db c

  screen_stage-DbEvolves :
      (d : Option ReviewDecision) (n : ℕ) (db : Db)
      → p.status ≡ confirming
      → DbEvolves db (screen_stage cfg w p event d n db).1
  unfolding screen_stage
  screen_stage-DbEvolves d n db c =
      let s = screening_status_for_verdict (w.screen event) in
      elim (Bool-cases (same_screening s PaymentScreeningStatus.clear)) [
        | inl ok' ↦ rw (ok', screen_stage) (finish_stage-DbEvolves n db c)
        | inr bad ↦ rw (bad, screen_stage) (not_clear_stage-DbEvolves d s n db c)
      ]

  decided_stage-DbEvolves :
      (d : Option ReviewDecision) (n : ℕ) (db : Db)
      → p.status ≡ confirming
      → DbEvolves db (decided_stage cfg w p event d n db).1
  unfolding decided_stage note
  decided_stage-DbEvolves none n db c = screen_stage-DbEvolves none n db c
  decided_stage-DbEvolves (some release) n db c = screen_stage-DbEvolves (some release) n db c
  decided_stage-DbEvolves (some block) n db c = annotate-DbEvolves _ db

  depth_stage-DbEvolves :
      (n : ℕ) (db : Db) → p.status ≡ confirming → DbEvolves db (depth_stage cfg w p event n db).1
  unfolding depth_stage gate_stage
  depth_stage-DbEvolves n db c =
      let capped = min n p.required_confirmations in
      elim (Bool-cases (ltb capped p.required_confirmations)) [
        | inl shallow ↦ elim (Bool-cases (ltb p.confirmations capped)) [
          | inl deeper ↦
              rw (shallow, depth_stage)
                (rw (deeper, depth_stage) (progress_stage-DbEvolves capped db c))
          | inr same ↦ rw (shallow, depth_stage) (rw (same, depth_stage) (DbEvolves-refl db))
        ]
        | inr deep ↦
            rw (deep, depth_stage)
              (decided_stage-DbEvolves (w.latest_review_decision p.payment_id) capped db c)
      ]

  observed_stage-DbEvolves :
      (canonical : Bool) (n : ℕ) (db : Db)
      → (p.status ≡ matched) ⊎ (p.status ≡ confirming)
      → DbEvolves db (observed_stage cfg w p event canonical n db).1
  unfolding observed_stage
  observed_stage-DbEvolves false n db s = reorg_stage-DbEvolves n db
  observed_stage-DbEvolves true n db (inl m) =
      let t : is p.status matched ≡ true = rw m in rw t (start_stage-DbEvolves n db m)
  observed_stage-DbEvolves true n db (inr c) =
      let t : is p.status matched ≡ false = rw c in rw t (depth_stage-DbEvolves n db c)

event_stage-DbEvolves :
    (cfg : Config) (w : World) (p : Payment) (found : Option Event) (db : Db)
    → (p.status ≡ matched) ⊎ (p.status ≡ confirming)
    → DbEvolves db (event_stage cfg w p found db).1
unfolding event_stage observe_stage
event_stage-DbEvolves cfg w p none db s = DbEvolves-refl db
event_stage-DbEvolves cfg w p (some event) db s = go (w.observe event)
  where
    go : (o : Observation) → DbEvolves db (observe_stage cfg w p event o db).1
    go unavailable = DbEvolves-refl db
    go (observed n canonical) =
        observed_stage-DbEvolves cfg w p event (is_true canonical && event.canonical) (get_or n 0)
          db s

active_status :
    (p : Payment)
    → (is p.status matched || is p.status confirming) ≡ true
    → (p.status ≡ matched) ⊎ (p.status ≡ confirming)
active_status p h = ground arith

payment_stage-DbEvolves :
    (cfg : Config) (w : World) (p : Payment) (seen db : Db)
    → DbEvolves db (payment_stage cfg w p seen db).1
unfolding payment_stage
payment_stage-DbEvolves cfg w p seen db =
    if-elim After p.automation_hold _ _ (λ _. DbEvolves-refl db)
      (λ _.
        if-elim After (is_terminal p.status) _ _ (λ _. DbEvolves-refl db)
          (λ _.
            if-elim After (not (is p.status matched || is p.status confirming)) _ _
              (λ _. DbEvolves-refl db)
              (λ active.
                event_stage-DbEvolves cfg w p (matching_event p seen) db
                  (active_status p (ground arith)))))
  where
    After : ConfirmationAdvance × Db → Type 0
    After r = DbEvolves db r.1

advance_found-DbEvolves :
    (cfg : Config) (w : World) (seen db : Db) (found : Option Payment) (a : ConfirmationAdvance)
    (after : Db)
    → advance_found cfg w seen db found ≡ some (a, after)
    → DbEvolves db after
unfolding advance_found
advance_found-DbEvolves cfg w seen db none a after e = cc
advance_found-DbEvolves cfg w seen db (some p) a after e =
    subst (DbEvolves db) (ap (λ (r : ConfirmationAdvance × Db). r.1) (some-injective _ _ e))
      (payment_stage-DbEvolves cfg w p seen db)

-- Whatever payment is advanced, and whatever was read before the writes: every payment keeps its
-- terms, moves only along the state diagram, and is changed only together with a higher version; no
-- payment or event is deleted; no event loses or changes its claim.
pub advance_payment-DbEvolves :
    (cfg : Config) (w : World) (id : Key) (seen db : Db) (a : ConfirmationAdvance) (after : Db)
    → advance_payment cfg w id seen db ≡ some (a, after)
    → DbEvolves db after
unfolding advance_payment
advance_payment-DbEvolves cfg w id seen db a after e =
    advance_found-DbEvolves cfg w seen db (seen.payments id) a after e
