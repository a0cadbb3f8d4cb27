-- ===== src/Confirmation.antt =====
-- `advancePayment` (src/application/processing/payment-confirmation-service.ts): one step of
-- `matched → confirming → confirmed`. The reads see the database `seen`; the writes run later, on
-- `db`, so that other workers may have written in between.
pub mod Transitions
pub mod Evolution
pub mod History
pub mod Effects
pub mod Safety
pub mod Guard
pub mod Progress
pub mod Reorg
use oscar_payment_gateway.Prelude.{
  ℕ, ◌*◌, Bool, true, false, not, ◌&&◌, ◌||◌, Option, none, some, if◌then◌else◌, ltb, min, find,
  get_or,
}
use oscar_payment_gateway.Payments.{
  PaymentStatus, matched, confirming, confirmed, failed, is, is_terminal, TransitionGuardInput,
  evaluate_payment_transition, legal, rejected, TransitionEvaluation,
}
use oscar_payment_gateway.Store.{
  Key, Db, Event, Payment, PaymentScreeningStatus, payment, Category, reorg, compliance,
  AuditAction, payment_to, payment_compliance_hold, payment_compliance_override_released, annotate,
  Annotation,
}
use oscar_payment_gateway.Screening.{ScreeningVerdict, screening_status_for_verdict, same_screening}
use oscar_payment_gateway.Matching.Claims.{has_event_id}
use oscar_payment_gateway.Matching.Outcomes.{Config}
use Transitions.{
  World, Observation, observed, unavailable, ReviewDecision, release, block, apply_transition,
  record_rejection,
}

pub data ConfirmationAdvance : Type 0 where
  terminal : PaymentStatus → ConfirmationAdvance
  progressed : PaymentStatus → ConfirmationAdvance
  waiting : ConfirmationAdvance
  held : ConfirmationAdvance
  automation_hold : ConfirmationAdvance

abbrev pub is_true : Option Bool → Bool
is_true (some true) = true
is_true _ = false

unfoldable pub note : Payment → Category → Db → Db
note p c = annotate (record { entity_type = payment; entity_id = p.payment_id; category = c })

module _ (cfg : Config) (w : World) (p : Payment) (event : Event) where
  -- The guard input of an attempt; the grace and the snapshot come from the payment.
  abbrev pub attempt : PaymentStatus → PaymentStatus → ℕ → ℕ → Bool → Bool → TransitionGuardInput
  attempt from to now confirmations canonical compliance_clear = record {
    from = from;
    to = to;
    now = now;
    expires_at = p.expires_at;
    reorg_grace_ms = cfg.late_payment_grace_sec * 1000;
    confirmations = confirmations;
    required_confirmations = p.required_confirmations;
    canonical = canonical;
    compliance_clear = compliance_clear;
    qualifying_event_claimed = true;
  }

  unfoldable pub set_failed : Payment → Payment
  set_failed q = record q { status = failed; terminal_at = some w.now }

  -- The matching transaction is gone: fail the payment once the grace has elapsed.
  unfoldable pub reorg_stage : ℕ → Db → ConfirmationAdvance × Db
  unfolding note set_failed
  reorg_stage confirmations db =
      elim (evaluate_payment_transition (attempt p.status failed w.now confirmations false false)) [
        | legal ↦ (
          terminal failed,
          note p reorg (apply_transition cfg w p failed (payment_to failed) set_failed event db),
        )
        | rejected _ ↦ (waiting, db)
      ]

  unfoldable pub set_confirming : ℕ → Payment → Payment
  set_confirming n q = record q { status = confirming; confirmations = n }

  unfoldable pub start_stage : ℕ → Db → ConfirmationAdvance × Db
  unfolding set_confirming
  start_stage confirmations db =
      elim (evaluate_payment_transition
        (attempt matched confirming w.now confirmations true true)) [
          | legal ↦ (
            progressed confirming,
            apply_transition cfg w p confirming (payment_to confirming) (set_confirming 0) event db,
          )
          | rejected _ ↦ (waiting, record_rejection p matched event db)
        ]

  unfoldable pub progress_stage : ℕ → Db → ConfirmationAdvance × Db
  unfolding set_confirming
  progress_stage capped db =
      elim (evaluate_payment_transition (attempt confirming confirming w.now capped true true)) [
        | legal ↦ (
          progressed confirming,
          apply_transition cfg w p confirming (payment_to confirming) (set_confirming capped) event
              db,
        )
        | rejected _ ↦ (waiting, record_rejection p confirming event db)
      ]

  unfoldable pub set_confirmed : Payment → Payment
  set_confirmed q = record q {
    status = confirmed;
    confirmations = p.required_confirmations;
    screening_status = PaymentScreeningStatus.clear;
    confirmed_at = some w.now2;
    terminal_at = some w.now2;
  }

  unfoldable pub finish_stage : ℕ → Db → ConfirmationAdvance × Db
  unfolding set_confirmed
  finish_stage capped db =
      elim (evaluate_payment_transition (attempt confirming confirmed w.now2 capped true true)) [
        | legal ↦ (
          terminal confirmed,
          apply_transition cfg w p confirmed (payment_to confirmed) set_confirmed event db,
        )
        | rejected _ ↦ (waiting, record_rejection p confirming event db)
      ]

  -- A write that keeps the payment's status and sets its screening status.
  unfoldable pub set_screening : PaymentScreeningStatus → Payment → Payment
  set_screening s q = record q { status = p.status; screening_status = s }

  unfoldable pub hold_stage : PaymentScreeningStatus → Db → ConfirmationAdvance × Db
  unfolding note set_screening
  hold_stage s db = (
    held,
    note p compliance (
        if same_screening p.screening_status s
        then db
        else apply_transition cfg w p p.status payment_compliance_hold (set_screening s) event db),
  )

  unfoldable pub release_stage : ℕ → Db → ConfirmationAdvance × Db
  unfolding set_screening finish_stage
  release_stage capped db = finish_stage capped (
      apply_transition cfg w p p.status payment_compliance_override_released
        (set_screening PaymentScreeningStatus.clear) event db)

  -- The sender's verdict is not clear: only a release overrides the hold.
  unfoldable pub not_clear_stage :
      Option ReviewDecision → PaymentScreeningStatus → ℕ → Db → ConfirmationAdvance × Db
  unfolding hold_stage release_stage
  not_clear_stage none s capped db = hold_stage s db
  not_clear_stage (some block) s capped db = hold_stage s db
  not_clear_stage (some release) s capped db = release_stage capped db

  -- The fresh screening of the sender, after a review decision that is not a block.
  unfoldable pub screen_stage : Option ReviewDecision → ℕ → Db → ConfirmationAdvance × Db
  unfolding not_clear_stage finish_stage
  screen_stage decision capped db =
      let s = screening_status_for_verdict (w.screen event) in
      if same_screening s PaymentScreeningStatus.clear
      then finish_stage capped db
      else not_clear_stage decision s capped db

  -- A block pins the hold, whatever a later screening says.
  unfoldable pub decided_stage : Option ReviewDecision → ℕ → Db → ConfirmationAdvance × Db
  unfolding note screen_stage
  decided_stage none capped db = screen_stage none capped db
  decided_stage (some release) capped db = screen_stage (some release) capped db
  decided_stage (some block) capped db = (held, note p compliance db)

  unfoldable pub gate_stage : ℕ → Db → ConfirmationAdvance × Db
  unfolding decided_stage
  gate_stage capped db = decided_stage (w.latest_review_decision p.payment_id) capped db

  unfoldable pub depth_stage : ℕ → Db → ConfirmationAdvance × Db
  unfolding progress_stage gate_stage
  depth_stage confirmations db =
      let capped = min confirmations p.required_confirmations in
      if ltb capped p.required_confirmations
      then if ltb p.confirmations capped then progress_stage capped db else (waiting, db)
      else gate_stage capped db

  unfoldable pub observed_stage : Bool → ℕ → Db → ConfirmationAdvance × Db
  unfolding reorg_stage start_stage depth_stage
  observed_stage canonical confirmations db =
      if not canonical
      then reorg_stage confirmations db
      else if is p.status matched
      then start_stage confirmations db
      else depth_stage confirmations db

  -- The corroborated observation; without one nothing changes.
  unfoldable pub observe_stage : Observation → Db → ConfirmationAdvance × Db
  unfolding observed_stage
  observe_stage unavailable db = (waiting, db)
  observe_stage (observed confirmations canonical) db =
      observed_stage (is_true canonical && event.canonical) (get_or confirmations 0) db

-- The matching event, if the payment names one that exists.
abbrev pub matching_event : Payment → Db → Option Event
matching_event p seen = elim p.matched_event_id [
  | none ↦ none
  | some id ↦ find (has_event_id id) seen.events
]

unfoldable pub event_stage : Config → World → Payment → Option Event → Db → ConfirmationAdvance × Db
unfolding observe_stage
event_stage cfg w p none db = (waiting, db)
event_stage cfg w p (some event) db = observe_stage cfg w p event (w.observe event) db

unfoldable pub payment_stage : Config → World → Payment → Db → Db → ConfirmationAdvance × Db
unfolding event_stage
payment_stage cfg w p seen db =
    if p.automation_hold
    then (automation_hold, db)
    else if is_terminal p.status
    then (terminal p.status, db)
    else if not (is p.status matched || is p.status confirming)
    then (waiting, db)
    else event_stage cfg w p (matching_event p seen) db

unfoldable pub advance_found :
    Config → World → Db → Db → Option Payment → Option (ConfirmationAdvance × Db)
unfolding payment_stage
advance_found cfg w seen db none = none
advance_found cfg w seen db (some p) = some (payment_stage cfg w p seen db)

-- `none`: the payment was not found, and the call throws.
unfoldable pub advance_payment : Config → World → Key → Db → Db → Option (ConfirmationAdvance × Db)
unfolding advance_found
advance_payment cfg w id seen db = advance_found cfg w seen db (seen.payments id)
