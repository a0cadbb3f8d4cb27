-- ===== src/Delivery/Attempts.antt =====
-- What the attempts of a job do to a row (src/infrastructure/queue/webhook-delivery-queue.ts).
use oscar_payment_gateway.Prelude.{
  ℕ, ◌+◌, ◌<◌, ◌≡◌, refl, ap, ◌∙◌, true, false, Option, none, some, List, [], ◌∷◌, ◌++◌, All,
  length, if◌then◌else◌, Bool-cases, inl, inr, leb, arith,
}
use oscar_payment_gateway.Delivery.{
  DeliveryConfig, DeliveryRow, pending, delivering, delivered, dead_letter, is_closed, Attempt,
  invalid_url, not_sent, answered, Tick, JobResult, completed, failed, set_delivering,
  set_delivered, record_failure, conclude, process, run_job,
}

-- An attempt whose failure is recorded: the client's error, or an answer that is no success.
abbrev pub IsFailure : Option Attempt → Type 0
IsFailure none = ⊥
IsFailure (some invalid_url) = ⊥
IsFailure (some not_sent) = Unit
IsFailure (some (answered true code)) = ⊥
IsFailure (some (answered false code)) = Unit

abbrev pub IsInvalidUrl : Option Attempt → Type 0
IsInvalidUrl none = ⊥
IsInvalidUrl (some invalid_url) = Unit
IsInvalidUrl (some not_sent) = ⊥
IsInvalidUrl (some (answered b code)) = ⊥

abbrev pub Runs : Type 0
Runs = List (Tick × Option Attempt)

module _ (cfg : DeliveryConfig) where
  run_completed :
      (k : ℕ) (run : Tick × Option Attempt) (runs : Runs) (row after : DeliveryRow)
      → process cfg run.0 k run.1 row ≡ (completed, after)
      → run_job cfg k (run ∷ runs) row ≡ after
  unfolding run_job
  run_completed k run runs row after ran =
      let state : (process cfg run.0 k run.1 row).0 ≡ completed =
        ap (λ (r : JobResult × DeliveryRow). r.0) ran in
      let left : (process cfg run.0 k run.1 row).1 ≡ after =
        ap (λ (r : JobResult × DeliveryRow). r.1) ran in
      rw (state, run_job) left

  run_failed_last :
      (k : ℕ) (run : Tick × Option Attempt) (runs : Runs) (row after : DeliveryRow)
      → process cfg run.0 k run.1 row ≡ (failed, after)
      → leb cfg.max_attempts (k + 1) ≡ true
      → run_job cfg k (run ∷ runs) row ≡ after
  unfolding run_job
  run_failed_last k run runs row after ran last =
      let state : (process cfg run.0 k run.1 row).0 ≡ failed =
        ap (λ (r : JobResult × DeliveryRow). r.0) ran in
      let left : (process cfg run.0 k run.1 row).1 ≡ after =
        ap (λ (r : JobResult × DeliveryRow). r.1) ran in
      rw (state, run_job) (rw last left)

  run_failed_again :
      (k : ℕ) (run : Tick × Option Attempt) (runs : Runs) (row after : DeliveryRow)
      → process cfg run.0 k run.1 row ≡ (failed, after)
      → leb cfg.max_attempts (k + 1) ≡ false
      → run_job cfg k (run ∷ runs) row ≡ run_job cfg (k + 1) runs after
  unfolding run_job
  run_failed_again k run runs row after ran again =
      let state : (process cfg run.0 k run.1 row).0 ≡ failed =
        ap (λ (r : JobResult × DeliveryRow). r.0) ran in
      let left : (process cfg run.0 k run.1 row).1 ≡ after =
        ap (λ (r : JobResult × DeliveryRow). r.1) ran in
      rw (state, run_job) (rw again (ap (run_job cfg (k + 1) runs) left))

  process_closed :
      (tick : Tick) (k : ℕ) (a : Option Attempt) (row : DeliveryRow)
      → is_closed row.status ≡ true
      → process cfg tick k a row ≡ (completed, row)
  unfolding process
  process_closed tick k none row closed = rw closed
  process_closed tick k (some a) row closed = rw closed

  -- A row that is delivered or dead-lettered is changed by no run of its job.
  pub closed_row_kept :
      (k : ℕ) (runs : Runs) (row : DeliveryRow)
      → is_closed row.status ≡ true
      → run_job cfg k runs row ≡ row
  unfolding run_job
  closed_row_kept k [] row closed = refl
  closed_row_kept k ((tick, a) ∷ runs) row closed =
      run_completed k (tick, a) runs row row (process_closed tick k a row closed)

  -- What a recorded failure leaves: one attempt more, and the status by the attempts that are left.
  process_failure :
      (tick : Tick) (k : ℕ) (a : Option Attempt) (row : DeliveryRow)
      → is_closed row.status ≡ false
      → IsFailure a
      → (after : DeliveryRow) × (process cfg tick k a row ≡ (failed, after))
        × (after.attempts ≡ row.attempts + 1)
        × (after.status ≡ (if leb cfg.max_attempts (k + 1) then dead_letter else pending))
  unfolding process conclude record_failure set_delivering
  process_failure tick k none row live f = absurd f
  process_failure tick k (some invalid_url) row live f = absurd f
  process_failure tick k (some not_sent) row live f =
      (record_failure cfg tick k none (set_delivering row), rw live, refl, refl)
  process_failure tick k (some (answered true code)) row live f = absurd f
  process_failure tick k (some (answered false code)) row live f =
      (record_failure cfg tick k (some code) (set_delivering row), rw live, refl, refl)

  -- A job whose runs all fail, and are as many as are left, dead-letters the row, with one attempt
  -- recorded for each run.
  pub failures_dead_letter :
      (k : ℕ) (runs : Runs) (row : DeliveryRow)
      → is_closed row.status ≡ false
      → All (λ (r : Tick × Option Attempt). IsFailure r.1) runs
      → k < cfg.max_attempts
      → k + length runs ≡ cfg.max_attempts
      → ((run_job cfg k runs row).status ≡ dead_letter)
        × ((run_job cfg k runs row).attempts ≡ row.attempts + length runs)
  unfolding run_job
  failures_dead_letter k [] row live fs more count = absurd (omega arith)
  failures_dead_letter k ((tick, a) ∷ runs) row live (f, fs) more count =
      let (after, ran, counted, status) = process_failure tick k a row live f in
      elim (Bool-cases (leb cfg.max_attempts (k + 1))) [
        | inl last ↦
            let none_left : length runs ≡ 0 = ground arith in
            rw (run_failed_last k (tick, a) runs row after ran last)
              (status ∙ rw last, rw none_left counted)
        | inr again ↦
            let at_pending : after.status ≡ pending = status ∙ rw again in
            let still : is_closed after.status ≡ false = rw at_pending in
            let (closed, sum) =
              failures_dead_letter (k + 1) runs after still fs (ground arith) (omega arith) in
            rw (run_failed_again k (tick, a) runs row after ran again)
              (closed, sum ∙ rw counted (omega arith))
      ]

  -- A job whose runs fail until one is answered with success, while runs are left, delivers the row:
  -- the time and the code of the answer are recorded, and one attempt for each failure.
  pub success_delivers :
      (k : ℕ) (failures : Runs) (tick : Tick) (code : ℕ) (row : DeliveryRow)
      → is_closed row.status ≡ false
      → All (λ (r : Tick × Option Attempt). IsFailure r.1) failures
      → k + length failures < cfg.max_attempts
      → let after = run_job cfg k (failures ++ (tick, some (answered true code)) ∷ []) row in
        (after.status ≡ delivered)
        × (after.delivered_at ≡ some tick.now)
        × (after.last_response_code ≡ some code)
        × (after.attempts ≡ row.attempts + length failures)
  unfolding run_job process conclude set_delivered set_delivering
  success_delivers k [] tick code row live fs room =
      rw
        (run_completed k (tick, some (answered true code)) [] row
          (set_delivered cfg tick code (set_delivering row)) (rw live))
        (refl, refl, refl, omega arith)
  success_delivers k ((t, a) ∷ rest) tick code row live (f, fs) room =
      let (after, ran, counted, status) = process_failure t k a row live f in
      let again : leb cfg.max_attempts (k + 1) ≡ false = ground arith in
      let at_pending : after.status ≡ pending = status ∙ rw again in
      let still : is_closed after.status ≡ false = rw at_pending in
      let (closed, at, coded, sum) =
        success_delivers (k + 1) rest tick code after still fs (omega arith) in
      rw
        (run_failed_again k (t, a) (rest ++ (tick, some (answered true code)) ∷ []) row after ran
          again)
        (closed, at, coded, sum ∙ rw counted (omega arith))

  -- A job whose runs all meet a URL that `validateWebhookUrl` rejects leaves the row as delivering,
  -- with no attempt recorded and no dead letter, however many runs there are.
  pub invalid_url_unrecorded :
      (k : ℕ) (run : Tick × Option Attempt) (runs : Runs) (row : DeliveryRow)
      → is_closed row.status ≡ false
      → All (λ (r : Tick × Option Attempt). IsInvalidUrl r.1) (run ∷ runs)
      → run_job cfg k (run ∷ runs) row ≡ record row { status = delivering }
  unfolding run_job process conclude set_delivering
  invalid_url_unrecorded k (tick, some invalid_url) [] row live (f, fs) =
      let ran : process cfg tick k (some invalid_url) row ≡ (failed, set_delivering row) =
        rw live in
      elim (Bool-cases (leb cfg.max_attempts (k + 1))) [
        | inl last ↦ run_failed_last k (tick, some invalid_url) [] row _ ran last
        | inr again ↦ run_failed_again k (tick, some invalid_url) [] row _ ran again
      ]
  invalid_url_unrecorded k (tick, some invalid_url) (next ∷ runs) row live (f, fs) =
      let ran : process cfg tick k (some invalid_url) row ≡ (failed, set_delivering row) =
        rw live in
      elim (Bool-cases (leb cfg.max_attempts (k + 1))) [
        | inl last ↦ run_failed_last k (tick, some invalid_url) (next ∷ runs) row _ ran last
        | inr again ↦
            run_failed_again k (tick, some invalid_url) (next ∷ runs) row _ ran again
            ∙ invalid_url_unrecorded (k + 1) next runs (record row { status = delivering }) refl fs
      ]
  invalid_url_unrecorded k (tick, none) runs row live (f, fs) = absurd f
  invalid_url_unrecorded k (tick, some not_sent) runs row live (f, fs) = absurd f
  invalid_url_unrecorded k (tick, some (answered b c)) runs row live (f, fs) = absurd f
