-- ===== src/Delivery.antt =====
-- The delivery of a webhook (src/infrastructure/queue/webhook-delivery-queue.ts): the retry delay, one
-- attempt of the worker on an outbox row, and the attempts of one queue job.
pub mod Backoff
pub mod Attempts
use oscar_payment_gateway.Prelude.{
  ℕ, ◌+◌, ◌-◌, ◌*◌, ◌/◌, ◌^◌, Bool, true, false, not, ◌||◌, Option, none, some, List, [], ◌∷◌,
  if◌then◌else◌, leb, min, get_or,
}

abbrev pub webhook_backoff_base_ms : ℕ
webhook_backoff_base_ms = 2000

abbrev pub webhook_backoff_cap_ms : ℕ
webhook_backoff_cap_ms = 300000

abbrev pub webhook_jitter_cap_ms : ℕ
webhook_jitter_cap_ms = 1000

-- The delay before the jitter; `attempts_made - 1` stops at 0, as `Math.max(0, …)` does.
unfoldable pub capped_delay : ℕ → ℕ
capped_delay attempts_made =
    min (webhook_backoff_base_ms * 2 ^ (attempts_made - 1)) webhook_backoff_cap_ms

-- `Math.random()` is a multiple of 2 ^ -53 below 1: `random` stands for its numerator.
abbrev pub random_scale : ℕ
random_scale = 2 ^ 53

-- `Math.floor(Math.random() * limit)`, in exact arithmetic.
abbrev pub jitter_below : ℕ → ℕ → ℕ
jitter_below random limit = random * limit / random_scale

unfoldable pub webhook_backoff_delay_ms : ℕ → ℕ → ℕ
unfolding capped_delay
webhook_backoff_delay_ms random attempts_made =
    let capped = capped_delay attempts_made in
    capped + jitter_below random (min capped webhook_jitter_cap_ms)

pub data DeliveryStatus : Type 0 where
  pending delivering delivered dead_letter : DeliveryStatus

pub record DeliveryRow : Type 0 where
  pub status : DeliveryStatus
  pub attempts : ℕ
  pub next_attempt_at : Option ℕ
  pub delivered_at : Option ℕ
  pub last_response_code : Option ℕ
  pub expires_at : Option ℕ

abbrev pub is_closed : DeliveryStatus → Bool
is_closed delivered = true
is_closed dead_letter = true
is_closed _ = false

-- How an attempt ends: `validateWebhookUrl` throws an `Error` of its own; the client throws a
-- `WebhookDeliveryError`; the server answers, with success or not.
pub data Attempt : Type 0 where
  invalid_url : Attempt
  not_sent : Attempt
  answered : Bool → ℕ → Attempt

-- What the worker reads from outside: the clock, and the numerator of `Math.random()`.
pub record Tick : Type 0 where
  pub now : ℕ
  pub random : ℕ

pub record DeliveryConfig : Type 0 where
  pub max_attempts : ℕ
  pub retention_sec : ℕ

-- What the queue sees of a job's attempt: it returned, or it threw and is tried again.
pub data JobResult : Type 0 where
  completed failed : JobResult

unfoldable pub set_dead_letter : DeliveryRow → DeliveryRow
set_dead_letter row = record row { status = dead_letter; next_attempt_at = none }

unfoldable pub set_delivering : DeliveryRow → DeliveryRow
set_delivering row = record row { status = delivering }

unfoldable pub set_delivered : DeliveryConfig → Tick → ℕ → DeliveryRow → DeliveryRow
set_delivered cfg tick code row = record row {
  status = delivered;
  delivered_at = some tick.now;
  last_response_code = some code;
  next_attempt_at = none;
  expires_at = some (tick.now + cfg.retention_sec * 1000);
}

-- `responseCode === undefined ? {} : { lastResponseCode }`.
abbrev pub with_code : Option ℕ → Option ℕ → Option ℕ
with_code none old = old
with_code (some code) old = some code

-- `#recordFailure`.
unfoldable pub record_failure : DeliveryConfig → Tick → ℕ → Option ℕ → DeliveryRow → DeliveryRow
unfolding webhook_backoff_delay_ms
record_failure cfg tick attempts_made code row =
    let attempts = attempts_made + 1 in
    let exhausted = leb cfg.max_attempts attempts in
    record row {
      status = if exhausted then dead_letter else pending;
      last_response_code = with_code code row.last_response_code;
      next_attempt_at =
          if exhausted
          then none
          else some (tick.now + webhook_backoff_delay_ms tick.random attempts);
      attempts = row.attempts + 1;
    }

-- The writes after a claim, by how the attempt ended.
unfoldable pub conclude :
    DeliveryConfig → Tick → ℕ → Attempt → DeliveryRow → JobResult × DeliveryRow
unfolding set_delivered record_failure
conclude cfg tick attempts_made invalid_url row = (failed, row)
conclude cfg tick attempts_made not_sent row =
    (failed, record_failure cfg tick attempts_made none row)
conclude cfg tick attempts_made (answered true code) row =
    (completed, set_delivered cfg tick code row)
conclude cfg tick attempts_made (answered false code) row =
    (failed, record_failure cfg tick attempts_made (some code) row)

-- One run of the processor on an existing row. `sent` is the attempt, if the merchant has a URL.
unfoldable pub process :
    DeliveryConfig → Tick → ℕ → Option Attempt → DeliveryRow → JobResult × DeliveryRow
unfolding set_dead_letter set_delivering conclude
process cfg tick attempts_made none row =
    if is_closed row.status then (completed, row) else (completed, set_dead_letter row)
process cfg tick attempts_made (some attempt) row =
    if is_closed row.status
    then (completed, row)
    else conclude cfg tick attempts_made attempt (set_delivering row)

-- The attempts of one job that started with `attempts_made` earlier ones: the queue runs a failed job
-- again, up to `max_attempts` runs in all. The list holds what each further run meets.
unfoldable pub run_job :
    DeliveryConfig → ℕ → List (Tick × Option Attempt) → DeliveryRow → DeliveryRow
run_job cfg attempts_made [] row = row
run_job cfg attempts_made (run ∷ runs) row =
    let (result, after) = process cfg run.0 attempts_made run.1 row in
    let retried = run_job cfg (attempts_made + 1) runs after in
    elim result [
      | completed ↦ after
      | failed ↦ if leb cfg.max_attempts (attempts_made + 1) then after else retried
    ]
