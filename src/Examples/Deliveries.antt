-- ===== src/Examples/Deliveries.antt =====
-- Webhook deliveries at concrete rows, with three attempts allowed.
use oscar_payment_gateway.Prelude.{
  ℕ, ◌≡◌, ◌≤◌, ◌<◌, refl, true, false, none, some, [], ◌∷◌, ◌++◌, ◌^◌, arith,
}
use oscar_payment_gateway.Delivery.{
  DeliveryConfig, DeliveryRow, DeliveryStatus, pending, delivering, delivered, dead_letter,
  invalid_url, not_sent, answered, Tick, run_job, capped_delay, webhook_backoff_delay_ms,
}
use oscar_payment_gateway.Delivery.Backoff.{backoff_bounds}
use oscar_payment_gateway.Delivery.Attempts.{
  failures_dead_letter, success_delivers, invalid_url_unrecorded, Runs,
}

abbrev three_attempts : DeliveryConfig
three_attempts = record { max_attempts = 3; retention_sec = 60 }

abbrev row_in : DeliveryStatus → DeliveryRow
row_in status = record {
  status = status;
  attempts = 0;
  next_attempt_at = none;
  delivered_at = none;
  last_response_code = none;
  expires_at = none;
}

abbrev at : ℕ → Tick
at now = record { now = now; random = 2 ^ 50 }

abbrev two_failures : Runs
two_failures = (at 10, some not_sent) ∷ (at 20, some (answered false 500)) ∷ []

-- `Math.random` gives one half, after the fourth attempt.
backoff_bounds_example :
    (2000 ≤ webhook_backoff_delay_ms (2 ^ 52) 4)
    × (webhook_backoff_delay_ms (2 ^ 52) 4 < 301000)
    × (16000 ≤ webhook_backoff_delay_ms (2 ^ 52) 4)
    × (webhook_backoff_delay_ms (2 ^ 52) 4 < 32000)
unfolding capped_delay
backoff_bounds_example = backoff_bounds (2 ^ 52) 4 (omega arith)

failures_dead_letter_example :
    ((run_job three_attempts 1 two_failures (row_in pending)).status ≡ dead_letter)
    × ((run_job three_attempts 1 two_failures (row_in pending)).attempts ≡ 2)
failures_dead_letter_example =
    failures_dead_letter three_attempts 1 two_failures (row_in pending) refl (tt, (tt, tt))
      (omega arith) refl

abbrev third_time : DeliveryRow
third_time =
    run_job three_attempts 0 (two_failures ++ (at 30, some (answered true 204)) ∷ [])
      (row_in pending)

success_delivers_example :
    (third_time.status ≡ delivered)
    × (third_time.delivered_at ≡ some 30)
    × (third_time.last_response_code ≡ some 204)
    × (third_time.attempts ≡ 2)
success_delivers_example =
    success_delivers three_attempts 0 two_failures (at 30) 204 (row_in pending) refl (tt, (tt, tt))
      (omega arith)

invalid_url_unrecorded_example :
    run_job three_attempts 0
      ((at 10, some invalid_url) ∷ (at 20, some invalid_url) ∷ (at 30, some invalid_url) ∷ [])
      (row_in pending)
    ≡ row_in delivering
invalid_url_unrecorded_example =
    invalid_url_unrecorded three_attempts 0 (at 10, some invalid_url)
      ((at 20, some invalid_url) ∷ (at 30, some invalid_url) ∷ []) (row_in pending) refl
      (tt, (tt, (tt, tt)))
