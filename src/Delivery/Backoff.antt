-- ===== src/Delivery/Backoff.antt =====
-- The retry delay of `webhookBackoffDelayMs` (src/infrastructure/queue/webhook-delivery-queue.ts).
use native.Mathlib.Nat.{mul_comm, mul-le-mul_left}
use oscar_payment_gateway.Prelude.{ℕ, zero, suc, ◌+◌, ◌-◌, ◌*◌, ◌^◌, ◌≤◌, ◌<◌, ◌≡◌, min, arith}
use oscar_payment_gateway.Delivery.{
  webhook_backoff_base_ms, webhook_backoff_cap_ms, webhook_jitter_cap_ms, capped_delay,
  webhook_backoff_delay_ms, random_scale, jitter_below,
}

pow_pos : (n : ℕ) → 1 ≤ 2 ^ n
pow_pos zero = omega arith
pow_pos (suc n) = let ih = pow_pos n in omega arith

jitter_below-lt :
    (random limit : ℕ) → random < random_scale → 1 ≤ limit → jitter_below random limit < limit
jitter_below-lt random limit small pos =
    let most : limit * random ≤ limit * 9007199254740991 =
      mul-le-mul_left limit (omega (arith, small)) in
    omega (arith, most, mul_comm random limit, pos)

-- Whatever number below 1 `Math.random` gives, the delay is at least two seconds, and below the cap and the
-- jitter's cap together; of the delay before the jitter it is at least the whole and less than the double.
pub backoff_bounds :
    (random attempts_made : ℕ)
    → random < random_scale
    → (webhook_backoff_base_ms ≤ webhook_backoff_delay_ms random attempts_made)
      × (webhook_backoff_delay_ms random attempts_made
          < webhook_backoff_cap_ms + webhook_jitter_cap_ms)
      × (capped_delay attempts_made ≤ webhook_backoff_delay_ms random attempts_made)
      × (webhook_backoff_delay_ms random attempts_made < 2 * capped_delay attempts_made)
unfolding capped_delay webhook_backoff_delay_ms
backoff_bounds random attempts_made small =
    let limit = min (capped_delay attempts_made) webhook_jitter_cap_ms in
    let pos = pow_pos (attempts_made - 1) in
    let some_jitter : 1 ≤ limit = omega arith in
    let less = jitter_below-lt random limit small some_jitter in
    (omega arith, omega arith, omega arith, omega arith)

-- After the first attempt, each further one doubles the delay before the jitter, up to the cap.
pub backoff_doubles :
    (attempts_made : ℕ)
    → 1 ≤ attempts_made
    → capped_delay (attempts_made + 1) ≡ min (2 * capped_delay attempts_made) webhook_backoff_cap_ms
unfolding capped_delay
backoff_doubles zero pos = absurd (omega arith)
backoff_doubles (suc n) pos =
    let above : suc n + 1 - 1 ≡ suc n = omega arith in
    let below : suc n - 1 ≡ n = omega arith in rw (above, below) (omega arith)
