-- ===== src/Payments.antt =====
-- The guarded payment state machine (src/domain/payments/payment-state-machine.ts).
-- A `Date` is the number of milliseconds that `getTime` returns.
pub mod Table
pub mod Graph
use oscar_payment_gateway.Prelude.{
  ℕ, ◌+◌, Bool, true, false, not, ◌&&◌, ◌||◌, Option, none, some, if◌then◌else◌, ltb, leb, ◌≡◌,
  arith, refl, ◌⊎◌, inl, inr,
}

pub data PaymentStatus : Type 0 where
  pending matched confirming confirmed expired failed : PaymentStatus

-- `===` on two statuses.
abbrev pub is : PaymentStatus → PaymentStatus → Bool
is pending pending = true
is matched matched = true
is confirming confirming = true
is confirmed confirmed = true
is expired expired = true
is failed failed = true
is _ _ = false

pub is→eq : (s t : PaymentStatus) → is s t ≡ true → s ≡ t
is→eq s t h = ground arith

abbrev pub is_terminal : PaymentStatus → Bool
is_terminal confirmed = true
is_terminal expired = true
is_terminal failed = true
is_terminal _ = false

pub data TransitionRejectionReason : Type 0 where
  illegal_transition : TransitionRejectionReason
  payment_expired : TransitionRejectionReason
  qualifying_event_missing : TransitionRejectionReason
  qualifying_event_already_claimed : TransitionRejectionReason
  event_not_canonical : TransitionRejectionReason
  confirmations_below_snapshot : TransitionRejectionReason
  compliance_hold : TransitionRejectionReason
  reorg_grace_not_elapsed : TransitionRejectionReason
  expiry_not_reached : TransitionRejectionReason
  matching_event_present : TransitionRejectionReason

-- `{ legal: true }`, or `{ legal: false, reason }`.
pub data TransitionEvaluation : Type 0 where
  legal : TransitionEvaluation
  rejected : TransitionRejectionReason → TransitionEvaluation

pub TransitionEvaluation-cases :
    (e : TransitionEvaluation) → (e ≡ legal) ⊎ ((r : TransitionRejectionReason) × (e ≡ rejected r))
TransitionEvaluation-cases legal = inl refl
TransitionEvaluation-cases (rejected r) = inr (r, refl)

pub record TransitionGuardInput : Type 0 where
  pub from : PaymentStatus
  pub to : PaymentStatus
  pub now : ℕ
  pub expires_at : ℕ
  pub reorg_grace_ms : ℕ
  pub confirmations : ℕ
  pub required_confirmations : ℕ
  pub canonical : Bool
  pub compliance_clear : Bool
  pub qualifying_event_claimed : Bool

-- The rejections for table edges whose guards failed, in table order.
rejection : TransitionGuardInput → TransitionEvaluation
rejection i =
    let expired' = ltb i.expires_at i.now in
    if is i.from pending && is i.to matched
    then if expired' then rejected payment_expired else rejected qualifying_event_missing
    else if is i.from matched && is i.to confirming
    then rejected event_not_canonical
    else if is i.from confirming && is i.to confirming
    then rejected confirmations_below_snapshot
    else if is i.from confirming && is i.to confirmed
    then if ltb i.confirmations i.required_confirmations
      then rejected confirmations_below_snapshot
      else if not i.canonical
      then rejected event_not_canonical
      else rejected compliance_hold
    else if (is i.from matched || is i.from confirming) && is i.to failed
    then if i.canonical then rejected event_not_canonical else rejected reorg_grace_not_elapsed
    else if is i.from pending && is i.to expired
    then if expired' then rejected matching_event_present else rejected expiry_not_reached
    else rejected illegal_transition

unfoldable pub evaluate_payment_transition : TransitionGuardInput → TransitionEvaluation
unfolding rejection
evaluate_payment_transition i =
    let expired' = ltb i.expires_at i.now in
    let reorg_deadline = i.expires_at + i.reorg_grace_ms in
    if is i.from pending && is i.to matched && not expired' && i.qualifying_event_claimed
    then legal
    else if is i.from matched && is i.to confirming && i.canonical
    then legal
    else if is i.from confirming
        && is i.to confirming
        && ltb i.confirmations i.required_confirmations
    then legal
    else if is i.from confirming
        && is i.to confirmed
        && leb i.required_confirmations i.confirmations
        && i.canonical
        && i.compliance_clear
    then legal
    else if (is i.from matched || is i.from confirming)
        && is i.to failed
        && not i.canonical
        && ltb reorg_deadline i.now
    then legal
    else if is i.from pending && is i.to expired && expired' && not i.qualifying_event_claimed
    then legal
    else rejection i
