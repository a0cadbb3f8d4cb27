-- ===== src/Scheduler.antt =====
-- The expiry sweep and the confirmation recheck (src/application/scheduler/scheduler-service.ts). The
-- reads of a sweep see the database `seen`; its writes run later, on `db`. The documents that a `find`
-- returns, up to its limit, are an argument.
pub mod Sweeps
pub mod Expiry
use oscar_payment_gateway.Prelude.{
  ℕ, ◌*◌, Bool, true, false, ◌&&◌, Option, none, some, List, [], ◌∷◌, if◌then◌else◌, ltb, leb, suc,
}
use oscar_payment_gateway.Payments.{
  PaymentStatus, pending, expired, is, TransitionGuardInput, evaluate_payment_transition, legal,
  rejected,
}
use oscar_payment_gateway.Store.{
  Key, Db, Env, Payment, payment_to, payment_expired, partial, AuditEntry, Tx, ◌>>=◌, ◌>>◌, pure,
  write, write_get, Result, ok, err, with_required_transaction, update_payment, unchanged_since,
  append_audit, annotate, payload_for, claimed_total, enqueue, confirm_payment,
}
use oscar_payment_gateway.Matching.{dispatch}
use oscar_payment_gateway.Matching.Outcomes.{Config, notify, about_payment}
use oscar_payment_gateway.Confirmation.Transitions.{try_update}

module _ (cfg : Config) (env : Env) where
  -- The guard input of a swept payment, for the claims' total that was read.
  abbrev pub sweep_attempt : Payment → ℕ → TransitionGuardInput
  sweep_attempt p total = record {
    from = pending;
    to = expired;
    now = env.now;
    expires_at = p.expires_at;
    reorg_grace_ms = cfg.late_payment_grace_sec * 1000;
    confirmations = 0;
    required_confirmations = p.required_confirmations;
    canonical = true;
    compliance_clear = true;
    qualifying_event_claimed = leb p.amount total;
  }

  unfoldable pub set_swept : ℕ → Payment → Payment
  set_swept total p = record p {
    status = expired;
    terminal_at = some env.now;
    partial_amount_received = some total;
    underpayment_flag = ltb 0 total && ltb total p.amount;
  }

  abbrev pub sweep_audit : Payment → AuditEntry
  sweep_audit p = record {
    entity_id = p.payment_id;
    action = payment_to expired;
    before = pending;
    after = expired;
    event_id = none;
  }

  -- The writes after the conditional update, if it found its document.
  unfoldable pub after_sweep : Payment → ℕ → Bool → Tx (Bool × List Key)
  after_sweep p total false = pure (false, [])
  after_sweep p total true = do
    write (append_audit (sweep_audit p))
    ids ← notify cfg env (
        payload_for (record p { status = expired; partial_amount_received = some total })
          payment_expired env.now)
    pure (true, ids)

  unfoldable pub sweep_tx : Payment → ℕ → Tx (Bool × List Key)
  unfolding set_swept after_sweep
  sweep_tx p total = do
    updated ← write_get (
        try_update
          (update_payment p.payment_id (unchanged_since pending p.version) (set_swept total)))
    after_sweep p total updated

  -- The note on partial transfers is written whether or not the payment was expired.
  unfoldable pub finish_sweep : Payment → ℕ → Result (Bool × List Key) × Db → Option Bool × Db
  finish_sweep p total (err r, db) = (none, db)
  finish_sweep p total (ok (done, ids), db) = (
    some done,
    dispatch ids
        (if ltb 0 total && ltb total p.amount then annotate (about_payment p partial) db else db),
  )

  -- One due payment: whether it was expired, or `none` when the transaction threw.
  unfoldable pub sweep_one : Payment → Db → Db → Option Bool × Db
  unfolding sweep_tx finish_sweep
  sweep_one p seen db =
      let total = claimed_total p.payment_id seen.events in
      elim (evaluate_payment_transition (sweep_attempt p total)) [
        | legal ↦ finish_sweep p total (with_required_transaction (sweep_tx p total) db)
        | rejected _ ↦ (some false, db)
      ]

  abbrev pub count_expired : Bool → ℕ → ℕ
  count_expired true n = suc n
  count_expired false n = n

  -- The loop over the due payments, each with what its reads saw and how the other workers changed the
  -- database before its writes. A throw ends it.
  unfoldable pub expire_due_payments : List (Payment × Db × (Db → Db)) → Db → ℕ → ℕ × Db
  unfolding sweep_one
  expire_due_payments [] db n = (n, db)
  expire_due_payments ((p, seen, others) ∷ due) db n =
      let (done, after) = sweep_one p seen (others db) in
      elim done [ none ↦ (n, after) | some b ↦ expire_due_payments due after (count_expired b n) ]

-- `recheckConfirmations`: a job for each active payment that was found.
unfoldable pub recheck_confirmations : List Payment → Db → Db
recheck_confirmations [] db = db
recheck_confirmations (p ∷ active) db =
    recheck_confirmations active (enqueue (confirm_payment p.payment_id) db)
