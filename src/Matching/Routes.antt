-- ===== src/Matching/Routes.antt =====
-- What the claim transaction writes on each of its routes: `#expireInTransaction`,
-- `#linkInTransaction` and the two pending branches of `#applyClaim`
-- (src/application/processing/payment-matching-service.ts).
use oscar_payment_gateway.Prelude.{
  ℕ, ◌-◌, ◌*◌, Bool, true, false, not, ◌&&◌, ◌||◌, none, some, List, [], ◌∷◌, ◌==◌, ◌++◌,
  if◌then◌else◌, ltb, leb, find,
}
use oscar_payment_gateway.Payments.{
  pending, matched, confirming, expired, is, evaluate_payment_transition, TransitionGuardInput,
}
use oscar_payment_gateway.Store.{
  Key, Db, Env, Event, Payment, Annotation, late, partial, excess, payment_to,
  payment_partial_accumulated, payment_replacement_linked, payment_excess_linked, payment_matched,
  payment_expired, Tx, when_legal, gets, ◌>>=◌, ◌>>◌, pure, throw, write, update_or_throw,
  payment_changed_concurrently, update_payment, unchanged_since, append_audit, payload_for,
  claimed_total,
}
use oscar_payment_gateway.Matching.Claims.{has_event_id}
use oscar_payment_gateway.Matching.Outcomes.{
  Config, claimed_matched, claimed_partial, replacement_linked, excess_linked,
  late_arrival_annotated, ClaimOutcome, outcome, audit_of, about_payment, about_event, notify,
  with_excess,
}

-- `cumulative > amount ? cumulative - amount : 0n`.
abbrev pub excess_of : ℕ → ℕ → ℕ
excess_of cumulative amount = if ltb amount cumulative then cumulative - amount else 0

module _ (cfg : Config) (env : Env) (event : Event) where
  unfoldable pub set_expired : ℕ → Payment → Payment
  set_expired total p = record p {
    status = expired;
    terminal_at = some env.now;
    partial_amount_received = some total;
    underpayment_flag = ltb 0 total && ltb total p.amount;
  }

  -- The notes after an expiry: partial transfers, and the late event.
  unfoldable pub late_notes : Payment → ℕ → List Annotation
  late_notes p total =
      (if ltb 0 total && ltb total p.amount then about_payment p partial ∷ [] else [])
      ++ about_event event late ∷ []

  -- The guard input of the expiry, for the claims' total.
  abbrev pub expiry_attempt : Payment → ℕ → TransitionGuardInput
  expiry_attempt p total = record {
    from = pending;
    to = expired;
    now = env.now;
    expires_at = p.expires_at;
    reorg_grace_ms = cfg.late_payment_grace_sec * 1000;
    confirmations = 0;
    required_confirmations = p.required_confirmations;
    canonical = true;
    compliance_clear = true;
    qualifying_event_claimed = leb p.amount total;
  }

  -- The writes of a legal expiry.
  unfoldable pub write_expired : Payment → ℕ → Tx (List Key)
  write_expired p total = do
    update_or_throw
        (update_payment p.payment_id (unchanged_since pending p.version) (set_expired total))
        payment_changed_concurrently
    write (append_audit (audit_of p (payment_to expired) expired event))
    notify cfg env (
        payload_for (record p { status = expired; partial_amount_received = some total })
          payment_expired env.now)

  unfoldable pub expire_in_transaction : Payment → Tx ClaimOutcome
  unfolding late_notes write_expired
  expire_in_transaction p = do
    total ← gets (λ db. claimed_total p.payment_id db.events)
    ids ←
        when_legal (evaluate_payment_transition (expiry_attempt p total)) (write_expired p total)
          (pure [])
    pure (record {
      action = late_arrival_annotated;
      annotations = late_notes p total;
      delivery_ids = ids;
    })

  -- `previous === null || !previous.canonical`; without a matched event there is no replacement.
  unfoldable pub is_replacement : Payment → Db → Bool
  is_replacement p db = elim p.matched_event_id [
    | none ↦ false
    | some previous_id ↦ elim (find (has_event_id previous_id) db.events) [
      | none ↦ true
      | some previous ↦ not previous.canonical
    ]
  ]

  unfoldable pub set_linked : Bool → ℕ → ℕ → Payment → Payment
  set_linked replacement cumulative surplus p =
      let q = record p {
        amount_received = some cumulative;
        partial_amount_received = some cumulative;
        overpayment_flag = ltb 0 surplus;
        excess_amount = with_excess surplus p.excess_amount;
      } in
      if replacement
      then record q {
        matched_event_id = some event.event_id;
        transaction_hash = some event.transaction_hash;
        confirmations = 0;
      }
      else q

  abbrev pub is_live_at : ℕ → Payment → Bool
  is_live_at version q = (is q.status matched || is q.status confirming) && q.version == version

  -- The reported outcome of a link.
  link_outcome : Bool → ℕ → Payment → ClaimOutcome
  link_outcome replacement surplus p =
      if replacement
      then outcome replacement_linked
      else if ltb 0 surplus
      then record {
        action = excess_linked;
        annotations = about_payment p excess ∷ [];
        delivery_ids = [];
      }
      else outcome excess_linked

  unfoldable pub link_in_transaction : Payment → ℕ → ℕ → Tx ClaimOutcome
  unfolding is_replacement set_linked link_outcome
  link_in_transaction p cumulative surplus = do
    replacement ← gets (is_replacement p)
    update_or_throw
        (update_payment p.payment_id (is_live_at p.version)
          (set_linked replacement cumulative surplus))
        payment_changed_concurrently
    write (
        append_audit (
          audit_of p (if replacement then payment_replacement_linked else payment_excess_linked)
            p.status event))
    pure (link_outcome replacement surplus p)

  unfoldable pub set_partial : ℕ → Payment → Payment
  set_partial cumulative p = record p {
    partial_amount_received = some cumulative;
    underpayment_flag = true;
  }

  -- The branch `cumulative < amount`.
  unfoldable pub accumulate : Payment → ℕ → Tx ClaimOutcome
  unfolding set_partial
  accumulate p cumulative = do
    update_or_throw
        (update_payment p.payment_id (unchanged_since pending p.version) (set_partial cumulative))
        payment_changed_concurrently
    write (append_audit (audit_of p payment_partial_accumulated pending event))
    pure (outcome claimed_partial)

  unfoldable pub set_matched : ℕ → ℕ → Payment → Payment
  set_matched cumulative surplus p = record p {
    status = matched;
    matched_event_id = some event.event_id;
    transaction_hash = some event.transaction_hash;
    amount_received = some cumulative;
    partial_amount_received = some cumulative;
    overpayment_flag = ltb 0 surplus;
    underpayment_flag = false;
    matched_at = some env.now;
    excess_amount = with_excess surplus p.excess_amount;
  }

  -- The guard input of the match.
  abbrev pub match_attempt : Payment → TransitionGuardInput
  match_attempt p = record {
    from = pending;
    to = matched;
    now = env.now;
    expires_at = p.expires_at;
    reorg_grace_ms = cfg.late_payment_grace_sec * 1000;
    confirmations = 0;
    required_confirmations = p.required_confirmations;
    canonical = true;
    compliance_clear = true;
    qualifying_event_claimed = true;
  }

  -- The writes of a legal match.
  unfoldable pub write_matched : Payment → ℕ → ℕ → Tx ClaimOutcome
  write_matched p cumulative surplus = do
    update_or_throw
        (update_payment p.payment_id (unchanged_since pending p.version)
          (set_matched cumulative surplus))
        payment_changed_concurrently
    write (append_audit (audit_of p (payment_to matched) matched event))
    ids ← notify cfg env (
        payload_for
          (record p {
            status = matched;
            amount_received = some cumulative;
            partial_amount_received = some cumulative;
            excess_amount = with_excess surplus p.excess_amount;
            transaction_hash = some event.transaction_hash;
          })
          payment_matched env.now)
    pure (record {
      action = claimed_matched;
      annotations = if ltb 0 surplus then about_payment p excess ∷ [] else [];
      delivery_ids = ids;
    })

  -- The branch in which a pending payment becomes matched.
  unfoldable pub match_pending : Payment → ℕ → ℕ → Tx ClaimOutcome
  unfolding write_matched
  match_pending p cumulative surplus =
      when_legal (evaluate_payment_transition (match_attempt p))
        (write_matched p cumulative surplus) (throw payment_changed_concurrently)
