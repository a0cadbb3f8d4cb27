-- ===== src/Matching/Totals.antt =====
-- What a claim adds up, and what it writes to the payment.
use oscar_payment_gateway.Prelude.{
  ltb, ap, ◌∙◌, ==_refl, ℕ, ◌+◌, ◌≤◌, ◌<◌, ◌≡◌, ◌≢◌, refl, Bool, true, false, ◌&&◌, ◌||◌, Option,
  none, some, List, [], ◌∷◌, if◌then◌else◌, filter, any, lt→ltb, ltb→lt, Bool-cases, inl, inr,
  arith,
}
use oscar_payment_gateway.Payments.{pending, is, is_terminal}
use oscar_payment_gateway.Payments.Table.{evaluate_iff_Permits, match_in_time}
use oscar_payment_gateway.Store.{
  payment_changed_concurrently, update_or_throw-none, update_payment-none, when_legal, bumped,
  updated-payments, write-then, unchanged_since, update_or_throw-then, update_payment-some,
  WebhookPayload, pure, Key, Db, Env, Event, Payment, Attempt, commit, abort, ◌>>=◌,
  effective_amount, is_canonical_claim, claimed_total, append_audit, write_outbox,
}
use oscar_payment_gateway.Matching.Claims.{
  has_event_id, claim_event, add_claims, cumulative_including,
}
use oscar_payment_gateway.Matching.Outcomes.{
  claimed_partial, Config, ClaimOutcome, MatchAction, claimed_matched, notify,
}
use oscar_payment_gateway.Matching.Routes.{
  accumulate, set_partial, match_attempt, write_matched, set_matched, match_pending, excess_of,
}
use oscar_payment_gateway.Matching.Apply.{
  apply_claim_to, claim_in, settle, settle_total, claim_and_settle, apply_claim,
}

-- Whether the event is among the payment's canonical claims.
abbrev pub is_counted : Key → Key → List Event → Bool
is_counted event_id payment_id es =
    any (λ e. is_canonical_claim payment_id e && has_event_id event_id e) es

add_claims_lem :
    (event_id payment_id : Key) (es : List Event) (total : ℕ) (includes : Bool)
    → add_claims event_id (filter (is_canonical_claim payment_id) es) total includes
      ≡ (total + claimed_total payment_id es, includes || is_counted event_id payment_id es)
unfolding add_claims
add_claims_lem event_id payment_id [] total true = ground arith
add_claims_lem event_id payment_id [] total false = ground arith
add_claims_lem event_id payment_id (e ∷ es) total includes = ground (
  arith,
  add_claims_lem event_id payment_id es (total + effective_amount e) true,
  add_claims_lem event_id payment_id es (total + effective_amount e) includes,
  add_claims_lem event_id payment_id es total includes,
)

-- The sum that the claim transaction uses is the total of the payment's canonical claims; the event's
-- own amount is added a second way only when the event is not among them.
pub cumulative_including_lem :
    (event : Event) (payment_id : Key) (es : List Event)
    → cumulative_including event payment_id es
      ≡ claimed_total payment_id es
        + (if is_counted event.event_id payment_id es then 0 else effective_amount event)
unfolding cumulative_including
cumulative_including_lem event payment_id es =
    rw (add_claims_lem event.event_id payment_id es 0 false) (ground arith)

-- What a transaction reports, and a payment after its commit.
abbrev pub action_of : Attempt ClaimOutcome → Option MatchAction
action_of (commit o db) = some o.action
action_of (abort r) = none

abbrev pub payment_after : {A : Type 0} → Key → Attempt A → Option Payment
payment_after id (commit a db) = db.payments id
payment_after id (abort r) = none

-- What a transaction leaves of a payment, and what it reports.
abbrev pub report : Key → Attempt ClaimOutcome → Option (MatchAction × Option Payment)
report id (commit o db) = some (o.action, db.payments id)
report id (abort r) = none

unchanged_since_ne :
    (p : Payment) → p.status ≢ pending → unchanged_since pending p.version p ≡ false
unchanged_since_ne p h = ground arith

module _ (cfg : Config) (env : Env) (event : Event) where
  report-notify :
      (id : Key) (w : WebhookPayload) (o : List Key → ClaimOutcome) (db : Db) (a : MatchAction)
      → ((ids : List Key) → (o ids).action ≡ a)
      → report id ((notify cfg env w >>= λ ids. pure (o ids)) db) ≡ some (a, db.payments id)
  unfolding notify ◌>>=◌ write_outbox
  report-notify id w o db a h = ground (arith, h [], h (env.uuid ∷ []))

  report-write_matched :
      (p : Payment) (cumulative surplus : ℕ) (db : Db)
      → db.payments p.payment_id ≡ some p
      → p.status ≡ pending
      → report p.payment_id (write_matched cfg env event p cumulative surplus db)
        ≡ some (claimed_matched, some (bumped (set_matched cfg env event cumulative surplus) p))
  unfolding write_matched append_audit
  report-write_matched p cumulative surplus db found pend =
      rw
        (update_or_throw-then _ _ _ db _ (
          update_payment-some p.payment_id (unchanged_since pending p.version)
            (set_matched cfg env event cumulative surplus) p db found
            (rw (pend, ==_refl p.version))))
        (rw write-then (
          report-notify p.payment_id _ _ _ claimed_matched (λ ids. refl)
          ∙ ap (λ o. some (claimed_matched, o))
              (updated-payments p.payment_id (set_matched cfg env event cumulative surplus) p db)))

  -- The claim transaction of a live payment, as one settlement over the claimed events.
  pub claim_and_settle_lem :
      (p : Payment) (db : Db)
      → (claim_event event.event_id p.payment_id db.events).0 ≡ true
      → let es = (claim_event event.event_id p.payment_id db.events).1 in
        claim_and_settle cfg env event p db
        ≡ settle_total cfg env event p
            (cumulative_including event p.payment_id es)
            (record db { events = es })
  unfolding claim_and_settle claim_in settle ◌>>=◌
  claim_and_settle_lem p db won = rw won

  pub apply_claim_live :
      (id : Key) (p : Payment) (db : Db)
      → db.payments id ≡ some p
      → is_terminal p.status ≡ false
      → (is p.status pending && ltb p.expires_at env.now) ≡ false
      → apply_claim cfg env event id db ≡ claim_and_settle cfg env event p db
  unfolding apply_claim apply_claim_to ◌>>=◌
  apply_claim_live id p db found live intime = rw (found) (rw (live, intime))

  -- A settlement that covers a pending payment matches it.
  settle_total_route :
      (p : Payment) (total : ℕ)
      → p.status ≡ pending
      → p.amount ≤ total
      → (p.amount < total → cfg.overpayment_allow ≡ true)
      → settle_total cfg env event p total
        ≡ match_pending cfg env event p total (excess_of total p.amount)
  unfolding settle_total
  settle_total_route p total pend covered allow = elim (Bool-cases (ltb p.amount total)) [
    | inl more ↦ let allowed = allow (ltb→lt p.amount total more) in ground arith
    | inr exact ↦ ground arith
  ]

  match_pending_legal :
      (p : Payment) (total surplus : ℕ)
      → env.now ≤ p.expires_at
      → match_pending cfg env event p total surplus ≡ write_matched cfg env event p total surplus
  unfolding match_pending when_legal
  match_pending_legal p total surplus intime =
      rw ((evaluate_iff_Permits (match_attempt cfg env event p)).1 (match_in_time intime refl))

  pub settle_total_matched :
      (p : Payment) (total : ℕ) (db : Db)
      → db.payments p.payment_id ≡ some p
      → p.status ≡ pending
      → env.now ≤ p.expires_at
      → p.amount ≤ total
      → (p.amount < total → cfg.overpayment_allow ≡ true)
      → report p.payment_id (settle_total cfg env event p total db)
        ≡ some (
          claimed_matched,
          some (bumped (set_matched cfg env event total (excess_of total p.amount)) p),
        )
  settle_total_matched p total db found pend intime covered allow =
      rw (settle_total_route p total pend covered allow) (
        rw (match_pending_legal p total (excess_of total p.amount) intime)
          (report-write_matched p total (excess_of total p.amount) db found pend))

  -- A settlement that falls short of a payment which is not pending aborts.
  pub settle_total_short :
      (p : Payment) (total : ℕ) (db : Db)
      → db.payments p.payment_id ≡ some p
      → p.status ≢ pending
      → total < p.amount
      → settle_total cfg env event p total db ≡ abort payment_changed_concurrently
  unfolding settle_total accumulate
  settle_total_short p total db found other short = rw (lt→ltb total p.amount short) (
      update_or_throw-none _ _ _ db (
        update_payment-none p.payment_id (unchanged_since pending p.version)
          (set_partial cfg env event total) p db found (unchanged_since_ne p other)))

  -- A settlement that falls short of a pending payment records the partial receipt.
  pub settle_total_partial :
      (p : Payment) (total : ℕ) (db : Db)
      → db.payments p.payment_id ≡ some p
      → p.status ≡ pending
      → total < p.amount
      → report p.payment_id (settle_total cfg env event p total db)
        ≡ some (claimed_partial, some (bumped (set_partial cfg env event total) p))
  unfolding settle_total accumulate append_audit pure
  settle_total_partial p total db found pend short = rw (lt→ltb total p.amount short) (
      rw
        (update_or_throw-then _ _ _ db _ (
          update_payment-some p.payment_id (unchanged_since pending p.version)
            (set_partial cfg env event total) p db found (rw (pend, ==_refl p.version))))
        (rw write-then (
          ap (λ o. some (claimed_partial, o))
            (updated-payments p.payment_id (set_partial cfg env event total) p db))))
