-- ===== src/Matching/Settlement.antt =====
-- What the claim transaction does to a payment, branch by branch.
use oscar_payment_gateway.Prelude.{
  zero, suc, ℕ, ◌+◌, ◌-◌, ◌≤◌, ◌<◌, ◌≡◌, ◌≢◌, refl, ap, ◌∙◌, Bool, true, false, ◌&&◌, Option, some,
  List, ltb, lt→ltb, arith,
}
use oscar_payment_gateway.Payments.{pending, matched, is, is_terminal}
use oscar_payment_gateway.Store.{
  Key, Db, Env, Event, Payment, commit, abort, payment_changed_concurrently, bumped, claimed_total,
  effective_amount, ◌>>=◌,
}
use oscar_payment_gateway.Matching.Claims.{claim_event, cumulative_including}
use oscar_payment_gateway.Matching.Outcomes.{
  with_excess, Config, claimed_matched, claimed_partial, skipped, outcome,
}
use oscar_payment_gateway.Matching.Routes.{set_matched, set_partial, excess_of}
use oscar_payment_gateway.Matching.Apply.{apply_claim, claim_and_settle, settle_total, claim_in}
use oscar_payment_gateway.Matching.Totals.{
  is_counted, cumulative_including_lem, report, claim_and_settle_lem, apply_claim_live,
  settle_total_matched, settle_total_short, settle_total_partial,
}

-- The events after this payment's claim of the event, and whether the claim is the payment's.
abbrev pub claimed_events : Event → Payment → Db → List Event
claimed_events event p db = (claim_event event.event_id p.payment_id db.events).1

abbrev pub wins_claim : Event → Payment → Db → Bool
wins_claim event p db = (claim_event event.event_id p.payment_id db.events).0

counted_total :
    (event : Event) (id : Key) (es : List Event)
    → is_counted event.event_id id es ≡ true
    → cumulative_including event id es ≡ claimed_total id es
counted_total event id es h = cumulative_including_lem event id es ∙ rw h (omega arith)

live_pending :
    (p : Payment) (now : ℕ)
    → p.status ≡ pending
    → now ≤ p.expires_at
    → (is_terminal p.status ≡ false) × ((is p.status pending && ltb p.expires_at now) ≡ false)
live_pending p now h k = (rw h, ground arith)

with_excess_pos : (n : ℕ) (old : Option ℕ) → 0 < n → with_excess n old ≡ some n
with_excess_pos zero old h = absurd (omega arith)
with_excess_pos (suc n) old h = refl

excess_recorded :
    (total amount : ℕ) (old : Option ℕ)
    → amount < total
    → with_excess (excess_of total amount) old ≡ some (total - amount)
excess_recorded total amount old more =
    rw (lt→ltb amount total more) (with_excess_pos (total - amount) old (omega arith))

claim_event_lost :
    (event_id payment_id : Key) (es : List Event)
    → (claim_event event_id payment_id es).0 ≡ false
    → (claim_event event_id payment_id es).1 ≡ es
unfolding claim_event
claim_event_lost event_id payment_id es h = ground arith

module _ (cfg : Config) (env : Env) (event : Event) (p : Payment) (db : Db)
    (found : db.payments p.payment_id ≡ some p) where
  settles :
      (won : wins_claim event p db ≡ true)
      → is_terminal p.status ≡ false
      → (is p.status pending && ltb p.expires_at env.now) ≡ false
      → apply_claim cfg env event p.payment_id db
        ≡ settle_total cfg env event p
            (cumulative_including event p.payment_id (claimed_events event p db))
            (record db { events = claimed_events event p db })
  settles won live intime =
      apply_claim_live cfg env event p.payment_id p db found live intime
      ∙ claim_and_settle_lem cfg env event p db won

  -- A pending payment that has not expired, and whose canonical claims with this event reach its
  -- amount, becomes matched: to this event, with the claims' total as the amount received, the surplus
  -- over the amount as the excess, and one version later. The event is stored as canonical and is free
  -- or this payment's already; overpayments are allowed where there is a surplus.
  pub covered_payment_matched :
      p.status ≡ pending
      → env.now ≤ p.expires_at
      → wins_claim event p db ≡ true
      → is_counted event.event_id p.payment_id (claimed_events event p db) ≡ true
      → p.amount ≤ claimed_total p.payment_id (claimed_events event p db)
      → (p.amount < claimed_total p.payment_id (claimed_events event p db)
          → cfg.overpayment_allow ≡ true)
      → let total = claimed_total p.payment_id (claimed_events event p db) in
        (q : Payment) × (report p.payment_id (apply_claim cfg env event p.payment_id db)
          ≡ some (claimed_matched, some q))
        × (q.status ≡ matched)
        × (q.matched_event_id ≡ some event.event_id)
        × (q.amount_received ≡ some total)
        × (q.overpayment_flag ≡ ltb p.amount total)
        × (p.amount < total → q.excess_amount ≡ some (total - p.amount))
        × (q.version ≡ p.version + 1)
  unfolding set_matched
  covered_payment_matched pend intime won counted covered allow =
      let es = claimed_events event p db in
      let total = claimed_total p.payment_id es in
      let same = counted_total event p.payment_id es counted in
      let live = live_pending p env.now pend intime in
      (
        bumped (set_matched cfg env event total (excess_of total p.amount)) p,
        ap (report p.payment_id) (settles won live.0 live.1)
            ∙ rw same (
                settle_total_matched cfg env event p total (record db { events = es }) found pend
                  intime covered allow),
        refl,
        refl,
        refl,
        ground arith,
        λ more. excess_recorded total p.amount p.excess_amount more,
        refl,
      )

  -- A pending payment that has not expired, and whose canonical claims with this event stay below its
  -- amount, stays pending: it records the claims' total as a partial receipt, raises the underpayment
  -- flag, and gets one version later. The event is stored as canonical and is free or this payment's
  -- already.
  pub short_payment_accumulates :
      p.status ≡ pending
      → env.now ≤ p.expires_at
      → wins_claim event p db ≡ true
      → is_counted event.event_id p.payment_id (claimed_events event p db) ≡ true
      → claimed_total p.payment_id (claimed_events event p db) < p.amount
      → let total = claimed_total p.payment_id (claimed_events event p db) in
        (q : Payment) × (report p.payment_id (apply_claim cfg env event p.payment_id db)
          ≡ some (claimed_partial, some q))
        × (q.status ≡ pending)
        × (q.partial_amount_received ≡ some total)
        × (q.underpayment_flag ≡ true)
        × (q.version ≡ p.version + 1)
  unfolding set_partial
  short_payment_accumulates pend intime won counted short =
      let es = claimed_events event p db in
      let total = claimed_total p.payment_id es in
      let same = counted_total event p.payment_id es counted in
      let live = live_pending p env.now pend intime in
      (
        bumped (set_partial cfg env event total) p,
        ap (report p.payment_id) (settles won live.0 live.1)
            ∙ rw same (
                settle_total_partial cfg env event p total (record db { events = es }) found pend
                  short),
        pend,
        refl,
        refl,
        refl,
      )

  -- A deposit whose stored event was orphaned after `matchEvent` read it is counted all the same: a pending
  -- payment that has not expired is matched although its canonical claims stay below its amount, where they
  -- reach it with the deposit's amount added, and the amount received that is recorded is more than those
  -- claims. The deposit is free or this payment's already; overpayments are allowed where there is a surplus.
  pub orphaned_event_matches :
      p.status ≡ pending
      → env.now ≤ p.expires_at
      → wins_claim event p db ≡ true
      → is_counted event.event_id p.payment_id (claimed_events event p db) ≡ false
      → claimed_total p.payment_id (claimed_events event p db) < p.amount
      → p.amount ≤ claimed_total p.payment_id (claimed_events event p db) + effective_amount event
      → (p.amount < claimed_total p.payment_id (claimed_events event p db) + effective_amount event
          → cfg.overpayment_allow ≡ true)
      → let total = claimed_total p.payment_id (claimed_events event p db) in
        (q : Payment) × (received : ℕ) × (report p.payment_id
            (apply_claim cfg env event p.payment_id db)
          ≡ some (claimed_matched, some q))
        × (q.status ≡ matched)
        × (q.amount_received ≡ some received)
        × (total < received)
  unfolding set_matched
  orphaned_event_matches pend intime won orphaned short covered allow =
      let es = claimed_events event p db in
      let total = claimed_total p.payment_id es + effective_amount event in
      let same : cumulative_including event p.payment_id es ≡ total =
        cumulative_including_lem event p.payment_id es ∙ rw orphaned in
      let live = live_pending p env.now pend intime in
      (
        bumped (set_matched cfg env event total (excess_of total p.amount)) p,
        total,
        ap (report p.payment_id) (settles won live.0 live.1)
            ∙ rw same (
                settle_total_matched cfg env event p total (record db { events = es }) found pend
                  intime covered allow),
        refl,
        refl,
        omega arith,
      )

  -- For a payment that is matched or confirming, a deposit after which its canonical claims stay below
  -- its amount aborts the claim: a loss by a reorg cannot be made good by several partial deposits. The
  -- deposit's event is stored as canonical and is free or this payment's already.
  pub shortfall_aborts :
      is_terminal p.status ≡ false
      → p.status ≢ pending
      → wins_claim event p db ≡ true
      → is_counted event.event_id p.payment_id (claimed_events event p db) ≡ true
      → claimed_total p.payment_id (claimed_events event p db) < p.amount
      → apply_claim cfg env event p.payment_id db ≡ abort payment_changed_concurrently
  shortfall_aborts live other won counted short =
      let es = claimed_events event p db in
      let total = claimed_total p.payment_id es in
      settles won live (ground arith)
      ∙ rw (counted_total event p.payment_id es counted)
          (settle_total_short cfg env event p total (record db { events = es }) found other short)

  -- An event that another payment owns changes nothing.
  pub contested_event_skipped :
      is_terminal p.status ≡ false
      → (is p.status pending && ltb p.expires_at env.now) ≡ false
      → wins_claim event p db ≡ false
      → apply_claim cfg env event p.payment_id db ≡ commit (outcome skipped) db
  unfolding claim_and_settle claim_in ◌>>=◌
  contested_event_skipped live intime lost =
      apply_claim_live cfg env event p.payment_id p db found live intime
      ∙ rw lost (
          ap (λ (x : List Event). commit (outcome skipped) (record db { events = x }))
            (claim_event_lost event.event_id p.payment_id db.events lost))
