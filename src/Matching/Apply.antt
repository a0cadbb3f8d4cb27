-- ===== src/Matching/Apply.antt =====
-- The claim transaction: `#applyClaim` (src/application/processing/payment-matching-service.ts).
use oscar_payment_gateway.Prelude.{
  ℕ, Bool, Option, not, ◌&&◌, none, Option, Bool, some, [], ◌∷◌, if◌then◌else◌, ltb,
}
use oscar_payment_gateway.Payments.{pending, is, is_terminal}
use oscar_payment_gateway.Store.{
  Key, Db, ◌>>=◌, gets, write_get, pure, Env, Event, Payment, late, Tx, throw, payment_terminal,
  tolerance_exceeded,
}
use oscar_payment_gateway.Matching.Claims.{claim_event, cumulative_including}
use oscar_payment_gateway.Matching.Outcomes.{
  Config, late_arrival_annotated, skipped, ClaimOutcome, outcome, about_event,
}
use oscar_payment_gateway.Matching.Routes.{
  excess_of, expire_in_transaction, link_in_transaction, accumulate, match_pending,
}

module _ (cfg : Config) (env : Env) (event : Event) where
  -- What follows a successful claim, with the claims added up.
  unfoldable pub settle_total : Payment → ℕ → Tx ClaimOutcome
  settle_total p cumulative =
      if ltb cumulative p.amount
      then accumulate cfg env event p cumulative
      else if not cfg.overpayment_allow && ltb p.amount cumulative
      then throw tolerance_exceeded
      else if is p.status pending
      then match_pending cfg env event p cumulative (excess_of cumulative p.amount)
      else link_in_transaction cfg env event p cumulative (excess_of cumulative p.amount)

  unfoldable pub settle : Payment → Tx ClaimOutcome
  unfolding settle_total
  settle p = do
    cumulative ← gets (λ db. cumulative_including event p.payment_id db.events)
    settle_total p cumulative

  unfoldable pub claim_in : Payment → Db → Bool × Db
  claim_in p db =
      let (claimed, events) = claim_event event.event_id p.payment_id db.events in
      (claimed, record db { events = events })

  unfoldable pub claim_and_settle : Payment → Tx ClaimOutcome
  unfolding settle claim_in
  claim_and_settle p = do
    claimed ← write_get (claim_in p)
    if claimed then settle p else pure (outcome skipped)

  -- The routing by the payment that the session reads.
  unfoldable pub apply_claim_to : Option Payment → Tx ClaimOutcome
  unfolding claim_and_settle
  apply_claim_to none = throw payment_terminal
  apply_claim_to (some p) =
      if is_terminal p.status
      then pure (record {
        action = late_arrival_annotated;
        annotations = about_event event late ∷ [];
        delivery_ids = [];
      })
      else if is p.status pending && ltb p.expires_at env.now
      then expire_in_transaction cfg env event p
      else claim_and_settle p

  unfoldable pub apply_claim : Key → Tx ClaimOutcome
  unfolding apply_claim_to
  apply_claim payment_id = do found ← gets (λ db. db.payments payment_id); apply_claim_to found
