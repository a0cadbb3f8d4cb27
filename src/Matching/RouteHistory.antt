-- ===== src/Matching/RouteHistory.antt =====
-- What the claim transaction keeps of the database
-- (src/application/processing/payment-matching-service.ts).
use oscar_payment_gateway.Prelude.{
  ℕ, ◌≡◌, refl, inl, inr, Bool, true, false, Option, none, some, List, [], ◌∷◌, Bool-cases, any,
  update_first, arith,
}
use oscar_payment_gateway.Payments.{PaymentStatus, pending, is→eq}
use oscar_payment_gateway.Payments.Table.{pending_matched, pending_expired}
use oscar_payment_gateway.Payments.Graph.{here, step}
use oscar_payment_gateway.Store.{
  write_get-Keeps, deliver_webhook, enqueue, Key, Db, Env, Event, Payment, WebhookPayload,
  payment_terminal, unchanged_since,
}
use oscar_payment_gateway.Lifecycle.{
  EventEvolves, EventEvolves-refl, EventsEvolve, EventsEvolve-refl, PaymentEvolves-refl, DbEvolves,
  DbEvolves-refl, DbEvolves-trans,
}
use oscar_payment_gateway.Lifecycle.Rules.{
  IsChange, Lawful, >>=-Lawful, throw-Lawful, lawful_rules, if-Lawful, pure-Lawful,
  enqueue-DbEvolves, write_outbox-DbEvolves,
}
use oscar_payment_gateway.Matching.Claims.{is_unclaimed, set_claim, claim_event}
use oscar_payment_gateway.Matching.Outcomes.{Config, notify}
use oscar_payment_gateway.Matching.Routes.{
  write_expired, write_matched, set_expired, set_partial, set_matched, set_linked,
  expire_in_transaction, link_in_transaction, accumulate, match_pending,
}
use oscar_payment_gateway.Matching.Apply.{
  claim_in, apply_claim_to, settle, claim_and_settle, apply_claim,
}
use oscar_payment_gateway.Matching.{dispatch}

set_claim-EventEvolves :
    (event_id payment_id : Key) (e : Event)
    → is_unclaimed event_id e ≡ true
    → EventEvolves e (set_claim payment_id e)
set_claim-EventEvolves event_id payment_id e h = ground arith

update_first-EventsEvolve :
    (event_id payment_id : Key) (es : List Event)
    → EventsEvolve es (update_first (is_unclaimed event_id) (set_claim payment_id) es)
update_first-EventsEvolve event_id payment_id [] = tt
update_first-EventsEvolve event_id payment_id (e ∷ es) =
    elim (Bool-cases (is_unclaimed event_id e)) [
      | inl free ↦ rw free (set_claim-EventEvolves event_id payment_id e free, EventsEvolve-refl es)
      | inr taken ↦ rw taken (EventEvolves-refl e, update_first-EventsEvolve event_id payment_id es)
    ]

-- Claiming an event takes it from no other payment.
pub claim_event-EventsEvolve :
    (event_id payment_id : Key) (es : List Event)
    → EventsEvolve es (claim_event event_id payment_id es).1
unfolding claim_event
claim_event-EventsEvolve event_id payment_id es =
    elim (Bool-cases (any (is_unclaimed event_id) es)) [
      | inl free ↦ rw free (update_first-EventsEvolve event_id payment_id es)
      | inr taken ↦ rw taken (EventsEvolve-refl es)
    ]

pub notify-Lawful : (cfg : Config) (env : Env) (p : WebhookPayload) → Lawful (notify cfg env p)
unfolding notify
notify-Lawful cfg env p =
    if-Lawful cfg.has_outbox _ _ (write_get-Keeps DbEvolves _ (write_outbox-DbEvolves env p))
      (pure-Lawful [])

pub snapshot_status :
    (status : PaymentStatus) (version : ℕ) (p : Payment)
    → unchanged_since status version p ≡ true
    → p.status ≡ status
snapshot_status status version p h = is→eq p.status status (ground arith)

module _ (cfg : Config) (env : Env) (event : Event) where
  expired-IsChange :
      (total version : ℕ) (p : Payment)
      → unchanged_since pending version p ≡ true
      → IsChange (set_expired cfg env event total) p
  unfolding set_expired
  expired-IsChange total version p h = record {
    same_terms = refl;
    along = rw (snapshot_status pending version p h) (step pending_expired here);
  }

  matched-IsChange :
      (cumulative surplus version : ℕ) (p : Payment)
      → unchanged_since pending version p ≡ true
      → IsChange (set_matched cfg env event cumulative surplus) p
  unfolding set_matched
  matched-IsChange cumulative surplus version p h = record {
    same_terms = refl;
    along = rw (snapshot_status pending version p h) (step pending_matched here);
  }

  partial-IsChange :
      (cumulative : ℕ) (p : Payment) → IsChange (set_partial cfg env event cumulative) p
  unfolding set_partial
  partial-IsChange cumulative p = record { same_terms = refl; along = here }

  linked-IsChange :
      (replacement : Bool) (cumulative surplus : ℕ) (p : Payment)
      → IsChange (set_linked cfg env event replacement cumulative surplus) p
  unfolding set_linked
  linked-IsChange true cumulative surplus p = record { same_terms = refl; along = here }
  linked-IsChange false cumulative surplus p = record { same_terms = refl; along = here }

  accumulate-Lawful :
      (p : Payment) (cumulative : ℕ) → Lawful (accumulate cfg env event p cumulative)
  unfolding accumulate
  accumulate-Lawful p cumulative =
      search (lawful_rules, λ (q : Payment). partial-IsChange cumulative q)

  write_matched-Lawful :
      (p : Payment) (cumulative surplus : ℕ)
      → Lawful (write_matched cfg env event p cumulative surplus)
  unfolding write_matched
  write_matched-Lawful p cumulative surplus =
      search (lawful_rules, notify-Lawful, matched-IsChange) depth 8

  match_pending-Lawful :
      (p : Payment) (cumulative surplus : ℕ)
      → Lawful (match_pending cfg env event p cumulative surplus)
  unfolding match_pending
  match_pending-Lawful p cumulative surplus = search (lawful_rules, write_matched-Lawful)

  link_in_transaction-Lawful :
      (p : Payment) (cumulative surplus : ℕ)
      → Lawful (link_in_transaction cfg env event p cumulative surplus)
  unfolding link_in_transaction
  link_in_transaction-Lawful p cumulative surplus = search (lawful_rules, linked-IsChange) depth 8

  write_expired-Lawful : (p : Payment) (total : ℕ) → Lawful (write_expired cfg env event p total)
  unfolding write_expired
  write_expired-Lawful p total = search (lawful_rules, notify-Lawful, expired-IsChange) depth 8

  expire_in_transaction-Lawful : (p : Payment) → Lawful (expire_in_transaction cfg env event p)
  unfolding expire_in_transaction
  expire_in_transaction-Lawful p = search (lawful_rules, write_expired-Lawful) depth 8

  settle-Lawful : (p : Payment) → Lawful (settle cfg env event p)
  unfolding settle
  settle-Lawful p =
      search (lawful_rules, accumulate-Lawful, match_pending-Lawful, link_in_transaction-Lawful)
        depth 8

  claim_in-DbEvolves : (p : Payment) (db : Db) → DbEvolves db (claim_in cfg env event p db).1
  unfolding claim_in
  claim_in-DbEvolves p db = record {
    payments = λ id. PaymentEvolves-refl (db.payments id);
    events = claim_event-EventsEvolve event.event_id p.payment_id db.events;
  }

  claim_and_settle-Lawful : (p : Payment) → Lawful (claim_and_settle cfg env event p)
  unfolding claim_and_settle
  claim_and_settle-Lawful p =
      >>=-Lawful _ _ (write_get-Keeps DbEvolves _ (claim_in-DbEvolves p))
        (λ claimed. if-Lawful claimed _ _ (settle-Lawful p) (pure-Lawful _))

  apply_claim_to-Lawful : (found : Option Payment) → Lawful (apply_claim_to cfg env event found)
  unfolding apply_claim_to
  apply_claim_to-Lawful none = throw-Lawful payment_terminal
  apply_claim_to-Lawful (some p) =
      search (lawful_rules, expire_in_transaction-Lawful, claim_and_settle-Lawful)

  pub apply_claim-Lawful : (id : Key) → Lawful (apply_claim cfg env event id)
  unfolding apply_claim
  apply_claim-Lawful id = search (lawful_rules, apply_claim_to-Lawful)

pub dispatch-DbEvolves : (ids : List Key) (db : Db) → DbEvolves db (dispatch ids db)
unfolding dispatch
dispatch-DbEvolves [] db = DbEvolves-refl db
dispatch-DbEvolves (d ∷ ds) db =
    DbEvolves-trans (enqueue-DbEvolves (deliver_webhook d) db)
      (dispatch-DbEvolves ds (enqueue (deliver_webhook d) db))
