-- ===== src/Lifecycle.antt =====
-- What every operation on the database keeps, whatever the order of the workers: the terms of a
-- payment, the direction of its status and version, and the facts recorded of an event.
pub mod Rules
use oscar_payment_gateway.Prelude.{
  ℕ, ◌≤◌, ◌<◌, ◌≡◌, ◌≢◌, ◌⊎◌, inl, inr, refl, sym, ap, ◌∙◌, Bool, true, false, Option, none, some,
  List, [], ◌∷◌, is_some, arith,
}
use oscar_payment_gateway.Payments.{PaymentStatus, is_terminal}
use oscar_payment_gateway.Payments.Graph.{◌⟶*◌, here, ⟶*_trans, terminal_absorbs}
use oscar_payment_gateway.Store.{
  Key, Db, Event, Payment, InterpretationStatus, InterpretationReason,
}

-- What is agreed when a payment is created: its identity, asset, amount, depth and expiry.
abbrev pub terms_of : Payment → Key × Key × Key × Key × ℕ × ℕ × ℕ
terms_of p = (
  p.payment_id, p.merchant_id, p.chain, p.token, p.amount, p.required_confirmations, p.expires_at,
)

-- From `p` to `q`: the agreed terms stay, the status follows the diagram, every change raises the
-- version.
pub record Evolves (p q : Payment) : Type 0 where
  pub same_terms : terms_of q ≡ terms_of p
  pub along : p.status ⟶* q.status
  pub versioned : (q ≡ p) ⊎ (p.version < q.version)

-- The same for a payment that may be absent: none is created or deleted.
abbrev pub PaymentEvolves : Option Payment → Option Payment → Type 0
PaymentEvolves none none = Unit
PaymentEvolves (some p) (some q) = Evolves p q
PaymentEvolves _ _ = ⊥

-- What an interpretation decides.
abbrev pub outcome_of : Event → Option InterpretationStatus × Option InterpretationReason × Option ℕ
outcome_of e = (e.interpretation_status, e.interpretation_reason, e.verified_received_amount)

-- What is recorded of an event stays: its amount, its claim, that it was orphaned.
pub record EventEvolves (e f : Event) : Type 0 where
  pub same_event_id : f.event_id ≡ e.event_id
  pub same_chain : f.chain ≡ e.chain
  pub same_transaction : f.transaction_hash ≡ e.transaction_hash
  pub same_log : f.log_index ≡ e.log_index
  pub same_amount : f.amount ≡ e.amount
  pub same_block : f.block_number ≡ e.block_number
  pub keeps_claim :
      is_some e.matched_payment_id ≡ true → f.matched_payment_id ≡ e.matched_payment_id
  pub keeps_outcome : is_some e.interpretation_status ≡ true → outcome_of f ≡ outcome_of e
  pub stays_orphaned : e.canonical ≡ false → f.canonical ≡ false

-- Events are never deleted; new ones may follow.
abbrev pub EventsEvolve : List Event → List Event → Type 0
EventsEvolve [] fs = Unit
EventsEvolve (e ∷ es) [] = ⊥
EventsEvolve (e ∷ es) (f ∷ fs) = EventEvolves e f × EventsEvolve es fs

pub record DbEvolves (db db' : Db) : Type 0 where
  pub payments : (id : Key) → PaymentEvolves (db.payments id) (db'.payments id)
  pub events : EventsEvolve db.events db'.events

pub Evolves-refl : (p : Payment) → Evolves p p
Evolves-refl p = record { same_terms = refl; along = here; versioned = inl refl }

versioned_trans :
    {p q r : Payment}
    → (q ≡ p) ⊎ (p.version < q.version)
    → (r ≡ q) ⊎ (q.version < r.version)
    → (r ≡ p) ⊎ (p.version < r.version)
versioned_trans (inl a) (inl b) = inl (b ∙ a)
versioned_trans {p} {q} {r} (inl a) (inr b) = inr (rw (← a) b)
versioned_trans {p} {q} {r} (inr a) (inl b) = inr (rw b a)
versioned_trans (inr a) (inr b) = inr (omega arith)

pub Evolves-trans : {p q r : Payment} → Evolves p q → Evolves q r → Evolves p r
Evolves-trans {p} {q} {r} a b = record {
  same_terms = b.same_terms ∙ a.same_terms;
  along = ⟶*_trans a.along b.along;
  versioned = versioned_trans {p = p} {q = q} {r = r} a.versioned b.versioned;
}

pub PaymentEvolves-refl : (p : Option Payment) → PaymentEvolves p p
PaymentEvolves-refl none = tt
PaymentEvolves-refl (some p) = Evolves-refl p

pub PaymentEvolves-trans :
    (p q r : Option Payment) → PaymentEvolves p q → PaymentEvolves q r → PaymentEvolves p r
PaymentEvolves-trans none none none a b = tt
PaymentEvolves-trans (some p) (some q) (some r) a b = Evolves-trans a b
PaymentEvolves-trans none (some q) r a b = absurd a
PaymentEvolves-trans (some p) none r a b = absurd a
PaymentEvolves-trans none none (some r) a b = absurd b
PaymentEvolves-trans (some p) (some q) none a b = absurd b

pub EventEvolves-refl : (e : Event) → EventEvolves e e
EventEvolves-refl e = ground arith

pub EventEvolves-trans : {e f g : Event} → EventEvolves e f → EventEvolves f g → EventEvolves e g
EventEvolves-trans {e} {f} {g} a b = record {
  same_event_id = b.same_event_id ∙ a.same_event_id;
  same_chain = b.same_chain ∙ a.same_chain;
  same_transaction = b.same_transaction ∙ a.same_transaction;
  same_log = b.same_log ∙ a.same_log;
  same_amount = b.same_amount ∙ a.same_amount;
  same_block = b.same_block ∙ a.same_block;
  keeps_claim = λ h. let k = a.keeps_claim h in b.keeps_claim (rw k h) ∙ k;
  keeps_outcome =
      λ h. let k = a.keeps_outcome h in b.keeps_outcome (ap is_some (ap (λ o. o.0) k) ∙ h) ∙ k;
  stays_orphaned = λ h. b.stays_orphaned (a.stays_orphaned h);
}

pub EventsEvolve-refl : (es : List Event) → EventsEvolve es es
EventsEvolve-refl [] = tt
EventsEvolve-refl (e ∷ es) = (EventEvolves-refl e, EventsEvolve-refl es)

pub EventsEvolve-trans :
    (es fs gs : List Event) → EventsEvolve es fs → EventsEvolve fs gs → EventsEvolve es gs
EventsEvolve-trans [] fs gs a b = tt
EventsEvolve-trans (e ∷ es) (f ∷ fs) (g ∷ gs) (a, as') (b, bs) =
    (EventEvolves-trans a b, EventsEvolve-trans es fs gs as' bs)
EventsEvolve-trans (e ∷ es) [] gs a b = absurd a
EventsEvolve-trans (e ∷ es) (f ∷ fs) [] a b = absurd b

pub DbEvolves-refl : (db : Db) → DbEvolves db db
DbEvolves-refl db = record {
  payments = λ id. PaymentEvolves-refl (db.payments id);
  events = EventsEvolve-refl db.events;
}

pub DbEvolves-trans : {a b c : Db} → DbEvolves a b → DbEvolves b c → DbEvolves a c
DbEvolves-trans {a} {b} {c} h k = record {
  payments = λ id.
      PaymentEvolves-trans (a.payments id) (b.payments id) (c.payments id) (h.payments id)
        (k.payments id);
  events = EventsEvolve-trans a.events b.events c.events h.events k.events;
}

-- A step that touches neither collection.
pub DbEvolves-of_same : (a b : Db) → b.payments ≡ a.payments → b.events ≡ a.events → DbEvolves a b
DbEvolves-of_same a b p e = record {
  payments = λ id. rw p (PaymentEvolves-refl (a.payments id));
  events = rw e (EventsEvolve-refl a.events);
}
