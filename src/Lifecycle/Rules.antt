-- ===== src/Lifecycle/Rules.antt =====
-- The rules by which a transaction, and each shared write, is shown to keep the history.
use oscar_payment_gateway.Prelude.{
  ◌≡◌, inl, inr, refl, subst, Bool, true, false, Option, none, some, List, [], ◌∷◌, ◌==◌, put,
  if◌then◌else◌, Bool-cases, Option-cases, arith,
}
use mathlib.Core.Option.{some-injective}
use oscar_payment_gateway.Payments.{TransitionEvaluation}
use oscar_payment_gateway.Payments.Graph.{◌⟶*◌}
use oscar_payment_gateway.Store.{
  bumped, Keeps, AfterCommit, gets, when_legal, pure-Keeps, gets-Keeps, throw-Keeps, write-Keeps,
  when_legal-Keeps, >>=-Keeps, with_required_transaction-keeps, Key, Db, Env, Payment, Annotation,
  AuditEntry, WebhookPayload, Job, commit, abort, Tx, ◌>>=◌, AbortReason, with_required_transaction,
  update_or_throw, update_payment, append_audit, annotate, annotate_all, write_outbox, enqueue,
  pure, throw, write,
}
use oscar_payment_gateway.Lifecycle.{
  terms_of, Evolves, PaymentEvolves, PaymentEvolves-refl, EventsEvolve-refl, DbEvolves,
  DbEvolves-refl, DbEvolves-trans, DbEvolves-of_same,
}

-- A change of a payment that keeps its terms and follows the diagram.
pub record IsChange (change : Payment → Payment) (p : Payment) : Type 0 where
  pub same_terms : terms_of (change p) ≡ terms_of p
  pub along : p.status ⟶* (change p).status

pub bumped-Evolves :
    (change : Payment → Payment) (p : Payment) → IsChange change p → Evolves p (bumped change p)
bumped-Evolves change p h = record {
  same_terms = h.same_terms;
  along = h.along;
  versioned = inr (omega arith);
}

put-Evolves :
    (id : Key) (p q : Payment) (m : Key → Option Payment)
    → m id ≡ some p
    → Evolves p q
    → (j : Key) → PaymentEvolves (m j) (put id q m j)
put-Evolves id p q m e h j = elim (Bool-cases (j == id)) [
  | inl same ↦ let k : j ≡ id = ground arith in rw (same, k, e) h
  | inr other ↦ rw other (PaymentEvolves-refl (m j))
]

-- What a conditional update leaves behind.
pub update_payment-DbEvolves :
    (id : Key) (accepts : Payment → Bool) (change : Payment → Payment) (db : Db)
    → ((p : Payment) → db.payments id ≡ some p → accepts p ≡ true → IsChange change p)
    → (db' : Db) → update_payment id accepts change db ≡ some db'
    → DbEvolves db db'
unfolding update_payment
update_payment-DbEvolves id accepts change db allowed db' e = elim (Option-cases (db.payments id)) [
  | inl missing ↦ cc (rw (missing, update_payment) at e)
  | inr (p, found) ↦ elim (Bool-cases (accepts p)) [
    | inl fits ↦
        let k : some (record db { payments = put id (bumped change p) db.payments }) ≡ some db' =
          rw fits at (rw (found, update_payment) at e) in
        subst (DbEvolves db) (some-injective _ _ k) (record {
          payments =
              put-Evolves id p (bumped change p) db.payments found
                (bumped-Evolves change p (allowed p found fits));
          events = EventsEvolve-refl db.events;
        })
    | inr unfit ↦ cc (rw unfit at (rw (found, update_payment) at e))
  ]
]

pub append_audit-DbEvolves : (a : AuditEntry) (db : Db) → DbEvolves db (append_audit a db)
unfolding append_audit
append_audit-DbEvolves a db = DbEvolves-of_same db (append_audit a db) refl refl

pub enqueue-DbEvolves : (j : Job) (db : Db) → DbEvolves db (enqueue j db)
unfolding enqueue
enqueue-DbEvolves j db = DbEvolves-of_same db (enqueue j db) refl refl

pub annotate-DbEvolves : (a : Annotation) (db : Db) → DbEvolves db (annotate a db)
unfolding annotate
annotate-DbEvolves a db = DbEvolves-of_same db (annotate a db) (ground arith) (ground arith)

pub annotate_all-DbEvolves : (as' : List Annotation) (db : Db) → DbEvolves db (annotate_all as' db)
annotate_all-DbEvolves [] db = DbEvolves-refl db
annotate_all-DbEvolves (a ∷ as') db =
    DbEvolves-trans (annotate-DbEvolves a db) (annotate_all-DbEvolves as' (annotate a db))

pub write_outbox-DbEvolves :
    (env : Env) (p : WebhookPayload) (db : Db) → DbEvolves db (write_outbox env p db).1
unfolding write_outbox
write_outbox-DbEvolves env p db =
    DbEvolves-of_same db (write_outbox env p db).1 (ground arith) (ground arith)

-- The transactions that keep the history, and the rules by which `search` finds that they do.
abbrev pub Lawful : {A : Type 0} → Tx A → Type 0
Lawful m = Keeps DbEvolves m

pub pure-Lawful : {A : Type 0} (a : A) → Lawful (pure a)
pure-Lawful a = pure-Keeps DbEvolves DbEvolves-refl a

pub gets-Lawful : {A : Type 0} (f : Db → A) → Lawful (gets f)
gets-Lawful f = gets-Keeps DbEvolves DbEvolves-refl f

pub throw-Lawful : {A : Type 0} (r : AbortReason) → Lawful (throw {A = A} r)
throw-Lawful r = throw-Keeps DbEvolves r

pub append_audit-Lawful : (a : AuditEntry) → Lawful (write (append_audit a))
append_audit-Lawful a = write-Keeps DbEvolves (append_audit a) (append_audit-DbEvolves a)

pub when_legal-Lawful :
    {A : Type 0} (e : TransitionEvaluation) (m n : Tx A)
    → Lawful m
    → Lawful n
    → Lawful (when_legal e m n)
when_legal-Lawful e m n h k = when_legal-Keeps DbEvolves e m n h k

pub if-Lawful :
    {A : Type 0} (b : Bool) (m n : Tx A) → Lawful m → Lawful n → Lawful (if b then m else n)
if-Lawful true m n h k = h
if-Lawful false m n h k = k

pub >>=-Lawful :
    {A B : Type 0} (m : Tx A) (f : A → Tx B)
    → Lawful m
    → ((a : A) → Lawful (f a))
    → Lawful (m >>= f)
>>=-Lawful m f h k = >>=-Keeps DbEvolves (λ a b c. DbEvolves-trans) m f h k

pub update-Lawful :
    (id : Key) (accepts : Payment → Bool) (change : Payment → Payment) (r : AbortReason)
    → ((p : Payment) → accepts p ≡ true → IsChange change p)
    → Lawful (update_or_throw (update_payment id accepts change) r)
unfolding update_or_throw
update-Lawful id accepts change r lawful = record {
  keeps = λ db.
      go db (update_payment id accepts change db)
        (update_payment-DbEvolves id accepts change db (λ p _ fits. lawful p fits));
}
  where
    go :
        (db : Db) (o : Option Db)
        → ((db' : Db) → o ≡ some db' → DbEvolves db db')
        → AfterCommit DbEvolves db (elim o [ some x ↦ commit tt x | none ↦ abort r ])
    go db none k = tt
    go db (some x) k = k x refl

pub ruleset lawful_rules = (
  pure-Lawful, gets-Lawful, throw-Lawful, append_audit-Lawful, when_legal-Lawful, if-Lawful,
  >>=-Lawful, update-Lawful,
)

-- A committed or rolled back transaction.
pub with_required_transaction-DbEvolves :
    {A : Type 0} (op : Tx A)
    → Lawful op
    → (db : Db) → DbEvolves db (with_required_transaction op db).1
with_required_transaction-DbEvolves op h db =
    with_required_transaction-keeps DbEvolves DbEvolves-refl op h db
