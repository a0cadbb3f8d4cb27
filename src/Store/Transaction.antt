-- ===== src/Store/Transaction.antt =====
-- `withRequiredTransaction` (src/infrastructure/mongodb/transactions.ts) as a state monad: the
-- operation runs against one snapshot, and a throw discards what it wrote.
use oscar_payment_gateway.Prelude.{◌≡◌, refl, Option, none, some}
use oscar_payment_gateway.Payments.{TransitionEvaluation, legal, rejected}
use oscar_payment_gateway.Store.Documents.{Db}

-- `ClaimRoutingAbortedError`, the only error that the services raise in a transaction on purpose.
pub data AbortReason : Type 0 where
  payment_changed_concurrently payment_terminal tolerance_exceeded : AbortReason

pub data Attempt (A : Type 0) : Type 0 where
  commit : A → Db → Attempt A
  abort : AbortReason → Attempt A

abbrev pub Tx : Type 0 → Type 0
Tx A = Db → Attempt A

unfoldable pub pure : {A : Type 0} → A → Tx A
pure a db = commit a db

unfoldable pub throw : {A : Type 0} → AbortReason → Tx A
throw r db = abort r

-- A read inside the transaction's session.
unfoldable pub gets : {A : Type 0} → (Db → A) → Tx A
gets f db = commit (f db) db

-- A write that never throws.
unfoldable pub write : (Db → Db) → Tx (Unit {0})
write f db = commit tt (f db)

-- A write that returns a value.
unfoldable pub write_get : {A : Type 0} → (Db → A × Db) → Tx A
write_get f db = let (a, db') = f db in commit a db'

-- `if (updated === null) throw …` after a conditional update.
unfoldable pub update_or_throw : (Db → Option Db) → AbortReason → Tx (Unit {0})
update_or_throw u r db = elim (u db) [ some db' ↦ commit tt db' | none ↦ abort r ]

-- A transaction that depends on the evaluation of a transition.
unfoldable pub when_legal : {A : Type 0} → TransitionEvaluation → Tx A → Tx A → Tx A
when_legal legal yes' no' = yes'
when_legal (rejected _) yes' no' = no'

abbrev continue_with : {A B : Type 0} → (A → Tx B) → Attempt A → Attempt B
continue_with f (commit a db) = f a db
continue_with f (abort r) = abort r

-- To unfold this is to unfold the whole monad.
infixl 5 ◌>>=◌ ◌>>◌
unfoldable pub ◌>>=◌ : {A B : Type 0} → Tx A → (A → Tx B) → Tx B
unfolding pure throw gets write write_get update_or_throw when_legal
◌>>=◌ m f db = continue_with f (m db)

abbrev pub ◌>>◌ : {B : Type 0} → Tx (Unit {0}) → Tx B → Tx B
m >> k = m >>= λ _. k

pub pure-then : {A B : Type 0} (a : A) (f : A → Tx B) (db : Db) → (pure a >>= f) db ≡ f a db
unfolding ◌>>=◌
pure-then a f db = refl

pub gets-then :
    {A B : Type 0} (g : Db → A) (f : A → Tx B) (db : Db) → (gets g >>= f) db ≡ f (g db) db
unfolding ◌>>=◌
gets-then g f db = refl

pub write-then :
    {B : Type 0} (g : Db → Db) (f : Unit {0} → Tx B) (db : Db) → (write g >>= f) db ≡ f tt (g db)
unfolding ◌>>=◌
write-then g f db = refl

pub write_get-then :
    {A B : Type 0} (g : Db → A × Db) (f : A → Tx B) (db : Db)
    → (write_get g >>= f) db ≡ f (g db).0 (g db).1
unfolding ◌>>=◌
write_get-then g f db = refl

pub update_or_throw-then :
    {B : Type 0} (u : Db → Option Db) (r : AbortReason) (f : Unit {0} → Tx B) (db db' : Db)
    → u db ≡ some db'
    → (update_or_throw u r >>= f) db ≡ f tt db'
unfolding ◌>>=◌
update_or_throw-then u r f db db' e = rw (e, update_or_throw)

pub update_or_throw-none :
    {B : Type 0} (u : Db → Option Db) (r : AbortReason) (f : Unit {0} → Tx B) (db : Db)
    → u db ≡ none
    → (update_or_throw u r >>= f) db ≡ abort r
unfolding ◌>>=◌
update_or_throw-none u r f db e = rw (e, update_or_throw)

pub ruleset steps = (pure-then, gets-then, write-then, write_get-then)

pub data Result (A : Type 0) : Type 0 where
  ok : A → Result A
  err : AbortReason → Result A

abbrev settled : {A : Type 0} → Db → Attempt A → Result A × Db
settled db (commit a db') = (ok a, db')
settled db (abort r) = (err r, db)

-- The transaction's result, and the database after its commit or its rollback.
unfoldable pub with_required_transaction : {A : Type 0} → Tx A → Db → Result A × Db
with_required_transaction op db = settled db (op db)

pub >>=-commit :
    {A B : Type 0} (m : Tx A) (f : A → Tx B) (db : Db) (a : A) (mid : Db)
    → m db ≡ commit a mid
    → (m >>= f) db ≡ f a mid
unfolding ◌>>=◌
>>=-commit m f db a mid e = rw e

pub with_required_transaction-commit :
    {A : Type 0} (op : Tx A) (db : Db) (a : A) (after : Db)
    → op db ≡ commit a after
    → with_required_transaction op db ≡ (ok a, after)
unfolding with_required_transaction
with_required_transaction-commit op db a after e = rw e

-- A relation between the databases around a transaction, when it commits.
abbrev pub AfterCommit : {A : Type 0} → (Db → Db → Type 0) → Db → Attempt A → Type 0
AfterCommit R db (commit a db') = R db db'
AfterCommit R db (abort r) = Unit

-- The rules by which a transaction is shown to keep a transitive relation.
pub record Keeps {A : Type 0} (R : Db → Db → Type 0) (m : Tx A) : Type 0 where
  pub keeps : (db : Db) → AfterCommit R db (m db)

module _ (R : Db → Db → Type 0) (R_refl : (db : Db) → R db db) where
  pub pure-Keeps : {A : Type 0} (a : A) → Keeps R (pure a)
  unfolding pure
  pure-Keeps a = record { keeps = λ db. R_refl db }

  pub gets-Keeps : {A : Type 0} (f : Db → A) → Keeps R (gets f)
  unfolding gets
  gets-Keeps f = record { keeps = λ db. R_refl db }

  pub with_required_transaction-keeps :
      {A : Type 0} (op : Tx A) → Keeps R op → (db : Db) → R db (with_required_transaction op db).1
  unfolding with_required_transaction
  with_required_transaction-keeps {A} op h db = go (op db) (h.keeps db)
    where
      go : (r : Attempt A) → AfterCommit R db r → R db (settled db r).1
      go (commit a db') k = k
      go (abort r) k = R_refl db

module _ (R : Db → Db → Type 0) where
  pub throw-Keeps : {A : Type 0} (r : AbortReason) → Keeps R (throw {A = A} r)
  unfolding throw
  throw-Keeps r = record { keeps = λ db. tt }

  pub write-Keeps : (f : Db → Db) → ((db : Db) → R db (f db)) → Keeps R (write f)
  unfolding write
  write-Keeps f h = record { keeps = h }

  pub write_get-Keeps :
      {A : Type 0} (f : Db → A × Db) → ((db : Db) → R db (f db).1) → Keeps R (write_get f)
  unfolding write_get
  write_get-Keeps f h = record { keeps = h }

  pub when_legal-Keeps :
      {A : Type 0} (e : TransitionEvaluation) (m n : Tx A)
      → Keeps R m
      → Keeps R n
      → Keeps R (when_legal e m n)
  unfolding when_legal
  when_legal-Keeps legal m n h k = h
  when_legal-Keeps (rejected _) m n h k = k

module _ (R : Db → Db → Type 0) (R_trans : (a b c : Db) → R a b → R b c → R a c) where
  after_commit :
      {B : Type 0} (a b : Db) (r : Attempt B) → R a b → AfterCommit R b r → AfterCommit R a r
  after_commit a b (commit x c) p q = R_trans a b c p q
  after_commit a b (abort r) p q = tt

  after_continue :
      {A B : Type 0} (f : A → Tx B) (db : Db) (r : Attempt A)
      → AfterCommit R db r
      → ((a : A) → Keeps R (f a))
      → AfterCommit R db (continue_with f r)
  after_continue f db (commit a mid) p k = after_commit db mid (f a mid) p ((k a).keeps mid)
  after_continue f db (abort r) p k = tt

  pub >>=-Keeps :
      {A B : Type 0} (m : Tx A) (f : A → Tx B)
      → Keeps R m
      → ((a : A) → Keeps R (f a))
      → Keeps R (m >>= f)
  unfolding ◌>>=◌
  >>=-Keeps m f h k = record { keeps = λ db. after_continue f db (m db) (h.keeps db) k }
