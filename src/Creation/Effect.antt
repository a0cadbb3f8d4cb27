-- ===== src/Creation/Effect.antt =====
-- The transaction of a creation as a state monad with errors: a throw discards what it wrote
-- (src/infrastructure/mongodb/transactions.ts).
use oscar_payment_gateway.Prelude.{◌≡◌, refl, ap, subst, Bool, true, false, Option, none, some}
use oscar_payment_gateway.Creation.Documents.{Books}

-- The errors of the service, `type_error` and `duplicate_key` being those of the calls it makes.
pub data CreateError : Type 0 where
  validation not_found internal unavailable compliance_hold rate_limited : CreateError
  idempotency_conflict conflict type_error duplicate_key : CreateError

pub data Ran (A : Type 0) : Type 0 where
  returned : A → Books → Ran A
  raised : CreateError → Ran A

abbrev pub Step : Type 0 → Type 0
Step A = Books → Ran A

unfoldable pub ok : {A : Type 0} → A → Step A
ok a b = returned a b

unfoldable pub raise : {A : Type 0} → CreateError → Step A
raise e b = raised e

unfoldable pub get_books : {A : Type 0} → (Books → A) → Step A
get_books f b = returned (f b) b

abbrev pub require : Bool → CreateError → Step (Unit {0})
require true e b = returned tt b
require false e b = raised e

abbrev pub some_or : {A : Type 0} → Option A → CreateError → Step A
some_or (some a) e b = returned a b
some_or none e b = raised e

-- A write that may be refused.
abbrev pub write_or : CreateError → (Books → Option Books) → Step (Unit {0})
write_or e f b = elim (f b) [ some c ↦ returned tt c | none ↦ raised e ]

abbrev pub continue_with : {A B : Type 0} → (A → Step B) → Ran A → Ran B
continue_with f (returned a b) = f a b
continue_with f (raised e) = raised e

infixl 5 ◌>>=◌ ◌>>◌
unfoldable pub ◌>>=◌ : {A B : Type 0} → Step A → (A → Step B) → Step B
unfolding ok raise get_books
◌>>=◌ m f b = continue_with f (m b)

abbrev pub ◌>>◌ : {B : Type 0} → Step (Unit {0}) → Step B → Step B
m >> k = m >>= λ _. k

pub returned-value : {A : Type 0} {a c : A} {b d : Books} → returned a b ≡ returned c d → a ≡ c
returned-value {A} {a} {c} e = ap (value_or a) e
  where
    value_or : A → Ran A → A
    value_or x (returned y b) = y
    value_or x (raised e) = x

pub returned-books : {A : Type 0} {a c : A} {b d : Books} → returned a b ≡ returned c d → b ≡ d
returned-books {A} {a} {c} {b} e = ap (books_or b) e
  where
    books_or : Books → Ran A → Books
    books_or x (returned y b) = b
    books_or x (raised e) = x

pub raised≢returned :
    {A : Type 0} {e : CreateError} {a : A} {b : Books} → raised e ≡ returned a b → ⊥
raised≢returned {A} h = subst IsRaised h tt
  where
    IsRaised : Ran A → Type 0
    IsRaised (raised e) = Unit
    IsRaised (returned a b) = ⊥

-- What a sequence that returns has done, for each kind of first step.
module _ {A B : Type 0} (f : A → Step B) (b after : Books) (a : B) where
  pub step-returned :
      (m : Step A)
      → (m >>= f) b ≡ returned a after
      → (x : A) × (mid : Books) × (m b ≡ returned x mid) × (f x mid ≡ returned a after)
  unfolding ◌>>=◌
  step-returned m h = go (m b) refl h
    where
      go :
          (r : Ran A)
          → m b ≡ r
          → continue_with f r ≡ returned a after
          → (x : A) × (mid : Books) × (m b ≡ returned x mid) × (f x mid ≡ returned a after)
      go (returned x mid) e k = (x, mid, e, k)
      go (raised r) e k = absurd (raised≢returned k)

  pub some_or-returned :
      (o : Option A) (e : CreateError)
      → (some_or o e >>= f) b ≡ returned a after
      → (x : A) × (o ≡ some x) × (f x b ≡ returned a after)
  unfolding ◌>>=◌
  some_or-returned none e h = absurd (raised≢returned h)
  some_or-returned (some x) e h = (x, refl, h)

  pub get_books-returned :
      (g : Books → A) → (get_books g >>= f) b ≡ returned a after → f (g b) b ≡ returned a after
  unfolding ◌>>=◌
  get_books-returned g h = h

module _ {B : Type 0} (k : Step B) (b after : Books) (a : B) where
  pub require-returned :
      (t : Bool) (e : CreateError)
      → (require t e >> k) b ≡ returned a after
      → (t ≡ true) × (k b ≡ returned a after)
  unfolding ◌>>=◌
  require-returned true e h = (refl, h)
  require-returned false e h = absurd (raised≢returned h)

  pub write_or-returned :
      (e : CreateError) (w : Books → Option Books)
      → (write_or e w >> k) b ≡ returned a after
      → (mid : Books) × (w b ≡ some mid) × (k mid ≡ returned a after)
  unfolding ◌>>=◌
  write_or-returned e w h = go (w b) refl h
    where
      go :
          (o : Option Books)
          → w b ≡ o
          → continue_with (λ _. k) (elim o [ some c ↦ returned tt c | none ↦ raised e ])
            ≡ returned a after
          → (mid : Books) × (w b ≡ some mid) × (k mid ≡ returned a after)
      go (some mid) s h = (mid, s, h)
      go none s h = absurd (raised≢returned h)

pub ok-returned :
    {A : Type 0} (x a : A) (b after : Books) → ok x b ≡ returned a after → (x ≡ a) × (b ≡ after)
unfolding ok
ok-returned x a b after h = (returned-value h, returned-books h)
