-- ===== src/Ingestion/Firsts.antt =====
-- Events in the order of their insertion, and the first of two optional documents
-- (src/application/ingestion/event-ingestion-service.ts).
use oscar_payment_gateway.Prelude.{
  ℕ, ◌≡◌, refl, sym, ap, Bool, true, false, ◌||◌, Option, none, some, List, [], ◌∷◌, ◌++◌, find,
  filter, All, Bool-cases, inl, inr, if◌then◌else◌, is_some, ==→eq, opt_eq, arith,
}
use oscar_payment_gateway.Store.{Event}

abbrev pub or_else : {A : Type 0} → Option A → Option A → Option A
or_else (some a) o = some a
or_else none o = o

pub find-append :
    (p : Event → Bool) (es : List Event) (d : Event)
    → find p (es ++ d ∷ []) ≡ or_else (find p es) (if p d then some d else none)
find-append p [] d = refl
find-append p (e ∷ es) d = elim (Bool-cases (p e)) [
  | inl here' ↦ rw here' refl
  | inr not_here ↦ rw not_here (find-append p es d)
]

pub filter-append :
    (p : Event → Bool) (es : List Event) (d : Event)
    → filter p (es ++ d ∷ []) ≡ filter p es ++ (if p d then d ∷ [] else [])
filter-append p [] d = refl
filter-append p (e ∷ es) d = elim (Bool-cases (p e)) [
  | inl kept ↦ rw kept (ap (λ l. e ∷ l) (filter-append p es d))
  | inr left_out ↦ rw left_out (filter-append p es d)
]

abbrev pub to_list : {A : Type 0} → Option A → List A
to_list none = []
to_list (some a) = a ∷ []

pub is_some-none : {A : Type 0} (o : Option A) → is_some o ≡ false → o ≡ none
is_some-none none h = refl
is_some-none (some a) h = absurd (ground arith)

pub opt_eq→eq : (a b : Option ℕ) → opt_eq a b ≡ true → a ≡ b
opt_eq→eq none none h = refl
opt_eq→eq none (some b) h = absurd (ground arith)
opt_eq→eq (some a) none h = absurd (ground arith)
opt_eq→eq (some a) (some b) h = ap some (==→eq a b h)

abbrev pub AllOf : (Event → Type 0) → Option Event → Type 0
AllOf P none = Unit
AllOf P (some d) = P d

pub All-append :
    (P : Event → Type 0) (es : List Event) (d : Event) → All P es → P d → All P (es ++ d ∷ [])
All-append P [] d h k = (k, tt)
All-append P (e ∷ es) d (h, hs) k = (h, All-append P es d hs k)

pub or_else-none : {A : Type 0} (o : Option A) → or_else o none ≡ o
or_else-none none = refl
or_else-none (some a) = refl

pub or_else-some : {A : Type 0} (o p : Option A) → is_some o ≡ true → o ≡ or_else o p
or_else-some none p h = absurd (ground arith)
or_else-some (some a) p h = refl

pub or_else_assoc :
    {A : Type 0} (o p q : Option A) → or_else (or_else o p) q ≡ or_else o (or_else p q)
or_else_assoc none p q = refl
or_else_assoc (some a) p q = refl

pub ||-implied : (p q : Bool) → (q ≡ true → p ≡ true) → (p || q) ≡ p
||-implied true q k = refl
||-implied false true k = sym (k refl)
||-implied false false k = refl
