-- ===== src/Prelude/Finds.antt =====
-- What a search by a test returns.
use mathlib.Core.Path.{◌≡◌, sym, ap, ◌∙◌}
use mathlib.Core.Logic.{inl, inr}
use mathlib.Core.Bool.{Bool, true}
use mathlib.Core.Option.{some, some-injective}
use mathlib.Core.List.{List, [], ◌∷◌, Memᴰ}
use native.Mathlib.Omega.{arith}
use oscar_payment_gateway.Prelude.Tests.{Bool-cases}
use oscar_payment_gateway.Prelude.Lists.{find}

pub find-fits : {A : Type 0} (p : A → Bool) (xs : List A) (a : A) → find p xs ≡ some a → p a ≡ true
find-fits p [] a h = absurd (ground arith)
find-fits p (x ∷ xs) a h = elim (Bool-cases (p x)) [
  | inl here' ↦ ap p (sym (some-injective _ _ (rw here' at h))) ∙ here'
  | inr later ↦ find-fits p xs a (rw later at h)
]

pub find-mem : {A : Type 0} (p : A → Bool) (xs : List A) (a : A) → find p xs ≡ some a → Memᴰ a xs
find-mem p [] a h = absurd (ground arith)
find-mem p (x ∷ xs) a h = elim (Bool-cases (p x)) [
  | inl here' ↦ Memᴰ.head (sym (some-injective _ _ (rw here' at h)))
  | inr later ↦ Memᴰ.tail (find-mem p xs a (rw later at h))
]
