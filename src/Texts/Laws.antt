-- ===== src/Texts/Laws.antt =====
-- Equality of texts.
use oscar_payment_gateway.Prelude.{◌≡◌, refl, ap, ◌∙◌, true, [], ◌∷◌, ==_refl, ==→eq, arith}
use oscar_payment_gateway.Store.{Text}
use oscar_payment_gateway.Texts.{text_eq}

pub text_eq_refl : (t : Text) → text_eq t t ≡ true
text_eq_refl [] = refl
text_eq_refl (c ∷ t) = rw (==_refl c) (text_eq_refl t)

pub text_eq→eq : (s t : Text) → text_eq s t ≡ true → s ≡ t
text_eq→eq [] [] h = refl
text_eq→eq [] (b ∷ t) h = absurd (ground arith)
text_eq→eq (a ∷ s) [] h = absurd (ground arith)
text_eq→eq (a ∷ s) (b ∷ t) h =
    let head : a ≡ b = ==→eq a b (ground arith) in
    let tail : s ≡ t = text_eq→eq s t (ground arith) in ap (λ x. x ∷ s) head ∙ ap (λ r. b ∷ r) tail
