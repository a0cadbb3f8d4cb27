-- ===== src/Payments/Graph.antt =====
-- The state diagram that the table allows, guards aside, and what it makes of a payment's life.
use oscar_payment_gateway.Prelude.{◌≡◌, refl, true}
use oscar_payment_gateway.Payments.{PaymentStatus, is_terminal}
use oscar_payment_gateway.Payments.Table.{
  IsRow, pending_matched, matched_confirming, confirming_confirming, confirming_confirmed,
  matched_failed, confirming_failed, pending_expired,
}

infix 40 ◌⟶*◌
pub data ◌⟶*◌ : PaymentStatus → PaymentStatus → Type 0 where
  here : {s : PaymentStatus} → s ⟶* s
  step : {s t u : PaymentStatus} → IsRow s t → t ⟶* u → s ⟶* u

pub ⟶*_trans : {s t u : PaymentStatus} → s ⟶* t → t ⟶* u → s ⟶* u
⟶*_trans here q = q
⟶*_trans (step r p) q = step r (⟶*_trans p q)

row_from_terminal : {s t : PaymentStatus} → IsRow s t → is_terminal s ≡ true → ⊥
row_from_terminal pending_matched h = cc
row_from_terminal matched_confirming h = cc
row_from_terminal confirming_confirming h = cc
row_from_terminal confirming_confirmed h = cc
row_from_terminal matched_failed h = cc
row_from_terminal confirming_failed h = cc
row_from_terminal pending_expired h = cc

-- A terminal state is left by no path of the diagram.
pub terminal_absorbs : {s t : PaymentStatus} → s ⟶* t → is_terminal s ≡ true → t ≡ s
terminal_absorbs here h = refl
terminal_absorbs (step r p) h = absurd (row_from_terminal r h)
