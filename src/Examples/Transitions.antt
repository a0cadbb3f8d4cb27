-- ===== src/Examples/Transitions.antt =====
-- The transition table at concrete attempts.
use oscar_payment_gateway.Prelude.{◌≡◌, ◌↔◌, refl}
use oscar_payment_gateway.Payments.{confirming, confirmed, evaluate_payment_transition, legal}
use oscar_payment_gateway.Payments.Table.{Permits, evaluate_iff_Permits}
use oscar_payment_gateway.Examples.Samples.{guard}

deep_is_legal : evaluate_payment_transition (guard confirming confirmed 3) ≡ legal
unfolding evaluate_payment_transition
deep_is_legal = refl

evaluate_iff_Permits_example :
    (evaluate_payment_transition (guard confirming confirmed 3) ≡ legal)
    ↔ Permits (guard confirming confirmed 3) confirming confirmed
evaluate_iff_Permits_example = evaluate_iff_Permits (guard confirming confirmed 3)
