-- ===== src/Payments/Table.antt =====
-- The transition table of ADR 0011 as a relation, and that the evaluator decides it.
use oscar_payment_gateway.Prelude.{◌+◌, ◌≤◌, ◌<◌, ◌≡◌, ◌↔◌, ◌⊎◌, inl, inr, refl, true, false, arith}
use oscar_payment_gateway.Payments.{
  PaymentStatus, pending, matched, confirming, confirmed, expired, failed, TransitionGuardInput,
  legal, rejected, illegal_transition, evaluate_payment_transition,
}

-- The rows of the table, each with its guard.
pub data Permits (i : TransitionGuardInput) : PaymentStatus → PaymentStatus → Type 0 where
  match_in_time :
      i.now ≤ i.expires_at → i.qualifying_event_claimed ≡ true → Permits i pending matched
  start_confirming : i.canonical ≡ true → Permits i matched confirming
  keep_confirming : i.confirmations < i.required_confirmations → Permits i confirming confirming
  confirm :
      i.required_confirmations ≤ i.confirmations
      → i.canonical ≡ true
      → i.compliance_clear ≡ true
      → Permits i confirming confirmed
  fail_matched :
      i.canonical ≡ false → i.expires_at + i.reorg_grace_ms < i.now → Permits i matched failed
  fail_confirming :
      i.canonical ≡ false → i.expires_at + i.reorg_grace_ms < i.now → Permits i confirming failed
  expire : i.expires_at < i.now → i.qualifying_event_claimed ≡ false → Permits i pending expired

ruleset rows = (
  match_in_time, start_confirming, keep_confirming, confirm, fail_matched, fail_confirming, expire,
)

table_sound :
    (i : TransitionGuardInput) (f t : PaymentStatus)
    → i.from ≡ f
    → i.to ≡ t
    → evaluate_payment_transition i ≡ legal
    → Permits i f t
unfolding evaluate_payment_transition
table_sound i pending pending p q h = ground arith
table_sound i pending matched p q h = grind (arith, rows)
table_sound i pending expired p q h = grind (arith, rows)
table_sound i matched confirming p q h = grind (arith, rows)
table_sound i matched failed p q h = grind (arith, rows)
table_sound i confirming confirming p q h = grind (arith, rows)
table_sound i confirming confirmed p q h = grind (arith, rows)
table_sound i confirming failed p q h = grind (arith, rows)
table_sound i f t p q h = ground arith

table_complete :
    (i : TransitionGuardInput) {f t : PaymentStatus}
    → Permits i f t
    → i.from ≡ f
    → i.to ≡ t
    → evaluate_payment_transition i ≡ legal
unfolding evaluate_payment_transition
table_complete i (match_in_time a b) p q = ground arith
table_complete i (start_confirming a) p q = ground arith
table_complete i (keep_confirming a) p q = ground arith
table_complete i (confirm a b c) p q = ground arith
table_complete i (fail_matched a b) p q = ground arith
table_complete i (fail_confirming a b) p q = ground arith
table_complete i (expire a b) p q = ground arith

-- The evaluator answers "legal" exactly when a row of the table with its guard permits the attempted
-- transition.
pub evaluate_iff_Permits :
    (i : TransitionGuardInput) → (evaluate_payment_transition i ≡ legal) ↔ Permits i i.from i.to
evaluate_iff_Permits i = (table_sound i i.from i.to refl refl, λ h. table_complete i h refl refl)

-- Whether a pair of states stands in the table at all, guards aside.
pub data IsRow : PaymentStatus → PaymentStatus → Type 0 where
  pending_matched : IsRow pending matched
  matched_confirming : IsRow matched confirming
  confirming_confirming : IsRow confirming confirming
  confirming_confirmed : IsRow confirming confirmed
  matched_failed : IsRow matched failed
  confirming_failed : IsRow confirming failed
  pending_expired : IsRow pending expired

ruleset row_names = (
  pending_matched, matched_confirming, confirming_confirming, confirming_confirmed, matched_failed,
  confirming_failed, pending_expired,
)

pub Permits-IsRow : {i : TransitionGuardInput} {f t : PaymentStatus} → Permits i f t → IsRow f t
Permits-IsRow (match_in_time a b) = pending_matched
Permits-IsRow (start_confirming a) = matched_confirming
Permits-IsRow (keep_confirming a) = confirming_confirming
Permits-IsRow (confirm a b c) = confirming_confirmed
Permits-IsRow (fail_matched a b) = matched_failed
Permits-IsRow (fail_confirming a b) = confirming_failed
Permits-IsRow (expire a b) = pending_expired

named_illegal :
    (i : TransitionGuardInput) (f t : PaymentStatus)
    → i.from ≡ f
    → i.to ≡ t
    → evaluate_payment_transition i ≡ rejected illegal_transition
    → IsRow f t
    → ⊥
unfolding evaluate_payment_transition
named_illegal i f t p q h pending_matched = ground arith
named_illegal i f t p q h matched_confirming = ground arith
named_illegal i f t p q h confirming_confirming = ground arith
named_illegal i f t p q h confirming_confirmed = ground arith
named_illegal i f t p q h matched_failed = ground arith
named_illegal i f t p q h confirming_failed = ground arith
named_illegal i f t p q h pending_expired = ground arith

off_table :
    (i : TransitionGuardInput) (f t : PaymentStatus)
    → i.from ≡ f
    → i.to ≡ t
    → (evaluate_payment_transition i ≡ rejected illegal_transition) ⊎ IsRow f t
unfolding evaluate_payment_transition
off_table i pending matched p q = inr pending_matched
off_table i pending expired p q = inr pending_expired
off_table i matched confirming p q = inr matched_confirming
off_table i matched failed p q = inr matched_failed
off_table i confirming confirming p q = inr confirming_confirming
off_table i confirming confirmed p q = inr confirming_confirmed
off_table i confirming failed p q = inr confirming_failed
off_table i f t p q = inl (ground arith)

-- The reason `illegal_transition` is given exactly for the pairs of states that no row of the table
-- names; a failed guard of a row is reported by another reason.
pub illegal_iff_off_table :
    (i : TransitionGuardInput)
    → (evaluate_payment_transition i ≡ rejected illegal_transition) ↔ (¬ IsRow i.from i.to)
illegal_iff_off_table i = (
  named_illegal i i.from i.to refl refl,
  λ no_row. elim (off_table i i.from i.to refl refl) [ inl e ↦ e | inr row ↦ absurd (no_row row) ],
)
