-- ===== src/Examples/Audits.antt =====
-- The audit log at two concrete rows, with a digest that tells them apart.
use oscar_payment_gateway.Prelude.{◌+◌, ◌*◌, ◌≡◌, refl, none, some, [], ◌∷◌, get_or, arith}
use oscar_payment_gateway.Store.{Key}
use oscar_payment_gateway.Audit.{
  AuditHashPayload, AuditDb, AuditRow, ChainHead, AppendAuditEntry, system, new_row, first_head,
  append_row, append_audit_entry, verify_audit_chain, valid,
}
use oscar_payment_gateway.Audit.Appends.{
  after_append, IsAppended, start, append, appended_log_verifies,
}
use oscar_payment_gateway.Audit.Success.{fresh_append_succeeds}
use oscar_payment_gateway.Audit.Tamper.{
  first, later, IsCollisionFree, rows_of, verified_scope_unique,
}

abbrev digest : AuditHashPayload → Key
digest p = p.sequence * 100 + p.audit_id

abbrev note_in : Key → AppendAuditEntry
note_in scope = record {
  scope = scope;
  entity_type = 1;
  entity_id = 7;
  action = 2;
  actor_type = system;
  actor_id = 3;
  before = none;
  after = some 4;
  event_id = none;
  transaction_hash = none;
  metadata = none;
  occurred_at = none;
}

abbrev empty_log : AuditDb
empty_log = record { log = []; heads = λ _. none }

abbrev one_row : AuditDb
one_row = after_append digest (note_in 9) 31 500 empty_log

abbrev two_rows : AuditDb
two_rows = after_append digest (note_in 9) 32 600 one_row

first_append : append_audit_entry digest (note_in 9) 31 500 empty_log ≡ some one_row
unfolding append_audit_entry append_row
first_append = refl

one_row-IsAppended : IsAppended digest one_row
one_row-IsAppended = append (note_in 9) 31 500 start first_append

fresh_append_succeeds_example : append_audit_entry digest (note_in 9) 32 600 one_row ≡ some two_rows
fresh_append_succeeds_example =
    fresh_append_succeeds digest (note_in 9) 32 600 one_row one_row-IsAppended refl refl

second_append : append_audit_entry digest (note_in 9) 32 600 one_row ≡ some two_rows
unfolding append_audit_entry append_row
second_append = refl

two_rows-IsAppended : IsAppended digest two_rows
two_rows-IsAppended = append (note_in 9) 32 600 one_row-IsAppended second_append

appended_log_verifies_example : verify_audit_chain digest 9 two_rows ≡ valid 2
appended_log_verifies_example = appended_log_verifies digest two_rows 9 two_rows-IsAppended

two_rows_verify : verify_audit_chain digest 9 two_rows ≡ valid 2
two_rows_verify = appended_log_verifies digest two_rows 9 two_rows-IsAppended

abbrev head_of_two : ChainHead
head_of_two = get_or (two_rows.heads 9) first_head

abbrev row_one : AuditRow
row_one = new_row digest (note_in 9) 31 500 first_head

abbrev row_two : AuditRow
row_two = new_row digest (note_in 9) 32 600 (get_or (one_row.heads 9) first_head)

two_rows-IsCollisionFree : IsCollisionFree digest (row_one ∷ row_two ∷ []) (row_one ∷ row_two ∷ [])
two_rows-IsCollisionFree a b first first e = refl
two_rows-IsCollisionFree a b first (later first) e = absurd (ground arith)
two_rows-IsCollisionFree a b (later first) first e = absurd (ground arith)
two_rows-IsCollisionFree a b (later first) (later first) e = refl
two_rows-IsCollisionFree _ b first (later (later i)) e = elim i [ ]
two_rows-IsCollisionFree _ b (later first) (later (later i)) e = elim i [ ]
two_rows-IsCollisionFree a b (later (later i)) _ e = elim i [ ]

verified_scope_unique_example : rows_of 9 two_rows ≡ rows_of 9 two_rows
verified_scope_unique_example =
    verified_scope_unique digest 9 two_rows two_rows head_of_two 2 2 refl refl
      two_rows-IsCollisionFree two_rows_verify two_rows_verify
