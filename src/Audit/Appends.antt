-- ===== src/Audit/Appends.antt =====
-- Logs that `appendAuditEntryInTransaction` made, and their verification
-- (src/infrastructure/mongodb/audit-service.ts).
use oscar_payment_gateway.Prelude.{
  ℕ, ◌+◌, ◌≡◌, refl, ◌∙◌, sym, subst, Bool, false, Option, none, some, List, [], ◌∷◌, ◌++◌, ◌==◌,
  ==→eq, ==_refl, Bool-cases, inl, inr, if◌then◌else◌, any, filter, length, get_or, put, arith,
}
use mathlib.Core.Option.{some-injective}
use oscar_payment_gateway.Store.{Key}
use oscar_payment_gateway.Audit.{
  AuditHashPayload, AuditRow, AuditDb, ChainHead, AppendAuditEntry, genesis_hash, in_scope,
  verify_audit_chain, valid, first_head, collides, new_row, append_row, append_audit_entry,
}
use oscar_payment_gateway.Audit.Chain.{
  Chain, Chain-append, IsChainOf, IsWellFormed, IsWellFormed-verify,
}

filter-snoc :
    (p : AuditRow → Bool) (rows : List AuditRow) (row : AuditRow)
    → filter p (rows ++ row ∷ []) ≡ (if p row then filter p rows ++ row ∷ [] else filter p rows)
filter-snoc p [] row = ground arith
filter-snoc p (first ∷ rows) row =
    let ih = filter-snoc p rows row in
    elim (Bool-cases (p first)) [
      | inl here ↦ rw (here, ih) (ground arith)
      | inr away ↦ rw (away, ih)
    ]

module _ (digest : AuditHashPayload → Key) where
  pub head-Chain :
      (head : Option ChainHead) (rows : List AuditRow)
      → IsChainOf digest head rows
      → Chain digest 1 genesis_hash rows
          ((get_or head first_head).sequence + 1)
          (get_or head first_head).entry_hash
  head-Chain none rows none_yet = rw none_yet (refl, refl)
  head-Chain (some head) rows (pos, chain) = chain

  -- The log after an append that met no conflict.
  abbrev pub after_append : AppendAuditEntry → Key → ℕ → AuditDb → AuditDb
  after_append input uuid now db =
      let head = get_or (db.heads input.scope) first_head in
      let row = new_row digest input uuid now head in
      record {
        log = db.log ++ row ∷ [];
        heads =
            put input.scope
              (record {
                sequence = head.sequence + 1;
                entry_hash = row.entry_hash;
                version = head.version + 1;
              })
              (put input.scope head db.heads);
      }

  append_result :
      (input : AppendAuditEntry) (uuid : Key) (now : ℕ) (db db' : AuditDb)
      → append_audit_entry digest input uuid now db ≡ some db'
      → after_append input uuid now db ≡ db'
  unfolding append_audit_entry append_row
  append_result input uuid now db db' e =
      let head = get_or (db.heads input.scope) first_head in
      let row = new_row digest input uuid now head in
      let here = ==_refl input.scope in
      let sequence = ==_refl head.sequence in
      let version = ==_refl head.version in
      elim (Bool-cases (any (collides row) db.log)) [
        | inl clash ↦
            let run : append_audit_entry digest input uuid now db ≡ none = rw clash in
            absurd (ground arith)
        | inr free ↦
            let run : append_audit_entry digest input uuid now db
                ≡ some (after_append input uuid now db) =
              rw (free, here, sequence, version) in
            some-injective _ _ (sym run ∙ e)
      ]

  after_append-IsWellFormed :
      (input : AppendAuditEntry) (uuid : Key) (now : ℕ) (db : AuditDb)
      → IsWellFormed digest db
      → IsWellFormed digest (after_append input uuid now db)
  after_append-IsWellFormed input uuid now db fine s =
      let head = get_or (db.heads input.scope) first_head in
      let row = new_row digest input uuid now head in
      elim (Bool-cases (input.scope == s)) [
        | inl here ↦
            subst
              (λ (x : Key).
                IsChainOf digest ((after_append input uuid now db).heads x)
                  (filter (in_scope x) (after_append input uuid now db).log))
              (==→eq input.scope s here)
              (rw
                (
                  ==_refl input.scope,
                  filter-snoc (in_scope input.scope) db.log row,
                  ==_refl input.scope,
                )
                (
                  omega arith,
                  Chain-append digest (filter (in_scope input.scope) db.log) row 1 genesis_hash
                      (head.sequence + 1) head.entry_hash
                      (head-Chain (db.heads input.scope) (filter (in_scope input.scope) db.log)
                        (fine input.scope))
                      refl refl refl,
                ))
        | inr away ↦
            let apart : (s == input.scope) ≡ false = ground arith in
            rw (apart, filter-snoc (in_scope s) db.log row, away) (fine s)
      ]

  -- What a sequence of appends to the empty log makes.
  pub data IsAppended : AuditDb → Type 0 where
    start : IsAppended (record { log = []; heads = λ _. none })
    append :
        (input : AppendAuditEntry) (uuid : Key) (now : ℕ) {db db' : AuditDb}
        → IsAppended db
        → append_audit_entry digest input uuid now db ≡ some db'
        → IsAppended db'

  pub IsAppended-IsWellFormed : {db : AuditDb} → IsAppended db → IsWellFormed digest db
  IsAppended-IsWellFormed start = λ scope. refl
  IsAppended-IsWellFormed (append input uuid now {db} {db'} before ran) =
      subst (IsWellFormed digest) (append_result input uuid now db db' ran)
        (after_append-IsWellFormed input uuid now db (IsAppended-IsWellFormed before))

  -- A log that appends made verifies in every scope, with all of the scope's rows checked.
  pub appended_log_verifies :
      (db : AuditDb) (scope : Key)
      → IsAppended db
      → verify_audit_chain digest scope db ≡ valid (length (filter (in_scope scope) db.log))
  appended_log_verifies db scope made =
      IsWellFormed-verify digest db scope (IsAppended-IsWellFormed made)
