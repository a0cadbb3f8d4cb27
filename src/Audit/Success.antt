-- ===== src/Audit/Success.antt =====
-- When `appendAuditEntryInTransaction` meets no conflict
-- (src/infrastructure/mongodb/audit-service.ts).
use oscar_payment_gateway.Prelude.{
  ℕ, ◌+◌, ◌≤◌, ◌≡◌, refl, ◌∙◌, sym, Bool, true, false, ◌||◌, some, List, [], ◌∷◌, ◌==◌, ==_refl,
  Bool-cases, inl, inr, any, filter, get_or, arith,
}
use oscar_payment_gateway.Store.{Key}
use oscar_payment_gateway.Audit.{
  AuditHashPayload, AuditRow, AuditDb, AppendAuditEntry, genesis_hash, in_scope, scope_of,
  first_head, collides, new_row, append_row, append_audit_entry,
}
use oscar_payment_gateway.Audit.Chain.{Chain}
use oscar_payment_gateway.Audit.Appends.{
  IsAppended, IsAppended-IsWellFormed, after_append, head-Chain,
}

abbrev pub shares_id : AuditRow → AuditRow → Bool
shares_id row other = row.payload.audit_id == other.payload.audit_id

abbrev pub shares_hash : AuditRow → AuditRow → Bool
shares_hash row other = row.entry_hash == other.entry_hash

abbrev shares_sequence : AuditRow → AuditRow → Bool
shares_sequence row other = row.payload.sequence == other.payload.sequence

or-false : (a b : Bool) → (a || b) ≡ false → (a ≡ false) × (b ≡ false)
or-false true b h = absurd (ground arith)
or-false false b h = (refl, h)

-- A row whose sequence is new in its scope collides with none that has another identifier and hash.
collides_with_none :
    (row : AuditRow) (rows : List AuditRow)
    → any (shares_id row) rows ≡ false
    → any (shares_hash row) rows ≡ false
    → any (shares_sequence row) (filter (in_scope (scope_of row)) rows) ≡ false
    → any (collides row) rows ≡ false
collides_with_none row [] i h s = refl
collides_with_none row (other ∷ rows) i h s =
    let (i0, i1) = or-false (shares_id row other) (any (shares_id row) rows) i in
    let (h0, h1) = or-false (shares_hash row other) (any (shares_hash row) rows) h in
    let kept = filter (in_scope (scope_of row)) rows in
    elim (Bool-cases (scope_of other == scope_of row)) [
      | inl here ↦
          let s' : (shares_sequence row other || any (shares_sequence row) kept) ≡ false =
            sym (rw here) ∙ s in
          let (s0, s1) = or-false (shares_sequence row other) (any (shares_sequence row) kept) s' in
          let c : collides row other ≡ false = ground arith in
          rw c (collides_with_none row rows i1 h1 s1)
      | inr away ↦
          let s' : any (shares_sequence row) kept ≡ false = sym (rw away) ∙ s in
          let c : collides row other ≡ false = ground arith in
          rw c (collides_with_none row rows i1 h1 s')
    ]

module _ (digest : AuditHashPayload → Key) where
  -- The sequences of a chain's rows stay below its end.
  Chain-below :
      (row : AuditRow) (rows : List AuditRow) (n : ℕ) (p : Key) (m : ℕ) (h : Key)
      → Chain digest n p rows m h
      → m ≤ row.payload.sequence
      → (n ≤ m) × (any (shares_sequence row) rows ≡ false)
  Chain-below row [] n p m h (a, b) le = (omega arith, refl)
  Chain-below row (first ∷ rows) n p m h (a, b, c, rest) le =
      let (below, others) = Chain-below row rows (n + 1) first.entry_hash m h rest le in
      let apart : shares_sequence row first ≡ false = ground arith in (omega arith, rw apart others)

  -- An append to a log that appends made succeeds, and advances the head of the scope by one, when its
  -- identifier and its entry hash are new in the log: the sequence never conflicts.
  pub fresh_append_succeeds :
      (input : AppendAuditEntry) (uuid : Key) (now : ℕ) (db : AuditDb)
      → IsAppended digest db
      → any
          (shares_id (new_row digest input uuid now (get_or (db.heads input.scope) first_head)))
          db.log
        ≡ false
      → any
          (shares_hash (new_row digest input uuid now (get_or (db.heads input.scope) first_head)))
          db.log
        ≡ false
      → append_audit_entry digest input uuid now db ≡ some (after_append digest input uuid now db)
  unfolding append_audit_entry append_row
  fresh_append_succeeds input uuid now db made new_id new_hash =
      let head = get_or (db.heads input.scope) first_head in
      let row = new_row digest input uuid now head in
      let chain =
        head-Chain digest (db.heads input.scope) (filter (in_scope input.scope) db.log)
          (IsAppended-IsWellFormed digest made input.scope) in
      let new_sequence =
        (Chain-below row (filter (in_scope input.scope) db.log) 1 genesis_hash (head.sequence + 1)
          head.entry_hash chain (omega arith)).1 in
      let free : any (collides row) db.log ≡ false =
        collides_with_none row db.log new_id new_hash new_sequence in
      rw (free, ==_refl input.scope, ==_refl head.sequence, ==_refl head.version)
