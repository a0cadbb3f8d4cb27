-- ===== src/Audit/Chain.antt =====
-- The rows that the verification of a scope accepts, and that appending keeps.
use oscar_payment_gateway.Prelude.{
  ℕ, ◌+◌, ◌<◌, ◌≡◌, refl, ap, ◌∙◌, true, false, Option, none, some, List, [], ◌∷◌, ◌++◌, ◌==◌,
  ==_refl, filter, length, arith, ltb,
}
use oscar_payment_gateway.Store.{Key}
use oscar_payment_gateway.Audit.{
  AuditHashPayload, AuditRow, AuditDb, ChainHead, genesis_hash, in_scope, insert_row, sort_rows,
  reached, check_entries, check_head, verify_audit_chain, valid,
}

module _ (digest : AuditHashPayload → Key) where
  -- The rows continue a chain from sequence `n` after hash `p`, and end before `m` with hash `h`.
  abbrev pub Chain : ℕ → Key → List AuditRow → ℕ → Key → Type 0
  Chain n p [] m h = (m ≡ n) × (h ≡ p)
  Chain n p (row ∷ rows) m h =
      (row.payload.sequence ≡ n)
      × (row.payload.previous_hash ≡ p)
      × (digest row.payload ≡ row.entry_hash)
      × Chain (n + 1) row.entry_hash rows m h

  pub Chain-length :
      (rows : List AuditRow) (n : ℕ) (p : Key) (m : ℕ) (h : Key)
      → Chain n p rows m h
      → m ≡ n + length rows
  Chain-length [] n p m h (a, b) = omega arith
  Chain-length (row ∷ rows) n p m h (a, b, c, rest) =
      let ih = Chain-length rows (n + 1) row.entry_hash m h rest in omega arith

  pub check_entries-Chain :
      (rows : List AuditRow) (n : ℕ) (p : Key) (m : ℕ) (h : Key)
      → check_entries digest n p rows ≡ reached m h
      → Chain n p rows m h
  unfolding check_entries
  check_entries-Chain [] n p m h e = (ground arith, ground arith)
  check_entries-Chain (row ∷ rows) n p m h e = (
    ground arith,
    ground arith,
    ground arith,
    check_entries-Chain rows (n + 1) row.entry_hash m h (ground arith),
  )

  pub Chain-check_entries :
      (rows : List AuditRow) (n : ℕ) (p : Key) (m : ℕ) (h : Key)
      → Chain n p rows m h
      → check_entries digest n p rows ≡ reached m h
  unfolding check_entries
  Chain-check_entries [] n p m h (a, b) = rw (a, b)
  Chain-check_entries (row ∷ rows) n p m h (a, b, c, rest) =
      let t : (row.payload.sequence == n) ≡ true = rw a (==_refl n) in
      let u : (row.payload.previous_hash == p) ≡ true = rw b (==_refl p) in
      let v : (digest row.payload == row.entry_hash) ≡ true = rw c (==_refl row.entry_hash) in
      rw (t, u, v) (Chain-check_entries rows (n + 1) row.entry_hash m h rest)

  -- Rows of a chain are in the order of their sequences.
  insert_row-Chain :
      (row : AuditRow) (rows : List AuditRow) (n : ℕ) (p : Key) (m : ℕ) (h : Key)
      → row.payload.sequence ≡ n
      → Chain (n + 1) p rows m h
      → insert_row row rows ≡ row ∷ rows
  insert_row-Chain row [] n p m h e c = refl
  insert_row-Chain row (other ∷ rows) n p m h e (a, b, c, rest) =
      let after : ltb other.payload.sequence row.payload.sequence ≡ false = ground arith in rw after

  pub sort_rows-Chain :
      (rows : List AuditRow) (n : ℕ) (p : Key) (m : ℕ) (h : Key)
      → Chain n p rows m h
      → sort_rows rows ≡ rows
  sort_rows-Chain [] n p m h c = refl
  sort_rows-Chain (row ∷ rows) n p m h (a, b, c, rest) =
      rw (sort_rows-Chain rows (n + 1) row.entry_hash m h rest)
        (insert_row-Chain row rows n row.entry_hash m h a rest)

  pub Chain-append :
      (rows : List AuditRow) (row : AuditRow) (n : ℕ) (p : Key) (m : ℕ) (h : Key)
      → Chain n p rows m h
      → row.payload.sequence ≡ m
      → row.payload.previous_hash ≡ h
      → digest row.payload ≡ row.entry_hash
      → Chain n p (rows ++ row ∷ []) (m + 1) row.entry_hash
  Chain-append [] row n p m h (a, b) s q d = (s ∙ a, q ∙ b, d, (ap (λ (x : ℕ). x + 1) a, refl))
  Chain-append (first ∷ rows) row n p m h (a, b, c, rest) s q d =
      (a, b, c, Chain-append rows row (n + 1) first.entry_hash m h rest s q d)

  -- A scope without a head has no rows; any other has the rows that lead from the genesis to its head.
  abbrev pub IsChainOf : Option ChainHead → List AuditRow → Type 0
  IsChainOf none rows = rows ≡ []
  IsChainOf (some head) rows =
      (0 < head.sequence) × Chain 1 genesis_hash rows (head.sequence + 1) head.entry_hash

  abbrev pub IsWellFormed : AuditDb → Type 0
  IsWellFormed db = (scope : Key) → IsChainOf (db.heads scope) (filter (in_scope scope) db.log)

  IsChainOf-check :
      (head : Option ChainHead) (rows : List AuditRow)
      → IsChainOf head rows
      → check_head digest
          (length (sort_rows rows))
          (check_entries digest 1 genesis_hash (sort_rows rows))
          head
        ≡ valid (length rows)
  unfolding check_head check_entries
  IsChainOf-check none rows none_yet = rw none_yet
  IsChainOf-check (some head) rows (pos, chain) =
      let sorted = sort_rows-Chain rows 1 genesis_hash (head.sequence + 1) head.entry_hash chain in
      let run = Chain-check_entries rows 1 genesis_hash (head.sequence + 1) head.entry_hash chain in
      let count : head.sequence ≡ length rows =
        (let l = Chain-length rows 1 genesis_hash (head.sequence + 1) head.entry_hash chain in
          omega arith) in
      rw sorted (rw run (ground arith))

  pub IsWellFormed-verify :
      (db : AuditDb) (scope : Key)
      → IsWellFormed db
      → verify_audit_chain digest scope db ≡ valid (length (filter (in_scope scope) db.log))
  unfolding verify_audit_chain
  IsWellFormed-verify db scope fine =
      IsChainOf-check (db.heads scope) (filter (in_scope scope) db.log) (fine scope)
