-- ===== src/Audit/Tamper.antt =====
-- What the verification of a scope protects (src/infrastructure/mongodb/audit-service.ts).
use oscar_payment_gateway.Prelude.{
  ℕ, ◌+◌, ◌≡◌, refl, ap, ◌∙◌, sym, subst, some, List, [], ◌∷◌, filter, length, arith,
}
use oscar_payment_gateway.Store.{Key}
use oscar_payment_gateway.Audit.{
  AuditHashPayload, AuditRow, AuditDb, ChainHead, genesis_hash, in_scope, sort_rows, Checked,
  reached, stopped, check_entries, check_head, verify_audit_chain, valid,
}
use oscar_payment_gateway.Audit.Chain.{Chain, Chain-length, check_entries-Chain}

-- A row of a list.
pub data IsRowOf (row : AuditRow) : List AuditRow → Type 0 where
  first : {rows : List AuditRow} → IsRowOf row (row ∷ rows)
  later : {other : AuditRow} {rows : List AuditRow} → IsRowOf row rows → IsRowOf row (other ∷ rows)

abbrev pub rows_of : Key → AuditDb → List AuditRow
rows_of scope db = sort_rows (filter (in_scope scope) db.log)

module _ (digest : AuditHashPayload → Key) where
  -- No two different payloads of the two lists have one digest.
  abbrev pub IsCollisionFree : List AuditRow → List AuditRow → Type 0
  IsCollisionFree rows others =
      (a b : AuditRow)
      → IsRowOf a rows
      → IsRowOf b others
      → digest a.payload ≡ digest b.payload
      → a.payload ≡ b.payload

  make_row : AuditHashPayload → Key → AuditRow
  make_row p h = record { payload = p; entry_hash = h }

  row_equal : (a b : AuditRow) → a.payload ≡ b.payload → a.entry_hash ≡ b.entry_hash → a ≡ b
  unfolding make_row
  row_equal a b p h =
      ap (λ (x : AuditHashPayload). make_row x a.entry_hash) p ∙ ap (make_row b.payload) h

  -- Two chains with one end are the same chain.
  Chain-unique :
      (rows others : List AuditRow) (n : ℕ) (p q : Key) (m : ℕ) (h : Key)
      → IsCollisionFree rows others
      → Chain digest n p rows m h
      → Chain digest n q others m h
      → (rows ≡ others) × (p ≡ q)
  Chain-unique [] [] n p q m h free (a, b) (c, d) = (refl, sym b ∙ d)
  Chain-unique [] (f ∷ fs) n p q m h free (a, b) (c, d, e, rest) =
      let l = Chain-length digest fs (n + 1) f.entry_hash m h rest in absurd (omega arith)
  Chain-unique (f ∷ fs) [] n p q m h free (c, d, e, rest) (a, b) =
      let l = Chain-length digest fs (n + 1) f.entry_hash m h rest in absurd (omega arith)
  Chain-unique (a ∷ as') (b ∷ bs) n p q m h free (sa, pa, da, ra) (sb, pb, db, rb) =
      let (tails, hashes) =
        Chain-unique as' bs (n + 1) a.entry_hash b.entry_hash m h
          (λ x y i j. free x y (later i) (later j)) ra rb in
      let payloads = free a b first first (da ∙ (hashes ∙ sym db)) in
      (
        ap (λ (x : AuditRow). x ∷ as') (row_equal a b payloads hashes)
            ∙ ap (λ (xs : List AuditRow). b ∷ xs) tails,
        sym pa ∙ (ap (λ (x : AuditHashPayload). x.previous_hash) payloads ∙ pb),
      )

  -- What a valid verdict says of a scope with a head.
  accepted-Chain :
      (rows : List AuditRow) (head : ChainHead) (count : ℕ) (found : Checked)
      → check_entries digest 1 genesis_hash rows ≡ found
      → check_head digest (length rows) found (some head) ≡ valid count
      → Chain digest 1 genesis_hash rows (head.sequence + 1) head.entry_hash
  unfolding check_head
  accepted-Chain rows head count (stopped r k) run accepted = absurd (ground arith)
  accepted-Chain rows head count (reached m h) run accepted =
      let chain = check_entries-Chain digest rows 1 genesis_hash m h run in
      let l = Chain-length digest rows 1 genesis_hash m h chain in
      let at_head : m ≡ head.sequence + 1 = ground arith in
      let same_hash : h ≡ head.entry_hash = ground arith in
      subst (λ (x : ℕ). Chain digest 1 genesis_hash rows x head.entry_hash) at_head
        (subst (λ (k : Key). Chain digest 1 genesis_hash rows m k) same_hash chain)

  accepted_scope :
      (db : AuditDb) (scope : Key) (head : ChainHead) (count : ℕ)
      → db.heads scope ≡ some head
      → verify_audit_chain digest scope db ≡ valid count
      → Chain digest 1 genesis_hash (rows_of scope db) (head.sequence + 1) head.entry_hash
  unfolding verify_audit_chain
  accepted_scope db scope head count headed accepted =
      accepted-Chain (rows_of scope db) head count _ refl (rw⁻¹ headed accepted)

  -- Two states of the log that verify in a scope, and whose heads of the scope are the same, hold the
  -- same rows of the scope in the same order: a row that was changed, dropped, added or moved is
  -- noticed by the verification or by the head. No two different payloads of the two states have the
  -- same digest.
  pub verified_scope_unique :
      (scope : Key) (db db' : AuditDb) (head : ChainHead) (count count' : ℕ)
      → db.heads scope ≡ some head
      → db'.heads scope ≡ some head
      → IsCollisionFree (rows_of scope db) (rows_of scope db')
      → verify_audit_chain digest scope db ≡ valid count
      → verify_audit_chain digest scope db' ≡ valid count'
      → rows_of scope db ≡ rows_of scope db'
  verified_scope_unique scope db db' head count count' h h' free v v' =
      (Chain-unique (rows_of scope db) (rows_of scope db') 1 genesis_hash genesis_hash
        (head.sequence + 1) head.entry_hash free (accepted_scope db scope head count h v)
        (accepted_scope db' scope head count' h' v')).0
