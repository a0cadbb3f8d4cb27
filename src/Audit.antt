-- ===== src/Audit.antt =====
-- The hash-chained audit log (src/infrastructure/mongodb/audit-service.ts): appending a row to a
-- scope's chain, and the verification of a scope. The digest of a payload, SHA-256 over its canonical
-- JSON, is a parameter.
pub mod Chain
pub mod Appends
pub mod Tamper
pub mod Success
use oscar_payment_gateway.Prelude.{
  ℕ, ◌+◌, ◌-◌, Bool, true, false, not, ◌&&◌, ◌||◌, Option, none, some, List, [], ◌∷◌, ◌++◌, ◌==◌,
  if◌then◌else◌, any, filter, length, get_or, ltb, put,
}
use oscar_payment_gateway.Store.{Key}

pub data AuditActorType : Type 0 where
  merchant admin system : AuditActorType

-- The values of `before`, `after` and `metadata` stand for any canonical JSON.
pub record AppendAuditEntry : Type 0 where
  pub scope : Key
  pub entity_type : Key
  pub entity_id : Key
  pub action : Key
  pub actor_type : AuditActorType
  pub actor_id : Key
  pub before : Option Key
  pub after : Option Key
  pub event_id : Option Key
  pub transaction_hash : Option Key
  pub metadata : Option Key
  pub occurred_at : Option ℕ

-- The input, and what an append adds to it.
pub record AuditHashPayload : Type 0 where
  pub input : AppendAuditEntry
  pub audit_id : Key
  pub sequence : ℕ
  pub occurred_at : ℕ
  pub hash_version : ℕ
  pub previous_hash : Key

pub record AuditRow : Type 0 where
  pub payload : AuditHashPayload
  pub entry_hash : Key

pub record ChainHead : Type 0 where
  pub sequence : ℕ
  pub entry_hash : Key
  pub version : ℕ

pub record AuditDb : Type 0 where
  pub log : List AuditRow
  pub heads : Key → Option ChainHead

abbrev pub genesis_hash : Key
genesis_hash = 0

abbrev pub scope_of : AuditRow → Key
scope_of row = row.payload.input.scope

abbrev pub in_scope : Key → AuditRow → Bool
in_scope scope row = scope_of row == scope

-- The unique indexes of the log: the identifier, the scope's sequence, the entry hash.
abbrev pub collides : AuditRow → AuditRow → Bool
collides row other =
    row.payload.audit_id == other.payload.audit_id
    || (scope_of row == scope_of other && row.payload.sequence == other.payload.sequence)
    || row.entry_hash == other.entry_hash

-- The head of a scope, with the one that `$setOnInsert` makes.
abbrev pub first_head : ChainHead
first_head = record { sequence = 0; entry_hash = genesis_hash; version = 0 }

abbrev pub same_head : ChainHead → Option ChainHead → Bool
same_head head none = false
same_head head (some h) = h.sequence == head.sequence && h.version == head.version

pub data Reason : Type 0 where
  not_contiguous previous_hash_mismatch entry_hash_mismatch : Reason
  head_without_entries head_mismatch : Reason

pub data Verification : Type 0 where
  valid : ℕ → Verification
  invalid : Reason → ℕ → Verification

-- What the loop over a scope's rows found: the next sequence and the last hash, or a failure.
pub data Checked : Type 0 where
  reached : ℕ → Key → Checked
  stopped : Reason → ℕ → Checked

-- `.sort({ sequence: 1 })`.
abbrev pub insert_row : AuditRow → List AuditRow → List AuditRow
insert_row row [] = row ∷ []
insert_row row (other ∷ rows) =
    let rest = insert_row row rows in
    if ltb other.payload.sequence row.payload.sequence then other ∷ rest else row ∷ other ∷ rows

abbrev pub sort_rows : List AuditRow → List AuditRow
sort_rows [] = []
sort_rows (row ∷ rows) = insert_row row (sort_rows rows)

module _ (digest : AuditHashPayload → Key) where
  abbrev pub hash_payload : AppendAuditEntry → Key → ℕ → ChainHead → AuditHashPayload
  hash_payload input uuid now head = record {
    input = input;
    audit_id = uuid;
    sequence = head.sequence + 1;
    occurred_at = get_or input.occurred_at now;
    hash_version = 1;
    previous_hash = head.entry_hash;
  }

  abbrev pub new_row : AppendAuditEntry → Key → ℕ → ChainHead → AuditRow
  new_row input uuid now head = record {
    payload = hash_payload input uuid now head;
    entry_hash = digest (hash_payload input uuid now head);
  }

  -- The row is inserted under its indexes, and the head advances if it is the one that was read.
  unfoldable pub append_row : AuditRow → ChainHead → AuditDb → Option AuditDb
  append_row row head db =
      if any (collides row) db.log
      then none
      else if not (same_head head (db.heads (scope_of row)))
      then none
      else some (record {
        log = db.log ++ row ∷ [];
        heads =
            put (scope_of row)
              (record {
                sequence = row.payload.sequence;
                entry_hash = row.entry_hash;
                version = head.version + 1;
              })
              db.heads;
      })

  -- `appendAuditEntryInTransaction`; `none`: the chain changed concurrently, and the call throws.
  unfoldable pub append_audit_entry : AppendAuditEntry → Key → ℕ → AuditDb → Option AuditDb
  unfolding append_row
  append_audit_entry input uuid now db =
      let head = get_or (db.heads input.scope) first_head in
      append_row (new_row input uuid now head) head
        (record db { heads = put input.scope head db.heads })

  unfoldable pub check_entries : ℕ → Key → List AuditRow → Checked
  check_entries expected previous [] = reached expected previous
  check_entries expected previous (row ∷ rows) =
      let rest = check_entries (expected + 1) row.entry_hash rows in
      if not (row.payload.sequence == expected)
      then stopped not_contiguous (expected - 1)
      else if not (row.payload.previous_hash == previous)
      then stopped previous_hash_mismatch (expected - 1)
      else if not (digest row.payload == row.entry_hash)
      then stopped entry_hash_mismatch (expected - 1)
      else rest

  -- The head against the rows that were checked.
  unfoldable pub check_head : ℕ → Checked → Option ChainHead → Verification
  check_head count (stopped reason n) head = invalid reason n
  check_head count (reached next previous) none =
      if count == 0 then valid count else invalid head_mismatch count
  check_head count (reached next previous) (some head) =
      if count == 0
      then invalid head_without_entries 0
      else if head.sequence == count && head.entry_hash == previous
      then valid count
      else invalid head_mismatch count

  unfoldable pub verify_audit_chain : Key → AuditDb → Verification
  unfolding check_entries check_head
  verify_audit_chain scope db =
      let rows = sort_rows (filter (in_scope scope) db.log) in
      check_head (length rows) (check_entries 1 genesis_hash rows) (db.heads scope)
