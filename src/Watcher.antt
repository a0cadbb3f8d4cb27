-- ===== src/Watcher.antt =====
-- The watcher's durable position and the resolution of reorganisations: MongoChainCursorStorage
-- (src/infrastructure/chain/mongo-cursor-storage.ts) and ReorgResolutionService
-- (src/application/watcher/reorg-resolution-service.ts).
pub mod Cursor
pub mod ForkPoint
pub mod Returns
pub mod Orphans
use oscar_payment_gateway.Prelude.{
  ℕ, zero, suc, ◌+◌, Bool, true, false, not, ◌&&◌, Option, none, some, List, [], ◌∷◌, ◌++◌, ◌==◌,
  any, find, filter, map, sum, update_all, max, if◌then◌else◌, ltb, is_some,
}
use oscar_payment_gateway.Payments.{PaymentStatus, pending, confirmed, is}
use oscar_payment_gateway.Store.{
  Key, Text, Db, Event, Payment, AuditEntry, payment_finality_incident, append_audit,
  update_payment, is_canonical_claim,
}
use oscar_payment_gateway.Texts.{text_eq, to_lower}
use Cursor.{
  Watch, ReorgRecord, ObservedBlock, ObservedBlockHeader, ChainCursorState, rewind, is_canonical_at,
}

-- What the providers answer at a height, and whether an independent one agrees with it.
pub record Runtime : Type 0 where
  pub chain_id : Key
  pub now : ℕ
  pub live : ℕ → ObservedBlockHeader
  pub agreeing : ObservedBlockHeader → Bool

pub data Scan : Type 0 where
  fork_at : ObservedBlock → Scan
  no_fork unclear : Scan

abbrev pub same_hash : ObservedBlock → ObservedBlockHeader → Bool
same_hash stored live = text_eq (to_lower live.block_hash) (to_lower stored.block_hash)

abbrev pub judge_height : Runtime → ℕ → Option ObservedBlock → Scan → Scan
judge_height r height none below = no_fork
judge_height r height (some stored) below =
    if not ((r.live height).block_number == height)
    then no_fork
    else if not (r.agreeing (r.live height))
    then unclear
    else if same_hash stored (r.live height)
    then fork_at stored
    else below

-- The walk down from a height, for as many heights as `reorgMaxScanBlocks` leaves.
unfoldable pub scan : Runtime → List ObservedBlock → ℕ → ℕ → Scan
unfolding to_lower
scan r blocks zero height = no_fork
scan r blocks (suc left) zero =
    judge_height r 0 (find (is_canonical_at r.chain_id 0) blocks) no_fork
scan r blocks (suc left) (suc height) =
    let below = scan r blocks left height in
    judge_height r (suc height) (find (is_canonical_at r.chain_id (suc height)) blocks) below

-- The filter of both `updateMany` calls.
abbrev pub is_orphaned_block : Key → ℕ → ObservedBlock → Bool
is_orphaned_block chain fork b = b.chain == chain && ltb fork b.block_number && b.canonical

abbrev pub is_orphaned_event : Key → ℕ → Event → Bool
is_orphaned_event chain fork e = e.chain == chain && ltb fork e.block_number && e.canonical

abbrev pub orphan_event : Event → Event
orphan_event e = record e { canonical = false }

abbrev pub orphan_block : ObservedBlock → ObservedBlock
orphan_block b = record b { canonical = false }

-- The transaction that marks the history above the fork point.
unfoldable pub orphan_history : ReorgRecord → Key → ℕ → Watch → Watch
orphan_history reorg chain fork w = record w {
  reorgs = w.reorgs ++ reorg ∷ [];
  blocks = update_all (is_orphaned_block chain fork) orphan_block w.blocks;
  db = record w.db { events = update_all (is_orphaned_event chain fork) orphan_event w.db.events };
}

abbrev pub or_same : Db → Option Db → Db
or_same db none = db
or_same db (some db') = db'

abbrev pub hold : Key → Payment → Payment
hold reorg p = record p { automation_hold = true; automation_hold_reorg_id = some reorg }

abbrev pub set_recomputed : ℕ → Payment → Payment
set_recomputed total p = record p {
  partial_amount_received = some total;
  underpayment_flag = ltb 0 total;
}

abbrev pub has_version : ℕ → Payment → Bool
has_version version p = p.version == version

abbrev pub is_pending_at : ℕ → Payment → Bool
is_pending_at version p = is p.status pending && p.version == version

abbrev pub incident : Key → AuditEntry
incident id = record {
  entity_id = id;
  action = payment_finality_incident;
  before = confirmed;
  after = confirmed;
  event_id = none;
}

-- What is summed of a surviving claim: its transferred amount.
abbrev pub recomputed_total : Key → List Event → ℕ
recomputed_total id events = sum (λ (e : Event). e.amount) (filter (is_canonical_claim id) events)

-- The writes for one payment, by the status that was read.
unfoldable pub payment_effect : Key → Db → Key → Payment → Db → Db
unfolding update_payment append_audit
payment_effect reorg seen id p db =
    if is p.status confirmed
    then append_audit (incident id)
        (or_same db (update_payment id (has_version p.version) (hold reorg) db))
    else if is p.status pending
    then or_same db (
        update_payment id (is_pending_at p.version)
          (set_recomputed (recomputed_total id seen.events)) db)
    else db

-- `#annotate`, whose identifier names the payment and the reorganisation.
abbrev pub annotate_reorg : Key → Key → List (Key × Key) → List (Key × Key)
annotate_reorg reorg id notes =
    if any (λ n. n.0 == id && n.1 == reorg) notes then notes else notes ++ (id, reorg) ∷ []

abbrev resolve_one : Key → Db → Key → Option Payment → Watch → Watch
resolve_one reorg seen id none w = w
resolve_one reorg seen id (some p) w = record w {
  db = payment_effect reorg seen id p w.db;
  reorg_notes = annotate_reorg reorg id w.reorg_notes;
}

-- `#resolvePaymentEffects`, whose reads see `seen`.
unfoldable pub resolve_payment_effects : Key → Db → List Key → Watch → Watch
unfolding payment_effect
resolve_payment_effects reorg seen [] w = w
resolve_payment_effects reorg seen (id ∷ ids) w =
    resolve_payment_effects reorg seen ids (resolve_one reorg seen id (seen.payments id) w)

abbrev claimed_ids : List Event → List Key
claimed_ids [] = []
claimed_ids (e ∷ es) =
    let rest = claimed_ids es in elim e.matched_payment_id [ none ↦ rest | some id ↦ id ∷ rest ]

-- A `Set` of identifiers, in the order of their last mention.
abbrev distinct : List Key → List Key
distinct [] = []
distinct (k ∷ ks) = let rest = distinct ks in if any (λ j. j == k) rest then rest else k ∷ rest

-- The payments whose claims a reorganisation orphans.
abbrev pub affected_payment_ids : Key → ℕ → List Event → List Key
affected_payment_ids chain fork events =
    distinct (claimed_ids (filter (is_orphaned_event chain fork) events))

abbrev distinct_texts : List Text → List Text
distinct_texts [] = []
distinct_texts (t ∷ ts) =
    let rest = distinct_texts ts in if any (text_eq t) rest then rest else t ∷ rest

abbrev highest : List ObservedBlock → ℕ
highest [] = 0
highest (b ∷ bs) = max b.block_number (highest bs)

abbrev pub new_reorg : Key → ℕ → Key → ℕ → Watch → ReorgRecord
new_reorg reorg now chain fork seen = record {
  reorg_id = reorg;
  chain = chain;
  from_block = fork + 1;
  to_block = highest (filter (is_orphaned_block chain fork) seen.blocks);
  detected_at = now;
  orphaned_tx_hashes = distinct_texts (
      map (λ (e : Event). e.transaction_hash)
        (filter (is_orphaned_event chain fork) seen.db.events));
  affected_payment_ids = affected_payment_ids chain fork seen.db.events;
}

abbrev pub resolve_from : Runtime → Key → ChainCursorState → Scan → Watch → Watch → Bool × Watch
resolve_from r reorg c no_fork seen w = (false, w)
resolve_from r reorg c unclear seen w = (false, w)
resolve_from r reorg c (fork_at s) seen w =
    if s.block_number == c.last_processed_block
    then (true, w)
    else if not (any (is_orphaned_block r.chain_id s.block_number) seen.blocks)
    then (true, w)
    else (let orphaned =
          orphan_history (new_reorg reorg r.now r.chain_id s.block_number seen) r.chain_id
            s.block_number w in
        let ids = affected_payment_ids r.chain_id s.block_number seen.db.events in
        let settled = resolve_payment_effects reorg orphaned.db ids orphaned in
        (true, (rewind r.chain_id c.version s.block_number s.block_hash settled).1))

abbrev pub resolve_cursor :
    Runtime → ℕ → Key → Option ChainCursorState → Watch → Watch → Bool × Watch
resolve_cursor r max_scan reorg none seen w = (false, w)
resolve_cursor r max_scan reorg (some c) seen w =
    resolve_from r reorg c (scan r seen.blocks max_scan c.last_processed_block) seen w

-- `resolve`: whether the discontinuity is resolved. The reads before the first transaction see `seen`.
unfoldable pub resolve : Runtime → ℕ → Key → Watch → Watch → Bool × Watch
unfolding scan orphan_history resolve_payment_effects rewind
resolve r max_scan reorg seen w = resolve_cursor r max_scan reorg (seen.cursors r.chain_id) seen w
