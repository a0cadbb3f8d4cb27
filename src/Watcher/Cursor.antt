-- ===== src/Watcher/Cursor.antt =====
-- The cursor and the observed blocks of a chain: MongoChainCursorStorage
-- (src/infrastructure/chain/mongo-cursor-storage.ts).
use oscar_payment_gateway.Prelude.{
  ℕ, ◌+◌, Bool, true, false, ◌&&◌, Option, none, some, List, [], ◌∷◌, ◌++◌, ◌==◌, any, find, put,
  if◌then◌else◌,
}
use oscar_payment_gateway.Store.{Key, Text, Db}
use oscar_payment_gateway.Texts.{text_eq}

pub record ObservedBlockHeader : Type 0 where
  pub block_number : ℕ
  pub block_hash : Text
  pub parent_hash : Text

pub record ObservedBlock : Type 0 where
  pub chain : Key
  pub block_number : ℕ
  pub block_hash : Text
  pub parent_hash : Text
  pub canonical : Bool
  pub observed_at : ℕ

pub record ChainCursorState : Type 0 where
  pub last_processed_block : ℕ
  pub last_processed_block_hash : Text
  pub version : ℕ

pub record ReorgRecord : Type 0 where
  pub reorg_id : Key
  pub chain : Key
  pub from_block : ℕ
  pub to_block : ℕ
  pub detected_at : ℕ
  pub orphaned_tx_hashes : List Text
  pub affected_payment_ids : List Key

pub record Watch : Type 0 where
  pub db : Db
  pub cursors : Key → Option ChainCursorState
  pub blocks : List ObservedBlock
  pub reorgs : List ReorgRecord
  pub reorg_notes : List (Key × Key)

-- `ChainDiscontinuityError`, and `ChainCursorConflictError`.
pub data CursorError : Type 0 where
  discontinuity cursor_conflict : CursorError

pub data CursorResult (A : Type 0) : Type 0 where
  stored : A → Watch → CursorResult A
  refused : CursorError → CursorResult A

abbrev pub is_canonical_at : Key → ℕ → ObservedBlock → Bool
is_canonical_at chain height b = b.chain == chain && b.block_number == height && b.canonical

abbrev pub is_block : Key → ObservedBlockHeader → ObservedBlock → Bool
is_block chain h b =
    b.chain == chain && b.block_number == h.block_number && text_eq b.block_hash h.block_hash

abbrev pub new_block : Key → ℕ → ObservedBlockHeader → ObservedBlock
new_block chain now h = record {
  chain = chain;
  block_number = h.block_number;
  block_hash = h.block_hash;
  parent_hash = h.parent_hash;
  canonical = true;
  observed_at = now;
}

-- One `updateOne` with `$setOnInsert` and `upsert`.
abbrev pub upsert_block : Key → ℕ → ObservedBlockHeader → List ObservedBlock → List ObservedBlock
upsert_block chain now h blocks =
    if any (is_block chain h) blocks then blocks else blocks ++ new_block chain now h ∷ []

-- `#insertObservedBlocks`.
unfoldable pub insert_observed_blocks :
    Key → ℕ → List ObservedBlockHeader → List ObservedBlock → List ObservedBlock
insert_observed_blocks chain now [] blocks = blocks
insert_observed_blocks chain now (h ∷ hs) blocks =
    insert_observed_blocks chain now hs (upsert_block chain now h blocks)

abbrev classify_one :
    ObservedBlockHeader
    → Option ObservedBlock
    → Option (List ObservedBlockHeader)
    → Option (List ObservedBlockHeader)
classify_one h recorded none = none
classify_one h none (some rest) = some (h ∷ rest)
classify_one h (some b) (some rest) = if text_eq b.block_hash h.block_hash then some rest else none

-- `#classifyObservedBlocks`; `none`: a conflicting hash, the discontinuity.
unfoldable pub classify_observed_blocks :
    Key → List ObservedBlock → List ObservedBlockHeader → Option (List ObservedBlockHeader)
classify_observed_blocks chain blocks [] = some []
classify_observed_blocks chain blocks (h ∷ hs) =
    classify_one h (find (is_canonical_at chain h.block_number) blocks)
      (classify_observed_blocks chain blocks hs)

abbrev move : ℕ → Text → ChainCursorState → ChainCursorState
move block hash c = record {
  last_processed_block = block;
  last_processed_block_hash = hash;
  version = c.version + 1;
}

abbrev pub move_cursor : Key → ℕ → ℕ → Text → Option ChainCursorState → Watch → Option Watch
move_cursor chain expected block hash none w = none
move_cursor chain expected block hash (some c) w =
    if c.version == expected
    then some (record w { cursors = put chain (move block hash c) w.cursors })
    else none

-- The conditional update of the cursor; `none`: nothing was modified.
unfoldable pub update_cursor : Key → ℕ → ℕ → Text → Watch → Option Watch
update_cursor chain expected block hash w =
    move_cursor chain expected block hash (w.cursors chain) w

abbrev after_update : Option Watch → CursorResult (Unit {0})
after_update none = refused cursor_conflict
after_update (some w) = stored tt w

abbrev advance_with :
    Key → ℕ → ℕ → ℕ → Text → Option (List ObservedBlockHeader) → Watch → CursorResult (Unit {0})
advance_with chain now expected block hash none w = refused discontinuity
advance_with chain now expected block hash (some headers) w = after_update (
    update_cursor chain expected block hash
      (record w { blocks = insert_observed_blocks chain now headers w.blocks }))

-- `advance`; the classification sees the blocks `seen`.
unfoldable pub advance :
    Key
    → ℕ
    → ℕ
    → ℕ
    → Text
    → List ObservedBlockHeader
    → List ObservedBlock
    → Watch
    → CursorResult (Unit {0})
unfolding classify_observed_blocks update_cursor insert_observed_blocks
advance chain now expected block hash headers seen w =
    advance_with chain now expected block hash (classify_observed_blocks chain seen headers) w

abbrev pub rewound : Watch → Option Watch → Bool × Watch
rewound w none = (false, w)
rewound w (some w') = (true, w')

-- `rewind`.
unfoldable pub rewind : Key → ℕ → ℕ → Text → Watch → Bool × Watch
unfolding update_cursor
rewind chain expected block hash w = rewound w (update_cursor chain expected block hash w)

abbrev anchor_state : ObservedBlockHeader → ChainCursorState
anchor_state h = record {
  last_processed_block = h.block_number;
  last_processed_block_hash = h.block_hash;
  version = 0;
}

abbrev bootstrap_over :
    Key → ℕ → ObservedBlockHeader → Option ChainCursorState → Watch → CursorResult ChainCursorState
bootstrap_over chain now h (some c) w = stored c w
bootstrap_over chain now h none w = stored (anchor_state h) (record w {
  cursors = put chain (anchor_state h) w.cursors;
  blocks = insert_observed_blocks chain now (h ∷ []) w.blocks;
})

-- `bootstrap`: a cursor that is there makes the insert a duplicate, and stands.
unfoldable pub bootstrap : Key → ℕ → ObservedBlockHeader → Watch → CursorResult ChainCursorState
unfolding insert_observed_blocks
bootstrap chain now h w = bootstrap_over chain now h (w.cursors chain) w
