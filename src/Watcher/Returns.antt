-- ===== src/Watcher/Returns.antt =====
-- What becomes of a block that a reorganisation orphaned and that returns: the recording of
-- src/infrastructure/chain/mongo-cursor-storage.ts against the search of
-- src/application/watcher/reorg-resolution-service.ts.
use oscar_payment_gateway.Prelude.{
  ℕ, ◌≤◌, ◌<◌, ◌≡◌, refl, sym, ap, ◌∙◌, Bool, true, false, ◌||◌, none, some, List, [], ◌∷◌, ◌++◌,
  ◌==◌, ==→eq, any, find, find-fits, All, update_all, ltb, Bool-cases, inl, inr, arith,
}
use oscar_payment_gateway.Store.{Key}
use oscar_payment_gateway.Watcher.Cursor.{
  Watch, ReorgRecord, ObservedBlock, ObservedBlockHeader, is_canonical_at, is_block, new_block,
  upsert_block, insert_observed_blocks,
}
use oscar_payment_gateway.Watcher.{
  Runtime, Scan, fork_at, no_fork, unclear, scan, orphan_history, orphan_block, is_orphaned_block,
}
use oscar_payment_gateway.Watcher.ForkPoint.{scan-IsForkPoint}

-- Headers that are recorded together, and when.
pub record Batch : Type 0 where
  pub at : ℕ
  pub headers : List ObservedBlockHeader

-- The recordings of later steps of the watcher.
abbrev pub record_all : Key → List Batch → List ObservedBlock → List ObservedBlock
record_all chain [] blocks = blocks
record_all chain (b ∷ bs) blocks =
    record_all chain bs (insert_observed_blocks chain b.at b.headers blocks)

-- A header of the same height is that of the same block.
abbrev pub IsReturn : ObservedBlockHeader → ObservedBlockHeader → Type 0
IsReturn h k = k.block_number ≡ h.block_number → k.block_hash ≡ h.block_hash

abbrev pub AllReturn : ObservedBlockHeader → Batch → Type 0
AllReturn h b = All (IsReturn h) b.headers

-- No fork point, or one above the height.
abbrev pub IsAbove : ℕ → Scan → Type 0
IsAbove height (fork_at s) = height < s.block_number
IsAbove height no_fork = Unit
IsAbove height unclear = Unit

any-append :
    {A : Type 0} (p : A → Bool) (xs ys : List A) → any p xs ≡ true → any p (xs ++ ys) ≡ true
any-append p [] ys h = absurd (ground arith)
any-append p (x ∷ xs) ys h = elim (Bool-cases (p x)) [
  | inl here' ↦ rw here' refl
  | inr later ↦ rw later (any-append p xs ys (rw later at h))
]

module _ (chain : Key) (h : ObservedBlockHeader) where
  abbrev IsOff : ObservedBlock → Type 0
  IsOff b = is_canonical_at chain h.block_number b ≡ false

  -- The block is stored, and its height has no canonical one.
  record IsLost (blocks : List ObservedBlock) : Type 0 where
    known : any (is_block chain h) blocks ≡ true
    off : All IsOff blocks

  All-append :
      (blocks : List ObservedBlock) (b : ObservedBlock)
      → All IsOff blocks
      → IsOff b
      → All IsOff (blocks ++ b ∷ [])
  All-append [] b offs off = (off, tt)
  All-append (a ∷ blocks) b (k, offs) off = (k, All-append blocks b offs off)

  find-none :
      (blocks : List ObservedBlock)
      → All IsOff blocks
      → find (is_canonical_at chain h.block_number) blocks ≡ none
  find-none [] offs = refl
  find-none (b ∷ blocks) (off, offs) = rw off (find-none blocks offs)

  upsert_block-IsLost :
      (now : ℕ) (k : ObservedBlockHeader) (blocks : List ObservedBlock)
      → IsReturn h k
      → IsLost blocks
      → IsLost (upsert_block chain now k blocks)
  upsert_block-IsLost now k blocks returns lost =
      elim (Bool-cases (k.block_number == h.block_number)) [
        | inl same ↦
            let number : k.block_number ≡ h.block_number = ==→eq _ _ same in
            let stored : any (is_block chain k) blocks ≡ true =
              rw (number, returns number) lost.known in
            rw stored lost
        | inr other' ↦ elim (Bool-cases (any (is_block chain k) blocks)) [
          | inl stored ↦ rw stored lost
          | inr fresh ↦ rw fresh (record {
            known = any-append (is_block chain h) blocks _ lost.known;
            off = All-append blocks (new_block chain now k) lost.off (ground arith);
          })
        ]
      ]

  insert_observed_blocks-IsLost :
      (now : ℕ) (ks : List ObservedBlockHeader) (blocks : List ObservedBlock)
      → All (IsReturn h) ks
      → IsLost blocks
      → IsLost (insert_observed_blocks chain now ks blocks)
  unfolding insert_observed_blocks
  insert_observed_blocks-IsLost now [] blocks returns lost = lost
  insert_observed_blocks-IsLost now (k ∷ ks) blocks (one, returns) lost =
      insert_observed_blocks-IsLost now ks (upsert_block chain now k blocks) returns
        (upsert_block-IsLost now k blocks one lost)

  record_all-IsLost :
      (batches : List Batch) (blocks : List ObservedBlock)
      → All (AllReturn h) batches
      → IsLost blocks
      → IsLost (record_all chain batches blocks)
  record_all-IsLost [] blocks returns lost = lost
  record_all-IsLost (b ∷ bs) blocks (one, returns) lost =
      record_all-IsLost bs (insert_observed_blocks chain b.at b.headers blocks) returns
        (insert_observed_blocks-IsLost b.at b.headers blocks one lost)

  orphaned-known :
      (fork : ℕ) (blocks : List ObservedBlock)
      → any (is_block chain h) (update_all (is_orphaned_block chain fork) orphan_block blocks)
        ≡ any (is_block chain h) blocks
  orphaned-known fork [] = refl
  orphaned-known fork (b ∷ blocks) = elim (Bool-cases (is_orphaned_block chain fork b)) [
    | inl gone ↦ rw gone (ap (λ k. is_block chain h b || k) (orphaned-known fork blocks))
    | inr kept ↦ rw kept (ap (λ k. is_block chain h b || k) (orphaned-known fork blocks))
  ]

  orphaned-IsOff :
      (fork : ℕ) (blocks : List ObservedBlock)
      → fork < h.block_number
      → All IsOff (update_all (is_orphaned_block chain fork) orphan_block blocks)
  orphaned-IsOff fork [] above = tt
  orphaned-IsOff fork (b ∷ blocks) above = (
    elim (Bool-cases (is_orphaned_block chain fork b)) [
      | inl gone ↦ rw gone (ground arith)
      | inr kept ↦ rw kept (ground arith)
    ],
    orphaned-IsOff fork blocks above,
  )

  orphan_history-IsLost :
      (reorg : ReorgRecord) (fork : ℕ) (w : Watch)
      → fork < h.block_number
      → any (is_block chain h) w.blocks ≡ true
      → IsLost (orphan_history reorg chain fork w).blocks
  unfolding orphan_history
  orphan_history-IsLost reorg fork w above known = record {
    known = orphaned-known fork w.blocks ∙ known;
    off = orphaned-IsOff fork w.blocks above;
  }

canonical_height :
    (chain : Key) (height : ℕ) (blocks : List ObservedBlock) (s : ObservedBlock)
    → find (is_canonical_at chain height) blocks ≡ some s
    → s.block_number ≡ height
canonical_height chain height blocks s found =
    let fits = find-fits (is_canonical_at chain height) blocks s found in
    ==→eq s.block_number height (ground arith)

-- A search from a height without a canonical block, or from above it, ends above it or finds nothing.
scan-IsAbove :
    (r : Runtime) (blocks : List ObservedBlock) (left from height : ℕ)
    → find (is_canonical_at r.chain_id height) blocks ≡ none
    → height ≤ from
    → (o : Scan) → scan r blocks left from ≡ o
    → IsAbove height o
scan-IsAbove r blocks left from height missing reaches no_fork e = tt
scan-IsAbove r blocks left from height missing reaches unclear e = tt
scan-IsAbove r blocks left from height missing reaches (fork_at s) e =
    let point = scan-IsForkPoint r blocks left from s e in
    let at : s.block_number ≡ point.height =
      canonical_height r.chain_id point.height blocks s point.agrees.stored in
    elim (Bool-cases (ltb height point.height)) [
      | inl above ↦ ground arith
      | inr reached ↦ elim (Bool-cases (point.height == height)) [
        | inl same ↦
            let clash : some s ≡ none =
              sym point.agrees.stored
              ∙ ap (λ k. find (is_canonical_at r.chain_id k) blocks) (==→eq _ _ same)
              ∙ missing in
            absurd (ground arith)
        | inr other' ↦
            let passed = point.highest height (ground arith) reaches in
            let clash : some passed.block ≡ none = sym passed.stored ∙ missing in
            absurd (ground arith)
      ]
    ]

-- A stored block above the fork point of a reorganisation, once it is orphaned, stays lost when its
-- chain returns: whatever headers later steps record, with no other block at its height, the height has no
-- canonical block, and a search for a fork point from that height or from above it finds none, or one
-- above it.
pub returned_block_lost :
    (r : Runtime) (reorg : ReorgRecord) (fork : ℕ) (w : Watch) (h : ObservedBlockHeader)
    (batches : List Batch) (left from : ℕ)
    → fork < h.block_number
    → any (is_block r.chain_id h) w.blocks ≡ true
    → All (AllReturn h) batches
    → h.block_number ≤ from
    → let blocks = record_all r.chain_id batches (orphan_history reorg r.chain_id fork w).blocks in
      (find (is_canonical_at r.chain_id h.block_number) blocks ≡ none)
      × IsAbove h.block_number (scan r blocks left from)
returned_block_lost r reorg fork w h batches left from above known returns reaches =
    let lost =
      record_all-IsLost r.chain_id h batches (orphan_history reorg r.chain_id fork w).blocks returns
        (orphan_history-IsLost r.chain_id h reorg fork w above known) in
    let missing = find-none r.chain_id h _ lost.off in
    (missing, scan-IsAbove r _ left from h.block_number missing reaches _ refl)
