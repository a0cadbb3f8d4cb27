-- ===== src/Examples/Reorgs.antt =====
-- A chain of three blocks whose last one was replaced.
use oscar_payment_gateway.Prelude.{
  ℕ, ◌≡◌, refl, Bool, true, some, none, find, arith, List, [], ◌∷◌, ◌==◌, if◌then◌else◌,
}
use oscar_payment_gateway.Payments.{pending}
use oscar_payment_gateway.Lifecycle.{DbEvolves}
use oscar_payment_gateway.Watcher.Cursor.{
  Watch, ReorgRecord, ObservedBlock, ObservedBlockHeader, is_canonical_at, insert_observed_blocks,
}
use oscar_payment_gateway.Watcher.{Runtime, fork_at, scan, resolve, orphan_history, new_reorg}
use oscar_payment_gateway.Watcher.ForkPoint.{IsForkPoint, scan-IsForkPoint}
use oscar_payment_gateway.Watcher.Returns.{Batch, record_all, IsAbove, returned_block_lost}
use oscar_payment_gateway.Watcher.Orphans.{resolve-DbEvolves}
use oscar_payment_gateway.Examples.Samples.{database, invoice, deposit}

abbrev block : ℕ → ℕ → Bool → ObservedBlock
block number hash canonical = record {
  chain = 1;
  block_number = number;
  block_hash = hash ∷ [];
  parent_hash = 0 ∷ [];
  canonical = canonical;
  observed_at = 5;
}

abbrev header : ℕ → ℕ → ObservedBlockHeader
header number hash = record { block_number = number; block_hash = hash ∷ []; parent_hash = 0 ∷ [] }

-- Height 90 has another block than the one stored.
abbrev runtime : Runtime
runtime = record {
  chain_id = 1;
  now = 50;
  live = λ n. header n (if n == 90 then 7 else n);
  agreeing = λ _. true;
}

abbrev blocks : List ObservedBlock
blocks = block 88 88 true ∷ block 89 89 true ∷ block 90 90 true ∷ []

abbrev watch : Watch
watch = record {
  db = database (invoice pending) (deposit 11 60 (some 7) true ∷ []);
  cursors = λ _.
      some (record { last_processed_block = 90; last_processed_block_hash = 90 ∷ []; version = 3 });
  blocks = blocks;
  reorgs = [];
  reorg_notes = [];
}

scan-IsForkPoint_example : IsForkPoint runtime blocks 90 (block 89 89 true)
unfolding scan
scan-IsForkPoint_example = scan-IsForkPoint runtime blocks 8 90 (block 89 89 true) refl

resolve-DbEvolves_example : DbEvolves watch.db (resolve runtime 8 4 watch watch).1.db
resolve-DbEvolves_example = resolve-DbEvolves runtime 8 4 watch watch

-- The history above height 89 is orphaned; then the block of height 90 is back, and one follows it.
abbrev reorg_row : ReorgRecord
reorg_row = new_reorg 4 50 1 89 watch

abbrev batches : List Batch
batches = record { at = 60; headers = header 90 90 ∷ header 91 91 ∷ [] } ∷ []

abbrev blocks_back : List ObservedBlock
blocks_back = record_all 1 batches (orphan_history reorg_row 1 89 watch).blocks

returned_block_lost_example :
    (find (is_canonical_at 1 90) blocks_back ≡ none) × IsAbove 90 (scan runtime blocks_back 8 91)
returned_block_lost_example =
    returned_block_lost runtime reorg_row 89 watch (header 90 90) batches 8 91 (omega arith) refl
      (((λ _. refl), ((λ k. absurd (omega (arith, k))), tt)), tt) (omega arith)

-- At height 91 the stored and the live block agree: the search stops there, above the lost height.
blocks_back-fork_at :
    scan runtime blocks_back 8 91 ≡ fork_at (record (block 91 91 true) { observed_at = 60 })
unfolding scan orphan_history insert_observed_blocks
blocks_back-fork_at = refl
