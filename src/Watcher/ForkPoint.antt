-- ===== src/Watcher/ForkPoint.antt =====
-- Where the search for the fork point stops (src/application/watcher/reorg-resolution-service.ts).
use oscar_payment_gateway.Prelude.{
  ℕ, zero, suc, ◌≤◌, ◌<◌, ◌≡◌, ◌⊎◌, refl, sym, ap, subst, Bool, true, false, not, Option, none,
  some, List, ◌==◌, ==→eq, find, if◌then◌else◌, Bool-cases, inl, inr, arith,
}
use oscar_payment_gateway.Watcher.Cursor.{ObservedBlock, is_canonical_at}
use oscar_payment_gateway.Watcher.{
  Runtime, Scan, fork_at, no_fork, unclear, same_hash, judge_height, scan,
}

-- The stored canonical block of a height agrees with the corroborated live one.
pub record AgreesAt (r : Runtime) (blocks : List ObservedBlock) (height : ℕ) (s : ObservedBlock)
    : Type 0 where
  pub stored : find (is_canonical_at r.chain_id height) blocks ≡ some s
  pub corroborated : r.agreeing (r.live height) ≡ true
  pub same : same_hash s (r.live height) ≡ true

-- It differs from the corroborated live one.
pub record DiffersAt (r : Runtime) (blocks : List ObservedBlock) (height : ℕ) : Type 0 where
  pub block : ObservedBlock
  pub stored : find (is_canonical_at r.chain_id height) blocks ≡ some block
  pub corroborated : r.agreeing (r.live height) ≡ true
  pub different : same_hash block (r.live height) ≡ false

block_or : ObservedBlock → Scan → ObservedBlock
block_or d (fork_at s) = s
block_or d no_fork = d
block_or d unclear = d

-- The three tests at a height, when a fork point comes of them.
tests-fork_at :
    (moved silent same : Bool) (b : ObservedBlock) (below : Scan) (s : ObservedBlock)
    → (if moved then no_fork else if silent then unclear else if same then fork_at b else below)
      ≡ fork_at s
    → (silent ≡ false) × (((same ≡ true) × (b ≡ s)) ⊎ ((same ≡ false) × (below ≡ fork_at s)))
unfolding block_or
tests-fork_at true silent same b below s h = absurd (ground arith)
tests-fork_at false true same b below s h = absurd (ground arith)
tests-fork_at false false true b below s h = (refl, inl (refl, ap (block_or b) h))
tests-fork_at false false false b below s h = (refl, inr (refl, h))

-- One height of the search.
judge_height-fork_at :
    (r : Runtime) (blocks : List ObservedBlock) (height : ℕ) (below : Scan) (s : ObservedBlock)
    → judge_height r height (find (is_canonical_at r.chain_id height) blocks) below ≡ fork_at s
    → AgreesAt r blocks height s ⊎ (DiffersAt r blocks height × (below ≡ fork_at s))
judge_height-fork_at r blocks height below s h =
    go (find (is_canonical_at r.chain_id height) blocks) refl h
  where
    go :
        (o : Option ObservedBlock)
        → find (is_canonical_at r.chain_id height) blocks ≡ o
        → judge_height r height o below ≡ fork_at s
        → AgreesAt r blocks height s ⊎ (DiffersAt r blocks height × (below ≡ fork_at s))
    go none e h = absurd (ground arith)
    go (some b) e h =
        let (heard, outcome) =
          tests-fork_at (not ((r.live height).block_number == height))
            (not (r.agreeing (r.live height))) (same_hash b (r.live height)) b below s h in
        let corroborated : r.agreeing (r.live height) ≡ true = ground arith in
        elim outcome [
          | inl (same, it) ↦ inl (
              subst (AgreesAt r blocks height) it
                (record { stored = e; corroborated = corroborated; same = same }))
          | inr (different, rest) ↦ inr (
            record { block = b; stored = e; corroborated = corroborated; different = different },
            rest,
          )
        ]

-- What the search answers rests on every height that it passed.
pub record IsForkPoint (r : Runtime) (blocks : List ObservedBlock) (from : ℕ) (s : ObservedBlock)
    : Type 0 where
  pub height : ℕ
  pub at_most : height ≤ from
  pub agrees : AgreesAt r blocks height s
  pub highest : (k : ℕ) → height < k → k ≤ from → DiffersAt r blocks k

-- A fork point that the search finds is a stored canonical block that agrees with the corroborated live
-- one, and at every height above it, up to where the search began, the stored canonical block differs
-- from the corroborated live one.
pub scan-IsForkPoint :
    (r : Runtime) (blocks : List ObservedBlock) (left from : ℕ) (s : ObservedBlock)
    → scan r blocks left from ≡ fork_at s
    → IsForkPoint r blocks from s
unfolding scan
scan-IsForkPoint r blocks zero from s h = absurd (ground arith)
scan-IsForkPoint r blocks (suc left) zero s h = elim (judge_height-fork_at r blocks 0 no_fork s h) [
  | inl agrees ↦ record {
    height = 0;
    at_most = omega arith;
    agrees = agrees;
    highest = λ k low high. absurd (omega arith);
  }
  | inr (_, lost) ↦ absurd (ground arith)
]
scan-IsForkPoint r blocks (suc left) (suc from) s h =
    elim (judge_height-fork_at r blocks (suc from) (scan r blocks left from) s h) [
      | inl agrees ↦ record {
        height = suc from;
        at_most = omega arith;
        agrees = agrees;
        highest = λ k low high. absurd (omega arith);
      }
      | inr (differs, rest) ↦ extended differs (scan-IsForkPoint r blocks left from s rest)
    ]
  where
    extended :
        DiffersAt r blocks (suc from)
        → IsForkPoint r blocks from s
        → IsForkPoint r blocks (suc from) s
    extended differs point = record {
      height = point.height;
      at_most = let below = point.at_most in omega arith;
      agrees = point.agrees;
      highest = λ k low high. elim (Bool-cases (k == suc from)) [
        | inl top ↦
            let same : k ≡ suc from = ==→eq k (suc from) top in
            subst (DiffersAt r blocks) (sym same) differs
        | inr lower ↦ let other : k ≤ from = ground arith in point.highest k low other
      ];
    }
