-- ===== src/Mctree/Split.antt =====
-- mctree/mctree.go: the pairs of a leaf are divided between two, and put together again.
-- `free` says of an index whether the hash of the leaf has no pair there; without a hash it is never so.
pub mod Branch
pub mod Join
use elib.Base.{
  ℕ, suc, ◌+◌, ◌-◌, ◌/◌, ◌%◌, ◌^◌, Bool, true, false, List, [], ◌∷◌, ◌++◌, Outcome, ok, ◌>>=◌, load,
  take, set, replicate, Option, none, some, ◌==◌, if◌then◌else◌, not, ◌&&◌,
}
use elib.Mctree.Pairs.{Pair, PairHash, word_bits, poisoned_pair, get_pairs_for_offset, is_masked}

-- To which of the two a key belongs: 1 for yes.
unfoldable pub branch : List Pair → ℕ → ℕ → Outcome (ℕ × ℕ)
branch p b0 b1 = do
  q ← load p b0
  let r1 : ℕ = q.value / 2 ^ b1 % 2
  ok (if q.mask / 2 ^ b1 % 2 == 0 then (1, 1) else ((2 ^ 32 - 1 - r1) % 2, r1))

-- The vectors of the two, and how many of their elements stand.
pub record Halves : Type 0 where
  pub vec0 : List ℕ
  pub vec1 : List ℕ
  pub n0 : ℕ
  pub n1 : ℕ

module _ (h : PairHash) where
  unfoldable pub split_loop : ℕ → ℕ → (ℕ → Bool) → ℕ → List ℕ → Halves → Outcome Halves
  split_loop b0 b1 free i [] s = ok s
  split_loop b0 b1 free i (o ∷ os) s = elim (free i) [
    | true ↦ split_loop b0 b1 free (suc i) os s
    | false ↦ do
      p ← get_pairs_for_offset h o
      (r0, r1) ← branch p b0 b1
      _ ← load s.vec0 s.n0
      _ ← load s.vec1 s.n1
      split_loop b0 b1 free (suc i) os (record {
        vec0 = set s.vec0 s.n0 o;
        vec1 = set s.vec1 s.n1 o;
        n0 = s.n0 + r0;
        n1 = s.n1 + r1;
      })
  ]

  -- Both vectors have room for the `l` pairs of the leaf. Nothing is done when there are none.
  unfoldable pub split_pairs : ℕ → (ℕ → Bool) → ℕ → List ℕ → Outcome (Option (List ℕ × List ℕ))
  split_pairs bit free l vec = do
    let room = replicate l 0
    let divided : Outcome (Option (List ℕ × List ℕ)) = do
      s ←
          split_loop (bit / word_bits) (bit % word_bits) free 0 vec
            (record { vec0 = room; vec1 = room; n0 = 0; n1 = 0 })
      ok (some (take s.n0 s.vec0, take s.n1 s.vec1))
    if l == 0 then ok none else divided

  -- The offsets of the pairs of a leaf.
  unfoldable pub used : (ℕ → Bool) → ℕ → List ℕ → List ℕ
  used free i [] = []
  used free i (o ∷ os) = let rest = used free (suc i) os in if free i then rest else o ∷ rest

  -- Of the second leaf only pairs whose bit is masked: the others are in the first one as well.
  unfoldable pub masked_pairs : ℕ → (ℕ → Bool) → ℕ → List ℕ → Outcome (List ℕ)
  masked_pairs bit free i [] = ok []
  masked_pairs bit free i (o ∷ os) = elim (free i) [
    | true ↦ masked_pairs bit free (suc i) os
    | false ↦ do
      masked ← is_masked h o bit
      rest ← masked_pairs bit free (suc i) os
      ok (if masked then o ∷ rest else rest)
  ]

  unfoldable pub join_pairs : ℕ → (ℕ → Bool) × List ℕ → (ℕ → Bool) × List ℕ → Outcome (List ℕ)
  join_pairs bit (free0, vec0) (free1, vec1) = do
    second ← masked_pairs bit free1 0 vec1
    ok (used free0 0 vec0 ++ second)
