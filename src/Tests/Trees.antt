-- ===== src/Tests/Trees.antt =====
-- Keys of one pair in a leaf that is split by bit 1.
use mathlib.Core.List.{Permᴰ}
use elib.Base.{some, ℕ, ◌≡◌, refl, Bool, List, [], ◌∷◌, ok, ◌==◌, arith}
use elib.Mctree.Pairs.{PairHash, get_pairs_for_offset, is_masked, bit_index}
use elib.Mctree.Split.{split_pairs, split_loop, branch, join_pairs, used, masked_pairs}
use elib.Mctree.Split.Join.{no_hash, join_pairs-split_pairs}

-- Bit 1 is set, is not masked, and is clear.
abbrev three_keys : PairHash
three_keys = record {
  pair_offset_by_hash_index = [];
  n_pairs_per_key = 1;
  pairs =
      (record { mask = 3; value = 2 })
      ∷ (record { mask = 1; value = 1 })
      ∷ (record { mask = 2; value = 0 })
      ∷ [];
}

-- The second place of the vector is free.
abbrev leaf : List ℕ
leaf = 0 ∷ 9 ∷ 1 ∷ 2 ∷ []

abbrev second_free : ℕ → Bool
second_free i = i == 1

join_pairs-split_pairs_example :
    (v0 : List ℕ) × (v1 : List ℕ) × (joined : List ℕ) × (split_pairs three_keys 1 second_free 3 leaf
      ≡ ok (some (v0, v1)))
    × (join_pairs three_keys 1 (no_hash, v0) (no_hash, v1) ≡ ok joined)
    × Permᴰ joined (0 ∷ 1 ∷ 2 ∷ [])
unfolding used
join_pairs-split_pairs_example =
    join_pairs-split_pairs three_keys 1 second_free leaf (omega arith) (omega arith)
      (omega arith, (omega arith, (omega arith, tt))) (omega arith)

split_run : split_pairs three_keys 1 second_free 3 leaf ≡ ok (some (1 ∷ 2 ∷ [], 0 ∷ 1 ∷ []))
unfolding split_pairs split_loop branch get_pairs_for_offset
split_run = refl

join_run : join_pairs three_keys 1 (no_hash, 1 ∷ 2 ∷ []) (no_hash, 0 ∷ 1 ∷ []) ≡ ok (1 ∷ 2 ∷ 0 ∷ [])
unfolding join_pairs used masked_pairs is_masked bit_index
join_run = refl
