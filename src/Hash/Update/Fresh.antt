-- ===== src/Hash/Update/Fresh.antt =====
-- A new table and a cleared one, of hash.go, and the place of a bucket in a table of whole buckets.
use elib.Base.{
  ℕ, zero, suc, ◌*◌, ◌/◌, ◌<◌, ◌≡◌, refl, arith, List, [], ◌∷◌, length, get_or,
  get_or-replicate_self, bit_xor,
}
use native.Mathlib.Nat.{div-lt_iff_lt-mul}
use elib.Word.Pow.{two_pow-pos}
use elib.Word.Xor.{bit_xor-div}
use elib.Hash.{Hash, bucket_size, clear, clear_slots}
use elib.Hash.Search.First.{slot, IsBounded, Fits}
use elib.Hash.Mix.{HashState}
use elib.Hash.Update.{sized, alloc_table}

-- A whole number of buckets.
abbrev pub IsAligned : Hash → Type 0
IsAligned h = length h.bit_diffs ≡ length h.max_bucket_bit_diffs * bucket_size h

-- The bucket of a base index that is in a table of whole buckets lies in the table.
pub aligned-Fits : (h : Hash) (base : ℕ) → IsAligned h → base < length h.bit_diffs → Fits h base
aligned-Fits h base a lt =
    let size = bucket_size h in
    let rows = length h.max_bucket_bit_diffs in
    let positive = two_pow-pos h.log2_elts_per_bucket in
    let row : base / size < rows =
      (div-lt_iff_lt-mul {k = size} {x = base} {y = rows} positive).1 (omega (arith, lt, a)) in
    let place : (d : ℕ) → d < size → bit_xor base d < rows * size = λ d l.
      (div-lt_iff_lt-mul {k = size} {x = bit_xor base d} {y = rows} positive).0
        (omega (arith, row, bit_xor-div h.log2_elts_per_bucket base d l)) in
    (λ d l. omega (arith, place d l, a), row)

pub no_marks-IsBounded : (h : Hash) → ((i : ℕ) → slot h i ≡ 0) → IsBounded h
no_marks-IsBounded h z base d e = absurd (omega (arith, z (bit_xor base d), e))

cleared : (ds : List ℕ) (i : ℕ) → get_or (clear_slots ds) i 0 ≡ 0
cleared [] i = refl
cleared (d ∷ ds) zero = refl
cleared (d ∷ ds) (suc i) = cleared ds i

pub clear-IsBounded : (h : Hash) → IsBounded (clear h)
unfolding clear
clear-IsBounded h = no_marks-IsBounded (clear h) (cleared h.bit_diffs)

pub alloc_table-IsBounded : (seed : HashState) (h : Hash) → IsBounded (alloc_table seed h)
unfolding alloc_table
alloc_table-IsBounded seed h =
    no_marks-IsBounded (alloc_table seed h) (get_or-replicate_self (sized h).cap 0)
