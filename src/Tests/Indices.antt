-- ===== src/Tests/Indices.antt =====
-- A map of sparse indices with one word, which holds 1 and 3.
use native.Mathlib.Decide.{dec_lt}
use elib.Base.{
  Bool-cases, inl, inr, ==_iff, get_or-default, ℕ, zero, suc, ◌-◌, ◌*◌, ◌/◌, ◌%◌, ◌^◌, ◌≤◌, ◌<◌,
  ◌≡◌, refl, ap, ◌∙◌, true, false, [], ◌∷◌, ok, arith, length, get_or, leb, ◌==◌, if◌then◌else◌,
}
use elib.Word.Digits.{bit, bit_le, bit_high, bit-zero}
use elib.Bitmap.Update.Content.{vector_digit}
use elib.Sparse.{Sparse, get}
use elib.Sparse.Rank.{rank, IsCounted, get-rank}

abbrev one_three : Sparse
one_three = record {
  valid = record { items = 10 ∷ []; spare = [] };
  count = record { items = 0 ∷ []; spare = [] };
}

rank_4 : rank one_three 4 ≡ 2
unfolding rank bit
rank_4 = refl

no_digit : (n : ℕ) → 4 ≤ n → vector_digit one_three.valid n ≡ 0
no_digit n h = elim (Bool-cases (n / 64 == 0)) [
  | inl here ↦
      let e : n / 64 ≡ 0 = (==_iff _ 0).0 here in
      rw e (bit_high 4 10 (n % 64) (omega arith) (omega arith))
  | inr past ↦
      let q : 1 ≤ n / 64 = ground arith in
      rw (get_or-default one_three.valid.items (n / 64) 0 q) (bit-zero (n % 64))
]

rank_past : (n : ℕ) → 4 ≤ n → rank one_three n ≡ 2
unfolding rank
rank_past zero h = absurd (omega arith)
rank_past (suc n) h = elim (dec_lt n 4) [
  | yes q ↦ let e : suc n ≡ 4 = omega arith in ap (rank one_three) e ∙ rank_4
  | no q ↦ omega (arith, rank_past n (omega arith), no_digit n (omega arith))
]

rank_le : (n : ℕ) → rank one_three n ≤ n
unfolding rank
rank_le zero = omega arith
rank_le (suc n) =
    omega (arith, rank_le n, bit_le (get_or one_three.valid.items (n / 64) 0) (n % 64))

one_three-IsCounted : IsCounted one_three
unfolding rank
one_three-IsCounted = record { counted = counted; same_length = refl; words = words; few = few }
  where
    counted : (i : ℕ) → i < 1 → get_or one_three.count.items i 0 ≡ rank one_three (i * 64)
    counted zero h = let e : 0 * 64 ≡ 0 = omega arith in rw e refl
    counted (suc i) h = absurd (omega arith)

    words : (i : ℕ) → get_or one_three.valid.items i 0 < 2 ^ 64
    words zero = omega arith
    words (suc i) = omega arith

    few : (n : ℕ) → rank one_three n < 2 ^ 32
    few n = elim (dec_lt n 4) [
      | yes h ↦ omega (arith, rank_le n)
      | no h ↦ omega (arith, rank_past n (omega arith))
    ]

get-rank_example :
    get one_three 3
    ≡ ok (
        if vector_digit one_three.valid 3 == 1
        then (rank one_three 3, true)
        else (if leb (length one_three.valid.items) (3 / 64) then 0 else 2 ^ 32 - 1, false))
get-rank_example = get-rank one_three 3 one_three-IsCounted
