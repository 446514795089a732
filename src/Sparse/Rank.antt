-- ===== src/Sparse/Rank.antt =====
-- The dense index of a sparse one is its rank: the number of the indices in use below it.
use elib.Base.{
  ℕ, zero, suc, ◌+◌, ◌-◌, ◌*◌, ◌/◌, ◌%◌, ◌^◌, ◌≤◌, ◌<◌, ◌≡◌, refl, ◌∙◌, ap, arith, true, false, ok,
  length, get_or, bit_and, leb, ◌==◌, ◌!=◌, if◌then◌else◌, Bool-cases, inl, inr, get_elem?-get_or,
  get_or-default, leb→le, leb→lt,
}
use elib.Word.Digits.{bit, bit-zero}
use elib.Word.Mask.{bit_and-mask}
use elib.Word.Pow.{mod-two_pow-suc}
use elib.Word.Pow.{two_pow-pos}
use elib.Word.Bounds.{bit_and-lt}
use elib.Bits.{n_set_bits}
use elib.Bits.Count.{n_set_bits-digit_sum}
use elib.Bits.Count.Bytes.{digit_sum}
use elib.Bitmap.Update.Content.{vector_digit, mask_test, shl-one}
use elib.Sparse.{Sparse, get, dense_index}

-- The number of indices in use below `n`.
unfoldable pub rank : Sparse → ℕ → ℕ
rank s zero = 0
rank s (suc n) = rank s n + vector_digit s.valid n

-- The counts are the ranks at the words, the words have 64 bits, and the indices in use can be counted in 32 bits.
pub record IsCounted (s : Sparse) : Type 0 where
  pub counted : (i : ℕ) → i < length s.valid.items → get_or s.count.items i 0 ≡ rank s (i * 64)
  pub same_length : length s.count.items ≡ length s.valid.items
  pub words : (i : ℕ) → get_or s.valid.items i 0 < 2 ^ 64
  pub few : (n : ℕ) → rank s n < 2 ^ 32

digit_sum-suc : (k x : ℕ) → digit_sum (suc k) x ≡ digit_sum k x + bit x k
unfolding digit_sum bit
digit_sum-suc zero x = omega arith
digit_sum-suc (suc k) x = omega (arith, digit_sum-suc k (x / 2))

digit_sum-none : (x : ℕ) → digit_sum 0 x ≡ 0
unfolding digit_sum
digit_sum-none x = refl

digit_sum-zero : (n : ℕ) → digit_sum n 0 ≡ 0
unfolding digit_sum
digit_sum-zero zero = refl
digit_sum-zero (suc n) = omega (arith, digit_sum-zero n)

-- The digits below `k` are those of the remainder.
digit_sum-mod : (n k x : ℕ) → k ≤ n → digit_sum n (x % 2 ^ k) ≡ digit_sum k x
unfolding digit_sum
digit_sum-mod n zero x h = let e : x % 2 ^ 0 ≡ 0 = omega arith in rw e (digit_sum-zero n)
digit_sum-mod zero (suc k) x h = absurd (omega arith)
digit_sum-mod (suc n) (suc k) x h =
    let pos = two_pow-pos k in
    let low : x % 2 ^ suc k % 2 ≡ x % 2 = omega (arith, mod-two_pow-suc k x) in
    let high : x % 2 ^ suc k / 2 ≡ x / 2 % 2 ^ k = omega (arith, mod-two_pow-suc k x) in
    rw (low, high, digit_sum-mod n k (x / 2) (omega arith)) refl

rank-word :
    (s : Sparse) (i k : ℕ)
    → k ≤ 64
    → rank s (i * 64 + k) ≡ rank s (i * 64) + digit_sum k (get_or s.valid.items i 0)
unfolding rank
rank-word s i zero h =
    let e : i * 64 + 0 ≡ i * 64 = omega arith in
    rw e (omega (arith, digit_sum-none (get_or s.valid.items i 0)))
rank-word s i (suc k) h =
    let e : i * 64 + suc k ≡ suc (i * 64 + k) = omega arith in
    let a : (i * 64 + k) / 64 ≡ i = omega arith in
    let b : (i * 64 + k) % 64 ≡ k = omega arith in
    rw (e, rank-word s i k (omega arith), digit_sum-suc k (get_or s.valid.items i 0), a, b)
      (omega arith)

dense :
    (s : Sparse) (i k : ℕ)
    → IsCounted s
    → i < length s.valid.items
    → k < 64
    → dense_index (get_or s.count.items i 0) (get_or s.valid.items i 0) (2 ^ k)
      ≡ rank s (i * 64 + k)
dense s i k h q r =
    let v = get_or s.valid.items i 0 in
    let small : v % 2 ^ k < 2 ^ 64 =
      rw (bit_and-mask k v) at (bit_and-lt 64 v (2 ^ k - 1) (h.words i)) in
    let counted : n_set_bits (v % 2 ^ k) ≡ digit_sum k v =
      n_set_bits-digit_sum (v % 2 ^ k) small ∙ digit_sum-mod 64 k v (omega arith) in
    rw (bit_and-mask k v, counted)
      (omega (arith, h.counted i q, rank-word s i k (omega arith), h.few (i * 64 + k)))

-- Get of a sparse index in use returns its rank among them. For an index that is not in use it returns
-- that it is not, with the largest index inside the words and zero past them.
pub get-rank :
    (s : Sparse) (x : ℕ)
    → IsCounted s
    → get s x
      ≡ ok (
          if vector_digit s.valid x == 1
          then (rank s x, true)
          else (if leb (length s.valid.items) (x / 64) then 0 else 2 ^ 32 - 1, false))
unfolding get
get-rank s x h =
    let i = x / 64 in
    let k = x % 64 in
    elim (Bool-cases (leb (length s.valid.items) i)) [
      | inl past ↦ rw (past, get_or-default s.valid.items i 0 (leb→le _ _ past), bit-zero k) refl
      | inr inside ↦
          let q : i < length s.valid.items = leb→lt _ _ inside in
          let v = get_or s.valid.items i 0 in
          let m = shl-one k (omega arith) in
          let test : (bit_and v (2 ^ k) != 0) ≡ (bit v k == 1) =
            rw m at (mask_test v k (omega arith)) in
          rw
            (
              inside,
              get_elem?-get_or s.valid.items i 0 q,
              m,
              test,
              get_elem?-get_or s.count.items i 0 (omega (arith, h.same_length)),
            )
            (elim (Bool-cases (bit v k == 1)) [
              | inl hit ↦ rw hit (
                  ap (λ (r : ℕ). ok (r, true))
                    (dense s i k h q (omega arith) ∙ ap (rank s) (omega arith)))
              | inr miss ↦ rw miss refl
            ])
    ]
