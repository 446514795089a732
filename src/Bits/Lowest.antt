-- ===== src/Bits/Lowest.antt =====
-- FirstSet, IsPow2, RoundPow2 and NextSet of bits.go, against the lowest set digit.
use native.Mathlib.Nat.{div-mul-le_self, lt-div-mul-add}
use elib.Base.{
  ℕ, zero, suc, ◌+◌, ◌-◌, ◌*◌, ◌/◌, ◌%◌, ◌^◌, ◌≤◌, ◌<◌, ◌≡◌, refl, sym, ◌∙◌, ap, arith, true, ◌⊎◌,
  ◌≢◌, inl, inr, ◌↔◌, ==_iff, ◌==◌,
}
use elib.Word.Digits.{bit}
use elib.Word.Lowest.{
  lowest_form, lowest_form-pos, lowest_form-ge, lowest_exists, bit_and-negate, bit_and-pred,
  bit_xor-lowest, clear_lowest, clear_lowest-zero, clear_lowest-zero_inv, lowest_form-two_pow,
  bit-clear_lowest, bit-lowest_form_self, bit-lowest_form_below,
}
use elib.Word.Mask.{and_not-mask}
use elib.Word.Pow.{two_pow-lt_inv, two_pow-pos}
use elib.Bits.{first_set, is_pow2, round_pow2, next_set, min_log2}
use elib.Bits.Log.{min_log2-two_pow}

pub first_set-lowest_form :
    (k q : ℕ) → lowest_form k q < 2 ^ 64 → first_set (lowest_form k q) ≡ 2 ^ k
unfolding first_set
first_set-lowest_form k q h =
    let e : (2 ^ 64 - lowest_form k q) % 2 ^ 64 ≡ 2 ^ 64 - lowest_form k q =
      omega (arith, lowest_form-pos k q) in
    rw e (bit_and-negate 64 k q h)

pub lowest_lt : (k q : ℕ) → lowest_form k q < 2 ^ 64 → k < 64
lowest_lt k q h = two_pow-lt_inv k 64 (omega (arith, lowest_form-ge k q, h))

-- For a positive word, FirstSet is the power of two at the lowest set bit: that bit is set, and
-- none below it.
pub first_set_lem :
    (x : ℕ)
    → 0 < x
    → x < 2 ^ 64
    → (k : ℕ) × (first_set x ≡ 2 ^ k) × (k < 64) × (bit x k ≡ 1) × ((j : ℕ) → j < k → bit x j ≡ 0)
first_set_lem x p h =
    let (k, q, e) = lowest_exists x p in
    rw e (
      k,
      first_set-lowest_form k q (rw e at h),
      lowest_lt k q (rw e at h),
      bit-lowest_form_self k q,
      bit-lowest_form_below k q,
    )

pub next_set-lowest_form :
    (k q : ℕ) → lowest_form k q < 2 ^ 64 → next_set (lowest_form k q) ≡ (clear_lowest k q, k)
unfolding next_set first_set min_log2
next_set-lowest_form k q h =
    rw (first_set-lowest_form k q h, bit_xor-lowest, min_log2-two_pow k (lowest_lt k q h))

-- NextSet returns the index of the lowest set bit of a positive word, and the word with exactly
-- that bit cleared.
pub next_set_lem :
    (x : ℕ)
    → 0 < x
    → x < 2 ^ 64
    → (bit x (next_set x).1 ≡ 1)
      × ((j : ℕ) → j < (next_set x).1 → bit x j ≡ 0)
      × (bit (next_set x).0 (next_set x).1 ≡ 0)
      × ((j : ℕ) → j ≢ (next_set x).1 → bit (next_set x).0 j ≡ bit x j)
next_set_lem x p h =
    let (k, q, e) = lowest_exists x p in
    rw (e, next_set-lowest_form k q (rw e at h))
      (
        bit-lowest_form_self k q,
        bit-lowest_form_below k q,
        ground (arith, bit-clear_lowest k q k),
        λ j d. ground (arith, bit-clear_lowest k q j),
      )

is_pow2-lowest_form :
    (k q : ℕ) → lowest_form k q < 2 ^ 64 → is_pow2 (lowest_form k q) ≡ (clear_lowest k q == 0)
unfolding is_pow2
is_pow2-lowest_form k q h =
    let pos = lowest_form-pos k q in
    let m : (lowest_form k q + 2 ^ 64 - 1) % 2 ^ 64 ≡ lowest_form k q - 1 = omega arith in
    rw (m, bit_and-pred k q)

-- For every word, IsPow2 holds exactly at zero and at the powers of two.
pub is_pow2_iff : (x : ℕ) → x < 2 ^ 64 → (is_pow2 x ≡ true) ↔ ((x ≡ 0) ⊎ ((k : ℕ) × (x ≡ 2 ^ k)))
is_pow2_iff zero h = (λ e. inl refl, λ e. unfold is_pow2 in refl)
is_pow2_iff (suc n) h = (there, back)
  where
    there : is_pow2 (suc n) ≡ true → (suc n ≡ 0) ⊎ ((k : ℕ) × (suc n ≡ 2 ^ k))
    there t =
        let (k, q, e) = lowest_exists (suc n) (omega arith) in
        let s = rw (e, is_pow2-lowest_form k q (rw e at h)) at t in
        let z = clear_lowest-zero_inv k q ((==_iff _ 0).0 s) in
        inr (k, e ∙ ap (lowest_form k) z ∙ lowest_form-two_pow k)

    back : (suc n ≡ 0) ⊎ ((k : ℕ) × (suc n ≡ 2 ^ k)) → is_pow2 (suc n) ≡ true
    back (inl z) = absurd (omega arith)
    back (inr (j, p)) =
        let e = p ∙ sym (lowest_form-two_pow j) in
        rw (e, is_pow2-lowest_form j 0 (rw e at h), clear_lowest-zero)

-- RoundPow2 by a power of two rounds up to the next multiple of it, when that fits the word.
pub round_pow2_lem :
    (x k : ℕ)
    → k < 64
    → x + 2 ^ k ≤ 2 ^ 64
    → (m : ℕ) × (round_pow2 x (2 ^ k) ≡ m * 2 ^ k) × (x ≤ m * 2 ^ k) × (m * 2 ^ k < x + 2 ^ k)
unfolding round_pow2
round_pow2_lem x k h p =
    let pos = two_pow-pos k in
    let y = x + 2 ^ k - 1 in
    let a : (x + 2 ^ k + 2 ^ 64 - 1) % 2 ^ 64 ≡ y = omega arith in
    let b : (2 ^ k + 2 ^ 64 - 1) % 2 ^ 64 ≡ 2 ^ k - 1 = omega arith in
    let high = lt-div-mul-add {a = y} {b = 2 ^ k} pos in
    (
      y / 2 ^ k,
      rw (a, b) (and_not-mask k y (omega arith) (omega arith)),
      omega arith,
      omega (arith, div-mul-le_self y (2 ^ k)),
    )
