-- ===== src/Cap/Growth.antt =====
-- Round and NextResizeCap of cap.go: the next capacity is large enough, and valid.
use native.Mathlib.Nat.{div-mul-le_self, lt-div-mul-add, mod-eq_of_lt}
use native.Mathlib.Decide.{dec_lt}
use elib.Base.{
  ℕ, zero, suc, ◌+◌, ◌-◌, ◌*◌, ◌/◌, ◌%◌, ◌^◌, ◌≤◌, ◌<◌, ◌≡◌, ◌≢◌, refl, ◌∙◌, ap, arith, true, false,
  inl, inr, bit_xor, ltb, if◌then◌else◌, Bool-cases,
}
use elib.Word.Lowest.{bit_xor-top}
use elib.Word.Mask.{and_not-mask}
use elib.Word.Pow.{two_pow-pos, two_pow-lt_inv, two_pow-le, two_pow-suc}
use elib.Bits.{is_pow2, min_log2, max_log2}
use elib.Bits.Log.{min_log2_lem, max_log2-max_pow2}
use elib.Bits.Lowest.{is_pow2_iff}
use elib.Cap.{is_valid, round, two_powers, FloatScale, every_2, every_8, every_16, next_resize_cap}
use elib.Cap.Form.{is_valid_iff, IsSum}

-- A capacity that IsValid accepts, from `w` up to 2^31.
record Rounded (w c : ℕ) : Type 0 where
  enough : w ≤ c
  bounded : c ≤ 2 ^ 31
  sum : IsSum c

two_powers-IsSum : (i j : ℕ) → j ≤ i → IsSum (2 ^ i + 2 ^ j)
two_powers-IsSum i j h = elim (dec_lt j i) [
  | yes p ↦ inr (inr (i, j, p, refl))
  | no p ↦ let e : j ≡ i = omega arith in inr (inl (i + 1, rw (e, two_pow-suc)))
]

two_powers-Rounded : (w : ℕ) → 0 < w → w < 2 ^ 31 → is_pow2 w ≡ false → Rounded w (two_powers w)
two_powers-Rounded w p h t =
    let l0 = min_log2 w in
    let (small, low, high) = min_log2_lem w p (omega arith) in
    let r = w - 2 ^ l0 in
    let l1 = max_log2 r in
    let other : w ≢ 2 ^ l0 = λ e. cc ((is_pow2_iff w (omega arith)).1 (inr (l0, e))) in
    let (up, least, _) = max_log2-max_pow2 r (omega arith) (omega arith) in
    let below : l1 ≤ l0 = least l0 (omega arith) in
    let top : 2 ^ l0 ≤ 2 ^ 30 =
      two_pow-le {a = l0} {b = 30} (omega (arith, two_pow-lt_inv l0 31 (omega arith))) in
    let second : 2 ^ l1 ≤ 2 ^ l0 = two_pow-le below in
    let cleared : bit_xor w (2 ^ l0) ≡ r =
      ap (λ (t : ℕ). bit_xor t (2 ^ l0)) (omega arith) ∙ bit_xor-top l0 r (omega arith) in
    let s0 : 1 * 2 ^ l0 % 2 ^ 64 ≡ 2 ^ l0 = omega arith in
    let s1 : 1 * 2 ^ l1 % 2 ^ 64 ≡ 2 ^ l1 = omega arith in
    let whole : (2 ^ l0 + 2 ^ l1) % 2 ^ 64 ≡ 2 ^ l0 + 2 ^ l1 = omega arith in
    rw (s0, cleared, s1, whole)
      (record { enough = omega arith; bounded = omega arith; sum = two_powers-IsSum l0 l1 below })

power-IsSum : (w : ℕ) → w < 2 ^ 64 → is_pow2 w ≡ true → IsSum w
power-IsSum w h t = elim ((is_pow2_iff w h).0 t) [ inl z ↦ inl z | inr p ↦ inr (inl p) ]

not_zero : (w : ℕ) → is_pow2 w ≡ false → 0 < w
not_zero zero t = absurd (cc ((is_pow2_iff 0 (omega arith)).1 (inl refl)))
not_zero (suc w) t = omega arith

round-Rounded : (n l : ℕ) → l < 32 → n + 2 ^ l ≤ 2 ^ 31 → Rounded n (round n l)
unfolding round is_pow2
round-Rounded n l h b =
    let pos = two_pow-pos l in
    let y = n + (2 ^ l - 1) in
    let w = y / 2 ^ l * 2 ^ l in
    let s : (1 * 2 ^ l % 2 ^ 64 + 2 ^ 64 - 1) % 2 ^ 64 ≡ 2 ^ l - 1 = omega arith in
    let a : y % 2 ^ 64 ≡ y = omega arith in
    let ge = lt-div-mul-add {a = y} {b = 2 ^ l} pos in
    let le = div-mul-le_self y (2 ^ l) in
    rw (s, a, and_not-mask l y (omega arith) (omega arith))
      (elim (Bool-cases (is_pow2 w)) [
        | inl power ↦
            let same : w % 2 ^ 32 ≡ w = omega arith in
            rw (power, same)
              (record {
                enough = omega arith;
                bounded = omega arith;
                sum = power-IsSum w (omega arith) power;
              })
        | inr other ↦
            let sum = two_powers-Rounded w (not_zero w other) (omega arith) other in
            let same : two_powers w % 2 ^ 32 ≡ two_powers w =
              mod-eq_of_lt (omega (arith, sum.bounded)) in
            rw (other, same)
              (record { enough = omega (arith, sum.enough); bounded = sum.bounded; sum = sum.sum })
      ])

-- Round to a unit of `2 ^ l`, of a capacity that leaves room below 2^31, gives a capacity that is
-- at least the one asked for, at most 2^31, and accepted by IsValid.
pub round_lem :
    (n l : ℕ)
    → l < 32
    → n + 2 ^ l ≤ 2 ^ 31
    → (n ≤ round n l) × (round n l ≤ 2 ^ 31) × (is_valid (round n l) ≡ true)
round_lem n l h b =
    let r = round-Rounded n l h b in
    (r.enough, r.bounded, (is_valid_iff (round n l) (omega (arith, r.bounded))).1 r.sum)

module _ (scale : FloatScale) (x : ℕ) (h : x ≤ 2 ^ 29) where
  -- The length that Next asks Round for.
  abbrev grown : ℕ
  grown =
      if ltb x 7
      then 7
      else if ltb x 256
      then scale.scaled every_2 x
      else if ltb x 1024
      then scale.scaled every_8 x
      else scale.scaled every_16 x

  grown_bounds : (x ≤ grown) × (7 ≤ grown) × (grown ≤ 2 ^ 30 + 7)
  grown_bounds = ground (
    arith,
    scale.scaled_ge every_2 x,
    scale.scaled_ge every_8 x,
    scale.scaled_ge every_16 x,
    scale.scaled_le every_2 x,
    scale.scaled_le every_8 x,
    scale.scaled_le every_16 x,
  )

  -- NextResizeCap of a length up to 2^29 is a valid capacity of at least that length, at least 7
  -- and at most 2^31.
  pub next_resize_cap_lem :
      (x ≤ next_resize_cap scale x)
      × (7 ≤ next_resize_cap scale x)
      × (next_resize_cap scale x ≤ 2 ^ 31)
      × (is_valid (next_resize_cap scale x) ≡ true)
  unfolding next_resize_cap
  next_resize_cap_lem =
      let (ge, seven, le) = grown_bounds in
      let (a, b, c) = round_lem grown 2 (omega arith) (omega arith) in
      (omega arith, omega arith, b, c)
