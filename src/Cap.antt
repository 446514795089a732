-- ===== src/Cap.antt =====
-- cap.go: vector capacities of the form 2^i + 2^j.
-- `Cap` is `uint32`. The growth factors of NextUnit are `float64` constants: the product of such a
-- constant and a capacity, cut down to an integer, is a parameter.
pub mod Form
pub mod Growth
pub mod Logs
use elib.Base.{
  ℕ, zero, suc, ◌+◌, ◌-◌, ◌*◌, ◌/◌, ◌%◌, ◌^◌, ◌≤◌, ◌<◌, Bool, bit_and, bit_xor, ltb, ◌==◌, ◌!=◌,
  if◌then◌else◌,
}
use elib.Word.{word_mod, and_not, shl}
use elib.Bits.{min_log2, max_log2}

abbrev pub cap_mod : ℕ
cap_mod = 2 ^ 32

-- `-c` and `c - 1` on `uint32`.
abbrev pub negate_cap : ℕ → ℕ
negate_cap c = (2 ^ 32 - c) % 2 ^ 32

abbrev pub pred_cap : ℕ → ℕ
pred_cap c = (c + 2 ^ 32 - 1) % 2 ^ 32

-- True if removing first set bit gives a power of 2.
unfoldable pub is_valid : ℕ → Bool
is_valid c =
    let f = bit_and c (negate_cap c) in let c' = bit_xor c f in bit_and c' (pred_cap c') == 0

abbrev pub cap_nil : ℕ
cap_nil = 2 ^ 32 - 1

-- The power of two at the top of `w`, and the rest rounded up to one.
abbrev pub two_powers : ℕ → ℕ
two_powers w =
    let l0 = min_log2 w in
    let m0 = shl 1 l0 in let l1 = max_log2 (bit_xor w m0) in (m0 + shl 1 l1) % word_mod

unfoldable pub round : ℕ → ℕ → ℕ
round n log2_unit =
    let u = (shl 1 log2_unit + word_mod - 1) % word_mod in
    let w = and_not ((n + u) % word_mod) u in
    (if bit_and w ((w + word_mod - 1) % word_mod) != 0 then two_powers w else w) % cap_mod

unfoldable pub pow2 : ℕ → ℕ × ℕ
pow2 c =
    let j = bit_and c (negate_cap c) in
    let i = bit_xor c j in if i == 0 then (j, cap_nil) else (i, j)

unfoldable pub log2 : ℕ → ℕ × ℕ
unfolding pow2
log2 c =
    let (i, j) = pow2 c in (min_log2 i % cap_mod, if j != cap_nil then min_log2 j % cap_mod else j)

-- The three growth factors: doubling every 2, 8 or 16 expansions.
pub data Factor : Type 0 where
  every_2 every_8 every_16 : Factor

-- `Cap(float64(n) * factor)`: a factor is above 1 and below 2, so below half the range the
-- product is at least `n` and at most `2 * n`.
pub record FloatScale : Type 0 where
  pub scaled : Factor → ℕ → ℕ
  pub scaled_ge : (f : Factor) (n : ℕ) → n < 2 ^ 31 → n ≤ scaled f n
  pub scaled_le : (f : Factor) (n : ℕ) → n < 2 ^ 31 → scaled f n ≤ 2 * n

module _ (scale : FloatScale) where
  open scale use {scaled}

  unfoldable pub next_unit : ℕ → ℕ → ℕ → ℕ
  next_unit c log2_min log2_unit =
      let min_cap = pred_cap (2 ^ log2_min % cap_mod) in
      let n =
        if ltb c min_cap
        then min_cap
        else if ltb c 256
        then scaled every_2 c
        else if ltb c 1024
        then scaled every_8 c
        else scaled every_16 c in
      round n log2_unit

  unfoldable pub next : ℕ → ℕ
  unfolding next_unit
  next c = next_unit c 3 2

  -- NextResizeCap gives next larger resizeable array capacity.
  unfoldable pub next_resize_cap : ℕ → ℕ
  unfolding next
  next_resize_cap x = next x
