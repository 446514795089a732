-- ===== src/Bits/Count.antt =====
-- NSetBits of bits.go: the three rounds of sums leave the count of each byte in its place, and the
-- multiplication adds the bytes up.
pub mod Bytes
mod Spread
use native.Mathlib.Nat.{
  mod-eq_of_lt, pow-suc, zero-mod, zero-div, div-add-mod', mul-add-mod_self_right,
  mul-add-div_right,
}
use elib.Base.{
  ℕ, zero, suc, ◌+◌, ◌*◌, ◌/◌, ◌%◌, ◌^◌, ◌<◌, ◌≡◌, refl, sym, ◌∙◌, ap, arith, Bool, true, bit_and,
  ltb, ◌==◌, ◌&&◌,
}
use elib.Word.Digits.{bit_and_step}
use elib.Word.Mask.{bit_and-zero, zero-bit_and, bit_and-mask}
use elib.Bits.{n_set_bits}
use elib.Bits.Count.Spread.{spread, spread-lt}
use elib.Bits.Count.Bytes.{
  digit_sum, ByteFacts, byte_facts, pop_byte, pop_byte-lt, first_round, second_round,
  first_round-lt, second_round-lt, rounds-spread,
}

digit_sum-byte :
    (n x : ℕ)
    → digit_sum (suc (suc (suc (suc (suc (suc (suc (suc n)))))))) x
      ≡ digit_sum 8 (x % 256) + digit_sum n (x / 256)
unfolding digit_sum
digit_sum-byte n x =
    let e : x / 2 / 2 / 2 / 2 / 2 / 2 / 2 / 2 ≡ x / 256 = omega arith in rw e (omega arith)

-- The multiplication adds the bytes up in the highest byte.
sum_by_product :
    (a b c d e f g h : ℕ)
    → a < 9
    → b < 9
    → c < 9
    → d < 9
    → e < 9
    → f < 9
    → g < 9
    → h < 9
    → ((((((((0 * 256 + a) * 256 + b) * 256 + c) * 256 + d) * 256 + e) * 256 + f) * 256 + g) * 256
          + h)
        * 0x0101010101010101
        % 2 ^ 64
        / 2 ^ 56
      ≡ a + b + c + d + e + f + g + h
sum_by_product a b c d e f g h ha hb hc hd he hf hg hh = omega arith

n_set_bits-product :
    (x : ℕ) → n_set_bits x ≡ spread 8 pop_byte x * 0x0101010101010101 % 2 ^ 64 / 2 ^ 56 % 256
unfolding n_set_bits
n_set_bits-product x =
    let small = spread-lt 8 pop_byte x (λ b h. omega (arith, pop_byte-lt b h)) in
    rw
      (
        mod-eq_of_lt (first_round-lt x),
        mod-eq_of_lt (second_round-lt (first_round x)),
        rounds-spread x,
        mod-eq_of_lt small,
      )
      (bit_and-mask 8 _)

-- Byte `i` of `x`.
abbrev byte : ℕ → ℕ → ℕ
byte zero x = x % 256
byte (suc i) x = byte i (x / 256)

byte-lt : (i x : ℕ) → byte i x < 256
byte-lt zero x = omega arith
byte-lt (suc i) x = byte-lt i (x / 256)

-- The set bits of byte `i`, as the rounds leave them and as a count.
abbrev popped : ℕ → ℕ → ℕ
popped i x = pop_byte (byte i x)

popped-digit_sum : (i x : ℕ) → popped i x ≡ digit_sum 8 (byte i x)
popped-digit_sum i x = (byte_facts (byte i x) (byte-lt i x)).popped

popped-lt : (i x : ℕ) → popped i x < 9
popped-lt i x = pop_byte-lt (byte i x) (byte-lt i x)

abbrev popped_sum : ℕ → ℕ
popped_sum x =
    popped 7 x
    + popped 6 x
    + popped 5 x
    + popped 4 x
    + popped 3 x
    + popped 2 x
    + popped 1 x
    + popped 0 x

product-popped_sum :
    (x : ℕ) → spread 8 pop_byte x * 0x0101010101010101 % 2 ^ 64 / 2 ^ 56 ≡ popped_sum x
unfolding spread
product-popped_sum x =
    sum_by_product (popped 7 x) (popped 6 x) (popped 5 x) (popped 4 x) (popped 3 x) (popped 2 x)
      (popped 1 x) (popped 0 x) (popped-lt 7 x) (popped-lt 6 x) (popped-lt 5 x) (popped-lt 4 x)
      (popped-lt 3 x) (popped-lt 2 x) (popped-lt 1 x) (popped-lt 0 x)

digit_sum-popped_sum : (x : ℕ) → x < 2 ^ 64 → digit_sum 64 x ≡ popped_sum x
digit_sum-popped_sum x h =
    let x1 = x / 256 in
    let x2 = x1 / 256 in
    let x3 = x2 / 256 in
    let x4 = x3 / 256 in
    let x5 = x4 / 256 in
    let x6 = x5 / 256 in
    let x7 = x6 / 256 in
    let none_left : digit_sum 0 (x7 / 256) ≡ 0 = unfold digit_sum in refl in
    omega (
      arith,
      none_left,
      digit_sum-byte 56 x,
      digit_sum-byte 48 x1,
      digit_sum-byte 40 x2,
      digit_sum-byte 32 x3,
      digit_sum-byte 24 x4,
      digit_sum-byte 16 x5,
      digit_sum-byte 8 x6,
      digit_sum-byte 0 x7,
      popped-digit_sum 0 x,
      popped-digit_sum 1 x,
      popped-digit_sum 2 x,
      popped-digit_sum 3 x,
      popped-digit_sum 4 x,
      popped-digit_sum 5 x,
      popped-digit_sum 6 x,
      popped-digit_sum 7 x,
    )

-- NSetBits of a word is the number of its set bits.
pub n_set_bits-digit_sum : (x : ℕ) → x < 2 ^ 64 → n_set_bits x ≡ digit_sum 64 x
n_set_bits-digit_sum x h =
    let few : popped_sum x % 256 ≡ popped_sum x = omega (
      arith,
      popped-lt 0 x,
      popped-lt 1 x,
      popped-lt 2 x,
      popped-lt 3 x,
      popped-lt 4 x,
      popped-lt 5 x,
      popped-lt 6 x,
      popped-lt 7 x,
    ) in
    n_set_bits-product x
    ∙ ap (λ (t : ℕ). t % 256) (product-popped_sum x)
    ∙ few
    ∙ sym (digit_sum-popped_sum x h)
