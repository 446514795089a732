-- ===== src/Bits.antt =====
-- bits.go: counting, rounding and scanning the bits of a 64-bit machine word.
-- `Word` is `uintptr` and is taken as 64 bits; every result is written with its wrap-around.
pub mod Compress
pub mod Count
pub mod Log
pub mod Lowest
pub mod Scan
use elib.Base.{
  ℕ, zero, suc, ◌+◌, ◌-◌, ◌*◌, ◌/◌, ◌%◌, ◌^◌, Bool, Option, none, some, List, [], ◌∷◌, bit_and,
  bit_xor, ltb, ◌==◌, ◌!=◌, if◌then◌else◌,
}
use elib.Word.{word_mod, and_not, negate, shl, shr}

abbrev pub word_bits : ℕ
word_bits = 64

-- Helper to index word sized bitmaps: the word and the mask of a bit index.
unfoldable pub word_bitmap_index : ℕ → ℕ × ℕ
word_bitmap_index i = (i / word_bits, shl 1 (i % word_bits))

-- Sums of neighbouring fields, then the byte sums by one multiplication.
unfoldable pub n_set_bits : ℕ → ℕ
n_set_bits y =
    let x = (bit_and y 0x5555555555555555 + shr (bit_and y 0xaaaaaaaaaaaaaaaa) 1) % word_mod in
    let x = (bit_and x 0x3333333333333333 + shr (bit_and x 0xcccccccccccccccc) 2) % word_mod in
    let x = (bit_and x 0x0f0f0f0f0f0f0f0f + shr (bit_and x 0xf0f0f0f0f0f0f0f0) 4) % word_mod in
    let x = x * 0x0101010101010101 % word_mod in bit_and (shr x 56) 0xff

-- One round of the search: `y = x >> s; if y != 0 { n -= s; x = y }`.
abbrev pub halve : ℕ → ℕ × ℕ → ℕ × ℕ
halve s (n, x) = let y = shr x s in if y != 0 then (n - s, y) else (n, x)

-- The last round returns.
abbrev pub finish : ℕ × ℕ → ℕ
finish (n, x) = if shr x 1 != 0 then n - 2 else n - x

unfoldable pub n_leading_zeros : ℕ → ℕ
n_leading_zeros x = finish (halve 2 (halve 4 (halve 8 (halve 16 (halve 32 (word_bits, x))))))

-- 2^f where f is the lowest 1 bit in x
unfoldable pub first_set : ℕ → ℕ
first_set x = bit_and x (negate x)

-- true for x a power of 2
unfoldable pub is_pow2 : ℕ → Bool
is_pow2 x = bit_and x ((x + word_mod - 1) % word_mod) == 0

-- rounds x to a multiple of p, a power of two
unfoldable pub round_pow2 : ℕ → ℕ → ℕ
round_pow2 x p = and_not ((x + p + word_mod - 1) % word_mod) ((p + word_mod - 1) % word_mod)

unfoldable pub min_log2 : ℕ → ℕ
min_log2 x = (word_bits - 1 + word_mod - n_leading_zeros x) % word_mod

unfoldable pub max_log2 : ℕ → ℕ
max_log2 x = let l = min_log2 x in if ltb (shl 1 l) x then (l + 1) % word_mod else l

unfoldable pub max_pow2 : ℕ → ℕ
max_pow2 x = let z = min_log2 x in let y = shl 1 z in if ltb y x then (y + y) % word_mod else y

-- The word without its lowest bit, and that bit's index.
unfoldable pub next_set : ℕ → ℕ × ℕ
next_set x =
    let f = bit_and x (negate x) in
    (bit_xor x f, (word_bits - 1 + word_mod - n_leading_zeros f) % word_mod)

-- The calls of `fn`, in order. `none` means that the fuel ran out; the bits of a word are at
-- most 64, so 65 rounds are enough.
pub foreach_set_bit_loop : ℕ → ℕ → Option (List ℕ)
foreach_set_bit_loop zero x = none
foreach_set_bit_loop (suc fuel) x =
    let f = first_set x in
    let i = min_log2 f in
    let rest = foreach_set_bit_loop fuel (bit_xor x f) in
    if x != 0 then elim rest [ none ↦ none | some is ↦ some (i ∷ is) ] else some []

unfoldable pub foreach_set_bit : ℕ → Option (List ℕ)
unfolding foreach_set_bit_loop
foreach_set_bit x = foreach_set_bit_loop 65 x
