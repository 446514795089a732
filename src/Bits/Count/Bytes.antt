-- ===== src/Bits/Count/Bytes.antt =====
-- The rounds of sums of NSetBits in bits.go, on one byte and on the bytes of a word.
use elib.Base.{
  false, Bool-cases, inl, inr, ==_iff, if◌then◌else◌, ℕ, zero, suc, ◌+◌, ◌/◌, ◌%◌, ◌^◌, ◌<◌, ◌≡◌,
  refl, ◌∙◌, ap, arith, Bool, true, bit_and, ltb, ◌==◌, ◌&&◌,
}
use elib.Bits.Count.Spread.{spread, spread-lt, spread-spread, round, round_byte, round-spread}

-- The number of set bits among the `n` lowest.
unfoldable pub digit_sum : ℕ → ℕ → ℕ
digit_sum zero x = 0
digit_sum (suc n) x = x % 2 + digit_sum n (x / 2)

-- The three rounds on one byte, checked at every byte.
abbrev pub pop_byte : ℕ → ℕ
pop_byte b = round_byte 0x0f 0xf0 16 (round_byte 0x33 0xcc 4 (round_byte 0x55 0xaa 2 b))

-- The test `p` at every number below `n`.
passes : (ℕ → Bool) → ℕ → Bool
passes p zero = true
passes p (suc n) = if p n then passes p n else false

passes-true : (p : ℕ → Bool) (n : ℕ) → passes p n ≡ true → (k : ℕ) → k < n → p k ≡ true
unfolding passes
passes-true p zero h k q = absurd (omega arith)
passes-true p (suc n) h k q = elim (Bool-cases (p n)) [
  | inl here ↦ elim (Bool-cases (k == n)) [
    | inl last ↦ let e : k ≡ n = (==_iff k n).0 last in rw e here
    | inr earlier ↦ passes-true p n (rw here at h) k (ground arith)
  ]
  | inr fails ↦ absurd (ground arith)
]

byte_test : ℕ → Bool
byte_test b =
    bit_and b 0xaa % 2 == 0
    && bit_and b 0xcc % 4 == 0
    && bit_and b 0xf0 % 16 == 0
    && ltb (round_byte 0x55 0xaa 2 b) 256
    && ltb (round_byte 0x33 0xcc 4 b) 256
    && pop_byte b == digit_sum 8 b
    && ltb (digit_sum 8 b) 9

byte_table : passes byte_test 256 ≡ true
unfolding passes byte_test digit_sum
byte_table = refl

pub record ByteFacts (b : ℕ) : Type 0 where
  pub even : bit_and b 0xaa % 2 ≡ 0
  pub pairs : bit_and b 0xcc % 4 ≡ 0
  pub nibbles : bit_and b 0xf0 % 16 ≡ 0
  pub first : round_byte 0x55 0xaa 2 b < 256
  pub second : round_byte 0x33 0xcc 4 b < 256
  pub popped : pop_byte b ≡ digit_sum 8 b
  pub few : digit_sum 8 b < 9

pub byte_facts : (b : ℕ) → b < 256 → ByteFacts b
unfolding byte_test
byte_facts b h = let t = passes-true byte_test 256 byte_table b h in ground arith

pub pop_byte-lt : (b : ℕ) → b < 256 → pop_byte b < 9
pop_byte-lt b h = let f = byte_facts b h in omega (arith, f.popped, f.few)

abbrev pub first_round : ℕ → ℕ
first_round = round 0x55 0xaa 2 8

abbrev pub second_round : ℕ → ℕ
second_round = round 0x33 0xcc 4 8

first_round-spread : (x : ℕ) → first_round x ≡ spread 8 (round_byte 0x55 0xaa 2) x
first_round-spread =
    round-spread 0x55 0xaa 2 128 (omega arith) (omega arith) (omega arith) refl
      (λ b h. (byte_facts b h).even) 8

second_round-spread : (x : ℕ) → second_round x ≡ spread 8 (round_byte 0x33 0xcc 4) x
second_round-spread =
    round-spread 0x33 0xcc 4 64 (omega arith) (omega arith) (omega arith) refl
      (λ b h. (byte_facts b h).pairs) 8

pub first_round-lt : (x : ℕ) → first_round x < 2 ^ 64
first_round-lt x = rw (first_round-spread x) (spread-lt 8 _ x (λ b h. (byte_facts b h).first))

pub second_round-lt : (x : ℕ) → second_round x < 2 ^ 64
second_round-lt x = rw (second_round-spread x) (spread-lt 8 _ x (λ b h. (byte_facts b h).second))

-- The three rounds on a word leave the count of each byte in its place.
pub rounds-spread :
    (x : ℕ) → round 0x0f 0xf0 16 8 (second_round (first_round x)) ≡ spread 8 pop_byte x
rounds-spread x =
    let f1 = round_byte 0x55 0xaa 2 in
    let f2 = round_byte 0x33 0xcc 4 in
    let f3 = round_byte 0x0f 0xf0 16 in
    let third =
      round-spread 0x0f 0xf0 16 16 (omega arith) (omega arith) (omega arith) refl
        (λ b h. (byte_facts b h).nibbles) 8 (second_round (first_round x)) in
    let small = λ (b : ℕ) (h : b < 256). (byte_facts b h).first in
    let small' = λ (b : ℕ) (h : b < 256). (byte_facts (f1 b) (small b h)).second in
    third
    ∙ ap (spread 8 f3) (
        second_round-spread (first_round x)
        ∙ ap (spread 8 f2) (first_round-spread x)
        ∙ spread-spread 8 f1 f2 x small)
    ∙ spread-spread 8 (λ b. f2 (f1 b)) f3 x small'
