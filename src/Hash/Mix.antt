-- ===== src/Hash/Mix.antt =====
-- The hash state of hash.go and its mixing functions, on 64-bit words.
pub mod Tail
use elib.Base.{
  ℕ, zero, suc, ◌+◌, ◌-◌, ◌*◌, ◌/◌, ◌%◌, ◌^◌, Bool, true, false, List, [], ◌∷◌, bit_or, bit_xor,
  leb, if◌then◌else◌,
}
use elib.Word.{word_mod, shl, shr}

pub record HashState : Type 0 where
  pub s0 : ℕ
  pub s1 : ℕ

-- The four words that are mixed.
pub record Lanes : Type 0 where
  pub h0 : ℕ
  pub h1 : ℕ
  pub h2 : ℕ
  pub h3 : ℕ

abbrev pub rotate : ℕ → ℕ → ℕ
rotate h n = bit_or (shl h n) (shr h (64 - n))

-- The word `b` is only read.
abbrev pub mix_step : ℕ → ℕ → ℕ → ℕ → ℕ × ℕ
mix_step a b c n = let a' = (rotate a n + b) % word_mod in (a', bit_xor c a')

-- Four steps, with their counts.
unfoldable pub mix_round : ℕ → ℕ → ℕ → ℕ → Lanes → Lanes
mix_round n0 n1 n2 n3 h =
    let (a2, a0) = mix_step h.h2 h.h3 h.h0 n0 in
    let (a3, a1) = mix_step h.h3 a0 h.h1 n1 in
    let (b0, b2) = mix_step a0 a1 a2 n2 in
    let (b1, b3) = mix_step a1 b2 a3 n3 in record { h0 = b0; h1 = b1; h2 = b2; h3 = b3 }

unfoldable pub mix : Lanes → Lanes
mix h = mix_round 62 34 5 36 (mix_round 54 48 38 37 (mix_round 50 52 30 41 h))

abbrev pub fin_step : ℕ → ℕ → ℕ → ℕ × ℕ
fin_step a b n = let b' = rotate b n in ((bit_xor a b + b') % word_mod, b')

unfoldable pub fin_round : ℕ → ℕ → ℕ → ℕ → Lanes → Lanes
fin_round n0 n1 n2 n3 h =
    let (a3, a2) = fin_step h.h3 h.h2 n0 in
    let (a0, b3) = fin_step h.h0 a3 n1 in
    let (a1, b0) = fin_step h.h1 a0 n2 in
    let (b2, b1) = fin_step a2 a1 n3 in record { h0 = b0; h1 = b1; h2 = b2; h3 = b3 }

-- The last round has three steps.
unfoldable pub finalize : Lanes → HashState
finalize h =
    let g = fin_round 28 9 47 54 (fin_round 15 52 26 51 h) in
    let (a3, a2) = fin_step g.h3 g.h2 32 in
    let (a0, b3) = fin_step g.h0 a3 25 in
    let (a1, b0) = fin_step g.h1 a0 63 in record { s0 = b0; s1 = a1 }

unfoldable pub mix_uint64 : Lanes → ℕ → ℕ → ℕ → ℕ → Lanes
mix_uint64 h x0 x1 x2 x3 =
    let g = mix (record h { h2 = (h.h2 + x0) % word_mod; h3 = (h.h3 + x1) % word_mod }) in
    record g { h0 = (g.h0 + x2) % word_mod; h1 = (g.h1 + x3) % word_mod }

-- `i + 4 * 8 <= n8`
unfoldable pub blocks_loop : (ℕ → ℕ) → ℕ → ℕ → ℕ → Lanes → ℕ × Lanes
blocks_loop get64 zero n8 i h = (i, h)
blocks_loop get64 (suc fuel) n8 i h =
    let next =
      mix_uint64 h (get64 (i * 0 * 8)) (get64 (i * 1 * 8)) (get64 (i * 2 * 8))
        (get64 (i * 3 * 8)) in
    let rest = blocks_loop get64 fuel n8 (i + 32) next in if leb (i + 32) n8 then rest else (i, h)

-- Two words, when there are as many after the blocks.
unfoldable pub mix_two : (ℕ → ℕ) → ℕ → ℕ × Lanes → ℕ × Lanes
mix_two get64 n8 (i, h) =
    if leb (i + 16) n8
    then (i + 16, mix_uint64 h (get64 (i * 0 * 8)) (get64 (i * 1 * 8)) 0 0)
    else (i, h)

unfoldable pub mix_one : (ℕ → ℕ) → ℕ → ℕ × Lanes → ℕ × Lanes
mix_one get64 n8 (i, h) =
    if leb (i + 8) n8 then (i + 8, record h { h2 = (h.h2 + get64 i) % word_mod }) else (i, h)

-- The whole words, with the offset after the last.
unfoldable pub mix_words : (ℕ → ℕ) → Lanes → ℕ → ℕ × Lanes
mix_words get64 h n =
    let n8 = n / 8 * 8 in
    mix_one get64 n8 (mix_two get64 n8 (blocks_loop get64 (n / 32 + 1) n8 0 h))

unfoldable pub mix_four_bytes : (ℕ → ℕ) → ℕ → ℕ × Lanes → ℕ × Lanes
mix_four_bytes get32 n (i, h) =
    if leb (i + 4) ((n - i) / 4 * 4)
    then (i + 4, record h { h3 = (h.h3 + get32 i) % word_mod })
    else (i, h)

unfoldable pub mix_two_bytes : (ℕ → ℕ) → ℕ → ℕ × Lanes → Lanes
mix_two_bytes get16 n (i, h) =
    if leb (i + 2) ((n - i) / 2 * 2)
    then record h { h3 = (h.h3 + shl (get16 i) 32) % word_mod }
    else h

-- The reads of 64, 32 and 16 bits are those at an offset from the pointer. A mask with `&^ 7` is a
-- division and a product.
unfoldable pub mix_pointer : (ℕ → ℕ) → (ℕ → ℕ) → (ℕ → ℕ) → Lanes → ℕ → Lanes
mix_pointer get64 get32 get16 h n =
    mix_two_bytes get16 n (mix_four_bytes get32 n (mix_words get64 h n))

abbrev pub seed_const : ℕ
seed_const = 0xdeadbeefdeadbeef

abbrev pub init_lanes : HashState → Lanes
init_lanes s = record { h0 = s.s0; h1 = s.s1; h2 = seed_const; h3 = seed_const }

unfoldable pub hash_uint64 : HashState → ℕ → ℕ → ℕ → ℕ → HashState
hash_uint64 s x0 x1 x2 x3 = finalize (mix_uint64 (init_lanes s) x0 x1 x2 x3)

unfoldable pub hash_pointer : (ℕ → ℕ) → (ℕ → ℕ) → (ℕ → ℕ) → HashState → ℕ → HashState
hash_pointer get64 get32 get16 s n =
    let h = init_lanes s in
    finalize (mix_pointer get64 get32 get16 (record h { h0 = (h.h0 + n) % word_mod }) n)
