-- ===== src/Hash/Mix/Tail.antt =====
-- What MixPointer of hash.go mixes of the bytes after the last whole word.
use elib.Base.{
  ℕ, zero, suc, ◌+◌, ◌-◌, ◌*◌, ◌/◌, ◌%◌, ◌≤◌, ◌<◌, ◌≡◌, ap, ◌∙◌, arith, Bool-cases, inl, inr, leb,
  leb→le, leb→lt, lt→leb, if_false,
}
use elib.Hash.Mix.{
  Lanes, blocks_loop, mix_two, mix_one, mix_words, mix_four_bytes, mix_two_bytes, mix_pointer,
}

-- The offset at which the blocks end.
blocks_loop-ends :
    (get64 : ℕ → ℕ) (fuel n8 i : ℕ) (h : Lanes)
    → i ≤ n8
    → n8 < i + 32 * fuel
    → i % 8 ≡ 0
    → ((blocks_loop get64 fuel n8 i h).0 ≤ n8)
      × (n8 < (blocks_loop get64 fuel n8 i h).0 + 32)
      × ((blocks_loop get64 fuel n8 i h).0 % 8 ≡ 0)
unfolding blocks_loop
blocks_loop-ends get64 zero n8 i h le lt m = absurd (omega (arith, le, lt))
blocks_loop-ends get64 (suc fuel) n8 i h le lt m = elim (Bool-cases (leb (i + 32) n8)) [
  | inl e ↦ rw e (
      blocks_loop-ends get64 fuel n8 (i + 32) _ (leb→le (i + 32) n8 e) (omega (arith, lt))
        (omega (arith, m)))
  | inr e ↦ rw e (le, leb→lt (i + 32) n8 e, m)
]

mix_two-ends :
    (get64 : ℕ → ℕ) (n8 : ℕ) (p : ℕ × Lanes)
    → p.0 ≤ n8
    → n8 < p.0 + 32
    → p.0 % 8 ≡ 0
    → ((mix_two get64 n8 p).0 ≤ n8)
      × (n8 < (mix_two get64 n8 p).0 + 16)
      × ((mix_two get64 n8 p).0 % 8 ≡ 0)
unfolding mix_two
mix_two-ends get64 n8 (i, h) le lt m = elim (Bool-cases (leb (i + 16) n8)) [
  | inl e ↦ rw e (leb→le (i + 16) n8 e, omega (arith, lt), omega (arith, m))
  | inr e ↦ rw e (le, leb→lt (i + 16) n8 e, m)
]

mix_one-ends :
    (get64 : ℕ → ℕ) (n8 : ℕ) (p : ℕ × Lanes)
    → p.0 ≤ n8
    → n8 < p.0 + 16
    → p.0 % 8 ≡ 0
    → n8 % 8 ≡ 0
    → (mix_one get64 n8 p).0 ≡ n8
unfolding mix_one
mix_one-ends get64 n8 (i, h) le lt m m' = elim (Bool-cases (leb (i + 8) n8)) [
  | inl e ↦ rw e (omega (arith, leb→le (i + 8) n8 e, lt, m, m'))
  | inr e ↦ rw e (omega (arith, leb→lt (i + 8) n8 e, le, m, m'))
]

mix_words-ends : (get64 : ℕ → ℕ) (h : Lanes) (n : ℕ) → (mix_words get64 h n).0 ≡ n / 8 * 8
unfolding mix_words
mix_words-ends get64 h n =
    let n8 = n / 8 * 8 in
    let (a, b, c) =
      blocks_loop-ends get64 (n / 32 + 1) n8 0 h (omega arith) (omega arith) (omega arith) in
    let (a', b', c') = mix_two-ends get64 n8 (blocks_loop get64 (n / 32 + 1) n8 0 h) a b c in
    mix_one-ends get64 n8 (mix_two get64 n8 (blocks_loop get64 (n / 32 + 1) n8 0 h)) a' b' c'
      (omega arith)

mix_four_bytes-skips :
    (get32 : ℕ → ℕ) (n : ℕ) (p : ℕ × Lanes) → 8 ≤ p.0 → n < p.0 + 8 → mix_four_bytes get32 n p ≡ p
unfolding mix_four_bytes
mix_four_bytes-skips get32 n (i, h) le lt =
    if_false _ _ (lt→leb (i + 4) ((n - i) / 4 * 4) (omega (arith, le, lt)))

mix_two_bytes-skips :
    (get16 : ℕ → ℕ) (n : ℕ) (p : ℕ × Lanes) → 8 ≤ p.0 → n < p.0 + 8 → mix_two_bytes get16 n p ≡ p.1
unfolding mix_two_bytes
mix_two_bytes-skips get16 n (i, h) le lt =
    if_false _ _ (lt→leb (i + 2) ((n - i) / 2 * 2) (omega (arith, le, lt)))

-- MixPointer of 8 bytes or more mixes the whole words alone: the bytes after the last one do not
-- count.
pub mix_pointer-words :
    (get64 get32 get16 : ℕ → ℕ) (h : Lanes) (n : ℕ)
    → 8 ≤ n
    → mix_pointer get64 get32 get16 h n ≡ (mix_words get64 h n).1
unfolding mix_pointer
mix_pointer-words get64 get32 get16 h n le =
    let p = mix_words get64 h n in
    let at = mix_words-ends get64 h n in
    let low : 8 ≤ p.0 = omega (arith, at, le) in
    let high : n < p.0 + 8 = omega (arith, at) in
    ap (mix_two_bytes get16 n) (mix_four_bytes-skips get32 n p low high)
    ∙ mix_two_bytes-skips get16 n p low high
