-- ===== src/Bits/Compress.antt =====
-- BitCompressUint64 of bits.go: the moves of a mask, and their use on a word.
use elib.Base.{
  ℕ, zero, suc, ◌+◌, ◌-◌, ◌^◌, List, [], ◌∷◌, Outcome, ok, ◌>>=◌, load, ◌≡◌, refl, bit_and, bit_xor,
}
use elib.Word.{complement, and_not, shl, shr}

-- m ^= m << k
abbrev pub smear : ℕ → ℕ → ℕ
smear m k = bit_xor m (shl m k)

-- The loop over the states 1 to 6, from `i` with `n` left.
pub set_mask_loop : ℕ → ℕ → ℕ → ℕ → List ℕ
set_mask_loop zero i m zm = []
set_mask_loop (suc n) i m zm =
    let q = m in
    let m = smear (smear (smear (smear (smear (smear m 1) 2) 4) 8) 16) 32 in
    let s = bit_and (shl m 1) zm in
    let m = and_not q m in
    let q = bit_and zm s in
    s ∷ set_mask_loop n (i + 1) m (bit_xor (bit_xor zm q) (shr q (2 ^ (i - 1))))

unfoldable pub set_mask : ℕ → List ℕ
unfolding set_mask_loop
set_mask mask = mask ∷ set_mask_loop 6 1 (complement mask) mask

unfoldable pub mask : List ℕ → Outcome ℕ
mask state = load state 0

-- q = r & state[k]; r ^= q ^ (q >> s)
abbrev pub move : List ℕ → ℕ → ℕ → ℕ → Outcome ℕ
move state k s r = do m ← load state k; let q = bit_and r m; ok (bit_xor r (bit_xor q (shr q s)))

unfoldable pub compress : List ℕ → ℕ → Outcome ℕ
compress state x = do
  m ← load state 0
  r ← move state 1 1 (bit_and x m)
  r ← move state 2 2 r
  r ← move state 3 4 r
  r ← move state 4 8 r
  r ← move state 5 16 r
  move state 6 32 r

compress_example : compress (set_mask 0xf0f0) 0x5a3c ≡ ok 0x53
unfolding compress set_mask
compress_example = refl
