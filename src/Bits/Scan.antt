-- ===== src/Bits/Scan.antt =====
-- ForeachSetBit of bits.go visits every set bit once, in ascending order.
use native.Mathlib.Decide.{ℕ_discrete, dec_lt}
use elib.Base.{
  ℕ, zero, suc, ◌+◌, ◌^◌, ◌≤◌, ◌<◌, ◌≡◌, refl, sym, ap, arith, false, ne→==, ◌==◌, if◌then◌else◌,
  List, [], ◌∷◌, some,
}
use elib.Word.Digits.{bit, bit-zero}
use elib.Word.Lowest.{
  lowest_form, lowest_form-pos, lowest_exists, bit_xor-lowest, clear_lowest, bit-clear_lowest,
  bit-lowest_form_self, bit-lowest_form_below, clear_lowest-lt,
}
use elib.Bits.{foreach_set_bit_loop, foreach_set_bit}
use elib.Bits.Log.{min_log2-two_pow}
use elib.Bits.Lowest.{first_set-lowest_form, lowest_lt}

-- The positions of the set digits of `x` among the `n` from `s` on, in ascending order.
abbrev pub positions : ℕ → ℕ → ℕ → List ℕ
positions zero s x = []
positions (suc n) s x = if bit x s == 1 then s ∷ positions n (suc s) x else positions n (suc s) x

positions-ext :
    (n s x y : ℕ) → ((j : ℕ) → s ≤ j → bit x j ≡ bit y j) → positions n s x ≡ positions n s y
positions-ext zero s x y h = refl
positions-ext (suc n) s x y h =
    rw (h s (omega arith), positions-ext n (suc s) x y (λ j p. h j (omega arith)))

positions-skip :
    (n s k x : ℕ)
    → s ≤ k
    → k < s + n
    → ((j : ℕ) → j < k → bit x j ≡ 0)
    → bit x k ≡ 1
    → (m : ℕ) × (m + k + 1 ≡ s + n) × (positions n s x ≡ k ∷ positions m (suc k) x)
positions-skip zero s k x p q low hit = absurd (omega arith)
positions-skip (suc n) s k x p q low hit = elim (ℕ_discrete s k) [
  | yes e ↦ let here = rw (← e) at hit in (n, omega arith, rw (here, e))
  | no d ↦
      let (m, sum, rest) = positions-skip n (suc s) k x (omega arith) (omega arith) low hit in
      (m, omega arith, rw (low s (omega arith)) rest)
]

lower : (s k x : ℕ) → ((j : ℕ) → j < s → bit x j ≡ 0) → bit x k ≡ 1 → s ≤ k
lower s k x low hit = elim (dec_lt k s) [
  | yes p ↦ absurd (omega (arith, low k p))
  | no p ↦ omega arith
]

positions-zero : (n s x : ℕ) → ((j : ℕ) → s ≤ j → bit x j ≡ 0) → positions n s x ≡ []
positions-zero zero s x h = refl
positions-zero (suc n) s x h =
    rw (h s (omega arith)) (positions-zero n (suc s) x (λ j p. h j (omega arith)))

loop-lowest_form :
    (fuel k q : ℕ)
    → lowest_form k q < 2 ^ 64
    → {is : List ℕ} → foreach_set_bit_loop fuel (clear_lowest k q) ≡ some is
    → foreach_set_bit_loop (suc fuel) (lowest_form k q) ≡ some (k ∷ is)
unfolding foreach_set_bit_loop
loop-lowest_form fuel k q h rest =
    let more : (lowest_form k q == 0) ≡ false = ne→== _ 0 (omega (arith, lowest_form-pos k q)) in
    rw (
      more,
      first_set-lowest_form k q h,
      bit_xor-lowest,
      rest,
      first_set-lowest_form k q h,
      min_log2-two_pow k (lowest_lt k q h),
    )

-- From the position `s` on, with `n` positions left.
loop_positions :
    (fuel n s x : ℕ)
    → n < fuel
    → s + n ≡ 64
    → x < 2 ^ 64
    → ((j : ℕ) → j < s → bit x j ≡ 0)
    → foreach_set_bit_loop fuel x ≡ some (positions n s x)
loop_positions zero n s x f e h low = absurd (omega arith)
loop_positions (suc fuel) n s zero f e h low =
    unfold foreach_set_bit_loop in ap some (sym (positions-zero n s 0 (λ j p. bit-zero j)))
loop_positions (suc fuel) n s (suc y) f e h low =
    let (k, q, form) = lowest_exists (suc y) (omega arith) in
    let x = lowest_form k q in
    let small : x < 2 ^ 64 = rw form at h in
    let low' : (j : ℕ) → j < s → bit x j ≡ 0 = rw form at low in
    let hit = bit-lowest_form_self k q in
    let below = lowest_lt k q small in
    let from : s ≤ k = lower s k x low' hit in
    let (m, sum, here) =
      positions-skip n s k x from (omega arith) (bit-lowest_form_below k q) hit in
    let same =
      positions-ext m (suc k) x (clear_lowest k q)
        (λ j p. ground (arith, bit-clear_lowest k q j)) in
    let rest =
      loop_positions fuel m (suc k) (clear_lowest k q) (omega arith) (omega arith)
        (omega (arith, clear_lowest-lt k q))
        (λ j p. ground (arith, bit-clear_lowest k q j, bit-lowest_form_below k q j)) in
    rw (form, here, same) (loop-lowest_form fuel k q small rest)

-- ForeachSetBit on a word returns, and has called `fn` on exactly the set bits, in ascending order.
pub foreach_set_bit-positions : (x : ℕ) → x < 2 ^ 64 → foreach_set_bit x ≡ some (positions 64 0 x)
unfolding foreach_set_bit
foreach_set_bit-positions x h =
    loop_positions 65 64 0 x (omega arith) refl h (λ j p. absurd (omega arith))
