-- ===== src/Cap/Logs.antt =====
-- Log2 of cap.go at the capacities that IsValid accepts.
use elib.Base.{
  ℕ, ◌+◌, ◌-◌, ◌%◌, ◌^◌, ◌<◌, ◌≡◌, refl, sym, ◌∙◌, ap, ap₂, arith, ◌==◌, ◌!=◌, ne→==, false, not,
  if◌then◌else◌, if_true, if_false,
}
use native.Mathlib.Nat.{mod-eq_of_lt}
use elib.Word.Pow.{two_pow-pos, two_pow-lt, two_pow-le}
use elib.Word.Lowest.{
  lowest_form, lowest_form-pos, bit_and-negate, bit_xor-lowest, clear_lowest, lowest_form-two_pow,
  clear_lowest-zero, lowest_form-two_powers, clear_lowest-two_powers,
}
use elib.Bits.{min_log2}
use elib.Bits.Log.{min_log2-two_pow}
use elib.Cap.{cap_mod, cap_nil, pow2, log2}

-- Pow2 takes off the lowest power of two.
pow2-lowest :
    (k q : ℕ)
    → lowest_form k q < 2 ^ 32
    → pow2 (lowest_form k q)
      ≡ (if clear_lowest k q == 0 then (2 ^ k, cap_nil) else (clear_lowest k q, 2 ^ k))
unfolding pow2
pow2-lowest k q h =
    let n : (2 ^ 32 - lowest_form k q) % 2 ^ 32 ≡ 2 ^ 32 - lowest_form k q =
      mod-eq_of_lt (omega (arith, lowest_form-pos k q)) in
    rw (n, bit_and-negate 32 k q h, bit_xor-lowest k q) refl

pow2-two_pow : (i : ℕ) → i < 32 → pow2 (2 ^ i) ≡ (2 ^ i, cap_nil)
pow2-two_pow i h =
    let form = lowest_form-two_pow i in
    ap pow2 (sym form)
    ∙ pow2-lowest i 0 (omega (arith, form, two_pow-lt {a = i} {b = 32} h))
    ∙ if_true _ _ (ap (λ x. x == 0) (clear_lowest-zero i))

pow2-two_powers : (i j : ℕ) → j < i → i < 32 → pow2 (2 ^ i + 2 ^ j) ≡ (2 ^ i, 2 ^ j)
pow2-two_powers i j p h =
    let q = 2 ^ (i - 1 - j) in
    let form = lowest_form-two_powers i j p in
    let rest = clear_lowest-two_powers i j p in
    let fits : lowest_form j q < 2 ^ 32 =
      omega (
        arith,
        form,
        two_pow-lt {a = j} {b = i} p,
        two_pow-le {a = i} {b = 31} (omega (arith, h)),
      ) in
    ap pow2 (sym form)
    ∙ pow2-lowest j q fits
    ∙ if_false _ _ (ne→== (clear_lowest j q) 0 (λ e. omega (arith, e, rest, two_pow-pos i)))
    ∙ ap (λ x. (x, 2 ^ j)) rest

min_log2_cap : (i : ℕ) → i < 32 → min_log2 (2 ^ i) % cap_mod ≡ i
min_log2_cap i h =
    ap (λ x. x % cap_mod) (min_log2-two_pow i (omega (arith, h))) ∙ mod-eq_of_lt (omega (arith, h))

-- The exponents of the two powers, as they are computed from the powers.
exponents : ℕ × ℕ → ℕ × ℕ
exponents (i, j) = (min_log2 i % cap_mod, if j != cap_nil then min_log2 j % cap_mod else j)

log2-exponents : (c : ℕ) → log2 c ≡ exponents (pow2 c)
unfolding log2 pow2 exponents
log2-exponents c = refl

-- A power of two has one exponent.
pub log2-two_pow : (i : ℕ) → i < 32 → log2 (2 ^ i) ≡ (i, cap_nil)
unfolding exponents
log2-two_pow i h =
    log2-exponents (2 ^ i)
    ∙ ap exponents (pow2-two_pow i h)
    ∙ ap (λ x. (x, cap_nil)) (min_log2_cap i h)

-- A sum of two powers of two has both exponents.
pub log2-two_powers : (i j : ℕ) → j < i → i < 32 → log2 (2 ^ i + 2 ^ j) ≡ (i, j)
unfolding exponents
log2-two_powers i j p h =
    let apart : (2 ^ j == cap_nil) ≡ false =
      ne→== (2 ^ j) cap_nil
        (λ e. omega (arith, e, two_pow-le {a = j} {b = 30} (omega (arith, p, h)))) in
    log2-exponents (2 ^ i + 2 ^ j)
    ∙ ap exponents (pow2-two_powers i j p h)
    ∙ ap₂ (λ x y. (x, y)) (min_log2_cap i h)
        (if_true _ _ (ap not apart) ∙ min_log2_cap j (omega (arith, p, h)))
