-- ===== src/Cap/Form.antt =====
-- IsValid and Pow2 of cap.go: sums of at most two powers of two.
use elib.Base.{
  ℕ, zero, suc, ◌+◌, ◌-◌, ◌%◌, ◌^◌, ◌<◌, ◌≡◌, refl, ◌∙◌, ap, arith, true, ◌⊎◌, inl, inr, ◌↔◌,
  bit_and, ◌==◌, ==_iff,
}
use elib.Word.Lowest.{
  lowest_form, lowest_form-pos, lowest_exists, bit_and-negate, bit_and-pred, bit_xor-lowest,
  clear_lowest, lowest_form-two_pow, clear_lowest-zero, clear_lowest-zero_inv, clear_lowest-lt,
  clear_lowest-gt, lowest_form-clear_lowest, lowest_form-two_powers, clear_lowest-two_powers,
}
use elib.Word.Pow.{two_pow-pos, two_pow-lt_inv}
use elib.Cap.{is_valid, pred_cap}

-- `x & (x - 1)` is zero at zero and at the powers of two alone.
zero_or_power :
    (x : ℕ) → x < 2 ^ 32 → bit_and x (pred_cap x) ≡ 0 → (x ≡ 0) ⊎ ((i : ℕ) × (x ≡ 2 ^ i))
zero_or_power zero h e = inl refl
zero_or_power (suc n) h e =
    let (k, q, form) = lowest_exists (suc n) (omega arith) in
    let m : pred_cap (suc n) ≡ lowest_form k q - 1 = omega (arith, form) in
    let z = rw (m, form, bit_and-pred k q) at e in
    inr (k, form ∙ ap (lowest_form k) (clear_lowest-zero_inv k q z) ∙ lowest_form-two_pow k)

power_clears : (i : ℕ) → 2 ^ i < 2 ^ 32 → bit_and (2 ^ i) (pred_cap (2 ^ i)) ≡ 0
power_clears i h =
    let m : pred_cap (2 ^ i) ≡ 2 ^ i - 1 = omega (arith, two_pow-pos i) in
    let form = lowest_form-two_pow i in rw m (rw form at (bit_and-pred i 0) ∙ clear_lowest-zero i)

is_valid-lowest_form :
    (k q : ℕ)
    → lowest_form k q < 2 ^ 32
    → is_valid (lowest_form k q) ≡ (bit_and (clear_lowest k q) (pred_cap (clear_lowest k q)) == 0)
unfolding is_valid
is_valid-lowest_form k q h =
    let e : (2 ^ 32 - lowest_form k q) % 2 ^ 32 ≡ 2 ^ 32 - lowest_form k q =
      omega (arith, lowest_form-pos k q) in
    rw (e, bit_and-negate 32 k q h, bit_xor-lowest)

-- The capacities that IsValid accepts.
abbrev pub IsSum : ℕ → Type 0
IsSum c = (c ≡ 0) ⊎ (((i : ℕ) × (c ≡ 2 ^ i)) ⊎ ((i : ℕ) × (j : ℕ) × (j < i) × (c ≡ 2 ^ i + 2 ^ j)))

is_valid-two_powers : (i j : ℕ) → j < i → 2 ^ i + 2 ^ j < 2 ^ 32 → is_valid (2 ^ i + 2 ^ j) ≡ true
is_valid-two_powers i j p h =
    let form = lowest_form-two_powers i j p in
    let e = is_valid-lowest_form j (2 ^ (i - 1 - j)) (rw form h) in
    rw (form, clear_lowest-two_powers i j p, power_clears i (omega arith)) at e

is_valid-two_pow : (i : ℕ) → 2 ^ i < 2 ^ 32 → is_valid (2 ^ i) ≡ true
is_valid-two_pow i h =
    let form = lowest_form-two_pow i in
    let e = is_valid-lowest_form i 0 (rw form h) in rw (form, clear_lowest-zero i) at e

higher : (k q i : ℕ) → clear_lowest k q ≡ 2 ^ i → k < i
higher k zero i e = absurd (omega (arith, clear_lowest-zero k, two_pow-pos i))
higher k (suc q) i e = two_pow-lt_inv k i (omega (arith, clear_lowest-gt k (suc q) (omega arith)))

-- A capacity is valid exactly when it is zero, a power of two, or the sum of two powers of two.
pub is_valid_iff : (c : ℕ) → c < 2 ^ 32 → (is_valid c ≡ true) ↔ IsSum c
is_valid_iff c h = (there c h, back)
  where
    there : (c : ℕ) → c < 2 ^ 32 → is_valid c ≡ true → IsSum c
    there zero h t = inl refl
    there (suc n) h t =
        let (k, q, form) = lowest_exists (suc n) (omega arith) in
        let s = rw (form, is_valid-lowest_form k q (rw form at h)) at t in
        elim (zero_or_power (clear_lowest k q) (omega (arith, clear_lowest-lt k q, form))
          ((==_iff _ 0).0 s)) [
            | inl z ↦ inr (
                inl (
                  k,
                  form ∙ ap (lowest_form k) (clear_lowest-zero_inv k q z) ∙ lowest_form-two_pow k,
                ))
            | inr (i, e) ↦ inr (
                inr (
                  i,
                  k,
                  higher k q i e,
                  form ∙ lowest_form-clear_lowest k q ∙ ap (λ (t : ℕ). t + 2 ^ k) e,
                ))
          ]

    back : IsSum c → is_valid c ≡ true
    back (inl e) = rw e (unfold is_valid in refl)
    back (inr (inl (i, e))) = rw e (is_valid-two_pow i (rw e at h))
    back (inr (inr (i, j, p, e))) = rw e (is_valid-two_powers i j p (rw e at h))
