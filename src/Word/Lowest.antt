-- ===== src/Word/Lowest.antt =====
-- The lowest set digit: a positive number is `2 ^ k * (2 * q + 1)`, and what `x & -x`,
-- `x & (x - 1)` and `x ^ 2^k` make of that form.
use native.Mathlib.Nat.{pow-suc}
use elib.Base.{
  ℕ, zero, suc, ◌+◌, ◌-◌, ◌*◌, ◌/◌, ◌%◌, ◌^◌, ◌≤◌, ◌<◌, ◌≡◌, refl, ap, ◌∙◌, arith, bit_and, bit_xor,
  ◌==◌, if◌then◌else◌, ◌⊎◌, inl, inr,
}
use elib.Word.Digits.{bit, bit_and_step, bit_xor_step}

-- `2 ^ k * (2 * q + 1)`
pub lowest_form : ℕ → ℕ → ℕ
lowest_form zero q = 2 * q + 1
lowest_form (suc k) q = 2 * lowest_form k q

pub lowest_form-pos : (k q : ℕ) → 0 < lowest_form k q
unfolding lowest_form
lowest_form-pos zero q = omega arith
lowest_form-pos (suc k) q = omega (arith, lowest_form-pos k q)

pub lowest_form-ge : (k q : ℕ) → 2 ^ k ≤ lowest_form k q
unfolding lowest_form
lowest_form-ge zero q = omega arith
lowest_form-ge (suc k) q = omega (arith, lowest_form-ge k q, pow-suc 2 k)

lowest_within : (n x : ℕ) → 0 < x → x ≤ n → (k : ℕ) × (q : ℕ) × (x ≡ lowest_form k q)
unfolding lowest_form
lowest_within zero x h p = absurd (omega arith)
lowest_within (suc n) x h p = elim (parity x) [
  | inl odd ↦ (0, x / 2, omega arith)
  | inr even ↦
      let (k, q, e) = lowest_within n (x / 2) (omega arith) (omega arith) in (suc k, q, omega arith)
]
  where
    parity : (y : ℕ) → (y % 2 ≡ 1) ⊎ (y % 2 ≡ 0)
    parity y = omega arith

pub lowest_exists : (x : ℕ) → 0 < x → (k : ℕ) × (q : ℕ) × (x ≡ lowest_form k q)
lowest_exists x h = lowest_within x x h (omega arith)

pub bit-lowest_form_below : (k q j : ℕ) → j < k → bit (lowest_form k q) j ≡ 0
unfolding lowest_form bit
bit-lowest_form_below zero q j h = absurd (omega arith)
bit-lowest_form_below (suc k) q zero h = omega arith
bit-lowest_form_below (suc k) q (suc j) h =
    let e : 2 * lowest_form k q / 2 ≡ lowest_form k q = omega arith in
    rw e (bit-lowest_form_below k q j (omega arith))

pub bit-lowest_form_self : (k q : ℕ) → bit (lowest_form k q) k ≡ 1
unfolding lowest_form bit
bit-lowest_form_self zero q = omega arith
bit-lowest_form_self (suc k) q =
    let e : 2 * lowest_form k q / 2 ≡ lowest_form k q = omega arith in
    rw e (bit-lowest_form_self k q)

bit_and_self : (n x : ℕ) → x ≤ n → bit_and x x ≡ x
bit_and_self zero x h = let e : x ≡ 0 = omega arith in rw e refl
bit_and_self (suc n) zero h = refl
bit_and_self (suc n) (suc x) h =
    omega (arith, bit_and_step (suc x) (suc x), bit_and_self n (suc x / 2) (omega arith))

-- `q & ^q`, at any width.
pub bit_and-complement : (n x : ℕ) → x < 2 ^ n → bit_and x (2 ^ n - 1 - x) ≡ 0
bit_and-complement zero x h = let e : x ≡ 0 = omega arith in rw e refl
bit_and-complement (suc n) x h =
    let e : (2 ^ suc n - 1 - x) / 2 ≡ 2 ^ n - 1 - x / 2 = omega (arith, pow-suc 2 n) in
    let ih = rw (← e) at (bit_and-complement n (x / 2) (omega (arith, pow-suc 2 n))) in
    omega (arith, bit_and_step x (2 ^ suc n - 1 - x), ih, pow-suc 2 n)

-- `x & -x`
pub bit_and-negate :
    (n k q : ℕ)
    → lowest_form k q < 2 ^ n
    → bit_and (lowest_form k q) (2 ^ n - lowest_form k q) ≡ 2 ^ k
unfolding lowest_form
bit_and-negate zero k q h = absurd (omega (arith, lowest_form-pos k q))
bit_and-negate (suc n) zero q h =
    let e : (2 ^ suc n - (2 * q + 1)) / 2 ≡ 2 ^ n - 1 - q = omega (arith, pow-suc 2 n) in
    let d : (2 * q + 1) / 2 ≡ q = omega arith in
    let ih = bit_and-complement n q (omega (arith, pow-suc 2 n)) in
    let step = rw (e, d) at (bit_and_step (2 * q + 1) (2 ^ suc n - (2 * q + 1))) in
    omega (arith, step, ih, pow-suc 2 n)
bit_and-negate (suc n) (suc k) q h =
    let x = lowest_form k q in
    let e : (2 ^ suc n - 2 * x) / 2 ≡ 2 ^ n - x = omega (arith, pow-suc 2 n) in
    let d : 2 * x / 2 ≡ x = omega arith in
    let ih = bit_and-negate n k q (omega (arith, pow-suc 2 n)) in
    let step = rw (e, d) at (bit_and_step (2 * x) (2 ^ suc n - 2 * x)) in
    omega (arith, step, ih, pow-suc 2 k)

-- `x & (x - 1)` and `x ^ 2^k` both clear the lowest set digit.
pub clear_lowest : ℕ → ℕ → ℕ
clear_lowest zero q = 2 * q
clear_lowest (suc k) q = 2 * clear_lowest k q

pub bit_and-pred : (k q : ℕ) → bit_and (lowest_form k q) (lowest_form k q - 1) ≡ clear_lowest k q
unfolding lowest_form clear_lowest
bit_and-pred zero q =
    let e : (2 * q + 1) / 2 ≡ q = omega arith in
    let d : (2 * q + 1 - 1) / 2 ≡ q = omega arith in
    let step = rw (e, d) at (bit_and_step (2 * q + 1) (2 * q + 1 - 1)) in
    omega (arith, step, bit_and_self q q (omega arith))
bit_and-pred (suc k) q =
    let x = lowest_form k q in
    let e : (2 * x - 1) / 2 ≡ x - 1 = omega (arith, lowest_form-pos k q) in
    let d : 2 * x / 2 ≡ x = omega arith in
    let step = rw (e, d) at (bit_and_step (2 * x) (2 * x - 1)) in
    omega (arith, step, bit_and-pred k q)

bit_xor-zero : (n x : ℕ) → x ≤ n → bit_xor x 0 ≡ x
bit_xor-zero zero x h = let e : x ≡ 0 = omega arith in rw e refl
bit_xor-zero (suc n) zero h = refl
bit_xor-zero (suc n) (suc x) h =
    omega (arith, bit_xor_step (suc x) 0, bit_xor-zero n (suc x / 2) (omega arith))

pub bit_xor-lowest : (k q : ℕ) → bit_xor (lowest_form k q) (2 ^ k) ≡ clear_lowest k q
unfolding lowest_form clear_lowest
bit_xor-lowest zero q =
    let e : (2 * q + 1) / 2 ≡ q = omega arith in
    let step = rw e at (bit_xor_step (2 * q + 1) 1) in
    omega (arith, step, bit_xor-zero q q (omega arith))
bit_xor-lowest (suc k) q =
    let x = lowest_form k q in
    let e : 2 ^ suc k / 2 ≡ 2 ^ k = omega (arith, pow-suc 2 k) in
    let d : 2 * x / 2 ≡ x = omega arith in
    let step = rw (e, d) at (bit_xor_step (2 * x) (2 ^ suc k)) in
    omega (arith, step, bit_xor-lowest k q, pow-suc 2 k)

pub clear_lowest-lt : (k q : ℕ) → clear_lowest k q < lowest_form k q
unfolding lowest_form clear_lowest
clear_lowest-lt zero q = omega arith
clear_lowest-lt (suc k) q = omega (arith, clear_lowest-lt k q)

-- Clearing takes one from the digit sum and leaves the other digits alone.
pub bit-clear_lowest :
    (k q j : ℕ) → bit (clear_lowest k q) j ≡ (if k == j then 0 else bit (lowest_form k q) j)
unfolding lowest_form clear_lowest bit
bit-clear_lowest zero q zero = omega arith
bit-clear_lowest zero q (suc j) =
    let e : (2 * q + 1) / 2 ≡ q = omega arith in
    let d : 2 * q / 2 ≡ q = omega arith in rw (e, d) (ground arith)
bit-clear_lowest (suc k) q zero = ground arith
bit-clear_lowest (suc k) q (suc j) =
    let e : 2 * lowest_form k q / 2 ≡ lowest_form k q = omega arith in
    let d : 2 * clear_lowest k q / 2 ≡ clear_lowest k q = omega arith in
    rw (e, d) (ground (arith, bit-clear_lowest k q j))

pub lowest_form-two_pow : (k : ℕ) → lowest_form k 0 ≡ 2 ^ k
unfolding lowest_form
lowest_form-two_pow zero = refl
lowest_form-two_pow (suc k) = omega (arith, lowest_form-two_pow k, pow-suc 2 k)

pub clear_lowest-zero : (k : ℕ) → clear_lowest k 0 ≡ 0
unfolding clear_lowest
clear_lowest-zero zero = refl
clear_lowest-zero (suc k) = omega (arith, clear_lowest-zero k)

pub clear_lowest-zero_inv : (k q : ℕ) → clear_lowest k q ≡ 0 → q ≡ 0
unfolding clear_lowest
clear_lowest-zero_inv zero q h = omega arith
clear_lowest-zero_inv (suc k) q h = clear_lowest-zero_inv k q (omega arith)

pub lowest_form-clear_lowest : (k q : ℕ) → lowest_form k q ≡ clear_lowest k q + 2 ^ k
unfolding lowest_form clear_lowest
lowest_form-clear_lowest zero q = omega arith
lowest_form-clear_lowest (suc k) q = omega (arith, lowest_form-clear_lowest k q, pow-suc 2 k)

-- A higher power of two beside the lowest one.
two_powers_form : (k d : ℕ) → lowest_form k (2 ^ d) ≡ 2 ^ (suc d + k) + 2 ^ k
unfolding lowest_form
two_powers_form zero d =
    let e : suc d + 0 ≡ suc d = omega arith in rw e (omega (arith, pow-suc 2 d))
two_powers_form (suc k) d =
    let e : suc d + suc k ≡ suc (suc d + k) = omega arith in
    rw e (omega (arith, two_powers_form k d, pow-suc 2 (suc d + k), pow-suc 2 k))

pub lowest_form-two_powers : (i j : ℕ) → j < i → lowest_form j (2 ^ (i - 1 - j)) ≡ 2 ^ i + 2 ^ j
lowest_form-two_powers i j h =
    two_powers_form j (i - 1 - j) ∙ ap (λ (t : ℕ). 2 ^ t + 2 ^ j) (omega arith)

pub clear_lowest-two_powers : (i j : ℕ) → j < i → clear_lowest j (2 ^ (i - 1 - j)) ≡ 2 ^ i
clear_lowest-two_powers i j h =
    omega (arith, lowest_form-two_powers i j h, lowest_form-clear_lowest j (2 ^ (i - 1 - j)))

pub clear_lowest-gt : (k q : ℕ) → 0 < q → 2 ^ k < clear_lowest k q
unfolding clear_lowest
clear_lowest-gt zero q h = omega arith
clear_lowest-gt (suc k) q h = omega (arith, clear_lowest-gt k q h, pow-suc 2 k)

-- Clearing the highest digit.
pub bit_xor-top : (k r : ℕ) → r < 2 ^ k → bit_xor (2 ^ k + r) (2 ^ k) ≡ r
bit_xor-top zero r h = let e : r ≡ 0 = omega arith in rw e refl
bit_xor-top (suc k) r h =
    let e : (2 ^ suc k + r) / 2 ≡ 2 ^ k + r / 2 = omega (arith, pow-suc 2 k) in
    let d : 2 ^ suc k / 2 ≡ 2 ^ k = omega (arith, pow-suc 2 k) in
    let step = rw (e, d) at (bit_xor_step (2 ^ suc k + r) (2 ^ suc k)) in
    omega (arith, step, bit_xor-top k (r / 2) (omega (arith, pow-suc 2 k)), pow-suc 2 k)
