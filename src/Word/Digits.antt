-- ===== src/Word/Digits.antt =====
-- The native bit operations, digit by digit.
mod Step
pub use Step.*
use native.Mathlib.Nat.{pow-suc, one-le-pow}
use elib.Base.{
  ℕ, zero, suc, ◌+◌, ◌-◌, ◌*◌, ◌/◌, ◌%◌, ◌^◌, ◌≤◌, ◌<◌, min, max, ◌≡◌, refl, arith, bit_and, bit_or,
  bit_xor, ltb, ◌==◌, if◌then◌else◌,
}

-- Digit `k` of `x`.
unfoldable pub bit : ℕ → ℕ → ℕ
bit x zero = x % 2
bit x (suc k) = bit (x / 2) k

pub bit_le : (x k : ℕ) → bit x k ≤ 1
unfolding bit
bit_le x zero = omega arith
bit_le x (suc k) = bit_le (x / 2) k

pub bit-zero : (k : ℕ) → bit 0 k ≡ 0
unfolding bit
bit-zero zero = refl
bit-zero (suc k) = bit-zero k

pub bit-or : (a b k : ℕ) → bit (bit_or a b) k ≡ max (bit a k) (bit b k)
unfolding bit
bit-or a b zero = omega (arith, bit_or_step a b)
bit-or a b (suc k) =
    let e : bit_or a b / 2 ≡ bit_or (a / 2) (b / 2) = omega (arith, bit_or_step a b) in
    rw e (bit-or (a / 2) (b / 2) k)

pub bit-and : (a b k : ℕ) → bit (bit_and a b) k ≡ min (bit a k) (bit b k)
unfolding bit
bit-and a b zero = omega (arith, bit_and_step a b)
bit-and a b (suc k) =
    let e : bit_and a b / 2 ≡ bit_and (a / 2) (b / 2) = omega (arith, bit_and_step a b) in
    rw e (bit-and (a / 2) (b / 2) k)

pub bit-xor : (a b k : ℕ) → bit (bit_xor a b) k ≡ (bit a k + bit b k) % 2
unfolding bit
bit-xor a b zero = omega (arith, bit_xor_step a b)
bit-xor a b (suc k) =
    let e : bit_xor a b / 2 ≡ bit_xor (a / 2) (b / 2) = omega (arith, bit_xor_step a b) in
    rw e (bit-xor (a / 2) (b / 2) k)

-- Numbers below `2 ^ n` with the same digits are equal.
pub bit_ext : (n a b : ℕ) → a < 2 ^ n → b < 2 ^ n → ((k : ℕ) → k < n → bit a k ≡ bit b k) → a ≡ b
unfolding bit
bit_ext zero a b ha hb h = omega arith
bit_ext (suc n) a b ha hb h = omega (
  arith,
  h 0 (omega arith),
  pow-suc 2 n,
  bit_ext n (a / 2) (b / 2) (omega (arith, pow-suc 2 n)) (omega (arith, pow-suc 2 n))
      (λ k p. h (suc k) (omega arith)),
)

pub bit_high : (n x k : ℕ) → x < 2 ^ n → n ≤ k → bit x k ≡ 0
unfolding bit
bit_high zero x k h p = let e : x ≡ 0 = omega arith in rw e (bit-zero k)
bit_high (suc n) x zero h p = absurd (omega arith)
bit_high (suc n) x (suc k) h p = bit_high n (x / 2) k (omega (arith, pow-suc 2 n)) (omega arith)

pub bit-pow : (n k : ℕ) → bit (2 ^ n) k ≡ (if n == k then 1 else 0)
unfolding bit
bit-pow zero zero = refl
bit-pow zero (suc k) = rw (bit-zero k) (ground arith)
bit-pow (suc n) zero = ground (arith, pow-suc 2 n)
bit-pow (suc n) (suc k) =
    let e : 2 ^ suc n / 2 ≡ 2 ^ n = omega (arith, pow-suc 2 n) in rw e (ground (arith, bit-pow n k))

-- The digits of `2 ^ n - 1 - x`.
pub bit-complement :
    (n x k : ℕ) → x < 2 ^ n → bit (2 ^ n - 1 - x) k ≡ (if ltb k n then 1 - bit x k else 0)
unfolding bit
bit-complement zero x k h = let e : x ≡ 0 = omega arith in rw e (ground (arith, bit-zero k))
bit-complement (suc n) x zero h = ground (arith, pow-suc 2 n)
bit-complement (suc n) x (suc k) h =
    let e : (2 ^ suc n - 1 - x) / 2 ≡ 2 ^ n - 1 - x / 2 = omega (arith, pow-suc 2 n) in
    rw e (ground (arith, pow-suc 2 n, bit-complement n (x / 2) k))
