-- ===== src/Word/Mask.antt =====
-- `x & (2^k - 1)`, `x &^ (2^k - 1)` and `x & 2^k`.
use native.Mathlib.Nat.{pow-suc, mod-eq_of_lt}
use Prim.Native.Nat.{bit_and-bitwise}
use elib.Base.{
  ℕ, zero, suc, ◌+◌, ◌-◌, ◌*◌, ◌/◌, ◌%◌, ◌^◌, ◌≤◌, ◌<◌, ◌≡◌, refl, ap, arith, bit_and, ltb,
  if◌then◌else◌, ◌∙◌, sym,
}
use elib.Word.{and_not}
use elib.Word.Digits.{bit, bit_and_step, bit-zero}
use elib.Word.Pow.{two_pow-pos, two_pow-add, mod-two_pow-suc, div-two_pow-suc, pred-mul}

pub bit_and-zero : (a : ℕ) → bit_and a 0 ≡ 0
bit_and-zero a = below a a (omega arith)
  where
    below : (n x : ℕ) → x ≤ n → bit_and x 0 ≡ 0
    below n zero h = refl
    below zero (suc x) h = absurd (omega arith)
    below (suc n) (suc x) h =
        omega (arith, bit_and_step (suc x) 0, below n (suc x / 2) (omega arith))

pub bit_and-mask : (k a : ℕ) → bit_and a (2 ^ k - 1) ≡ a % 2 ^ k
bit_and-mask zero a = omega (arith, bit_and-zero a)
bit_and-mask (suc k) a =
    let e : (2 ^ suc k - 1) / 2 ≡ 2 ^ k - 1 = omega (arith, pow-suc 2 k, two_pow-pos k) in
    let step = rw e at (bit_and_step a (2 ^ suc k - 1)) in
    omega (arith, step, bit_and-mask k (a / 2), mod-two_pow-suc k a, pow-suc 2 k, two_pow-pos k)

-- The mask of the digits from `k` to `k + n - 1`.
bit_and-high_mask :
    (n k a : ℕ) → a < 2 ^ (n + k) → bit_and a ((2 ^ n - 1) * 2 ^ k) ≡ a / 2 ^ k * 2 ^ k
bit_and-high_mask n zero a h =
    let e : (2 ^ n - 1) * 1 ≡ 2 ^ n - 1 = omega arith in
    let f : n + 0 ≡ n = omega arith in
    rw (e, bit_and-mask n a, mod-eq_of_lt (rw f at h)) (omega arith)
bit_and-high_mask n (suc k) a h =
    let m = (2 ^ n - 1) * 2 ^ k in
    let e : (2 ^ n - 1) * 2 ^ suc k ≡ 2 * m =
      omega (arith, ap (λ (t : ℕ). (2 ^ n - 1) * t) (pow-suc 2 k)) in
    let f : n + suc k ≡ suc (n + k) = omega arith in
    let d : 2 * m / 2 ≡ m = omega arith in
    let step = rw d at (bit_and_step a (2 * m)) in
    let small : a / 2 < 2 ^ (n + k) = omega (arith, pow-suc 2 (n + k), rw f at h) in
    rw (e, div-two_pow-suc)
      (omega (
        arith,
        step,
        bit_and-high_mask n k (a / 2) small,
        ap (λ (t : ℕ). a / 2 / 2 ^ k * t) (pow-suc 2 k),
      ))

-- A single digit.
pub bit_and-two_pow : (k a : ℕ) → bit_and a (2 ^ k) ≡ bit a k * 2 ^ k
unfolding bit
bit_and-two_pow zero a = omega (arith, bit_and_step a 1, bit_and-zero (a / 2))
bit_and-two_pow (suc k) a =
    let e : 2 ^ suc k / 2 ≡ 2 ^ k = omega (arith, pow-suc 2 k) in
    let step = rw e at (bit_and_step a (2 ^ suc k)) in
    omega (
      arith,
      step,
      pow-suc 2 k,
      bit_and-two_pow k (a / 2),
      ap (λ (t : ℕ). bit (a / 2) k * t) (pow-suc 2 k),
    )

pub bit-mod : (n a k : ℕ) → bit (a % 2 ^ n) k ≡ (if ltb k n then bit a k else 0)
unfolding bit
bit-mod zero a k = let e : a % 1 ≡ 0 = omega arith in rw (e, bit-zero) (ground arith)
bit-mod (suc n) a zero = ground (arith, mod-two_pow-suc n a)
bit-mod (suc n) a (suc k) =
    let e : a % 2 ^ suc n / 2 ≡ a / 2 % 2 ^ n = omega (arith, mod-two_pow-suc n a) in
    rw e (ground (arith, bit-mod n (a / 2) k))

-- `x &^ (2^k - 1)` in a word.
pub and_not-mask : (k a : ℕ) → k ≤ 64 → a < 2 ^ 64 → and_not a (2 ^ k - 1) ≡ a / 2 ^ k * 2 ^ k
and_not-mask k a h p =
    let e : 64 - k + k ≡ 64 = omega (arith, h) in
    let m : 2 ^ 64 - 1 - (2 ^ k - 1) ≡ (2 ^ (64 - k) - 1) * 2 ^ k = omega (
      arith,
      two_pow-pos k,
      pred-mul (2 ^ (64 - k)) (2 ^ k) (two_pow-pos (64 - k)),
      sym (two_pow-add (64 - k) k) ∙ ap (λ (t : ℕ). 2 ^ t) e,
    ) in
    rw m (bit_and-high_mask (64 - k) k a (rw e p))

pub zero-bit_and : (b : ℕ) → bit_and 0 b ≡ 0
zero-bit_and b = bit_and-bitwise 0 b
