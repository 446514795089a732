-- ===== src/Word/Digits/Step.antt =====
-- One equation for the lowest digit of each native bit operation, from the recursion with fuel
-- that the operation stands for.
use Prim.Native.Nat.{digits, bitwise, bit_and-bitwise, bit_or-bitwise, bit_xor-bitwise, differ}
use elib.Base.{
  ℕ, zero, suc, ◌+◌, ◌*◌, ◌/◌, ◌%◌, ◌≤◌, min, max, bit_and, bit_or, bit_xor, ◌≡◌, refl, ◌<◌, arith,
}

-- An operation on numbers that works digit by digit: `low` on the lowest digits.
module _ (rest : ℕ → ℕ) (low : ℕ → ℕ → ℕ) (op : ℕ → ℕ → ℕ)
    (meaning : (x y : ℕ) → op x y ≡ bitwise rest low x y) where
  -- Any two amounts of fuel that reach the number give the same digits.
  digits-digits : (x y s t : ℕ) → x ≤ s → x ≤ t → digits rest low s x y ≡ digits rest low t x y
  digits-digits zero y zero zero h k = refl
  digits-digits zero y zero (suc t) h k = refl
  digits-digits zero y (suc s) zero h k = refl
  digits-digits zero y (suc s) (suc t) h k = refl
  digits-digits (suc x) y zero t h k = absurd (omega arith)
  digits-digits (suc x) y (suc s) zero h k = absurd (omega arith)
  digits-digits (suc x) y (suc s) (suc t) h k =
      let halves = digits-digits (suc x / 2) (y / 2) s t (omega arith) (omega arith) in
      rw halves refl

  op-suc : (x y : ℕ) → op (suc x) y ≡ op (suc x / 2) (y / 2) * 2 + low (suc x % 2) (y % 2)
  op-suc x y =
      let halves = meaning (suc x / 2) (y / 2) in
      let fuel = digits-digits (suc x / 2) (y / 2) (suc x / 2) x (omega arith) (omega arith) in
      omega (arith, meaning (suc x) y, halves, fuel)

pub bit_or_step : (x y : ℕ) → bit_or x y ≡ bit_or (x / 2) (y / 2) * 2 + max (x % 2) (y % 2)
bit_or_step zero y = rw (bit_or-bitwise 0 y, bit_or-bitwise 0 (y / 2)) (omega arith)
bit_or_step (suc x) y = op-suc (λ r. r) max bit_or bit_or-bitwise x y

pub bit_and_step : (x y : ℕ) → bit_and x y ≡ bit_and (x / 2) (y / 2) * 2 + min (x % 2) (y % 2)
bit_and_step zero y = rw (bit_and-bitwise 0 y, bit_and-bitwise 0 (y / 2)) (omega arith)
bit_and_step (suc x) y = op-suc (λ r. 0) min bit_and bit_and-bitwise x y

differ_digit : (x y : ℕ) → x < 2 → y < 2 → differ x y ≡ (x + y) % 2
differ_digit zero y p q = omega arith
differ_digit (suc zero) zero p q = refl
differ_digit (suc zero) (suc zero) p q = refl
differ_digit x y p q = absurd (omega arith)

pub bit_xor_step : (x y : ℕ) → bit_xor x y ≡ bit_xor (x / 2) (y / 2) * 2 + (x % 2 + y % 2) % 2
bit_xor_step zero y = rw (bit_xor-bitwise 0 y, bit_xor-bitwise 0 (y / 2)) (omega arith)
bit_xor_step (suc x) y = omega (
  arith,
  op-suc (λ r. r) differ bit_xor bit_xor-bitwise x y,
  differ_digit (suc x % 2) (y % 2) (omega arith) (omega arith),
)
