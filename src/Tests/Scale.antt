-- ===== src/Tests/Scale.antt =====
-- The growth factors, cut down to five digits, in place of the products of floating-point numbers.
use elib.Base.{ℕ, ◌*◌, ◌/◌, ◌≤◌, ◌<◌, ◌^◌, arith}
use elib.Cap.{Factor, every_2, every_8, every_16, FloatScale}

abbrev pub decimal_scaled : Factor → ℕ → ℕ
decimal_scaled every_2 n = n * 141421 / 100000
decimal_scaled every_8 n = n * 109050 / 100000
decimal_scaled every_16 n = n * 104427 / 100000

pub decimal_ge : (f : Factor) (n : ℕ) → n < 2 ^ 31 → n ≤ decimal_scaled f n
decimal_ge every_2 n h = omega arith
decimal_ge every_8 n h = omega arith
decimal_ge every_16 n h = omega arith

pub decimal_le : (f : Factor) (n : ℕ) → n < 2 ^ 31 → decimal_scaled f n ≤ 2 * n
decimal_le every_2 n h = omega arith
decimal_le every_8 n h = omega arith
decimal_le every_16 n h = omega arith

abbrev pub decimal_scale : FloatScale
decimal_scale = record { scaled = decimal_scaled; scaled_ge = decimal_ge; scaled_le = decimal_le }
