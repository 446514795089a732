-- ===== src/Word.antt =====
-- Machine words of 64 bits: Go's operators on `uint64`, `uintptr` and `uint`, and their digits.
pub mod Bounds
pub mod Digits
pub mod Lowest
pub mod Mask
pub mod Pow
pub mod Xor
use elib.Base.{ℕ, ◌+◌, ◌-◌, ◌*◌, ◌/◌, ◌%◌, ◌^◌, bit_and}

abbrev pub word_mod : ℕ
word_mod = 2 ^ 64

-- `^x`
abbrev pub complement : ℕ → ℕ
complement x = 2 ^ 64 - 1 - x

-- `x &^ y`
abbrev pub and_not : ℕ → ℕ → ℕ
and_not x y = bit_and x (complement y)

-- `-x`
abbrev pub negate : ℕ → ℕ
negate x = (2 ^ 64 - x) % 2 ^ 64

-- `x << k`, which is zero for a count of 64 or more.
abbrev pub shl : ℕ → ℕ → ℕ
shl x k = x * 2 ^ k % 2 ^ 64

-- `x >> k`
abbrev pub shr : ℕ → ℕ → ℕ
shr x k = x / 2 ^ k
