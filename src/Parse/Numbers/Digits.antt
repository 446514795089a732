-- ===== src/Parse/Numbers/Digits.antt =====
-- parseInt on digits that are in the buffer, followed by the end of the input or by a byte that is
-- no digit.
use elib.Base.{ℕ, ◌+◌, ◌*◌, ◌≤◌, ◌<◌, List, [], ◌∷◌, drop}
use elib.Parse.{Input}
use elib.Parse.Numbers.{digit_of}

-- What is left of the buffer.
abbrev pub left : Input → List ℕ
left input = drop input.index input.buf

-- The number that the digits continue.
abbrev pub value : ℕ → ℕ → List ℕ → ℕ
value base x [] = x
value base x (c ∷ cs) = value base (base * x + digit_of base c) cs

-- ASCII digits of the base.
abbrev pub AllDigits : ℕ → List ℕ → Type 0
AllDigits base [] = Unit
AllDigits base (c ∷ cs) = (c < 0x80) × (digit_of base c < base) × AllDigits base cs

abbrev pub NoDigitFirst : ℕ → List ℕ → Type 0
NoDigitFirst base [] = Unit
NoDigitFirst base (c ∷ cs) = (c < 0x80) × (base ≤ digit_of base c)

abbrev pub advance : ℕ → Input → Input
advance n input = record input { index = input.index + n }
