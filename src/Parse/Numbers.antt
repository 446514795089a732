-- ===== src/Parse/Numbers.antt =====
-- parseInt, ParseFloat and doInt of parse/parse.go. A `uint64` is a number below 2^64, and an
-- `int64` is its 64 bits.
pub mod Digits
use elib.Base.{
  ℕ, zero, suc, ◌+◌, ◌-◌, ◌*◌, ◌%◌, ◌^◌, Bool, true, false, not, ◌||◌, ◌&&◌, List, [], ◌∷◌, ltb,
  leb, ◌==◌, ◌!=◌, if◌then◌else◌,
}
use elib.Parse.{
  Input, Run, Parser, Fault, ◌>>=◌, ◌>>◌, pure, throw, integer_overflow, float_overflow,
  illegal_verb, expected_integer, expected_float, out_of_fuel, save, restore, fuel_of, unread,
  state,
}
use elib.Parse.Utf8.{in_range}
use elib.Parse.Scan.{read_rune, end_no_skip, at_oneof, at_text}

-- The digit that a rune stands for; `base` for any other rune.
abbrev pub digit_of : ℕ → ℕ → ℕ
digit_of base r =
    if in_range b'0' b'9' r
    then r - b'0'
    else if in_range b'a' b'f' r
    then 10 + (r - b'a')
    else if in_range b'A' b'F' r
    then 10 + (r - b'A')
    else base

-- The loop over the digits: the number so far, and how many.
unfoldable pub digits_loop : ℕ → ℕ → ℕ → ℕ → Parser (ℕ × ℕ)
digits_loop zero base x n = throw out_of_fuel
digits_loop (suc fuel) base x n = do
  over ← end_no_skip
  let step : Parser (ℕ × ℕ) = do
    (r, size) ← read_rune
    let d = digit_of base r
    let x' = (base * x + d) % 2 ^ 64
    let more : Parser (ℕ × ℕ) =
        if ltb x' x then throw integer_overflow else digits_loop fuel base x' (n + 1)
    if leb base d then (unread size >> pure (x, n)) else more
  if over then pure (x, n) else step

-- The test at the end of parseInt; a negative number was negated before.
abbrev pub out_of_range : ℕ → Bool → Bool → ℕ → Bool
out_of_range bit_size signed negate x =
    if signed
    then (let max : ℕ = if bit_size == 0 then 0 else 2 ^ (bit_size - 1) % 2 ^ 64 in
        not negate && leb max x || negate && ltb max x)
    else ltb bit_size 64 && leb (2 ^ bit_size % 2 ^ 64) x

unfoldable pub parse_int : ℕ → ℕ → Bool → Parser (ℕ × Bool)
parse_int base bit_size signed = do
  save
  sign ← if signed then at_oneof (b'+' ∷ b'-' ∷ []) else pure 0
  let negate = signed && sign == 1
  input ← state
  (v, n) ← digits_loop (fuel_of input) base 0 0
  let found = ltb 0 n
  restore found
  let x : ℕ = if negate then (2 ^ 64 - v) % 2 ^ 64 else v
  if out_of_range bit_size signed negate x then throw integer_overflow else pure (x, found)

-- The state of ParseFloat: the mantissa and the exponent, with their digits and signs.
pub record FloatScan : Type 0 where
  pub mantissa : ℕ
  pub exponent : ℕ
  pub mantissa_digits : ℕ
  pub negate_mantissa : Bool
  pub negate_exponent : Bool
  pub mantissa_sign : Bool
  pub exponent_sign : Bool
  pub saw_point : Bool
  -- Whether the exponent is being read: the index `i` is 1.
  pub in_exponent : Bool
  pub digits_before_point : ℕ

abbrev pub float_start : FloatScan
float_start = record {
  mantissa = 0;
  exponent = 0;
  mantissa_digits = 0;
  negate_mantissa = false;
  negate_exponent = false;
  mantissa_sign = false;
  exponent_sign = false;
  saw_point = false;
  in_exponent = false;
  digits_before_point = 0;
}

-- What the scan of one rune gives.
pub data FloatStep : Type 0 where
  stop overflow : FloatStep
  go_on : FloatScan → FloatStep

abbrev pub add_digit : ℕ → FloatScan → FloatStep
add_digit d s =
    let old : ℕ = if s.in_exponent then s.exponent else s.mantissa in
    let x = (10 * old + d) % 2 ^ 64 in
    if ltb x old
    then overflow
    else go_on (
        if s.in_exponent
        then record s { exponent = x }
        else record s { mantissa = x; mantissa_digits = s.mantissa_digits + 1 })

abbrev pub add_sign : Bool → FloatScan → FloatStep
add_sign negative s =
    if s.in_exponent
    then (if s.exponent_sign
        then stop
        else go_on (record s { exponent_sign = true; negate_exponent = negative }))
    else (if s.mantissa_sign
        then stop
        else go_on (record s { mantissa_sign = true; negate_mantissa = negative }))

unfoldable pub float_step : ℕ → FloatScan → FloatStep
float_step r s =
    if in_range b'0' b'9' r
    then add_digit (r - b'0') s
    else if r == b'.'
    then (if s.saw_point || s.in_exponent
        then stop
        else go_on (record s { saw_point = true; digits_before_point = s.mantissa_digits }))
    else if r == b'e' || r == b'E'
    then (if s.in_exponent then stop else go_on (record s { in_exponent = true }))
    else if r == b'+' || r == b'-'
    then add_sign (r == b'-') s
    else stop

unfoldable pub float_loop : ℕ → FloatScan → Parser FloatScan
float_loop zero s = throw out_of_fuel
float_loop (suc fuel) s = do
  over ← end_no_skip
  let step : Parser FloatScan = do
    (r, size) ← read_rune
    elim (float_step r s) [
      | stop ↦ unread size >> pure s
      | overflow ↦ throw float_overflow
      | go_on s' ↦ float_loop fuel s'
    ]
  if over then pure s else step

abbrev pub signed_word : Bool → ℕ → ℕ
signed_word negate x = if negate then (2 ^ 64 - x) % 2 ^ 64 else x

-- `times_expon` is the float64 of a fraction and a power of ten, both int64.
module _ {Float : Type 0} (times_expon : ℕ → ℕ → Float) (zero_float : Float) where
  unfoldable pub parse_float : Parser (Float × Bool)
  parse_float = do
    save
    input ← state
    s ← float_loop (fuel_of input) float_start
    let found = ltb 0 s.mantissa_digits
    restore found
    let after_point : ℕ = if s.saw_point then s.mantissa_digits - s.digits_before_point else 0
    let expon = (signed_word s.negate_exponent s.exponent + 2 ^ 64 - after_point) % 2 ^ 64
    let x = times_expon (signed_word s.negate_mantissa s.mantissa) expon
    pure (if found then x else zero_float, found)

  unfoldable pub do_float : ℕ → Parser Float
  do_float verb = do
    (x, found) ← if verb == b'f' then parse_float else throw illegal_verb
    if found then pure x else throw expected_float

-- The base that a verb stands for; `%v` looks at the input.
unfoldable pub verb_base : ℕ → Parser ℕ
verb_base verb =
    let by_prefix : Parser ℕ = do
      octal ← at_text (b'0' ∷ [])
      let hex : Parser ℕ = at_text (b'x' ∷ []) >>= λ x. pure (if x then 16 else 8)
      if octal then hex else pure 10
    in if verb == b'v'
      then by_prefix
      else if verb == b'd'
      then pure 10
      else if verb == b'b'
      then pure 2
      else if verb == b'o'
      then pure 8
      else if verb == b'x' || verb == b'X'
      then pure 16
      else throw illegal_verb

unfoldable pub do_int : ℕ → ℕ → Bool → Parser ℕ
do_int verb bit_size signed = do
  base ← verb_base verb
  (x, found) ← parse_int base bit_size signed
  if found then pure x else throw expected_integer
