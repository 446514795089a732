-- ===== src/Parse.antt =====
-- parse/parse.go: a scanner over buffered input, with saved positions to go back to.
-- A byte is a number below 256, a rune a code point. The reader is the list of what its reads will
-- return, of at most 4096 bytes each. A panic keeps the state it leaves, since Parse recovers.
pub mod Pending
pub mod Utf8
pub mod Scan
pub mod Numbers
pub mod Strings
pub mod Format
pub mod Builtins
use elib.Base.{
  ◌≡◌, ap, ℕ, zero, suc, ◌+◌, ◌-◌, Bool, true, false, not, ◌||◌, ◌&&◌, Option, none, some, List, [],
  ◌∷◌, ◌++◌, length, take, drop, get_elem?, ltb, leb, ◌==◌, if◌then◌else◌,
}

pub data Fault : Type 0 where
  unexpected_eof rune_error integer_overflow float_overflow percent_end illegal_verb : Fault
  expected_integer expected_float invalid_input unmatched_braces : Fault
  index_out_of_range out_of_fuel : Fault

-- What one call of Read returns.
pub record Chunk : Type 0 where
  pub bytes : List ℕ
  pub is_eof : Bool

pub record Input : Type 0 where
  pub reader : Option (List Chunk)
  -- read EOF or reader is nil.
  pub saw_end : Bool
  pub buf : List ℕ
  -- Current buffer index
  pub index : ℕ
  -- The last one first.
  pub saves : List ℕ
  pub err : Option Fault
  pub strict_space_matching : Bool

pub data Run {ℓ} (A : Type ℓ) : Type ℓ where
  done : A → Input → Run A
  fail : Fault → Input → Run A

abbrev pub Parser : Type 0 → Type 0
Parser A = Input → Run A

infixl 5 ◌>>=◌ ◌>>◌
abbrev pub ◌>>=◌ : {A B : Type 0} → Parser A → (A → Parser B) → Parser B
◌>>=◌ m f input = elim (m input) [ done a input' ↦ f a input' | fail e input' ↦ fail e input' ]

abbrev pub ◌>>◌ : {A B : Type 0} → Parser A → Parser B → Parser B
m >> k = m >>= λ _. k

abbrev pub pure : {A : Type 0} → A → Parser A
pure a input = done a input

pub bind-done :
    {A B : Type 0} (m : Parser A) (f : A → Parser B) {input input' : Input} {a : A}
    → m input ≡ done a input'
    → (m >>= f) input ≡ f a input'
bind-done m f h = ap (λ r. elim r [ done a i ↦ f a i | fail e i ↦ fail e i ]) h

abbrev pub throw : {A : Type 0} → Fault → Parser A
throw e input = fail e input

-- Reads of the state, and writes of one field.
abbrev pub state : Parser Input
state input = done input input

abbrev pub put_index : ℕ → Parser (Unit {0})
put_index i input = done tt (record input { index = i })

unfoldable pub add_buffer : List ℕ → Parser (Unit {0})
add_buffer b input = done tt (
    if length input.buf == 0
    then record input { buf = b }
    else record input { buf = input.buf ++ b })

unfoldable pub save : Parser (Unit {0})
save input = done tt (record input { saves = input.index ∷ input.saves })

unfoldable pub restore : Bool → Parser (Unit {0})
restore advance input = elim input.saves [
  | [] ↦ fail index_out_of_range input
  | i ∷ rest ↦
      done tt (
        if advance then record input { saves = rest } else record input { index = i; saves = rest })
]

-- What was read before the index is dropped.
abbrev pub truncate : Input → Input
truncate input = record input { buf = drop input.index input.buf; index = 0 }

abbrev pub add_chunk : Chunk → List Chunk → Input → Input
add_chunk c rest input =
    let kept : Input = if length input.saves == 0 then truncate input else input in
    record kept { reader = some rest; saw_end = c.is_eof; buf = kept.buf ++ c.bytes }

-- A reader with nothing more to return is at its end.
unfoldable pub read : Parser (Unit {0})
read input = elim input.reader [
  | none ↦ done tt (record input { saw_end = true })
  | some [] ↦ done tt (add_chunk (record { bytes = []; is_eof = true }) [] input)
  | some (c ∷ rest) ↦ done tt (add_chunk c rest input)
]

-- Each round of a loop passes a byte, makes a read or is the last.
abbrev pub chunk_fuel : List Chunk → ℕ
chunk_fuel [] = 1
chunk_fuel (c ∷ cs) = suc (length c.bytes + chunk_fuel cs)

abbrev pub reader_fuel : Option (List Chunk) → ℕ
reader_fuel none = 1
reader_fuel (some cs) = chunk_fuel cs

abbrev pub fuel_of : Input → ℕ
fuel_of input = suc (length input.buf + reader_fuel input.reader)

unfoldable pub do_read_loop : ℕ → ℕ → Bool → Parser (Option (List ℕ))
do_read_loop zero n must input = fail out_of_fuel input
do_read_loop (suc fuel) n must input =
    let more : Run (Option (List ℕ)) = (read >> do_read_loop fuel n must) input in
    let stop : Run (Option (List ℕ)) =
      if must then fail unexpected_eof input else done none input in
    if ltb (length input.buf) (input.index + n)
    then (if input.saw_end then stop else more)
    else done (some (take n (drop input.index input.buf)))
        (record input { index = input.index + n })

unfoldable pub do_read : ℕ → Bool → Parser (Option (List ℕ))
do_read n must input = do_read_loop (fuel_of input) n must input

unfoldable pub must_read_byte : Parser ℕ
must_read_byte = do
  r ← do_read 1 true
  elim r [ some (b ∷ _) ↦ pure b | _ ↦ throw index_out_of_range ]

-- The next byte of the buffer, if there is one.
unfoldable pub fast_byte : Parser (Option ℕ)
fast_byte input = elim (get_elem? input.buf input.index) [
  | some b ↦ done (some b) (record input { index = input.index + 1 })
  | none ↦ done none input
]

unfoldable pub read_byte : Parser ℕ
read_byte = do b ← fast_byte; elim b [ some x ↦ pure x | none ↦ must_read_byte ]

unfoldable pub unread : ℕ → Parser (Unit {0})
unread size input = done tt (record input { index = input.index - size })

unfoldable pub skip : Parser (Unit {0})
skip input = done tt (record input { index = length input.buf })

unfoldable pub input_space_must_match_format : Bool → Parser Bool
input_space_must_match_format new input =
    done input.strict_space_matching (record input { strict_space_matching = new })
