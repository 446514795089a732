-- ===== src/Parse/Scan.antt =====
-- Runes, spaces and tokens of parse/parse.go.
use elib.Base.{
  ℕ, zero, suc, ◌+◌, ◌-◌, Bool, true, false, not, ◌||◌, ◌&&◌, none, some, List, [], ◌∷◌, ◌++◌,
  length, take, drop, ltb, leb, ◌==◌, if◌then◌else◌,
}
use elib.Parse.{
  Run, Parser, done, fail, ◌>>=◌, ◌>>◌, pure, throw, state, rune_error, index_out_of_range,
  out_of_fuel, save, restore, read, fuel_of, do_read, must_read_byte, fast_byte, unread,
}
use elib.Parse.Utf8
use elib.Parse.Utf8.{full_rune, decode_rune, is_space}

-- The bytes of a rune, with room for so many more.
unfoldable pub rune_loop : ℕ → List ℕ → Parser (ℕ × ℕ)
rune_loop zero bytes = throw index_out_of_range
rune_loop (suc room) bytes = do
  b ← must_read_byte
  let x = bytes ++ b ∷ []
  let (r, size) = decode_rune x
  let more = rune_loop room x
  if full_rune x then (if r == Utf8.rune_error then throw rune_error else pure (r, size)) else more

-- The rune and its number of bytes.
unfoldable pub read_rune : Parser (ℕ × ℕ)
read_rune = do
  first ← fast_byte
  elim first [
    | some b ↦ if ltb b 0x80 then pure (b, 1) else rune_loop 3 (b ∷ [])
    | none ↦ rune_loop 4 []
  ]

-- `for skipSpace && in.index < len(in.buf)`
unfoldable pub skip_buffered : ℕ → Parser (Unit {0})
skip_buffered zero input = fail out_of_fuel input
skip_buffered (suc fuel) input =
    let step : Run (Unit {0}) =
      (do (r, size) ← read_rune; if is_space r then skip_buffered fuel else unread size) input in
    if ltb input.index (length input.buf) then step else done tt input

unfoldable pub end_loop : ℕ → Bool → Parser Bool
end_loop zero skip_space = throw out_of_fuel
end_loop (suc fuel) skip_space = do
  before ← state
  if skip_space then skip_buffered (fuel_of before) else pure tt
  input ← state
  let at_end = leb (length input.buf) input.index
  let more = read >> end_loop fuel skip_space
  if not at_end || input.saw_end then pure at_end else more

unfoldable pub at_end : Bool → Parser Bool
at_end skip_space input = end_loop (fuel_of input) skip_space input

abbrev pub end_no_skip : Parser Bool
end_no_skip = at_end false

-- A rune is read while there is input and it does not fulfil `stop`. The count is that of the runes.
unfoldable pub skip_until : ℕ → (ℕ → Bool) → ℕ → Parser ℕ
skip_until zero stop n = throw out_of_fuel
skip_until (suc fuel) stop n = do
  over ← end_no_skip
  let step : Parser ℕ = do
    (r, size) ← read_rune
    if stop r then (unread size >> pure n) else skip_until fuel stop (n + 1)
  if over then pure n else step

unfoldable pub skip_space : Parser ℕ
skip_space input = skip_until (fuel_of input) (λ r. not (is_space r)) 0 input

unfoldable pub token_f : (ℕ → Bool) → Parser (List ℕ)
token_f f = do
  save
  skip_space
  start ← state
  skip_until (fuel_of start) f 0
  stop ← state
  let found = ltb start.index stop.index
  restore found
  pure (if found then take (stop.index - start.index) (drop start.index stop.buf) else [])

unfoldable pub token : Parser (List ℕ)
token = token_f is_space

unfoldable pub at_rune : ℕ → Parser Bool
at_rune r = do (r', size) ← read_rune; if r' == r then pure true else (unread size >> pure false)

abbrev pub same_bytes : List ℕ → List ℕ → Bool
same_bytes [] [] = true
same_bytes [] (y ∷ ys) = false
same_bytes (x ∷ xs) [] = false
same_bytes (x ∷ xs) (y ∷ ys) = x == y && same_bytes xs ys

-- At: the input goes on with the text `s`, which is then passed.
unfoldable pub at_text : List ℕ → Parser Bool
at_text s = do
  r ← do_read (length s) false
  elim r [
    | none ↦ pure false
    | some bytes ↦ if same_bytes bytes s then pure true else (unread (length s) >> pure false)
  ]

-- The index of a byte in a text, or its length.
abbrev pub index_of : ℕ → List ℕ → ℕ
index_of r [] = 0
index_of r (c ∷ cs) = if r == c then 0 else suc (index_of r cs)

unfoldable pub at_oneof : List ℕ → Parser ℕ
at_oneof s = do
  (r, size) ← read_rune
  let i = index_of r s
  if ltb i (length s) then pure i else (unread size >> pure i)
