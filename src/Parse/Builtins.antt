-- ===== src/Parse/Builtins.antt =====
-- parse/builtins.go: parsers of words, maps of strings to numbers, and comments. Regexp is left out.
-- `is_punct` is IsPunct of the package unicode.
pub mod Maps
use elib.Base.{
  ℕ, zero, suc, ◌+◌, Bool, true, false, not, ◌||◌, ◌&&◌, Option, none, some, List, [], ◌∷◌, length,
  ltb, ◌==◌, ◌!=◌, if◌then◌else◌,
}
use elib.Parse.{
  Input, Run, Parser, done, ◌>>=◌, ◌>>◌, pure, throw, invalid_input, out_of_fuel, state, fuel_of,
}
use elib.Parse.Utf8.{is_space}
use elib.Parse.Scan.{read_rune, end_no_skip, token_f, token, same_bytes}

-- A word of the first list is true, one of the second false.
abbrev pub one_of : List ℕ → List (List ℕ) → Bool
one_of text [] = false
one_of text (w ∷ ws) = same_bytes text w || one_of text ws

unfoldable pub parse_word : List (List ℕ) → List (List ℕ) → Parser Bool
parse_word trues falses = do
  text ← token
  if one_of text trues
      then pure true
      else if one_of text falses
      then pure false
      else throw invalid_input

-- The words, by their bytes.
abbrev pub true_words : List (List ℕ)
true_words = (b't' ∷ b'r' ∷ b'u' ∷ b'e' ∷ []) ∷ (b'y' ∷ b'e' ∷ b's' ∷ []) ∷ (b'1' ∷ []) ∷ []

abbrev pub false_words : List (List ℕ)
false_words = (b'f' ∷ b'a' ∷ b'l' ∷ b's' ∷ b'e' ∷ []) ∷ (b'n' ∷ b'o' ∷ []) ∷ (b'0' ∷ []) ∷ []

abbrev pub enable_words : List (List ℕ)
enable_words =
    (b'e' ∷ b'n' ∷ b'a' ∷ b'b' ∷ b'l' ∷ b'e' ∷ []) ∷ (b'y' ∷ b'e' ∷ b's' ∷ []) ∷ (b'1' ∷ []) ∷ []

abbrev pub disable_words : List (List ℕ)
disable_words =
    (b'd' ∷ b'i' ∷ b's' ∷ b'a' ∷ b'b' ∷ b'l' ∷ b'e' ∷ []) ∷ (b'n' ∷ b'o' ∷ []) ∷ (b'0' ∷ []) ∷ []

abbrev pub up_words : List (List ℕ)
up_words = (b'u' ∷ b'p' ∷ []) ∷ (b'y' ∷ b'e' ∷ b's' ∷ []) ∷ (b'1' ∷ []) ∷ []

abbrev pub down_words : List (List ℕ)
down_words = (b'd' ∷ b'o' ∷ b'w' ∷ b'n' ∷ []) ∷ (b'n' ∷ b'o' ∷ []) ∷ (b'0' ∷ []) ∷ []

unfoldable pub parse_bool : Parser Bool
parse_bool = parse_word true_words false_words

unfoldable pub parse_enable : Parser Bool
parse_enable = parse_word enable_words disable_words

unfoldable pub parse_up_down : Parser Bool
parse_up_down = parse_word up_words down_words

-- A map is the list of its entries, the latest first.
abbrev pub StringMap : Type 0
StringMap = List (List ℕ × ℕ)

abbrev pub find : List ℕ → StringMap → Option ℕ
find text [] = none
find text ((v, i) ∷ m) = if same_bytes text v then some i else find text m

unfoldable pub set_string : List ℕ → ℕ → StringMap → StringMap
set_string v i m = (v, i) ∷ m

-- The texts from the index `i` on.
unfoldable pub add_strings : ℕ → List (List ℕ) → StringMap → StringMap
add_strings i [] m = m
add_strings i (v ∷ a) m = add_strings (i + 1) a (if ltb 0 (length v) then set_string v i m else m)

unfoldable pub new_string_map : List (List ℕ) → StringMap
new_string_map a = add_strings 0 a []

-- The number is handed to the next argument.
unfoldable pub parse_string_map : (ℕ → Bool) → StringMap → Parser ℕ
parse_string_map is_punct m = do
  text ← token_f (λ r. is_space r || is_punct r && r != b'-')
  elim (find text m) [ some v ↦ pure v | none ↦ throw invalid_input ]

unfoldable pub comment_loop : ℕ → Parser (Unit {0})
comment_loop zero = throw out_of_fuel
comment_loop (suc fuel) = do
  over ← end_no_skip
  let rest = comment_loop fuel
  let one : Parser (Unit {0}) = do (r, _) ← read_rune; if r == 10 then pure tt else rest
  if over then throw invalid_input else one

-- `slashes` is the call of Parse with the format of two slashes.
unfoldable pub parse_comment : Parser Bool → Parser (Unit {0})
parse_comment slashes = do
  matched ← slashes
  input ← state
  if matched then comment_loop (fuel_of input) else throw invalid_input
