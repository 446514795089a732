-- ===== src/Parse/Strings.antt =====
-- parseString, doString and doBool of parse/parse.go.
use elib.Base.{
  ℕ, zero, suc, ◌+◌, ◌-◌, ◌%◌, Bool, true, false, not, ◌||◌, ◌&&◌, List, [], ◌∷◌, ◌++◌, length,
  take, drop, ltb, ◌==◌, ◌!=◌, if◌then◌else◌,
}
use elib.Parse.{
  Parser, ◌>>=◌, ◌>>◌, pure, throw, illegal_verb, invalid_input, unmatched_braces, out_of_fuel,
  save, restore, fuel_of, unread, state,
}
use elib.Parse.Utf8.{is_space}
use elib.Parse.Scan.{read_rune, end_no_skip, skip_space, at_oneof, token}

pub record Text : Type 0 where
  -- The bytes of the runes that were added.
  pub bytes : List ℕ
  pub backslash : Bool
  pub is_paren_delimited : Bool
  pub is_line_delimited : Bool
  -- Opening braces that wait for their closing one, and closing ones with no opening one.
  pub open_braces : ℕ
  pub extra_braces : ℕ

-- What one rune does: it ends the text and is not passed, ends it and is passed, or goes on; then
-- the rune is added to the text or not.
pub data Step : Type 0 where
  leave take_last : Text → Step
  next_rune : Bool → Text → Step

-- `paren` is `open_braces - extra_braces`; one of the two is zero.
abbrev pub more_open : Text → Text
more_open t =
    if t.extra_braces == 0
    then record t { open_braces = t.open_braces + 1 }
    else record t { extra_braces = t.extra_braces - 1 }

abbrev pub fewer_open : Text → Text
fewer_open t =
    if t.open_braces == 0
    then record t { extra_braces = t.extra_braces + 1 }
    else record t { open_braces = t.open_braces - 1 }

abbrev pub is_balanced : Text → Bool
is_balanced t = t.open_braces == 0 && t.extra_braces == 0

unfoldable pub step : ℕ → ℕ → Text → Step
step delimiter r t =
    let opened : Step =
      if is_balanced t && (length t.bytes == 0 || t.is_line_delimited)
      then next_rune false
          (more_open (record t { is_paren_delimited = true; is_line_delimited = false }))
      else next_rune true (more_open t) in
    let closed : Step =
      if t.is_paren_delimited && is_balanced (fewer_open t)
      then take_last (fewer_open t)
      else next_rune true (fewer_open t) in
    let other : Step =
      if not t.is_paren_delimited && r == delimiter then leave t else next_rune true t in
    let space : Step =
      if not (t.is_paren_delimited || t.is_line_delimited) || t.is_line_delimited && r == 10
      then leave t
      else next_rune true t in
    if t.backslash
    then next_rune true (record t { backslash = false })
    else if is_space r
    then space
    else if r == 92
    then next_rune false (record t { backslash = true })
    else if r == b'{'
    then opened
    else if r == b'}'
    then closed
    else other

-- The bytes of a rune are those that were read.
unfoldable pub text_loop : ℕ → ℕ → Text → Parser Text
text_loop zero delimiter t = throw out_of_fuel
text_loop (suc fuel) delimiter t = do
  over ← end_no_skip
  let one : Parser Text = do
    (r, size) ← read_rune
    input ← state
    let bytes = take size (drop (input.index - size) input.buf)
    elim (step delimiter r t) [
      | leave t' ↦ unread size >> pure t'
      | take_last t' ↦ pure t'
      | next_rune add t' ↦
          text_loop fuel delimiter (if add then record t' { bytes = t'.bytes ++ bytes } else t')
    ]
  if over then pure t else one

abbrev pub text_start : Bool → Text
text_start line = record {
  bytes = [];
  backslash = false;
  is_paren_delimited = false;
  is_line_delimited = line;
  open_braces = 0;
  extra_braces = 0;
}

unfoldable pub parse_string : ℕ → Parser (List ℕ)
parse_string delimiter = do
  let d : ℕ = if delimiter == b'%' || delimiter == 32 || delimiter == 9 then 0 else delimiter
  skip_space
  save
  input ← state
  t ← text_loop (fuel_of input) d (text_start (d == 10))
  restore (is_balanced t)
  if is_balanced t then pure t.bytes else throw unmatched_braces

unfoldable pub do_string : ℕ → Parser (List ℕ)
do_string verb =
    if verb == b's'
    then token
    else if verb == b'v'
    then parse_string 32
    else if verb == b'l'
    then parse_string 10
    else throw illegal_verb

-- The runes 0, 1, f, t, F and T.
unfoldable pub do_bool : Parser Bool
do_bool = do
  skip_space
  i ← at_oneof (b'0' ∷ b'1' ∷ b'f' ∷ b't' ∷ b'F' ∷ b'T' ∷ [])
  if ltb i 6 then pure (i % 2 != 0) else throw invalid_input
