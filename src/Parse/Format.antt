-- ===== src/Parse/Format.antt =====
-- Parse, ParseLoose and doPercent of parse/parse.go: input is matched against a format.
-- An argument is the kind of value that it points to; the values are returned in place of the
-- writes through the pointers, and none for input that does not match. A Parser of the caller is a
-- parameter of its argument. A ParserWithArgs and the kinds that are found by reflection are left out.
use elib.Base.{
  ℕ, zero, suc, Bool, true, false, not, ◌&&◌, none, some, List, [], ◌∷◌, ◌++◌, length, drop, leb,
  ◌==◌, if◌then◌else◌,
}
use elib.Parse.{
  Run, Parser, done, fail, ◌>>=◌, ◌>>◌, pure, throw, percent_end, index_out_of_range, out_of_fuel,
  save, restore, unread, state, input_space_must_match_format,
}
use elib.Parse.Utf8.{decode_rune, is_space}
use elib.Parse.Scan.{read_rune, end_no_skip, skip_space}
use elib.Parse.Numbers.{do_int, do_float}
use elib.Parse.Strings.{do_bool, do_string}

pub data Arg : Type 0 where
  bool_arg float_arg string_arg : Arg
  -- The width, and whether it is signed.
  int_arg : ℕ → Bool → Arg
  parser_arg : Parser (Unit {0}) → Arg

pub data Value (Float : Type 0) : Type 0 where
  bool_value : Bool → Value Float
  int_value : ℕ → Value Float
  float_value : Float → Value Float
  string_value : List ℕ → Value Float
  parsed : Value Float

-- A Parser of the caller: what it read is given back when it fails.
unfoldable pub do_parser : Parser (Unit {0}) → Parser (Unit {0})
do_parser p = do
  save
  λ input. elim (p input) [
    | done _ input' ↦ restore true input'
    | fail e input' ↦ (restore false >> throw e) input'
  ]

-- `is_letter` is IsLetter of the package unicode.
module _ {Float : Type 0} (times_expon : ℕ → ℕ → Float) (zero_float : Float)
    (is_letter : ℕ → Bool) where
  unfoldable pub do_percent : ℕ → Arg → Parser (Value Float)
  do_percent verb bool_arg = do_bool >>= λ b. pure (bool_value b)
  do_percent verb float_arg = do_float times_expon zero_float verb >>= λ x. pure (float_value x)
  do_percent verb string_arg = do_string verb >>= λ s. pure (string_value s)
  do_percent verb (int_arg bits signed) = do_int verb bits signed >>= λ x. pure (int_value x)
  do_percent verb (parser_arg p) = do_parser p >> pure parsed

  -- Where the loop over the format stands.
  pub record Matching : Type 0 where
    pub args : List Arg
    pub values : List (Value Float)
    pub match_optional : Bool
    pub skipped_space : Bool

  -- One rune of the format against the input.
  unfoldable pub match_rune : ℕ → Matching → Parser (Bool × Matching)
  match_rune c m = do
    let optional = m.match_optional && is_letter c
    let m' = record m { match_optional = optional }
    let spaces : Parser (Bool × Matching) = do
      n ← skip_space
      input ← state
      let wanted : ℕ = if input.strict_space_matching then 1 else 0
      pure (leb wanted n, m')
    let compared : Parser (Bool × Matching) = do
      (r, size) ← read_rune
      let other : Parser (Bool × Matching) =
          if optional && not (is_letter r)
          then (unread size >> pure (true, m'))
          else pure (false, m')
      if r == c then pure (true, m') else other
    let letter : Parser (Bool × Matching) =
        end_no_skip >>= λ over. if over then pure (true, m') else compared
    if is_space c
        then (if m.skipped_space then pure (true, m') else spaces)
        else (if optional then letter else compared)

  -- A verb takes the next argument.
  unfoldable pub match_verb : ℕ → Matching → Parser (Bool × Matching)
  match_verb verb m = elim m.args [
    | [] ↦ throw index_out_of_range
    | a ∷ rest ↦ do
      v ← do_percent verb a
      pure (true, record m { args = rest; values = m.values ++ v ∷ [] })
  ]

  -- The rest of the format.
  unfoldable pub format_loop : ℕ → List ℕ → Matching → Parser (Bool × Matching)
  format_loop zero format m = throw out_of_fuel
  format_loop (suc fuel) format m = do
    let (c, w) = decode_rune format
    let rest = drop w format
    let (verb, verb_width) = decode_rune rest
    let percent : Parser (Bool × Matching) =
        if length rest == 0
        then throw percent_end
        else if verb == b'%'
        then match_rune c m
        else if verb == b'*'
        then pure (true, record m { match_optional = true })
        else match_verb verb m
    let step : Parser (Bool × Matching) = do
      (matched, m1) ← if c == b'%' then percent else match_rune c m
      let next = if c == b'%' then drop verb_width rest else rest
      let on = format_loop fuel next (record m1 { skipped_space = is_space c })
      if matched then on else pure (false, m1)
    if length format == 0 then pure (true, m) else step

  -- For optional match make sure input terminates with non-letter.
  unfoldable pub match_end : Bool × Matching → Parser (Bool × Matching)
  match_end (matched, m) = do
    let check : Parser (Bool × Matching) = do
      (r, size) ← read_rune
      if is_letter r then pure (false, m) else (unread size >> pure (true, m))
    let optional : Parser (Bool × Matching) =
        end_no_skip >>= λ over. if over then pure (true, m) else check
    if matched && m.match_optional then optional else pure (matched, m)

  -- What the deferred function does with the outcome.
  unfoldable pub recover : Run (Bool × Matching) → Run (Bool × List (Value Float))
  recover (done (matched, m) input) =
      (restore matched >> pure (matched, if matched then m.values else [])) input
  recover (fail e input) = (restore false >> pure (false, [])) (record input { err = some e })

  unfoldable pub parse : List ℕ → List Arg → Parser (Bool × List (Value Float))
  parse format args = do
    let start : Matching = record {
      args = args;
      values = [];
      match_optional = false;
      skipped_space = false;
    }
    let matching : Parser (Bool × Matching) =
        format_loop (suc (length format)) format start >>= match_end
    let nonempty : Parser (Bool × List (Value Float)) = do
      save
      skip_space
      λ input. recover (matching (record input { err = none }))
    if length format == 0 then pure (true, []) else nonempty

  -- A panic outside of the recovery leaves the switch at false.
  unfoldable pub parse_loose : List ℕ → List Arg → Parser (Bool × List (Value Float))
  parse_loose format args = do
    old ← input_space_must_match_format false
    r ← parse format args
    _ ← input_space_must_match_format old
    pure r
