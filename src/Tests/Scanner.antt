-- ===== src/Tests/Scanner.antt =====
-- The scanner on small inputs.
use elib.Base.{ℕ, ◌≡◌, refl, true, false, List, [], ◌∷◌, none, some, inr}
use elib.Parse.{
  Input, done, fail, expected_integer, save, restore, read, do_read, do_read_loop, fast_byte,
  unread,
}
use elib.Parse.Scan.{read_rune, end_loop, at_end, at_text}
use elib.Parse.Pending.{observe}
use elib.Parse.Numbers.{digits_loop, parse_int, verb_base, do_int}
use elib.Parse.Numbers.Digits.{advance}

abbrev text_input : List ℕ → Input
text_input bytes = record {
  reader = none;
  saw_end = true;
  buf = bytes;
  index = 0;
  saves = [];
  err = none;
  strict_space_matching = false;
}

-- Twelve and a comma.
abbrev twelve : Input
twelve = text_input (b'1' ∷ b'2' ∷ b',' ∷ [])

abbrev minus_one : Input
minus_one = text_input (b'-' ∷ b'1' ∷ [])

-- Two bytes in the buffer, the first of them passed, and two reads.
abbrev two_reads : Input
two_reads = record (text_input (1 ∷ 2 ∷ [])) {
  index = 1;
  saw_end = false;
  reader = some (
      (record { bytes = 3 ∷ []; is_eof = false })
      ∷ (record { bytes = 4 ∷ []; is_eof = true })
      ∷ []);
}

do_read_run : observe (do_read 2 true two_reads) ≡ (inr (some (2 ∷ 3 ∷ [])), 4 ∷ [])
unfolding do_read do_read_loop read
do_read_run = refl

-- `%v` of the text "0" takes the digit as the prefix of an octal number, and finds no digit after it.
zero_run :
    do_int b'v' 32 false (text_input (b'0' ∷ []))
    ≡ fail expected_integer (advance 1 (text_input (b'0' ∷ [])))
unfolding do_int verb_base at_text do_read do_read_loop read parse_int digits_loop at_end end_loop
    save restore read_rune fast_byte unread
zero_run = refl

-- The last digit of 50000000000000000000: the product wraps to a number larger than the one before it.
wrap_run :
    digits_loop 4 10 5000000000000000000 19 (text_input (b'0' ∷ []))
    ≡ done (13106511852580896768, 20) (advance 1 (text_input (b'0' ∷ [])))
unfolding digits_loop at_end end_loop read_rune fast_byte unread
wrap_run = refl
