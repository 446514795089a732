-- ===== src/Parse/Utf8.antt =====
-- What the scanner uses of the packages unicode and utf8: FullRune, DecodeRune and IsSpace.
use elib.Base.{
  ℕ, ◌+◌, ◌-◌, ◌*◌, Bool, true, false, not, ◌&&◌, ◌||◌, List, [], ◌∷◌, ltb, leb, ◌==◌,
  if◌then◌else◌,
}

abbrev pub in_range : ℕ → ℕ → ℕ → Bool
in_range lo hi x = leb lo x && leb x hi

-- The length of the sequence that a first byte begins; 1 for a byte that begins none.
abbrev pub sequence_length : ℕ → ℕ
sequence_length b =
    if in_range 0xc2 0xdf b
    then 2
    else if in_range 0xe0 0xef b
    then 3
    else if in_range 0xf0 0xf4 b
    then 4
    else 1

-- Whether a second byte may follow a first byte.
abbrev pub second_fits : ℕ → ℕ → Bool
second_fits b c =
    if b == 0xe0
    then in_range 0xa0 0xbf c
    else if b == 0xed
    then in_range 0x80 0x9f c
    else if b == 0xf0
    then in_range 0x90 0xbf c
    else if b == 0xf4
    then in_range 0x80 0x8f c
    else in_range 0x80 0xbf c

abbrev pub continues : ℕ → Bool
continues = in_range 0x80 0xbf

-- An invalid sequence is full: it decodes to the error rune.
pub full_rune : List ℕ → Bool
full_rune [] = false
full_rune (b ∷ []) = leb (sequence_length b) 1
full_rune (b ∷ c ∷ []) = leb (sequence_length b) 2 || not (second_fits b c)
full_rune (b ∷ c ∷ d ∷ []) = leb (sequence_length b) 3 || not (second_fits b c) || not (continues d)
full_rune (b ∷ c ∷ d ∷ e ∷ rest) = true

abbrev pub rune_error : ℕ
rune_error = 0xfffd

-- The code point and the number of bytes.
pub decode_rune : List ℕ → ℕ × ℕ
decode_rune [] = (rune_error, 0)
decode_rune (b ∷ rest) =
    let n = sequence_length b in
    let wrong : ℕ × ℕ = (rune_error, 1) in
    let more : ℕ × ℕ = elim rest [
      | [] ↦ wrong
      | c ∷ [] ↦ if n == 2 && second_fits b c then ((b - 0xc0) * 64 + (c - 0x80), 2) else wrong
      | c ∷ d ∷ [] ↦
          if n == 2 && second_fits b c
          then ((b - 0xc0) * 64 + (c - 0x80), 2)
          else if n == 3 && second_fits b c && continues d
          then (((b - 0xe0) * 64 + (c - 0x80)) * 64 + (d - 0x80), 3)
          else wrong
      | c ∷ d ∷ e ∷ _ ↦
          if n == 2 && second_fits b c
          then ((b - 0xc0) * 64 + (c - 0x80), 2)
          else if n == 3 && second_fits b c && continues d
          then (((b - 0xe0) * 64 + (c - 0x80)) * 64 + (d - 0x80), 3)
          else if n == 4 && second_fits b c && continues d && continues e
          then ((((b - 0xf0) * 64 + (c - 0x80)) * 64 + (d - 0x80)) * 64 + (e - 0x80), 4)
          else wrong
    ] in
    if ltb b 0x80 then (b, 1) else more

abbrev pub is_space : ℕ → Bool
is_space r =
    in_range 9 13 r
    || r == 0x20
    || r == 0x85
    || r == 0xa0
    || r == 0x1680
    || in_range 0x2000 0x200a r
    || in_range 0x2028 0x2029 r
    || r == 0x202f
    || r == 0x205f
    || r == 0x3000
