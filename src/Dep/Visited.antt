-- ===== src/Dep/Visited.antt =====
-- dep/dep.go: Next of bitmap.go on an inline word.
use elib.Base.{
  ℕ, ◌+◌, ◌-◌, ◌*◌, ◌/◌, ◌%◌, ◌^◌, ◌<◌, ◌≡◌, ◌⊎◌, refl, ap, ◌∙◌, inl, inr, Bool, true, false,
  Outcome, ok, arith, ◌==◌, ◌!=◌, ==_iff, ltb, leb, if◌then◌else◌, Bool-cases, bit_or, bit_and,
  ne→==,
}
use elib.Word.{complement}
use elib.Word.Bounds.{bit_or-lt, bit_and-lt}
use elib.Word.Pow.{two_pow-lt, two_pow-pos}
use elib.Word.Digits.{bit, bit_le, bit-or, bit-and, bit-pow, bit-zero, bit-complement}
use elib.Bits.Lowest.{first_set_lem}
use elib.Bits.Log.{min_log2-two_pow}
use elib.Bitmap.Store.{BitmapPool}
use elib.Bitmap.Walk.{next, next_word, lowest_of}
use elib.Bitmap.Update.Content.{shl-one, inline_lt}

-- The digits that Next looks at are those above `x`.
above_bit :
    (x j : ℕ)
    → x < 63
    → j < 64
    → bit (complement (bit_or (2 ^ x) (2 ^ x - 1))) j ≡ (if leb j x then 0 else 1)
above_bit x j lt small =
    let low : bit (2 ^ x - 1) j ≡ (if ltb j x then 1 - bit 0 j else 0) =
      ap (λ w. bit w j) {x = 2 ^ x - 1} {y = 2 ^ x - 1 - 0} (omega arith)
      ∙ bit-complement x 0 j (two_pow-pos x) in
    let size =
      bit_or-lt 64 (2 ^ x) (2 ^ x - 1) (two_pow-lt {a = x} {b = 64} (omega (arith, lt)))
        (omega (arith, two_pow-lt {a = x} {b = 64} (omega (arith, lt)))) in
    ground (
      arith,
      bit-complement 64 (bit_or (2 ^ x) (2 ^ x - 1)) j size,
      bit-or (2 ^ x) (2 ^ x - 1) j,
      bit-pow x j,
      low,
      bit-zero j,
      small,
    )

-- What Next finds after `x` in the word.
abbrev Found : (BitmapPool → Outcome (Bool × ℕ)) → BitmapPool → ℕ → ℕ → Type 0
Found f p b x =
    ((f p ≡ ok (false, 2 ^ 64 - 1)) × ((j : ℕ) → x < j → j < 64 → bit b j ≡ 0))
    ⊎ ((y : ℕ) × (f p ≡ ok (true, y))
        × (x < y)
        × (bit b y ≡ 1)
        × ((j : ℕ) → x < j → j < y → bit b j ≡ 0))

-- Next after an index below 63 is the least set bit above it, or there is none.
pub inline_next : (p : BitmapPool) (b x : ℕ) → b < 2 ^ 63 → x < 63 → Found (λ q. next q b x) p b x
unfolding next next_word
inline_next p b x small lt =
    let above = complement (bit_or (2 ^ x) (2 ^ x - 1)) in
    let m = bit_and above b in
    let digit : (j : ℕ) → j < 64 → bit m j ≡ (if leb j x then 0 else bit b j) =
      λ j l. ground (arith, bit-and above b j, above_bit x j lt l, bit_le b j) in
    let size : m < 2 ^ 64 = bit_and-lt 64 above b (omega arith) in
    let run : next p b x ≡ (if m != 0 then ok (true, lowest_of 0 m) else ok (false, 2 ^ 64 - 1)) =
      let place : x % 64 ≡ x = omega (arith, lt) in
      let word : x / 64 ≡ 0 = omega (arith, lt) in
      rw
        (
          place,
          word,
          shl-one x (omega (arith, lt)),
          ne→== x (2 ^ 64 - 1) (λ e. omega (arith, e, lt)),
          inline_lt b small,
        )
        refl in
    elim (Bool-cases (m == 0)) [
      | inl z ↦ inl (
        run ∙ rw z refl,
        λ j l k. ground (arith, digit j k, ap (λ n. bit n j) ((==_iff m 0).0 z), bit-zero j, l),
      )
      | inr z ↦
          let (k, e, near, on, off) = first_set_lem m (ground (arith, z)) size in
          inr (
            k,
            run
                ∙ rw (z, e, min_log2-two_pow k near)
                    (let cut : (0 * 64 + k) % 2 ^ 64 ≡ k = omega (arith, near) in rw cut refl),
            ground (arith, digit k near, on),
            ground (arith, digit k near, on),
            λ j l h. ground (arith, digit j (omega (arith, h, near)), off j h, l),
          )
    ]
