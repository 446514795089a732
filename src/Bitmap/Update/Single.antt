-- ===== src/Bitmap/Update/Single.antt =====
-- Get, Set and Orx of bitmap.go on an inline word, for an index below 63.
use elib.Base.{
  ℕ, ◌^◌, ◌<◌, ◌≡◌, refl, ap, ◌∙◌, false, ok, arith, ◌==◌, leb, if_true, bit_or, lt→ltb,
}
use elib.Cap.{FloatScale}
use elib.Word.Bounds.{bit_or-lt}
use elib.Word.Pow.{two_pow-lt}
use elib.Word.Digits.{bit}
use elib.Bitmap.Store.{BitmapPool, Level}
use elib.Bitmap.Update.{get, set_bit, set2, change2, orx}
use elib.Bitmap.Update.Content.{mask_test, shl-one, inline_lt}

-- Get of an inline word.
pub inline_get : (p : BitmapPool) (b x : ℕ) → b < 2 ^ 63 → x < 63 → get p b x ≡ ok (bit b x == 1)
unfolding get
inline_get p b x small lt =
    let near : leb 64 x ≡ false = ground (arith, lt) in
    if_true _ _ (inline_lt b small) ∙ rw near (ap ok (mask_test b x (omega (arith, lt))))

-- Set of an inline word: the word stays inline, and the pool as it is.
pub inline_set :
    (scale : FloatScale) (extra : ℕ → ℕ) (lv : Level) (p : BitmapPool) (b x : ℕ)
    → b < 2 ^ 63
    → x < 63
    → (set_bit scale extra lv b x p ≡ ok (bit_or b (2 ^ x), p)) × (bit_or b (2 ^ x) < 2 ^ 63)
unfolding set_bit set2 change2
inline_set scale extra lv p b x small lt = (
  rw (inline_lt b small, lt→ltb x 63 lt, shl-one x (omega (arith, lt))) refl,
  bit_or-lt 63 b (2 ^ x) small (two_pow-lt lt),
)

pub inline_orx :
    (scale : FloatScale) (extra : ℕ → ℕ) (lv : Level) (p : BitmapPool) (b x : ℕ)
    → b < 2 ^ 63
    → x < 63
    → orx scale extra lv b x p ≡ ok (bit_or b (2 ^ x), p)
unfolding orx
inline_orx scale extra lv p b x small lt =
    rw (inline_lt b small, lt→ltb x 63 lt, shl-one x (omega (arith, lt))) refl
