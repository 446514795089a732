-- ===== src/Bitmap/Combine/Unsigned.antt =====
-- `bothInline` compares an unsigned word with zero, so Or and AndNot never look into the pool.
use elib.Base.{ℕ, ◌<◌, ◌^◌, ◌≡◌, refl, ◌∙◌, ap, arith, ok, bit_and, bit_or, le→leb}
use elib.Word.{complement}
use elib.Word.Bounds.{bit_or-lt, bit_and-lt}
use elib.Word.Digits.{bit_ext, bit-or, bit-and, bit-complement, bit_le}
use elib.Cap.{FloatScale}
use elib.Bitmap.Store.{BitmapPool, Level}
use elib.Bitmap.Combine.{or}

bit_or-complement :
    (i j : ℕ)
    → i < 2 ^ 64
    → j < 2 ^ 64
    → bit_or (complement i) (complement j) ≡ complement (bit_and i j)
bit_or-complement i j h k =
    bit_ext 64 _ _ (bit_or-lt 64 (complement i) (complement j) (omega arith) (omega arith))
      (omega arith)
      (λ n q. ground (
        arith,
        bit-or (complement i) (complement j) n,
        bit-complement 64 i n h,
        bit-complement 64 j n k,
        bit-complement 64 (bit_and i j) n (bit_and-lt 64 i j h),
        bit-and i j n,
        bit_le i n,
        bit_le j n,
      ))

module _ (scale : FloatScale) (extra : ℕ → ℕ) (lv : Level) (p : BitmapPool) where
  or-ok : (b c : ℕ) → or scale extra lv b c p ≡ ok (bit_or b c, p)
  unfolding or
  or-ok b c = rw (le→leb 0 (bit_or b c) (omega arith)) refl

  -- Or of two pooled bitmaps returns the bitmap of a third slot: that whose index is the bitwise
  -- AND of the two. No word of any slot is read or written.
  pub or-pooled :
      (i j : ℕ)
      → i < 2 ^ 63
      → j < 2 ^ 63
      → or scale extra lv (complement i) (complement j) p ≡ ok (complement (bit_and i j), p)
  or-pooled i j h k =
      or-ok (complement i) (complement j)
      ∙ ap (λ (r : ℕ). ok (r, p)) (bit_or-complement i j (omega arith) (omega arith))
