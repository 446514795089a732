-- ===== src/Bitmap/Recycle/Sets.antt =====
-- Set2, Invert2 and Unset2 of bitmap.go on every kind of bitmap.
use elib.Base.{ℕ, suc, ◌^◌, ◌≤◌, ◌<◌, ◌≡◌, arith, Bool, ok, Bool-cases, inl, inr}
use elib.Cap.{FloatScale}
use elib.Bitmap.Store.{BitmapPool, is_inline}
use elib.Bitmap.Update.{change2, set2, invert2}
use elib.Bitmap.Update.Content.{IsBitmap, IsTidy, Changed, ChangesDigit}
use elib.Bitmap.Update.Inline.{or-ChangesDigit, xor-ChangesDigit, to_one, flip}
use elib.Bitmap.Update.Pooled.{change_word-Changed}
use elib.Bitmap.Recycle.{level}
use elib.Bitmap.Recycle.Fresh.{IsFresh, change2-inline}

module _ (scale : FloatScale) (extra : ℕ → ℕ) (room : extra 1 ≤ 2 ^ 30) (p : BitmapPool)
    (f : IsFresh p) (t : IsTidy p) (m b x : ℕ) (h : IsBitmap p b) (near : x < 2 ^ 34) where
  change2-Changed :
      {op : ℕ → ℕ → ℕ} {g : ℕ → ℕ}
      → ChangesDigit op g
      → (r : ℕ) × (old : Bool) × (q : BitmapPool) × (change2 scale extra
            (level scale extra (suc m))
            op
            b
            x
            p
          ≡ ok ((r, old), q))
        × Changed g p b x r old q
  change2-Changed {op} o = elim (Bool-cases (is_inline b)) [
    | inl small ↦ change2-inline scale extra p f o m b x t room (ground arith) near
    | inr large ↦
        let (old, q, e, c) =
          change_word-Changed p b (ground arith) h.word t (h.owned (ground arith)) scale o x near in
        (b, old, q, unfold change2 in rw large e, c)
  ]

  -- On a pool from which nothing was freed, Set2 of an index below 2^34 returns, for an inline
  -- bitmap and for a pooled one, a bitmap with that index added and nothing else changed, and
  -- whether it was there before. The other bitmaps of the pool keep what they hold.
  pub set2-Changed :
      (r : ℕ) × (old : Bool) × (q : BitmapPool) × (set2 scale extra
          (level scale extra (suc m))
          b
          x
          p
        ≡ ok ((r, old), q))
      × Changed to_one p b x r old q
  unfolding set2
  set2-Changed = change2-Changed or-ChangesDigit

  -- Under the same conditions Invert2 returns the bitmap with the index added if it was missing and
  -- removed if it was there, and whether it was there. Nothing else changes.
  pub invert2-Changed :
      (r : ℕ) × (old : Bool) × (q : BitmapPool) × (invert2 scale extra
          (level scale extra (suc m))
          b
          x
          p
        ≡ ok ((r, old), q))
      × Changed flip p b x r old q
  unfolding invert2
  invert2-Changed = change2-Changed xor-ChangesDigit
