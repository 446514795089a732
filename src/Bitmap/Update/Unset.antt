-- ===== src/Bitmap/Update/Unset.antt =====
-- Unset2 of bitmap.go, on all its branches.
use elib.Base.{
  ℕ, ◌/◌, ◌%◌, ◌^◌, ◌≤◌, ◌<◌, ◌≡◌, refl, arith, Bool, ok, length, get_elem?-get_or, get_or,
  set-get_or, Bool-cases, inl, inr, bit_and, ◌!=◌,
}
use elib.Word.{complement, shl, and_not}
use elib.Bitmap.Store.{BitmapPool, is_inline, put_words, put_word, no_words}
use elib.Bitmap.Update.{unset2}
use elib.Bitmap.Update.Content.{IsBitmap, IsTidy, slot, Changed, words-slot, shl-one}
use elib.Bitmap.Update.Inline.{and_not-ChangesDigit, to_zero, change-inline}
use elib.Bitmap.Update.Pooled.{Grown, after-Changed}

module _ (p : BitmapPool) (b x : ℕ) (h : IsBitmap p b) (t : IsTidy p) where
  -- Unset2 removes the index and nothing else, and returns whether it was there: on an inline
  -- bitmap for an index below 63, and on a pooled one for an index within its words.
  pub unset2-Changed :
      (b < 2 ^ 63 → x < 63)
      → (2 ^ 63 ≤ b → x / 64 < length (slot p (complement b)).items)
      → (r : ℕ) × (old : Bool) × (q : BitmapPool) × (unset2 b x p ≡ ok ((r, old), q))
        × Changed to_zero p b x r old q
  unfolding unset2
  unset2-Changed near inside = elim (Bool-cases (is_inline b)) [
    | inl small ↦
        let s : b < 2 ^ 63 = ground arith in
        (
          and_not b (shl 1 x),
          bit_and b (shl 1 x) != 0,
          p,
          rw small refl,
          change-inline and_not-ChangesDigit p b x s (near s),
        )
    | inr large ↦
        let s : 2 ^ 63 ≤ b = ground arith in
        let v = slot p (complement b) in
        let g : Grown v (x / 64) v = record {
          reached = inside s;
          same = λ j. refl;
          clean = t.clean _;
          sized = t.sized _;
        } in
        let q =
          put_words (put_words p (complement b) v) (complement b)
            (put_word v (x / 64) (and_not (get_or v.items (x / 64) 0) (2 ^ (x % 64)))) in
        let read = get_elem?-get_or v.items (x / 64) 0 (inside s) in
        (
          b,
          bit_and (get_or v.items (x / 64) 0) (shl 1 (x % 64)) != 0,
          q,
          rw
              (
                large,
                words-slot p (complement b) (h.owned s),
                read,
                shl-one (x % 64) (omega arith),
                set-get_or p.bitmaps.items (complement b) no_words,
              )
              refl,
          after-Changed p b s h.word t (h.owned s) and_not-ChangesDigit x v g,
        )
  ]
