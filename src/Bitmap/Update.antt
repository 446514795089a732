-- ===== src/Bitmap/Update.antt =====
-- Get, Set2, Unset2, Invert2 and Orx of bitmap.go: one bit of a bitmap.
pub mod Content
pub mod Inline
pub mod Pooled
pub mod Single
pub mod Unset
use elib.Base.{
  ℕ, ◌+◌, ◌-◌, ◌*◌, ◌/◌, ◌%◌, ◌^◌, Bool, not, ◌&&◌, true, false, List, [], ◌∷◌, Outcome, ok, panic,
  index_out_of_range, ◌>>=◌, load, length, set, bit_and, bit_or, bit_xor, leb, ltb, ◌==◌, ◌!=◌,
  if◌then◌else◌,
}
use elib.Word.{complement, shl, shr, and_not}
use elib.Cap.{FloatScale}
use elib.Vec.{Vec}
use elib.Bitmap.Store.{
  BitmapPool, Level, is_pool_index, is_inline, bitmap_index, words, put_words, put_word,
  validate_words, to_mem,
}

unfoldable pub get : BitmapPool → ℕ → ℕ → Outcome Bool
get p b x =
    let m = shl 1 x in
    -- Out of range bits are always zero.
    let m' : ℕ = if leb 64 x then 0 else m in
    let (i, mask) = bitmap_index x in
    let pooled : Outcome Bool = do
      bm ← words p (complement b)
      if ltb i (length bm.items)
          then (do w ← load bm.items i; ok (bit_and w mask != 0))
          else ok false
    in if not (is_pool_index b) then ok (bit_and b m' != 0) else pooled

-- The end of Set2 and of Invert2: word `i` of a pooled bitmap is changed with the mask.
unfoldable pub change_word :
    FloatScale → (ℕ → ℕ → ℕ) → ℕ → ℕ → BitmapPool → Outcome ((ℕ × Bool) × BitmapPool)
change_word scale change r x p = do
  let (i, m) = bitmap_index x
  let bi = complement r
  p' ← validate_words scale bi i p
  s ← words p' bi
  si ← load s.items i
  ok ((r, bit_and si m != 0), put_words p' bi (put_word s i (change si m)))

-- Set2 and Invert2 differ in the operation on the word.
unfoldable pub change2 :
    FloatScale
    → (ℕ → ℕ)
    → Level
    → (ℕ → ℕ → ℕ)
    → ℕ
    → ℕ
    → BitmapPool
    → Outcome ((ℕ × Bool) × BitmapPool)
change2 scale extra lv change b x p =
    let m = shl 1 x in
    let moved : Outcome ((ℕ × Bool) × BitmapPool) = do
      (r, p') ← to_mem extra lv b p
      change_word scale change r x p'
    in if is_inline b
      then (if ltb x 63 then ok ((change b m, bit_and b m != 0), p) else moved)
      else change_word scale change b x p

-- Set2 sets bit X in given bitmap, possibly resizeing and returning new bitmap.
-- Second return value is old value of bit X or false if bit is newly created.
unfoldable pub set2 :
    FloatScale → (ℕ → ℕ) → Level → ℕ → ℕ → BitmapPool → Outcome ((ℕ × Bool) × BitmapPool)
set2 scale extra lv = change2 scale extra lv bit_or

unfoldable pub invert2 :
    FloatScale → (ℕ → ℕ) → Level → ℕ → ℕ → BitmapPool → Outcome ((ℕ × Bool) × BitmapPool)
invert2 scale extra lv = change2 scale extra lv bit_xor

-- Set and Invert return the bitmap alone.
abbrev pub bitmap_only : Outcome ((ℕ × Bool) × BitmapPool) → Outcome (ℕ × BitmapPool)
bitmap_only r = r >>= λ (rv, p). ok (rv.0, p)

unfoldable pub set_bit :
    FloatScale → (ℕ → ℕ) → Level → ℕ → ℕ → BitmapPool → Outcome (ℕ × BitmapPool)
set_bit scale extra lv b x p = bitmap_only (set2 scale extra lv b x p)

unfoldable pub invert : FloatScale → (ℕ → ℕ) → Level → ℕ → ℕ → BitmapPool → Outcome (ℕ × BitmapPool)
invert scale extra lv b x p = bitmap_only (invert2 scale extra lv b x p)

-- No word is added: a pooled bitmap that is too short is an index panic.
unfoldable pub unset2 : ℕ → ℕ → BitmapPool → Outcome ((ℕ × Bool) × BitmapPool)
unset2 b x p =
    let m = shl 1 x in
    let (i, mask) = bitmap_index x in
    let pooled : Outcome ((ℕ × Bool) × BitmapPool) = do
      s ← words p (complement b)
      si ← load s.items i
      ok ((b, bit_and si mask != 0), put_words p (complement b) (put_word s i (and_not si mask)))
    in if not (is_pool_index b)
      then ok ((bit_and b (complement m), bit_and b m != 0), p)
      else pooled

unfoldable pub unset : ℕ → ℕ → BitmapPool → Outcome (ℕ × BitmapPool)
unset b x p = bitmap_only (unset2 b x p)

unfoldable pub orx : FloatScale → (ℕ → ℕ) → Level → ℕ → ℕ → BitmapPool → Outcome (ℕ × BitmapPool)
orx scale extra lv b x p =
    let (i, m) = bitmap_index x in
    let pooled = λ (r : ℕ) (q : BitmapPool). do
      let bi = complement r
      q' ← validate_words scale bi i q
      s ← words q' bi
      w ← load s.items i
      ok (r, put_words q' bi (put_word s i (bit_or w m)))
    in let moved : Outcome (ℕ × BitmapPool) = do (r, p') ← to_mem extra lv b p; pooled r p'
      in if not (is_pool_index b)
        then (if ltb x 63 then ok (bit_or b (shl 1 x), p) else moved)
        else pooled b p
