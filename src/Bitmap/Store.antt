-- ===== src/Bitmap/Store.antt =====
-- The state of a BitmapPool, and the moves between inline and pooled bitmaps.
-- A call on the pool may take or free a slot of the same pool, whose list of free slots is itself
-- kept in a bitmap; `Level` holds those two operations, one level of nesting down.
use elib.Base.{
  ℕ, ◌/◌, ◌%◌, Bool, not, List, [], Outcome, ok, ◌>>=◌, load, length, set, bit_or, leb, ◌==◌, ◌!=◌,
  if◌then◌else◌,
}
use elib.Word.{complement, shl, shr}
use elib.Cap.{FloatScale}
use elib.Vec.{Vec, reslice, append, validate_index}

-- The embedded Pool, and the slots. The slots of one pool are distinct arrays.
pub record BitmapPool : Type 0 where
  pub free_indices : List ℕ
  pub free_bitmap : ℕ
  pub max_len : ℕ
  pub bitmaps : Vec (Vec ℕ)

abbrev pub no_words : Vec ℕ
no_words = record { items = []; spare = [] }

pub record Level : Type 0 where
  pub new : BitmapPool → Outcome (ℕ × BitmapPool)
  pub put_index : ℕ → BitmapPool → Outcome (Bool × BitmapPool)

abbrev pub is_pool_index : ℕ → Bool
is_pool_index b = shr b 63 != 0

abbrev pub is_inline : ℕ → Bool
is_inline b = not (is_pool_index b)

-- `(b | c) >= 0`, on unsigned words.
abbrev pub both_inline : ℕ → ℕ → Bool
both_inline b c = leb 0 (bit_or b c)

-- index gives word index and mask for given bit index
abbrev pub bitmap_index : ℕ → ℕ × ℕ
bitmap_index x = (x / 64, shl 1 (x % 64))

-- `p.bitmaps[bi]`
unfoldable pub words : BitmapPool → ℕ → Outcome (Vec ℕ)
words p bi = load p.bitmaps.items bi

-- `p.bitmaps[bi] = v`, at an index that was read before.
abbrev pub put_words : BitmapPool → ℕ → Vec ℕ → BitmapPool
put_words p bi v = record p { bitmaps = record (p.bitmaps) { items = set p.bitmaps.items bi v } }

-- `v[i] = w`, at an index that was read before.
abbrev pub put_word : Vec ℕ → ℕ → ℕ → Vec ℕ
put_word v i w = record v { items = set v.items i w }

-- `p.bitmaps[bi].Validate(i)`
unfoldable pub validate_words : FloatScale → ℕ → ℕ → BitmapPool → Outcome BitmapPool
validate_words scale bi i p = do
  v ← words p bi
  (_, v') ← validate_index scale 0 v i
  ok (put_words p bi v')

-- A free slot keeps its old words; only the first is overwritten.
unfoldable pub to_mem : (ℕ → ℕ) → Level → ℕ → BitmapPool → Outcome (ℕ × BitmapPool)
to_mem extra lv b p = do
  (bi, p') ← lv.new p
  v ← words p' bi
  v' ←
      if length v.items == 0
      then ok (append extra 0 v b)
      else (reslice v 1 >>= λ w. ok (put_word w 0 b))
  ok (complement bi, put_words p' bi v')

unfoldable pub inline_to_mem : (ℕ → ℕ) → Level → ℕ → BitmapPool → Outcome (ℕ × BitmapPool)
inline_to_mem extra lv b p = if is_inline b then to_mem extra lv b p else ok (b, p)
