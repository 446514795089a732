-- ===== src/Bitmap/Vector.antt =====
-- BitmapVec of bitmap.go, and the functions on slices of words beside it.
use elib.Base.{
  ℕ, ◌-◌, Bool, false, Outcome, ok, ◌>>=◌, load, length, replicate, bit_and, bit_or, ltb, ◌!=◌,
  if◌then◌else◌, List, set,
}
use elib.Word.{and_not}
use elib.Cap.{FloatScale}
use elib.Vec.{Vec, validate_index}
use elib.Bitmap.Store.{bitmap_index}

-- Out of range bits are zero.
unfoldable pub vec_get : List ℕ → ℕ → Outcome Bool
vec_get bm x =
    let (i, m) = bitmap_index x in
    if ltb i (length bm) then (load bm i >>= λ w. ok (bit_and w m != 0)) else ok false

-- bitmapSet, and Set with any `v`: the bit is set, and the old value returned.
unfoldable pub vec_set : List ℕ → ℕ → Bool → Outcome (Bool × List ℕ)
vec_set bm x v = do
  let (i, m) = bitmap_index x
  b ← load bm i
  ok (bit_and b m != 0, set bm i (bit_or b m))

unfoldable pub vec_unset : List ℕ → ℕ → Outcome (Bool × List ℕ)
vec_unset bm x = do
  let (i, m) = bitmap_index x
  b ← load bm i
  ok (bit_and b m != 0, set bm i (and_not b m))

unfoldable pub alloc : FloatScale → Vec ℕ → ℕ → Outcome (Vec ℕ)
alloc scale bm n =
    let i = (bitmap_index (n - 1)).0 in
    if ltb 0 n then (validate_index scale 0 bm i >>= λ r. ok r.1) else ok bm

-- bitmapGet panics out of range.
unfoldable pub bitmap_get : List ℕ → ℕ → Outcome Bool
bitmap_get b x = do let (i, m) = bitmap_index x; w ← load b i; ok (bit_and w m != 0)

unfoldable pub bitmap_set : List ℕ → ℕ → Outcome (Bool × List ℕ)
bitmap_set b x = do
  let (i, m) = bitmap_index x
  v ← load b i
  ok (bit_and v m != 0, set b i (bit_or v m))

unfoldable pub bitmap_unset : List ℕ → ℕ → Outcome (Bool × List ℕ)
bitmap_unset b x = do
  let (i, m) = bitmap_index x
  v ← load b i
  ok (bit_and v m != 0, set b i (and_not v m))

-- Room for the bits up to the last whole word.
unfoldable pub bitmap_make : ℕ → List ℕ
bitmap_make n_bits = replicate ((bitmap_index n_bits).0) 0
