-- ===== src/Sparse.antt =====
-- sparse.go: sparse indices mapped to dense ones, by a bitmap of the indices in use and the number
-- of them below each word. An `int32` of `count` is its 32 bits, as `Index` reads it.
pub mod Rank
use elib.Base.{
  ℕ, zero, suc, ◌+◌, ◌-◌, ◌%◌, ◌^◌, Bool, ◌&&◌, true, false, List, [], ◌∷◌, Outcome, ok, ◌>>=◌,
  load, length, set, bit_and, bit_or, bit_xor, ltb, leb, ◌!=◌, if◌then◌else◌,
}
use elib.Cap.{FloatScale}
use elib.Bits.{n_set_bits}
use elib.Vec.{Vec, validate_index}
use elib.Bitmap.Store.{bitmap_index}

pub record Sparse : Type 0 where
  -- Bitmap of valid sparse indices.
  pub valid : Vec ℕ
  -- Count of number of dense indices with smaller indices.
  pub count : Vec ℕ

-- The dense index in word `v`, with `c` indices below the word, of the bit with mask `m`.
abbrev pub dense_index : ℕ → ℕ → ℕ → ℕ
dense_index c v m = (c + n_set_bits (bit_and v (m - 1)) % 2 ^ 32) % 2 ^ 32

unfoldable pub get : Sparse → ℕ → Outcome (ℕ × Bool)
get s sparse =
    let (i, m) = bitmap_index sparse in
    let inside : Outcome (ℕ × Bool) = do
      v ← load s.valid.items i
      let found : Outcome (ℕ × Bool) = load s.count.items i >>= λ c. ok (dense_index c v m, true)
      if bit_and v m != 0 then found else ok (2 ^ 32 - 1, false)
    in if leb (length s.valid.items) i then ok (0, false) else inside

-- `count[i] += dx` for the indices past `start`; `dx` is its 32 bits. The first index of the list is `i`.
unfoldable pub inc_loop : ℕ → ℕ → ℕ → List ℕ → List ℕ
inc_loop start dx i [] = []
inc_loop start dx i (c ∷ cs) =
    (if ltb start i then (c + dx) % 2 ^ 32 else c) ∷ inc_loop start dx (suc i) cs

unfoldable pub inc : ℕ → ℕ → Sparse → Sparse
inc start dx s = record s { count = record (s.count) { items = inc_loop start dx 0 s.count.items } }

unfoldable pub elts_before : Sparse → ℕ → Outcome ℕ
elts_before s i = do
  c ← load s.count.items i
  v ← load s.valid.items i
  ok ((c + n_set_bits v % 2 ^ 32) % 2 ^ 32)

-- With no words the index is -1, which is out of range.
unfoldable pub elts : Sparse → Outcome ℕ
elts s = elts_before s ((length s.count.items + 2 ^ 64 - 1) % 2 ^ 64)

-- `count[j] = e` for `n` indices from `j` on.
unfoldable pub fill_loop : ℕ → ℕ → ℕ → List ℕ → Outcome (List ℕ)
fill_loop e zero j cs = ok cs
fill_loop e (suc n) j cs = load cs j >>= λ _. fill_loop e n (j + 1) (set cs j e)

unfoldable pub set_index : FloatScale → ℕ → Sparse → Outcome (ℕ × Sparse)
set_index scale sparse s = do
  let (i, m) = bitmap_index sparse
  let l = length s.valid.items
  (_, valid) ← validate_index scale 0 s.valid i
  (_, count) ← validate_index scale 0 s.count i
  let s1 : Sparse = record { valid = valid; count = count }
  let filled : Outcome Sparse = do
    e ← elts_before s1 (l - 1)
    cs ← if e != 0 then fill_loop e (length valid.items - l) l count.items else ok count.items
    ok (record s1 { count = record count { items = cs } })
  s2 ← if ltb 0 l && ltb l (length valid.items) then filled else ok s1
  v ← load s2.valid.items i
  let added : Outcome (ℕ × Sparse) = do
    c ← load s2.count.items i
    let s3 = record s2 { valid = record (s2.valid) { items = set s2.valid.items i (bit_or v m) } }
    ok (dense_index c v m, inc i 1 s3)
  -- An index that is already there is not looked up: the result is zero.
  if bit_and v m != 0 then ok (0, s2) else added

unfoldable pub unset_index : ℕ → Sparse → Outcome (Bool × Sparse)
unset_index sparse s = do
  let (i, m) = bitmap_index sparse
  v ← load s.valid.items i
  let s1 = record s { valid = record (s.valid) { items = set s.valid.items i (bit_xor v m) } }
  if bit_and v m != 0 then ok (true, inc i (2 ^ 32 - 1) s1) else ok (false, s)
