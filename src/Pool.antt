-- ===== src/Pool.antt =====
-- pool.go and the pools that pool.tmpl generates: slots of an array that are taken and given back.
-- The bitmap of free indices is behind an interface, which the bitmaps of bitmap.go fill.
-- One definition stands for each method of the generated files, which differ in the type alone.
pub mod Grow
use elib.Base.{
  ℕ, zero, suc, ◌+◌, ◌-◌, ◌%◌, ◌^◌, ◌≡◌, Bool, true, false, not, ◌&&◌, ◌||◌, List, [], ◌∷◌, ◌++◌,
  Outcome, ok, panic, index_out_of_range, pool_too_large, ◌>>=◌, load, length, take, replicate, leb,
  ltb, ◌==◌, ◌!=◌, if◌then◌else◌,
}
use elib.Cap.{FloatScale, next_resize_cap}
use elib.Vec.{resize, Vec, capacity, reslice, copied, resize}

-- Bitmaps over a shared state, as the pool uses them. The laws hold of the bitmaps that are valid,
-- at the indices in range.
pub record FreeBits : Type 1 where
  pub State : Type 0
  pub Bits : Type 0
  pub get : State → Bits → ℕ → Outcome Bool
  pub and_notx : State → Bits → ℕ → Outcome (Bits × State)
  pub orx : State → Bits → ℕ → Outcome (Bits × State)
  pub Valid : State → Bits → Type 0
  pub InRange : ℕ → Type 0
  pub member : State → Bits → ℕ → Bool
  pub get_law : (s : State) (b : Bits) (x : ℕ) → Valid s b → get s b x ≡ ok (member s b x)
  pub and_notx_law :
      (s : State) (b : Bits) (x : ℕ)
      → Valid s b
      → InRange x
      → (b' : Bits) × (s' : State) × (and_notx s b x ≡ ok (b', s'))
        × Valid s' b'
        × ((y : ℕ) → member s' b' y ≡ (if x == y then false else member s b y))
  pub orx_law :
      (s : State) (b : Bits) (x : ℕ)
      → Valid s b
      → InRange x
      → (b' : Bits) × (s' : State) × (orx s b x ≡ ok (b', s'))
        × Valid s' b'
        × ((y : ℕ) → member s' b' y ≡ (if x == y then true else member s b y))

-- Validate of a generated pool: the data is made longer than `i`.
unfoldable pub validate {ℓ} : {A : Type ℓ} → FloatScale → A → ℕ → Vec A → Outcome (Vec A)
validate {A = A} scale zero_value i v = do
  let c = capacity v % 2 ^ 32
  let l = (i % 2 ^ 32 + 1) % 2 ^ 32
  let c' = next_resize_cap scale l
  let q : Vec A = record { items = copied zero_value v l; spare = replicate (c' - l) zero_value }
  v' ← if ltb c l then (if leb l c' then ok q else panic index_out_of_range) else ok v
  if ltb (length v'.items % 2 ^ 32) l then reslice v' l else ok v'

module _ (bits : FreeBits) where
  open bits use {State, Bits, get, and_notx, orx}

  pub record Pool : Type 0 where
    -- Vector of free indices
    pub free_indices : List ℕ
    -- Bitmap of free indices
    pub free_bitmap : Bits
    -- Non-zero to limit size of pool.
    pub max_len : ℕ

  -- Get first free pool index if available.
  unfoldable pub get_index : ℕ → Pool → State → Outcome (ℕ × Pool × State)
  get_index max p s = do
    let l = length p.free_indices
    let taken : Outcome (ℕ × Pool × State) = do
      i ← load p.free_indices (l - 1)
      let rest = take (l - 1) p.free_indices
      (fb, s') ← and_notx s p.free_bitmap i
      ok (i, record p { free_indices = rest; free_bitmap = fb }, s')
    (i, p', s') ← if l != 0 then taken else ok (max, p, s)
    if p'.max_len != 0 && leb p'.max_len i then panic pool_too_large else ok (i, p', s')

  -- Put (free) given pool index.
  unfoldable pub put_index : ℕ → Pool → State → Outcome (Bool × Pool × State)
  put_index i p s = do
    free ← get s p.free_bitmap i
    let freed : Outcome (Bool × Pool × State) = do
      (fb, s') ← orx s p.free_bitmap i
      ok (
        true,
        record p { free_indices = p.free_indices ++ (i % 2 ^ 32) ∷ []; free_bitmap = fb },
        s',
      )
    if not free then freed else ok (false, p, s)

  unfoldable pub is_free : ℕ → Pool → State → Outcome Bool
  is_free i p s = get s p.free_bitmap i

  unfoldable pub free_len : Pool → ℕ
  free_len p = length p.free_indices

  unfoldable pub set_max_len : ℕ → Pool → Pool
  set_max_len x p = record p { max_len = x }

  module _ (scale : FloatScale) {A : Type 0} (zero_value : A) where
    -- A generated pool: the indices and the data.
    pub record DataPool : Type 0 where
      pub pool : Pool
      pub items : Vec A

    unfoldable pub get_data_index : DataPool → State → Outcome (ℕ × DataPool × State)
    get_data_index d s = do
      let l = length d.items.items
      (i, p, s') ← get_index l d.pool s
      v ← if leb l i then validate scale zero_value i d.items else ok d.items
      ok (i, record { pool = p; items = v }, s')

    unfoldable pub put_data_index : ℕ → DataPool → State → Outcome (Bool × DataPool × State)
    put_data_index i d s = do
      (done, p, s') ← put_index i d.pool s
      ok (done, record d { pool = p }, s')

    unfoldable pub is_free_data : ℕ → DataPool → State → Outcome Bool
    is_free_data i d s =
        let asked = is_free i d.pool s in if leb (length d.items.items) i then ok true else asked

    unfoldable pub elts : DataPool → ℕ
    elts d = length d.items.items - free_len d.pool

    -- The calls of `f`, in order: every index below `n` that is not free.
    pub foreach_index_loop : ℕ → ℕ → DataPool → State → Outcome (List ℕ)
    foreach_index_loop zero i d s = ok []
    foreach_index_loop (suc n) i d s = do
      free ← is_free i d.pool s
      rest ← foreach_index_loop n (i + 1) d s
      ok (if not free then i ∷ rest else rest)

    unfoldable pub foreach_index : DataPool → State → Outcome (List ℕ)
    foreach_index d s = foreach_index_loop (length d.items.items) 0 d s

    unfoldable pub resize_data : ℕ → DataPool → Outcome DataPool
    resize_data n d = resize scale zero_value d.items n >>= λ v. ok (record d { items = v })

    unfoldable pub data_length : DataPool → ℕ
    data_length d = length d.items.items

    -- The calls of `f` for the items from index `i` on, in order.
    unfoldable pub foreach_loop : List A → ℕ → DataPool → State → Outcome (List A)
    foreach_loop [] i d s = ok []
    foreach_loop (x ∷ xs) i d s = do
      free ← is_free i d.pool s
      rest ← foreach_loop xs (i + 1) d s
      ok (if not free then x ∷ rest else rest)

    unfoldable pub foreach : DataPool → State → Outcome (List A)
    foreach d s = foreach_loop d.items.items 0 d s
