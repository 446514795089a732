-- ===== src/TypedPool.antt =====
-- typed_pool.go: a pool of indices, each with a type and a block of bytes.
-- The size of the largest type is read by reflection and is a parameter of `init`. A pointer into
-- the data is the index of its first byte. A byte is a number below 256.
use elib.Base.{
  ℕ, zero, suc, ◌+◌, ◌-◌, ◌*◌, ◌%◌, ◌^◌, Bool, true, false, List, [], ◌∷◌, ◌++◌, Outcome, ok, panic,
  index_out_of_range, wrong_type, ◌>>=◌, load, length, set, take, drop, replicate, ltb, leb, ◌==◌,
  ◌!=◌, if◌then◌else◌, min,
}
use elib.Cap.{FloatScale}
use elib.Vec.{Vec, validate_index}
use elib.Pool.{FreeBits, Pool, get_index, put_index, is_free, free_len, set_max_len}

-- `copy(data[j:j+s], bytes)`, which panics past the capacity; the slice may reach into the spare
-- bytes, but not where `data` was made long enough before.
abbrev pub copy_bytes : Vec ℕ → ℕ → ℕ → List ℕ → Outcome (Vec ℕ)
copy_bytes v j s bytes =
    let whole = v.items ++ v.spare in
    let k = min s (length bytes) in
    let n = length v.items in
    let written = take j whole ++ take k bytes ++ drop (j + k) whole in
    if leb (j + s) (length whole)
    then ok (record { items = take n written; spare = drop n written })
    else panic index_out_of_range

-- Alternating 0xde and 0xad, from position `i` on.
abbrev pub dead_bytes : ℕ → ℕ → List ℕ
dead_bytes zero i = []
dead_bytes (suc n) i = (if i % 2 == 0 then 0xde else 0xad) ∷ dead_bytes n (i + 1)

module _ (bits : FreeBits) where
  open bits use {State}

  pub record TypedPool : Type 0 where
    -- Allocation free list and free bitmap.
    pub pool : Pool bits
    -- Object type and data vectors.
    pub object_types : Vec ℕ
    pub object_data : Vec ℕ
    -- Size of largest type in bytes.
    pub object_size : ℕ
    -- Unused data is poisoned; new data is zeroed when allocated.
    pub poison : List ℕ
    pub zero_bytes : List ℕ
    -- 128 bytes.
    pub poison_zero_buf : List ℕ

  abbrev pub largest : List ℕ → ℕ → ℕ
  largest [] l = l
  largest (x ∷ xs) l = largest xs (if ltb l x then x else l)

  -- `sizes` are those of the types of the arguments. The zero bytes are what the buffer holds there.
  unfoldable pub init : List ℕ → TypedPool → TypedPool
  init sizes p =
      let l = largest sizes p.object_size in
      let own = ltb (length p.poison_zero_buf) (2 * l) in
      let b : List ℕ = if own then replicate (2 * l) 0 else p.poison_zero_buf in
      let b' : List ℕ = take l b ++ dead_bytes l 0 ++ drop (2 * l) b in
      record p {
        object_size = l;
        zero_bytes = take l b;
        poison = dead_bytes l 0;
        poison_zero_buf = if own then p.poison_zero_buf else b';
      }

  unfoldable pub is_initialized : TypedPool → Bool
  is_initialized p = p.object_size != 0

  unfoldable pub get_typed_index :
      FloatScale → ℕ → TypedPool → State → Outcome (ℕ × TypedPool × State)
  get_typed_index scale typ p s = do
    (k, pool, s') ← get_index bits (length p.object_types.items) p.pool s
    let i = k % 2 ^ 32
    (_, types) ← validate_index scale 0 p.object_types i
    _ ← load types.items i
    let types' = record types { items = set types.items i (typ % 256) }
    let size = p.object_size
    let j = i * size
    (_, bytes) ← validate_index scale 0 p.object_data ((j + size + 2 ^ 64 - 1) % 2 ^ 64)
    written ← copy_bytes bytes j size p.zero_bytes
    ok (i, record p { pool = pool; object_types = types'; object_data = written }, s')

  unfoldable pub put_typed_index : ℕ → ℕ → TypedPool → State → Outcome (Bool × TypedPool × State)
  put_typed_index t i p s = do
    typ ← load p.object_types.items i
    let freed : Outcome (Bool × TypedPool × State) = do
      (done, pool, s') ← put_index bits i p.pool s
      let types = record (p.object_types) { items = set p.object_types.items i 0 }
      let cleared : Outcome (Bool × TypedPool × State) = do
        written ← copy_bytes p.object_data (i * p.object_size) p.object_size p.poison
        ok (true, record p { pool = pool; object_types = types; object_data = written }, s')
      if done then cleared else ok (false, record p { pool = pool }, s')
    if typ == t % 256 then freed else ok (false, p, s)

  -- The index of the first byte of the data.
  unfoldable pub get_data : ℕ → ℕ → TypedPool → Outcome ℕ
  get_data t i p = do
    typ ← load p.object_types.items i
    let j = i * p.object_size % 2 ^ 32
    let found : Outcome ℕ = load p.object_data.items j >>= λ _. ok j
    if typ != t then panic wrong_type else found

  unfoldable pub data_of : ℕ → TypedPool → Outcome (ℕ × ℕ)
  data_of i p = do
    typ ← load p.object_types.items i
    let j = i * p.object_size
    _ ← load p.object_data.items j
    ok (typ, j)

  unfoldable pub is_free_typed : ℕ → TypedPool → State → Outcome Bool
  is_free_typed i p s = is_free bits i p.pool s

  unfoldable pub typed_free_len : TypedPool → ℕ
  typed_free_len p = free_len bits p.pool

  unfoldable pub set_typed_max_len : ℕ → TypedPool → TypedPool
  set_typed_max_len x p = record p { pool = set_max_len bits x p.pool }
