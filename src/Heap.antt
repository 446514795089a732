-- ===== src/Heap.antt =====
-- heap.go: an allocator of blocks of any size of an array, which is not part of the heap.
-- `Index` is `uint32`. The slices of the heap share no array with each other; a pointer to an
-- element is its index, read again after each write. The lists of `free` are only appended to and
-- cut shorter, so that their spare capacity is never seen.
pub mod FreeList
pub mod Get
pub mod Put
pub mod Usage
use elib.Base.{
  ℕ, ◌+◌, ◌-◌, ◌%◌, ◌^◌, Bool, false, List, [], ◌∷◌, ◌++◌, Outcome, ok, panic, corrupt_free_list,
  ◌>>=◌, load, length, take, set, ltb, leb, ◌==◌, ◌!=◌, if◌then◌else◌,
}
use elib.Cap.{FloatScale}
use elib.Vec.{Vec, validate_index}

abbrev pub max_index : ℕ
max_index = 2 ^ 32 - 1

pub record HeapElt : Type 0 where
  -- Offset of this element in heap.
  pub offset : ℕ
  -- Index on free list for this size or ^uint32(0) if not free.
  pub free : ℕ
  -- Index of next and previous elements
  pub next : ℕ
  pub prev : ℕ

abbrev pub poison : HeapElt
poison = record { offset = max_index; free = max_index; next = max_index; prev = max_index }

pub record Heap : Type 0 where
  pub elts : List HeapElt
  -- Slices of free elts indices indexed by size.
  -- "Size" 0 is for large sized chunks.
  pub free : Vec (List ℕ)
  pub removed : List ℕ
  pub head : ℕ
  pub tail : ℕ
  -- Total number of indices allocated
  pub len : ℕ
  -- Largest size ever allocated
  pub max_size : ℕ
  -- Max limit on heap size in elements.
  pub max_len : ℕ

unfoldable pub set_max_len : ℕ → Heap → Heap
set_max_len l h = record h { max_len = l % 2 ^ 32 }

abbrev pub is_free : HeapElt → Bool
is_free e = e.free != max_index

-- A write to an element that was read before.
abbrev pub put_elt : Heap → ℕ → HeapElt → Heap
put_elt h i e = record h { elts = set h.elts i e }

-- `heap.free[size] = list`
abbrev pub put_list : Heap → ℕ → List ℕ → Heap
put_list h size list = record h { free = record (h.free) { items = set h.free.items size list } }

-- Writes of the two links of an element.
abbrev pub put_next : Heap → ℕ → ℕ → Outcome Heap
put_next h i x = load h.elts i >>= λ e. ok (put_elt h i (record e { next = x }))

abbrev pub put_prev : Heap → ℕ → ℕ → Outcome Heap
put_prev h i x = load h.elts i >>= λ e. ok (put_elt h i (record e { prev = x }))

unfoldable pub elt_size : Heap → HeapElt → Outcome ℕ
elt_size h e = do
  o ← if e.next != max_index then (load h.elts e.next >>= λ n. ok n.offset) else ok h.len
  ok ((o + 2 ^ 32 - e.offset) % 2 ^ 32)

unfoldable pub size : Heap → ℕ → Outcome ℕ
size h ei = load h.elts ei >>= elt_size h

-- Len
unfoldable pub block_len : Heap → ℕ → Outcome ℕ
block_len = size

unfoldable pub get_max_len : Heap → ℕ
get_max_len h = h.max_len

unfoldable pub get_id : Heap → ℕ → Outcome (ℕ × ℕ)
get_id h ei = do e ← load h.elts ei; l ← elt_size h e; ok (e.offset, l)

-- Recycle previously removed elts.
unfoldable pub new_elt : Heap → Outcome (ℕ × Heap)
new_elt h =
    let l = length h.removed in
    let recycled : Outcome (ℕ × Heap) = do
      ei ← load h.removed (l - 1)
      _ ← load h.elts ei
      ok (ei, put_elt (record h { removed = take (l - 1) h.removed }) ei poison)
    in let fresh : Outcome (ℕ × Heap) =
        ok (length h.elts % 2 ^ 32, record h { elts = h.elts ++ poison ∷ [] }) in
      if ltb 0 l then recycled else fresh

unfoldable pub free_elt : FloatScale → ℕ → ℕ → Heap → Outcome Heap
free_elt scale ei size h = do
  let size : ℕ = if ltb h.max_size size then 0 else size
  (_, v) ← validate_index scale [] h.free size
  e ← load h.elts ei
  list ← load v.items size
  let h1 = put_elt (record h { free = v }) ei (record e { free = length list % 2 ^ 32 })
  ok (put_list h1 size (list ++ ei ∷ []))

unfoldable pub remove_free_elt : ℕ → ℕ → Heap → Outcome Heap
remove_free_elt ei size h = do
  e ← load h.elts ei
  let fi = e.free
  let size : ℕ = if leb (length h.free.items % 2 ^ 32) size then 0 else size
  list ← load h.free.items size
  let l = length list % 2 ^ 32
  listed ← if ltb fi l then (load list fi >>= λ x. ok (x == ei)) else ok false
  let removed : Outcome Heap = do
    let last_moved : Outcome (Heap × List ℕ) = do
      gi ← load list (l - 1)
      g ← load h.elts gi
      ok (put_elt h gi (record g { free = fi }), set list fi gi)
    (h1, list1) ← if ltb fi (l - 1) then last_moved else ok (h, list)
    let h2 = put_elt (put_list h1 size (take (l - 1) list1)) ei poison
    ok (record h2 { removed = h2.removed ++ ei ∷ [] })
  if listed then removed else panic corrupt_free_list
