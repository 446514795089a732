-- ===== src/Heap/Get.antt =====
-- Get and GetAligned of heap.go: a block is taken from the free ones, or added at the end.
use elib.Base.{
  ℕ, zero, suc, ◌+◌, ◌-◌, ◌%◌, ◌^◌, ◌&&◌, Option, none, some, List, Outcome, ok, panic, bad_size,
  heap_overflow, ◌>>=◌, load, length, take, set, ltb, ◌==◌, ◌!=◌, if◌then◌else◌, bit_and,
}
use elib.Cap.{FloatScale}
use elib.Heap.{
  Heap, poison, max_index, put_elt, put_list, put_next, put_prev, elt_size, new_elt, free_elt,
}
use elib.Heap.Put.{put}

-- The end of a block becomes a free block of its own.
unfoldable pub free_after : FloatScale → ℕ → ℕ → ℕ → Heap → Outcome Heap
free_after scale ei e_size free_size h = do
  (fi, h1) ← new_elt h
  e ← load h1.elts ei
  _ ← load h1.elts fi
  let f = record poison {
    offset = (e.offset + (e_size + 2 ^ 32 - free_size) % 2 ^ 32) % 2 ^ 32;
    next = e.next;
    prev = ei;
  }
  let h2 = put_elt h1 fi f
  h3 ← if e.next != max_index then put_prev h2 e.next fi else ok h2
  h4 ← put_next h3 ei fi
  let h5 : Heap = if ei == h4.tail then record h4 { tail = fi } else h4
  free_elt scale fi free_size h5

-- The start of a block becomes a free block of its own.
unfoldable pub free_before : FloatScale → ℕ → ℕ → ℕ → Heap → Outcome Heap
free_before scale ei e_size free_size h = do
  (fi, h1) ← new_elt h
  e ← load h1.elts ei
  _ ← load h1.elts fi
  let h2 = put_elt h1 fi (record poison { offset = e.offset; prev = e.prev; next = ei })
  h3 ← if e.prev == max_index then ok (record h2 { head = fi }) else put_next h2 e.prev fi
  e' ← load h3.elts ei
  let h4 = put_elt h3 ei (record e' { offset = (e'.offset + free_size) % 2 ^ 32; prev = fi })
  free_elt scale fi free_size h4

-- Quickly allocate from free list of given size.
unfoldable pub get_exact : ℕ → Heap → Outcome (Option (ℕ × ℕ × Heap))
get_exact size h =
    let found : Outcome (Option (ℕ × ℕ × Heap)) = do
      list ← load h.free.items size
      let l = length list
      let last : Outcome (Option (ℕ × ℕ × Heap)) = do
        ei ← load list (l - 1)
        e ← load h.elts ei
        let h1 = put_elt (put_list h size (take (l - 1) list)) ei (record e { free = max_index })
        ok (some (ei, e.offset, h1))
      if ltb 0 l then last else ok none
    in if ltb size (length h.free.items) then found else ok none

-- The large free block `ei`, at `fi` of the list, is taken, and what it has too much is freed.
unfoldable pub take_large : FloatScale → ℕ → List ℕ → ℕ → ℕ → ℕ → Heap → Outcome (ℕ × ℕ × Heap)
take_large scale size list fi ei es h = do
  let l = length list % 2 ^ 32
  let last_moved : Outcome (Heap × List ℕ) = do
    gi ← load list (l - 1)
    g ← load h.elts gi
    ok (put_elt h gi (record g { free = fi }), set list fi gi)
  (h1, list1) ← if ltb fi (l - 1) then last_moved else ok (h, list)
  let h2 = put_list h1 0 (take (l - 1) list1)
  e ← load h2.elts ei
  let h3 = put_elt h2 ei (record e { free = max_index })
  h4 ← if ltb 0 (es - size) then free_after scale ei es ((es - size) % 2 ^ 32) h3 else ok h3
  ok (ei, e.offset, h4)

-- The search, from index `fi` of the list on, with `n` left.
unfoldable pub get_large_loop :
    FloatScale → ℕ → List ℕ → ℕ → ℕ → Heap → Outcome (Option (ℕ × ℕ × Heap))
get_large_loop scale size list zero fi h = ok none
get_large_loop scale size list (suc n) fi h = do
  ei ← load list fi
  e ← load h.elts ei
  es ← elt_size h e
  let rest = get_large_loop scale size list n (fi + 1) h
  if ltb es size then rest else (take_large scale size list fi ei es h >>= λ r. ok (some r))

-- Search free list 0: where free objects > max requested size are kept.
unfoldable pub get_large : FloatScale → ℕ → Heap → Outcome (Option (ℕ × ℕ × Heap))
get_large scale size h =
    let found : Outcome (Option (ℕ × ℕ × Heap)) =
      load h.free.items 0 >>= λ list. get_large_loop scale size list (length list % 2 ^ 32) 0 h in
    if ltb 0 (length h.free.items) then found else ok none

-- A new block at the end of the heap.
unfoldable pub get_end : ℕ → Heap → Outcome (ℕ × ℕ × Heap)
get_end size h =
    let added : Outcome (ℕ × ℕ × Heap) = do
      let h1 : Heap = if h.len == 0 then record h { head = 0; tail = max_index } else h
      (ei, h2) ← new_elt h1
      _ ← load h2.elts ei
      let offset = h2.len
      let e = record poison { offset = offset; prev = h2.tail }
      let prev = h2.tail
      let h3 = put_elt (record h2 { len = (h2.len + size) % 2 ^ 32; tail = ei }) ei e
      h4 ← if prev != max_index then put_next h3 prev ei else ok h3
      ok (ei, offset, h4)
    in if h.max_len != 0 && ltb h.max_len ((h.len + size) % 2 ^ 32)
      then panic heap_overflow
      else added

unfoldable pub get : FloatScale → ℕ → ℕ → Heap → Outcome (ℕ × ℕ × Heap)
get scale size_arg size h =
    -- Keep track of largest size caller asks for.
    let asked = size_arg % 2 ^ 32 in
    let h1 : Heap = if ltb h.max_size asked then record h { max_size = asked } else h in
    let searched : Outcome (ℕ × ℕ × Heap) = do
      exact ← get_exact size h1
      elim exact [
        | some r ↦ ok r
        | none ↦ do
          large ← get_large scale size h1
          elim large [ some r ↦ ok r | none ↦ get_end size h1 ]
      ]
    in if size == 0 then panic bad_size else searched

-- The exported Get.
unfoldable pub get_block : FloatScale → ℕ → Heap → Outcome (ℕ × ℕ × Heap)
get_block scale size h = get scale size (size % 2 ^ 32) h

unfoldable pub new_elt_before : ℕ → Heap → Outcome (ℕ × Heap)
new_elt_before ei h = do
  (pi, h1) ← new_elt h
  e ← load h1.elts ei
  p ← load h1.elts pi
  let h2 = put_elt h1 pi (record p { next = ei; prev = e.prev })
  h3 ← if e.prev == max_index then ok (record h2 { head = pi }) else put_next h2 e.prev pi
  h4 ← put_prev h3 ei pi
  ok (pi, h4)

unfoldable pub new_elt_after : ℕ → Heap → Outcome (ℕ × Heap)
new_elt_after ei h = do
  (ni, h1) ← new_elt h
  e ← load h1.elts ei
  n ← load h1.elts ni
  let h2 = put_elt h1 ni (record n { prev = ei; next = e.next })
  h3 ← if e.next == max_index then ok (record h2 { tail = ni }) else put_prev h2 e.next ni
  h4 ← put_next h3 ei ni
  ok (ni, h4)

-- `elts[ei].offset = x`
abbrev pub put_offset : ℕ → ℕ → Heap → Outcome Heap
put_offset ei x h = load h.elts ei >>= λ e. ok (put_elt h ei (record e { offset = x }))

unfoldable pub get_aligned : FloatScale → ℕ → ℕ → Heap → Outcome (ℕ × ℕ × Heap)
get_aligned scale size_arg log2_alignment h = do
  let a = 2 ^ log2_alignment % 2 ^ 32
  let mask = (a + 2 ^ 32 - 1) % 2 ^ 32
  let sa = size_arg % 2 ^ 32
  let s = (size_arg + a + 2 ^ 64 - 1) % 2 ^ 64 % 2 ^ 32
  (ei, offset, h1) ← get scale size_arg s h
  let o = offset % 2 ^ 32
  -- Aligned offset.
  let ao = bit_and ((o + a + 2 ^ 32 - 1) % 2 ^ 32) (2 ^ 32 - 1 - mask)
  let before : Outcome Heap = do
    (pi, g) ← new_elt_before ei h1
    g ← put_offset pi o g
    g ← put_offset ei ao g
    put scale pi g
  h2 ← if ltb 0 log2_alignment && ao != o then before else ok h1
  let after : Outcome Heap = do
    (ni, g) ← new_elt_after ei h2
    g ← put_offset ei ao g
    g ← put_offset ni ((ao + sa) % 2 ^ 32) g
    put scale ni g
  h3 ← if ltb 0 log2_alignment && ltb ((ao + sa) % 2 ^ 32) ((o + s) % 2 ^ 32) then after else ok h2
  ok (ei, ao, h3)
