-- ===== src/Heap/Put.antt =====
-- Put of heap.go: a block is freed and joined with its free neighbours.
use elib.Base.{
  ℕ, ◌+◌, ◌-◌, ◌%◌, ◌^◌, Outcome, ok, panic, duplicate_free, ◌>>=◌, load, ◌==◌, ◌!=◌, if◌then◌else◌,
}
use elib.Cap.{FloatScale}
use elib.Heap.{
  Heap, max_index, is_free, put_elt, put_next, put_prev, size, free_elt, remove_free_elt,
}

-- If previous element is free combine free elements.
unfoldable pub join_prev : ℕ → Heap → Outcome Heap
join_prev ei h = do
  e ← load h.elts ei
  let joined : Outcome Heap = do
    prev ← load h.elts e.prev
    let taken : Outcome Heap = do
      let ps = (e.offset + 2 ^ 32 - prev.offset) % 2 ^ 32
      let h1 = put_elt h ei (record e { offset = prev.offset; prev = prev.prev })
      h2 ← if prev.prev != max_index then put_next h1 prev.prev ei else ok h1
      h3 ← remove_free_elt e.prev ps h2
      ok (if e.prev == h3.head then record h3 { head = ei } else h3)
    if is_free prev then taken else ok h
  if e.prev != max_index then joined else ok h

-- If next element is free also combine.
unfoldable pub join_next : ℕ → Heap → Outcome Heap
join_next ei h = do
  e ← load h.elts ei
  let joined : Outcome Heap = do
    next ← load h.elts e.next
    let taken : Outcome Heap = do
      ns ← size h e.next
      let h1 = put_elt h ei (record e { next = next.next })
      h2 ← if next.next != max_index then put_prev h1 next.next ei else ok h1
      h3 ← remove_free_elt e.next ns h2
      ok (if e.next == h3.tail then record h3 { tail = ei } else h3)
    if is_free next then taken else ok h
  if e.next != max_index then joined else ok h

unfoldable pub put : FloatScale → ℕ → Heap → Outcome Heap
put scale ei h = do
  e ← load h.elts ei
  let freed : Outcome Heap = do
    h1 ← join_prev ei h
    h2 ← join_next ei h1
    es ← size h2 ei
    free_elt scale ei es h2
  if is_free e then panic duplicate_free else freed
