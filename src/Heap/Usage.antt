-- ===== src/Heap/Usage.antt =====
-- GetUsage of heap.go: how much of the heap is used and how much is free.
use elib.Base.{ℕ, ◌+◌, ◌%◌, ◌^◌, List, [], ◌∷◌, Outcome, ok, ◌>>=◌, if◌then◌else◌}
use elib.Heap.{HeapElt, Heap, is_free, elt_size}

pub record HeapUsage : Type 0 where
  pub used : ℕ
  pub free : ℕ

-- The loop over the elements.
unfoldable pub add_usage : Heap → List HeapElt → HeapUsage → Outcome HeapUsage
add_usage h [] u = ok u
add_usage h (e ∷ es) u = elt_size h e >>= λ size. add_usage h es (
    if is_free e
    then record u { free = (u.free + size) % 2 ^ 64 }
    else record u { used = (u.used + size) % 2 ^ 64 })

unfoldable pub get_usage : Heap → Outcome HeapUsage
get_usage h = add_usage h h.elts (record { used = 0; free = 0 })
