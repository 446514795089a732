-- ===== src/Tests/Blocks.antt =====
-- Blocks of a heap that starts empty.
use elib.Base.{arith, get_or, set, ◌++◌, ℕ, ◌≡◌, refl, ok, panic, corrupt_free_list, ◌>>=◌, [], ◌∷◌}
use elib.Tests.Scale.{decimal_scale}
use elib.Cap.{next_resize_cap, round}
use elib.Vec.{validate_index, reslice, last_ref}
use elib.Heap.{Heap, poison, new_elt, elt_size, size, free_elt, remove_free_elt}
use elib.Heap.Get.{
  get, get_block, get_exact, get_large, get_large_loop, get_end, take_large, free_after,
}
use elib.Heap.Put.{put, join_prev, join_next}
use elib.Heap.FreeList.{free_elt-remove_free_elt}
use elib.Heap.Usage.{get_usage, add_usage}

abbrev no_blocks : Heap
no_blocks = record {
  elts = [];
  free = record { items = []; spare = [] };
  removed = [];
  head = 0;
  tail = 0;
  len = 0;
  max_size = 0;
  max_len = 0;
}

-- A free block of two, made of two blocks of one before a block of three was asked for, is looked
-- up in the list of size two, where it is not.
corrupt_run :
    (do
      (a, _, h) ← get_block decimal_scale 1 no_blocks
      (b, _, h) ← get_block decimal_scale 1 h
      (c, _, h) ← get_block decimal_scale 1 h
      h ← put decimal_scale a h
      h ← put decimal_scale b h
      (d, _, h) ← get_block decimal_scale 3 h
      h ← put decimal_scale d h
      put decimal_scale c h)
    ≡ panic corrupt_free_list
unfolding get get_block get_exact get_large get_large_loop get_end take_large free_after put
    join_prev join_next new_elt elt_size size free_elt remove_free_elt validate_index reslice
    last_ref next_resize_cap round
corrupt_run = refl

-- Two blocks of one, both freed, are one free block of two; the element that was removed counts as
-- used.
usage_run :
    (do
      (a, _, h) ← get_block decimal_scale 1 no_blocks
      (b, _, h) ← get_block decimal_scale 1 h
      h ← put decimal_scale a h
      h ← put decimal_scale b h
      get_usage h)
    ≡ ok (record { used = 3; free = 2 })
unfolding get get_block get_exact get_large get_large_loop get_end take_large free_after put
    join_prev join_next new_elt elt_size size free_elt remove_free_elt validate_index reslice
    last_ref next_resize_cap round get_usage add_usage
usage_run = refl

-- A heap with one block in use.
abbrev one_block : Heap
one_block = record no_blocks {
  elts = (record poison { offset = 0 }) ∷ [];
  tail = 0;
  len = 1;
  max_size = 1;
}

free_elt-remove_free_elt_example :
    (h1 h2 : Heap) × (free_elt decimal_scale 0 1 one_block ≡ ok h1)
    × (remove_free_elt 0 1 h1 ≡ ok h2)
    × ((s : ℕ) → get_or h2.free.items s [] ≡ get_or one_block.free.items s [])
    × (h2.elts ≡ set one_block.elts 0 poison)
    × (h2.removed ≡ one_block.removed ++ 0 ∷ [])
free_elt-remove_free_elt_example =
    free_elt-remove_free_elt decimal_scale 0 1 one_block (omega arith) (omega arith) (omega arith)
      (omega arith) (λ i. refl) (omega arith)
