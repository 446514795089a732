-- ===== src/Tests/Roots.antt =====
-- Fibonacci heaps of one node.
use elib.Base.{ℕ, ◌∷◌, ok, ◌≢◌, inl, inr, arith, ◌≡◌, refl, false, [], panic, out_of_fuel, ◌>>=◌}
use elib.Tests.Scale.{decimal_scale}
use elib.Cap.{next_resize_cap, round}
use elib.Vec.{validate_index, reslice, last_ref, resize}
use elib.FibHeap.Rings.{IsNode, read, link_after-unlink}
use elib.FibHeap.{
  FibHeap, zero_node, node, add, fib_root_index, add_root, unlink, link_after, merge, merge_loop,
  reloc,
}

abbrev no_nodes : FibHeap
no_nodes = record {
  root = zero_node;
  nodes = record { items = []; spare = [] };
  min_index = 0;
  min_valid = false;
}

-- Each heap has node 0. The walk goes round the ring for any number of steps; here are twenty.
merge_run :
    (do
      f ← add decimal_scale 0 no_nodes
      g ← add decimal_scale 0 no_nodes
      merge decimal_scale 20 g f)
    ≡ panic out_of_fuel
unfolding node add add_root link_after merge merge_loop reloc validate_index reslice last_ref resize
    next_resize_cap round
merge_run = refl

-- The ring of the root and node 0; node 1 is in no ring yet.
abbrev one_root : FibHeap
one_root = record no_nodes {
  root = record zero_node { next = 0; prev = 0 };
  nodes = record {
    items = (record zero_node { next = fib_root_index; prev = fib_root_index }) ∷ zero_node ∷ [];
    spare = [];
  };
}

link_after-unlink_example :
    (f1 f2 : FibHeap) × (link_after fib_root_index 1 one_root ≡ ok f1)
    × (unlink 1 f1 ≡ ok f2)
    × ((j : ℕ) → 1 ≢ j → read f2 j ≡ read one_root j)
unfolding IsNode
link_after-unlink_example =
    link_after-unlink one_root fib_root_index 1 (inl refl) (omega arith) (omega arith) (omega arith)
      (inr (omega arith)) (omega arith) refl
