-- ===== src/FibHeap.antt =====
-- fibheap.go: a Fibonacci heap of indices, whose keys are compared by the caller.
-- A pointer to a node is its index, read again after each write to a node that may be the same one.
-- The loops that follow links take fuel; `out_of_fuel` is the result of a loop that would go on.
pub mod Delete
pub mod Min
pub mod Rings
use elib.Base.{
  ℕ, zero, suc, ◌+◌, ◌-◌, ◌%◌, ◌^◌, Bool, false, true, List, [], ◌∷◌, ◌++◌, Outcome, ok, ◌>>=◌,
  load, length, set, take, drop, map, panic, out_of_fuel, ◌==◌, ◌!=◌, if◌then◌else◌,
}
use elib.Cap.{FloatScale}
use elib.Vec.{Vec, validate_index, resize}

abbrev pub max_index : ℕ
max_index = 2 ^ 32 - 1

abbrev pub fib_root_index : ℕ
fib_root_index = 2 ^ 32 - 2

pub record FibNode : Type 0 where
  -- Index of parent or MaxIndex if no parent.
  pub sup : ℕ
  -- Links to doubly linked list of siblings
  pub next : ℕ
  pub prev : ℕ
  -- Index of first child node or MaxIndex if no children.
  pub sub : ℕ
  -- Number of children, in 16 bits.
  pub n_sub : ℕ
  -- Set when at least one child has been cut since this node was made child of another node.
  pub is_marked : Bool

-- Go's zero of the type.
abbrev pub zero_node : FibNode
zero_node = record { sup = 0; next = 0; prev = 0; sub = 0; n_sub = 0; is_marked = false }

pub record FibHeap : Type 0 where
  pub root : FibNode
  pub nodes : Vec FibNode
  -- Cached min index in heap.
  pub min_index : ℕ
  pub min_valid : Bool

unfoldable pub node : FibHeap → ℕ → Outcome FibNode
node f ni = if ni == fib_root_index then ok f.root else load f.nodes.items ni

-- A write to a node that was read before.
abbrev pub put_node : FibHeap → ℕ → FibNode → FibHeap
put_node f ni x =
    if ni == fib_root_index
    then record f { root = x }
    else record f { nodes = record (f.nodes) { items = set f.nodes.items ni x } }

-- Writes of one field.
abbrev pub put_next : FibHeap → ℕ → ℕ → Outcome FibHeap
put_next f i v = node f i >>= λ x. ok (put_node f i (record x { next = v }))

abbrev pub put_prev : FibHeap → ℕ → ℕ → Outcome FibHeap
put_prev f i v = node f i >>= λ x. ok (put_node f i (record x { prev = v }))

abbrev pub put_sup : FibHeap → ℕ → ℕ → Outcome FibHeap
put_sup f i v = load f.nodes.items i >>= λ x. ok (put_node f i (record x { sup = v }))

unfoldable pub link_after : ℕ → ℕ → FibHeap → Outcome FibHeap
link_after pi xi f = do
  p ← node f pi
  let ni = p.next
  _ ← node f ni
  _ ← node f xi
  f1 ← put_next f pi xi
  x ← node f1 xi
  put_prev (put_node f1 xi (record x { prev = pi; next = ni })) ni xi

unfoldable pub add_root : ℕ → FibHeap → Outcome FibHeap
add_root xi f = link_after fib_root_index xi f

unfoldable pub unlink : ℕ → FibHeap → Outcome FibHeap
unlink xi f = do
  x ← load f.nodes.items xi
  _ ← node f x.prev
  _ ← node f x.next
  f1 ← put_next f x.prev x.next
  put_prev f1 x.next x.prev

-- Add a new index to heap.
unfoldable pub add : FloatScale → ℕ → FibHeap → Outcome FibHeap
add scale xi f = do
  let ring : FibNode = record (f.root) {
    next = fib_root_index;
    prev = fib_root_index;
    sup = max_index;
    sub = max_index;
  }
  let f1 : FibHeap = if length f.nodes.items == 0 then record f { root = ring } else f
  (_, nodes) ← validate_index scale zero_node f1.nodes xi
  let f2 = record f1 { nodes = nodes; min_valid = false }
  x ← load nodes.items xi
  let x' = record x { sup = max_index; sub = max_index; n_sub = 0; is_marked = false }
  add_root (xi % 2 ^ 32) (record f2 { nodes = record nodes { items = set nodes.items xi x' } })

-- `reloc(l)`, on 32 bits.
unfoldable pub reloc : ℕ → FibNode → FibNode
reloc d n =
    let moved = λ (none i : ℕ). if i != none then (i + d) % 2 ^ 32 else i in
    record n {
      sup = moved max_index n.sup;
      sub = moved max_index n.sub;
      next = moved fib_root_index n.next;
      prev = moved fib_root_index n.prev;
    }

-- `for ri != fibRootIndex { Add(ri); ri = next }`: the link is read after Add.
unfoldable pub merge_loop : FloatScale → ℕ → ℕ → FibHeap → Outcome FibHeap
merge_loop scale zero ri f = panic out_of_fuel
merge_loop scale (suc fuel) ri f =
    let step : Outcome FibHeap = do
      _ ← load f.nodes.items ri
      f1 ← add scale ri f
      r ← load f1.nodes.items ri
      merge_loop scale fuel r.next f1
    in if ri == fib_root_index then ok f else step

-- `fuel` bounds the steps of the loop.
unfoldable pub merge : FloatScale → ℕ → FibHeap → FibHeap → Outcome FibHeap
merge scale fuel g f = do
  let l = length f.nodes.items
  v ← resize scale zero_node f.nodes (length g.nodes.items)
  let front = take l v.items
  let moved = take (length v.items - l) (map (reloc (l % 2 ^ 32)) g.nodes.items)
  let rest = drop (l + length moved) v.items
  let f1 = record f { nodes = record v { items = front ++ moved ++ rest } }
  merge_loop scale fuel (reloc (l % 2 ^ 32) g.root).next f1
