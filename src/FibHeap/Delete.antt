-- ===== src/FibHeap/Delete.antt =====
-- Del and Update of fibheap.go.
use elib.Base.{
  ℕ, zero, suc, ◌+◌, ◌-◌, ◌%◌, ◌^◌, true, not, ◌&&◌, ◌||◌, Outcome, ok, panic, out_of_fuel, ◌>>=◌,
  load, length, ◌==◌, ◌!=◌, if◌then◌else◌,
}
use elib.Cap.{FloatScale}
use elib.FibHeap.{FibHeap, max_index, put_node, put_sup, unlink, add_root, add}

-- From the child `ci` on; `bi` is the first child.
unfoldable pub cut_loop : ℕ → ℕ → ℕ → FibHeap → Outcome FibHeap
cut_loop zero ci bi f = panic out_of_fuel
cut_loop (suc fuel) ci bi f = do
  c ← load f.nodes.items ci
  let ni = c.next
  f1 ← put_sup f ci max_index
  f2 ← add_root ci f1
  let rest = cut_loop fuel ni bi f2
  if ni == bi then ok f2 else rest

-- A ring of children has at most as many nodes as the heap.
unfoldable pub cut_children : ℕ → FibHeap → Outcome FibHeap
cut_children xi f = do
  x ← load f.nodes.items xi
  let cut = cut_loop (length f.nodes.items) x.sub x.sub f
  if x.sub == max_index then ok f else cut

-- Adjust parent for deletion of child: the parent `supi` has `ni` as its first child.
unfoldable pub adjust_loop : ℕ → ℕ → ℕ → FibHeap → Outcome FibHeap
adjust_loop zero supi ni f = panic out_of_fuel
adjust_loop (suc fuel) supi ni f = do
  sup ← load f.nodes.items supi
  let n = (sup.n_sub + 2 ^ 16 - 1) % 2 ^ 16
  let sup' = record sup { n_sub = n; is_marked = true; sub = if n == 0 then max_index else ni }
  let f1 = put_node f supi sup'
  let on : Outcome FibHeap = do
    f2 ← unlink supi f1
    f3 ← put_sup f2 supi max_index
    f4 ← add_root supi f3
    adjust_loop fuel sup.sup sup.next f4
  if not sup.is_marked || sup.sup == max_index then ok f1 else on

-- Del deletes given index from heap. The chain of parents is at most as long as there are nodes.
unfoldable pub del : ℕ → FibHeap → Outcome FibHeap
del i f = do
  let xi = i % 2 ^ 32
  f1 ← unlink xi f
  f2 ← cut_children xi f1
  x ← load f2.nodes.items xi
  let f3 = record f2 { min_valid = f2.min_valid && xi != f2.min_index }
  let adjusted = adjust_loop (length f.nodes.items) x.sup x.next f3
  if x.sup == max_index then ok f3 else adjusted

-- Update node when data ordering changes (lower key)
unfoldable pub update : FloatScale → ℕ → FibHeap → Outcome FibHeap
update scale xi f = del xi f >>= λ f1. add scale xi f1
