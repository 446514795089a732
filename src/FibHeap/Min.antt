-- ===== src/FibHeap/Min.antt =====
-- Min of fibheap.go: the roots are joined until their degrees differ, and the least is found.
use elib.Base.{
  ℕ, zero, suc, ◌+◌, ◌*◌, ◌%◌, ◌^◌, Bool, true, false, ◌||◌, List, Outcome, ok, panic, out_of_fuel,
  ◌>>=◌, load, length, set, replicate, bit_and, bit_xor, ◌==◌, ◌!=◌, if◌then◌else◌,
}
use elib.Word.{shl}
use elib.Bits.{next_set}
use elib.FibHeap.{FibHeap, max_index, fib_root_index, node, put_node, unlink, link_after}

-- The sign of Compare.
pub data Order : Type 0 where
  less equal greater : Order

abbrev pub is_le : Order → Bool
is_le less = true
is_le equal = true
is_le greater = false

abbrev pub is_less : Order → Bool
is_less less = true
is_less equal = false
is_less greater = false

-- Root `ri0` becomes a child of root `ri`.
unfoldable pub join : ℕ → ℕ → FibHeap → Outcome FibHeap
join ri0 ri f = do
  f1 ← unlink ri0 f
  r0 ← load f1.nodes.items ri0
  let f2 = put_node f1 ri0 (record r0 { is_marked = false; sup = ri })
  r ← load f2.nodes.items ri
  let more = put_node f2 ri (record r { n_sub = (r.n_sub + 1) % 2 ^ 16 })
  let first : Outcome FibHeap = do
    let f3 = put_node f2 ri (record r { sub = ri0; n_sub = 1; is_marked = false })
    r0' ← load f3.nodes.items ri0
    ok (put_node f3 ri0 (record r0' { next = ri0; prev = ri0 }))
  if r.sub != max_index then link_after r.sub ri0 more else first

module _ (compare : ℕ → ℕ → Order) where
  -- The roots from `ri` on, `ni` the next one; `deg` holds the root of each degree in `deg_valid`.
  unfoldable pub join_loop : ℕ → ℕ → ℕ → List ℕ → ℕ → FibHeap → Outcome (List ℕ × ℕ × FibHeap)
  join_loop zero ri ni deg deg_valid f = panic out_of_fuel
  join_loop (suc fuel) ri ni deg deg_valid f =
      let step : Outcome (List ℕ × ℕ × FibHeap) = do
        r ← load f.nodes.items ri
        n ← node f ni
        let m = shl 1 r.n_sub
        let deg_valid' = bit_xor deg_valid m
        let fresh : Outcome (List ℕ × ℕ × FibHeap) = do
          _ ← load deg r.n_sub
          join_loop fuel ni n.next (set deg r.n_sub ri) deg_valid' f
        let joined : Outcome (List ℕ × ℕ × FibHeap) = do
          ri0 ← load deg r.n_sub
          let stays = is_le (compare ri0 ri)
          let top : ℕ = if stays then ri0 else ri
          let below : ℕ = if stays then ri else ri0
          f1 ← join below top f
          join_loop fuel top ni deg deg_valid' f1
        if bit_and deg_valid m != 0 then joined else fresh
      in if ri == fib_root_index then ok (deg, deg_valid, f) else step

  -- The least of the roots in `deg` at the degrees of `deg_valid`, and `min`.
  unfoldable pub min_loop : ℕ → List ℕ → ℕ → ℕ → Outcome ℕ
  min_loop zero deg deg_valid min = panic out_of_fuel
  min_loop (suc fuel) deg deg_valid min =
      let step : Outcome ℕ = do
        let (rest, ns) = next_set deg_valid
        ri ← load deg ns
        min_loop fuel deg rest (if min == max_index || is_less (compare ri min) then ri else min)
      in if deg_valid != 0 then step else ok min

  -- Each round passes a root or makes one a child: two rounds for each node and one to stop are
  -- given. The bits of a word are at most 64.
  unfoldable pub min : FibHeap → Outcome (ℕ × Bool × FibHeap)
  min f =
      let searched : Outcome (ℕ × Bool × FibHeap) = do
        r ← node f f.root.next
        (deg, deg_valid, f1) ←
            join_loop (2 * length f.nodes.items + 1) f.root.next r.next (replicate 32 0) 0 f
        least ← min_loop 65 deg deg_valid max_index
        let valid = least != max_index
        ok (least, valid, record f1 { min_valid = valid; min_index = least })
      in if f.min_valid || length f.nodes.items == 0
        then ok (f.min_index, f.min_valid, f)
        else searched
