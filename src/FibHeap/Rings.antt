-- ===== src/FibHeap/Rings.antt =====
-- The rings of siblings of fibheap.go: unlink undoes linkAfter.
use elib.Base.{
  ℕ, ◌<◌, ◌≡◌, ◌≢◌, refl, sym, ◌∙◌, ap, ap₂, arith, Bool, true, false, ok, load, length, get_or,
  ◌==◌, if◌then◌else◌, Bool-cases, inl, inr, ==_iff, ==_refl, ne→==, ◌⊎◌, get_elem?-get_or,
  get_or-set, length-set,
}
use elib.FibHeap.{
  FibNode, FibHeap, zero_node, fib_root_index, node, put_node, put_next, put_prev, link_after,
  unlink,
}

-- An index of a node, or of the root.
unfoldable pub IsNode : FibHeap → ℕ → Type 0
IsNode f i = (i ≡ fib_root_index) ⊎ (i < length f.nodes.items)

abbrev pub read : FibHeap → ℕ → FibNode
read f i = if i == fib_root_index then f.root else get_or f.nodes.items i zero_node

node-read : (f : FibHeap) (i : ℕ) → IsNode f i → node f i ≡ ok (read f i)
unfolding node IsNode
node-read f i (inl e) = let t : (i == fib_root_index) ≡ true = (==_iff _ _).1 e in rw t refl
node-read f i (inr h) = elim (Bool-cases (i == fib_root_index)) [
  | inl t ↦ rw t refl
  | inr t ↦ rw (t, get_elem?-get_or f.nodes.items i zero_node h) refl
]

put-IsNode : (f : FibHeap) (i j : ℕ) (x : FibNode) → IsNode f j → IsNode (put_node f i x) j
unfolding IsNode
put-IsNode f i j x (inl e) = inl e
put-IsNode f i j x (inr h) = inr (elim (Bool-cases (i == fib_root_index)) [
  | inl t ↦ rw t h
  | inr t ↦ rw (t, length-set f.nodes.items i x) h
])

read-put :
    (f : FibHeap) (i j : ℕ) (x : FibNode)
    → IsNode f i
    → read (put_node f i x) j ≡ (if i == j then x else read f j)
unfolding IsNode
read-put f i j x h = elim (Bool-cases (i == fib_root_index)) [
  | inl t ↦
      let e : i ≡ fib_root_index = (==_iff _ _).0 t in
      elim (Bool-cases (j == fib_root_index)) [
        | inl u ↦
            let s : (i == j) ≡ true = (==_iff i j).1 (e ∙ sym ((==_iff _ _).0 u)) in
            rw (t, u, s) refl
        | inr u ↦ let s : (i == j) ≡ false = ne→== i j (λ q. ground arith) in rw (t, u, s) refl
      ]
  | inr t ↦
      let inside : i < length f.nodes.items = elim h [
        | inl e ↦ absurd (ground arith)
        | inr k ↦ k
      ] in
      elim (Bool-cases (j == fib_root_index)) [
        | inl u ↦ let s : (i == j) ≡ false = ne→== i j (λ q. ground arith) in rw (t, u, s) refl
        | inr u ↦ rw (t, u) (get_or-set f.nodes.items i j x zero_node inside)
      ]
]

put_next-ok :
    (f : FibHeap) (i v : ℕ)
    → IsNode f i
    → put_next f i v ≡ ok (put_node f i (record (read f i) { next = v }))
put_next-ok f i v h = rw (node-read f i h) refl

put_prev-ok :
    (f : FibHeap) (i v : ℕ)
    → IsNode f i
    → put_prev f i v ≡ ok (put_node f i (record (read f i) { prev = v }))
put_prev-ok f i v h = rw (node-read f i h) refl

hit : (f : FibHeap) (i : ℕ) (x : FibNode) → IsNode f i → read (put_node f i x) i ≡ x
hit f i x h = read-put f i i x h ∙ ap (λ (t : Bool). if t then x else read f i) (==_refl i)

miss :
    (f : FibHeap) (i j : ℕ) (x : FibNode) → IsNode f i → i ≢ j → read (put_node f i x) j ≡ read f j
miss f i j x h d = read-put f i j x h ∙ ap (λ (t : Bool). if t then x else read f j) (ne→== i j d)

load-read :
    (f : FibHeap) (i : ℕ) → i < fib_root_index → IsNode f i → load f.nodes.items i ≡ ok (read f i)
unfolding IsNode
load-read f i low (inl e) = absurd (omega arith)
load-read f i low (inr h) =
    rw (ne→== i fib_root_index (λ e. omega arith), get_elem?-get_or f.nodes.items i zero_node h)
      refl

-- A write of the two links between neighbours `pi` and `ni`, which may be the same node.
abbrev joined : FibHeap → ℕ → ℕ → ℕ → ℕ → FibHeap
joined f pi ni a b =
    let f1 = put_node f pi (record (read f pi) { next = a }) in
    put_node f1 ni (record (read f1 ni) { prev = b })

unlink-joined :
    (f : FibHeap) (xi : ℕ) (x : FibNode)
    → load f.nodes.items xi ≡ ok x
    → IsNode f x.prev
    → IsNode f x.next
    → unlink xi f ≡ ok (joined f x.prev x.next x.next x.prev)
unfolding unlink
unlink-joined f xi x loaded hp hn =
    let f1 = put_node f x.prev (record (read f x.prev) { next = x.next }) in
    rw (loaded, node-read f x.prev hp, node-read f x.next hn)
      (put_prev-ok f1 x.next x.prev (put-IsNode f x.prev x.next _ hn))

-- What the write leaves: the next link of `pi`, the previous one of `ni`, and all else as it was.
abbrev relinked : FibHeap → ℕ → ℕ → ℕ → ℕ → ℕ → FibNode
relinked f pi ni a b j = record (read f j) {
  next = if pi == j then a else (read f j).next;
  prev = if ni == j then b else (read f j).prev;
}

read-joined :
    (f : FibHeap) (pi ni a b j : ℕ)
    → IsNode f pi
    → IsNode f ni
    → read (joined f pi ni a b) j ≡ relinked f pi ni a b j
read-joined f pi ni a b j hp hn =
    let x = record (read f pi) { next = a } in
    let f1 = put_node f pi x in
    let next_read = λ (t : Bool) (u : (pi == j) ≡ t).
      read-put f pi j x hp ∙ ap (λ (t : Bool). if t then x else read f j) u in
    let moved = λ (e : ni ≡ j). ap (λ (k : ℕ). record (read f1 k) { prev = b }) e in
    let back = λ (e : pi ≡ j). ap (λ (k : ℕ). record (read f k) { next = a }) e in
    let with_prev = λ (l m : FibNode) (e : l ≡ m). ap (λ (n : FibNode). record n { prev = b }) e in
    read-put f1 ni j (record (read f1 ni) { prev = b }) (put-IsNode f pi ni x hn)
    ∙ elim (Bool-cases (ni == j)) [
      | inl t ↦ elim (Bool-cases (pi == j)) [
        | inl u ↦
            rw (t, u)
              (moved ((==_iff ni j).0 t)
                ∙ with_prev _ _ (next_read true u ∙ back ((==_iff pi j).0 u)))
        | inr u ↦ rw (t, u) (moved ((==_iff ni j).0 t) ∙ with_prev _ _ (next_read false u))
      ]
      | inr t ↦ elim (Bool-cases (pi == j)) [
        | inl u ↦ rw (t, u) (next_read true u ∙ back ((==_iff pi j).0 u))
        | inr u ↦ rw (t, u) (next_read false u)
      ]
    ]

joined-IsNode : (f : FibHeap) (pi ni a b j : ℕ) → IsNode f j → IsNode (joined f pi ni a b) j
joined-IsNode f pi ni a b j h = put-IsNode _ ni j _ (put-IsNode f pi j _ h)

-- The second write reads the same if another node, `xi`, was written in between.
read-between :
    (f g : FibHeap) (ni xi b j : ℕ)
    → IsNode f ni
    → IsNode g ni
    → ((k : ℕ) → xi ≢ k → read g k ≡ read f k)
    → xi ≢ ni
    → xi ≢ j
    → read (put_node g ni (record (read g ni) { prev = b })) j
      ≡ read (put_node f ni (record (read f ni) { prev = b })) j
read-between f g ni xi b j hf hg same d e =
    read-put g ni j _ hg
    ∙ elim (Bool-cases (ni == j)) [
      | inl t ↦ rw t (ap (λ (n : FibNode). record n { prev = b }) (same ni d))
      | inr t ↦ rw t (same j e)
    ]
    ∙ sym (read-put f ni j _ hf)

module _ (f : FibHeap) (pi xi : ℕ) (hp : IsNode f pi) (hx : xi < length f.nodes.items)
    (low : xi < fib_root_index) (d : xi ≢ pi) (hn : IsNode f (read f pi).next)
    (dn : xi ≢ (read f pi).next) (ring : (read f (read f pi).next).prev ≡ pi) where
  abbrev ni : ℕ
  ni = (read f pi).next

  abbrev first : FibHeap
  first = put_node f pi (record (read f pi) { next = xi })

  abbrev second : FibHeap
  second = put_node first xi (record (read first xi) { prev = pi; next = ni })

  abbrev linked : FibHeap
  linked = put_node second ni (record (read second ni) { prev = xi })

  is_node : IsNode f xi
  unfolding IsNode
  is_node = inr hx

  first-IsNode : (j : ℕ) → IsNode f j → IsNode first j
  first-IsNode j h = put-IsNode f pi j _ h

  second-IsNode : (j : ℕ) → IsNode f j → IsNode second j
  second-IsNode j h = put-IsNode first xi j _ (first-IsNode j h)

  linked-IsNode : (j : ℕ) → IsNode f j → IsNode linked j
  linked-IsNode j h = put-IsNode second ni j _ (second-IsNode j h)

  link_after-linked : link_after pi xi f ≡ ok linked
  unfolding link_after
  link_after-linked =
      rw
        (
          node-read f pi hp,
          node-read f ni hn,
          node-read f xi is_node,
          node-read first xi (first-IsNode xi is_node),
        )
        (put_prev-ok second ni xi (second-IsNode ni hn))

  read-linked : (j : ℕ) → xi ≢ j → read linked j ≡ relinked f pi ni xi xi j
  read-linked j e =
      read-between first second ni xi xi j (first-IsNode ni hn) (second-IsNode ni hn)
        (λ k q. miss first xi k _ (first-IsNode xi is_node) q) dn e
      ∙ read-joined f pi ni xi xi j hp hn

  read-linked_self : read linked xi ≡ record (read first xi) { prev = pi; next = ni }
  read-linked_self =
      miss second ni xi _ (second-IsNode ni hn) (λ q. dn (sym q))
      ∙ hit first xi _ (first-IsNode xi is_node)

  abbrev restored : FibHeap
  restored = joined linked pi ni ni pi

  unlink-restored : unlink xi linked ≡ ok restored
  unlink-restored =
      unlink-joined linked xi (record (read first xi) { prev = pi; next = ni })
        (load-read linked xi low (linked-IsNode xi is_node) ∙ ap ok read-linked_self)
        (linked-IsNode pi hp) (linked-IsNode ni hn)

  read-restored : (j : ℕ) → xi ≢ j → read restored j ≡ read f j
  read-restored j e =
      read-joined linked pi ni ni pi j (linked-IsNode pi hp) (linked-IsNode ni hn)
      ∙ rw (read-linked j e)
          (ap₂ (λ (a b : ℕ). record (read f j) { next = a; prev = b }) next_back prev_back)
    where
      next_back :
          (if pi == j then ni else (if pi == j then xi else (read f j).next)) ≡ (read f j).next
      next_back = elim (Bool-cases (pi == j)) [
        | inl u ↦ rw u (ap (λ (k : ℕ). (read f k).next) ((==_iff pi j).0 u))
        | inr u ↦ rw u refl
      ]

      prev_back :
          (if ni == j then pi else (if ni == j then xi else (read f j).prev)) ≡ (read f j).prev
      prev_back = elim (Bool-cases (ni == j)) [
        | inl u ↦ rw u (sym ring ∙ ap (λ (k : ℕ). (read f k).prev) ((==_iff ni j).0 u))
        | inr u ↦ rw u refl
      ]

  -- Link a node into a ring after another node or the root, where the two neighbours are nodes that
  -- are linked to each other and not the node itself. Both calls succeed, and unlinking the node
  -- again leaves every other node, and the root, as it was.
  pub link_after-unlink :
      (f1 f2 : FibHeap) × (link_after pi xi f ≡ ok f1)
      × (unlink xi f1 ≡ ok f2)
      × ((j : ℕ) → xi ≢ j → read f2 j ≡ read f j)
  link_after-unlink = (linked, restored, link_after-linked, unlink-restored, read-restored)
