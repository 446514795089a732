-- ===== src/Buf/Alloc/Again.antt =====
-- hw/buf.go: references that are freed are the next ones to be allocated.
use mathlib.Core.List.{append-nil}
use elib.Base.{
  ℕ, zero, suc, ◌+◌, ◌-◌, ◌≤◌, ◌≡◌, refl, ap, ap₂, ◌∙◌, true, false, List, [], ◌∷◌, ◌++◌, map,
  Outcome, ok, ◌>>=◌, length, length-append, take, drop, take_all, take-append, ltb, le→ltb, arith,
}
use elib.Buf.{RefHeader, Ref, Dma}
use elib.Buf.Pools.{BufferPool, is_initialized, free_len}
use elib.Buf.States.{States, known_allocated}
use elib.Buf.Free.{free_refs}
use elib.Buf.Free.Reset.{reset_all, made}
use elib.Buf.Free.Whole.{free_refs-reset, untracked}
use elib.Buf.Alloc.{copy_refs, every, grow_loop, alloc_refs_stride}

module _ {ℓ} {A : Type ℓ} where
  drop-append : (xs ys : List A) → drop (length xs) (xs ++ ys) ≡ ys
  drop-append [] ys = refl
  drop-append (x ∷ xs) ys = drop-append xs ys

  drop_all : (n : ℕ) (xs : List A) → length xs ≤ n → drop n xs ≡ []
  drop_all zero [] h = refl
  drop_all zero (x ∷ xs) h = absurd (omega arith)
  drop_all (suc n) [] h = refl
  drop_all (suc n) (x ∷ xs) h = drop_all n xs (omega arith)

  length-map {κ} : {B : Type κ} (f : A → B) (xs : List A) → length (map f xs) ≡ length xs
  length-map f [] = refl
  length-map f (x ∷ xs) = ap suc (length-map f xs)

copy_refs-all : (dst src : List Ref) → length dst ≡ length src → copy_refs dst src 1 ≡ ok src
unfolding copy_refs
copy_refs-all dst src e = ap ok (
    ap₂ (λ x y. x ++ y) (take_all (length dst) src (omega (arith, e)))
      (drop_all (length src) dst (omega (arith, e)))
    ∙ append-nil src)

module _ {D : Type 0} (dma_alloc : ℕ → D → Outcome ((ℕ × ℕ) × D)) (floor_sqrt : ℕ → ℕ) where
  grow_enough :
      (fuel want : ℕ) (dma : Dma) (p : BufferPool) (d : D)
      → ltb (length p.refs) want ≡ false
      → grow_loop false dma_alloc (suc fuel) want (dma, p, d) ≡ ok (dma, p, d)
  unfolding grow_loop free_len
  grow_enough fuel want dma p d e = rw (e, grow_loop) refl

  -- A pool with enough references.
  alloc_refs-last :
      (fuel want : ℕ) (dst xs ys : List Ref) (dma : Dma) (states : States) (p : BufferPool) (d : D)
      → is_initialized p ≡ true
      → p.refs ≡ xs ++ ys
      → length ys ≡ want
      → length dst ≡ want
      → alloc_refs_stride false dma_alloc floor_sqrt (suc fuel) dst want 1 (dma, states, p, d)
        ≡ ok (ys, (dma, states, record p { refs = xs }, d))
  unfolding alloc_refs_stride free_len
  alloc_refs-last fuel want dst xs ys dma states p d init e n m =
      let l : length p.refs ≡ length xs + want =
        omega (arith, ap length e, length-append xs ys, n) in
      let enough : ltb (length p.refs) want ≡ false =
        le→ltb (length p.refs) want (omega (arith, l)) in
      let left : length p.refs - want ≡ length xs = omega (arith, l) in
      let taken : drop (length p.refs - want) p.refs ≡ ys = ap₂ drop left e ∙ drop-append xs ys in
      let kept : take (length p.refs - want) p.refs ≡ xs = ap₂ take left e ∙ take-append xs ys in
      rw
        (
          init,
          grow_enough fuel want dma p d enough,
          taken,
          copy_refs-all dst ys (omega (arith, n, m)),
          untracked (every want 1 ys) known_allocated states,
          kept,
        )
        refl

  -- References without a next one that are freed, states untracked, to a pool that is initialized, and
  -- then as many that are allocated at once: the caller gets the freed ones back in their order, each as
  -- the template with its offset, and the pool is as it was before.
  pub alloc_refs_stride-free_refs :
      (fuel : ℕ) (rs : List RefHeader) (dst : List Ref) (dma : Dma) (states : States)
      (p : BufferPool) (d : D)
      → is_initialized p ≡ true
      → length dst ≡ length rs
      → (free_refs false fuel false rs (dma, states, p) >>= λ (dma', states', p').
          alloc_refs_stride false dma_alloc floor_sqrt
            (suc fuel)
            dst
            (length rs)
            1
            (dma', states', p', d))
        ≡ ok (
          map (made p.template) rs,
          (record dma { buffers = reset_all p.template rs dma.buffers }, states, p, d),
        )
  unfolding is_initialized
  alloc_refs_stride-free_refs fuel rs dst dma states p d init m =
      let new = map (made p.template) rs in
      rw (free_refs-reset fuel rs dma states p) (
        alloc_refs-last fuel (length rs) dst p.refs new
          (record dma { buffers = reset_all p.template rs dma.buffers }) states
          (record p { refs = p.refs ++ new }) d init refl (length-map (made p.template) rs) m)
