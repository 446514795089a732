-- ===== src/Buf/Free/Whole.antt =====
-- hw/buf.go: what FreeRefs does to the pool and to memory.
use mathlib.Core.List.{append-nil, append_assoc, map-append}
use elib.Base.{
  ℕ, ◌≡◌, refl, sym, ap, ap₂, ◌∙◌, true, false, List, [], ◌∷◌, ◌++◌, map, ok, length, arith,
  if_false, ne→==,
}
use elib.Buf.{RefHeader, Dma, offset}
use elib.Buf.Pools.{BufferPool, BufferTemplate}
use elib.Buf.States.{States, validate_set_state, validate_set_state_refs, BufferState, known_free}
use elib.Buf.Free.{free_refs, Buffers}
use elib.Buf.Free.Reset.{reset, reset_all, made, free_refs_no_next-reset}
use elib.Buf.Free.Chains.{heads, tails, AreChains, free_refs_next-freed, freed}

reset_all-append :
    (t : BufferTemplate) (rs ss : List RefHeader) (b : Buffers)
    → reset_all t ss (reset_all t rs b) ≡ reset_all t (rs ++ ss) b
reset_all-append t [] ss b = refl
reset_all-append t (r ∷ rs) ss b = reset_all-append t rs ss (reset t (offset r) b)

pub untracked :
    (rs : List RefHeader) (set : BufferState) (states : States)
    → validate_set_state_refs false rs set states ≡ ok states
unfolding validate_set_state_refs validate_set_state
untracked [] set states = refl
untracked (r ∷ rs) set states = untracked rs set states

-- With states untracked, FreeRefs that does not follow next references: the pool gets for each
-- reference the template with its offset, after those it has, and each buffer becomes the template but for
-- what is saved in it. No other buffer and no byte changes.
pub free_refs-reset :
    (fuel : ℕ) (rs : List RefHeader) (dma : Dma) (states : States) (p : BufferPool)
    → free_refs false fuel false rs (dma, states, p)
      ≡ ok (
        record dma { buffers = reset_all p.template rs dma.buffers },
        states,
        record p { refs = p.refs ++ map (made p.template) rs },
      )
unfolding free_refs validate_set_state_refs freed
free_refs-reset fuel [] dma states p =
    ap (λ l. ok (dma, states, record p { refs = l })) (sym (append-nil p.refs))
free_refs-reset fuel (r ∷ rs) dma states p =
    rw
      (
        untracked (r ∷ rs) known_free states,
        free_refs_no_next-reset p.template (r ∷ rs) dma.buffers,
      )
      (if_false _ _ (ne→== (length (r ∷ rs)) 0 (λ e. omega (arith, e))))

-- With states untracked, FreeRefs that follows next references, of chains whose first references are to
-- different buffers and to none of those that follow, with fuel for the longest of them: all references
-- of all chains come back to the pool, the first ones before those that follow, each as the template
-- with its offset, and all their buffers become the template but for what is saved in them.
pub free_refs-chains :
    (fuel : ℕ) (cs : List (RefHeader × List RefHeader)) (dma : Dma) (states : States)
    (p : BufferPool)
    → AreChains dma fuel (tails dma cs) cs
    → free_refs false fuel true (heads dma cs) (dma, states, p)
      ≡ ok (
        record dma { buffers = reset_all p.template (heads dma cs ++ tails dma cs) dma.buffers },
        states,
        record p { refs = p.refs ++ map (made p.template) (heads dma cs ++ tails dma cs) },
      )
unfolding free_refs validate_set_state_refs freed
free_refs-chains fuel [] dma states p a =
    ap (λ l. ok (dma, states, record p { refs = l })) (sym (append-nil p.refs))
free_refs-chains fuel ((r, rest) ∷ cs) dma states p a =
    let all = (r, rest) ∷ cs in
    let hs = heads dma all in
    let ts = tails dma all in
    let t = p.template in
    let e =
      free_refs_next-freed dma fuel ts t all dma.buffers [] states a (λ x m. refl) (λ x m. refl) in
    let f = free_refs_no_next-reset t ts (reset_all t hs dma.buffers) in
    let full = ne→== (length hs) 0 (λ g. omega (arith, g)) in
    rw (untracked hs known_free states, e, f, full)
      (ap₂ (λ b l. ok (record dma { buffers = b }, states, record p { refs = l }))
        (reset_all-append t hs ts dma.buffers)
        (append_assoc p.refs (map (made t) hs) (map (made t) ts)
          ∙ ap (λ l. p.refs ++ l) (sym (map-append (made t) hs ts))))
