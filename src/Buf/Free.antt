-- ===== src/Buf/Free.antt =====
-- hw/buf.go: references to buffers are given back to their pool.
-- Freed references go to the end of a vector that is made longer for them; all of its new elements are
-- written. Of the references in the list of next ones only the headers are read.
pub mod Reset
pub mod Next
pub mod Chains
pub mod Whole
use elib.Base.{
  ℕ, zero, suc, ◌+◌, ◌%◌, ◌^◌, Bool, true, false, List, [], ◌∷◌, ◌++◌, Outcome, ok, panic,
  out_of_fuel, ◌>>=◌, bit_or, length, ◌==◌, if◌then◌else◌,
}
use elib.Buf.{RefHeader, Ref, Buffer, Dma, offset, next_valid, next_is_valid, ref_flag1, ref_flag4}
use elib.Buf.Pools.{BufferTemplate, BufferPool}
use elib.Buf.States.{BufferState, known_free, States, validate_set_state, validate_set_state_refs}

abbrev pub Buffers : Type 0
Buffers = ℕ → Buffer

abbrev pub put_buffer : ℕ → Buffer → Buffers → Buffers
put_buffer o b buffers p = if o == p then b else buffers p

abbrev pub put_save : ℕ → ℕ → Buffers → Buffers
put_save o save buffers p = if o == p then record (buffers p) { save = save } else buffers p

-- `dst = t` and `dst.copyOffset(src)`
unfoldable pub copy_offset : RefHeader → Ref → Ref
copy_offset src t =
    let h = t.header in
    record t { header = record h { offset_and_flags = bit_or h.offset_and_flags (offset src) } }

module _ (tmp : BufferTemplate) where
  unfoldable pub free1 : RefHeader → Buffers → (Ref × Bool × RefHeader) × Buffers
  free1 r buffers =
      let o = offset r in
      let b0 = buffers o in
      (
        (copy_offset r tmp.ref, ref_flag1 next_valid r, b0.next_ref),
        put_save o b0.save (put_buffer o tmp.buffer buffers),
      )

  unfoldable pub free4 :
      RefHeader
      → RefHeader
      → RefHeader
      → RefHeader
      → Buffers
      → (List Ref × Bool × (RefHeader × RefHeader × RefHeader × RefHeader)) × Buffers
  free4 r0 r1 r2 r3 buffers =
      let o0 = offset r0 in
      let o1 = offset r1 in
      let o2 = offset r2 in
      let o3 = offset r3 in
      let t = tmp.ref in
      let b = tmp.buffer in
      let reset = put_buffer o3 b (put_buffer o2 b (put_buffer o1 b (put_buffer o0 b buffers))) in
      (
        (
          copy_offset r0 t ∷ copy_offset r1 t ∷ copy_offset r2 t ∷ copy_offset r3 t ∷ [],
          ref_flag4 next_valid r0 r1 r2 r3,
          (
            (buffers o0).next_ref,
            (buffers o1).next_ref,
            (buffers o2).next_ref,
            (buffers o3).next_ref,
          ),
        ),
        put_save o3 (buffers o3).save (
            put_save o2 (buffers o2).save
              (put_save o1 (buffers o1).save (put_save o0 (buffers o0).save reset))),
      )

  -- `for n > 0`
  unfoldable pub free_ones : List RefHeader → Buffers → List Ref × Buffers
  free_ones [] buffers = ([], buffers)
  free_ones (r ∷ rs) buffers =
      let ((d, _, _), buffers') = free1 r buffers in
      let (ds, buffers'') = free_ones rs buffers' in (d ∷ ds, buffers'')

  unfoldable pub free_refs_no_next : List RefHeader → Buffers → List Ref × Buffers
  free_refs_no_next (r0 ∷ r1 ∷ r2 ∷ r3 ∷ rs) buffers =
      let ((ds, _, _), buffers') = free4 r0 r1 r2 r3 buffers in
      let (ds', buffers'') = free_refs_no_next rs buffers' in (ds ++ ds', buffers'')
  free_refs_no_next rs buffers = free_ones rs buffers

module _ (track : Bool) where
  -- The loop of freeNext.add.
  unfoldable pub next_loop :
      ℕ → RefHeader → Buffers → List RefHeader × States → Outcome (List RefHeader × States)
  next_loop zero r buffers s = panic out_of_fuel
  next_loop (suc fuel) r buffers (next, states) = do
    states' ← validate_set_state track r known_free states
    let rest = next_loop fuel ((buffers (offset r)).next_ref) buffers (next ++ r ∷ [], states')
    if next_is_valid r then rest else ok (next ++ r ∷ [], states')

  unfoldable pub add_next :
      ℕ
      → RefHeader
      → RefHeader
      → Buffers
      → List RefHeader × States
      → Outcome (List RefHeader × States)
  add_next fuel r next_ref buffers s =
      if next_is_valid r then next_loop fuel next_ref buffers s else ok s

  module _ (fuel : ℕ) (tmp : BufferTemplate) where
    unfoldable pub free_ones_next :
        List RefHeader
        → Buffers
        → List RefHeader × States
        → Outcome (List Ref × Buffers × (List RefHeader × States))
    free_ones_next [] buffers s = ok ([], buffers, s)
    free_ones_next (r ∷ rs) buffers s = do
      let ((d, slow, n), buffers') = free1 tmp r buffers
      s' ← if slow then add_next fuel r n buffers' s else ok s
      (ds, buffers'', s'') ← free_ones_next rs buffers' s'
      ok (d ∷ ds, buffers'', s'')

    unfoldable pub free_refs_next :
        List RefHeader
        → Buffers
        → List RefHeader × States
        → Outcome (List Ref × Buffers × (List RefHeader × States))
    free_refs_next (r0 ∷ r1 ∷ r2 ∷ r3 ∷ rs) buffers s = do
      let ((ds, slow, (n0, n1, n2, n3)), buffers') = free4 tmp r0 r1 r2 r3 buffers
      let add_four : Outcome (List RefHeader × States) =
          add_next fuel r0 n0 buffers' s
          >>= add_next fuel r1 n1 buffers'
          >>= add_next fuel r2 n2 buffers'
          >>= add_next fuel r3 n3 buffers'
      s' ← if slow then add_four else ok s
      (ds', buffers'', s'') ← free_refs_next rs buffers' s'
      ok (ds ++ ds', buffers'', s'')
    free_refs_next rs buffers s = free_ones_next rs buffers s

  -- Return all buffers to pool and reset for next usage. `free_next` specifies whether or not to follow
  -- and free next pointers.
  unfoldable pub free_refs :
      ℕ → Bool → List RefHeader → Dma × States × BufferPool → Outcome (Dma × States × BufferPool)
  free_refs fuel free_next rs (dma, states0, p) = do
    let t = p.template
    states ← validate_set_state_refs track rs known_free states0
    let plain : Outcome (Dma × States × BufferPool) =
        let (ds, buffers) = free_refs_no_next t rs dma.buffers in
        ok (record dma { buffers = buffers }, states, record p { refs = p.refs ++ ds })
    let followed : Outcome (Dma × States × BufferPool) = do
      (ds, buffers, (next, states')) ← free_refs_next fuel t rs dma.buffers ([], states)
      let (ds', buffers') = free_refs_no_next t next buffers
      ok (record dma { buffers = buffers' }, states', record p { refs = (p.refs ++ ds) ++ ds' })
    let freed : Outcome (Dma × States × BufferPool) = if free_next then followed else plain
    if length rs == 0 then ok (dma, states0, p) else freed
