-- ===== src/Buf/Alloc.antt =====
-- hw/buf.go: references are taken from a pool, which makes buffers when it has too few.
-- DmaAlloc is a parameter with a state of its own; it returns an identifier and an offset. The
-- references that are filled in are those of the caller's slice.
pub mod Again
use elib.Base.{
  ℕ, zero, suc, ◌+◌, ◌-◌, ◌*◌, ◌/◌, ◌%◌, ◌^◌, Bool, true, false, List, [], ◌∷◌, ◌++◌, Outcome, ok,
  panic, index_out_of_range, out_of_fuel, ◌>>=◌, length, take, drop, get_or, set, load, leb, ltb,
  ◌==◌, if◌then◌else◌, not, ◌&&◌, map,
}
use elib.Bits.{round_pow2}
use elib.Buf.{RefHeader, Ref, Buffer, Dma, offset, data_start}
use elib.Buf.Pools.{BufferTemplate, BufferPool, is_initialized, init, free_len}
use elib.Buf.States.{States, BufferState, known_allocated, validate_set_state_refs}
use elib.Buf.Free.{put_buffer}

-- `dst[ri] = x`
unfoldable pub put_ref : ℕ → Ref → List Ref → Outcome (List Ref)
put_ref ri x dst = load dst ri >>= λ _. ok (set dst ri x)

-- `for i < n`
unfoldable pub copy_ones : ℕ → ℕ → List Ref → List Ref → Outcome (List Ref)
copy_ones stride ri [] dst = ok dst
copy_ones stride ri (x ∷ src) dst = put_ref ri x dst >>= copy_ones stride (ri + stride) src

-- `for i+4 <= n`
unfoldable pub copy_fours : ℕ → ℕ → List Ref → List Ref → Outcome (List Ref)
copy_fours stride ri (x0 ∷ x1 ∷ x2 ∷ x3 ∷ src) dst =
    put_ref ri x0 dst
    >>= put_ref (ri + 1 * stride) x1
    >>= put_ref (ri + 2 * stride) x2
    >>= put_ref (ri + 3 * stride) x3
    >>= copy_fours stride (ri + 4 * stride) src
copy_fours stride ri src dst = copy_ones stride ri src dst

unfoldable pub copy_refs : List Ref → List Ref → ℕ → Outcome (List Ref)
copy_refs dst src stride =
    if stride == 1
    then ok (take (length dst) src ++ drop (length src) dst)
    else copy_fours stride 0 src dst

-- `for i := 0; i < len(r); i += stride`
unfoldable pub every : ℕ → ℕ → List Ref → List RefHeader
every zero stride rs = []
every (suc n) stride [] = []
every (suc n) stride (r ∷ rs) = r.header ∷ every n stride (drop stride (r ∷ rs))

abbrev pub put_bytes : ℕ → List ℕ → (ℕ → ℕ) → ℕ → ℕ
put_bytes i l bytes p = if leb i p && ltb p (i + length l) then get_or l (p - i) 0 else bytes p

-- The buffers at `o`, `o - b`, ... for `n` references, each made from the template.
unfoldable pub make_buffers : BufferTemplate → ℕ → ℕ → Dma → List Ref × Dma
make_buffers t zero o dma = ([], dma)
make_buffers t (suc n) o dma =
    let h = t.ref.header in
    let h' = record h { offset_and_flags = (h.offset_and_flags + o) % 2 ^ 32 } in
    let dma' = record dma {
      buffers = put_buffer (offset h') t.buffer dma.buffers;
      bytes = put_bytes (data_start h') (take h'.data_len t.bytes) dma.bytes;
    } in
    let (rs, dma'') = make_buffers t n ((o + 2 ^ 64 - t.size_including_overhead) % 2 ^ 64) dma' in
    (record (t.ref) { header = h' } ∷ rs, dma'')

-- `for nb > 1<<20`; 64 rounds make any number of bytes zero.
unfoldable pub shrink : ℕ → ℕ → ℕ → ℕ × ℕ
shrink zero n_alloc nb = (n_alloc, nb)
shrink (suc fuel) n_alloc nb =
    let rest = shrink fuel (n_alloc / 2) (nb / 2) in if ltb (2 ^ 20) nb then rest else (n_alloc, nb)

module _ {D : Type 0} (track : Bool) (dma_alloc : ℕ → D → Outcome ((ℕ × ℕ) × D)) where
  -- `for got < want`
  unfoldable pub grow_loop : ℕ → ℕ → Dma × BufferPool × D → Outcome (Dma × BufferPool × D)
  grow_loop zero want s = panic out_of_fuel
  grow_loop (suc fuel) want (dma, p, d) = elim (ltb (free_len p) want) [
    | false ↦ ok (dma, p, d)
    | true ↦ do
      let b = p.template.size_including_overhead
      let n = round_pow2 (want - free_len p) 256
      let (n_alloc, nb) = shrink 64 n (n * b % 2 ^ 64)
      ((id, o), d') ← dma_alloc nb d
      let last = (o + (n_alloc + 2 ^ 64 - 1) * b) % 2 ^ 64
      let (rs, dma') = make_buffers p.template n_alloc last dma
      grow_loop fuel want (
        dma',
        record p {
          refs = p.refs ++ rs;
          mem_chunk_ids = p.mem_chunk_ids ++ id ∷ [];
          dma_mem_alloc_bytes = (p.dma_mem_alloc_bytes + nb) % 2 ^ 64;
        },
        d',
      )
  ]

  unfoldable pub alloc_refs_stride :
      (ℕ → ℕ)
      → ℕ
      → List Ref
      → ℕ
      → ℕ
      → Dma × States × BufferPool × D
      → Outcome (List Ref × (Dma × States × BufferPool × D))
  alloc_refs_stride floor_sqrt fuel refs want stride (dma0, states, p0, d0) = do
    p1 ← if is_initialized p0 then ok p0 else init floor_sqrt fuel p0
    (dma, p, d) ← grow_loop fuel want (dma0, p1, d0)
    let left = free_len p - want
    refs' ← copy_refs refs (drop left p.refs) stride
    states' ← validate_set_state_refs track (every want stride refs') known_allocated states
    ok (refs', (dma, states', record p { refs = take left p.refs }, d))

  unfoldable pub alloc_cached_refs :
      States × BufferPool → Outcome (List Ref × (States × BufferPool))
  alloc_cached_refs (states, p) = do
    states' ← validate_set_state_refs track (map Ref.header p.refs) known_allocated states
    ok (p.refs, (states', record p { refs = [] }))
