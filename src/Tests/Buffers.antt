-- ===== src/Tests/Buffers.antt =====
-- Buffers at a few offsets.
use mathlib.Core.List.{Memᴰ}
use mathlib.Core.List.Memᴰ
use elib.Base.{
  ℕ, ◌≡◌, ◌≢◌, refl, ap, true, false, [], ◌∷◌, map, Outcome, ok, ◌>>=◌, arith, if◌then◌else◌, ◌==◌,
}
use elib.Buf.{
  RefHeader, Buffer, Dma, next_is_valid, next_valid_flag, advance, restore, chain_len, chain_slice,
  next_ref_of, offset, flags, get_buffer, set_flags,
}
use elib.Buf.Headers.{restore-advance}
use elib.Buf.Walks.{all_bytes, last, link}
use elib.Buf.Append.{RefChain, append_ref, append_loop, add_len, write_slot, read_slot, flag_slot}
use elib.Buf.Append.One.{empty_chain}
use elib.Buf.Append.Sequence.{append_all, append_all-walks}
use elib.Buf.Pools.{BufferTemplate, BufferPool, is_initialized}
use elib.Buf.States.{
  States, known_allocated, known_free, unknown, validate_set_state_refs, validate_set_state,
  set_state, same_state, expected,
}
use elib.Buf.States.Twice.{AreAllocated, validate_set_state_refs-AreAllocated}
use elib.Buf.Free.{free_refs}
use elib.Buf.Free.Reset.{made, reset_all}
use elib.Buf.Free.Whole.{free_refs-chains}
use elib.Buf.Alloc.{alloc_refs_stride}
use elib.Buf.Alloc.Again.{alloc_refs_stride-free_refs}

abbrev ref_at : ℕ → RefHeader
ref_at x = record { offset_and_flags = x; data_offset = 64; data_len = 10 }

abbrev blank : Buffer
blank = record { next_ref = ref_at 0; clone_count = 0; save = 7; opaque_bytes = [] }

-- The buffer at 512 is followed by that at 1024.
abbrev memory : Dma
memory = record {
  buffers = λ o. record blank { next_ref = ref_at (if o == 512 then 1024 else 0) };
  bytes = λ i. i;
}

restore-advance_example :
    restore (advance 4 (ref_at 512)).0 (advance 4 (ref_at 512)).1
    ≡ record (ref_at 512) { data_len = 6 }
restore-advance_example = restore-advance (ref_at 512) 4 (omega arith) (omega arith) (omega arith)

apart : (a b : ℕ) → a ≢ b → (h : ℕ × ℕ × ℕ) → Memᴰ h ((b, 64, 10) ∷ []) → h.0 ≢ a
apart a b n h m e = n (cc (e, Memᴰ.eq_of_singleton m))

append_all-walks_example :
    (s : Dma × RefChain) × (append_all
        (ref_at 256 ∷ ref_at 768 ∷ [])
        (memory, empty_chain (ref_at 0))
      ≡ ok s)
    × (chain_slice s.0 2 s.1.first [] ≡ ok (all_bytes memory (ref_at 256 ∷ ref_at 768 ∷ [])))
    × (chain_len s.0 2 s.1.first 0 ≡ ok s.1.len)
unfolding offset next_is_valid next_valid_flag
append_all-walks_example =
    append_all-walks (ref_at 256) (ref_at 768 ∷ []) (ref_at 0) memory
      ((omega arith, refl, (omega arith, refl, tt)))
      ((apart 256 768 (λ e. omega (arith, e)), (λ h m. absurd (Memᴰ.not-nil m), tt))) (omega arith)

-- A chain of two is appended, and then one more: its flag goes to the first of the two, so that the
-- one more is counted and not found.
both_lengths : Dma × RefChain → Outcome (ℕ × ℕ)
both_lengths s = chain_len s.0 3 s.1.first 0 >>= λ n. ok (n, s.1.len)

lost_run :
    append_ref 3 (ref_at 513) (memory, empty_chain (ref_at 0))
      >>= append_ref 3 (ref_at 256)
      >>= both_lengths
    ≡ ok (20, 30)
unfolding append_ref append_loop add_len write_slot read_slot flag_slot chain_len next_ref_of offset
    flags get_buffer set_flags both_lengths
lost_run = refl

abbrev template : BufferTemplate
template = record {
  size = 512;
  size_including_overhead = 704;
  ref = record {
    header = record { offset_and_flags = 0; data_offset = 64; data_len = 0 };
    opaque_area = [];
  };
  buffer = blank;
  bytes = [];
}

abbrev pool : BufferPool
pool = record { template = template; refs = []; mem_chunk_ids = []; dma_mem_alloc_bytes = 0 }

no_states : States
no_states o = unknown

-- Two chains: the buffer at 512 and then 1024, and the buffer at 256 alone.

free_refs-chains_example :
    free_refs false 1 true (ref_at 513 ∷ ref_at 256 ∷ []) (memory, no_states, pool)
    ≡ ok (
      record memory {
        buffers = reset_all template (ref_at 513 ∷ ref_at 256 ∷ ref_at 1024 ∷ []) memory.buffers;
      },
      no_states,
      record pool { refs = map (made template) (ref_at 513 ∷ ref_at 256 ∷ ref_at 1024 ∷ []) },
    )
unfolding offset next_ref_of flags get_buffer
free_refs-chains_example =
    free_refs-chains 1 ((ref_at 513, ref_at 1024 ∷ []) ∷ (ref_at 256, []) ∷ []) memory no_states
      pool
      (
        link {r = ref_at 513} {r' = ref_at 1024} refl (last {r = ref_at 1024} refl),
        omega arith,
        (λ x m. m),
        (λ x m e. omega (arith, e, ap offset (Memᴰ.eq_of_singleton m))),
        (λ x m e. omega (arith, e, ap offset (Memᴰ.eq_of_singleton m))),
        (
          last {r = ref_at 256} refl,
          omega arith,
          (λ x m. absurd (Memᴰ.not-nil m)),
          (λ x m. absurd (Memᴰ.not-nil m)),
          (λ x m e. omega (arith, e, ap offset (Memᴰ.eq_of_singleton m))),
          tt,
        ),
      )

alloc_refs_stride-free_refs_example :
    (free_refs false 1 false (ref_at 512 ∷ []) (memory, no_states, pool) >>= λ (dma', states', p').
    alloc_refs_stride false
      (λ n (d : ℕ). ok ((0, 0), d))
      (λ i. i)
      2
      (template.ref ∷ [])
      1
      1
      (dma', states', p', 3))
    ≡ ok (
      map (made template) (ref_at 512 ∷ []),
      (
        record memory { buffers = reset_all template (ref_at 512 ∷ []) memory.buffers },
        no_states,
        pool,
        3,
      ),
    )
unfolding is_initialized
alloc_refs_stride-free_refs_example =
    alloc_refs_stride-free_refs (λ n (d : ℕ). ok ((0, 0), d)) (λ i. i) 1 (ref_at 512 ∷ [])
      (template.ref ∷ []) memory no_states pool 3 refl refl

in_use : States
in_use o = known_allocated

validate_set_state_refs-AreAllocated_example : AreAllocated in_use (ref_at 512 ∷ ref_at 256 ∷ [])
unfolding validate_set_state_refs validate_set_state expected same_state set_state offset in_use
validate_set_state_refs-AreAllocated_example =
    validate_set_state_refs-AreAllocated (ref_at 512 ∷ ref_at 256 ∷ []) in_use
      (set_state 256 known_free (set_state 512 known_free in_use)) refl
