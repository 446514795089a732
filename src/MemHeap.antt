-- ===== src/MemHeap.antt =====
-- mem_heap.go: memory in cache lines, allocated from a Heap.
-- The memory is its length in bytes, and a slice of it is its offset and length. The mapping of new
-- memory is the parameter `map_bytes`: the length that the system returns, or nothing if it fails.
-- The lock of Get and Put makes each call one step. `once` runs the first Init alone.
use elib.Base.{
  ℕ, ◌+◌, ◌-◌, ◌*◌, ◌%◌, ◌^◌, Bool, Option, Outcome, ok, panic, index_out_of_range, out_of_memory,
  ◌>>=◌, or_panic, ltb, leb, ◌==◌, if◌then◌else◌, true,
}
use elib.Word.{and_not, shl, shr}
use elib.Bits.{round_pow2}
use elib.Cap.{FloatScale}
use elib.Heap.{Heap, set_max_len, get_id}
use elib.Heap.Get.{get_aligned}
use elib.Heap.Put.{put}

abbrev pub log2_cache_line_bytes : ℕ
log2_cache_line_bytes = 6

pub record MemHeap : Type 0 where
  pub heap : Heap
  -- Whether `once` was used.
  pub done : Bool
  -- The length of `data`.
  pub data_len : ℕ

-- `data[offset : offset+cap]`
abbrev pub slice : MemHeap → ℕ → ℕ → Outcome (ℕ × ℕ)
slice h offset cap =
    let last = (offset + cap) % 2 ^ 64 in
    if leb last h.data_len
    then (if leb offset last then ok (offset, cap) else panic index_out_of_range)
    else panic index_out_of_range

module _ (scale : FloatScale) (map_bytes : ℕ → Option ℕ) where
  -- Init with memory of length `b`, or with `n` bytes of mapped memory.
  unfoldable pub init_data : ℕ → ℕ → MemHeap → Outcome MemHeap
  init_data b n h = do
    len ← if b == 0 then or_panic (map_bytes n) out_of_memory else ok b
    let lines = and_not len (2 ^ log2_cache_line_bytes - 1)
    ok (record h { data_len = lines; heap = set_max_len (shr lines log2_cache_line_bytes) h.heap })

  unfoldable pub init_once : ℕ → MemHeap → Outcome MemHeap
  init_once n h =
      let first = init_data h.data_len n (record h { done = true }) in
      if h.done then ok h else first

  -- The slice, the block, the offset and the capacity.
  unfoldable pub get_lines : ℕ → ℕ → MemHeap → Outcome ((ℕ × ℕ) × ℕ × ℕ × ℕ × MemHeap)
  get_lines n log2_align h = do
    -- Allocate memory in case caller has not called Init to select a size.
    h1 ← init_once (64 * 2 ^ 20) h
    let cap = round_pow2 n (2 ^ log2_cache_line_bytes)
    (id, i, heap) ←
        get_aligned scale (shr cap log2_cache_line_bytes) (log2_align - log2_cache_line_bytes)
          h1.heap
    let offset = shl i log2_cache_line_bytes
    let h2 = record h1 { heap = heap }
    b ← slice h2 offset cap
    ok (b, id, offset, cap, h2)

  unfoldable pub put_lines : ℕ → MemHeap → Outcome MemHeap
  put_lines id h = put scale id h.heap >>= λ heap. ok (record h { heap = heap })

  -- The offset and the length are in cache lines, and cut the bytes.
  unfoldable pub get_by_id : ℕ → MemHeap → Outcome (ℕ × ℕ)
  get_by_id id h = get_id h.heap id >>= λ (offset, len). slice h offset len

  unfoldable pub offset_valid : ℕ → MemHeap → Bool
  offset_valid o h = ltb o h.data_len
