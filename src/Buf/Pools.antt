-- ===== src/Buf/Pools.antt =====
-- hw/buf.go: pools of buffers made from a template.
-- math.Sqrt, cut down to an integer, is the parameter `floor_sqrt`. The search for a prime takes fuel.
use elib.Base.{
  ℕ, zero, suc, ◌+◌, ◌-◌, ◌*◌, ◌/◌, ◌%◌, ◌^◌, Bool, true, false, List, Outcome, ok, panic,
  out_of_fuel, ◌>>=◌, length, ◌==◌, ◌!=◌, ltb, if◌then◌else◌,
}
use elib.Bits.{round_pow2}
use elib.Buf.{RefHeader, Ref, Buffer}

abbrev pub cache_line_bytes : ℕ
cache_line_bytes = 64

-- Cache aligned/sized space for buffer header, and rewrite (prepend) area.
abbrev pub overhead_bytes : ℕ
overhead_bytes = 64 + 64

pub record BufferTemplate : Type 0 where
  -- Data size of buffers.
  pub size : ℕ
  pub size_including_overhead : ℕ
  pub ref : Ref
  pub buffer : Buffer
  -- Buffers are initialized with these bytes, if there are any.
  pub bytes : List ℕ

pub record BufferPool : Type 0 where
  pub template : BufferTemplate
  -- References to buffers in this pool.
  pub refs : List Ref
  -- DMA memory chunks used by this pool.
  pub mem_chunk_ids : List ℕ
  pub dma_mem_alloc_bytes : ℕ

-- The rounds of `for j := 2; j <= max; j++`.
unfoldable pub is_prime_loop : ℕ → ℕ → ℕ → Bool
is_prime_loop i j zero = true
is_prime_loop i j (suc n) =
    let rest = is_prime_loop i (suc j) n in if i % j == 0 then false else rest

module _ (floor_sqrt : ℕ → ℕ) where
  unfoldable pub is_prime : ℕ → Bool
  is_prime i = is_prime_loop i 2 (floor_sqrt i - 1)

  unfoldable pub next_prime : ℕ → ℕ → Outcome ℕ
  next_prime zero n = panic out_of_fuel
  next_prime (suc fuel) n =
      let rest = next_prime fuel ((n + 1) % 2 ^ 64) in if is_prime n then ok n else rest

  -- Choose to be a prime number of cache lines to randomize addresses for better cache usage.
  unfoldable pub buffer_size : ℕ → ℕ → Outcome ℕ
  buffer_size fuel size = do
    let n_bytes = (overhead_bytes + size) % 2 ^ 64
    n_lines ← next_prime fuel (n_bytes / cache_line_bytes)
    ok (n_lines * cache_line_bytes % 2 ^ 64)

  -- User does not get to choose buffer header.
  unfoldable pub init : ℕ → BufferPool → Outcome BufferPool
  init fuel p = do
    let t = p.template
    let h = t.ref.header
    let n = length t.bytes
    let ref : Ref =
        if ltb 0 n then record (t.ref) { header = record h { data_len = n % 2 ^ 16 } } else t.ref
    let zero_header : RefHeader = record { offset_and_flags = 0; data_offset = 0; data_len = 0 }
    let buffer = record (t.buffer) { next_ref = zero_header; clone_count = 0 }
    whole ← buffer_size fuel (round_pow2 t.size cache_line_bytes)
    ok (record p {
      template = record t {
        ref = ref;
        buffer = buffer;
        size_including_overhead = whole;
        size = (whole + 2 ^ 64 - overhead_bytes) % 2 ^ 64;
      };
    })

unfoldable pub is_initialized : BufferPool → Bool
is_initialized p = p.template.size_including_overhead != 0

unfoldable pub free_len : BufferPool → ℕ
free_len p = length p.refs
