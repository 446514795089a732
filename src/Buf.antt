-- ===== src/Buf.antt =====
-- hw/buf.go: references to buffers, and chains of them.
-- Memory for devices is a function from an offset to the header of a buffer, and one from an offset to a
-- byte. A reference whose next-valid flag is set is followed by the reference in the header of its buffer.
-- A walk along a chain takes fuel; a chain of n references takes n.
pub mod Headers
pub mod Links
pub mod Walks
pub mod Append
pub mod Pools
pub mod States
pub mod Free
pub mod Alloc
use elib.Base.{
  ℕ, zero, suc, ◌+◌, ◌-◌, ◌*◌, ◌/◌, ◌%◌, ◌^◌, Bool, true, false, Option, none, some, List, [], ◌∷◌,
  ◌++◌, Outcome, ok, panic, out_of_fuel, ◌>>=◌, bit_and, bit_or, ltb, leb, ◌==◌, ◌!=◌,
  if◌then◌else◌, map,
}
use elib.Word.{and_not, shl, shr}

abbrev pub next_valid : ℕ
next_valid = 1

abbrev pub cloned : ℕ
cloned = 2

pub record RefHeader : Type 0 where
  -- 28 bits of offset; 4 bits of flags.
  pub offset_and_flags : ℕ
  pub data_offset : ℕ
  pub data_len : ℕ

pub record Ref : Type 0 where
  pub header : RefHeader
  -- User opaque area.
  pub opaque_area : List ℕ

pub record Buffer : Type 0 where
  -- Valid only if the next-valid flag is set.
  pub next_ref : RefHeader
  -- Number of clones of this buffer.
  pub clone_count : ℕ
  pub save : ℕ
  pub opaque_bytes : List ℕ

pub record Dma : Type 0 where
  pub buffers : ℕ → Buffer
  pub bytes : ℕ → ℕ

unfoldable pub offset : RefHeader → ℕ
offset r = and_not r.offset_and_flags 0xf

unfoldable pub flags : RefHeader → ℕ
flags r = bit_and r.offset_and_flags 0xf

unfoldable pub next_valid_flag : RefHeader → ℕ
next_valid_flag r = bit_and r.offset_and_flags next_valid

unfoldable pub next_is_valid : RefHeader → Bool
unfolding next_valid_flag
next_is_valid r = next_valid_flag r != 0

unfoldable pub next_valid_uint : RefHeader → ℕ
next_valid_uint r = bit_and 1 (shr r.offset_and_flags 0)

unfoldable pub set_flags : ℕ → RefHeader → RefHeader
set_flags f r = record r { offset_and_flags = bit_or r.offset_and_flags f }

unfoldable pub ref_flag1 : ℕ → RefHeader → Bool
ref_flag1 f r = bit_and r.offset_and_flags f != 0

unfoldable pub ref_flag2 : ℕ → RefHeader → RefHeader → Bool
ref_flag2 f r0 r1 = bit_and (bit_or r0.offset_and_flags r1.offset_and_flags) f != 0

unfoldable pub ref_flag4 : ℕ → RefHeader → RefHeader → RefHeader → RefHeader → Bool
ref_flag4 f r0 r1 r2 r3 =
    bit_and
      (bit_or (bit_or (bit_or r0.offset_and_flags r1.offset_and_flags) r2.offset_and_flags)
        r3.offset_and_flags)
      f
    != 0

unfoldable pub get_buffer : Dma → RefHeader → Buffer
get_buffer dma r = dma.buffers (offset r)

-- The offset of the bytes of a reference.
unfoldable pub data_start : RefHeader → ℕ
data_start r = (offset r + r.data_offset) % 2 ^ 32

-- `n` bytes from an offset on.
unfoldable pub read_bytes : (ℕ → ℕ) → ℕ → ℕ → List ℕ
read_bytes bytes i zero = []
read_bytes bytes i (suc n) = bytes i ∷ read_bytes bytes (suc i) n

unfoldable pub data_slice : Dma → RefHeader → List ℕ
data_slice dma r = read_bytes dma.bytes (data_start r) r.data_len

unfoldable pub set_data_len : ℕ → RefHeader → RefHeader
set_data_len l r = record r { data_len = l % 2 ^ 16 }

-- The amount is the 64 bits of an int, as is the old offset.
unfoldable pub advance : ℕ → RefHeader → ℕ × RefHeader
advance i r = (
  r.data_offset,
  record r {
    data_offset = (r.data_offset + i) % 2 ^ 16;
    data_len = (r.data_len + 2 ^ 64 - i) % 2 ^ 16;
  },
)

unfoldable pub restore : ℕ → RefHeader → RefHeader
restore old r =
    let data_offset' : ℕ = old % 2 ^ 16 in
    let d : ℕ = (data_offset' + 2 ^ 64 - old) % 2 ^ 64 in
    record r { data_offset = data_offset'; data_len = (r.data_len + 2 ^ 64 - d) % 2 ^ 16 }

unfoldable pub next_ref_of : Dma → RefHeader → Option RefHeader
next_ref_of dma r =
    if bit_and (flags r) next_valid != 0 then some ((get_buffer dma r).next_ref) else none

-- Length in buffer chain.
unfoldable pub chain_len : Dma → ℕ → RefHeader → ℕ → Outcome ℕ
chain_len dma zero r l = panic out_of_fuel
chain_len dma (suc fuel) r l = elim (next_ref_of dma r) [
  | none ↦ ok ((l + r.data_len) % 2 ^ 64)
  | some r' ↦ chain_len dma fuel r' ((l + r.data_len) % 2 ^ 64)
]

unfoldable pub chain_slice : Dma → ℕ → RefHeader → List ℕ → Outcome (List ℕ)
chain_slice dma zero r b = panic out_of_fuel
chain_slice dma (suc fuel) r b = elim (next_ref_of dma r) [
  | none ↦ ok (b ++ data_slice dma r)
  | some r' ↦ chain_slice dma fuel r' (b ++ data_slice dma r)
]

unfoldable pub validate_total_len : Dma → ℕ → ℕ → RefHeader → ℕ → Outcome (ℕ × Bool)
validate_total_len dma want zero r l = panic out_of_fuel
validate_total_len dma want (suc fuel) r l0 =
    let l : ℕ = (l0 + r.data_len) % 2 ^ 64 in
    elim (next_ref_of dma r) [
      | none ↦ ok (l, true)
      | some r' ↦ elim (ltb want l) [
        | true ↦ ok (l, false)
        | false ↦ validate_total_len dma want fuel r' l
      ]
    ]
