-- ===== src/Buf/Append.antt =====
-- hw/buf.go: RefChain, a chain with a pointer to where its next reference goes.
-- A pointer to a reference of the chain is a Slot: the head in the RefChain, or the reference in the header
-- of the buffer at an offset.
pub mod Linked
pub mod One
pub mod Sequence
use elib.Base.{
  ℕ, zero, suc, ◌+◌, ◌%◌, ◌^◌, Bool, true, false, Option, none, some, List, [], ◌∷◌, Outcome, ok,
  panic, out_of_fuel, ◌>>=◌, ◌==◌, if◌then◌else◌,
}
use elib.Buf.{RefHeader, Buffer, Dma, offset, set_flags, next_valid, next_ref_of}

pub data Slot : Type 0 where
  head : Slot
  next_of : ℕ → Slot

pub record RefChain : Type 0 where
  -- Number of bytes in chain.
  pub len : ℕ
  pub count : ℕ
  -- Head and tail buffer reference.
  pub first : RefHeader
  pub tail : Option Slot
  pub prev_tail : Option Slot

abbrev pub set_next : Dma → ℕ → RefHeader → Dma
set_next dma o r = record dma {
  buffers = λ p. if o == p then record (dma.buffers p) { next_ref = r } else dma.buffers p;
}

unfoldable pub read_slot : Slot → Dma × RefChain → RefHeader
read_slot head (dma, c) = c.first
read_slot (next_of o) (dma, c) = (dma.buffers o).next_ref

unfoldable pub write_slot : Slot → RefHeader → Dma × RefChain → Dma × RefChain
write_slot head r (dma, c) = (dma, record c { first = r })
write_slot (next_of o) r (dma, c) = (set_next dma o r, c)

unfoldable pub add_len : RefHeader → RefChain → RefChain
add_len r c = record c { len = (c.len + r.data_len % 2 ^ 32) % 2 ^ 32 }

unfoldable pub flag_slot : Option Slot → Dma × RefChain → Dma × RefChain
flag_slot none s = s
flag_slot (some p) s = write_slot p (set_flags next_valid (read_slot p s)) s

-- The loop over the references after `r`: `slot` is the slot that `r` was written to.
unfoldable pub append_loop : ℕ → Slot → RefHeader → Dma × RefChain → Outcome (Dma × RefChain)
append_loop zero slot r s = panic out_of_fuel
append_loop (suc fuel) slot r (dma, c) = elim (next_ref_of dma r) [
  | none ↦ ok (dma, record c { prev_tail = some slot; tail = some (next_of (offset r)) })
  | some x ↦ append_loop fuel slot x (dma, add_len x c)
]

abbrev pub tail_slot : Option Slot → Slot
tail_slot none = head
tail_slot (some p) = p

unfoldable pub append_ref : ℕ → RefHeader → Dma × RefChain → Outcome (Dma × RefChain)
append_ref fuel r (dma, c) =
    let slot = tail_slot c.tail in
    append_loop fuel slot r (flag_slot c.prev_tail (write_slot slot r (dma, add_len r c)))
