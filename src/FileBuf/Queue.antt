-- ===== src/FileBuf/Queue.antt =====
-- iomux/filebuf.go: the buffers are queues.
use mathlib.Core.List.{append-nil}
use elib.Base.{
  ◌+◌, ◌-◌, ◌^◌, length-drop, length-append, Outcome, ok, ◌>>=◌, ℕ, ◌≤◌, ◌≡◌, ap, ◌∙◌, Bool, List,
  [], ◌∷◌, ◌++◌, length, take, drop, ltb, ◌==◌, Bool-cases, inl, inr, take-append-drop, take_all,
  arith, ltb→le,
}
use elib.Cap.{FloatScale}
use elib.Vec.{Vec, capacity, len}
use elib.Vec.Keep.{capacity-cut}
use elib.FileBuf.{
  ℤ, pos, negsuc, read_result, FileBuf, ReadResult, WriteResult, wrote, write_again, write_failed,
  read, close, read_limit, read_ready, write, write_ready, written,
}

-- The calls of a file, with what the system returns to each.
pub data Call : Type 0 where
  reads : ℤ → Call
  writes : List ℕ → Call
  ready_to_read : ReadResult → Call
  ready_to_write : WriteResult → Call
  closes : Call

-- The file and its history: the bytes that came from the system and those of them that were read away,
-- the bytes given to Write and those that the system took.
pub record History : Type 0 where
  pub file : FileBuf
  pub received : List ℕ
  pub consumed : List ℕ
  pub given : List ℕ
  pub sent : List ℕ

-- The bytes that a call of Read passes.
abbrev pub passed : ℤ → List ℕ → List ℕ
passed (pos n) bytes = take n bytes
passed (negsuc n) bytes = []

module _ (scale : FloatScale) where
  unfoldable pub step : Call → History → Outcome History
  step (reads n) h = do
    (_, file) ← read n h.file
    ok (record h { file = file; consumed = h.consumed ++ passed n h.file.rx_buffer.items })
  step (writes p) h = do
    (_, file) ← write scale p h.file
    ok (record h { file = file; given = h.given ++ p })
  step (ready_to_read r) h = do
    (_, file) ← read_ready scale r h.file
    ok (record h { file = file; received = h.received ++ take (read_limit h.file) (read_result r) })
  step (ready_to_write r) h = do
    (_, taken, file) ← write_ready r h.file
    ok (record h { file = file; sent = h.sent ++ taken })
  step closes h = ok (record h { file = close h.file })

  unfoldable pub run : List Call → History → Outcome History
  run [] h = ok h
  run (c ∷ cs) h = step c h >>= run cs

-- Read is given no negative number, no buffer grows past 2^29 bytes, and the system takes no more
-- bytes than it is given.
abbrev pub IsFair : Call → FileBuf → Type 0
IsFair (reads (pos n)) s = Unit
IsFair (reads (negsuc n)) s = ⊥
IsFair (writes p) s = len s.tx_buffer + length p ≤ 2 ^ 29
IsFair (ready_to_read r) s = len s.rx_buffer + read_limit s ≤ 2 ^ 29
IsFair (ready_to_write (wrote n)) s = n ≤ len s.tx_buffer
IsFair (ready_to_write write_again) s = Unit
IsFair (ready_to_write write_failed) s = Unit
IsFair closes s = Unit

abbrev pub AreFair : FloatScale → List Call → History → Type 0
AreFair scale [] h = Unit
AreFair scale (c ∷ cs) h =
    IsFair c h.file × ((h' : History) → step scale c h ≡ ok h' → AreFair scale cs h')

pub record IsQueue (h : History) : Type 0 where
  pub outgoing : h.sent ++ h.file.tx_buffer.items ≡ h.given
  pub incoming : h.consumed ++ h.file.rx_buffer.items ≡ h.received
  pub tx_small : capacity h.file.tx_buffer ≤ 2 ^ 31
  pub rx_small : capacity h.file.rx_buffer ≤ 2 ^ 31

-- The bytes written leave the front of the buffer.
pub written_lem :
    (n : ℕ) (s : FileBuf)
    → n ≤ len s.tx_buffer
    → (take n s.tx_buffer.items ++ (written n s).tx_buffer.items ≡ s.tx_buffer.items)
      × (capacity (written n s).tx_buffer ≤ capacity s.tx_buffer)
unfolding written
written_lem n s f =
    let v = s.tx_buffer in
    elim (Bool-cases (n == len v)) [
      | inl e ↦ rw e (
        append-nil (take n v.items) ∙ take_all n v.items (ground arith),
        omega (arith, capacity-cut 0 v 0),
      )
      | inr e ↦ rw e (elim (Bool-cases (ltb 0 n)) [
        | inl t ↦ rw t (
          take-append-drop n v.items,
          omega (
            arith,
            f,
            length-drop n v.items,
            length-append (drop (len v - n) v.items) v.spare,
            length-drop (len v - n) v.items,
          ),
        )
        | inr t ↦
            let z : n ≡ 0 = omega (arith, ltb→le 0 n t) in
            rw t (ap (λ k. take k v.items ++ v.items) z, omega arith)
      ])
    ]

-- What the system takes leaves the front of the buffer.
abbrev Takes : FileBuf → Outcome (Bool × List ℕ × FileBuf) → Type 0
Takes s m =
    (e : Bool) × (taken : List ℕ) × (s' : FileBuf) × (m ≡ ok (e, taken, s'))
    × (taken ++ s'.tx_buffer.items ≡ s.tx_buffer.items)
    × (s'.rx_buffer ≡ s.rx_buffer)
    × (capacity s'.tx_buffer ≤ capacity s.tx_buffer)
