-- ===== src/FileBuf.antt =====
-- iomux/filebuf.go: a file with buffers for what was read and what is to be written.
-- What the system returns from read and write is an argument. The buffers are vectors of bytes that grow
-- by Resize of the generated ByteVec. A file descriptor of -1 is none. Calls of
-- Update and Del, which tell the poller of the file, are counted.
pub mod Buffers
pub mod Queue
pub mod Drain
use elib.Base.{
  ◌++◌, ◌>>=◌, Outcome, ◌-◌, ℕ, zero, suc, ◌+◌, ◌-◌, ◌≤◌, Bool, true, false, Option, none, some,
  List, [], ◌∷◌, ◌++◌, length, take, drop, leb, ltb, ◌==◌, Outcome, ok, panic, index_out_of_range,
  if◌then◌else◌,
}
use elib.Cap.{FloatScale}
use elib.Vec.{Vec, cells, capacity, len, cut, reslice, resize}

pub record FileBuf : Type 0 where
  pub fd : Option ℕ
  pub max_read_bytes : ℕ
  pub tx_buffer : Vec ℕ
  pub rx_buffer : Vec ℕ
  pub updates : ℕ
  pub deletes : ℕ

-- What read returns: bytes, or that there are none now, or an error.
pub data ReadResult : Type 0 where
  got : List ℕ → ReadResult
  read_again read_failed : ReadResult

-- What write returns: the number of bytes that were written, or that none can be now, or an error.
pub data WriteResult : Type 0 where
  wrote : ℕ → WriteResult
  write_again write_failed : WriteResult

abbrev no_bytes : Vec ℕ
no_bytes = record { items = []; spare = [] }

abbrev pub new_file_buf : ℕ → FileBuf
new_file_buf fd = record {
  fd = some fd;
  max_read_bytes = 0;
  tx_buffer = no_bytes;
  rx_buffer = no_bytes;
  updates = 0;
  deletes = 0;
}

-- An int of Go, under the library's names: negsuc n is -(n + 1).
pub data ℤ : Type 0 where
  pos : ℕ → ℤ
  negsuc : ℕ → ℤ

-- A negative number of bytes is an index panic.
unfoldable pub read : ℤ → FileBuf → Outcome (List ℕ × FileBuf)
read (negsuc k) s = panic index_out_of_range
read (pos advance) s =
    let rx : Vec ℕ =
      if leb (len s.rx_buffer) advance
      then cut s.rx_buffer 0
      else record { items = drop advance s.rx_buffer.items; spare = s.rx_buffer.spare } in
    ok (rx.items, record s { rx_buffer = rx })

-- The file is closed also when the system reports an error.
unfoldable pub close : FileBuf → FileBuf
close s = record s { fd = none; deletes = suc s.deletes }

-- The number of bytes that read may return.
abbrev pub read_limit : FileBuf → ℕ
read_limit s = if s.max_read_bytes == 0 then 4096 else s.max_read_bytes

-- `copy(v[i:i+n], p)` for the n bytes of `p`, which panics past the capacity.
unfoldable pub copy_at : ℕ → List ℕ → Vec ℕ → Outcome (Vec ℕ)
copy_at i p v =
    let c = take i (cells v) ++ p ++ drop (i + length p) (cells v) in
    if ltb (capacity v) (i + length p)
    then panic index_out_of_range
    else ok (record { items = take (len v) c; spare = drop (len v) c })

-- The bytes of a read.
unfoldable pub read_result : ReadResult → List ℕ
read_result (got bytes) = bytes
read_result _ = []

-- Whether there was an error, and the file: a read of no bytes is the end, and the file is closed.
unfoldable pub after_read : ReadResult → ℕ → FileBuf → Bool × FileBuf
after_read (got l) n s = (false, if n == 0 then close s else s)
after_read read_again n s = (false, s)
after_read read_failed n s = (true, s)

module _ (scale : FloatScale) where
  -- The system writes at most as many bytes as there is room, and the buffer is cut after them. The result
  -- is whether there was an error.
  unfoldable pub read_ready : ReadResult → FileBuf → Outcome (Bool × FileBuf)
  read_ready r s = do
    let limit = read_limit s
    let i = len s.rx_buffer
    room ← resize scale 0 s.rx_buffer limit
    let bytes = take (len room - i) (read_result r)
    filled ← if ltb (len room) i then panic index_out_of_range else copy_at i bytes room
    rx ← reslice filled (i + length bytes)
    ok (after_read r (length bytes) (record s { max_read_bytes = limit; rx_buffer = rx }))

  unfoldable pub write : List ℕ → FileBuf → Outcome (ℕ × FileBuf)
  write p s = do
    let i = len s.tx_buffer
    let more : Outcome (ℕ × FileBuf) = do
      room ← resize scale 0 s.tx_buffer (length p)
      tx ← copy_at i p room
      ok (length p, record s { tx_buffer = tx; updates = suc s.updates })
    if ltb 0 (length p) then more else ok (length p, s)

-- The file after n bytes were written.
unfoldable pub written : ℕ → FileBuf → FileBuf
written n s =
    let v = s.tx_buffer in
    let l = len v in
    let moved : Vec ℕ = record {
      items = drop n v.items;
      spare = drop (l - n) v.items ++ v.spare;
    } in
    let tx : Vec ℕ = if n == l then cut v 0 else if ltb 0 n then moved else v in
    record s { tx_buffer = tx; updates = suc s.updates }

-- The results are whether there was an error, and the bytes that the system took.
unfoldable pub ask : WriteResult → FileBuf → Outcome (Bool × List ℕ × FileBuf)
ask (wrote n) s =
    if ltb (len s.tx_buffer) n
    then panic index_out_of_range
    else ok (false, take n s.tx_buffer.items, written n s)
ask write_again s = ok (false, [], s)
ask write_failed s = ok (true, [], s)

-- Nothing is asked of the system when the file is closed or the buffer is empty.
unfoldable pub write_ready : WriteResult → FileBuf → Outcome (Bool × List ℕ × FileBuf)
write_ready r s = elim s.fd [
  | none ↦ ok (false, [], s)
  | some fd ↦ if ltb 0 (len s.tx_buffer) then ask r s else ok (false, [], s)
]

unfoldable pub write_available : FileBuf → Bool
write_available s = ltb 0 (len s.tx_buffer)
