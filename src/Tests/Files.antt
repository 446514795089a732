-- ===== src/Tests/Files.antt =====
-- A file that writes three bytes and reads two.
use elib.Base.{replicate, ℕ, ◌≡◌, refl, true, false, List, [], ◌∷◌, ok, arith}
use elib.FileBuf.{FileBuf, pos, got, wrote, new_file_buf}
use elib.FileBuf.Queue.{Call, reads, writes, ready_to_read, ready_to_write, History}
use elib.FileBuf.Drain.{rounds, rounds-drained}

-- At most four bytes are read at a time.
abbrev new_history : History
new_history = record {
  file = record (new_file_buf 3) { max_read_bytes = 4 };
  received = [];
  consumed = [];
  given = [];
  sent = [];
}

abbrev four_calls : List Call
four_calls =
    writes (1 ∷ 2 ∷ 3 ∷ [])
    ∷ ready_to_write (wrote 2)
    ∷ ready_to_read (got (7 ∷ 8 ∷ []))
    ∷ reads (pos 1)
    ∷ []

-- The history after the first calls.
abbrev after_write : History
after_write = record new_history {
  file = record (new_history.file) {
    tx_buffer = record { items = 1 ∷ 2 ∷ 3 ∷ []; spare = replicate 5 0 };
    updates = 1;
  };
  given = 1 ∷ 2 ∷ 3 ∷ [];
}

abbrev after_sent : History
after_sent = record after_write {
  file = record (after_write.file) {
    tx_buffer = record { items = 3 ∷ []; spare = 2 ∷ 3 ∷ replicate 5 0 };
    updates = 2;
  };
  sent = 1 ∷ 2 ∷ [];
}

abbrev after_received : History
after_received = record after_sent {
  file = record (after_sent.file) {
    rx_buffer = record { items = 7 ∷ 8 ∷ []; spare = replicate 6 0 };
  };
  received = 7 ∷ 8 ∷ [];
}

-- One byte at a time.
abbrev full_file : FileBuf
full_file = record (new_file_buf 3) { tx_buffer = record { items = 1 ∷ 2 ∷ 3 ∷ []; spare = [] } }

abbrev one_byte : List ℕ → ℕ
one_byte l = 1

rounds-drained_example :
    (s : FileBuf) × (rounds one_byte (true ∷ false ∷ true ∷ true ∷ []) full_file
      ≡ ok (1 ∷ 2 ∷ 3 ∷ [], s))
    × (s.tx_buffer.items ≡ [])
rounds-drained_example =
    rounds-drained one_byte (λ l h. (omega arith, h)) (true ∷ false ∷ true ∷ true ∷ []) full_file 3
      refl (omega arith)
