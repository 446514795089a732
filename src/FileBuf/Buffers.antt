-- ===== src/FileBuf/Buffers.antt =====
-- iomux/filebuf.go: what Read, Write and the calls of the poller do to the bytes in the buffers.
use mathlib.Core.List.{append-nil}
use elib.Base.{
  ℕ, suc, ◌+◌, ◌-◌, ◌^◌, ◌≤◌, ◌≡◌, refl, sym, ap, ◌∙◌, Bool, List, [], ◌∷◌, ◌++◌, ok, length, take,
  drop, ◌==◌, if_true, if_false, Bool-cases, inl, inr, take-append-drop, take-append, arith, lt→ltb,
  le→ltb, length-append, length-take, length-drop,
}
use elib.Cap.{FloatScale}
use elib.Vec.{Vec, cells, capacity, len, cut}
use elib.Vec.Keep.{reslice-ok, capacity-cut}
use elib.Vec.Resize.{take-take, Resized, resize-Resized}
use elib.FileBuf.{
  FileBuf, ReadResult, got, read_again, read_failed, read_result, close, read_limit, read_ready,
  write, copy_at, after_read,
}

-- The bytes are copied after those that were there.
copy_at-after :
    (v room : Vec ℕ) (n : ℕ) (p : List ℕ)
    → Resized v n room
    → length p ≤ n
    → (w : Vec ℕ) × (copy_at (len v) p room ≡ ok w)
      × (take (len v + length p) (cells w) ≡ v.items ++ p)
      × (capacity w ≡ capacity room)
      × (len w ≡ len room)
unfolding copy_at
copy_at-after v room n p r fit =
    let i = len v in
    let c = (take i (cells room) ++ p) ++ drop (i + length p) (cells room) in
    let room_size = length-append room.items room.spare in
    let front : take i (cells room) ≡ v.items =
      sym (take-take i (len room) (cells room) (omega (arith, r.longer)))
      ∙ ap (take i) (take-append room.items room.spare)
      ∙ r.kept in
    let size : length c ≡ capacity room =
      length-append (take i (cells room) ++ p) (drop (i + length p) (cells room))
      ∙ omega (
        arith,
        ap length front,
        length-append (take i (cells room)) p,
        length-drop (i + length p) (cells room),
        room_size,
        r.longer,
        fit,
      ) in
    let whole = take-append-drop (len room) c in
    (
      record { items = take (len room) c; spare = drop (len room) c },
      if_false _ _ (le→ltb (capacity room) (i + length p) (omega (arith, r.longer, fit))),
      ap (take (i + length p))
            (whole ∙ ap (λ x. (x ++ p) ++ drop (i + length p) (cells room)) front)
          ∙ ap (λ k. take k ((v.items ++ p) ++ drop (i + length p) (cells room)))
              (sym (length-append v.items p))
          ∙ take-append (v.items ++ p) (drop (i + length p) (cells room)),
      sym (length-append (take (len room) c) (drop (len room) c)) ∙ ap length whole ∙ size,
      length-take (len room) c ∙ omega (arith, size),
    )

after_read-buffers :
    (r : ReadResult) (n : ℕ) (s : FileBuf)
    → ((after_read r n s).1.rx_buffer ≡ s.rx_buffer)
      × ((after_read r n s).1.tx_buffer ≡ s.tx_buffer)
unfolding after_read close
after_read-buffers (got l) n s = elim (Bool-cases (n == 0)) [
  | inl z ↦ rw z (refl, refl)
  | inr z ↦ rw z (refl, refl)
]
after_read-buffers read_again n s = (refl, refl)
after_read-buffers read_failed n s = (refl, refl)

module _ (scale : FloatScale) where
  pub write-appends :
      (p : List ℕ) (s : FileBuf)
      → capacity s.tx_buffer ≤ 2 ^ 31
      → len s.tx_buffer + length p ≤ 2 ^ 29
      → (k : ℕ) × (s' : FileBuf) × (write scale p s ≡ ok (k, s'))
        × (s'.tx_buffer.items ≡ s.tx_buffer.items ++ p)
        × (s'.rx_buffer ≡ s.rx_buffer)
        × (capacity s'.tx_buffer ≤ 2 ^ 31)
  unfolding write
  write-appends [] s le lt = (0, s, refl, sym (append-nil s.tx_buffer.items), refl, le)
  write-appends (b ∷ bs) s le lt =
      let p = b ∷ bs in
      let (room, e, r) = resize-Resized scale 0 s.tx_buffer (length p) le lt in
      let (w, e', bytes, same, size) =
        copy_at-after s.tx_buffer room (length p) p r (omega arith) in
      let all : w.items ≡ s.tx_buffer.items ++ p =
        sym (take-append w.items w.spare) ∙ ap (λ k. take k (cells w)) (size ∙ r.longer) ∙ bytes in
      (
        length p,
        record s { tx_buffer = w; updates = suc s.updates },
        if_true _ _ (lt→ltb 0 (length p) (omega arith)) ∙ rw (e, e') refl,
        all,
        refl,
        omega (arith, same, r.small),
      )

  pub read_ready-appends :
      (r : ReadResult) (s : FileBuf)
      → capacity s.rx_buffer ≤ 2 ^ 31
      → len s.rx_buffer + read_limit s ≤ 2 ^ 29
      → (e : Bool) × (s' : FileBuf) × (read_ready scale r s ≡ ok (e, s'))
        × (s'.rx_buffer.items ≡ s.rx_buffer.items ++ take (read_limit s) (read_result r))
        × (s'.tx_buffer ≡ s.tx_buffer)
        × (capacity s'.rx_buffer ≤ 2 ^ 31)
  unfolding read_ready
  read_ready-appends r s le lt =
      let v = s.rx_buffer in
      let limit = read_limit s in
      let (room, e, big) = resize-Resized scale 0 v limit le lt in
      let bytes = take limit (read_result r) in
      let few : length bytes ≤ limit = omega (arith, length-take limit (read_result r)) in
      let (w, e', front, same, size) = copy_at-after v room limit bytes big few in
      let more : len room - len v ≡ limit = omega (arith, big.longer) in
      let fits : len v + length bytes ≤ capacity w = omega (arith, few, same, big.longer) in
      let rx = cut w (len v + length bytes) in
      let small : capacity rx ≤ 2 ^ 31 =
        omega (arith, capacity-cut 0 w (len v + length bytes), same, big.small) in
      let s' = record s { max_read_bytes = limit; rx_buffer = rx } in
      let run : read_ready scale r s ≡ ok (after_read r (length bytes) s') =
        rw
          (
            e,
            more,
            le→ltb (len room) (len v) (omega (arith, big.longer)),
            e',
            reslice-ok 0 w (len v + length bytes) fits,
          )
          refl in
      let (to_rx, to_tx) = after_read-buffers r (length bytes) s' in
      (
        (after_read r (length bytes) s').0,
        (after_read r (length bytes) s').1,
        run,
        ap Vec.items to_rx ∙ front,
        to_tx,
        omega (arith, ap (λ (x : Vec ℕ). capacity x) to_rx, small),
      )
