-- ===== src/Buf/Links.antt =====
-- hw/buf.go: LinkRefs makes references of one list follow those of another.
use elib.Base.{
  ℕ, List, [], ◌∷◌, Option, none, some, Outcome, ok, panic, index_out_of_range, ◌==◌, if◌then◌else◌,
}
use elib.Buf.{RefHeader, Dma, offset, set_flags, next_valid}

abbrev put_next : ℕ → RefHeader → Dma → Dma
put_next o r dma = record dma {
  buffers = λ p. if o == p then record (dma.buffers p) { next_ref = r } else dma.buffers p;
}

-- With references before them: the flag is set in the header of the buffer of each.
unfoldable pub link_after : List RefHeader → List RefHeader → List RefHeader → Dma → Outcome Dma
link_after (a ∷ before) (b ∷ bs) (c ∷ cs) dma =
    let next = (dma.buffers (offset a)).next_ref in
    link_after before bs cs
      (put_next (offset b) c (put_next (offset a) (set_flags next_valid next) dma))
link_after _ [] _ dma = ok dma
link_after _ _ _ dma = panic index_out_of_range

-- `for n_left > 0`; the flag is set in each reference of the first list.
unfoldable pub link_ones : List RefHeader → List RefHeader → Dma → Outcome (List RefHeader × Dma)
link_ones (b ∷ bs) (c ∷ cs) dma = elim (link_ones bs cs (put_next (offset b) c dma)) [
  | ok (bs', dma') ↦ ok (set_flags next_valid b ∷ bs', dma')
  | panic e ↦ panic e
]
link_ones [] _ dma = ok ([], dma)
link_ones (b ∷ bs) [] dma = panic index_out_of_range

-- `for n_left >= 4`
unfoldable pub link_fours : List RefHeader → List RefHeader → Dma → Outcome (List RefHeader × Dma)
link_fours (b0 ∷ b1 ∷ b2 ∷ b3 ∷ bs) (c0 ∷ c1 ∷ c2 ∷ c3 ∷ cs) dma =
    let dma' =
      put_next (offset b3) c3
        (put_next (offset b2) c2 (put_next (offset b1) c1 (put_next (offset b0) c0 dma))) in
    elim (link_fours bs cs dma') [
      | ok (bs', dma'') ↦ ok (
        set_flags next_valid b0
            ∷ set_flags next_valid b1
            ∷ set_flags next_valid b2
            ∷ set_flags next_valid b3
            ∷ bs',
        dma'',
      )
      | panic e ↦ panic e
    ]
link_fours bs cs dma = link_ones bs cs dma

unfoldable pub link_refs :
    Option (List RefHeader) → List RefHeader → List RefHeader → Dma → Outcome (List RefHeader × Dma)
link_refs none bs cs dma = link_fours bs cs dma
link_refs (some before) bs cs dma = elim (link_after before bs cs dma) [
  | ok dma' ↦ ok (bs, dma')
  | panic e ↦ panic e
]
