-- ===== src/Buf/Append/One.antt =====
-- hw/buf.go: Append of one reference that has no next one.
use mathlib.Core.List.{Memᴰ}
use mathlib.Core.List.Memᴰ
use elib.Base.{
  ℕ, suc, ◌+◌, ◌%◌, ◌^◌, ◌≡◌, inl, inr, refl, ap, ap₂, sym, ◌∙◌, false, none, some, List, [], ◌∷◌,
  ◌++◌, ok, arith, if_false,
}
use elib.Buf.{RefHeader, Dma, offset, next_is_valid}
use elib.Buf.Headers.{IsHeader, next_ref_of_lem}
use elib.Buf.Append.{
  Slot, head, next_of, RefChain, read_slot, write_slot, flag_slot, append_loop, append_ref, add_len,
  tail_slot,
}
use elib.Buf.Append.Linked.{
  Entry, entry, Held, one, Held-same, NotIn, IsDistinct, extended, Held-extended,
}

abbrev pub entries_len : List Entry → ℕ
entries_len [] = 0
entries_len (h ∷ hs) = h.2 + entries_len hs

-- A chain with at least one reference.
pub record IsRefChain (s : Dma × RefChain) (hs : List Entry) : Type 0 where
  pub last_slot : Slot
  pub last_offset : ℕ
  pub held : Held s head hs last_slot last_offset
  pub at_tail : s.1.tail ≡ some (next_of last_offset)
  pub at_prev_tail : s.1.prev_tail ≡ some last_slot
  pub distinct : IsDistinct hs
  pub counted : s.1.len ≡ entries_len hs % 2 ^ 32

entries_len-append : (hs ks : List Entry) → entries_len (hs ++ ks) ≡ entries_len hs + entries_len ks
entries_len-append [] ks = omega arith
entries_len-append (h ∷ hs) ks = omega (arith, entries_len-append hs ks)

IsDistinct-append :
    (hs : List Entry) (h : Entry) → IsDistinct hs → NotIn h.0 hs → IsDistinct (hs ++ h ∷ [])
IsDistinct-append [] h d n = (λ x m. absurd (Memᴰ.not-nil m), tt)
IsDistinct-append (k ∷ hs) h (f, d) n = (
  λ x m. elim (Memᴰ.append_cases hs m) [
    | inl earlier ↦ f x earlier
    | inr new ↦
        λ e. n k (Memᴰ.head refl) (sym e ∙ ap (λ (y : Entry). y.0) (Memᴰ.eq_of_singleton new))
  ],
  IsDistinct-append hs h d (λ x m. n x (Memᴰ.tail m)),
)

-- The loop ends at once, as the reference has no next one.
append_ref_alone :
    (r : RefHeader) (fuel : ℕ) (slot : Slot) (s : Dma × RefChain)
    → next_is_valid r ≡ false
    → append_loop (suc fuel) slot r s
      ≡ ok (s.0, record (s.1) { prev_tail = some slot; tail = some (next_of (offset r)) })
unfolding append_loop
append_ref_alone r fuel slot (dma, c) alone =
    rw (next_ref_of_lem dma r ∙ if_false _ _ alone, append_loop) refl

abbrev pointed : Slot → RefHeader → Dma × RefChain → Dma × RefChain
pointed slot r s = (s.0, record (s.1) { prev_tail = some slot; tail = some (next_of (offset r)) })

read-pointed :
    (slot : Slot) (r : RefHeader) (s : Dma × RefChain) (q : Slot)
    → read_slot q (pointed slot r s) ≡ read_slot q s
unfolding read_slot
read-pointed slot r (dma, c) head = refl
read-pointed slot r (dma, c) (next_of o) = refl

read-add_len :
    (r : RefHeader) (dma : Dma) (c : RefChain) (q : Slot)
    → read_slot q (dma, add_len r c) ≡ read_slot q (dma, c)
unfolding read_slot add_len
read-add_len r dma c head = refl
read-add_len r dma c (next_of o) = refl

len-extended :
    (t : Slot) (o : ℕ) (r : RefHeader) (s : Dma × RefChain)
    → ((extended t o r s).1.len ≡ s.1.len) × ((extended t o r s).0.bytes ≡ s.0.bytes)
unfolding extended flag_slot write_slot
len-extended head o r (dma, c) = (refl, refl)
len-extended (next_of p) o r (dma, c) = (refl, refl)

-- One more reference.
pub append_ref-IsRefChain :
    (fuel : ℕ) (r : RefHeader) (s : Dma × RefChain) (hs : List Entry)
    → IsRefChain s hs
    → IsHeader r
    → next_is_valid r ≡ false
    → NotIn (offset r) hs
    → (s' : Dma × RefChain) × (append_ref (suc fuel) r s ≡ ok s')
      × IsRefChain s' (hs ++ entry r ∷ [])
      × (s'.0.bytes ≡ s.0.bytes)
unfolding append_ref extended add_len
append_ref-IsRefChain fuel r (dma, c) hs k good alone fresh =
    let t = k.last_slot in
    let o = k.last_offset in
    let s0 : Dma × RefChain = (dma, add_len r c) in
    let s1 = extended t o r s0 in
    let s' = pointed (next_of o) r s1 in
    let same = Held-same (dma, c) s0 head hs t o (read-add_len r dma c) k.held in
    (
      s',
      ap₂
            (λ u v.
              append_loop (suc fuel) (tail_slot u) r (flag_slot v (write_slot (tail_slot u) r s0)))
            k.at_tail k.at_prev_tail
          ∙ append_ref_alone r fuel (next_of o) s1 alone,
      record {
        last_slot = next_of o;
        last_offset = offset r;
        held =
            Held-same s1 s' head (hs ++ entry r ∷ []) (next_of o) (offset r)
              (read-pointed (next_of o) r s1)
              (Held-extended s0 r good alone head hs t o same k.distinct (λ h m e. cc e));
        at_tail = refl;
        at_prev_tail = refl;
        distinct = IsDistinct-append hs (entry r) k.distinct fresh;
        counted =
            omega
              (arith, (len-extended t o r s0).0, k.counted, entries_len-append hs (entry r ∷ []));
      },
      (len-extended t o r s0).1,
    )

abbrev pub empty_chain : RefHeader → RefChain
empty_chain r = record { len = 0; count = 0; first = r; tail = none; prev_tail = none }

-- The first reference.
pub append_ref-first :
    (fuel : ℕ) (r r0 : RefHeader) (dma : Dma)
    → IsHeader r
    → next_is_valid r ≡ false
    → (s' : Dma × RefChain) × (append_ref (suc fuel) r (dma, empty_chain r0) ≡ ok s')
      × IsRefChain s' (entry r ∷ [])
      × (s'.0.bytes ≡ dma.bytes)
unfolding append_ref add_len write_slot flag_slot read_slot
append_ref-first fuel r r0 dma good alone =
    let s1 : Dma × RefChain = write_slot head r (dma, add_len r (empty_chain r0)) in
    (
      pointed head r s1,
      append_ref_alone r fuel head s1 alone,
      record {
        last_slot = head;
        last_offset = offset r;
        held = one good refl alone refl refl;
        at_tail = refl;
        at_prev_tail = refl;
        distinct = (λ h m. absurd (Memᴰ.not-nil m), tt);
        counted = omega arith;
      },
      refl,
    )
