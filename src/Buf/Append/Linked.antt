-- ===== src/Buf/Append/Linked.antt =====
-- hw/buf.go: Append of references without a next one.
use mathlib.Core.List.{Memᴰ}
use mathlib.Core.Path.{subst}
use elib.Base.{
  ℕ, ◌≡◌, ◌≢◌, ◌⊎◌, inl, inr, refl, ap, sym, ◌∙◌, true, false, some, List, [], ◌∷◌, ◌++◌, ==_refl,
  ne→==, if_true, if_false,
}
use elib.Buf.{RefHeader, Buffer, Dma, offset, next_is_valid, set_flags, next_valid}
use elib.Buf.Headers.{IsHeader, set_flags-IsHeader, offset-set_flags, next_is_valid-set_flags}
use elib.Buf.Append.{Slot, head, next_of, RefChain, read_slot, write_slot, flag_slot}

read-write_self :
    (p : Slot) (r : RefHeader) (s : Dma × RefChain) → read_slot p (write_slot p r s) ≡ r
unfolding read_slot write_slot
read-write_self head r (dma, c) = refl
read-write_self (next_of o) r (dma, c) =
    ap Buffer.next_ref
      (if_true (record (dma.buffers o) { next_ref = r }) (dma.buffers o) (==_refl o))

read-write_other :
    (p q : Slot) (r : RefHeader) (s : Dma × RefChain)
    → p ≢ q
    → read_slot q (write_slot p r s) ≡ read_slot q s
unfolding read_slot write_slot
read-write_other head head r (dma, c) n = absurd (n refl)
read-write_other head (next_of o) r (dma, c) n = refl
read-write_other (next_of o) head r (dma, c) n = refl
read-write_other (next_of o) (next_of o') r (dma, c) n = ap Buffer.next_ref (
    if_false (record (dma.buffers o') { next_ref = r }) (dma.buffers o')
      (ne→== o o' (λ e. n (ap next_of e))))

-- Where the bytes of a reference are: the offsets of its buffer and of its bytes, and their number.
abbrev pub Entry : Type 0
Entry = ℕ × ℕ × ℕ

abbrev pub entry : RefHeader → Entry
entry r = (offset r, r.data_offset, r.data_len)

-- The chain from slot `p` on, its last slot and the offset of its last buffer.
pub data Held (s : Dma × RefChain) : Slot → List Entry → Slot → ℕ → Type 0 where
  one :
      {p t : Slot} {h : Entry} {o : ℕ}
      → IsHeader (read_slot p s)
      → entry (read_slot p s) ≡ h
      → next_is_valid (read_slot p s) ≡ false
      → p ≡ t
      → h.0 ≡ o
      → Held s p (h ∷ []) t o
  more :
      {p t : Slot} {h : Entry} {hs : List Entry} {o : ℕ}
      → IsHeader (read_slot p s)
      → entry (read_slot p s) ≡ h
      → next_is_valid (read_slot p s) ≡ true
      → Held s (next_of h.0) hs t o
      → Held s p (h ∷ hs) t o

abbrev pub NotIn : ℕ → List Entry → Type 0
NotIn o hs = (h : Entry) → Memᴰ h hs → h.0 ≢ o

abbrev pub IsDistinct : List Entry → Type 0
IsDistinct [] = Unit
IsDistinct (h ∷ hs) = NotIn h.0 hs × IsDistinct hs

end-Memᴰ :
    (s : Dma × RefChain) (p : Slot) (hs : List Entry) (t : Slot) (o : ℕ)
    → Held s p hs t o
    → (h : Entry) × Memᴰ h hs × (h.0 ≡ o)
end-Memᴰ s p _ t o (one {h} a b c d e) = (h, Memᴰ.head refl, e)
end-Memᴰ s p _ t o (more {h} {hs} a b c k) =
    let (x, m, e) = end-Memᴰ s (next_of h.0) hs t o k in (x, Memᴰ.tail m, e)

slot-Memᴰ :
    (s : Dma × RefChain) (p : Slot) (hs : List Entry) (t : Slot) (o : ℕ)
    → Held s p hs t o
    → (p ≡ t) ⊎ ((h : Entry) × Memᴰ h hs × (t ≡ next_of h.0))
slot-Memᴰ s p _ t o (one a b c d e) = inl d
slot-Memᴰ s p _ t o (more {h} {hs} a b c k) = elim (slot-Memᴰ s (next_of h.0) hs t o k) [
  | inl e ↦ inr (h, Memᴰ.head refl, sym e)
  | inr (x, m, e) ↦ inr (x, Memᴰ.tail m, e)
]

-- Only the slots of the chain matter.
pub Held-same :
    (s s' : Dma × RefChain) (p : Slot) (hs : List Entry) (t : Slot) (o : ℕ)
    → ((q : Slot) → read_slot q s' ≡ read_slot q s)
    → Held s p hs t o
    → Held s' p hs t o
Held-same s s' p _ t o f (one a b c d e) =
    one (subst IsHeader (sym (f p)) a) (ap entry (f p) ∙ b) (ap next_is_valid (f p) ∙ c) d e
Held-same s s' p _ t o f (more {h} {hs} a b c k) =
    more (subst IsHeader (sym (f p)) a) (ap entry (f p) ∙ b) (ap next_is_valid (f p) ∙ c)
      (Held-same s s' (next_of h.0) hs t o f k)

-- The reference `r` is written after the chain, and the last one gets the flag.
unfoldable pub extended : Slot → ℕ → RefHeader → Dma × RefChain → Dma × RefChain
extended t o r s = flag_slot (some t) (write_slot (next_of o) r s)

module _ (s : Dma × RefChain) (r : RefHeader) (good : IsHeader r)
    (alone : next_is_valid r ≡ false) where
  read-extended_other :
      (t : Slot) (o : ℕ) (q : Slot)
      → t ≢ q
      → next_of o ≢ q
      → read_slot q (extended t o r s) ≡ read_slot q s
  unfolding extended flag_slot
  read-extended_other t o q a b =
      let s1 = write_slot (next_of o) r s in
      read-write_other t q (set_flags next_valid (read_slot t s1)) s1 a
      ∙ read-write_other (next_of o) q r s b

  read-extended_last :
      (t : Slot) (o : ℕ)
      → next_of o ≢ t
      → read_slot t (extended t o r s) ≡ set_flags next_valid (read_slot t s)
  unfolding extended flag_slot
  read-extended_last t o b =
      let s1 = write_slot (next_of o) r s in
      read-write_self t (set_flags next_valid (read_slot t s1)) s1
      ∙ ap (set_flags next_valid) (read-write_other (next_of o) t r s b)

  read-extended_new :
      (t : Slot) (o : ℕ) → t ≢ next_of o → read_slot (next_of o) (extended t o r s) ≡ r
  unfolding extended flag_slot
  read-extended_new t o b =
      let s1 = write_slot (next_of o) r s in
      read-write_other t (next_of o) (set_flags next_valid (read_slot t s1)) s1 b
      ∙ read-write_self (next_of o) r s

  pub Held-extended :
      (p : Slot) (hs : List Entry) (t : Slot) (o : ℕ)
      → Held s p hs t o
      → IsDistinct hs
      → ((h : Entry) → Memᴰ h hs → p ≢ next_of h.0)
      → Held (extended t o r s) p (hs ++ entry r ∷ []) (next_of o) (offset r)
  unfolding set_flags
  Held-extended p _ t o (one {h} a b c d e) distinct apart =
      let away : next_of o ≢ p = λ f. apart h (Memᴰ.head refl) (sym f ∙ ap next_of (sym e)) in
      let away' : next_of o ≢ t = λ f. away (f ∙ sym d) in
      let last : read_slot p (extended t o r s) ≡ set_flags next_valid (read_slot p s) =
        ap (λ q. read_slot q (extended t o r s)) d
        ∙ read-extended_last t o away'
        ∙ ap (λ q. set_flags next_valid (read_slot q s)) (sym d) in
      let new : read_slot (next_of h.0) (extended t o r s) ≡ r =
        ap (λ i. read_slot (next_of i) (extended t o r s)) e
        ∙ read-extended_new t o (λ f. away' (sym f)) in
      more (subst IsHeader (sym last) (set_flags-IsHeader (read_slot p s) a))
        (ap entry last
          ∙ ap (λ x. (x, (read_slot p s).data_offset, (read_slot p s).data_len))
              (offset-set_flags (read_slot p s) a)
          ∙ b)
        (ap next_is_valid last ∙ next_is_valid-set_flags (read_slot p s))
        (one (subst IsHeader (sym new) good) (ap entry new) (ap next_is_valid new ∙ alone)
          (ap next_of e) refl)
  Held-extended p _ t o (more {h} {hs} a b c k) (fresh, distinct) apart =
      let away : t ≢ p = elim (slot-Memᴰ s (next_of h.0) hs t o k) [
        | inl e ↦ λ f. apart h (Memᴰ.head refl) (sym f ∙ sym e)
        | inr (x, m, e) ↦ λ f. apart x (Memᴰ.tail m) (sym f ∙ e)
      ] in
      let away' : next_of o ≢ p =
        let (x, m, e) = end-Memᴰ s (next_of h.0) hs t o k in
        λ f. apart x (Memᴰ.tail m) (sym f ∙ ap next_of (sym e)) in
      let same : read_slot p (extended t o r s) ≡ read_slot p s =
        read-extended_other t o p away away' in
      more (subst IsHeader (sym same) a) (ap entry same ∙ b) (ap next_is_valid same ∙ c)
        (Held-extended (next_of h.0) hs t o k distinct (λ x m f. fresh x m (cc)))
