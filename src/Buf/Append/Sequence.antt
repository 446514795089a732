-- ===== src/Buf/Append/Sequence.antt =====
-- hw/buf.go: a chain built by Append, read back by ChainLen and ChainSlice.
use mathlib.Core.List.{Memᴰ, append-nil, append_assoc}
use mathlib.Core.List.Memᴰ
use mathlib.Core.Path.{subst}
use elib.Base.{
  ℕ, suc, ◌+◌, ◌%◌, ◌^◌, ◌<◌, ◌≡◌, inl, inr, refl, ap, ap₂, sym, ◌∙◌, false, some, List, [], ◌∷◌,
  ◌++◌, Outcome, ok, ◌>>=◌, arith, if_true, if_false, length, map,
}
use elib.Buf.{
  RefHeader, Dma, next_is_valid, get_buffer, chain_len, chain_slice, data_slice, data_start,
  read_bytes,
}
use elib.Buf.Headers.{IsHeader, next_ref_of_lem}
use elib.Buf.Walks.{
  Chain, last, link, total_len, all_bytes, chain_slice-chain_len, length-all_bytes,
}
use elib.Buf.Append.{Slot, head, next_of, RefChain, read_slot, append_ref}
use elib.Buf.Append.Linked.{Entry, entry, Held, one, more, NotIn, IsDistinct}
use elib.Buf.Append.One.{
  entries_len, IsRefChain, append_ref-IsRefChain, empty_chain, append_ref-first,
}

-- Append of each reference in turn.
unfoldable pub append_all : List RefHeader → Dma × RefChain → Outcome (Dma × RefChain)
append_all [] s = ok s
append_all (r ∷ rs) s = append_ref 1 r s >>= append_all rs

-- References without a next one.
abbrev pub AreAlone : List RefHeader → Type 0
AreAlone [] = Unit
AreAlone (r ∷ rs) = IsHeader r × (next_is_valid r ≡ false) × AreAlone rs

append_all-IsRefChain :
    (rs : List RefHeader) (s : Dma × RefChain) (hs : List Entry)
    → IsRefChain s hs
    → AreAlone rs
    → IsDistinct (map entry rs)
    → ((r : Entry) → Memᴰ r (map entry rs) → NotIn r.0 hs)
    → (s' : Dma × RefChain) × (append_all rs s ≡ ok s')
      × IsRefChain s' (hs ++ map entry rs)
      × (s'.0.bytes ≡ s.0.bytes)
unfolding append_all
append_all-IsRefChain [] s hs k a d f =
    (s, refl, subst (IsRefChain s) (sym (append-nil hs)) k, refl)
append_all-IsRefChain (r ∷ rs) s hs k (good, alone, a) (n, d) f =
    let (s1, e, k1, b) =
      append_ref-IsRefChain 0 r s hs k good alone (f (entry r) (Memᴰ.head refl)) in
    let (s2, e', k2, b') = append_all-IsRefChain rs s1 (hs ++ entry r ∷ []) k1 a d (λ x m y q.
      elim (Memᴰ.append_cases hs q) [
        | inl old ↦ f x (Memᴰ.tail m) y old
        | inr new ↦ λ g. n x m (sym g ∙ ap (λ (z : Entry). z.0) (Memᴰ.eq_of_singleton new))
      ]) in
    (s2, rw e e', subst (IsRefChain s2) (append_assoc hs (entry r ∷ []) (map entry rs)) k2, b' ∙ b)

-- The references that a walk meets.
abbrev HasEntries : List RefHeader → List Entry → Type 0
HasEntries [] [] = Unit
HasEntries [] (h ∷ hs) = ⊥
HasEntries (r ∷ rs) [] = ⊥
HasEntries (r ∷ rs) (h ∷ hs) = (entry r ≡ h) × HasEntries rs hs

Held-Chain :
    (s : Dma × RefChain) (p : Slot) (hs : List Entry) (t : Slot) (o : ℕ)
    → Held s p hs t o
    → (rs : List RefHeader) × Chain (s.0) (read_slot p s) rs × HasEntries rs hs
unfolding get_buffer read_slot
Held-Chain (dma, c) p _ t o (one a b v d e) =
    let r = read_slot p (dma, c) in (r ∷ [], last (next_ref_of_lem dma r ∙ if_false _ _ v), (b, tt))
Held-Chain (dma, c) p _ t o (more {h} {hs} a b v k) =
    let r = read_slot p (dma, c) in
    let (rs, chain, es) = Held-Chain (dma, c) (next_of h.0) hs t o k in
    (
      r ∷ rs,
      link
          (next_ref_of_lem dma r
            ∙ if_true _ _ v
            ∙ ap (λ (x : Entry). some ((dma.buffers x.0).next_ref)) b)
          chain,
      (b, es),
    )

abbrev entry_bytes : (ℕ → ℕ) → Entry → List ℕ
entry_bytes bytes h = read_bytes bytes ((h.0 + h.1) % 2 ^ 32) h.2

abbrev entries_bytes : (ℕ → ℕ) → List Entry → List ℕ
entries_bytes bytes [] = []
entries_bytes bytes (h ∷ hs) = entry_bytes bytes h ++ entries_bytes bytes hs

HasEntries-all_bytes :
    (dma : Dma) (rs : List RefHeader) (hs : List Entry)
    → HasEntries rs hs
    → (all_bytes dma rs ≡ entries_bytes dma.bytes hs)
      × (total_len rs ≡ entries_len hs)
      × (length rs ≡ length hs)
unfolding data_slice data_start
HasEntries-all_bytes dma [] [] e = (refl, refl, refl)
HasEntries-all_bytes dma (r ∷ rs) (h ∷ hs) (e, es) =
    let (b, n, l) = HasEntries-all_bytes dma rs hs es in
    (ap₂ (λ x y. entry_bytes dma.bytes x ++ y) e b, ap₂ (λ (x : Entry) y. x.2 + y) e n, ap suc l)
HasEntries-all_bytes dma [] (h ∷ hs) e = absurd e
HasEntries-all_bytes dma (r ∷ rs) [] e = absurd e

HasEntries-map : (rs : List RefHeader) → HasEntries rs (map entry rs)
HasEntries-map [] = tt
HasEntries-map (r ∷ rs) = (refl, HasEntries-map rs)

-- What a chain with these references reads as.
IsRefChain-walks :
    (s : Dma × RefChain) (dma : Dma) (rs : List RefHeader)
    → IsRefChain s (map entry rs)
    → s.0.bytes ≡ dma.bytes
    → total_len rs < 2 ^ 32
    → (chain_slice s.0 (length rs) s.1.first [] ≡ ok (all_bytes dma rs))
      × (chain_len s.0 (length rs) s.1.first 0 ≡ ok s.1.len)
unfolding read_slot
IsRefChain-walks (dma', c) dma rs k same fit =
    let hs = map entry rs in
    let (ks, chain, es) = Held-Chain (dma', c) head hs k.last_slot k.last_offset k.held in
    let (b, n, l) = HasEntries-all_bytes dma' ks hs es in
    let (b', n', l') = HasEntries-all_bytes dma rs hs (HasEntries-map rs) in
    let (slice, len) =
      chain_slice-chain_len dma' c.first ks (length rs) chain (omega (arith, l, l'))
        (omega (arith, n, n', fit)) in
    (
      slice ∙ ap ok (b ∙ ap (λ f. entries_bytes f hs) same ∙ sym b'),
      len ∙ ap ok (length-all_bytes dma' ks ∙ omega (arith, n, n', fit, k.counted)),
    )

-- References are appended one after another to an empty chain. None of them has a next one, no two are
-- to the same buffer, and their lengths add up to less than 2^32. Then ChainSlice of the chain returns
-- their bytes in the order of the calls, and ChainLen is the length that the chain has counted.
pub append_all-walks :
    (r : RefHeader) (rs : List RefHeader) (r0 : RefHeader) (dma : Dma)
    → AreAlone (r ∷ rs)
    → IsDistinct (map entry (r ∷ rs))
    → total_len (r ∷ rs) < 2 ^ 32
    → (s : Dma × RefChain) × (append_all (r ∷ rs) (dma, empty_chain r0) ≡ ok s)
      × (chain_slice s.0 (length (r ∷ rs)) s.1.first [] ≡ ok (all_bytes dma (r ∷ rs)))
      × (chain_len s.0 (length (r ∷ rs)) s.1.first 0 ≡ ok s.1.len)
unfolding append_all
append_all-walks r rs r0 dma (good, alone, a) (n, d) fit =
    let (s1, e, k, b) = append_ref-first 0 r r0 dma good alone in
    let (s2, e', k', b') =
      append_all-IsRefChain rs s1 (entry r ∷ []) k a d
        (λ x m y q f. n x m (sym f ∙ ap (λ (z : Entry). z.0) (Memᴰ.eq_of_singleton q))) in
    let (slice, len) = IsRefChain-walks s2 dma (r ∷ rs) k' (b' ∙ b) fit in (s2, rw e e', slice, len)
