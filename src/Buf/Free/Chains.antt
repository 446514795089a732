-- ===== src/Buf/Free/Chains.antt =====
-- hw/buf.go: FreeRefs that follows the next references frees whole chains.
use mathlib.Core.List.{Memᴰ, append_assoc, append-nil}
use elib.Base.{
  ℕ, ◌≤◌, ◌≡◌, ◌≢◌, refl, sym, ap, ◌∙◌, Bool, true, false, List, [], ◌∷◌, ◌++◌, map, inl, inr, ok,
  ◌>>=◌, Outcome, length, if◌then◌else◌, Bool-cases, if_true, if_false,
}
use elib.Buf.{RefHeader, Ref, Buffer, Dma, offset, next_is_valid, ref_flag1, ref_flag4, next_valid}
use elib.Buf.Walks.{Chain}
use elib.Buf.Pools.{BufferTemplate}
use elib.Buf.States.{States}
use elib.Buf.Free.{Buffers, add_next, free_ones_next, free_refs_next}
use elib.Buf.Free.Reset.{reset, reset_all, made, free1_lem, free4_lem}
use elib.Buf.Free.Next.{ref_flag1_lem, ref_flag4-false, Untouched, add_next-Chain, Untouched-reset}

module _ (dma : Dma) where
  -- References with what follows each.
  abbrev pub heads : List (RefHeader × List RefHeader) → List RefHeader
  heads [] = []
  heads ((r, rest) ∷ cs) = r ∷ heads cs

  abbrev pub tails : List (RefHeader × List RefHeader) → List RefHeader
  tails [] = []
  tails ((r, rest) ∷ cs) = rest ++ tails cs

  -- Each is a chain; the first ones are to different buffers, and to none of those in `T`, where the
  -- references that follow are.
  abbrev pub AreChains : ℕ → List RefHeader → List (RefHeader × List RefHeader) → Type 0
  AreChains fuel T [] = Unit
  AreChains fuel T ((r, rest) ∷ cs) =
      Chain dma r (r ∷ rest)
      × (length rest ≤ fuel)
      × ((x : RefHeader) → Memᴰ x rest → Memᴰ x T)
      × ((x : RefHeader) → Memᴰ x (heads cs) → offset r ≢ offset x)
      × ((x : RefHeader) → Memᴰ x T → offset r ≢ offset x)
      × AreChains fuel T cs

  module _ (fuel : ℕ) (T : List RefHeader) (tmp : BufferTemplate) where
    unfoldable pub freed :
        List (RefHeader × List RefHeader)
        → Buffers
        → List RefHeader × States
        → Outcome (List Ref × Buffers × (List RefHeader × States))
    freed cs b (next, states) =
        ok (map (made tmp) (heads cs), reset_all tmp (heads cs) b, (next ++ tails cs, states))

    -- The references after the first one of a chain are added, whether or not a flag was seen.
    added :
        (r : RefHeader) (rest : List RefHeader) (b b' : Buffers) (next : List RefHeader)
        (states : States)
        → Chain dma r (r ∷ rest)
        → length rest ≤ fuel
        → ((x : RefHeader) → Memᴰ x rest → Memᴰ x T)
        → b (offset r) ≡ dma.buffers (offset r)
        → Untouched dma b' T
        → add_next false fuel r ((b (offset r)).next_ref) b' (next, states)
          ≡ ok (next ++ rest, states)
    added r rest b b' next states c few into same u =
        add_next-Chain dma fuel r ((b (offset r)).next_ref) (r ∷ rest) b' next states c few
          (ap Buffer.next_ref same) (λ x m. u x (into x m))

    unflagged :
        (r n : RefHeader) (b : Buffers) (s : List RefHeader × States)
        → next_is_valid r ≡ false
        → add_next false fuel r n b s ≡ ok s
    unfolding add_next
    unflagged r n b s v = if_false _ _ v

    free_ones_next-freed :
        (cs : List (RefHeader × List RefHeader)) (b : Buffers) (next : List RefHeader)
        (states : States)
        → AreChains fuel T cs
        → Untouched dma b (heads cs)
        → Untouched dma b T
        → free_ones_next false fuel tmp (heads cs) b (next, states) ≡ freed cs b (next, states)
    unfolding free_ones_next freed
    free_ones_next-freed [] b next states a h u =
        ap (λ l. ok ([], b, (l, states))) (sym (append-nil next))
    free_ones_next-freed ((r, rest) ∷ cs) b next states (c, few, into, apart, away, a) h u =
        let b' = reset tmp (offset r) b in
        let u' = Untouched-reset dma tmp r b T away u in
        let h' = Untouched-reset dma tmp r b (heads cs) apart (λ x m. h x (Memᴰ.tail m)) in
        let n = (b (offset r)).next_ref in
        let add = added r rest b b' next states c few into (h r (Memᴰ.head refl)) u' in
        let step : (if ref_flag1 next_valid r
              then add_next false fuel r n b' (next, states)
              else ok (next, states))
            ≡ ok (next ++ rest, states) =
          elim (Bool-cases (next_is_valid r)) [
            | inl v ↦ if_true _ _ (ref_flag1_lem r ∙ v) ∙ add
            | inr v ↦
                if_false _ _ (ref_flag1_lem r ∙ v) ∙ sym (unflagged r n b' (next, states) v) ∙ add
          ] in
        rw (free1_lem tmp r b, step, free_ones_next-freed cs b' (next ++ rest) states a h' u')
          (ap (λ l. ok (map (made tmp) (r ∷ heads cs), reset_all tmp (heads cs) b', (l, states)))
            (append_assoc next rest (tails cs)))

    four_step :
        (slow : Bool) (s s' : List RefHeader × States) (m : Outcome (List RefHeader × States))
        → m ≡ ok s'
        → (slow ≡ false → m ≡ ok s)
        → (if slow then m else ok s) ≡ ok s'
    four_step true s s' m e p = e
    four_step false s s' m e p = sym (p refl) ∙ e

    -- Four at a time.
    pub free_refs_next-freed :
        (cs : List (RefHeader × List RefHeader)) (b : Buffers) (next : List RefHeader)
        (states : States)
        → AreChains fuel T cs
        → Untouched dma b (heads cs)
        → Untouched dma b T
        → free_refs_next false fuel tmp (heads cs) b (next, states) ≡ freed cs b (next, states)
    unfolding free_refs_next freed
    free_refs_next-freed ((r0, t0) ∷ (r1, t1) ∷ (r2, t2) ∷ (r3, t3) ∷ cs) b next states
          (c0, f0, i0, a0, w0, (c1, f1, i1, a1, w1, (c2, f2, i2, a2, w2, (c3, f3, i3, a3, w3, a))))
          h u =
        let reset_tmp = reset tmp in
        let b1 = reset_tmp (offset r0) b in
        let b2 = reset_tmp (offset r1) b1 in
        let b3 = reset_tmp (offset r2) b2 in
        let b4 = reset_tmp (offset r3) b3 in
        let u4 = Untouched-reset dma tmp r3 b3 T w3 (
          Untouched-reset dma tmp r2 b2 T w2
            (Untouched-reset dma tmp r1 b1 T w1 (Untouched-reset dma tmp r0 b T w0 u))) in
        let hs = heads cs in
        let later = λ (x : RefHeader) (m : Memᴰ x hs).
          h x (Memᴰ.tail (Memᴰ.tail (Memᴰ.tail (Memᴰ.tail m)))) in
        let h4 = Untouched-reset dma tmp r3 b3 hs a3 (
          Untouched-reset dma tmp r2 b2 hs (λ x m. a2 x (Memᴰ.tail m))
            (Untouched-reset dma tmp r1 b1 hs (λ x m. a1 x (Memᴰ.tail (Memᴰ.tail m)))
              (Untouched-reset dma tmp r0 b hs (λ x m. a0 x (Memᴰ.tail (Memᴰ.tail (Memᴰ.tail m))))
                later))) in
        let n0 = (b (offset r0)).next_ref in
        let n1 = (b (offset r1)).next_ref in
        let n2 = (b (offset r2)).next_ref in
        let n3 = (b (offset r3)).next_ref in
        let all : List RefHeader = (((next ++ t0) ++ t1) ++ t2) ++ t3 in
        let four : (add_next false fuel r0 n0 b4 (next, states)
              >>= add_next false fuel r1 n1 b4
              >>= add_next false fuel r2 n2 b4
              >>= add_next false fuel r3 n3 b4)
            ≡ ok (all, states) =
          rw
            (
              added r0 t0 b b4 next states c0 f0 i0 (h r0 (Memᴰ.head refl)) u4,
              added r1 t1 b b4 (next ++ t0) states c1 f1 i1 (h r1 (Memᴰ.tail (Memᴰ.head refl))) u4,
              added r2 t2 b b4 ((next ++ t0) ++ t1) states c2 f2 i2
                  (h r2 (Memᴰ.tail (Memᴰ.tail (Memᴰ.head refl)))) u4,
            )
            (added r3 t3 b b4 (((next ++ t0) ++ t1) ++ t2) states c3 f3 i3
              (h r3 (Memᴰ.tail (Memᴰ.tail (Memᴰ.tail (Memᴰ.head refl))))) u4) in
        let plain : ref_flag4 next_valid r0 r1 r2 r3 ≡ false
            → (add_next false fuel r0 n0 b4 (next, states)
                >>= add_next false fuel r1 n1 b4
                >>= add_next false fuel r2 n2 b4
                >>= add_next false fuel r3 n3 b4)
              ≡ ok (next, states) =
          λ off.
            let (v0, v1, v2, v3) = ref_flag4-false r0 r1 r2 r3 off in
            rw
              (
                unflagged r0 n0 b4 (next, states) v0,
                unflagged r1 n1 b4 (next, states) v1,
                unflagged r2 n2 b4 (next, states) v2,
              )
              (unflagged r3 n3 b4 (next, states) v3) in
        let step =
          four_step (ref_flag4 next_valid r0 r1 r2 r3) (next, states) (all, states)
            (add_next false fuel r0 n0 b4 (next, states)
              >>= add_next false fuel r1 n1 b4
              >>= add_next false fuel r2 n2 b4
              >>= add_next false fuel r3 n3 b4)
            four plain in
        rw (free4_lem tmp r0 r1 r2 r3 b, step, free_refs_next-freed cs b4 all states a h4 u4)
          (ap
            (λ l. ok (
              map (made tmp) (r0 ∷ r1 ∷ r2 ∷ r3 ∷ heads cs),
              reset_all tmp (heads cs) b4,
              (l, states),
            ))
            (simp append_assoc))
    free_refs_next-freed [] b next states a h u = free_ones_next-freed [] b next states a h u
    free_refs_next-freed (x0 ∷ []) b next states a h u =
        free_ones_next-freed (x0 ∷ []) b next states a h u
    free_refs_next-freed (x0 ∷ x1 ∷ []) b next states a h u =
        free_ones_next-freed (x0 ∷ x1 ∷ []) b next states a h u
    free_refs_next-freed (x0 ∷ x1 ∷ x2 ∷ []) b next states a h u =
        free_ones_next-freed (x0 ∷ x1 ∷ x2 ∷ []) b next states a h u
