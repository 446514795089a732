-- ===== src/Buf/Free/Next.antt =====
-- hw/buf.go: the references after the first one of a chain are collected.
use mathlib.Core.List.{Memᴰ, append_assoc, append-nil}
use elib.Base.{
  ℕ, zero, suc, ◌%◌, ◌≤◌, max, ◌≡◌, ◌≢◌, refl, sym, ap, ◌∙◌, false, List, [], ◌∷◌, ◌++◌, arith, inl,
  inr, ok, length, Bool-cases, if_true, if_false, none, some, ne→==, bit_or, ◌!=◌,
}
use elib.Word.Digits.{bit_or_step}
use elib.Word.Mask.{bit_and-mask}
use elib.Buf.{
  RefHeader, Buffer, Dma, offset, next_is_valid, ref_flag1, ref_flag4, next_valid, get_buffer,
}
use elib.Buf.Headers.{next_ref_of_lem, next_is_valid_lem}
use elib.Buf.Walks.{Chain, last, link}
use elib.Buf.Pools.{BufferTemplate}
use elib.Buf.States.{States, validate_set_state}
use elib.Buf.Free.{Buffers, next_loop, add_next}
use elib.Buf.Free.Reset.{reset}

pub ref_flag1_lem : (r : RefHeader) → ref_flag1 next_valid r ≡ next_is_valid r
unfolding ref_flag1 next_is_valid
ref_flag1_lem r = refl

odd_or : (x y : ℕ) → bit_or x y % 2 ≡ max (x % 2) (y % 2)
odd_or x y = omega (arith, bit_or_step x y)

-- A flag of one of the four shows.
pub ref_flag4-false :
    (r0 r1 r2 r3 : RefHeader)
    → ref_flag4 next_valid r0 r1 r2 r3 ≡ false
    → (next_is_valid r0 ≡ false)
      × (next_is_valid r1 ≡ false)
      × (next_is_valid r2 ≡ false)
      × (next_is_valid r3 ≡ false)
unfolding ref_flag4
ref_flag4-false r0 r1 r2 r3 h =
    let x0 = r0.offset_and_flags in
    let x1 = r1.offset_and_flags in
    let x2 = r2.offset_and_flags in
    let x3 = r3.offset_and_flags in
    let e : (bit_or (bit_or (bit_or x0 x1) x2) x3 % 2 != 0) ≡ false =
      ap (λ x. x != 0) (sym (bit_and-mask 1 (bit_or (bit_or (bit_or x0 x1) x2) x3))) ∙ h in
    let z : bit_or (bit_or (bit_or x0 x1) x2) x3 % 2 ≡ 0 = ground arith in
    let off : (r : RefHeader) → r.offset_and_flags % 2 ≡ 0 → next_is_valid r ≡ false =
      λ r g. next_is_valid_lem r ∙ ap (λ x. x != 0) g in
    (
      off r0 (
          omega (
            arith,
            z,
            odd_or x0 x1,
            odd_or (bit_or x0 x1) x2,
            odd_or (bit_or (bit_or x0 x1) x2) x3,
          )),
      off r1 (
          omega (
            arith,
            z,
            odd_or x0 x1,
            odd_or (bit_or x0 x1) x2,
            odd_or (bit_or (bit_or x0 x1) x2) x3,
          )),
      off r2 (omega (arith, z, odd_or (bit_or x0 x1) x2, odd_or (bit_or (bit_or x0 x1) x2) x3)),
      off r3 (omega (arith, z, odd_or (bit_or (bit_or x0 x1) x2) x3)),
    )

module _ (dma : Dma) where
  -- The buffers of these references are as they were.
  abbrev pub Untouched : Buffers → List RefHeader → Type 0
  Untouched b xs = (x : RefHeader) → Memᴰ x xs → b (offset x) ≡ dma.buffers (offset x)

  next_loop-Chain :
      (fuel : ℕ) (r : RefHeader) (rs : List RefHeader) (b : Buffers) (next : List RefHeader)
      (states : States)
      → Chain dma r rs
      → length rs ≤ fuel
      → Untouched b rs
      → next_loop false fuel r b (next, states) ≡ ok (next ++ rs, states)
  unfolding next_loop validate_set_state get_buffer
  next_loop-Chain zero r _ b next states (last e) h u = absurd (omega (arith, h))
  next_loop-Chain zero r _ b next states (link e c) h u = absurd (omega (arith, h))
  next_loop-Chain (suc fuel) r _ b next states (last e) h u = elim (Bool-cases (next_is_valid r)) [
    | inl v ↦
        absurd
          (cc (e, next_ref_of_lem dma r, if_true (some ((dma.buffers (offset r)).next_ref)) none v))
    | inr v ↦ if_false _ _ v
  ]
  next_loop-Chain (suc fuel) r _ b next states (link {r'} {rs} e c) h u =
      elim (Bool-cases (next_is_valid r)) [
        | inr v ↦ absurd (
            cc (
              e,
              next_ref_of_lem dma r,
              if_false (some ((dma.buffers (offset r)).next_ref)) none v,
            ))
        | inl v ↦
            let found : some ((dma.buffers (offset r)).next_ref) ≡ some r' =
              sym (if_true (some ((dma.buffers (offset r)).next_ref)) none v)
              ∙ sym (next_ref_of_lem dma r)
              ∙ e in
            let same : (b (offset r)).next_ref ≡ r' =
              ap Buffer.next_ref (u r (Memᴰ.head refl)) ∙ cc found in
            if_true _ _ v
            ∙ ap (λ x. next_loop false fuel x b (next ++ r ∷ [], states)) same
            ∙ next_loop-Chain fuel r' rs b (next ++ r ∷ []) states c (omega (arith, h))
                (λ x m. u x (Memᴰ.tail m))
            ∙ ap (λ l. ok (l, states)) (append_assoc next (r ∷ []) rs)
      ]

  abbrev pub after : List RefHeader → List RefHeader
  after [] = []
  after (x ∷ xs) = xs

  -- The references after `r` are added.
  pub add_next-Chain :
      (fuel : ℕ) (r n : RefHeader) (rs : List RefHeader) (b : Buffers) (next : List RefHeader)
      (states : States)
      → Chain dma r rs
      → length (after rs) ≤ fuel
      → n ≡ (dma.buffers (offset r)).next_ref
      → Untouched b (after rs)
      → add_next false fuel r n b (next, states) ≡ ok (next ++ after rs, states)
  unfolding add_next get_buffer
  add_next-Chain fuel r n _ b next states (last e) h g u = elim (Bool-cases (next_is_valid r)) [
    | inl v ↦
        absurd
          (cc (e, next_ref_of_lem dma r, if_true (some ((dma.buffers (offset r)).next_ref)) none v))
    | inr v ↦ if_false _ _ v ∙ ap (λ l. ok (l, states)) (sym (append-nil next))
  ]
  add_next-Chain fuel r n _ b next states (link {r'} {rs} e c) h g u =
      elim (Bool-cases (next_is_valid r)) [
        | inr v ↦ absurd (
            cc (
              e,
              next_ref_of_lem dma r,
              if_false (some ((dma.buffers (offset r)).next_ref)) none v,
            ))
        | inl v ↦
            let found : some ((dma.buffers (offset r)).next_ref) ≡ some r' =
              sym (if_true (some ((dma.buffers (offset r)).next_ref)) none v)
              ∙ sym (next_ref_of_lem dma r)
              ∙ e in
            if_true _ _ v
            ∙ ap (λ x. next_loop false fuel x b (next, states)) (g ∙ cc found)
            ∙ next_loop-Chain fuel r' rs b next states c h u
      ]

  abbrev pub Apart : RefHeader → List RefHeader → Type 0
  Apart r xs = (x : RefHeader) → Memᴰ x xs → offset r ≢ offset x

  pub Untouched-reset :
      (tmp : BufferTemplate) (r : RefHeader) (b : Buffers) (xs : List RefHeader)
      → Apart r xs
      → Untouched b xs
      → Untouched (reset tmp (offset r) b) xs
  Untouched-reset tmp r b xs a u x m = if_false _ _ (ne→== (offset r) (offset x) (a x m)) ∙ u x m
