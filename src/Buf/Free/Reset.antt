-- ===== src/Buf/Free/Reset.antt =====
-- hw/buf.go: the loops that free four references at a time do what one at a time would do.
use mathlib.Core.Path.{fun_ext}
use elib.Base.{
  ℕ, ◌≡◌, refl, ap, ◌∙◌, Bool, true, List, [], ◌∷◌, arith, map, inl, inr, ◌==◌, ==_iff,
  if◌then◌else◌, Bool-cases,
}
use elib.Buf.{RefHeader, Ref, Buffer, offset, ref_flag1, ref_flag4, next_valid}
use elib.Buf.Pools.{BufferTemplate}
use elib.Buf.Free.{Buffers, copy_offset, free1, free4, free_ones, free_refs_no_next}

module _ (tmp : BufferTemplate) where
  -- The buffer as its template, but for what is saved in it.
  abbrev pub fresh_buffer : Buffer → Buffer
  fresh_buffer b = record (tmp.buffer) { save = b.save }

  abbrev pub reset : ℕ → Buffers → Buffers
  reset o buffers p = if o == p then fresh_buffer (buffers p) else buffers p

  free1-reset :
      (r : RefHeader) (buffers : Buffers) → (free1 tmp r buffers).1 ≡ reset (offset r) buffers
  unfolding free1
  free1-reset r buffers = fun_ext (λ p. elim (Bool-cases (offset r == p)) [
    | inl e ↦ rw e (ap (λ q. fresh_buffer (buffers q)) ((==_iff (offset r) p).0 e))
    | inr e ↦ rw e refl
  ])

  -- Four writes and four restored values at one place.
  four_saves :
      (b0 b1 b2 b3 : Bool) (x : Buffer) (s0 s1 s2 s3 : ℕ)
      → (b0 ≡ true → s0 ≡ x.save)
      → (b1 ≡ true → s1 ≡ x.save)
      → (b2 ≡ true → s2 ≡ x.save)
      → (b3 ≡ true → s3 ≡ x.save)
      → (let b = tmp.buffer in
          let y0 = if b3 then b else if b2 then b else if b1 then b else if b0 then b else x in
          let y1 = if b0 then record y0 { save = s0 } else y0 in
          let y2 = if b1 then record y1 { save = s1 } else y1 in
          let y3 = if b2 then record y2 { save = s2 } else y2 in
          if b3 then record y3 { save = s3 } else y3)
        ≡ (let f = fresh_buffer x in
            if b3 then f else if b2 then f else if b1 then f else if b0 then f else x)
  four_saves b0 b1 b2 b3 x s0 s1 s2 s3 e0 e1 e2 e3 = ground arith

  four_resets :
      (b0 b1 b2 b3 : Bool) (x : Buffer)
      → (let f = fresh_buffer x in
          if b3 then f else if b2 then f else if b1 then f else if b0 then f else x)
        ≡ (let y0 = if b0 then fresh_buffer x else x in
            let y1 = if b1 then fresh_buffer y0 else y0 in
            let y2 = if b2 then fresh_buffer y1 else y1 in if b3 then fresh_buffer y2 else y2)
  four_resets b0 b1 b2 b3 x = ground arith

  free4-reset :
      (r0 r1 r2 r3 : RefHeader) (buffers : Buffers)
      → (free4 tmp r0 r1 r2 r3 buffers).1
        ≡ reset (offset r3) (reset (offset r2) (reset (offset r1) (reset (offset r0) buffers)))
  unfolding free4
  free4-reset r0 r1 r2 r3 buffers = fun_ext (λ p.
      let same : (r : RefHeader)
          → (offset r == p) ≡ true
          → (buffers (offset r)).save ≡ (buffers p).save =
        λ r e. ap (λ q. (buffers q).save) ((==_iff (offset r) p).0 e) in
      four_saves (offset r0 == p) (offset r1 == p) (offset r2 == p) (offset r3 == p) (buffers p)
        (buffers (offset r0)).save (buffers (offset r1)).save (buffers (offset r2)).save
        (buffers (offset r3)).save (same r0) (same r1) (same r2) (same r3)
      ∙ four_resets (offset r0 == p) (offset r1 == p) (offset r2 == p) (offset r3 == p) (buffers p))

  abbrev pub reset_all : List RefHeader → Buffers → Buffers
  reset_all [] buffers = buffers
  reset_all (r ∷ rs) buffers = reset_all rs (reset (offset r) buffers)

  abbrev pub made : RefHeader → Ref
  made r = copy_offset r tmp.ref

  free_ones-reset :
      (rs : List RefHeader) (buffers : Buffers)
      → free_ones tmp rs buffers ≡ (map made rs, reset_all rs buffers)
  unfolding free_ones free1
  free_ones-reset [] buffers = refl
  free_ones-reset (r ∷ rs) buffers =
      ap (λ (s : List Ref × Buffers). (made r ∷ s.0, s.1))
        (free_ones-reset rs (free1 tmp r buffers).1
          ∙ ap (λ b. (map made rs, reset_all rs b)) (free1-reset r buffers))

  -- Freeing any number of references, four at a time and then the rest one by one: each gets the template
  -- with its own offset, and each buffer becomes the template but for what is saved in it. This holds also
  -- when two references are to the same buffer.
  pub free_refs_no_next-reset :
      (rs : List RefHeader) (buffers : Buffers)
      → free_refs_no_next tmp rs buffers ≡ (map made rs, reset_all rs buffers)
  unfolding free_refs_no_next free4
  free_refs_no_next-reset (r0 ∷ r1 ∷ r2 ∷ r3 ∷ rs) buffers =
      ap (λ (s : List Ref × Buffers). (made r0 ∷ made r1 ∷ made r2 ∷ made r3 ∷ s.0, s.1))
        (free_refs_no_next-reset rs (free4 tmp r0 r1 r2 r3 buffers).1
          ∙ ap (λ b. (map made rs, reset_all rs b)) (free4-reset r0 r1 r2 r3 buffers))
  free_refs_no_next-reset [] buffers = free_ones-reset [] buffers
  free_refs_no_next-reset (r0 ∷ []) buffers = free_ones-reset (r0 ∷ []) buffers
  free_refs_no_next-reset (r0 ∷ r1 ∷ []) buffers = free_ones-reset (r0 ∷ r1 ∷ []) buffers
  free_refs_no_next-reset (r0 ∷ r1 ∷ r2 ∷ []) buffers = free_ones-reset (r0 ∷ r1 ∷ r2 ∷ []) buffers

  pub free1_lem :
      (r : RefHeader) (buffers : Buffers)
      → free1 tmp r buffers ≡ (
        (made r, ref_flag1 next_valid r, (buffers (offset r)).next_ref),
        reset (offset r) buffers,
      )
  unfolding free1
  free1_lem r buffers =
      ap (λ b. ((made r, ref_flag1 next_valid r, (buffers (offset r)).next_ref), b))
        (free1-reset r buffers)

  pub free4_lem :
      (r0 r1 r2 r3 : RefHeader) (buffers : Buffers)
      → free4 tmp r0 r1 r2 r3 buffers ≡ (
        (
          made r0 ∷ made r1 ∷ made r2 ∷ made r3 ∷ [],
          ref_flag4 next_valid r0 r1 r2 r3,
          (
            (buffers (offset r0)).next_ref,
            (buffers (offset r1)).next_ref,
            (buffers (offset r2)).next_ref,
            (buffers (offset r3)).next_ref,
          ),
        ),
        reset (offset r3) (reset (offset r2) (reset (offset r1) (reset (offset r0) buffers))),
      )
  unfolding free4
  free4_lem r0 r1 r2 r3 buffers =
      ap
        (λ b. (
          (
            made r0 ∷ made r1 ∷ made r2 ∷ made r3 ∷ [],
            ref_flag4 next_valid r0 r1 r2 r3,
            (
              (buffers (offset r0)).next_ref,
              (buffers (offset r1)).next_ref,
              (buffers (offset r2)).next_ref,
              (buffers (offset r3)).next_ref,
            ),
          ),
          b,
        ))
        (free4-reset r0 r1 r2 r3 buffers)
