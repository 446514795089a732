-- ===== src/Vec/Resize.antt =====
-- Resize of vec.tmpl: what was there stays.
use mathlib.Core.List.{append_assoc}
use elib.Base.{
  ℕ, zero, suc, ◌+◌, ◌-◌, ◌%◌, ◌^◌, ◌≤◌, ◌≡◌, refl, ap, ◌∙◌, List, [], ◌∷◌, ◌++◌, ok, take,
  replicate, ltb, Bool-cases, inl, inr, ltb→le, le→leb, arith, length-append, length-take,
  length-replicate, take-append, take_all,
}
use elib.Cap.{FloatScale, next_resize_cap}
use elib.Cap.Growth.{next_resize_cap_lem}
use elib.Vec.{Vec, cells, capacity, len, cut, copied, resize}
use elib.Vec.Keep.{reslice-ok, capacity-cut}

pub take-take {ℓ} : {A : Type ℓ} (m n : ℕ) (xs : List A) → m ≤ n → take m (take n xs) ≡ take m xs
take-take zero n xs h = refl
take-take (suc m) zero xs h = absurd (omega (arith, h))
take-take (suc m) (suc n) [] h = refl
take-take (suc m) (suc n) (x ∷ xs) h = ap (λ l. x ∷ l) (take-take m n xs (omega (arith, h)))

module _ {ℓ} {A : Type ℓ} where
  -- The vector has so many more elements, and the old ones are in front.
  pub record Resized (v : Vec A) (n : ℕ) (v' : Vec A) : Type ℓ where
    pub longer : len v' ≡ len v + n
    pub kept : take (len v) v'.items ≡ v.items
    pub small : capacity v' ≤ 2 ^ 31

module _ {ℓ} (scale : FloatScale) {A : Type ℓ} (zero_value : A) where
  cut-kept :
      (v w : Vec A) (n : ℕ) (rest : List A)
      → cells w ≡ v.items ++ rest
      → capacity w ≤ 2 ^ 31
      → len v + n ≤ capacity w
      → Resized v n (cut w (len v + n))
  cut-kept v w n rest e le fit = record {
    longer = length-take (len v + n) (cells w) ∙ omega (arith, fit, length-append w.items w.spare);
    kept =
        take-take (len v) (len v + n) (cells w) (omega arith)
        ∙ ap (take (len v)) e
        ∙ take-append v.items rest;
    small = omega (arith, capacity-cut zero_value w (len v + n), le);
  }

  pub resize-Resized :
      (v : Vec A) (n : ℕ)
      → capacity v ≤ 2 ^ 31
      → len v + n ≤ 2 ^ 29
      → (v' : Vec A) × (resize scale zero_value v n ≡ ok v') × Resized v n v'
  unfolding resize
  resize-Resized v n le lt =
      let l = len v + n in
      let c' = next_resize_cap scale l in
      let a : capacity v % 2 ^ 32 ≡ capacity v = omega (arith, le) in
      let d : (len v % 2 ^ 32 + n % 2 ^ 32) % 2 ^ 32 ≡ l = omega (arith, lt) in
      elim (Bool-cases (ltb (capacity v) l)) [
        | inl t ↦
            let (enough, _, most, _) = next_resize_cap_lem scale l (omega (arith, lt)) in
            let q : Vec A = record {
              items = copied zero_value v l;
              spare = replicate (c' - l) zero_value;
            } in
            let size : len q ≡ l =
              length-append (take l v.items) (replicate (l - len v) zero_value)
              ∙ omega (arith, length-take l v.items, length-replicate (l - len v) zero_value) in
            let whole : capacity q ≡ c' =
              omega (arith, size, length-replicate (c' - l) zero_value, enough) in
            let first : cells q ≡ v.items ++ (replicate (l - len v) zero_value ++ q.spare) =
              ap (λ x. (x ++ replicate (l - len v) zero_value) ++ q.spare)
                (take_all l v.items (omega arith))
              ∙ append_assoc v.items (replicate (l - len v) zero_value) q.spare in
            (
              cut q l,
              rw (a, d, t, le→leb l c' enough)
                  (reslice-ok zero_value q l (omega (arith, whole, enough))),
              cut-kept v q n (replicate (l - len v) zero_value ++ q.spare) first
                  (omega (arith, whole, most)) (omega (arith, whole, enough)),
            )
        | inr f ↦
            let room : l ≤ capacity v = ltb→le (capacity v) l f in
            (
              cut v l,
              rw (a, d, f) (reslice-ok zero_value v l room),
              cut-kept v v n v.spare refl le room,
            )
      ]
