-- ===== src/Base/Members.antt =====
-- Members of lists, by place and under rearrangement.
use Prim.Native.Nat.{ℕ, suc}
use mathlib.Core.Path.{◌≡◌, refl, sym, ap, ◌∙◌}
use mathlib.Core.Logic.{◌⊎◌, inl, inr}
use mathlib.Core.List.{List, [], ◌∷◌, ◌++◌, Memᴰ, Permᴰ}
use mathlib.Core.List.Memᴰ
use mathlib.Core.Option.{some}
use elib.Base.Lists.{length, get_elem?}

module _ {ℓ} {A : Type ℓ} where
  pub nil-ne-append : (xs : List A) (i : A) (ys : List A) → [] ≡ xs ++ i ∷ ys → ⊥
  nil-ne-append [] i ys h = cc
  nil-ne-append (x ∷ xs) i ys h = cc

  -- Where the last element of a list stands in a split.
  pub last-cases :
      (zs : List A) (j : A) (xs : List A) (i : A) (ys : List A)
      → zs ++ j ∷ [] ≡ xs ++ i ∷ ys
      → ((zs ≡ xs) × (j ≡ i)) ⊎ ((ys' : List A) × (zs ≡ xs ++ i ∷ ys'))
  last-cases [] j [] i ys h = inl (refl, cc)
  last-cases (z ∷ zs) j [] i ys h = inr (zs, cc)
  last-cases [] j (x ∷ xs) i ys h = absurd (nil-ne-append xs i ys (cc))
  last-cases (z ∷ zs) j (x ∷ xs) i ys h = elim (last-cases zs j xs i ys (cc)) [
    | inl (e, e') ↦ inl (cc, e')
    | inr (ys', e) ↦ inr (ys', cc)
  ]

  pub Memᴰ-Permᴰ : {k l : List A} (a : A) → Permᴰ k l → Memᴰ a k → Memᴰ a l
  Memᴰ-Permᴰ a Permᴰ.nil m = m
  Memᴰ-Permᴰ a (Permᴰ.cons e p) m = elim (Memᴰ.cases_cons m) [
    | inl same ↦ Memᴰ.head (same ∙ e)
    | inr later ↦ Memᴰ.tail (Memᴰ-Permᴰ a p later)
  ]
  Memᴰ-Permᴰ a (Permᴰ.swap e e') m = elim (Memᴰ.cases_cons m) [
    | inl same ↦ Memᴰ.tail (Memᴰ.head (same ∙ e))
    | inr later ↦ elim (Memᴰ.cases_cons later) [
      | inl same ↦ Memᴰ.head (same ∙ e')
      | inr last ↦ Memᴰ.tail (Memᴰ.tail last)
    ]
  ]
  Memᴰ-Permᴰ a (Permᴰ.trans p q) m = Memᴰ-Permᴰ a q (Memᴰ-Permᴰ a p m)

  pub length-Permᴰ : {k l : List A} → Permᴰ k l → length k ≡ length l
  length-Permᴰ Permᴰ.nil = refl
  length-Permᴰ (Permᴰ.cons e p) = ap suc (length-Permᴰ p)
  length-Permᴰ (Permᴰ.swap e e') = refl
  length-Permᴰ (Permᴰ.trans p q) = length-Permᴰ p ∙ length-Permᴰ q

  pub get_elem?-Memᴰ : (l : List A) (a : A) → Memᴰ a l → (i : ℕ) × (get_elem? l i ≡ some a)
  get_elem?-Memᴰ [] a m = absurd (Memᴰ.not-nil m)
  get_elem?-Memᴰ (x ∷ l) a m = elim (Memᴰ.cases_cons m) [
    | inl same ↦ (0, ap some (sym same))
    | inr later ↦ let (i, e) = get_elem?-Memᴰ l a later in (suc i, e)
  ]
