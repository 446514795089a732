-- ===== src/Dep/Collect.antt =====
-- dep/dep.go: the second part of sort, which turns the marks into lists of hooks.
use mathlib.Core.List.{Memᴰ}
use mathlib.Core.List.Memᴰ
use mathlib.Core.Path.{subst}
use elib.Base.{
  ℕ, ◌≡◌, refl, sym, ap, ◌∙◌, inl, inr, true, List, [], ◌∷◌, some, ok, get_elem?, Bool-cases, ◌==◌,
  ==_iff, ==_refl, if_true, if_false,
}
use elib.Dep.{IndexSet, Hook, Hooks, update, pick, collect}
use elib.Dep.Visit.{IsIndexSet}
use elib.Dep.Linked.{update-cases}

module _ {B : Type 0} (sets : IndexSet B) (laws : IsIndexSet sets) (elts : List ℕ) where
  open sets use {get, members}

  pick-Memᴰ :
      (js : List ℕ)
      → ((j : ℕ) → Memᴰ j js → (q : ℕ) × (get_elem? elts j ≡ some q))
      → (qs : List ℕ) × (pick sets elts js ≡ ok qs)
        × ((q : ℕ) → Memᴰ q qs → (j : ℕ) × Memᴰ j js × (get_elem? elts j ≡ some q))
        × ((j q : ℕ) → Memᴰ j js → get_elem? elts j ≡ some q → Memᴰ q qs)
  unfolding pick
  pick-Memᴰ [] h = ([], refl, λ q m. absurd (Memᴰ.not-nil m), λ j q m. absurd (Memᴰ.not-nil m))
  pick-Memᴰ (j ∷ js) h =
      let (q, e) = h j (Memᴰ.head refl) in
      let (qs, e', sound, full) = pick-Memᴰ js (λ k m. h k (Memᴰ.tail m)) in
      (
        q ∷ qs,
        rw (e, e') refl,
        λ r m. elim (Memᴰ.cases_cons m) [
          | inl same ↦ (j, Memᴰ.head refl, e ∙ ap some (sym same))
          | inr later ↦ let (k, n, g) = sound r later in (k, Memᴰ.tail n, g)
        ],
        λ k r m g. elim (Memᴰ.cases_cons m) [
          | inl same ↦ Memᴰ.head (cc (same, e, g))
          | inr later ↦ Memᴰ.tail (full k r later g)
        ],
      )

  -- The dependencies of `p` are the hooks at the indices that were marked.
  pub record Collected (old new : Hook B) : Type 0 where
    pub from_marks :
        (q : ℕ)
        → Memᴰ q new.deps
        → (j : ℕ) × (get old.dep_indices j ≡ true) × (get_elem? elts j ≡ some q)
    pub all_marks :
        (j q : ℕ) → get old.dep_indices j ≡ true → get_elem? elts j ≡ some q → Memᴰ q new.deps

  abbrev pub IsDistinct : List ℕ → Type 0
  IsDistinct [] = Unit
  IsDistinct (p ∷ ps) = (Memᴰ p ps → ⊥) × IsDistinct ps

  pub collect-Collected :
      (ps : List ℕ) (hooks : Hooks B)
      → IsDistinct ps
      → ((p j : ℕ)
          → Memᴰ p ps
          → get (hooks p).dep_indices j ≡ true
          → (q : ℕ) × (get_elem? elts j ≡ some q))
      → (hooks' : Hooks B) × (collect sets elts ps hooks ≡ ok hooks')
        × ((p : ℕ) → (hooks' p).index ≡ (hooks p).index)
        × ((p : ℕ) → (Memᴰ p ps → ⊥) → hooks' p ≡ hooks p)
        × ((p : ℕ) → Memᴰ p ps → Collected (hooks p) (hooks' p))
  unfolding collect
  collect-Collected [] hooks d h =
      (hooks, refl, λ p. refl, λ p m. refl, λ p m. absurd (Memᴰ.not-nil m))
  collect-Collected (p ∷ ps) hooks (apart, d) h =
      let (qs, e, sound, full) =
        pick-Memᴰ (members (hooks p).dep_indices)
          (λ j m. h p j (Memᴰ.head refl) ((laws.members_iff (hooks p).dep_indices j).0 m)) in
      let new = record (hooks p) { deps = qs; dep_indices = IndexSet.empty sets } in
      let next = update p new hooks in
      let here : next p ≡ new = if_true _ _ (==_refl p) in
      let old : (r : ℕ) → Memᴰ r ps → next r ≡ hooks r = λ r m. elim (Bool-cases (p == r)) [
        | inl same ↦ absurd (apart (subst (λ s. Memᴰ s ps) (sym ((==_iff p r).0 same)) m))
        | inr other ↦ if_false _ _ other
      ] in
      let (end, e', ix, out, ins) =
        collect-Collected ps next d
          (λ r j m g. h r j (Memᴰ.tail m) (subst (λ k. get k.dep_indices j ≡ true) (old r m) g)) in
      let mine : Collected (hooks p) new = record {
        from_marks = λ q m.
            let (j, n, g) = sound q m in (j, (laws.members_iff (hooks p).dep_indices j).0 n, g);
        all_marks = λ j q on g. full j q ((laws.members_iff (hooks p).dep_indices j).1 on) g;
      } in
      (
        end,
        rw e e',
        λ r.
            ix r
            ∙ update-cases sets laws (λ s k. k.index ≡ (hooks s).index) p new hooks refl (λ s. refl)
                r,
        λ r m. out r (λ n. m (Memᴰ.tail n)) ∙ elim (Bool-cases (p == r)) [
          | inl same ↦ absurd (m (Memᴰ.head (sym ((==_iff p r).0 same))))
          | inr other ↦ if_false _ _ other
        ],
        λ r m. elim (Memᴰ.cases_cons m) [
          | inl same ↦
              subst (λ s. Collected (hooks s) (end s)) (sym same)
                (subst (Collected (hooks p)) (sym (out p apart ∙ here)) mine)
          | inr later ↦ subst (λ k. Collected k (end r)) (old r later) (ins r later)
        ],
      )
