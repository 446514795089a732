-- ===== src/Dep/Linked.antt =====
-- dep/dep.go: the first part of sort, which marks in each hook what it depends on.
use mathlib.Core.List.{Memᴰ}
use mathlib.Core.List.Memᴰ
use mathlib.Core.Path.{subst}
use elib.Base.{
  ℕ, ◌≡◌, refl, sym, ap, ◌∙◌, ◌⊎◌, inl, inr, true, List, [], ◌∷◌, Bool-cases, ◌==◌, ==_iff, ==_refl,
  if_true, if_false,
}
use elib.Dep.{IndexSet, Hook, Hooks, update, depends_on, link_deps, link_anti_deps, link_all}
use elib.Dep.Visit.{IsIndexSet}

module _ {B : Type 0} (sets : IndexSet B) (laws : IsIndexSet sets) where
  open sets use {get, set_index}

  -- Hooks that differ in the dependencies marked only, where more are marked: those of `P` at most.
  pub record Grown (P : ℕ → ℕ → Type 0) (hooks hooks' : Hooks B) : Type 0 where
    pub same_index : (p : ℕ) → (hooks' p).index ≡ (hooks p).index
    pub same_deps : (p : ℕ) → (hooks' p).deps ≡ (hooks p).deps
    pub same_anti_deps : (p : ℕ) → (hooks' p).anti_deps ≡ (hooks p).anti_deps
    pub more : (p i : ℕ) → get (hooks p).dep_indices i ≡ true → get (hooks' p).dep_indices i ≡ true
    pub within :
        (p i : ℕ)
        → get (hooks' p).dep_indices i ≡ true
        → (get (hooks p).dep_indices i ≡ true) ⊎ P p i

  pub Grown-refl : (P : ℕ → ℕ → Type 0) (hooks : Hooks B) → Grown P hooks hooks
  Grown-refl P hooks = record {
    same_index = λ p. refl;
    same_deps = λ p. refl;
    same_anti_deps = λ p. refl;
    more = λ p i h. h;
    within = λ p i h. inl h;
  }

  Grown-trans :
      (P : ℕ → ℕ → Type 0) (h h' h'' : Hooks B) → Grown P h h' → Grown P h' h'' → Grown P h h''
  Grown-trans P h h' h'' a b = record {
    same_index = λ p. b.same_index p ∙ a.same_index p;
    same_deps = λ p. b.same_deps p ∙ a.same_deps p;
    same_anti_deps = λ p. b.same_anti_deps p ∙ a.same_anti_deps p;
    more = λ p i m. b.more p i (a.more p i m);
    within = λ p i m. elim (b.within p i m) [ inl m' ↦ a.within p i m' | inr e ↦ inr e ];
  }

  -- A property of a hook after an update.
  pub update-cases {ℓ} :
      (C : ℕ → Hook B → Type ℓ) (p : ℕ) (h : Hook B) (hooks : Hooks B)
      → C p h
      → ((q : ℕ) → C q (hooks q))
      → (q : ℕ) → C q (update p h hooks q)
  update-cases C p h hooks new old q = elim (Bool-cases (p == q)) [
    | inl e ↦ subst (C q) (sym (if_true _ _ e)) (subst (λ r. C r h) ((==_iff p q).0 e) new)
    | inr n ↦ subst (C q) (sym (if_false _ _ n)) (old q)
  ]

  depends_on-Grown :
      (P : ℕ → ℕ → Type 0) (p q : ℕ) (hooks : Hooks B)
      → P p (hooks q).index
      → Grown P hooks (depends_on sets p q hooks)
  unfolding depends_on
  depends_on-Grown P p q hooks e =
      let h = record (hooks p) { dep_indices = set_index (hooks p).dep_indices (hooks q).index } in
      let bits = laws.get-set (hooks p).dep_indices (hooks q).index in
      record {
        same_index = update-cases (λ r k. k.index ≡ (hooks r).index) p h hooks refl (λ r. refl);
        same_deps = update-cases (λ r k. k.deps ≡ (hooks r).deps) p h hooks refl (λ r. refl);
        same_anti_deps =
            update-cases (λ r k. k.anti_deps ≡ (hooks r).anti_deps) p h hooks refl (λ r. refl);
        more = λ r i.
            update-cases (λ r k. get (hooks r).dep_indices i ≡ true → get k.dep_indices i ≡ true) p
              h hooks (λ m. (bits i).1 (inr m)) (λ r m. m) r;
        within = λ r i.
            update-cases
              (λ r k. get k.dep_indices i ≡ true → (get (hooks r).dep_indices i ≡ true) ⊎ P r i) p h
              hooks
              (λ m. elim ((bits i).0 m) [
                | inl same ↦ inr (subst (P p) (sym same) e)
                | inr m' ↦ inl m'
              ])
              (λ r m. inl m) r;
      }

  depends_on-get :
      (p q : ℕ) (hooks : Hooks B)
      → get (depends_on sets p q hooks p).dep_indices (hooks q).index ≡ true
  unfolding depends_on
  depends_on-get p q hooks =
      let e =
        if_true (record (hooks p) { dep_indices = set_index (hooks p).dep_indices (hooks q).index })
          (hooks p) (==_refl p) in
      ap (λ h. get h.dep_indices (hooks q).index) e
      ∙ (laws.get-set (hooks p).dep_indices (hooks q).index (hooks q).index).1 (inl refl)

  -- The index of `q` is marked in `p`.
  abbrev pub Marks : Hooks B → ℕ → ℕ → Type 0
  Marks hooks p q = get (hooks p).dep_indices (hooks q).index ≡ true

  pub Marks-Grown :
      (P : ℕ → ℕ → Type 0) (h h' : Hooks B) (p q : ℕ) → Grown P h h' → Marks h p q → Marks h' p q
  Marks-Grown P h h' p q g m =
      subst (λ i. get (h' p).dep_indices i ≡ true) (sym (g.same_index q)) (g.more p (h q).index m)

  link_deps-Grown :
      (P : ℕ → ℕ → Type 0) (p : ℕ) (qs : List ℕ) (hooks : Hooks B)
      → ((q : ℕ) → Memᴰ q qs → P p (hooks q).index)
      → Grown P hooks (link_deps sets p qs hooks)
        × ((q : ℕ) → Memᴰ q qs → Marks (link_deps sets p qs hooks) p q)
  unfolding link_deps
  link_deps-Grown P p [] hooks e = (Grown-refl P hooks, λ q m. absurd (Memᴰ.not-nil m))
  link_deps-Grown P p (q ∷ qs) hooks e =
      let next = depends_on sets p q hooks in
      let g = depends_on-Grown P p q hooks (e q (Memᴰ.head refl)) in
      let (g', ms) =
        link_deps-Grown P p qs next
          (λ r m. subst (P p) (sym (g.same_index r)) (e r (Memᴰ.tail m))) in
      let first : Marks next p q =
        subst (λ i. get (next p).dep_indices i ≡ true) (sym (g.same_index q))
          (depends_on-get p q hooks) in
      (
        Grown-trans P hooks next (link_deps sets p qs next) g g',
        λ r m. elim (Memᴰ.cases_cons m) [
          | inl same ↦
              subst (Marks (link_deps sets p qs next) p) (sym same)
                (Marks-Grown P next (link_deps sets p qs next) p q g' first)
          | inr later ↦ ms r later
        ],
      )

  link_anti_deps-Grown :
      (P : ℕ → ℕ → Type 0) (p : ℕ) (qs : List ℕ) (hooks : Hooks B)
      → ((q : ℕ) → Memᴰ q qs → P q (hooks p).index)
      → Grown P hooks (link_anti_deps sets p qs hooks)
        × ((q : ℕ) → Memᴰ q qs → Marks (link_anti_deps sets p qs hooks) q p)
  unfolding link_anti_deps
  link_anti_deps-Grown P p [] hooks e = (Grown-refl P hooks, λ q m. absurd (Memᴰ.not-nil m))
  link_anti_deps-Grown P p (q ∷ qs) hooks e =
      let next = depends_on sets q p hooks in
      let g = depends_on-Grown P q p hooks (e q (Memᴰ.head refl)) in
      let (g', ms) =
        link_anti_deps-Grown P p qs next
          (λ r m. subst (P r) (sym (g.same_index p)) (e r (Memᴰ.tail m))) in
      let first : Marks next q p =
        subst (λ i. get (next q).dep_indices i ≡ true) (sym (g.same_index p))
          (depends_on-get q p hooks) in
      (
        Grown-trans P hooks next (link_anti_deps sets p qs next) g g',
        λ r m. elim (Memᴰ.cases_cons m) [
          | inl same ↦
              subst (λ s. Marks (link_anti_deps sets p qs next) s p) (sym same)
                (Marks-Grown P next (link_anti_deps sets p qs next) q p g' first)
          | inr later ↦ ms r later
        ],
      )

  -- What `p` declares is marked.
  abbrev pub Done : Hooks B → Hooks B → ℕ → Type 0
  Done hooks0 hooks p =
      ((q : ℕ) → Memᴰ q (hooks0 p).deps → Marks hooks p q)
      × ((q : ℕ) → Memᴰ q (hooks0 p).anti_deps → Marks hooks q p)

  -- All that the hooks of a list declare is marked, and no more.
  pub link_all-Grown :
      (P : ℕ → ℕ → Type 0) (hooks0 : Hooks B) (ps : List ℕ) (hooks : Hooks B)
      → ((p q : ℕ) → Memᴰ p ps → Memᴰ q (hooks0 p).deps → P p (hooks0 q).index)
      → ((p q : ℕ) → Memᴰ p ps → Memᴰ q (hooks0 p).anti_deps → P q (hooks0 p).index)
      → Grown P hooks0 hooks
      → Grown P hooks (link_all sets ps hooks)
        × ((p : ℕ) → Memᴰ p ps → Done hooks0 (link_all sets ps hooks) p)
  unfolding link_all
  link_all-Grown P hooks0 [] hooks d a g = (Grown-refl P hooks, λ p m. absurd (Memᴰ.not-nil m))
  link_all-Grown P hooks0 (p ∷ ps) hooks d a g =
      let here = Memᴰ.head refl in
      let mid = link_deps sets p (hooks p).deps hooks in
      let (g1, ms1) = link_deps-Grown P p (hooks p).deps hooks (λ q m.
        subst (P p) (sym (g.same_index q)) (d p q here (subst (Memᴰ q) (g.same_deps p) m))) in
      let g01 = Grown-trans P hooks0 hooks mid g g1 in
      let next = link_anti_deps sets p (mid p).anti_deps mid in
      let (g2, ms2) = link_anti_deps-Grown P p (mid p).anti_deps mid (λ q m.
        subst (P q) (sym (g01.same_index p))
          (a p q here (subst (Memᴰ q) (g01.same_anti_deps p) m))) in
      let (g3, ds) =
        link_all-Grown P hooks0 ps next (λ r q m. d r q (Memᴰ.tail m))
          (λ r q m. a r q (Memᴰ.tail m)) (Grown-trans P hooks0 mid next g01 g2) in
      let end = link_all sets ps next in
      let mine : Done hooks0 end p = (
        λ q m.
            Marks-Grown P next end p q g3
              (Marks-Grown P mid next p q g2 (ms1 q (subst (Memᴰ q) (sym (g.same_deps p)) m))),
        λ q m.
            Marks-Grown P next end q p g3 (ms2 q (subst (Memᴰ q) (sym (g01.same_anti_deps p)) m)),
      ) in
      (
        Grown-trans P hooks mid end g1 (Grown-trans P mid next end g2 g3),
        λ r m. elim (Memᴰ.cases_cons m) [
          | inl same ↦ subst (Done hooks0 end) (sym same) mine
          | inr later ↦ ds r later
        ],
      )
