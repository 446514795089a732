-- ===== src/Dep/Order.antt =====
-- dep/dep.go: the order that sort leaves.
use mathlib.Core.List.{Memᴰ, Permᴰ}
use mathlib.Core.List.Memᴰ
use mathlib.Core.List.Permᴰ
use mathlib.Core.Path.{subst}
use elib.Base.{
  ℕ, suc, ◌+◌, ◌<◌, ◌≡◌, refl, sym, ap, ◌∙◌, ◌⊎◌, inl, inr, true, false, List, [], ◌∷◌, ◌++◌, some,
  Bool, Outcome, ok, get_elem?, length, arith, nil-ne-append, last-cases, Memᴰ-Permᴰ, length-Permᴰ,
  get_elem?-Memᴰ,
}
use elib.Dep.{IndexSet, Hooks, Deps, less, link_all, collect, sort_hooks}
use elib.Dep.Linked.{Grown, Grown-refl, link_all-Grown, Done}
use elib.Dep.Collect.{IsDistinct, collect-Collected}
use elib.Dep.Visit.{IsIndexSet, Ordered, start, grow, visit_all-Searched}

-- What a hook declares, or another declares of it.
abbrev pub DependsOn : {B : Type 0} → Hooks B → ℕ → ℕ → Type 0
DependsOn hooks p q = Memᴰ q (hooks p).deps ⊎ Memᴰ p (hooks q).anti_deps

module _ {B : Type 0} (sets : IndexSet B) where
  open sets use {get}

  -- Hooks that were added and not sorted yet: the index of each is its place, nothing is marked, and
  -- what they declare is of these hooks.
  pub record IsAdded (hooks : Hooks B) (elts : List ℕ) : Type 0 where
    pub placed : (i p : ℕ) → get_elem? elts i ≡ some p → (hooks p).index ≡ i
    pub unmarked : (p i : ℕ) → Memᴰ p elts → get (hooks p).dep_indices i ≡ false
    pub deps_added : (p q : ℕ) → Memᴰ p elts → Memᴰ q (hooks p).deps → Memᴰ q elts
    pub anti_deps_added : (p q : ℕ) → Memᴰ p elts → Memᴰ q (hooks p).anti_deps → Memᴰ q elts

module _ {B : Type 0} where
  -- The dependencies have no cycle.
  pub record IsRank (hooks : Hooks B) (elts : List ℕ) (rank : ℕ → ℕ) : Type 0 where
    pub few : (p : ℕ) → Memᴰ p elts → rank (hooks p).index < length elts
    pub falls :
        (p q : ℕ)
        → Memᴰ p elts
        → Memᴰ q elts
        → DependsOn hooks p q
        → rank (hooks q).index < rank (hooks p).index

  -- The indices of the hooks, each once, and each after those that its hook depends on.
  pub record IsOrder (hooks : Hooks B) (elts order : List ℕ) : Type 0 where
    pub all : (p : ℕ) → Memᴰ p elts → Memᴰ (hooks p).index order
    pub only : (i : ℕ) → Memᴰ i order → (p : ℕ) × Memᴰ p elts × (i ≡ (hooks p).index)
    pub once : (xs ys : List ℕ) (i : ℕ) → order ≡ xs ++ i ∷ ys → Memᴰ i xs → ⊥
    pub after :
        (xs ys : List ℕ) (p q : ℕ)
        → Memᴰ p elts
        → Memᴰ q elts
        → DependsOn hooks p q
        → order ≡ xs ++ (hooks p).index ∷ ys
        → Memᴰ (hooks q).index xs

module _ {B : Type 0} (sets : IndexSet B) (laws : IsIndexSet sets) where
  open sets use {get}

  module _ (hooks : Hooks B) (Known : ℕ → Type 0) where
    -- What stands before an index in the order.
    Ordered-split :
        (zs xs : List ℕ) (i : ℕ) (ys : List ℕ)
        → Ordered sets laws hooks Known zs
        → zs ≡ xs ++ i ∷ ys
        → (p : ℕ) × Known p
          × (i ≡ (hooks p).index)
          × (Memᴰ i xs → ⊥)
          × ((q : ℕ) → Memᴰ q (hooks p).deps → Memᴰ (hooks q).index xs)
    Ordered-split _ xs i ys start e = absurd (nil-ne-append xs i ys e)
    Ordered-split _ xs i ys (grow {zs} p j k e apart before o) split =
        elim (last-cases zs j xs i ys split) [
          | inl (same, same') ↦ (
            p,
            k,
            sym same' ∙ e,
            subst (λ l. Memᴰ i l → ⊥) same (subst (λ h. Memᴰ h zs → ⊥) same' apart),
            λ q m. subst (Memᴰ (hooks q).index) same (before q m),
          )
          | inr (ys', earlier) ↦ Ordered-split zs xs i ys' o earlier
        ]

    Ordered-Known :
        (zs : List ℕ) (i : ℕ)
        → Ordered sets laws hooks Known zs
        → Memᴰ i zs
        → (p : ℕ) × Known p × (i ≡ (hooks p).index)
    Ordered-Known _ i start m = absurd (Memᴰ.not-nil m)
    Ordered-Known _ i (grow {zs} p j k e apart before o) m = elim (Memᴰ.append_cases zs m) [
      | inl earlier ↦ Ordered-Known zs i o earlier
      | inr last ↦ (p, k, Memᴰ.eq_of_singleton last ∙ e)
    ]

  Placed-IsDistinct :
      (hooks : Hooks B) (k : ℕ) (l : List ℕ)
      → ((i p : ℕ) → get_elem? l i ≡ some p → (hooks p).index ≡ k + i)
      → IsDistinct sets laws l l
  Placed-IsDistinct hooks k [] h = tt
  Placed-IsDistinct hooks k (p ∷ l) h = (
    λ m. let (i, e) = get_elem?-Memᴰ l p m in omega (arith, h 0 p refl, h (suc i) p e),
    Placed-IsDistinct hooks (suc k) l (λ i q e. omega (arith, h (suc i) q e)),
  )

  module _ (hooks0 : Hooks B) (elts : List ℕ) (rank : ℕ → ℕ) (added : IsAdded sets hooks0 elts)
      (ranked : IsRank hooks0 elts rank) where
    -- Hook `p` depends on the hook of index `i`.
    Wants : ℕ → ℕ → Type 0
    Wants p i = (q : ℕ) × Memᴰ p elts × Memᴰ q elts × DependsOn hooks0 p q × ((hooks0 q).index ≡ i)

    place : (q : ℕ) → Memᴰ q elts → get_elem? elts (hooks0 q).index ≡ some q
    place q m =
        let (i, e) = get_elem?-Memᴰ elts q m in
        subst (λ j. get_elem? elts j ≡ some q) (sym (added.placed i q e)) e

    same_hook : (p q : ℕ) → Memᴰ p elts → Memᴰ q elts → (hooks0 p).index ≡ (hooks0 q).index → p ≡ q
    same_hook p q m n e = cc (place p m, place q n, e)

    abbrev linked : Hooks B
    linked = link_all sets elts hooks0

    linked_lem :
        Grown sets laws Wants hooks0 linked
        × ((p : ℕ) → Memᴰ p elts → Done sets laws hooks0 linked p)
    unfolding Wants
    linked_lem =
        link_all-Grown sets laws Wants hooks0 elts hooks0
          (λ p q m n. (q, m, added.deps_added p q m n, inl n, refl))
          (λ p q m n. (p, added.anti_deps_added p q m n, m, inr n, refl))
          (Grown-refl sets laws Wants hooks0)

    marked-Wants : (p j : ℕ) → Memᴰ p elts → get (linked p).dep_indices j ≡ true → Wants p j
    marked-Wants p j m on = elim (linked_lem.0.within p j on) [
      | inl old ↦ absurd (cc (added.unmarked p j m, old))
      | inr w ↦ w
    ]

    marked_place :
        (p j : ℕ)
        → Memᴰ p elts
        → get (linked p).dep_indices j ≡ true
        → (q : ℕ) × (get_elem? elts j ≡ some q)
    unfolding Wants
    marked_place p j m on =
        let (q, _, n, _, e) = marked-Wants p j m on in
        (q, subst (λ k. get_elem? elts k ≡ some q) e (place q n))

    -- The hooks after both parts.
    record IsReady (hooks : Hooks B) : Type 0 where
      index_kept : (p : ℕ) → (hooks p).index ≡ (hooks0 p).index
      sound : (p q : ℕ) → Memᴰ p elts → Memᴰ q (hooks p).deps → Memᴰ q elts × DependsOn hooks0 p q
      full : (p q : ℕ) → Memᴰ p elts → Memᴰ q elts → DependsOn hooks0 p q → Memᴰ q (hooks p).deps

    ready : (hooks : Hooks B) × (collect sets elts elts linked ≡ ok hooks) × IsReady hooks
    unfolding Wants
    ready =
        let (hooks, e, ix, _, col) =
          collect-Collected sets laws elts elts linked
            (Placed-IsDistinct hooks0 0 elts (λ i p g. omega (arith, added.placed i p g)))
            marked_place in
        (
          hooks,
          e,
          record {
            index_kept = λ p. ix p ∙ linked_lem.0.same_index p;
            sound = λ p q m n.
                let (j, on, g) = (col p m).from_marks q n in
                let (q', _, n', d, e') = marked-Wants p j m on in
                let same : q' ≡ q = cc (place q' n', e', g) in
                (subst (λ r. Memᴰ r elts) same n', subst (DependsOn hooks0 p) same d);
            full = λ p q m n d.
                (col p m).all_marks (linked q).index q
                  (elim d [ inl a ↦ (linked_lem.1 p m).0 q a | inr a ↦ (linked_lem.1 q n).1 p a ])
                  (subst (λ j. get_elem? elts j ≡ some q) (sym (linked_lem.0.same_index q))
                    (place q n));
          },
        )

    places-IsOrder :
        (hooks : Hooks B) (order : List ℕ)
        → IsReady hooks
        → Ordered sets laws hooks (λ p. Memᴰ p elts) order
        → ((p : ℕ) → Memᴰ p elts → Memᴰ (hooks p).index order)
        → IsOrder hooks0 elts order
    places-IsOrder hooks order r o a =
        let ix = r.index_kept in
        record {
          all = λ p m. subst (λ i. Memᴰ i order) (ix p) (a p m);
          only = λ i m.
              let (p, k, e) = Ordered-Known hooks (λ p. Memᴰ p elts) order i o m in
              (p, k, e ∙ ix p);
          once = λ xs ys i e. (Ordered-split hooks (λ p. Memᴰ p elts) order xs i ys o e).3;
          after = λ xs ys p q m n d e.
              let (p', k, e', _, before) =
                Ordered-split hooks (λ p. Memᴰ p elts) order xs (hooks0 p).index ys o e in
              let same : p ≡ p' = same_hook p p' m k (e' ∙ ix p') in
              subst (λ i. Memᴰ i xs) (ix q)
                (before q (subst (λ s. Memᴰ q (hooks s).deps) same (r.full p q m n d)));
        }

  -- Let the hooks be added and not sorted yet, let no hook depend on itself through others, and let
  -- sort.Sort rearrange what it is given. Then sort succeeds, and the order that it leaves has the
  -- index of each hook, no other index, each index once, and before it those of all the hooks that its
  -- hook depends on, by Deps or by AntiDeps.
  pub sort_hooks-IsOrder :
      (rearrange : (ℕ → ℕ → List ℕ → Outcome Bool) → List ℕ → List ℕ)
      → ((lt : ℕ → ℕ → List ℕ → Outcome Bool) (l : List ℕ) → Permᴰ (rearrange lt l) l)
      → (hooks : Hooks B) (ds : Deps) (rank : ℕ → ℕ) → IsAdded sets hooks ds.elts
      → IsRank hooks ds.elts rank
      → (s : Hooks B × Deps) × (sort_hooks sets rearrange (hooks, ds) ≡ ok s)
        × IsOrder hooks ds.elts s.1.order
  unfolding sort_hooks
  sort_hooks-IsOrder rearrange perm hooks0 ds rank added ranked =
      let (hooks, e, r) = ready hooks0 ds.elts rank added ranked in
      let elts = rearrange (less hooks) ds.elts in
      let p = perm (less hooks) ds.elts in
      let known : (q : ℕ)
          → Memᴰ q elts
          → Memᴰ q ds.elts × (rank (hooks q).index < suc (length elts)) =
        λ q m.
          let n = Memᴰ-Permᴰ q p m in
          (n, omega (arith, ranked.few q n, ap rank (r.index_kept q), length-Permᴰ p)) in
      let (t, e', a, all) =
        visit_all-Searched sets laws hooks (λ q. Memᴰ q ds.elts) rank
          (λ q s m n.
            let (k, d) = r.sound q s m n in
            (
              k,
              omega (
                arith,
                ranked.falls q s m k d,
                ap rank (r.index_kept q),
                ap rank (r.index_kept s),
              ),
            ))
          (suc (length elts)) elts known in
      (
        (hooks, record ds { elts = elts; order = t.1 }),
        rw (e, e') refl,
        places-IsOrder hooks0 ds.elts rank added ranked hooks t.1 r a.ordered
            (λ q m. all q (Memᴰ-Permᴰ q (Permᴰ.symm p) m)),
      )
