-- ===== src/Dep/Visit.antt =====
-- dep/dep.go: orderHelper, a depth-first search.
use mathlib.Core.List.{Memᴰ}
use mathlib.Core.List.Memᴰ
use elib.Base.{
  ℕ, zero, suc, ◌<◌, ◌≤◌, ◌≡◌, refl, ap, ◌∙◌, ◌⊎◌, inl, inr, ◌↔◌, true, false, List, [], ◌∷◌, ◌++◌,
  Outcome, ok, ◌>>=◌, arith, Bool-cases, if_true, if_false,
}
use elib.Dep.{IndexSet, Hooks, visit_all, order_helper}

-- The laws of the bitmaps.
pub record IsIndexSet {B : Type 0} (sets : IndexSet B) : Type 0 where
  pub get-empty : (i : ℕ) → IndexSet.get sets (IndexSet.empty sets) i ≡ false
  pub get-set :
      (b : B) (i j : ℕ)
      → (IndexSet.get sets (IndexSet.set_index sets b i) j ≡ true)
        ↔ ((j ≡ i) ⊎ (IndexSet.get sets b j ≡ true))
  pub members_iff :
      (b : B) (i : ℕ) → Memᴰ i (IndexSet.members sets b) ↔ (IndexSet.get sets b i ≡ true)

module _ {B : Type 0} (sets : IndexSet B) (laws : IsIndexSet sets) (hooks : Hooks B)
    (Known : ℕ → Type 0) where
  open sets use {get, set_index}

  -- Each index comes once, after those of the dependencies of its hook.
  pub data Ordered : List ℕ → Type 0 where
    start : Ordered []
    grow :
        {zs : List ℕ} (p i : ℕ)
        → Known p
        → i ≡ (hooks p).index
        → (Memᴰ i zs → ⊥)
        → ((q : ℕ) → Memᴰ q (hooks p).deps → Memᴰ (hooks q).index zs)
        → Ordered zs
        → Ordered (zs ++ i ∷ [])

  -- What a search that began at `s` and ended at `t` did.
  pub record Searched (s t : B × List ℕ) : Type 0 where
    pub ordered : Ordered t.1
    pub kept : (i : ℕ) → Memᴰ i s.1 → Memᴰ i t.1
    pub marked : (i : ℕ) → get s.0 i ≡ true → get t.0 i ≡ true
    pub came : (i : ℕ) → get t.0 i ≡ true → (get s.0 i ≡ true) ⊎ Memᴰ i t.1
    pub sound : (i : ℕ) → Memᴰ i t.1 → get t.0 i ≡ true
    pub fresh : (i : ℕ) → Memᴰ i t.1 → Memᴰ i s.1 ⊎ (get s.0 i ≡ false)

  Searched-refl :
      (s : B × List ℕ) → Ordered s.1 → ((i : ℕ) → Memᴰ i s.1 → get s.0 i ≡ true) → Searched s s
  Searched-refl s o m = record {
    ordered = o;
    kept = λ i h. h;
    marked = λ i h. h;
    came = λ i h. inl h;
    sound = m;
    fresh = λ i h. inl h;
  }

  Searched-trans : (s t u : B × List ℕ) → Searched s t → Searched t u → Searched s u
  Searched-trans s t u a b = record {
    ordered = b.ordered;
    kept = λ i h. b.kept i (a.kept i h);
    marked = λ i h. b.marked i (a.marked i h);
    came = λ i h. elim (b.came i h) [
      | inl m ↦ elim (a.came i m) [ inl m' ↦ inl m' | inr o ↦ inr (b.kept i o) ]
      | inr o ↦ inr o
    ];
    sound = b.sound;
    fresh = λ i h. elim (b.fresh i h) [
      | inl o ↦ a.fresh i o
      | inr off ↦ elim (Bool-cases (get s.0 i)) [
        | inl on ↦ absurd (cc (a.marked i on, off))
        | inr off' ↦ inr off'
      ]
    ];
  }

  module _ (rank : ℕ → ℕ) where
    -- A marked index that is not yet in the order has a rank of at least `r`: its hook waits for this search.
    pub record Waits (r : ℕ) (s : B × List ℕ) : Type 0 where
      pub above : (i : ℕ) → get s.0 i ≡ true → Memᴰ i s.1 ⊎ (r ≤ rank i)
      pub in_order : Ordered s.1
      pub order_marked : (i : ℕ) → Memᴰ i s.1 → get s.0 i ≡ true

    Waits-Searched : (r : ℕ) (s t : B × List ℕ) → Waits r s → Searched s t → Waits r t
    Waits-Searched r s t w a = record {
      above = λ i h. elim (a.came i h) [
        | inl m ↦ elim (w.above i m) [ inl o ↦ inl (a.kept i o) | inr lt ↦ inr lt ]
        | inr o ↦ inl o
      ];
      in_order = a.ordered;
      order_marked = a.sound;
    }

    Waits-lower : (r r' : ℕ) (s : B × List ℕ) → r' ≤ r → Waits r s → Waits r' s
    Waits-lower r r' s le w = record {
      above = λ i h. elim (w.above i h) [ inl o ↦ inl o | inr lt ↦ inr (omega (arith, le, lt)) ];
      in_order = w.in_order;
      order_marked = w.order_marked;
    }

    -- The search of one hook succeeds, and puts its index in the order.
    abbrev pub Visits : (ℕ → B × List ℕ → Outcome (B × List ℕ)) → ℕ → B × List ℕ → Type 0
    Visits visit p s =
        (t : B × List ℕ) × (visit p s ≡ ok t) × Searched s t × Memᴰ (hooks p).index t.1

    all_visited :
        (visit : ℕ → B × List ℕ → Outcome (B × List ℕ)) (r : ℕ) (ps : List ℕ)
        → ((q : ℕ) → Memᴰ q ps → rank (hooks q).index < r)
        → ((q : ℕ)
            → Memᴰ q ps
            → (s : B × List ℕ) → Waits (suc (rank (hooks q).index)) s
            → Visits visit q s)
        → (s : B × List ℕ) → Waits r s
        → (t : B × List ℕ) × (visit_all sets visit ps s ≡ ok t)
          × Searched s t
          × ((q : ℕ) → Memᴰ q ps → Memᴰ (hooks q).index t.1)
    unfolding visit_all
    all_visited visit r [] low each s w =
        (s, refl, Searched-refl s w.in_order w.order_marked, λ q m. absurd (Memᴰ.not-nil m))
    all_visited visit r (p ∷ ps) low each s w =
        let here = Memᴰ.head refl in
        let (t, e, a, m) =
          each p here s (Waits-lower r (suc (rank (hooks p).index)) s (low p here) w) in
        let (u, e', b, ms) =
          all_visited visit r ps (λ q n. low q (Memᴰ.tail n)) (λ q n. each q (Memᴰ.tail n)) t
            (Waits-Searched r s t w a) in
        (
          u,
          rw e e',
          Searched-trans s t u a b,
          λ q n. elim (Memᴰ.cases_cons n) [
            | inl same ↦ rw same (b.kept (hooks p).index m)
            | inr later ↦ ms q later
          ],
        )

    -- The index `i` is marked, the hooks it depends on are searched, and it is put last.
    finished :
        (p i : ℕ) (b : B) (order : List ℕ) (t : B × List ℕ)
        → Known p
        → i ≡ (hooks p).index
        → get b i ≡ false
        → ((j : ℕ) → Memᴰ j order → get b j ≡ true)
        → Searched (set_index b i, order) t
        → ((q : ℕ) → Memᴰ q (hooks p).deps → Memᴰ (hooks q).index t.1)
        → Searched (b, order) (t.0, t.1 ++ i ∷ [])
    finished p i b order t k e off old a ms =
        let on = (laws.get-set b i i).1 (inl refl) in
        record {
          ordered =
              grow p i k e
                (λ m. elim (a.fresh i m) [ inl o ↦ cc (old i o, off) | inr off' ↦ cc (on, off') ])
                ms a.ordered;
          kept = λ j m. Memᴰ.append_left (i ∷ []) (a.kept j m);
          marked = λ j m. a.marked j ((laws.get-set b i j).1 (inr m));
          came = λ j m. elim (a.came j m) [
            | inl m' ↦ elim ((laws.get-set b i j).0 m') [
              | inl same ↦ inr (Memᴰ.append_right t.1 (Memᴰ.head same))
              | inr m'' ↦ inl m''
            ]
            | inr o ↦ inr (Memᴰ.append_left (i ∷ []) o)
          ];
          sound = λ j m. elim (Memᴰ.append_cases t.1 m) [
            | inl o ↦ a.sound j o
            | inr last ↦ rw (Memᴰ.eq_of_singleton last) (a.marked i on)
          ];
          fresh = λ j m. elim (Memᴰ.append_cases t.1 m) [
            | inl o ↦ elim (a.fresh j o) [
              | inl o' ↦ inl o'
              | inr off' ↦ elim (Bool-cases (get b j)) [
                | inl m' ↦ absurd (cc ((laws.get-set b i j).1 (inr m'), off'))
                | inr off'' ↦ inr off''
              ]
            ]
            | inr last ↦ rw (Memᴰ.eq_of_singleton last) (inr off)
          ];
        }

    module _
        (edges : (p q : ℕ)
          → Known p
          → Memᴰ q (hooks p).deps
          → Known q × (rank (hooks q).index < rank (hooks p).index)) where
      order_helper-Visits :
          (fuel p : ℕ) (s : B × List ℕ)
          → Known p
          → rank (hooks p).index < fuel
          → Waits (suc (rank (hooks p).index)) s
          → Visits (order_helper sets hooks fuel) p s
      unfolding order_helper
      order_helper-Visits zero p s k h w = elim h [ ]
      order_helper-Visits (suc fuel) p (b, order) k h w =
          let i = (hooks p).index in
          elim (Bool-cases (get b i)) [
            | inl on ↦ (
              (b, order),
              if_true _ _ on,
              Searched-refl (b, order) w.in_order w.order_marked,
              elim (w.above i on) [ inl o ↦ o | inr high ↦ absurd (omega (arith, high)) ],
            )
            | inr off ↦
                let s1 : B × List ℕ = (set_index b i, order) in
                let w1 : Waits (rank i) s1 = record {
                  above = λ j m. elim ((laws.get-set b i j).0 m) [
                    | inl same ↦ inr (omega (arith, ap rank same))
                    | inr m' ↦ elim (w.above j m') [
                      | inl o ↦ inl o
                      | inr lt ↦ inr (omega (arith, lt))
                    ]
                  ];
                  in_order = w.in_order;
                  order_marked = λ j m. (laws.get-set b i j).1 (inr (w.order_marked j m));
                } in
                let (t, e, a, ms) =
                  all_visited (order_helper sets hooks fuel) (rank i) (hooks p).deps
                    (λ q m. (edges p q k m).1)
                    (λ q m s' w'.
                      order_helper-Visits fuel q s' (edges p q k m).0
                        (omega (arith, h, (edges p q k m).1)) w')
                    s1 w1 in
                (
                  (t.0, t.1 ++ i ∷ []),
                  if_false _ _ off ∙ ap (λ m. m >>= λ s. ok (s.0, s.1 ++ i ∷ [])) e,
                  finished p i b order t k refl off w.order_marked a ms,
                  Memᴰ.append_right t.1 (Memᴰ.head refl),
                )
          ]

      -- The search from a list of hooks.
      pub visit_all-Searched :
          (fuel : ℕ) (ps : List ℕ)
          → ((q : ℕ) → Memᴰ q ps → Known q × (rank (hooks q).index < fuel))
          → (t : B × List ℕ) × (visit_all sets
                (order_helper sets hooks fuel)
                ps
                (IndexSet.empty sets, [])
              ≡ ok t)
            × Searched (IndexSet.empty sets, []) t
            × ((q : ℕ) → Memᴰ q ps → Memᴰ (hooks q).index t.1)
      visit_all-Searched fuel ps known =
          all_visited (order_helper sets hooks fuel) fuel ps (λ q m. (known q m).1)
            (λ q m s w. order_helper-Visits fuel q s (known q m).0 (known q m).1 w)
            (IndexSet.empty sets, [])
            (record {
              above = λ i m. absurd (cc (laws.get-empty i, m));
              in_order = start;
              order_marked = λ i m. absurd (Memᴰ.not-nil m);
            })
