-- ===== src/Tests/Hooks.antt =====
-- Three hooks.
use mathlib.Core.List.{Memᴰ, reverse}
use mathlib.Core.List.Memᴰ
use mathlib.Core.List.Permᴰ
use elib.Base.{
  ap, ℕ, zero, suc, ◌<◌, ◌≡◌, refl, inl, inr, Bool, true, false, List, [], ◌∷◌, ◌==◌, Outcome, ok,
  ◌>>=◌, if◌then◌else◌, arith, some, get_elem?,
}
use elib.Dep.{
  Hooks, Deps, add, depends_on, link_deps, link_anti_deps, link_all, pick, collect, visit_all,
  order_helper, sort_hooks,
}
use elib.Dep.Order.{IsAdded, IsOrder, DependsOn}
use elib.Word.Digits.{bit, bit-zero}
use elib.Dep.Inline.{inline_bits, sort_inline-IsOrder}

-- Hook 0 depends on hook 1; hook 1 asks that hook 2 depends on it.
abbrev three : Hooks ℕ
three p = record {
  deps = if p == 0 then 1 ∷ [] else [];
  anti_deps = if p == 1 then 2 ∷ [] else [];
  priority = 0;
  index = p;
  dep_indices = 0;
}

abbrev three_deps : Deps
three_deps = record { elts = 0 ∷ 1 ∷ 2 ∷ []; is_ordered = false; order = [] }

three_placed : (i p : ℕ) → get_elem? (0 ∷ 1 ∷ 2 ∷ []) i ≡ some p → p ≡ i
three_placed zero p e = cc
three_placed (suc zero) p e = cc
three_placed (suc (suc zero)) p e = cc
three_placed (suc (suc (suc i))) p e = absurd (cc)

only_one : (b : Bool) (q n : ℕ) → Memᴰ q (if b then n ∷ [] else []) → q ≡ n
only_one true q n m = Memᴰ.eq_of_singleton m
only_one false q n m = absurd (Memᴰ.not-nil m)

if_here : (b : Bool) (q n : ℕ) → Memᴰ q (if b then n ∷ [] else []) → b ≡ true
if_here true q n m = refl
if_here false q n m = absurd (Memᴰ.not-nil m)

three-IsAdded : IsAdded inline_bits three (0 ∷ 1 ∷ 2 ∷ [])
three-IsAdded = record {
  placed = three_placed;
  unmarked = λ p i m. ap (λ d. d == 1) (bit-zero i);
  deps_added = λ p q m n. Memᴰ.tail (Memᴰ.head (only_one (p == 0) q 1 n));
  anti_deps_added = λ p q m n. Memᴰ.tail (Memᴰ.tail (Memᴰ.head (only_one (p == 1) q 2 n)));
}

abbrev three_rank : ℕ → ℕ
three_rank i = if i == 1 then 0 else 1

three_falls : (p q : ℕ) → DependsOn three p q → three_rank q < three_rank p
three_falls p q (inl m) = ground (arith, only_one (p == 0) q 1 m, if_here (p == 0) q 1 m)
three_falls p q (inr m) = ground (arith, only_one (q == 1) p 2 m, if_here (q == 1) p 2 m)

sort_inline-IsOrder_example :
    (s : Hooks ℕ × Deps) × (sort_hooks inline_bits (λ lt l. l) (three, three_deps) ≡ ok s)
    × IsOrder three (0 ∷ 1 ∷ 2 ∷ []) s.1.order
sort_inline-IsOrder_example =
    sort_inline-IsOrder (λ lt l. l) (λ lt l. Permᴰ.refl l) three three_deps three_rank (omega arith)
      three-IsAdded (record { few = λ p m. ground arith; falls = λ p q m n d. three_falls p q d })

abbrev order_of : Outcome (Hooks ℕ × Deps) → Outcome (List ℕ)
order_of m = m >>= λ s. ok s.1.order

sort_run : order_of (sort_hooks inline_bits (λ lt l. l) (three, three_deps)) ≡ ok (1 ∷ 0 ∷ 2 ∷ [])
unfolding bit sort_hooks collect pick link_all link_deps link_anti_deps depends_on visit_all
    order_helper
sort_run = refl

-- A second sort takes the indices of the first as places in the rearranged list: hook 0 depends on
-- hook 1, and comes before it.
abbrev two : Hooks ℕ × Deps
two = (
  λ p. record {
    deps = if p == 0 then 1 ∷ [] else [];
    anti_deps = [];
    priority = 0;
    index = 0;
    dep_indices = 0;
  },
  record { elts = []; is_ordered = false; order = [] },
)

again_run :
    order_of (
      sort_hooks inline_bits (λ lt l. reverse l) (add 1 (add 0 two)) >>= λ s.
      sort_hooks inline_bits (λ lt l. reverse l) (add 2 s))
    ≡ ok (2 ∷ 0 ∷ 1 ∷ [])
unfolding bit add sort_hooks collect pick link_all link_deps link_anti_deps depends_on visit_all
    order_helper
again_run = refl
