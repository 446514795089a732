-- ===== src/Dep.antt =====
-- dep/dep.go: hooks ordered by what they depend on.
-- A pointer to a hook is a number, and the hooks are a function from pointers. Bitmaps are the interface
-- IndexSet, which inline words of bitmap.go are, that is for indices below 63; `members` is what a loop over
-- Next visits. sort.Sort is a parameter that takes the method Less
-- and returns the pointers rearranged.
pub mod Linked
pub mod Collect
pub mod Visit
pub mod Order
pub mod Inline
pub mod Visited
use elib.Base.{
  ℕ, zero, suc, ◌+◌, ◌-◌, ◌%◌, ◌^◌, Bool, true, false, List, [], ◌∷◌, ◌++◌, Outcome, ok, panic,
  out_of_fuel, ◌>>=◌, load, length, ltb, ◌!=◌, ◌==◌, if◌then◌else◌,
}

pub record IndexSet (B : Type 0) : Type 0 where
  pub empty : B
  pub get : B → ℕ → Bool
  pub set_index : B → ℕ → B
  pub members : B → List ℕ

pub record Hook (B : Type 0) : Type 0 where
  pub deps : List ℕ
  pub anti_deps : List ℕ
  pub priority : ℕ
  pub index : ℕ
  pub dep_indices : B

abbrev pub Hooks : Type 0 → Type 0
Hooks B = ℕ → Hook B

pub record Deps : Type 0 where
  pub elts : List ℕ
  pub is_ordered : Bool
  pub order : List ℕ

module _ {B : Type 0} where
  abbrev pub update : ℕ → Hook B → Hooks B → Hooks B
  update p h hooks q = if p == q then h else hooks q

  unfoldable pub add : ℕ → Hooks B × Deps → Hooks B × Deps
  add p (hooks, ds) = (
    update p (record (hooks p) { index = length ds.elts % 2 ^ 32 }) hooks,
    record ds { elts = ds.elts ++ p ∷ []; is_ordered = false },
  )

  -- The elements at the places i and j.
  unfoldable pub less : Hooks B → ℕ → ℕ → List ℕ → Outcome Bool
  less hooks i j elts = do
    p ← load elts i
    q ← load elts j
    let differ = (hooks p).priority != (hooks q).priority
    ok (if differ then ltb (hooks p).priority (hooks q).priority else ltb j i)

module _ {B : Type 0} (sets : IndexSet B) where
  open sets use {empty, get, set_index, members}

  unfoldable pub depends_on : ℕ → ℕ → Hooks B → Hooks B
  depends_on p q hooks =
      update p (record (hooks p) { dep_indices = set_index (hooks p).dep_indices (hooks q).index })
        hooks

  unfoldable pub link_deps : ℕ → List ℕ → Hooks B → Hooks B
  link_deps p [] hooks = hooks
  link_deps p (q ∷ qs) hooks = link_deps p qs (depends_on p q hooks)

  unfoldable pub link_anti_deps : ℕ → List ℕ → Hooks B → Hooks B
  link_anti_deps p [] hooks = hooks
  link_anti_deps p (q ∷ qs) hooks = link_anti_deps p qs (depends_on q p hooks)

  -- Indicate dependencies and anti-dependencies.
  unfoldable pub link_all : List ℕ → Hooks B → Hooks B
  link_all [] hooks = hooks
  link_all (p ∷ ps) hooks =
      let linked = link_deps p (hooks p).deps hooks in
      link_all ps (link_anti_deps p (linked p).anti_deps linked)

  -- `hs.elts[j]` for each index j.
  unfoldable pub pick : List ℕ → List ℕ → Outcome (List ℕ)
  pick elts [] = ok []
  pick elts (j ∷ js) = do q ← load elts j; qs ← pick elts js; ok (q ∷ qs)

  -- Convert dependency bitmap to slice.
  unfoldable pub collect : List ℕ → List ℕ → Hooks B → Outcome (Hooks B)
  collect elts [] hooks = ok hooks
  collect elts (p ∷ ps) hooks = do
    ds ← pick elts (members (hooks p).dep_indices)
    collect elts ps (update p (record (hooks p) { deps = ds; dep_indices = empty }) hooks)

  unfoldable pub visit_all :
      (ℕ → B × List ℕ → Outcome (B × List ℕ)) → List ℕ → B × List ℕ → Outcome (B × List ℕ)
  visit_all visit [] s = ok s
  visit_all visit (p ∷ ps) s = visit p s >>= visit_all visit ps

  -- orderHelper; the state is the bitmap and `order`.
  unfoldable pub order_helper : Hooks B → ℕ → ℕ → B × List ℕ → Outcome (B × List ℕ)
  order_helper hooks zero p s = panic out_of_fuel
  order_helper hooks (suc fuel) p (b, order) = do
    let i = (hooks p).index
    let visited : Outcome (B × List ℕ) =
        visit_all (order_helper hooks fuel) (hooks p).deps (set_index b i, order) >>= λ s.
        ok (s.0, s.1 ++ i ∷ [])
    if get b i then ok (b, order) else visited

  module _ (rearrange : (ℕ → ℕ → List ℕ → Outcome Bool) → List ℕ → List ℕ) where
    unfoldable pub sort_hooks : Hooks B × Deps → Outcome (Hooks B × Deps)
    sort_hooks (hooks0, ds) = do
      hooks ← collect ds.elts ds.elts (link_all ds.elts hooks0)
      let elts = rearrange (less hooks) ds.elts
      (_, order) ← visit_all (order_helper hooks (suc (length elts))) elts (empty, [])
      ok (hooks, record ds { elts = elts; order = order })

    unfoldable pub hook_index : ℕ → Bool → Hooks B × Deps → Outcome (ℕ × (Hooks B × Deps))
    hook_index i is_forward (hooks, ds) = do
      let read = λ (s : Hooks B × Deps).
          let n = length s.1.order in
          let j : ℕ = if is_forward then i else if ltb i n then n - 1 - i else n in
          load s.1.order j >>= λ k. ok (k, s)
      let sorted = sort_hooks (hooks, record ds { is_ordered = true }) >>= read
      let ordered : Outcome (ℕ × (Hooks B × Deps)) =
          if ds.is_ordered then read (hooks, ds) else sorted
      if length ds.elts == 0 then ok (i, (hooks, ds)) else ordered
