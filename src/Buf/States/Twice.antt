-- ===== src/Buf/States/Twice.antt =====
-- hw/buf.go: tracked states catch a buffer that is freed twice.
use mathlib.Core.List.{Memᴰ}
use mathlib.Core.List.Memᴰ
use mathlib.Core.Path.{subst}
use elib.Base.{
  ℕ, ◌≡◌, ◌≢◌, refl, sym, ap, ◌∙◌, true, List, [], ◌∷◌, Outcome, ok, panic, ◌>>=◌, wrong_state,
  ◌==◌, ==_refl, Bool-cases, inl, inr, if_true, if_false,
}
use elib.Buf.{RefHeader, offset}
use elib.Buf.States.{
  BufferState, unknown, known_allocated, known_free, States, set_state, same_state, expected,
  validate_set_state, validate_set_state_refs,
}

-- Buffers in use, no two of the references to the same one.
abbrev pub AreAllocated : States → List RefHeader → Type 0
AreAllocated states [] = Unit
AreAllocated states (r ∷ rs) =
    (states (offset r) ≡ known_allocated)
    × ((x : RefHeader) → Memᴰ x rs → offset x ≢ offset r)
    × AreAllocated states rs

same_allocated : (s : BufferState) → same_state s known_allocated ≡ true → s ≡ known_allocated
unfolding same_state
same_allocated unknown h = absurd (cc h)
same_allocated known_allocated h = refl
same_allocated known_free h = absurd (cc h)

validate-free :
    (r : RefHeader) (states states' : States)
    → validate_set_state true r known_free states ≡ ok states'
    → (states (offset r) ≡ known_allocated) × (states' ≡ set_state (offset r) known_free states)
unfolding validate_set_state expected
validate-free r states states' h =
    elim (Bool-cases (same_state (states (offset r)) known_allocated)) [
      | inl e ↦ (
        same_allocated (states (offset r)) e,
        cc (h, if_true (ok (set_state (offset r) known_free states)) (panic wrong_state) e),
      )
      | inr e ↦
          absurd
            (cc (h, if_false (ok (set_state (offset r) known_free states)) (panic wrong_state) e))
    ]

allocated_other :
    (o : ℕ) (states : States) (x : RefHeader)
    → set_state o known_free states (offset x) ≡ known_allocated
    → (offset x ≢ o) × (states (offset x) ≡ known_allocated)
unfolding set_state
allocated_other o states x h = elim (Bool-cases (o == offset x)) [
  | inl e ↦ absurd (cc (h, if_true known_free (states (offset x)) e))
  | inr e ↦ (
    λ g. cc (==_refl o, ap (λ y. o == y) g, e),
    sym (if_false known_free (states (offset x)) e) ∙ h,
  )
]

weaken :
    (o : ℕ) (states : States) (rs : List RefHeader)
    → AreAllocated (set_state o known_free states) rs
    → AreAllocated states rs × ((x : RefHeader) → Memᴰ x rs → offset x ≢ o)
weaken o states [] a = (tt, λ x m. absurd (Memᴰ.not-nil m))
weaken o states (r ∷ rs) (e, n, a) =
    let (apart, old) = allocated_other o states r e in
    let (a', f) = weaken o states rs a in
    (
      (old, n, a'),
      λ x m. elim (Memᴰ.cases_cons m) [
        | inl same ↦ λ g. apart (ap offset (sym same) ∙ g)
        | inr later ↦ f x later
      ],
    )

after_first :
    (r : RefHeader) (rs : List RefHeader) (states states' : States)
    → ((s : States) → validate_set_state_refs true rs known_free s ≡ ok states' → AreAllocated s rs)
    → (m : Outcome States) → validate_set_state true r known_free states ≡ m
    → (m >>= validate_set_state_refs true rs known_free) ≡ ok states'
    → AreAllocated states (r ∷ rs)
after_first r rs states states' later (ok s) e g =
    let (was, now) = validate-free r states s e in
    let (a, n) = weaken (offset r) states rs (subst (λ t. AreAllocated t rs) now (later s g)) in
    (was, n, a)
after_first r rs states states' later (panic x) e g = absurd (cc g)

-- With states tracked, the check that FreeRefs makes of its references passes only where each is to a
-- buffer that is allocated, and no two are to the same buffer.
pub validate_set_state_refs-AreAllocated :
    (rs : List RefHeader) (states states' : States)
    → validate_set_state_refs true rs known_free states ≡ ok states'
    → AreAllocated states rs
unfolding validate_set_state_refs
validate_set_state_refs-AreAllocated [] states states' h = tt
validate_set_state_refs-AreAllocated (r ∷ rs) states states' h =
    after_first r rs states states' (λ s. validate_set_state_refs-AreAllocated rs s states')
      (validate_set_state true r known_free states) refl h
