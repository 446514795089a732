-- ===== src/Event/Leak.antt =====
-- event/event.go: what Advance hands over, and what it leaves in the pool.
use elib.Base.{
  ℕ, zero, suc, ◌≤◌, ◌≡◌, refl, sym, ap, ◌∙◌, List, [], ◌∷◌, ◌++◌, Outcome, ok, panic, ◌>>=◌, load,
  length, ltb, ltb→le, if_true, if_false, Bool-cases, inl, inr,
}
use mathlib.Core.List.{append_assoc, append-nil}
use elib.Cap.{FloatScale}
use elib.Pool.{FreeBits}
use elib.FibHeap.Delete.{del}
use elib.FibHeap.Min.{min}
use elib.Event.{EventPool, compare_events, advance_loop, advance_add}

-- A call that returns a value returned one in each part.
>>=-eq-ok :
    {A B : Type 0} (m : Outcome A) (f : A → Outcome B) (b : B)
    → (m >>= f) ≡ ok b
    → (a : A) × (m ≡ ok a) × (f a ≡ ok b)
>>=-eq-ok (ok a) f b h = (a, refl, h)
>>=-eq-ok (panic e) f b h = absurd (cc h)

ok_inj : {A : Type 0} (a b : A) → ok a ≡ ok b → a ≡ b
ok_inj a b h = cc

module _ (bits : FreeBits) (scale : FloatScale) {A : Type 0} (nil : A) (event_time : A → ℕ) where
  abbrev pub AreDue : ℕ → List A → Type 0
  AreDue t [] = Unit
  AreDue t (e ∷ es) = (event_time e ≤ t) × AreDue t es

  -- Events that are due are added to a list, and the pool stays as it is.
  abbrev pub HandsOver :
      ℕ
      → EventPool bits scale nil event_time
      → List A
      → List A × EventPool bits scale nil event_time
      → Type 0
  HandsOver t p iv r =
      (due : List A) × (r.0 ≡ iv ++ due)
      × AreDue t due
      × (r.1.pool ≡ p.pool)
      × (r.1.bits_state ≡ p.bits_state)

  advance_loop-HandsOver :
      (fuel t : ℕ) (p : EventPool bits scale nil event_time) (iv : List A)
      (r : List A × EventPool bits scale nil event_time)
      → advance_loop bits scale nil event_time fuel t p iv ≡ ok r
      → HandsOver t p iv r
  unfolding advance_loop
  advance_loop-HandsOver zero t p iv r h = absurd (cc h)
  advance_loop-HandsOver (suc fuel) t p iv r h =
      let events = p.pool.items.items in
      let ((ei, valid, f), _, h1) =
        >>=-eq-ok (min (compare_events bits scale nil event_time events) p.fibheap) _ r h in
      let done : ok (iv, record p { fibheap = f }) ≡ ok r → HandsOver t p iv r = λ e. (
        [],
        ap (λ x. x.0) (sym (ok_inj _ r e)) ∙ sym (append-nil iv),
        tt,
        ap (λ x. x.1.pool) (sym (ok_inj _ r e)),
        ap (λ x. x.1.bits_state) (sym (ok_inj _ r e)),
      ) in
      elim (Bool-cases valid) [
        | inr v ↦ done (sym (if_false _ _ v) ∙ h1)
        | inl v ↦
            let (e, _, h2) = >>=-eq-ok (load events ei) _ r (sym (if_true _ _ v) ∙ h1) in
            elim (Bool-cases (ltb t (event_time e))) [
              | inl late ↦ done (sym (if_true _ _ late) ∙ h2)
              | inr due ↦
                  let (f', _, h3) = >>=-eq-ok (del ei f) _ r (sym (if_false _ _ due) ∙ h2) in
                  let (es, g, d, same, same') =
                    advance_loop-HandsOver fuel t (record p { fibheap = f' }) (iv ++ e ∷ []) r h3 in
                  (
                    e ∷ es,
                    g ∙ append_assoc iv (e ∷ []) es,
                    (ltb→le t (event_time e) due, d),
                    same,
                    same',
                  )
            ]
      ]

  -- Whenever Advance returns, it has handed over events that are due only, and the pool and its
  -- bitmap of free indices are as they were: the indices of the events are not given back.
  pub advance_add-HandsOver :
      (t : ℕ) (p : EventPool bits scale nil event_time) (iv : List A)
      (r : List A × EventPool bits scale nil event_time)
      → advance_add bits scale nil event_time t p iv ≡ ok r
      → HandsOver t p iv r
  unfolding advance_add
  advance_add-HandsOver t p iv r h =
      advance_loop-HandsOver (suc (length p.pool.items.items)) t p iv r h
