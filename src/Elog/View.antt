-- ===== src/Elog/View.antt =====
-- NewView of elog/elog.go against the list of the events logged.
use elib.Base.{
  le→ltb, Bool, false, refl, ok, ◌||◌, ℕ, ◌+◌, ◌-◌, ◌*◌, ◌/◌, ◌%◌, ◌^◌, ◌≤◌, ◌<◌, ◌≡◌, sym, ◌∙◌, ap,
  arith, true, Bool-cases, inl, inr, Option, some, none, List, [], ◌++◌, length, take, drop, get_or,
  length-append, length-take, length-drop, get_or-take, get_or-drop, get_or-append_left,
  get_or-append_right, leb, leb→le, leb→lt, ltb, lt→leb, le→leb, ltb→lt, ltb→le, if◌then◌else◌,
  if_true, if_false,
}
use native.Mathlib.Nat.{mod-lt, div-add-mod, mul-add-mod_self_left, mod-eq_of_lt, le-div_iff_mul-le}
use elib.Word.Pow.{two_pow-pos}
use elib.Elog.Ring.{list_ext, slot-rest, IsLogOf}
use elib.Elog.{
  lock_bit, unlocked, Event, Buffer, zero_event, lock_index, new_view, view_events, no_events,
}
use elib.Cap.{FloatScale}
use elib.Vec.{len}
use elib.Vec.Resize.{resize-Resized}

-- The slot of the event `i` places after the oldest one, in a full buffer.
wrapped_low : (c n i : ℕ) → 0 < c → c ≤ n → n % c + i < c → (n - c + i) % c ≡ n % c + i
wrapped_low c n i p le lt =
    let q : c * (n / c) + n % c ≡ n = div-add-mod n c in
    let full : 1 ≤ n / c = (le-div_iff_mul-le {k = c} {x = 1} {y = n} p).1 (omega (arith, le)) in
    let rest : c * (n / c) ≡ c * (n / c - 1) + c =
      omega (arith, full, ap (λ x. c * x) {x = n / c} {y = n / c - 1 + 1} (omega (arith, full))) in
    ap (λ x. x % c) {x = n - c + i} {y = c * (n / c - 1) + (n % c + i)} (omega (arith, q, rest, le))
    ∙ mul-add-mod_self_left c (n / c - 1) (n % c + i)
    ∙ mod-eq_of_lt lt

wrapped_high : (c n i : ℕ) → 0 < c → c ≤ n → i < c → c ≤ n % c + i → (n - c + i) % c ≡ n % c + i - c
wrapped_high c n i p le lt high =
    let q : c * (n / c) + n % c ≡ n = div-add-mod n c in
    ap (λ x. x % c) {x = n - c + i} {y = c * (n / c) + (n % c + i - c)} (omega (arith, q, le, high))
    ∙ mul-add-mod_self_left c (n / c) (n % c + i - c)
    ∙ mod-eq_of_lt (omega (arith, mod-lt n {m = c} p, lt, high))

-- The events of a view, from the slot that comes next.
abbrev seen : List Event → ℕ → ℕ → List Event
seen events c n =
    let old : List Event = if leb c n then take c (drop (n % c) events) else [] in
    old ++ take (c - length old) (take (n % c) events)

full_view :
    (log events : List Event) (c : ℕ)
    → 0 < c
    → length events ≡ c
    → c ≤ length log
    → ((j : ℕ)
        → j < length log
        → length log ≤ j + c
        → get_or events (j % c) zero_event ≡ get_or log j zero_event)
    → take c (drop (length log % c) events)
        ++ take (c - length (take c (drop (length log % c) events))) (take (length log % c) events)
      ≡ drop (length log - c) log
full_view log events c p size le kept =
    let n = length log in
    let r = n % c in
    let small = mod-lt n {m = c} p in
    let old = take c (drop r events) in
    let new = take (c - length old) (take r events) in
    let old_length : length old ≡ c - r =
      length-take c (drop r events) ∙ omega (arith, length-drop r events, size) in
    let new_length : length new ≡ r =
      length-take (c - length old) (take r events)
      ∙ omega (arith, length-take r events, size, small, old_length) in
    let whole : length (old ++ new) ≡ c =
      omega (arith, length-append old new, old_length, new_length, small) in
    list_ext (old ++ new) (drop (n - c) log) (omega (arith, whole, length-drop (n - c) log, le))
      (λ i lt.
        let below : i < c = omega (arith, lt, whole) in
        let wanted =
          kept (n - c + i) (omega (arith, below, le)) (omega (arith, le))
          ∙ sym (get_or-drop (n - c) log i zero_event) in
        elim (Bool-cases (ltb i (c - r))) [
          | inl t ↦
              let early = ltb→lt i (c - r) t in
              get_or-append_left old new i zero_event (omega (arith, early, old_length))
              ∙ get_or-take c (drop r events) i zero_event below
              ∙ get_or-drop r events i zero_event
              ∙ ap (λ k. get_or events k zero_event)
                  (sym (wrapped_low c n i p le (omega (arith, early))))
              ∙ wanted
          | inr t ↦
              let late = ltb→le i (c - r) t in
              get_or-append_right old new i zero_event (omega (arith, late, old_length))
              ∙ get_or-take (c - length old) (take r events) (i - length old) zero_event
                  (omega (arith, below, late, old_length, small))
              ∙ get_or-take r events (i - length old) zero_event
                  (omega (arith, below, late, old_length, small))
              ∙ ap (λ k. get_or events k zero_event)
                  (omega (
                    arith,
                    wrapped_high c n i p le below (omega (arith, late, small)),
                    old_length,
                    small,
                    late,
                  ))
              ∙ wanted
        ])

short_view :
    (log events : List Event) (c : ℕ)
    → length events ≡ c
    → length log < c
    → ((j : ℕ)
        → j < length log
        → length log ≤ j + c
        → get_or events (j % c) zero_event ≡ get_or log j zero_event)
    → take (c - 0) (take (length log % c) events) ≡ drop (length log - c) log
short_view log events c size lt kept =
    let n = length log in
    let rest : n % c ≡ n = mod-eq_of_lt lt in
    let new = take (c - 0) (take (n % c) events) in
    let new_length : length new ≡ n =
      length-take (c - 0) (take (n % c) events)
      ∙ omega (arith, length-take (n % c) events, size, lt, rest) in
    list_ext new (drop (n - c) log) (omega (arith, new_length, length-drop (n - c) log, lt)) (λ i l.
      let below : i < n = omega (arith, l, new_length) in
      let same : i % c ≡ i = mod-eq_of_lt (omega (arith, below, lt)) in
      get_or-take (c - 0) (take (n % c) events) i zero_event (omega (arith, below, lt))
      ∙ get_or-take (n % c) events i zero_event (omega (arith, below, rest))
      ∙ ap (λ k. get_or events k zero_event) (sym same)
      ∙ kept i below (omega (arith, lt))
      ∙ ap (λ k. get_or log k zero_event) {x = i} {y = n - c + i} (omega (arith, lt))
      ∙ sym (get_or-drop (n - c) log i zero_event))

seen-last :
    (log events : List Event) (c : ℕ)
    → 0 < c
    → length events ≡ c
    → ((j : ℕ)
        → j < length log
        → length log ≤ j + c
        → get_or events (j % c) zero_event ≡ get_or log j zero_event)
    → seen events c (length log) ≡ drop (length log - c) log
seen-last log events c p size kept = elim (Bool-cases (leb c (length log))) [
  | inl t ↦ rw t (full_view log events c p size (leb→le c (length log) t) kept)
  | inr t ↦ rw t (short_view log events c size (leb→lt c (length log) t) kept)
]

or_false : (b : Bool) → (b || false) ≡ b
or_false true = refl
or_false false = refl

pub take_lock :
    (b : Buffer)
    → b.index < 2 ^ 63
    → lock_index true b ≡ some (b.index, record b { index = b.index + lock_bit })
unfolding lock_index
take_lock b lt = if_false _ _ (lt→leb lock_bit b.index lt)

pub release : (b : Buffer) → unlocked (record b { index = b.index + lock_bit }) ≡ some b
unfolding lock_index
release b =
    ap (λ (m : Option (ℕ × Buffer)). elim m [ none ↦ none | some p ↦ some p.1 ])
      (if_true _ _ (le→leb lock_bit (b.index + lock_bit) (omega arith)))
    ∙ ap (λ i. some (record b { index = i })) (omega arith)

-- NewView of a buffer that holds a log, has at most 2^29 slots and is not locked, gives the last events of
-- the log in their order, as many as the buffer has room for, and leaves the buffer as it was.
pub new_view-last :
    (scale : FloatScale) (log : List Event) (b : Buffer)
    → IsLogOf log b
    → 2 ^ b.log2_len ≤ 2 ^ 29
    → new_view scale b ≡ some (ok (drop (length log - 2 ^ b.log2_len) log, b))
unfolding new_view view_events
new_view-last scale log b (count, small, size, kept) few =
    let c = 2 ^ b.log2_len in
    let whole : c % 2 ^ 64 ≡ c = mod-eq_of_lt (omega (arith, few)) in
    let (view, e, r) =
      resize-Resized scale zero_event no_events c (omega arith) (omega (arith, few)) in
    let room : len view ≡ c = omega (arith, r.longer) in
    let slot = slot-rest b b.index (omega (arith, few)) in
    let positive : (leb c b.index || leb (2 ^ 63) c) ≡ leb c b.index =
      rw (lt→leb (2 ^ 63) c (omega (arith, few))) (or_false (leb c b.index)) in
    let bounded : b.index % c < c = mod-lt b.index {m = c} (two_pow-pos b.log2_len) in
    rw
      (
        new_view,
        take_lock b (omega (arith, count, small)),
        release b,
        slot,
        whole,
        e,
        room,
        positive,
        le→ltb (length b.events) (b.index % c) (omega (arith, size, bounded)),
      )
      (ap (λ es. some (ok (es, b)))
        (ap (seen b.events c) count ∙ seen-last log b.events c (two_pow-pos b.log2_len) size kept))
