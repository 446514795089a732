-- ===== src/Elog/Ring.antt =====
-- The circular buffer of elog/elog.go against the list of the events logged.
use elib.Base.{
  ok, lt→ltb, ℕ, suc, ◌+◌, ◌-◌, ◌*◌, ◌/◌, ◌%◌, ◌^◌, ◌≤◌, ◌<◌, ◌≡◌, ◌≢◌, refl, sym, ◌∙◌, ap, ap₂,
  arith, true, Bool-cases, inl, inr, some, List, [], ◌∷◌, ◌++◌, length, set, get_or, length-append,
  length-set, get_or-set, get_or-append_left, get_or-append_right, ltb, lt→leb, ltb→lt, ltb→le,
  ◌==◌, ==_iff, ne→==, if_true, if_false,
}
use native.Mathlib.Nat.{mod-lt, mod-eq_of_lt, div-add-mod, mul-le-mul_left}
use elib.Word.Pow.{two_pow-pos}
use elib.Word.Mask.{bit_and-mask}
use elib.Elog.{Event, Buffer, zero_event, slot_of, get_event_slot, is_enabled, add_event}

-- What two lists have at each index.
pub list_ext :
    (xs ys : List Event)
    → length xs ≡ length ys
    → ((i : ℕ) → i < length xs → get_or xs i zero_event ≡ get_or ys i zero_event)
    → xs ≡ ys
list_ext [] [] l h = refl
list_ext [] (y ∷ ys) l h = absurd (omega (arith, l))
list_ext (x ∷ xs) [] l h = absurd (omega (arith, l))
list_ext (x ∷ xs) (y ∷ ys) l h =
    ap₂ (λ e es. e ∷ es) (h 0 (omega arith))
      (list_ext xs ys (omega (arith, l)) (λ i lt. h (suc i) (omega (arith, lt))))

-- Two numbers less than `c` apart with the same rest are the same.
same_mod : (c i j : ℕ) → 0 < c → i ≤ j → j < i + c → i % c ≡ j % c → i ≡ j
same_mod c i j p le lt e = elim (Bool-cases (ltb (i / c) (j / c))) [
  | inl t ↦ absurd (
      omega (
        arith,
        mul-le-mul_left c (ltb→lt (i / c) (j / c) t),
        div-add-mod i c,
        div-add-mod j c,
        lt,
        e,
      ))
  | inr t ↦ elim (Bool-cases (ltb (j / c) (i / c))) [
    | inl u ↦ absurd (
        omega (
          arith,
          mul-le-mul_left c (ltb→lt (j / c) (i / c) u),
          div-add-mod i c,
          div-add-mod j c,
          le,
          e,
          p,
        ))
    | inr u ↦
        let q : i / c ≡ j / c = omega (arith, ltb→le (i / c) (j / c) t, ltb→le (j / c) (i / c) u) in
        sym (div-add-mod i c) ∙ ap₂ (λ x y. c * x + y) q e ∙ div-add-mod j c
  ]
]

-- The buffer holds the last events of a log, each in the slot of its index.
abbrev pub IsLogOf : List Event → Buffer → Type 0
IsLogOf log b =
    (b.index ≡ length log)
    × (length log < 2 ^ 63)
    × (length b.events ≡ 2 ^ b.log2_len)
    × ((j : ℕ)
        → j < length log
        → length log ≤ j + 2 ^ b.log2_len
        → get_or b.events (j % 2 ^ b.log2_len) zero_event ≡ get_or log j zero_event)

-- A slot is an index's rest.
pub slot-rest : (b : Buffer) (i : ℕ) → 2 ^ b.log2_len < 2 ^ 63 → slot_of b i ≡ i % 2 ^ b.log2_len
slot-rest b i lt =
    let c = 2 ^ b.log2_len in
    let whole : c % 2 ^ 64 ≡ c = mod-eq_of_lt (omega (arith, lt)) in
    let mask : (c + 2 ^ 64 - 1) % 2 ^ 64 ≡ c - 1 = omega (arith, lt, two_pow-pos b.log2_len) in
    rw (whole, mask) (bit_and-mask b.log2_len i)

pub slot-inside :
    (log : List Event) (b : Buffer)
    → IsLogOf log b
    → 2 ^ b.log2_len < 2 ^ 63
    → slot_of b b.index < length b.events
slot-inside log b (count, small, size, kept) lt = omega (
  arith,
  slot-rest b b.index lt,
  size,
  mod-lt b.index {m = 2 ^ b.log2_len} (two_pow-pos b.log2_len),
)

stored_at :
    (log : List Event) (events : List Event) (c : ℕ) (e : Event) (j : ℕ)
    → 0 < c
    → length events ≡ c
    → ((j : ℕ)
        → j < length log
        → length log ≤ j + c
        → get_or events (j % c) zero_event ≡ get_or log j zero_event)
    → j < length (log ++ e ∷ [])
    → length (log ++ e ∷ []) ≤ j + c
    → get_or (set events (length log % c) e) (j % c) zero_event
      ≡ get_or (log ++ e ∷ []) j zero_event
stored_at log events c e j p l h lt le =
    let n = length log in
    let total = length-append log (e ∷ []) in
    let write =
      get_or-set events (n % c) (j % c) e zero_event (omega (arith, mod-lt n {m = c} p, l)) in
    elim (Bool-cases (ltb j n)) [
      | inl t ↦
          let below = ltb→lt j n t in
          let apart : (n % c) ≢ (j % c) = λ q. absurd (
            omega (
              arith,
              same_mod c j n p (omega (arith, below)) (omega (arith, le, total)) (sym q),
              below,
            )) in
          write
          ∙ if_false _ _ (ne→== (n % c) (j % c) apart)
          ∙ h j below (omega (arith, le, total))
          ∙ sym (get_or-append_left log (e ∷ []) j zero_event below)
      | inr t ↦
          let at : n ≡ j = omega (arith, ltb→le j n t, lt, total) in
          let here : (n % c == j % c) ≡ true = (==_iff (n % c) (j % c)).1 (ap (λ x. x % c) at) in
          write
          ∙ if_true _ _ here
          ∙ sym (
              get_or-append_right log (e ∷ []) j zero_event (omega (arith, at))
              ∙ ap (λ k. get_or (e ∷ []) k zero_event) {x = j - n} {y = 0} (omega (arith, at)))
    ]

-- The buffer with one more event.
abbrev pub logged : Event → Buffer → Buffer
logged e b = record b { events = set b.events (slot_of b b.index) e; index = b.index + 1 }

pub add_event-logged :
    (now type_index track : ℕ) (bytes : List ℕ) (b : Buffer)
    → is_enabled b ≡ true
    → b.index < 2 ^ 63
    → slot_of b b.index < length b.events
    → add_event now type_index track bytes b
      ≡ some (
          ok (
            logged
              (record {
                timestamp = now;
                type_index = type_index % 2 ^ 16;
                track = track;
                bytes = bytes;
              })
              b))
unfolding add_event get_event_slot
add_event-logged now type_index track bytes b on lt inside =
    if_true _ _ on
    ∙ rw (lt→leb (2 ^ 63) b.index lt)
        (rw (lt→ltb (slot_of b b.index) (length b.events) inside) refl)

-- One more event in the buffer is one more at the end of the log.
pub logged-IsLogOf :
    (log : List Event) (e : Event) (b : Buffer)
    → IsLogOf log b
    → suc (length log) < 2 ^ 63
    → 2 ^ b.log2_len < 2 ^ 63
    → IsLogOf (log ++ e ∷ []) (logged e b)
logged-IsLogOf log e b (count, small, size, kept) room width =
    let c = 2 ^ b.log2_len in
    let at : slot_of b b.index ≡ length log % c =
      slot-rest b b.index width ∙ ap (λ n. n % c) count in
    (
      omega (arith, count, length-append log (e ∷ [])),
      omega (arith, room, length-append log (e ∷ [])),
      length-set b.events (slot_of b b.index) e ∙ size,
      λ j lt le.
          ap (λ s. get_or (set b.events s e) (j % c) zero_event) at
          ∙ stored_at log b.events c e j (two_pow-pos b.log2_len) size kept lt le,
    )
