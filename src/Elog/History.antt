-- ===== src/Elog/History.antt =====
-- Events added one after another to a buffer of elog/elog.go.
use mathlib.Core.Path.{subst}
use mathlib.Core.List.{append_assoc, append-nil}
use elib.Base.{
  Outcome, ok, panic, lt→leb, ℕ, zero, suc, ◌+◌, ◌-◌, ◌%◌, ◌^◌, ◌≤◌, ◌<◌, ◌≡◌, refl, sym, ◌∙◌, ap,
  ap₂, arith, true, false, Bool-cases, inl, inr, Option, some, none, List, [], ◌∷◌, ◌++◌, length,
  take, take_all, drop, replicate, min, map, length-append, length-replicate, ltb, ltb→lt, ltb→le,
  ◌==◌, if◌then◌else◌, if_false,
}
use elib.Elog.{
  Event, Buffer, zero_event, unlocked, is_enabled, add_event, new_buffer, enable, lock_index,
  disable_after, new_view,
}
use elib.Elog.Ring.{IsLogOf, logged, logged-IsLogOf, add_event-logged, slot-inside}
use elib.Cap.{FloatScale}
use elib.Elog.View.{new_view-last, take_lock, release}
use elib.Word.Pow.{two_pow-le}
use native.Mathlib.Nat.{mod-eq_of_lt}

-- Calls of Add, in order.
abbrev pub add_all : List Event → Buffer → Option (Outcome Buffer)
add_all [] b = some (ok b)
add_all (e ∷ es) b = elim (add_event e.timestamp e.type_index e.track e.bytes b) [
  | none ↦ none
  | some (panic e) ↦ some (panic e)
  | some (ok b') ↦ add_all es b'
]

-- The event as it is kept: a type is 16 bits.
abbrev pub kept_event : Event → Event
kept_event e = record e { type_index = e.type_index % 2 ^ 16 }

disabled_add :
    (e : Event) (b : Buffer)
    → is_enabled b ≡ false
    → add_event e.timestamp e.type_index e.track e.bytes b ≡ some (ok b)
unfolding add_event
disabled_add e b off = if_false _ _ off

take_none : (n : ℕ) → take {A = Event} n [] ≡ []
take_none zero = refl
take_none (suc n) = refl

enabled_below :
    (log : List Event) (b : Buffer)
    → IsLogOf log b
    → ltb (length log) b.disable_index ≡ true
    → is_enabled b ≡ true
unfolding is_enabled
enabled_below log b l t = ap (λ i. ltb i b.disable_index) l.0 ∙ t

disabled_at :
    (log : List Event) (b : Buffer)
    → IsLogOf log b
    → ltb (length log) b.disable_index ≡ false
    → is_enabled b ≡ false
unfolding is_enabled
disabled_at log b l t = ap (λ i. ltb i b.disable_index) l.0 ∙ t

then_all :
    (e : Event) (es : List Event) (b b' : Buffer)
    → add_event e.timestamp e.type_index e.track e.bytes b ≡ some (ok b')
    → add_all (e ∷ es) b ≡ add_all es b'
then_all e es b b' h =
    ap (λ m. elim m [ none ↦ none | some (panic f) ↦ some (panic f) | some (ok c) ↦ add_all es c ])
      h

one_more :
    (log : List Event) (e : Event) (es : List Event) (d : ℕ)
    → length log < d
    → (log ++ e ∷ []) ++ take (d - length (log ++ e ∷ [])) es
      ≡ log ++ take (d - length log) (e ∷ es)
one_more log e es d lt =
    append_assoc log (e ∷ []) (take (d - length (log ++ e ∷ [])) es)
    ∙ ap (λ k. log ++ take k (e ∷ es)) {x = suc (d - length (log ++ e ∷ []))} {y = d - length log}
        (omega (arith, lt, length-append log (e ∷ [])))

-- A buffer with a limit keeps the events up to the limit: those after it are dropped.
pub add_all-IsLogOf :
    (es log : List Event) (b : Buffer)
    → IsLogOf log b
    → length log ≤ b.disable_index
    → b.disable_index < 2 ^ 63
    → 2 ^ b.log2_len < 2 ^ 63
    → (b' : Buffer) × (add_all es b ≡ some (ok b'))
      × IsLogOf (log ++ take (b.disable_index - length log) (map kept_event es)) b'
      × (b'.log2_len ≡ b.log2_len)
add_all-IsLogOf [] log b l le lt width = (
  b,
  refl,
  subst (λ k. IsLogOf k b)
      (sym (ap (λ t. log ++ t) (take_none (b.disable_index - length log)) ∙ append-nil log)) l,
  refl,
)
add_all-IsLogOf (e ∷ es) log b l le lt width =
    elim (Bool-cases (ltb (length log) b.disable_index)) [
      | inl t ↦
          let on : is_enabled b ≡ true = enabled_below log b l t in
          let room = ltb→lt (length log) b.disable_index t in
          let total = length-append log (kept_event e ∷ []) in
          let (b', run, holds, size) =
            add_all-IsLogOf es (log ++ kept_event e ∷ []) (logged (kept_event e) b)
              (logged-IsLogOf log (kept_event e) b l (omega (arith, room, lt)) width)
              (omega (arith, room, total)) lt width in
          (
            b',
            then_all e es b (logged (kept_event e) b) (
                  add_event-logged e.timestamp e.type_index e.track e.bytes b on
                    (omega (arith, l.0, l.1)) (slot-inside log b l width))
                ∙ run,
            subst (λ k. IsLogOf k b')
                (one_more log (kept_event e) (map kept_event es) b.disable_index room) holds,
            size,
          )
      | inr t ↦
          let off = disabled_at log b l t in
          let full : b.disable_index - length log ≡ 0 =
            omega (arith, ltb→le (length log) b.disable_index t) in
          let (b', run, holds, size) = add_all-IsLogOf es log b l le lt width in
          (
            b',
            then_all e es b b (disabled_add e b off) ∙ run,
            subst (λ k. IsLogOf k b')
                (ap (λ k. log ++ take k (map kept_event es)) full
                  ∙ sym (ap (λ k. log ++ take k (kept_event e ∷ map kept_event es)) full))
                holds,
            size,
          )
    ]

length-kept : (es : List Event) → length (map kept_event es) ≡ length es
length-kept [] = refl
length-kept (e ∷ es) = omega (arith, length-kept es)

last_of :
    (es : List Event) (d k k' : ℕ)
    → length es ≤ d
    → k ≡ k'
    → drop (length (take d (map kept_event es)) - 2 ^ k) (take d (map kept_event es))
      ≡ drop (length es - 2 ^ k') (map kept_event es)
last_of es d k k' le e =
    let whole = take_all d (map kept_event es) (omega (arith, le, length-kept es)) in
    rw whole (ap₂ (λ m c. drop (m - 2 ^ c) (map kept_event es)) (length-kept es) e)

-- A new buffer that was enabled.
abbrev enabled_buffer : ℕ → ℕ → Buffer
enabled_buffer now k = record {
  events = replicate (2 ^ k) zero_event;
  index = 0;
  disable_index = 2 ^ 63 - 1;
  log2_len = k;
  cpu_start_time = now;
}

enabled_buffer-IsLogOf : (now k : ℕ) → IsLogOf [] (enabled_buffer now k)
enabled_buffer-IsLogOf now k =
    (refl, omega arith, length-replicate (2 ^ k) zero_event, λ j lt. absurd (omega (arith, lt)))

-- The length that New takes.
abbrev pub new_log2_len : ℕ → ℕ
new_log2_len k = if k == 0 then 10 else if ltb k 8 then 8 else k

-- Events, fewer than 2^63, added to a buffer that was enabled when it was empty, and that New made with at most
-- 2^29 slots: nothing panics, and NewView gives the last of the events, in their order, as many as the
-- buffer has room for.
pub new_view-add_all :
    (scale : FloatScale) (es : List Event) (now log2_len : ℕ)
    → length es < 2 ^ 63
    → log2_len ≤ 29
    → (b0 b b' : Buffer) × (new_buffer now log2_len ≡ ok b0)
      × (enable true b0 ≡ some b)
      × (add_all es b ≡ some (ok b'))
      × (new_view scale b' ≡ some (ok (drop (length es - 2 ^ b.log2_len) (map kept_event es), b')))
unfolding enable new_buffer lock_index
new_view-add_all scale es now log2_len lt few =
    let k = new_log2_len log2_len in
    let fits : k ≤ 29 = ground (arith, few) in
    let room : 2 ^ k ≤ 2 ^ 29 = two_pow-le {a = k} {b = 29} fits in
    let b = enabled_buffer now k in
    let (b', run, holds, size) =
      add_all-IsLogOf es [] b (enabled_buffer-IsLogOf now k) (omega arith) (omega arith)
        (omega (arith, room)) in
    let room' : 2 ^ b'.log2_len ≤ 2 ^ 29 = omega (arith, ap (λ n. 2 ^ n) size, room) in
    let view = new_view-last scale (take (2 ^ 63 - 1 - 0) (map kept_event es)) b' holds room' in
    let whole : 2 ^ k % 2 ^ 64 ≡ 2 ^ k = mod-eq_of_lt (omega (arith, room)) in
    (
      record b { disable_index = 0 },
      b,
      b',
      rw (whole, lt→leb (2 ^ 63) (2 ^ k) (omega (arith, room))) refl,
      refl,
      run,
      view
          ∙ ap (λ l. some (ok (l, b')))
              (last_of es (2 ^ 63 - 1 - 0) b'.log2_len k (omega (arith, lt)) size),
    )

disable_after-done :
    (n : ℕ) (b : Buffer)
    → b.index < 2 ^ 63
    → disable_after n b
      ≡ some (record b {
        disable_index =
            (b.index + (if ltb (2 ^ (b.log2_len - 1)) n then 2 ^ (b.log2_len - 1) else n)) % 2 ^ 64;
      })
unfolding disable_after
disable_after-done n b lt =
    let limit : ℕ = if ltb (2 ^ (b.log2_len - 1)) n then 2 ^ (b.log2_len - 1) else n in
    ap
      (λ (m : Option (ℕ × Buffer)). elim m [
        | none ↦ none
        | some p ↦ unlocked (record (p.1) { disable_index = (p.0 + limit) % 2 ^ 64 })
      ])
      (take_lock b lt)
    ∙ release (record b { disable_index = (b.index + limit) % 2 ^ 64 })

cut_limit : (half n : ℕ) → (if ltb half n then half else n) ≡ min n half
cut_limit half n = elim (Bool-cases (ltb half n)) [
  | inl e ↦ rw e (omega (arith, ltb→lt half n e))
  | inr e ↦ rw e (omega (arith, ltb→le half n e))
]

-- Logging stops after the number of events that DisableAfter was given, which is cut to half of the
-- buffer: of the events added after it the first so many are in the log, after those before.
pub disable_after-IsLogOf :
    (es log : List Event) (b : Buffer) (n : ℕ)
    → IsLogOf log b
    → length log + 2 ^ b.log2_len < 2 ^ 63
    → (b' b'' : Buffer) × (disable_after n b ≡ some b')
      × (add_all es b' ≡ some (ok b''))
      × IsLogOf (log ++ take (min n (2 ^ (b.log2_len - 1))) (map kept_event es)) b''
disable_after-IsLogOf es log b n l lt =
    let half = 2 ^ (b.log2_len - 1) in
    let small = two_pow-le {a = b.log2_len - 1} {b = b.log2_len} (omega arith) in
    let limit : (b.index + (if ltb half n then half else n)) % 2 ^ 64 ≡ length log + min n half =
      ap (λ x. x % 2 ^ 64) {y = length log + min n half} (omega (arith, l.0, cut_limit half n))
      ∙ mod-eq_of_lt (omega (arith, lt, small)) in
    let b' = record b { disable_index = length log + min n half } in
    let (b'', run, holds, _) =
      add_all-IsLogOf es log b' l (omega arith) (omega (arith, lt, small)) (omega (arith, lt)) in
    (
      b',
      b'',
      disable_after-done n b (omega (arith, l.0, l.1))
          ∙ ap (λ d. some (record b { disable_index = d })) limit,
      run,
      subst (λ k. IsLogOf (log ++ take k (map kept_event es)) b'')
          {x = length log + min n half - length log} (omega arith) holds,
    )
