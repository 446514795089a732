-- ===== src/Elog.antt =====
-- elog/elog.go: a circular buffer of events. Its length is a power of two, and the index counts the
-- events logged since it was last cleared. `cpu.TimeNow` is an argument of what reads it.
pub mod Ring
pub mod View
pub mod History
pub mod Encoding
use elib.Base.{
  index_out_of_range, ◌||◌, ℕ, zero, suc, ◌+◌, ◌-◌, ◌*◌, ◌/◌, ◌%◌, ◌^◌, Bool, true, false, Option,
  some, none, List, [], ◌∷◌, ◌++◌, Outcome, ok, panic, ◌>>=◌, load, length, set, take, drop,
  replicate, bit_and, bit_xor, ltb, leb, ◌==◌, if◌then◌else◌, min,
}
use elib.Cap.{FloatScale}
use elib.Vec.{Vec, len, resize}

pub record Event : Type 0 where
  pub timestamp : ℕ
  pub type_index : ℕ
  pub track : ℕ
  pub bytes : List ℕ

-- `lockBit`
abbrev pub lock_bit : ℕ
lock_bit = 2 ^ 63

pub record Buffer : Type 0 where
  -- Circular buffer of events.
  pub events : List Event
  -- Index into circular buffer, with the lock in its top bit.
  pub index : ℕ
  -- Disable logging when index reaches limit.
  pub disable_index : ℕ
  -- Buffer has space for 1<<log2Len.
  pub log2_len : ℕ
  pub cpu_start_time : ℕ

-- An int, as its 64 bits: zero from a shift by 64 on.
abbrev pub buffer_cap : Buffer → ℕ
buffer_cap b = 2 ^ b.log2_len % 2 ^ 64

-- The slot of an index.
abbrev pub slot_of : Buffer → ℕ → ℕ
slot_of b i = bit_and i ((buffer_cap b + 2 ^ 64 - 1) % 2 ^ 64)

abbrev pub is_locked : ℕ → Bool
is_locked i = leb lock_bit i

-- One attempt of getEvent: the slot of the event that it takes, or none while the index is locked.
unfoldable pub get_event_slot : Buffer → Option (ℕ × Buffer)
get_event_slot b =
    if is_locked b.index then none else some (slot_of b b.index, record b { index = b.index + 1 })

-- One attempt of lockIndex: the index without its lock, or none while it is as wanted.
unfoldable pub lock_index : Bool → Buffer → Option (ℕ × Buffer)
lock_index true b =
    if is_locked b.index then none else some (b.index, record b { index = b.index + lock_bit })
lock_index false b =
    if is_locked b.index
    then some (b.index - lock_bit, record b { index = b.index - lock_bit })
    else none

-- What is done between lockIndex(true) and lockIndex(false), by one thread alone.
abbrev pub unlocked : Buffer → Option Buffer
unlocked b = elim (lock_index false b) [ none ↦ none | some (_, b') ↦ some b' ]

abbrev pub locked : (ℕ → Buffer → Buffer) → Buffer → Option Buffer
locked f b = elim (lock_index true b) [ none ↦ none | some (i, b') ↦ unlocked (f i b') ]

unfoldable pub enable : Bool → Buffer → Option Buffer
enable v =
    locked (λ _ b. record b { index = lock_bit; disable_index = if v then 2 ^ 63 - 1 else 0 })

unfoldable pub is_enabled : Buffer → Bool
is_enabled b = ltb b.index b.disable_index

unfoldable pub clear_buffer : Buffer → Option Buffer
clear_buffer = locked (λ _ b. record b { index = lock_bit })

-- `1<<(b.log2Len-1)`
unfoldable pub disable_after : ℕ → Buffer → Option Buffer
disable_after n b =
    let half = 2 ^ (b.log2_len - 1) in
    let n' : ℕ = if ltb half n then half else n in
    locked (λ i b'. record b' { disable_index = (i + n') % 2 ^ 64 }) b

-- Add of a type, and the writes of the track and the data that the caller makes through the pointer.
-- A disabled buffer gives the event that is not kept. A slot past the buffer is an index panic.
unfoldable pub add_event : ℕ → ℕ → ℕ → List ℕ → Buffer → Option (Outcome Buffer)
add_event now type_index track bytes b =
    let e : Event = record {
      timestamp = now;
      type_index = type_index % 2 ^ 16;
      track = track;
      bytes = bytes;
    } in
    let logged : Option (Outcome Buffer) = elim (get_event_slot b) [
      | none ↦ none
      | some (i, b') ↦ some (
          if ltb i (length b'.events)
          then ok (record b' { events = set b'.events i e })
          else panic index_out_of_range)
    ] in
    if is_enabled b then logged else some (ok b)

abbrev pub zero_event : Event
zero_event = record { timestamp = 0; type_index = 0; track = 0; bytes = replicate 52 0 }

-- `make` panics for a negative length.
unfoldable pub new_buffer : ℕ → ℕ → Outcome Buffer
new_buffer now log2_len =
    let l : ℕ = if log2_len == 0 then 10 else if ltb log2_len 8 then 8 else log2_len in
    let size = 2 ^ l % 2 ^ 64 in
    if leb (2 ^ 63) size
    then panic index_out_of_range
    else ok (record {
      events = replicate size zero_event;
      index = 0;
      disable_index = 0;
      log2_len = l;
      cpu_start_time = now;
    })

-- Len of a buffer that is not locked: the number of events that are kept.
unfoldable pub buffer_len : Buffer → ℕ
buffer_len b = if ltb (buffer_cap b) b.index then buffer_cap b else b.index

-- `int(b.index - 1<<b.log2Len)` is below zero for a difference of 2^63 or more.
unfoldable pub first_index : Buffer → ℕ
first_index b =
    let f = (b.index + 2 ^ 64 - buffer_cap b) % 2 ^ 64 in
    slot_of b (if leb (2 ^ 63) f then 0 else f)

unfoldable pub get_event : Buffer → ℕ → Outcome Event
get_event b i = load b.events (slot_of b (first_index b + i))

abbrev pub no_events : Vec Event
no_events = record { items = []; spare = [] }

-- The events of a view with so much room, in a buffer with the slot that comes next: the oldest first. `copy`
-- stops at the room that is left.
unfoldable pub view_events : ℕ → Bool → ℕ → List Event → List Event
view_events room is_full slot events =
    let old : List Event = if is_full then take room (drop slot events) else [] in
    old ++ take (room - length old) (take slot events)

-- NewView: the events that are kept. Resize has 32 bits for the length; a capacity of 2^63 is negative.
unfoldable pub new_view : FloatScale → Buffer → Option (Outcome (List Event × Buffer))
new_view scale b = elim (lock_index true b) [
  | none ↦ none
  | some (i, b') ↦
      let is_full : Bool = leb (buffer_cap b) i || leb (2 ^ 63) (buffer_cap b) in
      elim (unlocked b') [
        | none ↦ none
        | some b'' ↦ some (do
          view ← resize scale zero_event no_events (buffer_cap b)
          let seen = view_events (len view) is_full (slot_of b i) b.events
          if ltb (length b.events) (slot_of b i) then panic index_out_of_range else ok (seen, b''))
      ]
]
