-- ===== src/Elog/Encoding.antt =====
-- elog/encoding.go: events as bytes. The bytes are written and read from the front; `put_uvarint` and
-- `uvarint` are PutUvarint and Uvarint of the package encoding/binary, the second with none for a
-- result that is not positive.
pub mod Varint
pub mod Events
pub mod Marshal
pub mod Views
use elib.Base.{
  ℕ, zero, suc, ◌+◌, ◌-◌, ◌*◌, ◌/◌, ◌%◌, ◌^◌, Bool, true, false, ◌&&◌, ◌||◌, Option, some, none,
  List, [], ◌∷◌, ◌++◌, length, take, drop, get_elem?, ltb, leb, ◌==◌, if◌then◌else◌,
}
use elib.Elog.{Event}

-- Seven bits a byte, the low ones first; the top bit tells that more bytes follow.
unfoldable pub put_uvarint_loop : ℕ → ℕ → List ℕ
put_uvarint_loop zero x = []
put_uvarint_loop (suc fuel) x =
    let rest = put_uvarint_loop fuel (x / 128) in
    if ltb x 128 then x ∷ [] else (x % 128 + 128) ∷ rest

-- Ten bytes hold 64 bits.
abbrev pub put_uvarint : ℕ → List ℕ
put_uvarint = put_uvarint_loop 10

-- The value so far, the weight of the next byte and how many bytes were read. The tenth byte has one bit.
unfoldable pub uvarint_loop : ℕ → ℕ → ℕ → List ℕ → Option (ℕ × ℕ)
uvarint_loop x weight n [] = none
uvarint_loop x weight n (b ∷ bs) =
    let more = uvarint_loop (x + b % 128 * weight) (weight * 128) (n + 1) bs in
    let last : Option (ℕ × ℕ) =
      if ltb 9 n || n == 9 && ltb 1 b then none else some (x + b * weight, n + 1) in
    if ltb b 128 then last else more

abbrev pub uvarint : List ℕ → Option (ℕ × ℕ)
uvarint = uvarint_loop 0 1 0

-- The number, and the bytes that are left.
abbrev pub elog_uvarint : List ℕ → Option (ℕ × List ℕ)
elog_uvarint b = elim (uvarint b) [ none ↦ none | some (x, n) ↦ some (x, drop n b) ]

-- How decoding fails.
pub data Failure : Type 0 where
  underflow type_out_of_range index_panic unknown_type bad_time : Failure

pub data Decoded {ℓ} (A : Type ℓ) : Type ℓ where
  good : A → Decoded A
  bad : Failure → Decoded A

infixl 5 ◌>>=◌
abbrev pub ◌>>=◌ : {A B : Type 0} → Decoded A → (A → Decoded B) → Decoded B
good a >>= f = f a
bad e >>= f = bad e

abbrev pub read_uvarint : List ℕ → Decoded (ℕ × List ℕ)
read_uvarint b = elim (elog_uvarint b) [ none ↦ bad underflow | some r ↦ good r ]

-- `Encode` and `Decode` of the types: the bytes of an event's data, of at most so many, and the data and
-- the number of bytes read for a type.
pub record Codec : Type 0 where
  pub encode_data : Event → ℕ → List ℕ
  pub decode_data : ℕ → List ℕ → List ℕ × ℕ

-- The numbers before the data of an event. The time is the difference from the event before.
abbrev pub header : Event → ℕ → ℕ → List ℕ
header e e_type t0 =
    put_uvarint ((e.timestamp + 2 ^ 64 - t0) % 2 ^ 64) ++ put_uvarint e_type ++ put_uvarint e.track

-- `typeMap[x]`; an index of 2^63 or more is negative in the test.
abbrev pub type_at : List ℕ → ℕ → Decoded ℕ
type_at type_map x =
    if leb (length type_map) x && ltb x (2 ^ 63)
    then bad type_out_of_range
    else elim (get_elem? type_map x) [ some t ↦ good t | none ↦ bad index_panic ]

module _ (codec : Codec) where
  open codec use {encode_data, decode_data}

  -- Validate makes room for 65 bytes.
  unfoldable pub encode_event : Event → ℕ → ℕ → List ℕ
  encode_event e e_type t0 = header e e_type t0 ++ encode_data e (65 - length (header e e_type t0))

  unfoldable pub decode_event : List ℕ → ℕ → List ℕ → Decoded (Event × List ℕ)
  decode_event type_map t0 b = do
    (dt, b1) ← read_uvarint b
    (x, b2) ← read_uvarint b1
    type_index ← type_at type_map x
    (track, b3) ← read_uvarint b2
    let (bytes, n) = decode_data type_index b3
    good (
      record {
        timestamp = (t0 + dt) % 2 ^ 64;
        type_index = type_index;
        track = track % 2 ^ 16;
        bytes = bytes;
      },
      drop n b3,
    )

  -- The events one after another, each with the time of the one before; `local_type` is the index in the
  -- table of the types used.
  unfoldable pub encode_events : (ℕ → ℕ) → ℕ → List Event → List ℕ
  encode_events local_type t0 [] = []
  encode_events local_type t0 (e ∷ es) =
      encode_event e (local_type e.type_index % 2 ^ 16) t0
      ++ encode_events local_type e.timestamp es

  unfoldable pub decode_events : List ℕ → ℕ → ℕ → List ℕ → Decoded (List Event × List ℕ)
  decode_events type_map zero t0 b = good ([], b)
  decode_events type_map (suc n) t0 b = do
    (e, b1) ← decode_event type_map t0 b
    (es, b2) ← decode_events type_map n e.timestamp b1
    good (e ∷ es, b2)

abbrev pub mem : ℕ → List ℕ → Bool
mem t [] = false
mem t (x ∷ xs) = t == x || mem t xs

-- The types in the order of their first use.
unfoldable pub type_table : List Event → List ℕ → List ℕ
type_table [] types = types
type_table (e ∷ es) types =
    type_table es (if mem e.type_index types then types else types ++ e.type_index ∷ [])

-- `globalTypes[t]`: the index of a type in the table.
abbrev pub index_in : ℕ → List ℕ → ℕ
index_in t [] = 0
index_in t (x ∷ xs) = if t == x then 0 else suc (index_in t xs)

-- A view: the bytes of the time unit, eight of them, and of the start time are kept as they are.
pub record View : Type 0 where
  pub time_unit : List ℕ
  pub cpu_start_time : ℕ
  pub start_time : List ℕ
  pub events : List Event

-- The table of types by name, and whether bytes are those of a time.
pub record Registry : Type 0 where
  pub name_of : ℕ → List ℕ
  pub type_by_name : List ℕ → Option ℕ
  pub is_time : List ℕ → Bool

-- A length and as many bytes; a length of 2^63 or more is negative in the test.
abbrev pub put_bytes : List ℕ → List ℕ
put_bytes d = put_uvarint (length d) ++ d

unfoldable pub read_bytes : List ℕ → Decoded (List ℕ × List ℕ)
read_bytes b = do
  (n, b1) ← read_uvarint b
  if leb (2 ^ 63) n
      then bad index_panic
      else (if ltb (length b1) n then bad underflow else good (take n b1, drop n b1))

unfoldable pub encode_names : Registry → List ℕ → List ℕ
encode_names reg [] = []
encode_names reg (t ∷ ts) = put_bytes (reg.name_of t) ++ encode_names reg ts

unfoldable pub decode_names : Registry → ℕ → List ℕ → Decoded (List ℕ × List ℕ)
decode_names reg zero b = good ([], b)
decode_names reg (suc n) b = do
  (name, b1) ← read_bytes b
  let found : ℕ → Decoded (List ℕ × List ℕ) =
      λ t. do (ts, b2) ← decode_names reg n b1; good (t % 2 ^ 16 ∷ ts, b2)
  elim (reg.type_by_name name) [ none ↦ bad unknown_type | some t ↦ found t ]

module _ (codec : Codec) (reg : Registry) where
  -- The bytes of a view with these types.
  unfoldable pub view_bytes : List ℕ → View → List ℕ
  view_bytes types v =
      v.time_unit
      ++ put_uvarint v.cpu_start_time
      ++ put_bytes v.start_time
      ++ put_uvarint (length v.events)
      ++ put_uvarint (length types)
      ++ encode_names reg types
      ++ encode_events codec (λ t. index_in t types) v.cpu_start_time v.events

  -- UnmarshalBinary. Resize takes the lengths modulo 2^32; one that has no capacity there is not modelled.
  unfoldable pub unmarshal : List ℕ → Decoded View
  unmarshal b = do
    time_unit ← if ltb (length b) 8 then bad index_panic else good (take 8 b)
    (cpu_start_time, b1) ← read_uvarint (drop 8 b)
    (start_time, b2) ← read_bytes b1
    _ ← if reg.is_time start_time then good tt else bad bad_time
    (n_events, b3) ← read_uvarint b2
    (n_types, b4) ← read_uvarint b3
    (type_map, b5) ← decode_names reg (n_types % 2 ^ 32) b4
    (events, _) ← decode_events codec type_map (n_events % 2 ^ 32) cpu_start_time b5
    good (record {
      time_unit = time_unit;
      cpu_start_time = cpu_start_time;
      start_time = start_time;
      events = events;
    })
