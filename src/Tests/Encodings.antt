-- ===== src/Tests/Encodings.antt =====
-- A view of two events as bytes.
use elib.Base.{
  ok, length, ◌+◌, ◌<◌, ℕ, ◌^◌, ◌≡◌, refl, arith, true, List, [], ◌∷◌, take, replicate, Option,
  some, none,
}
use elib.Elog.Encoding.{
  encode_events, encode_event, encode_names, Codec, Registry, View, view_bytes, unmarshal,
  type_table, decode_event, bad, good, index_panic, put_uvarint, put_uvarint_loop, uvarint_loop,
}
use elib.Elog.Encoding.Marshal.{marshal}
use elib.Tests.Scale.{decimal_scale}
use elib.Tests.Bitmap.{no_bitmaps, no_extra, lv}
use elib.Elog.Encoding.Views.{unmarshal-marshal}

-- The data of an event is two bytes.
abbrev two_bytes : Codec
two_bytes = record { encode_data = λ e _. e.bytes; decode_data = λ _ b. (take 2 b, 2) }

abbrev only_byte : List ℕ → Option ℕ
only_byte [] = none
only_byte (t ∷ ts) = some t

abbrev by_number : Registry
by_number = record { name_of = λ t. t ∷ []; type_by_name = only_byte; is_time = λ _. true }

abbrev two_events : View
two_events = record {
  time_unit = replicate 8 0;
  cpu_start_time = 100;
  start_time = 1 ∷ [];
  events =
      (record { timestamp = 300; type_index = 5; track = 0; bytes = 7 ∷ 8 ∷ [] })
      ∷ (record { timestamp = 200; type_index = 5; track = 1; bytes = 9 ∷ 9 ∷ [] })
      ∷ [];
}

unmarshal-marshal_example :
    (bytes : List ℕ) × (marshal decimal_scale no_extra lv two_bytes by_number two_events no_bitmaps
      ≡ ok (bytes, no_bitmaps))
    × (unmarshal two_bytes by_number bytes ≡ good two_events)
unfolding type_table view_bytes encode_events encode_event encode_names put_uvarint_loop
unmarshal-marshal_example =
    unmarshal-marshal decimal_scale no_extra lv two_bytes by_number two_events no_bitmaps (
      refl,
      omega arith,
      omega arith,
      refl,
      omega arith,
      omega arith,
      (omega arith, refl, omega arith, tt),
      (
        (omega arith, omega arith, omega arith),
        (λ rest. refl),
        ((omega arith, omega arith, omega arith), (λ rest. refl), tt),
      ),
      (omega arith, (omega arith, tt)),
      short,
    )
  where
    short :
        length (view_bytes two_bytes by_number (type_table two_events.events []) two_events)
          + 2 ^ 16
        < 2 ^ 29
    short = omega arith

-- A type of 2^63 is negative in the test on the table, and is then out of its range.
type_run : decode_event two_bytes (5 ∷ []) 0 (0 ∷ put_uvarint (2 ^ 63)) ≡ bad index_panic
unfolding decode_event uvarint_loop put_uvarint_loop
type_run = refl
