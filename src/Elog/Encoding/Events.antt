-- ===== src/Elog/Encoding/Events.antt =====
-- Events that are decoded from their own encoding, of elog/encoding.go.
use mathlib.Core.List.{append_assoc}
use elib.Base.{
  ℕ, suc, ◌+◌, ◌-◌, ◌%◌, ◌^◌, ◌<◌, ◌≡◌, refl, ◌∙◌, ap, ap₂, arith, ◌&&◌, some, none, List, [], ◌∷◌,
  ◌++◌, length, drop, get_elem?, get_elem?-lt, ltb, lt→leb, if_false,
}
use native.Mathlib.Nat.{mod-eq_of_lt}
use elib.Elog.{Event}
use elib.Elog.Encoding.{
  put_uvarint, Decoded, good, bad, index_panic, header, Codec, encode_event, type_at, decode_event,
  encode_events, decode_events, ◌>>=◌,
}
use elib.Elog.Encoding.Varint.{read_uvarint-put, drop_prefix}

pub bind-good :
    {A B : Type 0} {m : Decoded A} {a : A} (f : A → Decoded B) → m ≡ good a → (m >>= f) ≡ f a
bind-good f h = ap (λ m. m >>= f) h

-- The fields of an event have their widths.
abbrev pub IsEvent : Event → Type 0
IsEvent e = (e.timestamp < 2 ^ 64) × (e.type_index < 2 ^ 16) × (e.track < 2 ^ 16)

-- In the room that is left after the header, the data of an event is written so that it is read back.
abbrev pub DecodesData : Codec → Event → ℕ → ℕ → Type 0
DecodesData codec e x t0 =
    (rest : List ℕ)
    → codec.decode_data e.type_index (codec.encode_data e (65 - length (header e x t0)) ++ rest)
      ≡ (e.bytes, length (codec.encode_data e (65 - length (header e x t0))))

-- The difference of two times, added to the first.
time_back : (t t0 : ℕ) → t < 2 ^ 64 → t0 < 2 ^ 64 → (t0 + (t + 2 ^ 64 - t0) % 2 ^ 64) % 2 ^ 64 ≡ t
time_back t t0 h h0 = omega (arith, h, h0)

type_at-found :
    (type_map : List ℕ) (x t : ℕ) → get_elem? type_map x ≡ some t → type_at type_map x ≡ good t
type_at-found type_map x t e =
    if_false _ _
      (ap (λ b. b && ltb x (2 ^ 63)) (lt→leb (length type_map) x (get_elem?-lt type_map x e)))
    ∙ ap (λ o. elim o [ some t ↦ good t | none ↦ bad index_panic ]) e

module _ (codec : Codec) where
  open codec use {encode_data, decode_data}

  pub decode-encode_event :
      (e : Event) (x t0 : ℕ) (type_map rest : List ℕ)
      → IsEvent e
      → DecodesData codec e x t0
      → x < 2 ^ 16
      → t0 < 2 ^ 64
      → get_elem? type_map x ≡ some e.type_index
      → decode_event codec type_map t0 (encode_event codec e x t0 ++ rest) ≡ good (e, rest)
  unfolding decode_event encode_event
  decode-encode_event e x t0 type_map rest (time, _, track) law fit h0 at =
      let dt = (e.timestamp + 2 ^ 64 - t0) % 2 ^ 64 in
      let d = encode_data e (65 - length (header e x t0)) in
      let p1 = put_uvarint dt in
      let p2 = put_uvarint x in
      let p3 = put_uvarint e.track in
      ap (decode_event codec type_map t0) (
        append_assoc ((p1 ++ p2) ++ p3) d rest
        ∙ append_assoc (p1 ++ p2) p3 (d ++ rest)
        ∙ append_assoc p1 p2 (p3 ++ (d ++ rest)))
      ∙ bind-good _ (read_uvarint-put dt (p2 ++ (p3 ++ (d ++ rest))) (omega arith))
      ∙ bind-good _ (read_uvarint-put x (p3 ++ (d ++ rest)) (omega (arith, fit)))
      ∙ bind-good _ (type_at-found type_map x e.type_index at)
      ∙ bind-good _ (read_uvarint-put e.track (d ++ rest) (omega (arith, track)))
      ∙ ap
          (λ r. good (
            record {
              timestamp = (t0 + dt) % 2 ^ 64;
              type_index = e.type_index;
              track = e.track % 2 ^ 16;
              bytes = r.0;
            },
            drop r.1 (d ++ rest),
          ))
          (law rest)
      ∙ ap₂ (λ t k. good (record e { timestamp = t; track = k }, drop (length d) (d ++ rest)))
          (time_back e.timestamp t0 time h0) (mod-eq_of_lt track)
      ∙ ap (λ b. good (e, b)) (drop_prefix d rest)

  -- Each event has the widths of its fields, data that is read back, and a type at its place in the table.
  abbrev pub AllFit : (ℕ → ℕ) → List ℕ → ℕ → List Event → Type 0
  AllFit lookup type_map t0 [] = Unit
  AllFit lookup type_map t0 (e ∷ es) =
      IsEvent e
      × DecodesData codec e (lookup e.type_index % 2 ^ 16) t0
      × (get_elem? type_map (lookup e.type_index % 2 ^ 16) ≡ some e.type_index)
      × AllFit lookup type_map e.timestamp es

  pub decode-encode_events :
      (lookup : ℕ → ℕ) (type_map : List ℕ) (t0 : ℕ) (es : List Event) (rest : List ℕ)
      → AllFit lookup type_map t0 es
      → t0 < 2 ^ 64
      → decode_events codec type_map (length es) t0 (encode_events codec lookup t0 es ++ rest)
        ≡ good (es, rest)
  unfolding decode_events encode_events
  decode-encode_events lookup type_map t0 [] rest fit h0 = refl
  decode-encode_events lookup type_map t0 (e ∷ es) rest (widths, law, at, others) h0 =
      let x = lookup e.type_index % 2 ^ 16 in
      let later = encode_events codec lookup e.timestamp es in
      ap (decode_events codec type_map (suc (length es)) t0)
        (append_assoc (encode_event codec e x t0) later rest)
      ∙ bind-good _
          (decode-encode_event e x t0 type_map (later ++ rest) widths law (omega arith) h0 at)
      ∙ bind-good _ (decode-encode_events lookup type_map e.timestamp es rest others widths.0)
