-- ===== src/Elog/Encoding/Views.antt =====
-- MarshalBinary and UnmarshalBinary of views, of elog/encoding.go.
use mathlib.Core.List.{append_assoc, append-nil}
use mathlib.Core.Bool.{false≢true}
use elib.Base.{
  ok, ◌+◌, ℕ, suc, ◌%◌, ◌^◌, ◌≤◌, ◌<◌, ◌≡◌, refl, sym, ◌∙◌, ap, ap₂, arith, true, Bool-cases, inl,
  inr, some, List, [], ◌∷◌, ◌++◌, length, take, take-append, drop, get_elem?, length-append, lt→leb,
  le→ltb, ◌==◌, ==_iff, ==_refl, if◌then◌else◌, if_true, if_false,
}
use native.Mathlib.Nat.{mod-eq_of_lt}
use elib.Cap.{FloatScale}
use elib.Word.Digits.{bit-zero}
use elib.Bitmap.Store.{BitmapPool, Level}
use elib.Elog.Encoding.Marshal.{marshal, AreInline, local_types-type_table}
use elib.Elog.{Event}
use elib.Elog.Encoding.{
  put_uvarint, read_uvarint, good, Codec, encode_events, mem, type_table, index_in, View, Registry,
  put_bytes, read_bytes, encode_names, decode_names, decode_events, view_bytes, unmarshal,
}
use elib.Elog.Encoding.Varint.{read_uvarint-put, drop_prefix}
use elib.Elog.Encoding.Events.{bind-good, IsEvent, DecodesData, AllFit, decode-encode_events}

mem_append : (t : ℕ) (xs : List ℕ) (x : ℕ) → mem t xs ≡ true → mem t (xs ++ x ∷ []) ≡ true
mem_append t [] x h = absurd (false≢true h)
mem_append t (y ∷ xs) x h = elim (Bool-cases (t == y)) [
  | inl e ↦ rw e refl
  | inr e ↦ rw e (mem_append t xs x (rw e at h))
]

mem_last : (t : ℕ) (xs : List ℕ) → mem t (xs ++ t ∷ []) ≡ true
mem_last t [] = rw (==_refl t) refl
mem_last t (y ∷ xs) = elim (Bool-cases (t == y)) [
  | inl e ↦ rw e refl
  | inr e ↦ rw e (mem_last t xs)
]

-- The table with a type.
grown : ℕ → List ℕ → List ℕ
grown t types = if mem t types then types else types ++ t ∷ []

grown-keeps : (s t : ℕ) (types : List ℕ) → mem s types ≡ true → mem s (grown t types) ≡ true
unfolding grown
grown-keeps s t types h = elim (Bool-cases (mem t types)) [
  | inl e ↦ rw e h
  | inr e ↦ rw e (mem_append s types t h)
]

grown-has : (t : ℕ) (types : List ℕ) → mem t (grown t types) ≡ true
unfolding grown
grown-has t types = elim (Bool-cases (mem t types)) [
  | inl e ↦ ap (mem t) (if_true _ _ e) ∙ e
  | inr e ↦ rw e (mem_last t types)
]

type_table-keeps :
    (s : ℕ) (es : List Event) (types : List ℕ)
    → mem s types ≡ true
    → mem s (type_table es types) ≡ true
unfolding type_table grown
type_table-keeps s [] types h = h
type_table-keeps s (e ∷ es) types h =
    type_table-keeps s es (grown e.type_index types) (grown-keeps s e.type_index types h)

type_table-has :
    (e : Event) (es : List Event) (types : List ℕ)
    → mem e.type_index (type_table (e ∷ es) types) ≡ true
unfolding type_table grown
type_table-has e es types =
    type_table-keeps e.type_index es (grown e.type_index types) (grown-has e.type_index types)

index_in-finds :
    (t : ℕ) (xs : List ℕ)
    → mem t xs ≡ true
    → (get_elem? xs (index_in t xs) ≡ some t) × (index_in t xs < length xs)
index_in-finds t [] h = absurd (false≢true h)
index_in-finds t (x ∷ xs) h = elim (Bool-cases (t == x)) [
  | inl e ↦ rw e (ap some (sym ((==_iff t x).0 e)), omega arith)
  | inr e ↦ let (at, lt) = index_in-finds t xs (rw e at h) in rw e (at, omega (arith, lt))
]

-- A length that a slice can have, and the bytes, are read back.
read_bytes-put :
    (d rest : List ℕ) → length d < 2 ^ 63 → read_bytes (put_bytes d ++ rest) ≡ good (d, rest)
unfolding read_bytes
read_bytes-put d rest lt =
    ap read_bytes (append_assoc (put_uvarint (length d)) d rest)
    ∙ bind-good _ (read_uvarint-put (length d) (d ++ rest) (omega (arith, lt)))
    ∙ if_false _ _ (lt→leb (2 ^ 63) (length d) lt)
    ∙ if_false _ _ (le→ltb (length (d ++ rest)) (length d) (omega (arith, length-append d rest)))
    ∙ ap₂ (λ a b. good (a, b)) (take-append d rest) (drop_prefix d rest)

-- The types of a table are known by names of a length that a slice can have.
abbrev pub AreKnown : Registry → List ℕ → Type 0
AreKnown reg [] = Unit
AreKnown reg (t ∷ ts) =
    (length (reg.name_of t) < 2 ^ 63)
    × (reg.type_by_name (reg.name_of t) ≡ some t)
    × (t < 2 ^ 16)
    × AreKnown reg ts

decode-encode_names :
    (reg : Registry) (ts rest : List ℕ)
    → AreKnown reg ts
    → decode_names reg (length ts) (encode_names reg ts ++ rest) ≡ good (ts, rest)
unfolding decode_names encode_names
decode-encode_names reg [] rest known = refl
decode-encode_names reg (t ∷ ts) rest (short, found, small, others) =
    let later = encode_names reg ts in
    ap (decode_names reg (suc (length ts))) (append_assoc (put_bytes (reg.name_of t)) later rest)
    ∙ bind-good _ (read_bytes-put (reg.name_of t) (later ++ rest) short)
    ∙ rw found (
        bind-good _ (decode-encode_names reg ts rest others)
        ∙ ap (λ x. good (x ∷ ts, rest)) (mod-eq_of_lt small))

-- The events of a list, with the time before the first: the widths of their fields, and data that is
-- written in the room after the header so that it is read back.
abbrev pub AreEvents : Codec → List ℕ → ℕ → List Event → Type 0
AreEvents codec types t0 [] = Unit
AreEvents codec types t0 (e ∷ es) =
    IsEvent e
    × DecodesData codec e (index_in e.type_index types % 2 ^ 16) t0
    × AreEvents codec types e.timestamp es

-- The types of the events are in a table.
AreListed : List ℕ → List Event → Type 0
AreListed types [] = Unit
AreListed types (e ∷ es) = (mem e.type_index types ≡ true) × AreListed types es

type_table-AreListed : (es : List Event) (types : List ℕ) → AreListed (type_table es types) es
unfolding AreListed type_table
type_table-AreListed [] types = tt
type_table-AreListed (e ∷ es) types = (
  type_table-has e es types,
  type_table-AreListed es (if mem e.type_index types then types else types ++ e.type_index ∷ []),
)

events-AllFit :
    (codec : Codec) (types : List ℕ) (t0 : ℕ) (es : List Event)
    → length types ≤ 2 ^ 16
    → AreListed types es
    → AreEvents codec types t0 es
    → AllFit codec (λ t. index_in t types) types t0 es
unfolding AreListed
events-AllFit codec types t0 [] few listed fits = tt
events-AllFit codec types t0 (e ∷ es) few (here, listed) (widths, law, others) =
    let (at, lt) = index_in-finds e.type_index types here in
    let place : index_in e.type_index types % 2 ^ 16 ≡ index_in e.type_index types =
      mod-eq_of_lt (omega (arith, lt, few)) in
    (
      widths,
      law,
      ap (get_elem? types) place ∙ at,
      events-AllFit codec types e.timestamp es few listed others,
    )

-- The parts of a view, one before the rest.
parts :
    (u c s n k m v : List ℕ)
    → u ++ c ++ s ++ n ++ k ++ m ++ v ≡ u ++ (c ++ (s ++ (n ++ (k ++ (m ++ (v ++ []))))))
parts u c s n k m v =
    append_assoc (u ++ c ++ s ++ n ++ k) m v
    ∙ append_assoc (u ++ c ++ s ++ n) k (m ++ v)
    ∙ append_assoc (u ++ c ++ s) n (k ++ (m ++ v))
    ∙ append_assoc (u ++ c) s (n ++ (k ++ (m ++ v)))
    ∙ append_assoc u c (s ++ (n ++ (k ++ (m ++ v))))
    ∙ ap (λ e. u ++ (c ++ (s ++ (n ++ (k ++ (m ++ e)))))) (sym (append-nil v))

-- What a view has to be.
abbrev pub IsView : Codec → Registry → View → Type 0
IsView codec reg v =
    (length v.time_unit ≡ 8)
    × (v.cpu_start_time < 2 ^ 64)
    × (length v.start_time < 2 ^ 63)
    × (reg.is_time v.start_time ≡ true)
    × (length v.events < 2 ^ 29)
    × (length (type_table v.events []) ≤ 2 ^ 16)
    × AreKnown reg (type_table v.events [])
    × AreEvents codec (type_table v.events []) v.cpu_start_time v.events
    × AreInline v.events
    × (length (view_bytes codec reg (type_table v.events []) v) + 2 ^ 16 < 2 ^ 29)

unmarshal-view_bytes :
    (codec : Codec) (reg : Registry) (v : View)
    → IsView codec reg v
    → unmarshal codec reg (view_bytes codec reg (type_table v.events []) v) ≡ good v
unfolding unmarshal view_bytes
unmarshal-view_bytes codec reg v (eight, start, short, time, count, few, known, events, _, _) =
    let types = type_table v.events [] in
    let u = v.time_unit in
    let ev = encode_events codec (λ t. index_in t types) v.cpu_start_time v.events in
    let r5 = encode_names reg types ++ (ev ++ []) in
    let r4 = put_uvarint (length types) ++ r5 in
    let r3 = put_uvarint (length v.events) ++ r4 in
    let r2 = put_bytes v.start_time ++ r3 in
    let r1 = put_uvarint v.cpu_start_time ++ r2 in
    let fit =
      events-AllFit codec types v.cpu_start_time v.events few (type_table-AreListed v.events [])
        events in
    ap (unmarshal codec reg) (
      parts u (put_uvarint v.cpu_start_time) (put_bytes v.start_time)
        (put_uvarint (length v.events)) (put_uvarint (length types)) (encode_names reg types) ev)
    ∙ bind-good _ (
        if_false _ _ (le→ltb (length (u ++ r1)) 8 (omega (arith, eight, length-append u r1)))
        ∙ ap good (ap (λ k. take k (u ++ r1)) (sym eight) ∙ take-append u r1))
    ∙ bind-good _ (
        ap read_uvarint (ap (λ k. drop k (u ++ r1)) (sym eight) ∙ drop_prefix u r1)
        ∙ read_uvarint-put v.cpu_start_time r2 start)
    ∙ bind-good _ (read_bytes-put v.start_time r3 short)
    ∙ bind-good _ (if_true _ _ time)
    ∙ bind-good _ (read_uvarint-put (length v.events) r4 (omega (arith, count)))
    ∙ bind-good _ (read_uvarint-put (length types) r5 (omega (arith, few)))
    ∙ bind-good _ (
        ap (λ n. decode_names reg n (encode_names reg types ++ (ev ++ [])))
          (mod-eq_of_lt (omega (arith, few)))
        ∙ decode-encode_names reg types (ev ++ []) known)
    ∙ bind-good _ (
        ap (λ n. decode_events codec types n v.cpu_start_time (ev ++ []))
          (mod-eq_of_lt (omega (arith, count)))
        ∙ decode-encode_events codec (λ t. index_in t types) types v.cpu_start_time v.events [] fit
            start)

-- UnmarshalBinary of what MarshalBinary makes of a view gives the view back, and the pool
-- of bitmaps is as it was: each event with its own
-- time, type, track and data, for a view whose numbers have their widths, whose types have indices below 63
-- and are registered under their names, whose events have data that is written in the room after the
-- header so that it is read back, and that takes less than 2^29 - 2^16 bytes.
pub unmarshal-marshal :
    (scale : FloatScale) (extra : ℕ → ℕ) (lv : Level) (codec : Codec) (reg : Registry) (v : View)
    (p : BitmapPool)
    → IsView codec reg v
    → (bytes : List ℕ) × (marshal scale extra lv codec reg v p ≡ ok (bytes, p))
      × (unmarshal codec reg bytes ≡ good v)
unfolding marshal
unmarshal-marshal scale extra lv codec reg v p view =
    let (_, _, _, _, _, _, _, _, inline, _) = view in
    let types =
      local_types-type_table scale extra lv v.events 0 [] p inline (omega arith)
        (λ t. ap (λ d. d == 1) (bit-zero t)) in
    (
      view_bytes codec reg (type_table v.events []) v,
      rw types refl,
      unmarshal-view_bytes codec reg v view,
    )
