-- ===== src/Vec/Validate.antt =====
-- Validate makes a vector long enough: what it keeps, and what it brings in.
use elib.Base.{
  ℕ, ◌-◌, ◌%◌, ◌^◌, ◌≤◌, ◌<◌, ◌≡◌, refl, ◌∙◌, arith, Option, none, List, [], ok, length, take,
  replicate, get_or, ltb, leb, leb→le, leb→lt, lt→ltb, ltb→lt, ltb→le, Bool, true, false,
  if◌then◌else◌, Bool-cases, inl, inr, length-append, length-take, length-replicate, get_or-default,
}
use elib.Cap.{FloatScale, next_resize_cap}
use elib.Cap.Growth.{next_resize_cap_lem}
use elib.Vec.{Vec, cells, capacity, cut, copied, fill, validate, validate_slow_path}
pub use elib.Vec.Keep.{IsClean, Validated, cut-Validated, short-Validated, reslice-ok, capacity-cut}
use elib.Vec.Keep.{moved, moved-Validated, last_ref-ok, cut-cut}

module _ {ℓ} {A : Type ℓ} (zero_value : A) where
  module _ (scale : FloatScale) (v : Vec A) (l : ℕ) (p : 0 < l) (h : l ≤ 2 ^ 29)
      (c : capacity v ≤ 2 ^ 31) where
    -- The array of the slow path has room.
    abbrev pub room : ℕ
    room = next_resize_cap scale l

    pub copied-length : capacity v < l → length (copied zero_value v room) ≡ room
    copied-length q = omega (
      arith,
      (next_resize_cap_lem scale l h).0,
      length-append (take room v.items) (replicate (room - length v.items) zero_value),
      length-replicate (room - length v.items) zero_value,
      length-take room v.items,
    )

    -- The array of the slow path, and the slice of it.
    abbrev pub filled : Option A → List A
    filled initial = fill initial (capacity v) room (copied zero_value v room)

    abbrev pub sliced : Option A → Vec A
    sliced initial = cut (record { items = filled initial; spare = [] }) l

    pub slow-ok :
        (initial : Option A)
        → length (filled initial) ≡ room
        → capacity v < l
        → validate_slow_path scale zero_value v initial (capacity v) l (length v.items)
          ≡ ok (l - 1, sliced initial)
    unfolding validate_slow_path
    slow-ok initial size q =
        let enough = (next_resize_cap_lem scale l h).0 in
        let fresh : Vec A = record { items = filled initial; spare = [] } in
        let longer : length (sliced initial).items ≡ l =
          omega (arith, length-take l (cells fresh), length-append (filled initial) []) in
        rw
          (
            lt→ltb (capacity v) l q,
            lt→ltb (length v.items) l (omega arith),
            reslice-ok zero_value fresh l (omega arith),
            reslice-ok zero_value (sliced initial) l
                (omega (arith, capacity-cut zero_value fresh l)),
            cut-cut zero_value fresh l,
          )
          (last_ref-ok zero_value (sliced initial) l p (omega arith) (omega arith))

    -- The vector after the call.
    pub validated : Vec A
    validated =
        if leb l (capacity v)
        then (if leb (length v.items) l then cut v l else v)
        else moved zero_value v room l

    validate-ok : validate scale zero_value v l none ≡ ok (l - 1, validated)
    unfolding validate validated
    validate-ok =
        let a : capacity v % 2 ^ 32 ≡ capacity v = omega arith in
        let b : length v.items % 2 ^ 32 ≡ length v.items = omega arith in
        let d : l % 2 ^ 32 ≡ l = omega arith in
        rw (a, b, d)
          (elim (Bool-cases (leb l (capacity v))) [
            | inl fits ↦ elim (Bool-cases (leb (length v.items) l)) [
              | inl longer ↦
                  let room_left : l ≤ capacity v = leb→le _ _ fits in
                  rw (fits, longer, reslice-ok zero_value v l room_left)
                    (last_ref-ok zero_value (cut v l) l p (omega arith)
                      (omega (arith, length-take l (cells v), length-append v.items v.spare)))
              | inr shorter ↦
                  rw (fits, shorter)
                    (last_ref-ok zero_value v l p (omega arith) (omega (arith, leb→lt _ _ shorter)))
            ]
            | inr moves ↦
                rw moves (slow-ok none (copied-length (leb→lt _ _ moves)) (leb→lt _ _ moves))
          ])

    validated-Validated : Validated zero_value v l validated
    unfolding validated
    validated-Validated = elim (Bool-cases (leb l (capacity v))) [
      | inl fits ↦ elim (Bool-cases (leb (length v.items) l)) [
        | inl longer ↦
            rw (fits, longer) (cut-Validated zero_value v l (leb→le _ _ longer) (leb→le _ _ fits))
        | inr shorter ↦
            let e = leb→lt _ _ shorter in
            rw (fits, shorter) (short-Validated zero_value v l (omega arith))
      ]
      | inr moves ↦
          rw moves (
            moved-Validated zero_value v room l (next_resize_cap_lem scale l h).0
              (leb→lt _ _ moves))
    ]

    validated-capacity : capacity validated ≤ 2 ^ 31
    unfolding validated
    validated-capacity = elim (Bool-cases (leb l (capacity v))) [
      | inl fits ↦ elim (Bool-cases (leb (length v.items) l)) [
        | inl longer ↦ rw (fits, longer) (omega (arith, capacity-cut zero_value v l))
        | inr shorter ↦ rw (fits, shorter) c
      ]
      | inr moves ↦ rw moves (
          omega (
            arith,
            capacity-cut zero_value (record { items = copied zero_value v room; spare = [] }) l,
            copied-length (leb→lt _ _ moves),
            (next_resize_cap_lem scale l h).2,
          ))
    ]

    -- Validate of a length from 1 to 2^29, on a vector of at most 2^31 elements, returns the index
    -- of the last element asked for. The vector is then at least that long and holds what it held.
    -- The elements that are new are zero when the array had to be moved, and otherwise are what
    -- stood in the spare capacity.
    pub validate-Validated :
        (v' : Vec A) × (validate scale zero_value v l none ≡ ok (l - 1, v'))
        × Validated zero_value v l v'
        × (capacity v' ≤ 2 ^ 31)
    validate-Validated = (validated, validate-ok, validated-Validated, validated-capacity)

module _ {ℓ} {A : Type ℓ} (zero_value : A) where
  -- On a clean vector every read past the old length is zero, before and after.
  pub Validated-read :
      (v : Vec A) (l : ℕ) {w : Vec A}
      → IsClean zero_value v
      → Validated zero_value v l w
      → (j : ℕ) → get_or w.items j zero_value ≡ get_or v.items j zero_value
  Validated-read v l {w} c g j = elim (Bool-cases (ltb j (length v.items))) [
    | inl old ↦ g.kept j (ltb→lt _ _ old)
    | inr new ↦
        let out = ltb→le _ _ new in
        let before = get_or-default v.items j zero_value out in
        elim (Bool-cases (ltb j l)) [
          | inl asked ↦ rw before (
              g.exposed j out (ltb→lt _ _ asked)
              ∙ zeros (leb l (capacity v)) (c (j - length v.items)))
          | inr past ↦
              rw before
                (get_or-default w.items j zero_value (omega (arith, g.longer, ltb→le _ _ past)))
        ]
  ]
    where
      zeros : (t : Bool) {a : A} → a ≡ zero_value → (if t then a else zero_value) ≡ zero_value
      zeros true e = e
      zeros false e = refl
