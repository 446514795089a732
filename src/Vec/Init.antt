-- ===== src/Vec/Init.antt =====
-- ValidateInit fills what it appends with a given value, except where the old array had spare
-- capacity: the copy takes the elements alone, and the filling starts at the old capacity.
use elib.Base.{
  ℕ, ◌+◌, ◌-◌, ◌%◌, ◌^◌, ◌≤◌, ◌<◌, ◌≡◌, ◌∙◌, arith, some, List, [], ◌++◌, ok, length, take,
  replicate, get_or, lt→leb, length-append, length-take, length-replicate, get_or-take, get_or-pad,
  get_or-append_left, get_or-append_right, get_or-default, get_or-replicate, take_all, ap,
}
use elib.Cap.{FloatScale}
use elib.Cap.Growth.{next_resize_cap_lem}
use elib.Vec.{Vec, capacity, copied, validate, validate_init}
use elib.Vec.Validate.{room, filled, sliced, copied-length, slow-ok}

module _ {ℓ} {A : Type ℓ} (zero_value : A) (scale : FloatScale) (v : Vec A) (z : A) where
  module _ (l : ℕ) (q : capacity v < l) (p : 0 < l) (h : l ≤ 2 ^ 29) where
    -- The array of the slow path.
    abbrev wide : ℕ
    wide = room zero_value scale v l p h (omega arith)

    abbrev array : List A
    array = filled zero_value scale v l p h (omega arith) (some z)

    enough : l ≤ wide
    enough = (next_resize_cap_lem scale l h).0

    length-front : length (take (capacity v) (copied zero_value v wide)) ≡ capacity v
    length-front = omega (
      arith,
      enough,
      copied-length zero_value scale v l p h (omega arith) q,
      length-take (capacity v) (copied zero_value v wide),
    )

    length-array : length array ≡ wide
    length-array = omega (
      arith,
      enough,
      length-front,
      length-append (take (capacity v) (copied zero_value v wide))
          (replicate (wide - capacity v) z),
      length-replicate (wide - capacity v) z,
    )

    read_copied :
        (i : ℕ) → get_or (copied zero_value v wide) i zero_value ≡ get_or v.items i zero_value
    read_copied i =
        rw (take_all wide v.items (omega (arith, enough)))
          (get_or-pad v.items (wide - length v.items) zero_value i)

    read_front : (i : ℕ) → i < capacity v → get_or array i zero_value ≡ get_or v.items i zero_value
    read_front i r =
        get_or-append_left (take (capacity v) (copied zero_value v wide)) _ i zero_value
          (omega (arith, length-front))
        ∙ get_or-take (capacity v) (copied zero_value v wide) i zero_value r
        ∙ read_copied i

    read_back : (i : ℕ) → capacity v ≤ i → i < l → get_or array i zero_value ≡ z
    read_back i r s =
        get_or-append_right (take (capacity v) (copied zero_value v wide)) _ i zero_value
          (omega (arith, length-front))
        ∙ get_or-replicate (wide - capacity v) z _ zero_value (omega (arith, length-front, enough))

    abbrev result : Vec A
    result = sliced zero_value scale v l p h (omega arith) (some z)

    read_result : (i : ℕ) → i < l → get_or result.items i zero_value ≡ get_or array i zero_value
    read_result i r =
        get_or-take l (array ++ []) i zero_value r
        ∙ get_or-append_left array [] i zero_value (omega (arith, length-array, enough))

    runs : validate scale zero_value v l (some z) ≡ ok (l - 1, result)
    unfolding validate
    runs =
        let a : capacity v % 2 ^ 32 ≡ capacity v = omega arith in
        let b : length v.items % 2 ^ 32 ≡ length v.items = omega arith in
        let d : l % 2 ^ 32 ≡ l = omega arith in
        rw (a, b, d, lt→leb l (capacity v) q)
          (slow-ok zero_value scale v l p h (omega arith) (some z) length-array q)

  -- When ValidateInit of an index has to move the array, the elements between the old length and
  -- the old capacity are Go's zero and not the given value, and those from the old capacity on are
  -- the given value.
  pub validate_init-gap :
      (l : ℕ)
      → capacity v < l + 1
      → l + 1 ≤ 2 ^ 29
      → (v' : Vec A) × (validate_init scale zero_value v l z ≡ ok (l, v'))
        × ((i : ℕ)
            → length v.items ≤ i
            → i < capacity v
            → get_or v'.items i zero_value ≡ zero_value)
        × ((i : ℕ) → capacity v ≤ i → i < l + 1 → get_or v'.items i zero_value ≡ z)
        × ((i : ℕ)
            → i < length v.items
            → get_or v'.items i zero_value ≡ get_or v.items i zero_value)
  unfolding validate_init
  validate_init-gap l q h =
      let a : (l + 1) % 2 ^ 64 ≡ l + 1 = omega arith in
      let b : l + 1 - 1 ≡ l = omega arith in
      let p : 0 < l + 1 = omega arith in
      let read = λ (i : ℕ) (r : i < l + 1). read_result (l + 1) q p h i r in
      (
        result (l + 1) q p h,
        rw a (runs (l + 1) q p h ∙ ap (λ (i : ℕ). ok (i, result (l + 1) q p h)) b),
        (λ i r s.
            read i (omega arith)
            ∙ read_front (l + 1) q p h i s
            ∙ get_or-default v.items i zero_value r),
        (λ i r s. read i s ∙ read_back (l + 1) q p h i r s),
        (λ i r. read i (omega arith) ∙ read_front (l + 1) q p h i (omega arith)),
      )
