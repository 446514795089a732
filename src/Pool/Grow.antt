-- ===== src/Pool/Grow.antt =====
-- Validate of a generated pool, against what Validate of a vector promises.
use elib.Base.{
  ℕ, ◌+◌, ◌-◌, ◌%◌, ◌^◌, ◌≤◌, ◌<◌, ◌≡◌, refl, ◌∙◌, ap, arith, List, ◌++◌, ok, length, replicate,
  get_or, ltb, Bool-cases, inl, inr, take, take_all, get_or-pad, get_or-default,
  get_or-replicate_self, length-append, length-replicate, length-take, le→ltb, ltb→lt, ltb→le,
  le→leb, lt→leb,
}
use elib.Cap.{FloatScale, next_resize_cap}
use elib.Cap.Growth.{next_resize_cap_lem}
use elib.Vec.{Vec, cut, capacity, copied}
use elib.Vec.Validate.{Validated, cut-Validated, short-Validated, reslice-ok, capacity-cut}
use elib.Pool.{validate}

module _ {ℓ} {A : Type ℓ} (zero_value : A) (scale : FloatScale) (v : Vec A) (i : ℕ)
    (h : i + 1 ≤ 2 ^ 29) (c : capacity v ≤ 2 ^ 31) where
  abbrev l : ℕ
  l = i + 1

  enough : l ≤ next_resize_cap scale l
  enough = (next_resize_cap_lem scale l h).0

  -- The new array, already cut to the length asked for.
  abbrev fresh : Vec A
  fresh = record {
    items = copied zero_value v l;
    spare = replicate (next_resize_cap scale l - l) zero_value;
  }

  fresh-length : length v.items < l → length fresh.items ≡ l
  fresh-length q = omega (
    arith,
    length-append (take l v.items) (replicate (l - length v.items) zero_value),
    length-replicate (l - length v.items) zero_value,
    length-take l v.items,
  )

  fresh-Validated : capacity v < l → Validated zero_value v l fresh
  fresh-Validated q =
      let whole : take l v.items ≡ v.items = take_all l v.items (omega arith) in
      let read = λ (j : ℕ).
        ap (λ (t : List A). get_or (t ++ replicate (l - length v.items) zero_value) j zero_value)
          whole
        ∙ get_or-pad v.items (l - length v.items) zero_value j in
      record {
        longer = omega (arith, fresh-length (omega arith));
        kept = λ j p. read j;
        exposed =
            λ j p r. rw (lt→leb l (capacity v) q) (read j ∙ get_or-default v.items j zero_value p);
        clean = λ k j. get_or-replicate_self (next_resize_cap scale l - l) zero_value j;
      }

  -- Validate of a generated pool at an index below 2^29, on data of at most 2^31 slots, makes the
  -- data long enough for the index and keeps what it holds.
  pub pool_validate-Validated :
      (w : Vec A) × (validate scale zero_value i v ≡ ok w)
      × Validated zero_value v (i + 1) w
      × (capacity w ≤ 2 ^ 31)
  unfolding validate
  pool_validate-Validated =
      let a : capacity v % 2 ^ 32 ≡ capacity v = omega arith in
      let b : length v.items % 2 ^ 32 ≡ length v.items = omega arith in
      let d : (i % 2 ^ 32 + 1) % 2 ^ 32 ≡ l = omega arith in
      rw (a, d)
        (elim (Bool-cases (ltb (capacity v) l)) [
          | inl moves ↦
              let q = ltb→lt _ _ moves in
              let size = fresh-length (omega arith) in
              let e : length fresh.items % 2 ^ 32 ≡ l = omega (arith, size) in
              (
                fresh,
                rw (moves, le→leb l _ enough, e, le→ltb l l (omega arith)) refl,
                fresh-Validated q,
                omega (
                  arith,
                  size,
                  (next_resize_cap_lem scale l h).2,
                  length-replicate (next_resize_cap scale l - l) zero_value,
                ),
              )
          | inr fits ↦ elim (Bool-cases (ltb (length v.items) l)) [
            | inl longer ↦
                let room = ltb→le _ _ fits in
                (
                  cut v l,
                  rw (fits, b, longer, reslice-ok zero_value v l room) refl,
                  cut-Validated zero_value v l (omega (arith, ltb→lt _ _ longer)) room,
                  omega (arith, capacity-cut zero_value v l),
                )
            | inr shorter ↦ (
              v,
              rw (fits, b, shorter) refl,
              short-Validated zero_value v l (ltb→le _ _ shorter),
              c,
            )
          ]
        ])
