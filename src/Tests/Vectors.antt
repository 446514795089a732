-- ===== src/Tests/Vectors.antt =====
-- The vectors of vec.tmpl on a slice of two elements with room for three.
use elib.Base.{ℕ, ◌+◌, ◌-◌, ◌^◌, ◌≤◌, ◌<◌, ◌≡◌, none, [], ◌∷◌, ok, length, get_or, arith}
use elib.Vec.{Vec, capacity, validate, validate_init}
use elib.Vec.Validate.{Validated, validate-Validated}
use elib.Vec.Init.{validate_init-gap}
use elib.Tests.Scale.{decimal_scale}

abbrev two_items : Vec ℕ
two_items = record { items = 5 ∷ 6 ∷ []; spare = 7 ∷ [] }

validate-Validated_example :
    (v' : Vec ℕ) × (validate decimal_scale 0 two_items 3 none ≡ ok (3 - 1, v'))
    × Validated 0 two_items 3 v'
    × (capacity v' ≤ 2 ^ 31)
validate-Validated_example =
    validate-Validated 0 decimal_scale two_items 3 (omega arith) (omega arith) (omega arith)

validate_init-gap_example :
    (v' : Vec ℕ) × (validate_init decimal_scale 0 two_items 4 9 ≡ ok (4, v'))
    × ((i : ℕ) → length two_items.items ≤ i → i < capacity two_items → get_or v'.items i 0 ≡ 0)
    × ((i : ℕ) → capacity two_items ≤ i → i < 4 + 1 → get_or v'.items i 0 ≡ 9)
    × ((i : ℕ) → i < length two_items.items → get_or v'.items i 0 ≡ get_or two_items.items i 0)
validate_init-gap_example =
    validate_init-gap 0 decimal_scale two_items 9 4 (omega arith) (omega arith)
