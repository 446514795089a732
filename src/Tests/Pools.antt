-- ===== src/Tests/Pools.antt =====
-- A generated pool with data of two slots.
use elib.Base.{ℕ, ◌+◌, ◌^◌, ◌≤◌, ◌≡◌, [], ◌∷◌, ok, arith}
use elib.Vec.{Vec, capacity}
use elib.Vec.Validate.{Validated}
use elib.Pool.{validate}
use elib.Pool.Grow.{pool_validate-Validated}
use elib.Tests.Scale.{decimal_scale}

abbrev two_slots : Vec ℕ
two_slots = record { items = 5 ∷ 6 ∷ []; spare = [] }

pool_validate-Validated_example :
    (w : Vec ℕ) × (validate decimal_scale 0 6 two_slots ≡ ok w)
    × Validated 0 two_slots (6 + 1) w
    × (capacity w ≤ 2 ^ 31)
pool_validate-Validated_example =
    pool_validate-Validated 0 decimal_scale two_slots 6 (omega arith) (omega arith)
