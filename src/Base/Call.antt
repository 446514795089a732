-- ===== src/Base/Call.antt =====
-- How a Go call ends: with a value, or with a panic.
use Prim.Native.Nat.{ℕ}
use mathlib.Core.Option.{Option, none, some}
use mathlib.Core.List.{List}
use elib.Base.Lists.{get_elem?}

-- The run-time's index panic, the panics of the library's own code, and the model's fuel.
pub data Panic : Type 0 where
  index_out_of_range pool_too_large bad_size heap_overflow : Panic
  duplicate_free corrupt_free_list wrong_type out_of_memory hash_empty out_of_fuel wrong_state :
      Panic

pub data Outcome {ℓ} (A : Type ℓ) : Type ℓ where
  ok : A → Outcome A
  panic : Panic → Outcome A

infixl 5 ◌>>=◌
abbrev pub ◌>>=◌ {ℓ κ} : {A : Type ℓ} {B : Type κ} → Outcome A → (A → Outcome B) → Outcome B
ok a >>= f = f a
panic e >>= f = panic e

abbrev pub or_panic {ℓ} : {A : Type ℓ} → Option A → Panic → Outcome A
or_panic (some a) e = ok a
or_panic none e = panic e

-- `a[i]`
abbrev pub load {ℓ} : {A : Type ℓ} → List A → ℕ → Outcome A
load a i = or_panic (get_elem? a i) index_out_of_range
