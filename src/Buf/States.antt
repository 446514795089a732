-- ===== src/Buf/States.antt =====
-- hw/buf.go: the states of buffers, which are tracked when the package is built for debugging.
-- `track` is that choice. A buffer whose offset is not in the map is unknown.
pub mod Twice
use elib.Base.{
  ℕ, zero, suc, ◌%◌, ◌^◌, Bool, true, false, List, [], ◌∷◌, Outcome, ok, panic, wrong_state, ◌>>=◌,
  ◌==◌, if◌then◌else◌, not,
}
use elib.Buf.{RefHeader, offset}

pub data BufferState : Type 0 where
  unknown known_allocated known_free : BufferState

unfoldable pub same_state : BufferState → BufferState → Bool
same_state unknown unknown = true
same_state known_allocated known_allocated = true
same_state known_free known_free = true
same_state _ _ = false

abbrev pub States : Type 0
States = ℕ → BufferState

unfoldable pub set_state : ℕ → BufferState → States → States
set_state o new states p = if o == p then new else states p

-- The state that a buffer must have had: known free, or unknown for initial allocation.
unfoldable pub expected : BufferState → BufferState → BufferState
expected known_allocated unknown = unknown
expected known_allocated old = known_free
expected set old = known_allocated

module _ (track : Bool) where
  unfoldable pub unset_state : ℕ → States → States
  unset_state o states = if track then set_state o unknown states else states

  unfoldable pub get_state : RefHeader → States → BufferState
  get_state r states = if track then states (offset r) else unknown

  unfoldable pub validate_refs_loop : BufferState → List RefHeader → States → Outcome (Unit {0})
  validate_refs_loop want [] states = ok tt
  validate_refs_loop want (r ∷ rs) states =
      let rest = validate_refs_loop want rs states in
      if same_state (get_state r states) want then rest else panic wrong_state

  -- The references are those at every `stride`.
  unfoldable pub validate_refs : BufferState → List RefHeader → States → Outcome (Unit {0})
  validate_refs want rs states = if track then validate_refs_loop want rs states else ok tt

  unfoldable pub validate_set_state : RefHeader → BufferState → States → Outcome States
  validate_set_state r set states =
      let old = states (offset r) in
      let checked : Outcome States =
        if same_state old (expected set old)
        then ok (set_state (offset r) set states)
        else panic wrong_state in
      if track then checked else ok states

  unfoldable pub validate_set_state_refs : List RefHeader → BufferState → States → Outcome States
  validate_set_state_refs [] set states = ok states
  validate_set_state_refs (r ∷ rs) set states =
      validate_set_state r set states >>= validate_set_state_refs rs set
