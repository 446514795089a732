-- ===== src/Vec.antt =====
-- The vectors that vec.tmpl generates: a slice that grows on demand.
-- A slice is its elements and the rest of its capacity: what is written past the length stays in
-- the array and comes back when the slice is cut longer. `zero_value` is Go's zero of the type.
-- One definition stands for each method of the generated files, which differ in the type alone.
pub mod Init
pub mod Keep
pub mod Resize
pub mod Validate
use elib.Base.{
  ℕ, zero, suc, ◌+◌, ◌-◌, ◌%◌, ◌^◌, Option, none, some, List, [], ◌∷◌, ◌++◌, Outcome, ok, panic,
  index_out_of_range, ◌>>=◌, length, take, drop, replicate, ltb, leb, if◌then◌else◌,
}
use elib.Cap.{FloatScale, next_resize_cap}

pub record Vec {ℓ} (A : Type ℓ) : Type ℓ where
  pub items : List A
  pub spare : List A

module _ {ℓ} {A : Type ℓ} where
  abbrev pub cells : Vec A → List A
  cells v = v.items ++ v.spare

  abbrev pub capacity : Vec A → ℕ
  capacity v = length v.items + length v.spare

  abbrev pub len : Vec A → ℕ
  len v = length v.items

  -- `v[:l]`, which panics past the capacity.
  abbrev pub cut : Vec A → ℕ → Vec A
  cut v l = record { items = take l (cells v); spare = drop l (cells v) }

  unfoldable pub reslice : Vec A → ℕ → Outcome (Vec A)
  reslice v l = if leb l (capacity v) then ok (cut v l) else panic index_out_of_range

  -- `&v[l-1]`: the index of the element, if it is there.
  unfoldable pub last_ref : Vec A → ℕ → Outcome (ℕ × Vec A)
  last_ref v l =
      let i = (l + 2 ^ 32 - 1) % 2 ^ 32 in
      if ltb i (length v.items) then ok (i, v) else panic index_out_of_range

  -- `make([]T, n)` and `copy`
  abbrev pub copied : A → Vec A → ℕ → List A
  copied zero_value v n = take n v.items ++ replicate (n - length v.items) zero_value

  -- `q[i] = *zero` for the indices from `c` on.
  abbrev pub fill : Option A → ℕ → ℕ → List A → List A
  fill none c n q = q
  fill (some z) c n q = take c q ++ replicate (n - c) z

module _ {ℓ} (scale : FloatScale) {A : Type ℓ} (zero_value : A) where
  unfoldable pub resize : Vec A → ℕ → Outcome (Vec A)
  resize v n =
      let c = capacity v % 2 ^ 32 in
      let l = (length v.items % 2 ^ 32 + n % 2 ^ 32) % 2 ^ 32 in
      let c' = next_resize_cap scale l in
      let q : Vec A = record {
        items = copied zero_value v l;
        spare = replicate (c' - l) zero_value;
      } in
      (if ltb c l then (if leb l c' then ok q else panic index_out_of_range) else ok v) >>= λ v'.
      reslice v' l

  unfoldable pub validate_slow_path : Vec A → Option A → ℕ → ℕ → ℕ → Outcome (ℕ × Vec A)
  validate_slow_path v initial c l l' = do
    let c_next = next_resize_cap scale l
    let q = fill initial c c_next (copied zero_value v c_next)
    v1 ← if ltb c l then reslice (record { items = q; spare = [] }) l else ok v
    v2 ← if ltb l' l then reslice v1 l else ok v1
    last_ref v2 l

  unfoldable pub validate : Vec A → ℕ → Option A → Outcome (ℕ × Vec A)
  unfolding validate_slow_path
  validate v new_len initial =
      let c = capacity v % 2 ^ 32 in
      let l' = length v.items % 2 ^ 32 in
      let l = new_len % 2 ^ 32 in
      let fast : Outcome (ℕ × Vec A) = do v' ← if leb l' l then reslice v l else ok v; last_ref v' l
      in if leb l c then fast else validate_slow_path v initial c l l'

  unfoldable pub validate_index : Vec A → ℕ → Outcome (ℕ × Vec A)
  unfolding validate
  validate_index v i = validate v ((i + 1) % 2 ^ 64) none

  unfoldable pub validate_init : Vec A → ℕ → A → Outcome (ℕ × Vec A)
  unfolding validate
  validate_init v i z = validate v ((i + 1) % 2 ^ 64) (some z)

  -- With a length of zero nothing is done and `nil` is returned.
  unfoldable pub validate_len : Vec A → ℕ → Outcome (Option ℕ × Vec A)
  unfolding validate
  validate_len v l =
      if ltb 0 l then (validate v l none >>= λ (i, v'). ok (some i, v')) else ok (none, v)

  unfoldable pub validate_len_init : Vec A → ℕ → A → Outcome (Option ℕ × Vec A)
  unfolding validate
  validate_len_init v l z =
      if ltb 0 l then (validate v l (some z) >>= λ (i, v'). ok (some i, v')) else ok (none, v)

-- Go's `append`: into the spare capacity, or into a new array whose spare capacity, `extra` of the
-- new length, the language leaves open.
unfoldable pub append {ℓ} : {A : Type ℓ} → (ℕ → ℕ) → A → Vec A → A → Vec A
append extra zero_value v x = elim v.spare [
  | [] ↦ record {
    items = v.items ++ x ∷ [];
    spare = replicate (extra (length v.items + 1)) zero_value;
  }
  | s ∷ rest ↦ record { items = v.items ++ x ∷ []; spare = rest }
]
