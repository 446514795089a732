-- ===== src/Mem.antt =====
-- mem.go: PointerPoison, a pattern over freed memory.
-- Memory is a function from an offset from the pointer to a byte. A store of several bytes is that of
-- amd64, which keeps the lowest byte first. The loops are on fuel: n rounds are enough.
pub mod Poison
use elib.Base.{ℕ, zero, suc, ◌+◌, ◌-◌, ◌*◌, ◌/◌, ◌%◌, ◌^◌, leb, ltb, if◌then◌else◌}

abbrev pub Memory : Type 0
Memory = ℕ → ℕ

abbrev pub poison_word : ℕ
poison_word = 16045690984833335023

-- `*(*T)(PointerAdd(p, i)) = x` for a T of `width` bytes.
unfoldable pub store : ℕ → ℕ → ℕ → Memory → Memory
store width i x m k =
    if ltb k i then m k else if ltb k (i + width) then x / 2 ^ (8 * (k - i)) % 2 ^ 8 else m k

-- `for i+width <= n { …; i += width }`
module _ (width : ℕ) (body : ℕ → Memory → Memory) (n : ℕ) where
  unfoldable pub write_loop : ℕ → ℕ × Memory → ℕ × Memory
  write_loop zero (i, m) = (i, m)
  write_loop (suc fuel) (i, m) =
      let rest = write_loop fuel ((i + width) % 2 ^ 64, body i m) in
      if leb ((i + width) % 2 ^ 64) n then rest else (i, m)

unfoldable pub poison_two : ℕ → Memory → Memory
poison_two i m = store 8 (i + 8) poison_word (store 8 i poison_word m)

unfoldable pub poison_pointer : ℕ → Memory → Memory
poison_pointer n m =
    let s16 = write_loop 16 poison_two n n (0, m) in
    let s8 = write_loop 8 (λ i. store 8 i poison_word) n n s16 in
    let s4 = write_loop 4 (λ i. store 4 i (poison_word % 2 ^ 32)) n n s8 in
    let s2 = write_loop 2 (λ i. store 2 i (poison_word % 2 ^ 16)) n n s4 in
    if ltb s2.0 n then store 1 s2.0 (poison_word % 2 ^ 8) s2.1 else s2.1
