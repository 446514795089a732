-- ===== src/Bitmap/Walk.antt =====
-- ForeachSetBit and Next of bitmap.go: the set bits of a bitmap in order.
pub mod Visit
use elib.Base.{
  ℕ, zero, suc, ◌+◌, ◌-◌, ◌*◌, ◌/◌, ◌%◌, ◌^◌, Bool, true, false, not, Option, none, some, List, [],
  ◌∷◌, ◌++◌, Outcome, ok, panic, out_of_fuel, ◌>>=◌, load, drop, or_panic, bit_and, bit_or, ◌==◌,
  ◌!=◌, if◌then◌else◌, map,
}
use elib.Word.{complement}
use elib.Bits.{first_set, min_log2, foreach_set_bit}
use elib.Bitmap.Store.{BitmapPool, is_pool_index, bitmap_index, words}
use elib.Vec.{Vec}

-- The words of a bitmap, inline or pooled.
abbrev pub bitmap_words : BitmapPool → ℕ → Outcome (List ℕ)
bitmap_words p b =
    if not (is_pool_index b) then ok (b ∷ []) else (words p (complement b) >>= λ v. ok v.items)

-- The calls of `fn` for the words from word `i` on. The inner loop is that of ForeachSetBit of
-- bits.go.
unfoldable pub foreach_word : List ℕ → ℕ → Outcome (List ℕ)
foreach_word [] i = ok []
foreach_word (w ∷ ws) i = do
  ls ← or_panic (foreach_set_bit w) out_of_fuel
  rest ← foreach_word ws (suc i)
  ok (map (λ (l : ℕ). (i * 64 + l) % 2 ^ 64) ls ++ rest)

unfoldable pub foreach_set_bit_in : BitmapPool → ℕ → Outcome (List ℕ)
foreach_set_bit_in p b = bitmap_words p b >>= λ s. foreach_word s 0

abbrev pub lowest_of : ℕ → ℕ → ℕ
lowest_of i m = (i * 64 + min_log2 (first_set m)) % 2 ^ 64

-- The loop of Next over the words from word `i` on.
unfoldable pub next_word : List ℕ → ℕ → Option ℕ
next_word [] i = none
next_word (w ∷ ws) i =
    let rest = next_word ws (suc i) in if w != 0 then some (lowest_of i w) else rest

-- `ok` and `*px`. The call starts after `x`, or at the first word if `x` is the largest number.
unfoldable pub next : BitmapPool → ℕ → ℕ → Outcome (Bool × ℕ)
next p b x =
    let (i0, m0) = bitmap_index x in
    let start : Bool = x == 2 ^ 64 - 1 in
    let i : ℕ = if start then 0 else i0 in
    let above : ℕ = if start then 2 ^ 64 - 1 else complement (bit_or m0 (m0 - 1)) in
    bitmap_words p b >>= λ s. load s i >>= λ w.
    let m = bit_and above w in
    let later : Outcome (Bool × ℕ) = elim (next_word (drop (i + 1) s) (i + 1)) [
      | some y ↦ ok (true, y)
      | none ↦ ok (false, 2 ^ 64 - 1)
    ] in
    if m != 0 then ok (true, lowest_of i m) else later
