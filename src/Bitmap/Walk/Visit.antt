-- ===== src/Bitmap/Walk/Visit.antt =====
-- What ForeachSetBit of bitmap.go visits.
use elib.Base.{
  ℕ, zero, suc, ◌+◌, ◌*◌, ◌/◌, ◌%◌, ◌^◌, ◌≤◌, ◌<◌, ◌≡◌, refl, sym, ◌∙◌, ap, arith, List, [], ◌∷◌,
  ◌++◌, ok, length, get_or, some, get_or-default, ◌==◌, if◌then◌else◌, map, Bool-cases, inl, inr,
}
use elib.Word.{complement}
use elib.Word.Digits.{bit, bit-zero, bit_high}
use elib.Bits.{foreach_set_bit}
use elib.Bits.Scan.{positions, foreach_set_bit-positions}
use elib.Bitmap.Store.{BitmapPool, is_inline}
use elib.Bitmap.Update.Content.{IsBitmap, slot, digit, words-slot}
use elib.Bitmap.Walk.{foreach_word, foreach_set_bit_in}

-- The numbers of the set with digits `d` among the `n` from `s` on, in ascending order.
abbrev pub members : (ℕ → ℕ) → ℕ → ℕ → List ℕ
members d zero s = []
members d (suc n) s = if d s == 1 then s ∷ members d n (suc s) else members d n (suc s)

pub members-ext : (d e : ℕ → ℕ) (n s : ℕ) → ((y : ℕ) → d y ≡ e y) → members d n s ≡ members e n s
members-ext d e zero s h = refl
members-ext d e (suc n) s h = rw (h s, members-ext d e n (suc s) h) refl

members-add : (d : ℕ → ℕ) (m n s : ℕ) → members d (m + n) s ≡ members d m s ++ members d n (s + m)
members-add d zero n s =
    let e : s + 0 ≡ s = omega arith in let e' : 0 + n ≡ n = omega arith in rw (e, e') refl
members-add d (suc m) n s =
    let e : s + suc m ≡ suc s + m = omega arith in
    let e' : suc m + n ≡ suc (m + n) = omega arith in
    rw (e, e', members-add d m n (suc s))
      (elim (Bool-cases (d s == 1)) [ inl hit ↦ rw hit refl | inr miss ↦ rw miss refl ])

map-positions :
    (d : ℕ → ℕ) (i w n s : ℕ)
    → i * 64 + s + n ≤ 2 ^ 64
    → ((j : ℕ) → j < s + n → d (i * 64 + j) ≡ bit w j)
    → map (λ (l : ℕ). (i * 64 + l) % 2 ^ 64) (positions n s w) ≡ members d n (i * 64 + s)
map-positions d i w zero s h g = refl
map-positions d i w (suc n) s h g =
    let here = g s (omega arith) in
    let rest = map-positions d i w n (suc s) (omega arith) (λ j q. g j (omega arith)) in
    let e : i * 64 + suc s ≡ suc (i * 64 + s) = omega arith in
    let small : (i * 64 + s) % 2 ^ 64 ≡ i * 64 + s = omega arith in
    rw here (elim (Bool-cases (bit w s == 1)) [
      | inl hit ↦ rw (hit, ← e, ← rest, small) refl
      | inr miss ↦ rw (miss, ← e, ← rest) refl
    ])

join :
    (d : ℕ → ℕ) (k m n s t : ℕ) (a b : List ℕ)
    → s + k ≡ t
    → k + m ≡ n
    → a ≡ members d k s
    → b ≡ members d m t
    → a ++ b ≡ members d n s
join d k m n s t a b e f g h = rw (g, h, ← e, ← f) (sym (members-add d k m s))

one_word : (b : ℕ) → b < 2 ^ 64 → (j : ℕ) → bit b j ≡ bit (get_or (b ∷ []) (j / 64) 0) (j % 64)
one_word b h j = elim (Bool-cases (j / 64 == 0)) [
  | inl near ↦
      let a : j / 64 ≡ 0 = ground arith in let c : j % 64 ≡ j = omega arith in rw (a, c) refl
  | inr far ↦
      let q : 1 ≤ j / 64 = ground arith in
      bit_high 64 b j h (omega arith)
      ∙ sym (rw (get_or-default (b ∷ []) (j / 64) 0 q) (bit-zero (j % 64)))
]

-- `n` is the width of a word.
module _ (n : ℕ) (width : n ≡ 64)
    (visit : (x : ℕ) → x < 2 ^ 64 → foreach_set_bit x ≡ some (positions n 0 x)) where
  foreach_word-members :
      (d : ℕ → ℕ) (ws : List ℕ) (i : ℕ)
      → i * 64 + length ws * 64 ≤ 2 ^ 64
      → ((j : ℕ) → get_or ws j 0 < 2 ^ 64)
      → ((j : ℕ) → d (i * 64 + j) ≡ bit (get_or ws (j / 64) 0) (j % 64))
      → foreach_word ws i ≡ ok (members d (length ws * n) (i * 64))
  unfolding foreach_word
  foreach_word-members d [] i h small g = let e : 0 * n ≡ 0 = omega arith in rw e refl
  foreach_word-members d (w ∷ ws) i h small g =
      let first : (j : ℕ) → j < n → d (i * 64 + j) ≡ bit w j = λ j q.
        let a : j / 64 ≡ 0 = omega arith in
        let b : j % 64 ≡ j = omega arith in rw (g j, a, b) refl in
      let later : (j : ℕ) → d (suc i * 64 + j) ≡ bit (get_or ws (j / 64) 0) (j % 64) = λ j.
        let a : suc i * 64 + j ≡ i * 64 + (64 + j) = omega arith in
        let b : (64 + j) / 64 ≡ suc (j / 64) = omega arith in
        let c : (64 + j) % 64 ≡ j % 64 = omega arith in rw a (g (64 + j) ∙ rw (b, c) refl) in
      let rest = foreach_word-members d ws (suc i) (omega arith) (λ j. small (suc j)) later in
      let here = map-positions d i w n 0 (omega arith) (λ j q. first j (omega arith)) in
      let e : i * 64 + 0 ≡ i * 64 = omega arith in
      rw (visit w (small 0), rest)
        (ap ok (
          join d n (length ws * n) _ (i * 64) (suc i * 64) _ _ (omega arith)
            (rw width (omega arith)) (rw e at here) refl))

  words-members :
      (d : ℕ → ℕ) (ws : List ℕ)
      → length ws ≤ 2 ^ 58
      → ((j : ℕ) → get_or ws j 0 < 2 ^ 64)
      → ((j : ℕ) → d j ≡ bit (get_or ws (j / 64) 0) (j % 64))
      → foreach_word ws 0 ≡ ok (members d (length ws * n) 0)
  words-members d ws h small g =
      let e : (j : ℕ) → 0 * 64 + j ≡ j = λ j. omega arith in
      let z : 0 * 64 ≡ 0 = omega arith in
      rw z at (foreach_word-members d ws 0 (omega arith) small (λ j. rw (e j) (g j)))

  one_small : (w : ℕ) → w < 2 ^ 64 → (j : ℕ) → get_or (w ∷ []) j 0 < 2 ^ 64
  one_small w q zero = q
  one_small w q (suc j) = omega arith

  visited :
      (p : BitmapPool) (b : ℕ)
      → IsBitmap p b
      → ((j : ℕ) → get_or (slot p (complement b)).items j 0 < 2 ^ 64)
      → length (slot p (complement b)).items ≤ 2 ^ 58
      → (m : ℕ) × (foreach_set_bit_in p b ≡ ok (members (digit p b) m 0))
        × ((y : ℕ) → m ≤ y → digit p b y ≡ 0)
  unfolding foreach_set_bit_in
  visited p b h small short = elim (Bool-cases (is_inline b)) [
    | inl inline ↦
        let call =
          words-members (digit p b) (b ∷ []) (omega arith) (one_small b h.word)
            (λ j. rw inline (one_word b h.word j)) in
        (1 * n, rw inline call, λ y q. rw inline (bit_high 64 b y h.word (omega arith)))
    | inr pooled ↦
        let v = slot p (complement b) in
        let call = words-members (digit p b) v.items short small (λ j. rw pooled refl) in
        (
          length v.items * n,
          rw (pooled, words-slot p (complement b) (h.owned (ground arith))) call,
          λ y q.
              let far : length v.items * 64 ≤ y = rw width at q in
              rw (pooled, get_or-default v.items (y / 64) 0 (omega arith)) (bit-zero (y % 64)),
        )
  ]

-- ForeachSetBit on a bitmap of 64-bit words returns. It has called `fn` on the numbers of the set, each once and in ascending order,
-- and past the `n` numbers it looked at the set has no other.
pub foreach_set_bit_in-members :
    (p : BitmapPool) (b : ℕ)
    → IsBitmap p b
    → ((j : ℕ) → get_or (slot p (complement b)).items j 0 < 2 ^ 64)
    → length (slot p (complement b)).items ≤ 2 ^ 58
    → (n : ℕ) × (foreach_set_bit_in p b ≡ ok (members (digit p b) n 0))
      × ((y : ℕ) → n ≤ y → digit p b y ≡ 0)
foreach_set_bit_in-members = visited 64 refl foreach_set_bit-positions
