-- ===== src/Bits/Log.antt =====
-- NLeadingZeros and the logarithms: the binary search finds the highest bit.
use native.Mathlib.Nat.{div-lt_iff_lt-mul, div-mul-le_self, lt-div-mul-add}
use elib.Base.{
  ℕ, zero, suc, ◌+◌, ◌-◌, ◌*◌, ◌/◌, ◌%◌, ◌^◌, ◌≤◌, ◌<◌, ◌≡◌, refl, sym, ◌∙◌, ap, arith, ltb, ◌==◌,
  if◌then◌else◌, ltb→lt, Bool-cases, inl, inr,
}
use elib.Word.Pow.{
  two_pow-add, two_pow-pos, div_two_pow-add, two_pow-lt, two_pow-le_inv, two_pow-lt_inv,
  two_pow-suc,
}
use elib.Bits.{halve, finish, n_leading_zeros, min_log2, max_log2, max_pow2}

-- During the search on `x`: `64 - n` bits are shifted out, and what is left is below `2 ^ w`.
record Searching (x w : ℕ) (s : ℕ × ℕ) : Type 0 where
  count : s.0 ≤ 64
  room : w ≤ s.0
  shifted : s.1 ≡ x / 2 ^ (64 - s.0)
  small : s.1 < 2 ^ w
  live : 0 < s.1

module _ (x : ℕ) where
  halve-Searching : (w : ℕ) (s : ℕ × ℕ) → Searching x (w + w) s → Searching x w (halve w s)
  halve-Searching w (n, y) h = elim (Bool-cases (y / 2 ^ w == 0)) [
    | inl gone ↦ rw gone (record {
      count = h.count;
      room = omega (arith, h.room);
      shifted = h.shifted;
      small = ground (arith, two_pow-pos w, rest);
      live = h.live;
    })
    | inr kept ↦ rw kept (record {
      count = omega (arith, h.count);
      room = omega (arith, h.room);
      shifted = moved;
      small = (div-lt_iff_lt-mul (two_pow-pos w)).1 (rw two_pow-add at h.small);
      live = ground arith;
    })
  ]
    where
      rest : y / 2 ^ w ≡ 0 → y < 2 ^ w
      rest e = let q = rw e at (lt-div-mul-add {a = y} {b = 2 ^ w} (two_pow-pos w)) in omega arith

      moved : y / 2 ^ w ≡ x / 2 ^ (64 - (n - w))
      moved =
          let e : 64 - (n - w) ≡ 64 - n + w = omega (arith, h.count, h.room) in
          ap (λ (t : ℕ). t / 2 ^ w) h.shifted
          ∙ div_two_pow-add x (64 - n) w
          ∙ ap (λ (t : ℕ). x / 2 ^ t) (sym e)

  -- What the last round returns, with `p` for the power that was shifted out.
  finish_bounds :
      (n y : ℕ)
      → Searching x 2 (n, y)
      → (p : ℕ) → p ≡ 2 ^ (64 - n)
      → (l : ℕ) × (finish (n, y) + l ≡ 63) × (2 ^ l ≤ x) × (x < 2 ^ l + 2 ^ l)
  finish_bounds n zero h p e = absurd (omega (arith, h.live))
  finish_bounds n (suc zero) h p e =
      let s : 1 ≡ x / p = rw e h.shifted in
      let low : 1 * p ≤ x = rw (← s) at (div-mul-le_self x p) in
      let high : x < 1 * p + p =
        rw (← s) at (lt-div-mul-add {a = x} {b = p} (rw e (two_pow-pos (64 - n)))) in
      (64 - n, omega (arith, h.count, h.room), omega arith, omega arith)
  finish_bounds n (suc (suc y)) h p e =
      let s : suc (suc y) ≡ x / p = rw e h.shifted in
      let low = rw (← s) at (div-mul-le_self x p) in
      let high = rw (← s) at (lt-div-mul-add {a = x} {b = p} (rw e (two_pow-pos (64 - n)))) in
      (
        64 - n + 1,
        ground (arith, h.count, h.room, h.small),
        omega (arith, two_pow-add (64 - n) 1),
        grind (arith, two_pow-add (64 - n) 1),
      )

  searched :
      0 < x → x < 2 ^ 64 → Searching x 2 (halve 2 (halve 4 (halve 8 (halve 16 (halve 32 (64, x))))))
  searched p q = halve-Searching 2 _ (
      halve-Searching 4 _ (
        halve-Searching 8 _ (
          halve-Searching 16 _ (
            halve-Searching 32 (64, x)
              (record {
                count = omega arith;
                room = omega arith;
                shifted = omega arith;
                small = q;
                live = p;
              })))))

-- For a positive word, 63 less the leading zeros is the position of the highest bit.
n_leading_zeros_lem :
    (x : ℕ)
    → 0 < x
    → x < 2 ^ 64
    → (l : ℕ) × (n_leading_zeros x + l ≡ 63) × (2 ^ l ≤ x) × (x < 2 ^ l + 2 ^ l)
unfolding n_leading_zeros
n_leading_zeros_lem x p q =
    let s = halve 2 (halve 4 (halve 8 (halve 16 (halve 32 (64, x))))) in
    finish_bounds x s.0 s.1 (searched x p q) (2 ^ (64 - s.0)) refl

-- MinLog2 is the logarithm rounded down: for a positive word `x` it is below 64, and
-- `2 ^ l ≤ x < 2 ^ (l + 1)` for the result `l`.
pub min_log2_lem :
    (x : ℕ)
    → 0 < x
    → x < 2 ^ 64
    → (min_log2 x < 64) × (2 ^ min_log2 x ≤ x) × (x < 2 ^ min_log2 x + 2 ^ min_log2 x)
unfolding min_log2
min_log2_lem x p q =
    let (l, e, low, high) = n_leading_zeros_lem x p q in
    let m : (63 + 2 ^ 64 - n_leading_zeros x) % 2 ^ 64 ≡ l = omega (arith, e) in
    rw m (omega (arith, e), low, high)

-- The logarithm of a power of two.
pub min_log2-two_pow : (k : ℕ) → k < 64 → min_log2 (2 ^ k) ≡ k
min_log2-two_pow k h =
    let m = min_log2 (2 ^ k) in
    let (small, low, high) = min_log2_lem (2 ^ k) (two_pow-pos k) (two_pow-lt h) in
    let above : k < m + 1 = two_pow-lt_inv k (m + 1) (rw two_pow-suc high) in
    omega (arith, two_pow-le_inv m k low)

-- What the two roundings up return, with `l` for the logarithm rounded down.
abbrev rounded : ℕ → ℕ → ℕ × ℕ
rounded x l = if ltb (2 ^ l) x then (l + 1, 2 ^ l + 2 ^ l) else (l, 2 ^ l)

max_log2-rounded :
    (x : ℕ)
    → 0 < x
    → x ≤ 2 ^ 63
    → (max_log2 x ≡ (rounded x (min_log2 x)).0) × (max_pow2 x ≡ (rounded x (min_log2 x)).1)
unfolding max_log2 max_pow2
max_log2-rounded x p q =
    let l = min_log2 x in
    let (small, low, high) = min_log2_lem x p (omega arith) in
    let shifted : 1 * 2 ^ l % 2 ^ 64 ≡ 2 ^ l = omega arith in
    rw shifted (ground (arith, two_pow-suc l), ground arith)

-- For a word `x` from 1 to 2^63, MaxLog2 is the logarithm rounded up, the least `l` with
-- `x ≤ 2 ^ l`, and MaxPow2 is that power of two.
pub max_log2-max_pow2 :
    (x : ℕ)
    → 0 < x
    → x ≤ 2 ^ 63
    → (x ≤ 2 ^ max_log2 x) × ((k : ℕ) → x ≤ 2 ^ k → max_log2 x ≤ k) × (max_pow2 x ≡ 2 ^ max_log2 x)
max_log2-max_pow2 x p q =
    let l = min_log2 x in
    let (small, low, high) = min_log2_lem x p (omega arith) in
    let (e, f) = max_log2-rounded x p q in
    rw (e, f)
      (elim (Bool-cases (ltb (2 ^ l) x)) [
        | inl up ↦
            rw (up, two_pow-suc)
              (
                omega arith,
                (λ k r.
                    let s : 2 ^ l < 2 ^ k = omega (arith, ltb→lt _ _ up) in
                    omega (arith, two_pow-lt_inv l k s)),
                refl,
              )
        | inr down ↦ rw down (ground arith, λ k r. two_pow-le_inv l k (omega arith), refl)
      ])
