-- ===== src/Hash/Update/Sizes.antt =====
-- The sizes of a new table of hash.go, and the place of a base index in it.
use mathlib.Core.Path.{subst}
use elib.Base.{
  ℕ, zero, suc, ◌+◌, ◌-◌, ◌*◌, ◌/◌, ◌%◌, ◌^◌, ◌≤◌, ◌<◌, ◌≡◌, refl, sym, ◌∙◌, ap, ap₂, arith, false,
  Bool-cases, ◌⊎◌, inl, inr, length-replicate, bit_and, bit_or, ltb, ltb→lt, ltb→le, le→ltb, ◌==◌,
  ne→==, if_true, if_false,
}
use native.Mathlib.Nat.{mod-eq_of_lt, mul-div_left, mod-lt}
use elib.Word.Pow.{two_pow-pos, two_pow-lt, two_pow-le, two_pow-add}
use elib.Word.Mask.{bit_and-mask}
use elib.Word.Digits.{bit_or_step}
use elib.Cap.{cap_nil, log2}
use elib.Cap.Logs.{log2-two_pow, log2-two_powers}
use elib.Hash.{Hash, bucket_size, cap_mask, limit, offset, base_index}
use elib.Hash.Mix.{HashState}
use elib.Hash.Search.First.{Fits, IsBounded}
use elib.Hash.Update.{bucket_log2, sized_by, sized, alloc_table}
use elib.Hash.Update.Fresh.{IsAligned, aligned-Fits, alloc_table-IsBounded}

-- The capacity of a table, one power of two or the sum of two, in whole buckets.
abbrev pub IsShaped : Hash → Type 0
IsShaped h =
    ((h.cap ≡ 2 ^ h.log2_cap0)
      × (h.limit0 ≡ 2 ^ 32 - 1)
      × (h.log2_elts_per_bucket ≤ h.log2_cap0)
      × (h.log2_cap0 < 32))
    ⊎ ((h.cap ≡ 2 ^ h.log2_cap0 + 2 ^ h.log2_cap1)
        × (h.log2_elts_per_bucket ≤ h.log2_cap0)
        × (h.log2_elts_per_bucket ≤ h.log2_cap1)
        × (h.log2_cap0 < 32)
        × (h.log2_cap1 < 32))

multiple : (m b : ℕ) → m * 2 ^ b / 2 ^ b * 2 ^ b ≡ m * 2 ^ b
multiple m b = ap (λ q. q * 2 ^ b) (mul-div_left m {n = 2 ^ b} (two_pow-pos b))

split_pow : (b i : ℕ) → b ≤ i → 2 ^ i ≡ 2 ^ (i - b) * 2 ^ b
split_pow b i le =
    ap (λ k. 2 ^ k) {x = i} {y = (i - b) + b} (omega (arith, le)) ∙ two_pow-add (i - b) b

-- A shaped capacity is a number of buckets.
whole_buckets : (h : Hash) → IsShaped h → h.cap / bucket_size h * bucket_size h ≡ h.cap
whole_buckets h (inl (e, _, b, _)) =
    let form = e ∙ split_pow h.log2_elts_per_bucket h.log2_cap0 b in
    ap (λ c. c / bucket_size h * bucket_size h) form
    ∙ multiple (2 ^ (h.log2_cap0 - h.log2_elts_per_bucket)) h.log2_elts_per_bucket
    ∙ sym form
whole_buckets h (inr (e, b0, b1, _, _)) =
    let k = h.log2_elts_per_bucket in
    let form : h.cap ≡ (2 ^ (h.log2_cap0 - k) + 2 ^ (h.log2_cap1 - k)) * 2 ^ k =
      e ∙ omega (arith, split_pow k h.log2_cap0 b0, split_pow k h.log2_cap1 b1) in
    ap (λ c. c / bucket_size h * bucket_size h) form
    ∙ multiple (2 ^ (h.log2_cap0 - k) + 2 ^ (h.log2_cap1 - k)) k
    ∙ sym form

masked : (x l : ℕ) → l < 32 → bit_and x (cap_mask l) < 2 ^ l
masked x l h =
    let small = two_pow-lt {a = l} {b = 32} h in
    let mask : cap_mask l ≡ 2 ^ l - 1 = omega (arith, small, two_pow-pos l) in
    omega (arith, ap (bit_and x) mask ∙ bit_and-mask l x, mod-lt x {m = 2 ^ l} (two_pow-pos l))

base_index-lt : (h : Hash) (s : HashState) → IsShaped h → s.s0 < 2 ^ 64 → base_index h s < h.cap
unfolding base_index
base_index-lt h s (inl (e, top, _, small)) fit =
    let low : ltb h.limit0 (limit s) ≡ false =
      le→ltb h.limit0 (limit s) (omega (arith, top, fit)) in
    let at : base_index h s ≡ bit_and (offset s) (cap_mask h.log2_cap0) = if_false _ _ low in
    omega (arith, at, masked (offset s) h.log2_cap0 small, e)
base_index-lt h s (inr (e, _, _, small0, small1)) fit = elim (Bool-cases (ltb h.limit0 (limit s))) [
  | inr t ↦
      let at : base_index h s ≡ bit_and (offset s) (cap_mask h.log2_cap0) = if_false _ _ t in
      omega (arith, at, masked (offset s) h.log2_cap0 small0, e)
  | inl t ↦
      let at : base_index h s
          ≡ (bit_and (offset s) (cap_mask h.log2_cap1) + 2 ^ h.log2_cap0 % 2 ^ 64) % 2 ^ 64 =
        if_true _ _ t in
      let below0 = two_pow-lt {a = h.log2_cap0} {b = 32} small0 in
      let below1 = two_pow-lt {a = h.log2_cap1} {b = 32} small1 in
      omega (arith, at, masked (offset s) h.log2_cap1 small1, e, below0, below1)
]

bucket_log2-half : (i : ℕ) → 1 ≤ i → i < 32 → (bucket_log2 i < i) × (bucket_log2 i ≤ 7)
bucket_log2-half i low high =
    let l = (i + 2 ^ 32 - 1) % 2 ^ 32 / 2 % 2 ^ 8 in
    let half : l < i = omega (arith, low, high) in
    elim (Bool-cases (ltb 7 l)) [
      | inl t ↦ rw t (omega (arith, ltb→lt 7 l t, half), omega arith)
      | inr t ↦ rw t (half, ltb→le 7 l t)
    ]

or_zero : (n x : ℕ) → x ≤ n → bit_or x 0 ≡ x
or_zero zero x h = let e : x ≡ 0 = omega (arith, h) in rw e refl
or_zero (suc n) zero h = refl
or_zero (suc n) (suc x) h =
    omega (arith, bit_or_step (suc x) 0, or_zero n (suc x / 2) (omega (arith, h)))

or_powers : (b d : ℕ) → bit_or (2 ^ (b + suc d)) (2 ^ b) ≡ 2 ^ (b + suc d) + 2 ^ b
or_powers zero d =
    let x = 2 ^ (0 + suc d) in
    let e : x ≡ 2 * 2 ^ d =
      ap (λ k. 2 ^ k) {x = 0 + suc d} {y = 1 + d} (omega arith) ∙ two_pow-add 1 d in
    let half : bit_or (x / 2) (1 / 2) ≡ 2 ^ d =
      ap (λ k. bit_or k 0) {x = x / 2} {y = 2 ^ d} (omega (arith, e))
      ∙ or_zero (2 ^ d) (2 ^ d) (omega arith) in
    omega (arith, bit_or_step x 1, half, e)
or_powers (suc b) d =
    let x = 2 ^ (suc b + suc d) in
    let y = 2 ^ suc b in
    let e : x ≡ 2 * 2 ^ (b + suc d) =
      ap (λ k. 2 ^ k) {x = suc b + suc d} {y = 1 + (b + suc d)} (omega arith)
      ∙ two_pow-add 1 (b + suc d) in
    let e' : y ≡ 2 * 2 ^ b =
      ap (λ k. 2 ^ k) {x = suc b} {y = 1 + b} (omega arith) ∙ two_pow-add 1 b in
    let half : bit_or (x / 2) (y / 2) ≡ bit_or (2 ^ (b + suc d)) (2 ^ b) =
      ap₂ bit_or (omega (arith, e)) (omega (arith, e')) in
    omega (arith, bit_or_step x y, half, or_powers b d, e, e')

or_lower : (i b : ℕ) → b < i → bit_or (2 ^ i) (2 ^ b) ≡ 2 ^ i + 2 ^ b
or_lower i b lt =
    let e : i ≡ b + suc (i - b - 1) = omega (arith, lt) in
    ap (λ k. bit_or (2 ^ k) (2 ^ b)) e ∙ or_powers b (i - b - 1) ∙ ap (λ k. 2 ^ k + 2 ^ b) (sym e)

-- A new table of one power of two.
one-IsShaped :
    (h : Hash) (i : ℕ)
    → h.cap ≡ 2 ^ i
    → 1 ≤ i
    → i < 32
    → IsShaped (sized_by (i, cap_nil) h) × (bucket_size (sized_by (i, cap_nil) h) ≤ 128)
unfolding sized_by
one-IsShaped h i e low high =
    let (within, few) = bucket_log2-half i low high in
    let byte : i % 2 ^ 8 ≡ i = mod-eq_of_lt (omega (arith, high)) in
    (
      inl (
        e ∙ ap (λ k. 2 ^ k) (sym byte),
        refl,
        omega (arith, within, byte),
        omega (arith, byte, high),
      ),
      two_pow-le {a = bucket_log2 i} {b = 7} few,
    )

two-IsShaped :
    (h : Hash) (i j : ℕ)
    → h.cap ≡ 2 ^ i + 2 ^ j
    → j < i
    → i < 32
    → IsShaped (sized_by (i, j) h) × (bucket_size (sized_by (i, j) h) ≤ 128)
unfolding sized_by
two-IsShaped h i j e p high =
    let (within, few) = bucket_log2-half i (omega (arith, p)) high in
    let byte : i % 2 ^ 8 ≡ i = mod-eq_of_lt (omega (arith, high)) in
    let byte' : j % 2 ^ 8 ≡ j = mod-eq_of_lt (omega (arith, p, high)) in
    let b = bucket_log2 i in
    let two : (j == cap_nil) ≡ false = ne→== j cap_nil (λ q. omega (arith, q, p, high)) in
    elim (Bool-cases (ltb (j % 2 ^ 8) b)) [
      | inl t ↦
          rw (two, t)
            (
              inr (
                ap (λ x. x % 2 ^ 32) (or_lower i b within)
                    ∙ mod-eq_of_lt (
                        omega (
                          arith,
                          two_pow-lt {a = b} {b = i} within,
                          two_pow-le {a = i} {b = 31} (omega (arith, high)),
                        ))
                    ∙ ap (λ k. 2 ^ k + 2 ^ b) (sym byte),
                omega (arith, within, byte),
                omega arith,
                omega (arith, byte, high),
                omega (arith, within, high),
              ),
              two_pow-le {a = b} {b = 7} few,
            )
      | inr t ↦
          rw (two, t)
            (
              inr (
                e ∙ ap₂ (λ k l. 2 ^ k + 2 ^ l) (sym byte) (sym byte'),
                omega (arith, within, byte),
                ltb→le (j % 2 ^ 8) b t,
                omega (arith, byte, high),
                omega (arith, byte', p, high),
              ),
              two_pow-le {a = b} {b = 7} few,
            )
    ]

-- The capacity is a power of two, but 1, or the sum of two.
abbrev pub IsTableCap : ℕ → Type 0
IsTableCap c =
    ((i : ℕ) × (1 ≤ i) × (i < 32) × (c ≡ 2 ^ i))
    ⊎ ((i : ℕ) × (j : ℕ) × (j < i) × (i < 32) × (c ≡ 2 ^ i + 2 ^ j))

sized-IsShaped : (h : Hash) → IsTableCap h.cap → IsShaped (sized h) × (bucket_size (sized h) ≤ 128)
unfolding sized
sized-IsShaped h (inl (i, low, high, e)) =
    subst (λ p. IsShaped (sized_by p h) × (bucket_size (sized_by p h) ≤ 128))
      (sym (ap log2 e ∙ log2-two_pow i high)) (one-IsShaped h i e low high)
sized-IsShaped h (inr (i, j, p, high, e)) =
    subst (λ q. IsShaped (sized_by q h) × (bucket_size (sized_by q h) ≤ 128))
      (sym (ap log2 e ∙ log2-two_powers i j p high)) (two-IsShaped h i j e p high)

-- A table that was just made with a capacity of a power of two from 2, or a sum of two powers of two,
-- below 2^32: the bucket of every hash lies in the table, a bucket has at most 128 slots, and the
-- largest differences bound the marks.
pub alloc_table-Fits :
    (seed s : HashState) (h : Hash)
    → IsTableCap h.cap
    → s.s0 < 2 ^ 64
    → Fits (alloc_table seed h) (base_index (alloc_table seed h) s)
      × (bucket_size (alloc_table seed h) ≤ 128)
      × IsBounded (alloc_table seed h)
unfolding alloc_table
alloc_table-Fits seed s h cap fit =
    let (shape, few) = sized-IsShaped h cap in
    let made = sized h in
    let slots = length-replicate made.cap 0 in
    let rows = length-replicate (made.cap / bucket_size made) 0 in
    let aligned : IsAligned (alloc_table seed h) =
      slots ∙ sym (ap (λ r. r * bucket_size made) rows ∙ whole_buckets made shape) in
    let below : base_index (alloc_table seed h) s < made.cap =
      base_index-lt (alloc_table seed h) s shape fit in
    (
      aligned-Fits (alloc_table seed h) (base_index (alloc_table seed h) s) aligned
          (omega (arith, below, slots)),
      few,
      alloc_table-IsBounded seed h,
    )
