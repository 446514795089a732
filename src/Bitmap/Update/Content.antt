-- ===== src/Bitmap/Update/Content.antt =====
-- What a bitmap holds, digit by digit, and what Get reads.
use elib.Base.{
  ℕ, zero, suc, ◌*◌, ◌/◌, ◌%◌, ◌^◌, ◌≤◌, ◌<◌, ◌≡◌, ◌≢◌, ap, arith, Bool, true, false, ok, length,
  get_or, bit_and, leb, ltb, ◌==◌, ◌!=◌, if◌then◌else◌, Bool-cases, inl, inr, get_elem?-get_or,
  get_or-default, get_or-set, ltb→lt, ltb→le, leb→le, leb→lt,
}
use elib.Word.{complement, shl}
use elib.Word.Digits.{bit, bit_le, bit_high, bit-zero}
use elib.Word.Mask.{bit_and-two_pow, bit_and-zero}
use elib.Word.Pow.{two_pow-pos, two_pow-lt}
use elib.Vec.{Vec, capacity}
use elib.Vec.Validate.{IsClean}
use elib.Bitmap.Store.{BitmapPool, no_words, is_pool_index, is_inline, words, put_words}
use elib.Bitmap.Update.{get}

abbrev pub slot : BitmapPool → ℕ → Vec ℕ
slot p j = get_or p.bitmaps.items j no_words

-- Digit `x` of a vector of words.
abbrev pub vector_digit : Vec ℕ → ℕ → ℕ
vector_digit v x = bit (get_or v.items (x / 64) 0) (x % 64)

-- Digit `x` of a bitmap: 1 for a member of the set, 0 for any other number.
abbrev pub digit : BitmapPool → ℕ → ℕ → ℕ
digit p b x = if is_inline b then bit b x else vector_digit (slot p (complement b)) x

-- A word whose pool index, if it is one, is that of a slot.
pub record IsBitmap (p : BitmapPool) (b : ℕ) : Type 0 where
  pub word : b < 2 ^ 64
  pub owned : 2 ^ 63 ≤ b → complement b < length p.bitmaps.items

-- Past its length every slot is zero, and no slot is too large.
pub record IsTidy (p : BitmapPool) : Type 0 where
  pub clean : (j : ℕ) → IsClean 0 (slot p j)
  pub sized : (j : ℕ) → capacity (slot p j) ≤ 2 ^ 31

pub inline_lt : (b : ℕ) → b < 2 ^ 63 → is_inline b ≡ true
inline_lt b h = ground arith

pub pooled_ge : (b : ℕ) → 2 ^ 63 ≤ b → b < 2 ^ 64 → is_inline b ≡ false
pooled_ge b h p = ground arith

pub shl-one : (k : ℕ) → k < 64 → shl 1 k ≡ 2 ^ k
shl-one k h = let s = two_pow-lt h in omega arith

-- The test `w & (1 << k) != 0`.
pub mask_test : (w k : ℕ) → k < 64 → (bit_and w (shl 1 k) != 0) ≡ (bit w k == 1)
mask_test w k h =
    let pos = two_pow-pos k in
    rw (shl-one k h, bit_and-two_pow k w) (digits (bit w k) (bit_le w k) (2 ^ k) pos)
  where
    digits : (d : ℕ) → d ≤ 1 → (q : ℕ) → 0 < q → (d * q != 0) ≡ (d == 1)
    digits zero h q p = ground arith
    digits (suc zero) h q p = ground arith
    digits (suc (suc d)) h q p = absurd (omega arith)

pub words-slot : (p : BitmapPool) (j : ℕ) → j < length p.bitmaps.items → words p j ≡ ok (slot p j)
unfolding words
words-slot p j h = rw (get_elem?-get_or p.bitmaps.items j no_words h)

pub slot-put_words :
    (p : BitmapPool) (j k : ℕ) (v : Vec ℕ)
    → j < length p.bitmaps.items
    → slot (put_words p j v) k ≡ (if j == k then v else slot p k)
slot-put_words p j k v h = get_or-set p.bitmaps.items j k v no_words h

pub put_words-IsTidy :
    (p : BitmapPool) (j : ℕ) (v : Vec ℕ)
    → j < length p.bitmaps.items
    → IsTidy p
    → IsClean 0 v
    → capacity v ≤ 2 ^ 31
    → IsTidy (put_words p j v)
put_words-IsTidy p j v h t c s = record {
  clean = λ k. elim (Bool-cases (j == k)) [
    | inl same ↦ rw (slot-put_words p j k v h, same) c
    | inr other ↦ rw (slot-put_words p j k v h, other) (t.clean k)
  ];
  sized = λ k. elim (Bool-cases (j == k)) [
    | inl same ↦ rw (slot-put_words p j k v h, same) s
    | inr other ↦ rw (slot-put_words p j k v h, other) (t.sized k)
  ];
}

-- Get returns, for every bitmap and every index, whether the index is in the set: also past the end
-- of a pooled bitmap and past the width of an inline one.
pub get_lem : (p : BitmapPool) (b x : ℕ) → IsBitmap p b → get p b x ≡ ok (digit p b x == 1)
unfolding get
get_lem p b x h = elim (Bool-cases (is_pool_index b)) [
  | inl pooled ↦
      let v = slot p (complement b) in
      let owned = h.owned (ground arith) in
      rw (pooled, words-slot p (complement b) owned)
        (elim (Bool-cases (ltb (x / 64) (length v.items))) [
          | inl inside ↦
              rw (inside, get_elem?-get_or v.items (x / 64) 0 (ltb→lt _ _ inside))
                (ap ok (mask_test (get_or v.items (x / 64) 0) (x % 64) (omega arith)))
          | inr outside ↦
              rw
                (outside, get_or-default v.items (x / 64) 0 (ltb→le _ _ outside), bit-zero (x % 64))
        ])
  | inr inline ↦ rw inline (elim (Bool-cases (leb 64 x)) [
    | inl far ↦ rw (far, bit_and-zero b, bit_high 64 b x h.word (leb→le _ _ far))
    | inr near ↦ rw near (ap ok (mask_test b x (leb→lt _ _ near)))
  ])
]

-- A call on bitmap `b` at index `x` returned the bitmap `r`, the old value and the pool `q`: the
-- digit at `x` went through `f`, and no other digit of this bitmap or of another changed.
pub record Changed (f : ℕ → ℕ) (p : BitmapPool) (b x r : ℕ) (old : Bool) (q : BitmapPool)
    : Type 0 where
  pub bitmap : IsBitmap q r
  pub old_value : old ≡ (digit p b x == 1)
  pub content : (y : ℕ) → digit q r y ≡ (if x == y then f (digit p b x) else digit p b y)
  pub kept : (c : ℕ) → IsBitmap p c → (2 ^ 63 ≤ c → c ≢ b) → IsBitmap q c
  pub others : (c : ℕ) → IsBitmap p c → (2 ^ 63 ≤ c → c ≢ b) → (y : ℕ) → digit q c y ≡ digit p c y
  pub tidy : IsTidy p → IsTidy q

-- A word operation that sends digit `k` through `f`, given the mask `2 ^ k`, and stays in the width.
pub record ChangesDigit (op : ℕ → ℕ → ℕ) (f : ℕ → ℕ) : Type 0 where
  pub changes :
      (w k j : ℕ)
      → k < 64
      → j < 64
      → bit (op w (2 ^ k)) j ≡ (if k == j then f (bit w k) else bit w j)
  pub within : (n w k : ℕ) → n ≤ 64 → w < 2 ^ n → k < n → op w (2 ^ k) < 2 ^ n
