-- ===== src/Dep/Inline.antt =====
-- dep/dep.go: hooks whose bitmaps are inline words, of bitmap.go, as they are for indices below 63.
use mathlib.Core.List.{Memᴰ, Permᴰ}
use mathlib.Core.List.Memᴰ
use native.Mathlib.Nat.{pow-suc}
use elib.Base.{
  ℕ, zero, suc, ◌^◌, ◌≤◌, ◌<◌, ◌≡◌, ◌↔◌, ap, ◌∙◌, inl, inr, Bool, true, List, [], ◌∷◌, ◌++◌, length,
  Outcome, ok, arith, ◌==◌, ==_iff, ltb, if◌then◌else◌, Bool-cases, bit_or,
}
use elib.Cap.{FloatScale}
use elib.Word.Digits.{bit, bit_le, bit_high, bit-or, bit-pow, bit-zero}
use elib.Bitmap.Store.{BitmapPool, Level}
use elib.Bitmap.Update.{set_bit, set2, change2}
use elib.Bitmap.Update
use elib.Bitmap.Update.Single.{inline_get, inline_set}
use elib.Dep.{IndexSet, Hooks, Deps, sort_hooks}
use elib.Dep.Visit.{IsIndexSet}
use elib.Dep.Order.{IsAdded, IsRank, IsOrder, sort_hooks-IsOrder}

-- The set bits below `n`, in order.
abbrev bits_below : ℕ → ℕ → List ℕ
bits_below b zero = []
bits_below b (suc n) = if bit b n == 1 then bits_below b n ++ n ∷ [] else bits_below b n

-- A word as Get and Set use it, and the indices that a loop over Next visits.
abbrev pub inline_bits : IndexSet ℕ
inline_bits = record {
  empty = 0;
  get = λ b i. bit b i == 1;
  set_index = λ b i. bit_or b (2 ^ i);
  members = λ b. bits_below b (suc b);
}

bits_below_iff : (b n i : ℕ) → Memᴰ i (bits_below b n) ↔ ((i < n) × ((bit b i == 1) ≡ true))
bits_below_iff b zero i = (λ m. absurd (Memᴰ.not-nil m), λ h. absurd (omega (arith, h.0)))
bits_below_iff b (suc n) i = elim (Bool-cases (bit b n == 1)) [
  | inl on ↦ rw on (
    λ m. elim (Memᴰ.append_cases (bits_below b n) m) [
      | inl old ↦ let (lt, e) = (bits_below_iff b n i).0 old in (omega (arith, lt), e)
      | inr new ↦
          let e = Memᴰ.eq_of_singleton new in (omega (arith, e), ap (λ k. bit b k == 1) e ∙ on)
    ],
    λ h. elim (Bool-cases (i == n)) [
      | inl e ↦ Memᴰ.append_right (bits_below b n) (Memᴰ.head ((==_iff i n).0 e))
      | inr e ↦ Memᴰ.append_left (n ∷ []) ((bits_below_iff b n i).1 (ground (arith, e, h.0), h.1))
    ],
  )
  | inr off ↦ rw off (
    λ m. let (lt, e) = (bits_below_iff b n i).0 m in (omega (arith, lt), e),
    λ h. elim (Bool-cases (i == n)) [
      | inl e ↦ absurd (cc (off, h.1, (==_iff i n).0 e))
      | inr e ↦ (bits_below_iff b n i).1 (ground (arith, e, h.0), h.1)
    ],
  )
]

below_power : (n : ℕ) → n < 2 ^ n
below_power zero = omega arith
below_power (suc n) = omega (arith, below_power n, pow-suc 2 n)

-- A set bit is at most the word.
bit_below : (b i : ℕ) → (bit b i == 1) ≡ true → i < suc b
bit_below b i on = elim (Bool-cases (ltb i (suc b))) [
  | inl t ↦ ground (arith, t)
  | inr t ↦
      let far : b < i = ground (arith, t) in
      let zero_bit = bit_high i b i (omega (arith, far, below_power i)) (omega arith) in
      ground (arith, zero_bit, on)
]

pub inline_bits-IsIndexSet : IsIndexSet inline_bits
inline_bits-IsIndexSet = record {
  get-empty = λ i. ap (λ d. d == 1) (bit-zero i);
  get-set = λ b i j. ground (arith, bit-or b (2 ^ i) j, bit-pow i j, bit_le b j);
  members_iff = λ b i. (
    λ m. ((bits_below_iff b (suc b) i).0 m).1,
    λ on. (bits_below_iff b (suc b) i).1 (bit_below b i on, on),
  );
}

-- Get and Set of an inline word are those of bitmap.go.
inline_get_lem :
    (p : BitmapPool) (b x : ℕ)
    → b < 2 ^ 63
    → x < 63
    → Update.get p b x ≡ ok (IndexSet.get inline_bits b x)
inline_get_lem p b x small lt = inline_get p b x small lt

inline_set_lem :
    (scale : FloatScale) (extra : ℕ → ℕ) (lv : Level) (p : BitmapPool) (b x : ℕ)
    → b < 2 ^ 63
    → x < 63
    → (set_bit scale extra lv b x p ≡ ok (IndexSet.set_index inline_bits b x, p))
      × (IndexSet.set_index inline_bits b x < 2 ^ 63)
inline_set_lem scale extra lv p b x small lt = inline_set scale extra lv p b x small lt

-- At most 63 hooks, whose bitmaps are then inline words: let the hooks be added and not sorted yet, let no hook
-- depend on itself through others, and let sort.Sort rearrange what it is given. Then sort succeeds, and
-- the order that it leaves has the index of each hook, no other index, each index once, and before it
-- those of all the hooks that its hook depends on, by Deps or by AntiDeps.
pub sort_inline-IsOrder :
    (rearrange : (ℕ → ℕ → List ℕ → Outcome Bool) → List ℕ → List ℕ)
    → ((lt : ℕ → ℕ → List ℕ → Outcome Bool) (l : List ℕ) → Permᴰ (rearrange lt l) l)
    → (hooks : Hooks ℕ) (ds : Deps) (rank : ℕ → ℕ) → length ds.elts ≤ 63
    → IsAdded inline_bits hooks ds.elts
    → IsRank hooks ds.elts rank
    → (s : Hooks ℕ × Deps) × (sort_hooks inline_bits rearrange (hooks, ds) ≡ ok s)
      × IsOrder hooks ds.elts s.1.order
sort_inline-IsOrder rearrange perm hooks ds rank few added ranked =
    sort_hooks-IsOrder inline_bits inline_bits-IsIndexSet rearrange perm hooks ds rank added ranked
