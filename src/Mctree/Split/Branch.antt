-- ===== src/Mctree/Split/Branch.antt =====
-- mctree/mctree.go: to which of the two leaves a key goes.
use elib.Base.{
  ℕ, zero, suc, ◌+◌, ◌-◌, ◌*◌, ◌/◌, ◌%◌, ◌^◌, ◌<◌, ◌≡◌, refl, sym, ap, ◌∙◌, Bool, true, false, List,
  [], ◌∷◌, drop, get_or, bit_and, ◌==◌, if◌then◌else◌, Bool-cases, inl, inr, not, arith,
  get_or-take, get_or-drop, ne→==, ◌≤◌, length, length-take, length-drop, ok, ◌>>=◌, load, or_panic,
  index_out_of_range, get_elem?-get_or, le→leb,
}
use native.Mathlib.Nat.{mod-eq_of_lt}
use elib.Word.Pow.{two_pow-pos, div-two_pow-suc}
use elib.Word.Digits.{bit}
use elib.Word.Mask.{bit_and-two_pow}
use elib.Mctree.Pairs.{
  Pair, PairHash, word_bits, poisoned_pair, get_pairs_for_offset, is_masked, bit_index, slice_of,
}
use elib.Mctree.Split.{branch}

bit_lem : (k a : ℕ) → bit a k ≡ a / 2 ^ k % 2
unfolding bit
bit_lem zero a = omega arith
bit_lem (suc k) a = bit_lem k (a / 2) ∙ ap (λ x. x % 2) (sym (div-two_pow-suc k a))

bit_test : (k a : ℕ) → (bit_and a (2 ^ k) == 0) ≡ (a / 2 ^ k % 2 == 0)
bit_test k a =
    let e = bit_and-two_pow k a ∙ ap (λ x. x * 2 ^ k) (bit_lem k a) in
    rw e (elim (Bool-cases (a / 2 ^ k % 2 == 0)) [
      | inl z ↦
          let none : a / 2 ^ k % 2 ≡ 0 = ground (arith, z) in
          let none_left : 0 * 2 ^ k ≡ 0 = omega arith in rw (none, none_left) refl
      | inr z ↦
          let one : a / 2 ^ k % 2 ≡ 1 = ground (arith, z) in
          rw one (ne→== (1 * 2 ^ k) 0 (λ h. omega (arith, h, two_pow-pos k)))
    ])

abbrev pub one_if : Bool → ℕ
one_if true = 1
one_if false = 0

module _ (h : PairHash) where
  pair_of : ℕ → ℕ → Pair
  pair_of b0 o = get_or h.pairs (o + b0) poisoned_pair

  -- The key at `o` lies in the vector.
  abbrev pub IsWithin : ℕ → Type 0
  IsWithin o = o + h.n_pairs_per_key ≤ length h.pairs

  -- The keys at all these offsets lie in the vector.
  abbrev pub AreWithin : List ℕ → Type 0
  AreWithin [] = Unit
  AreWithin (o ∷ os) = IsWithin o × AreWithin os

  within_pairs :
      (o : ℕ)
      → IsWithin o
      → length h.pairs < 2 ^ 32
      → get_pairs_for_offset h o ≡ ok (slice_of o h.n_pairs_per_key h.pairs)
  unfolding get_pairs_for_offset
  within_pairs o w small =
      let fit : (o + h.n_pairs_per_key) % 2 ^ 32 ≡ o + h.n_pairs_per_key =
        mod-eq_of_lt (omega (arith, w, small)) in
      let size : o + h.n_pairs_per_key - o ≡ h.n_pairs_per_key = omega arith in
      rw
        (
          fit,
          le→leb o (o + h.n_pairs_per_key) (omega arith),
          le→leb (o + h.n_pairs_per_key) (length h.pairs) w,
          size,
        )
        refl

  slice-load :
      (n : ℕ) (ps : List Pair) (o i : ℕ)
      → i < n
      → o + n ≤ length ps
      → load (slice_of o n ps) i ≡ ok (get_or ps (o + i) poisoned_pair)
  slice-load n ps o i lt w =
      ap (λ m. or_panic m index_out_of_range)
        (get_elem?-get_or (slice_of o n ps) i poisoned_pair
          (omega (arith, lt, w, length-take n (drop o ps), length-drop o ps)))
      ∙ ap ok (get_or-take n (drop o ps) i poisoned_pair lt ∙ get_or-drop o ps i poisoned_pair)

  -- The value of a bit in the key at `o`.
  abbrev pub has_value : ℕ → ℕ → Bool
  unfolding pair_of
  has_value b o = (pair_of (b / word_bits) o).value / 2 ^ (b % word_bits) % 2 == 1

  -- The bit is masked in the key at `o`.
  abbrev pub masked_at : ℕ → ℕ → Bool
  unfolding pair_of
  masked_at b o = not (bit_and (pair_of (b / word_bits) o).mask (2 ^ (b % word_bits)) == 0)

  abbrev pub goes_left : ℕ → ℕ → Bool
  goes_left b o = if masked_at b o then not (has_value b o) else true

  abbrev pub goes_right : ℕ → ℕ → Bool
  goes_right b o = if masked_at b o then has_value b o else true

  pub is_masked_lem :
      (b o : ℕ)
      → IsWithin o
      → length h.pairs < 2 ^ 32
      → b / word_bits < h.n_pairs_per_key
      → is_masked h o b ≡ ok (masked_at b o)
  unfolding is_masked bit_index pair_of
  is_masked_lem b o w small lt =
      let fit : (o + b / word_bits) % 2 ^ 32 ≡ o + b / word_bits =
        mod-eq_of_lt (omega (arith, w, small, lt)) in
      rw (fit, get_elem?-get_or h.pairs (o + b / word_bits) poisoned_pair (omega (arith, w, lt)))
        refl

  masked_at_lem :
      (b o : ℕ)
      → masked_at b o ≡ not ((pair_of (b / word_bits) o).mask / 2 ^ (b % word_bits) % 2 == 0)
  unfolding pair_of
  masked_at_lem b o = ap not (bit_test (b % word_bits) (pair_of (b / word_bits) o).mask)

  sides :
      (q : Pair) (k : ℕ)
      → ◌≡◌ {A = ℕ × ℕ}
          (let r1 : ℕ = q.value / 2 ^ k % 2 in
            if q.mask / 2 ^ k % 2 == 0 then (1, 1) else ((2 ^ 32 - 1 - r1) % 2, r1))
          (
            one_if (if not (q.mask / 2 ^ k % 2 == 0) then not (q.value / 2 ^ k % 2 == 1) else true),
            one_if (if not (q.mask / 2 ^ k % 2 == 0) then q.value / 2 ^ k % 2 == 1 else true),
          )
  sides q k = elim (Bool-cases (q.mask / 2 ^ k % 2 == 0)) [
    | inl z ↦ rw z refl
    | inr z ↦ rw z (elim (Bool-cases (q.value / 2 ^ k % 2 == 1)) [
      | inl v ↦ let one : q.value / 2 ^ k % 2 ≡ 1 = ground (arith, v) in rw one refl
      | inr v ↦ let none : q.value / 2 ^ k % 2 ≡ 0 = ground (arith, v) in rw none refl
    ])
  ]

  pub branch_lem :
      (b o : ℕ)
      → IsWithin o
      → length h.pairs < 2 ^ 32
      → b / word_bits < h.n_pairs_per_key
      → (get_pairs_for_offset h o >>= λ p. branch p (b / word_bits) (b % word_bits))
        ≡ ok (one_if (goes_left b o), one_if (goes_right b o))
  unfolding branch pair_of
  branch_lem b o w small lt =
      rw
        (
          within_pairs o w small,
          slice-load h.n_pairs_per_key h.pairs o (b / word_bits) lt w,
          masked_at_lem b o,
        )
        (ap ok (sides (pair_of (b / word_bits) o) (b % word_bits)))
