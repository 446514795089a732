-- ===== src/Hash/Update/Marks.antt =====
-- What a mark in a slot does to the bounds of the buckets, in hash.go.
use elib.Base.{
  ℕ, ◌+◌, ◌%◌, ◌^◌, ◌≤◌, ◌<◌, ◌≡◌, ◌≢◌, refl, sym, ◌∙◌, ap, arith, Bool-cases, inl, inr, ==_iff,
  ne→==, ==_refl, List, ok, length, set, length-set, get_or, get_or-set, bit_xor, ltb, ltb→lt,
  ltb→le, ◌==◌, if◌then◌else◌, if_true, if_false,
}
use native.Mathlib.Nat.{mod-eq_of_lt}
use elib.Word.Xor.{bit_xor-cancel}
use elib.Hash.{Hash, bucket_index, set_bit_diff}
use elib.Hash.Search.First.{IsBounded, load-lt}

-- A number of a list, raised to a number.
abbrev pub raised : List ℕ → ℕ → ℕ → List ℕ
raised xs i v = if ltb (get_or xs i 0) v then set xs i v else xs

-- The table with a mark in the slot at a difference from a base index.
abbrev pub marked : ℕ → ℕ → Hash → Hash
marked base diff h = record h {
  bit_diffs = set h.bit_diffs (bit_xor base diff) (1 + diff);
  max_bucket_bit_diffs = raised h.max_bucket_bit_diffs (bucket_index h base) (1 + diff);
}

pub set_bit_diff-marks :
    (base diff : ℕ) (h : Hash)
    → diff < 255
    → bit_xor base diff < length h.bit_diffs
    → bucket_index h base < length h.max_bucket_bit_diffs
    → set_bit_diff (bit_xor base diff) base diff h ≡ ok (marked base diff h)
unfolding set_bit_diff
set_bit_diff-marks base diff h small inside top =
    let fits : (1 + diff) % 2 ^ 8 ≡ 1 + diff = mod-eq_of_lt (omega (arith, small)) in
    rw
      (
        load-lt h.bit_diffs (bit_xor base diff) inside,
        load-lt h.max_bucket_bit_diffs (bucket_index h base) top,
        fits,
      )
      refl

pub get_or-set_self : (xs : List ℕ) (i v : ℕ) → i < length xs → get_or (set xs i v) i 0 ≡ v
get_or-set_self xs i v h = get_or-set xs i i v 0 h ∙ if_true _ _ (==_refl i)

pub get_or-set_other :
    (xs : List ℕ) (i j v : ℕ) → i < length xs → i ≢ j → get_or (set xs i v) j 0 ≡ get_or xs j 0
get_or-set_other xs i j v h n = get_or-set xs i j v 0 h ∙ if_false _ _ (ne→== i j n)

pub length-raised : (xs : List ℕ) (i v : ℕ) → length (raised xs i v) ≡ length xs
length-raised xs i v = elim (Bool-cases (ltb (get_or xs i 0) v)) [
  | inl e ↦ rw e (length-set xs i v)
  | inr e ↦ rw e refl
]

raised-covers : (xs : List ℕ) (i v : ℕ) → i < length xs → v ≤ get_or (raised xs i v) i 0
raised-covers xs i v h = elim (Bool-cases (ltb (get_or xs i 0) v)) [
  | inl e ↦ rw e (omega (arith, get_or-set_self xs i v h))
  | inr e ↦ rw e (ltb→le (get_or xs i 0) v e)
]

raised-grows :
    (xs : List ℕ) (i j v : ℕ) → i < length xs → get_or xs j 0 ≤ get_or (raised xs i v) j 0
raised-grows xs i j v h = elim (Bool-cases (ltb (get_or xs i 0) v)) [
  | inr e ↦ rw e (omega arith)
  | inl e ↦ elim (Bool-cases (i == j)) [
    | inl s ↦
        let same : i ≡ j = (==_iff i j).0 s in
        rw (e, ← same) (omega (arith, get_or-set_self xs i v h, ltb→lt (get_or xs i 0) v e))
    | inr s ↦ rw e (omega (arith, get_or-set xs i j v 0 h ∙ if_false _ _ s))
  ]
]

-- A mark keeps the bounds.
pub marked-IsBounded :
    (base diff : ℕ) (h : Hash)
    → bit_xor base diff < length h.bit_diffs
    → bucket_index h base < length h.max_bucket_bit_diffs
    → IsBounded h
    → IsBounded (marked base diff h)
marked-IsBounded base diff h inside top b base' diff' e =
    let i = bit_xor base diff in
    let j = bit_xor base' diff' in
    let maxima = h.max_bucket_bit_diffs in
    elim (Bool-cases (i == j)) [
      | inl s ↦
          let same : i ≡ j = (==_iff i j).0 s in
          let value : 1 + diff ≡ diff' + 1 =
            sym (get_or-set_self h.bit_diffs i (1 + diff) inside)
            ∙ ap (λ x. get_or (set h.bit_diffs i (1 + diff)) x 0) same
            ∙ e in
          let d : diff ≡ diff' = omega (arith, value) in
          let c : base ≡ base' =
            bit_xor-cancel base base' diff (same ∙ ap (bit_xor base') (sym d)) in
          rw (← c, ← d) (omega (arith, raised-covers maxima (bucket_index h base) (1 + diff) top))
      | inr s ↦
          let kept = get_or-set h.bit_diffs i j (1 + diff) 0 inside ∙ if_false _ _ s in
          omega (
            arith,
            b base' diff' (sym kept ∙ e),
            raised-grows maxima (bucket_index h base) (bucket_index h base') (1 + diff) top,
          )
    ]

-- A slot that is given up keeps them too.
pub freed-IsBounded :
    (i : ℕ) (h : Hash)
    → i < length h.bit_diffs
    → IsBounded h
    → IsBounded (record h { bit_diffs = set h.bit_diffs i 0 })
freed-IsBounded i h inside b base diff e =
    let j = bit_xor base diff in
    elim (Bool-cases (i == j)) [
      | inl s ↦
          let same : i ≡ j = (==_iff i j).0 s in
          let value =
            sym (get_or-set_self h.bit_diffs i 0 inside)
            ∙ ap (λ x. get_or (set h.bit_diffs i 0) x 0) same
            ∙ e in
          absurd (omega (arith, value))
      | inr s ↦ b base diff (sym (get_or-set h.bit_diffs i j 0 0 inside ∙ if_false _ _ s) ∙ e)
    ]
