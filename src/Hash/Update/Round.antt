-- ===== src/Hash/Update/Round.antt =====
-- A round of Set, of hash.go, and the Get that follows it.
use mathlib.Core.Bool.{true≢false}
use elib.Base.{
  ℕ, zero, suc, ◌+◌, ◌≤◌, ◌<◌, ◌≡◌, ◌≢◌, refl, sym, ◌∙◌, ap, ap₂, arith, Bool, true, false, ◌&&◌,
  Bool-cases, inl, inr, ==_iff, ne→==, Option, some, none, Outcome, ok, ◌>>=◌, length, bit_xor,
  ◌==◌, if◌then◌else◌, if_true, if_false,
}
use elib.Hash.{
  Hash, Client, match_diff, bit_diff_is_valid, bucket_size, bucket_index, base_index_for_key,
}
use elib.Hash.Search.{Found, free_loop, search_key, get}
use elib.Hash.Search.First.{
  slot, IsBounded, Fits, load-lt, found_diff, holds, first_hit, search_base-first,
}
use elib.Hash.Update.Marks.{marked, set_bit_diff-marks}

-- The first of so many differences whose slot is free.
unfoldable pub first_free : Hash → ℕ → ℕ → ℕ → Option ℕ
first_free h base zero diff = none
first_free h base (suc left) diff =
    let rest = first_free h base left (diff + 1) in
    if bit_diff_is_valid (slot h (bit_xor base diff)) then rest else some diff

-- The result of the search for a free slot.
abbrev pub taken : ℕ → Hash → Option ℕ → Option (ℕ × ℕ) × Hash
taken base h none = (none, h)
taken base h (some d) = (some (bit_xor base d, d), marked base d h)

pub free_loop-first :
    (h : Hash) (base left diff : ℕ)
    → diff + left ≤ 255
    → ((d : ℕ) → d < diff + left → bit_xor base d < length h.bit_diffs)
    → bucket_index h base < length h.max_bucket_bit_diffs
    → free_loop h base left diff ≡ ok (taken base h (first_free h base left diff))
unfolding free_loop first_free
free_loop-first h base zero diff small inside top = refl
free_loop-first h base (suc left) diff small inside top =
    let here = inside diff (omega arith) in
    let rest =
      free_loop-first h base left (diff + 1) (omega (arith, small))
        (λ d l. inside d (omega (arith, l))) top in
    elim (Bool-cases (bit_diff_is_valid (slot h (bit_xor base diff)))) [
      | inl e ↦ rw (load-lt h.bit_diffs (bit_xor base diff) here, e) rest
      | inr e ↦
          rw
            (
              load-lt h.bit_diffs (bit_xor base diff) here,
              e,
              set_bit_diff-marks base diff h (omega (arith, small)) here top,
            )
            refl
    ]

-- 1 for a value, 0 for none.
abbrev pub count_some : {A : Type 0} → Option A → ℕ
count_some none = 0
count_some (some a) = 1

abbrev pub some_or : ℕ → Option ℕ → ℕ
some_or d none = d
some_or d (some a) = a

invalid_zero : (d : ℕ) → bit_diff_is_valid d ≡ false → d ≡ 0
invalid_zero d e = elim (Bool-cases (d == 0)) [
  | inl z ↦ (==_iff d 0).0 z
  | inr z ↦ absurd (true≢false (rw z at e))
]

first_free-zero :
    (h : Hash) (base left diff d : ℕ)
    → first_free h base left diff ≡ some d
    → slot h (bit_xor base d) ≡ 0
unfolding first_free
first_free-zero h base zero diff d e = absurd (omega (arith, ap count_some e))
first_free-zero h base (suc left) diff d e =
    elim (Bool-cases (bit_diff_is_valid (slot h (bit_xor base diff)))) [
      | inl v ↦ first_free-zero h base left (diff + 1) d (sym (if_true _ _ v) ∙ e)
      | inr v ↦
          let same : diff ≡ d = ap (some_or 0) (sym (if_false _ _ v) ∙ e) in
          rw (← same) (invalid_zero (slot h (bit_xor base diff)) v)
    ]

-- The slots of one table are those of another with a mark.
abbrev pub MarkedAt : ℕ → ℕ → Hash → Hash → Type 0
MarkedAt base d h h' =
    (slot h' (bit_xor base d) ≡ 1 + d) × ((j : ℕ) → bit_xor base d ≢ j → slot h' j ≡ slot h j)

-- What a table gives to Get: the slot of the key, and whether there is one.
abbrev pub found_slot : ℕ → Option ℕ → ℕ × Bool
found_slot base none = (0, false)
found_slot base (some d) = (bit_xor base d, true)

abbrev pub answer : {A B : Type 0} → Outcome (A × B) → Outcome A
answer m = m >>= λ r. ok (r.0)

hit-slot :
    (base : ℕ) (f : Found)
    → (if f.hit then bit_xor base f.diff else 0, f.hit) ≡ found_slot base (found_diff f)
hit-slot base f = elim (Bool-cases f.hit) [ inl e ↦ rw e refl | inr e ↦ rw e refl ]

module _ {K S : Type 0} (client : Client K S) where
  open client use {hash_key_equal}

  -- The client keeps the key in slot `i`, and every other slot's key as it was.
  abbrev pub Stored : K → ℕ → S → S → Type 0
  Stored k i s s' =
      (hash_key_equal k s' i ≡ true)
      × ((j : ℕ) → i ≢ j → hash_key_equal k s' j ≡ hash_key_equal k s j)

  pub first_hit-Stored :
      (h h' : Hash) (s s' : S) (k : K) (base left diff d : ℕ)
      → first_hit client h s k base left diff ≡ none
      → first_free h base left diff ≡ some d
      → MarkedAt base d h h'
      → Stored k (bit_xor base d) s s'
      → first_hit client h' s' k base left diff ≡ some d
  unfolding first_hit first_free
  first_hit-Stored h h' s s' k base zero diff d miss free m st =
      absurd (omega (arith, ap count_some free))
  first_hit-Stored h h' s s' k base (suc left) diff d miss free (new, old) (equal, other) =
      let i = bit_xor base diff in
      let held : holds client h' s' k base d ≡ true =
        ap₂ (λ x b. match_diff x d && b) new equal
        ∙ ap (λ b. b && true) ((==_iff (d + 1) (1 + d)).1 (omega arith)) in
      elim (Bool-cases (bit_diff_is_valid (slot h i))) [
        | inr v ↦
            let same : diff ≡ d = ap (some_or 0) (sym (if_false _ _ v) ∙ free) in
            if_true _ _ (ap (holds client h' s' k base) same ∙ held) ∙ ap some same
        | inl v ↦
            let later = sym (if_true _ _ v) ∙ free in
            let apart : bit_xor base d ≢ i = λ e. true≢false (
              sym v
              ∙ ap (λ x. bit_diff_is_valid (slot h x)) (sym e)
              ∙ ap bit_diff_is_valid (first_free-zero h base left (diff + 1) d later)) in
            elim (Bool-cases (holds client h s k base diff)) [
              | inl t ↦ absurd (omega (arith, ap count_some (sym (if_true _ _ t) ∙ miss)))
              | inr t ↦
                  if_false _ _
                    (ap₂ (λ x b. match_diff x diff && b) (old i apart) (other i apart) ∙ t)
                  ∙ first_hit-Stored h h' s s' k base left (diff + 1) d
                      (sym (if_false _ _ t) ∙ miss) later (new, old) (equal, other)
            ]
      ]

  -- Get, whose search of a bucket stops at the largest difference of the bucket, finds the first slot
  -- of the whole bucket that holds the key, and reports that there is none when no slot holds it;
  -- when the largest differences bound the marks, and the bucket of the key lies in the table.
  pub get-first :
      (h : Hash) (s : S) (k : K)
      → IsBounded h
      → Fits h (base_index_for_key client h k)
      → 0 < length h.bit_diffs
      → answer (get client k h s)
        ≡ ok (
            found_slot
              (base_index_for_key client h k)
              (first_hit client h s k (base_index_for_key client h k) (bucket_size h) 0))
  unfolding get search_key
  get-first h s k b fits some_slot =
      let base = base_index_for_key client h k in
      let (f, run, same) = search_base-first client h s k base b fits in
      rw (ne→== (length h.bit_diffs) 0 (omega (arith, some_slot)), run)
        (ap ok (hit-slot base f ∙ ap (found_slot base) same))

  pub get-first_at :
      (h : Hash) (s : S) (k : K) (base : ℕ)
      → base_index_for_key client h k ≡ base
      → IsBounded h
      → Fits h base
      → 0 < length h.bit_diffs
      → answer (get client k h s)
        ≡ ok (found_slot base (first_hit client h s k base (bucket_size h) 0))
  get-first_at h s k base e b fits n = rw (← e) (get-first h s k b (rw (← e) at fits) n)
