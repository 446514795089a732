-- ===== src/Hash/Search/First.antt =====
-- searchBase of hash.go, which stops early, against the search of a whole bucket.
use elib.Base.{
  ℕ, zero, suc, ◌+◌, ◌≤◌, ◌<◌, ◌≡◌, ◌≢◌, refl, sym, ◌∙◌, arith, Bool, true, false, Bool-cases, ◌&&◌,
  inl, inr, ne→==, if_true, if_false, Option, some, none, List, ok, load, length, get_or,
  get_elem?-get_or, bit_xor, leb, leb→le, if◌then◌else◌,
}
use elib.Hash.{Hash, Client, match_diff, bucket_size, bucket_index}
use elib.Hash.Search.{Found, search_loop, search_base}

abbrev pub slot : Hash → ℕ → ℕ
slot h i = get_or h.bit_diffs i 0

-- The largest difference of a bucket covers each slot that has a base index in it.
abbrev pub IsBounded : Hash → Type 0
IsBounded h =
    (base diff : ℕ)
    → slot h (bit_xor base diff) ≡ diff + 1
    → diff + 1 ≤ get_or h.max_bucket_bit_diffs (bucket_index h base) 0

-- The bucket of a base index lies in the table.
abbrev pub Fits : Hash → ℕ → Type 0
Fits h base =
    ((diff : ℕ) → diff < bucket_size h → bit_xor base diff < length h.bit_diffs)
    × (bucket_index h base < length h.max_bucket_bit_diffs)

abbrev pub found_diff : Found → Option ℕ
found_diff f = if f.hit then some f.diff else none

pub load-lt : (xs : List ℕ) (i : ℕ) → i < length xs → load xs i ≡ ok (get_or xs i 0)
load-lt xs i h = rw (get_elem?-get_or xs i 0 h) refl

module _ {K S : Type 0} (client : Client K S) where
  open client use {hash_key_equal}

  -- The slot at a difference from the base index holds the key.
  abbrev pub holds : Hash → S → K → ℕ → ℕ → Bool
  holds h s k base diff =
      match_diff (slot h (bit_xor base diff)) diff && hash_key_equal k s (bit_xor base diff)

  -- The first of so many differences from `diff` on whose slot holds the key.
  unfoldable pub first_hit : Hash → S → K → ℕ → ℕ → ℕ → Option ℕ
  first_hit h s k base zero diff = none
  first_hit h s k base (suc left) diff =
      let rest = first_hit h s k base left (diff + 1) in
      if holds h s k base diff then some diff else rest

  first_hit-none :
      (h : Hash) (s : S) (k : K) (base left diff : ℕ)
      → ((d : ℕ) → diff ≤ d → slot h (bit_xor base d) ≢ d + 1)
      → first_hit h s k base left diff ≡ none
  unfolding first_hit
  first_hit-none h s k base zero diff past = refl
  first_hit-none h s k base (suc left) diff past =
      rw (ne→== (diff + 1) (slot h (bit_xor base diff)) (λ e. past diff (omega arith) (sym e)))
        (first_hit-none h s k base left (diff + 1) (λ d l. past d (omega (arith, l))))

  pub other_key :
      (h : Hash) (s : S) (k : K) (base diff : ℕ)
      → hash_key_equal k s (bit_xor base diff) ≡ false
      → holds h s k base diff ≡ false
  other_key h s k base diff e = elim (Bool-cases (match_diff (slot h (bit_xor base diff)) diff)) [
    | inl m ↦ rw (m, e) refl
    | inr m ↦ rw m refl
  ]

  unmatched :
      (h : Hash) (s : S) (k : K) (base diff : ℕ)
      → match_diff (slot h (bit_xor base diff)) diff ≡ false
      → holds h s k base diff ≡ false
  unmatched h s k base diff m = rw m refl

  search_loop-first :
      (h : Hash) (s : S) (k : K) (base left diff compared : ℕ)
      → IsBounded h
      → ((d : ℕ) → d < diff + left → bit_xor base d < length h.bit_diffs)
      → (f : Found) × (search_loop client h s k base
            (get_or h.max_bucket_bit_diffs (bucket_index h base) 0)
            left
            diff
            compared
          ≡ ok f)
        × (found_diff f ≡ first_hit h s k base left diff)
  unfolding search_loop first_hit
  search_loop-first h s k base zero diff compared b fits =
      (record { hit = false; diff = diff; compared = compared }, refl, refl)
  search_loop-first h s k base (suc left) diff compared b fits =
      let i = bit_xor base diff in
      let largest = get_or h.max_bucket_bit_diffs (bucket_index h base) 0 in
      let loaded = load-lt h.bit_diffs i (fits diff (omega arith)) in
      let fits' : (d : ℕ) → d < diff + 1 + left → bit_xor base d < length h.bit_diffs =
        λ d l. fits d (omega (arith, l)) in
      elim (Bool-cases (match_diff (slot h i) diff)) [
        | inl m ↦ elim (Bool-cases (hash_key_equal k s i)) [
          | inl e ↦ (
            record { hit = true; diff = diff; compared = compared + 1 },
            rw loaded (if_true _ _ m ∙ if_true _ _ e),
            rw (m, e) refl,
          )
          | inr e ↦
              let (f, run, same) =
                search_loop-first h s k base left (diff + 1) (compared + 1) b fits' in
              (
                f,
                rw loaded (if_true _ _ m ∙ if_false _ _ e ∙ run),
                same ∙ sym (if_false _ _ (other_key h s k base diff e)),
              )
        ]
        | inr m ↦ elim (Bool-cases (leb largest (diff + 1))) [
          | inl e ↦ (
            record { hit = false; diff = diff; compared = compared },
            rw loaded (if_false _ _ m ∙ if_true _ _ e),
            sym (
                if_false _ _ (unmatched h s k base diff m)
                ∙ first_hit-none h s k base left (diff + 1)
                    (λ d l eq. omega (arith, l, b base d eq, leb→le largest (diff + 1) e))),
          )
          | inr e ↦
              let (f, run, same) = search_loop-first h s k base left (diff + 1) compared b fits' in
              (
                f,
                rw loaded (if_false _ _ m ∙ if_false _ _ e ∙ run),
                same ∙ sym (if_false _ _ (unmatched h s k base diff m)),
              )
        ]
      ]

  pub search_base-first :
      (h : Hash) (s : S) (k : K) (base : ℕ)
      → IsBounded h
      → Fits h base
      → (f : Found) × (search_base client h s k base ≡ ok f)
        × (found_diff f ≡ first_hit h s k base (bucket_size h) 0)
  unfolding search_base
  search_base-first h s k base b (inside, top) =
      let (f, run, same) =
        search_loop-first h s k base (bucket_size h) 0 0 b (λ d l. inside d (omega (arith, l))) in
      (f, rw (load-lt h.max_bucket_bit_diffs (bucket_index h base) top) run, same)
