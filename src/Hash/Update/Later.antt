-- ===== src/Hash/Update/Later.antt =====
-- Get after a round of Set, and after Unset, of hash.go.
use elib.Base.{
  ℕ, zero, suc, ◌+◌, ◌%◌, ◌^◌, ◌≤◌, ◌<◌, ◌≡◌, refl, sym, ◌∙◌, ap, ap₂, arith, true, false,
  Bool-cases, inl, inr, some, none, Outcome, ok, ◌>>=◌, length, set, length-set, get_or, bit_xor,
  if◌then◌else◌, if_true, if_false,
}
use elib.Hash.{
  Hash, Client, bit_diff_is_valid, bucket_size, bucket_index, base_index, base_index_for_key,
}
use elib.Hash.Search.{
  Found, free_loop, search_free_index, search_key, search_base, count_search, get,
}
use elib.Hash.Search.First.{slot, IsBounded, Fits, found_diff, first_hit, search_base-first}
use elib.Hash.Update.{set_round}
use elib.Hash.Update.Marks.{
  marked, set_bit_diff-marks, marked-IsBounded, length-raised, get_or-set_self, get_or-set_other,
}
use elib.Hash.Update.Round.{
  count_some, some_or, first_free, free_loop-first, taken, Stored, answer, MarkedAt,
  first_hit-Stored, found_slot, get-first_at,
}

-- A mark leaves every bucket in the table.
marked-Fits : (base diff : ℕ) (h : Hash) (b : ℕ) → Fits h b → Fits (marked base diff h) b
marked-Fits base diff h b (inside, top) = (
  (λ d l. omega (arith, inside d l, length-set h.bit_diffs (bit_xor base diff) (1 + diff))),
  omega (arith, top, length-raised h.max_bucket_bit_diffs (bucket_index h base) (1 + diff)),
)

first_free-same :
    (h h' : Hash) (base left diff : ℕ)
    → h'.bit_diffs ≡ h.bit_diffs
    → first_free h' base left diff ≡ first_free h base left diff
unfolding first_free
first_free-same h h' base zero diff e = refl
first_free-same h h' base (suc left) diff e =
    ap₂ (λ ds r. if bit_diff_is_valid (get_or ds (bit_xor base diff) 0) then r else some diff) e
      (first_free-same h h' base left (diff + 1) e)

first_free-lt :
    (h : Hash) (base left diff d : ℕ) → first_free h base left diff ≡ some d → d < diff + left
unfolding first_free
first_free-lt h base zero diff d e = absurd (omega (arith, ap count_some e))
first_free-lt h base (suc left) diff d e =
    elim (Bool-cases (bit_diff_is_valid (slot h (bit_xor base diff)))) [
      | inl v ↦ omega (arith, first_free-lt h base left (diff + 1) d (sym (if_true _ _ v) ∙ e))
      | inr v ↦ omega (arith, ap (some_or 0) (sym (if_false _ _ v) ∙ e))
    ]

missed : (f : Found) → found_diff f ≡ none → f.hit ≡ false
missed f e = elim (Bool-cases f.hit) [
  | inl t ↦ absurd (omega (arith, ap count_some (sym (if_true _ _ t) ∙ e)))
  | inr t ↦ t
]

pub bind-ok :
    {A B : Type 0} {m : Outcome A} {a : A} (f : A → Outcome B) → m ≡ ok a → (m >>= f) ≡ f a
bind-ok f h = ap (λ m. m >>= f) h

module _ {K S : Type 0} (client : Client K S) where
  -- The table that a round of Set leaves when it takes a slot: the slot is marked twice.
  abbrev pub with_key : ℕ → ℕ → Found → Hash → Hash
  with_key base d f h =
      let h' =
        marked base d
          (marked base d (record h { set_stats = count_search client f h.set_stats })) in
      record h' { n_elts = (h'.n_elts + 1) % 2 ^ 64 }

  set_round-takes :
      (h : Hash) (s : S) (k : K) (d : ℕ) (f : Found)
      → Fits h (base_index_for_key client h k)
      → bucket_size h ≤ 255
      → search_base client h s k (base_index_for_key client h k) ≡ ok f
      → f.hit ≡ false
      → first_free h (base_index_for_key client h k) (bucket_size h) 0 ≡ some d
      → d < bucket_size h
      → set_round client k h s
        ≡ ok (
          some (bit_xor (base_index_for_key client h k) d, false),
          with_key (base_index_for_key client h k) d f h,
        )
  unfolding set_round search_key search_free_index
  set_round-takes h s k d f fits small run miss free less =
      let base = base_index_for_key client h k in
      let counted = record h { set_stats = count_search client f h.set_stats } in
      let scan : free_loop counted base (bucket_size h) 0 ≡ ok (taken base counted (some d)) =
        free_loop-first counted base (bucket_size h) 0 (omega (arith, small))
          (λ e l. fits.0 e (omega (arith, l))) fits.1
        ∙ ap (λ o. ok (taken base counted o)) {y = some d}
            (first_free-same h counted base (bucket_size h) 0 refl ∙ free) in
      let fits' = marked-Fits base d counted base fits in
      let again =
        set_bit_diff-marks base d (marked base d counted) (omega (arith, small, less))
          (fits'.0 d less) fits'.1 in
      bind-ok _ (bind-ok _ run) ∙ if_false _ _ miss ∙ bind-ok _ scan ∙ bind-ok _ again

  base_index-kept :
      (h : Hash) (k : K) (base d : ℕ) (f : Found)
      → base_index_for_key client (with_key base d f h) k ≡ base_index_for_key client h k
  unfolding base_index
  base_index-kept h k base d f = refl

  with_key-MarkedAt :
      (h : Hash) (base d : ℕ) (f : Found)
      → bit_xor base d < length h.bit_diffs
      → MarkedAt base d h (with_key base d f h)
  with_key-MarkedAt h base d f inside =
      let i = bit_xor base d in
      let inside' : i < length (set h.bit_diffs i (1 + d)) =
        omega (arith, inside, length-set h.bit_diffs i (1 + d)) in
      (
        get_or-set_self (set h.bit_diffs i (1 + d)) i (1 + d) inside',
        λ j n.
            get_or-set_other (set h.bit_diffs i (1 + d)) i j (1 + d) inside' n
            ∙ get_or-set_other h.bit_diffs i j (1 + d) inside n,
      )

  with_key-IsBounded :
      (h : Hash) (base d : ℕ) (f : Found)
      → bit_xor base d < length h.bit_diffs
      → bucket_index h base < length h.max_bucket_bit_diffs
      → IsBounded h
      → IsBounded (with_key base d f h)
  with_key-IsBounded h base d f inside top b =
      let i = bit_xor base d in
      marked-IsBounded base d (marked base d h)
        (omega (arith, inside, length-set h.bit_diffs i (1 + d)))
        (omega (arith, top, length-raised h.max_bucket_bit_diffs (bucket_index h base) (1 + d)))
        (marked-IsBounded base d h inside top b)

  with_key-Fits :
      (base d : ℕ) (f : Found) (h : Hash) → Fits h base → Fits (with_key base d f h) base
  with_key-Fits base d f h fits =
      marked-Fits base d (marked base d h) base (marked-Fits base d h base fits)

  -- A round of Set with a key that no slot of its bucket holds takes the first free slot of the bucket
  -- and reports that the key is new; the largest differences still bound the marks; and when the
  -- client has then kept the key under that slot's index, and has changed no other key, Get finds
  -- the key there. A bucket has at most 255 slots.
  pub set_round-get :
      (h : Hash) (s s' : S) (k : K) (d : ℕ)
      → IsBounded h
      → Fits h (base_index_for_key client h k)
      → bucket_size h ≤ 255
      → first_hit client h s k (base_index_for_key client h k) (bucket_size h) 0 ≡ none
      → first_free h (base_index_for_key client h k) (bucket_size h) 0 ≡ some d
      → Stored client k (bit_xor (base_index_for_key client h k) d) s s'
      → (h' : Hash) × (set_round client k h s
          ≡ ok (some (bit_xor (base_index_for_key client h k) d, false), h'))
        × IsBounded h'
        × (answer (get client k h' s') ≡ ok (bit_xor (base_index_for_key client h k) d, true))
  set_round-get h s s' k d b fits small miss free st =
      let base = base_index_for_key client h k in
      let (f, run, same) = search_base-first client h s k base b fits in
      let less : d < bucket_size h = omega (arith, first_free-lt h base (bucket_size h) 0 d free) in
      let inside = fits.0 d less in
      let h' = with_key base d f h in
      let b' = with_key-IsBounded h base d f inside fits.1 b in
      let hit =
        first_hit-Stored client h h' s s' k base (bucket_size h) 0 d miss free
          (with_key-MarkedAt h base d f inside) st in
      (
        h',
        set_round-takes h s k d f fits small run (missed f (same ∙ miss)) free less,
        b',
        get-first_at client h' s' k base (base_index-kept h k base d f) b'
              (with_key-Fits base d f h fits)
              (omega (arith, (with_key-Fits base d f h fits).0 d less))
            ∙ ap (λ o. ok (found_slot base o)) hit,
      )
