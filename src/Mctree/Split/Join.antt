-- ===== src/Mctree/Split/Join.antt =====
-- mctree/mctree.go: joining what was split gives the same pairs.
use mathlib.Core.List.{Permᴰ, append_assoc, append-nil}
use mathlib.Core.List.Permᴰ
use elib.Base.{
  ◌^◌, panic, some, ne→==, ℕ, zero, suc, ◌+◌, ◌/◌, ◌%◌, ◌≤◌, ◌<◌, ◌≡◌, refl, sym, ap, ◌∙◌, Bool,
  true, false, List, [], ◌∷◌, ◌++◌, Outcome, ok, ◌>>=◌, length, take, set, get_or, if◌then◌else◌,
  Bool-cases, inl, inr, arith, load, get_elem?-get_or, length-set, length-replicate, replicate,
}
use elib.Mctree.Pairs.{PairHash, word_bits, get_pairs_for_offset}
use elib.Mctree.Split.{branch, Halves, split_loop, split_pairs, used, masked_pairs, join_pairs}
use elib.Mctree.Split.Branch.{
  one_if, goes_left, goes_right, has_value, branch_lem, AreWithin, IsWithin, masked_at,
  is_masked_lem,
}

abbrev pub no_hash : ℕ → Bool
no_hash i = false

abbrev pick : (ℕ → Bool) → List ℕ → List ℕ
pick p [] = []
pick p (o ∷ os) = if p o then o ∷ pick p os else pick p os

>>=-assoc :
    {A B C : Type 0} (m : Outcome A) (f : A → Outcome B) (g : B → Outcome C)
    → (m >>= λ a. f a >>= g) ≡ (m >>= f >>= g)
>>=-assoc (ok a) f g = refl
>>=-assoc (panic e) f g = refl

load_ok : (v : List ℕ) (n : ℕ) → n < length v → load v n ≡ ok (get_or v n 0)
load_ok v n lt = rw (get_elem?-get_or v n 0 lt) refl

take-set : (v : List ℕ) (n o : ℕ) → take n (set v n o) ≡ take n v
take-set [] n o = refl
take-set (x ∷ v) zero o = refl
take-set (x ∷ v) (suc n) o = ap (λ l. x ∷ l) (take-set v n o)

take-set_next :
    (v : List ℕ) (n o : ℕ) → n < length v → take (suc n) (set v n o) ≡ take n v ++ o ∷ []
take-set_next [] n o lt = absurd (omega (arith, lt))
take-set_next (x ∷ v) zero o lt = refl
take-set_next (x ∷ v) (suc n) o lt = ap (λ l. x ∷ l) (take-set_next v n o (omega (arith, lt)))

-- An offset that is written and counted, or written only.
put_next :
    (b : Bool) (v : List ℕ) (n o : ℕ) (rest : List ℕ)
    → n < length v
    → take (n + one_if b) (set v n o) ++ rest ≡ take n v ++ (if b then o ∷ rest else rest)
put_next true v n o rest lt =
    let e : n + 1 ≡ suc n = omega arith in
    rw (e, take-set_next v n o lt) (append_assoc (take n v) (o ∷ []) rest)
put_next false v n o rest lt = let e : n + 0 ≡ n = omega arith in rw (e, take-set v n o) refl

room_left : (b : Bool) (n k l : ℕ) → n + suc k ≤ l → n + one_if b + k ≤ l
room_left true n k l h = omega (arith, h)
room_left false n k l h = omega (arith, h)

module _ (h : PairHash) (b : ℕ) where
  abbrev PutApart : List ℕ → Halves → Outcome Halves → Type 0
  PutApart os s m =
      (s' : Halves) × (m ≡ ok s')
      × (take s'.n0 s'.vec0 ≡ take s.n0 s.vec0 ++ pick (goes_left h b) os)
      × (take s'.n1 s'.vec1 ≡ take s.n1 s.vec1 ++ pick (goes_right h b) os)

  abbrev pushed : ℕ → Halves → Halves
  pushed o s = record {
    vec0 = set s.vec0 s.n0 o;
    vec1 = set s.vec1 s.n1 o;
    n0 = s.n0 + one_if (goes_left h b o);
    n1 = s.n1 + one_if (goes_right h b o);
  }

  push-PutApart :
      (o : ℕ) (os : List ℕ) (s : Halves) (m : Outcome Halves)
      → s.n0 < length s.vec0
      → s.n1 < length s.vec1
      → PutApart os (pushed o s) m
      → PutApart (o ∷ os) s m
  push-PutApart o os s m in0 in1 (s', g, l, r) = (
    s',
    g,
    l ∙ put_next (goes_left h b o) s.vec0 s.n0 o (pick (goes_left h b) os) in0,
    r ∙ put_next (goes_right h b o) s.vec1 s.n1 o (pick (goes_right h b) os) in1,
  )

  pick-AreWithin : (p : ℕ → Bool) (os : List ℕ) → AreWithin h os → AreWithin h (pick p os)
  pick-AreWithin p [] w = w
  pick-AreWithin p (o ∷ os) (here, w) = elim (Bool-cases (p o)) [
    | inl e ↦ rw e (here, pick-AreWithin p os w)
    | inr e ↦ rw e (pick-AreWithin p os w)
  ]

  module _ (free : ℕ → Bool) (small : length h.pairs < 2 ^ 32)
      (lt : b / word_bits < h.n_pairs_per_key) where
    divide : ℕ → List ℕ → Halves → Outcome Halves
    divide i os s = split_loop h (b / word_bits) (b % word_bits) free i os s

    -- One index, by whether the index is free.
    divide_one : ℕ → ℕ → List ℕ → Halves → Bool → Outcome Halves
    divide_one i o os s is_free = elim is_free [
      | true ↦ divide (suc i) os s
      | false ↦ do
        p ← get_pairs_for_offset h o
        (r0, r1) ← branch p (b / word_bits) (b % word_bits)
        _ ← load s.vec0 s.n0
        _ ← load s.vec1 s.n1
        divide (suc i) os (record {
          vec0 = set s.vec0 s.n0 o;
          vec1 = set s.vec1 s.n1 o;
          n0 = s.n0 + r0;
          n1 = s.n1 + r1;
        })
    ]

    divide_lem :
        (i o : ℕ) (os : List ℕ) (s : Halves) → divide i (o ∷ os) s ≡ divide_one i o os s (free i)
    unfolding divide split_loop divide_one
    divide_lem i o os s = refl

    divide_next :
        (i o : ℕ) (os : List ℕ) (s : Halves)
        → free i ≡ false
        → IsWithin h o
        → s.n0 < length s.vec0
        → s.n1 < length s.vec1
        → divide i (o ∷ os) s ≡ divide (suc i) os (pushed o s)
    unfolding divide_one
    divide_next i o os s e w in0 in1 =
        divide_lem i o os s
        ∙ ap (divide_one i o os s) e
        ∙ >>=-assoc (get_pairs_for_offset h o) (λ p. branch p (b / word_bits) (b % word_bits))
            (λ r. do
              _ ← load s.vec0 s.n0
              _ ← load s.vec1 s.n1
              divide (suc i) os (record {
                vec0 = set s.vec0 s.n0 o;
                vec1 = set s.vec1 s.n1 o;
                n0 = s.n0 + r.0;
                n1 = s.n1 + r.1;
              }))
        ∙ rw (branch_lem h b o w small lt, load_ok s.vec0 s.n0 in0, load_ok s.vec1 s.n1 in1) refl

    divide_skip :
        (i o : ℕ) (os : List ℕ) (s : Halves)
        → free i ≡ true
        → divide i (o ∷ os) s ≡ divide (suc i) os s
    unfolding divide_one
    divide_skip i o os s e = divide_lem i o os s ∙ ap (divide_one i o os s) e

    split_loop-PutApart :
        (i : ℕ) (os : List ℕ) (s : Halves)
        → AreWithin h (used h free i os)
        → s.n0 + length (used h free i os) ≤ length s.vec0
        → s.n1 + length (used h free i os) ≤ length s.vec1
        → PutApart (used h free i os) s (divide i os s)
    unfolding divide split_loop used
    split_loop-PutApart i [] s ws f0 f1 =
        (s, refl, sym (append-nil (take s.n0 s.vec0)), sym (append-nil (take s.n1 s.vec1)))
    split_loop-PutApart i (o ∷ os) s ws f0 f1 = elim (Bool-cases (free i)) [
      | inl e ↦
          rw (e, divide_skip i o os s e)
            (split_loop-PutApart (suc i) os s (rw e at ws) (rw e at f0) (rw e at f1))
      | inr e ↦
          let rest = used h free (suc i) os in
          let within : IsWithin h o × AreWithin h rest = rw e at ws in
          let w = within.0 in
          let g0 : s.n0 + suc (length rest) ≤ length s.vec0 = rw e at f0 in
          let g1 : s.n1 + suc (length rest) ≤ length s.vec1 = rw e at f1 in
          let in0 : s.n0 < length s.vec0 = omega (arith, g0) in
          let in1 : s.n1 < length s.vec1 = omega (arith, g1) in
          let next = pushed o s in
          let fits0 : next.n0 + length rest ≤ length next.vec0 =
            rw (length-set s.vec0 s.n0 o)
              (room_left (goes_left h b o) s.n0 (length rest) (length s.vec0) g0) in
          let fits1 : next.n1 + length rest ≤ length next.vec1 =
            rw (length-set s.vec1 s.n1 o)
              (room_left (goes_right h b o) s.n1 (length rest) (length s.vec1) g1) in
          rw (e, divide_next i o os s e w in0 in1)
            (push-PutApart o rest s (divide (suc i) os next) in0 in1
              (split_loop-PutApart (suc i) os next within.1 fits0 fits1))
    ]

  used_all : (i : ℕ) (os : List ℕ) → used h no_hash i os ≡ os
  unfolding used
  used_all i [] = refl
  used_all i (o ∷ os) = ap (λ l. o ∷ l) (used_all (suc i) os)

  masked_pairs_lem :
      (i : ℕ) (os : List ℕ)
      → AreWithin h os
      → length h.pairs < 2 ^ 32
      → b / word_bits < h.n_pairs_per_key
      → masked_pairs h b no_hash i os ≡ ok (pick (λ o. masked_at h b o) os)
  unfolding masked_pairs
  masked_pairs_lem i [] w small lt = refl
  masked_pairs_lem i (o ∷ os) (here, w) small lt =
      rw (is_masked_lem h b o here small lt, masked_pairs_lem (suc i) os w small lt) refl

  halves-Permᴰ :
      (os : List ℕ)
      → Permᴰ (pick (goes_left h b) os ++ pick (λ o. masked_at h b o) (pick (goes_right h b) os)) os
  halves-Permᴰ [] = Permᴰ.refl []
  halves-Permᴰ (o ∷ os) =
      let rest = halves-Permᴰ os in
      let l = pick (goes_left h b) os in
      let r = pick (λ o. masked_at h b o) (pick (goes_right h b) os) in
      elim (Bool-cases (masked_at h b o)) [
        | inr m ↦ rw m (rw m (Permᴰ.cons refl rest))
        | inl m ↦ rw m (elim (Bool-cases (has_value h b o)) [
          | inl v ↦ rw v (rw m (Permᴰ.trans (Permᴰ.middle o l r) (Permᴰ.cons refl rest)))
          | inr v ↦ rw v (Permᴰ.cons refl rest)
        ])
      ]

  -- The pairs of a leaf, with a hash or without one, at least one, split by a bit that lies in the keys. The
  -- keys lie in the vector of pairs, which has fewer than 2^32. Then split and join do not panic, and
  -- what join makes of the two leaves, which have no hash, is the pairs of the leaf, each as often as
  -- it was there.
  pub join_pairs-split_pairs :
      (free : ℕ → Bool) (vec : List ℕ)
      → b / word_bits < h.n_pairs_per_key
      → length h.pairs < 2 ^ 32
      → AreWithin h (used h free 0 vec)
      → 0 < length (used h free 0 vec)
      → (v0 : List ℕ) × (v1 : List ℕ) × (joined : List ℕ) × (split_pairs h b free
            (length (used h free 0 vec))
            vec
          ≡ ok (some (v0, v1)))
        × (join_pairs h b (no_hash, v0) (no_hash, v1) ≡ ok joined)
        × Permᴰ joined (used h free 0 vec)
  unfolding split_pairs join_pairs divide
  join_pairs-split_pairs free vec lt small within some_pair =
      let pairs = used h free 0 vec in
      let room : List ℕ = replicate (length pairs) 0 in
      let fits : 0 + length pairs ≤ length room =
        omega (arith, length-replicate {A = ℕ} (length pairs) 0) in
      let (s, g, l, r) =
        split_loop-PutApart free small lt 0 vec
          (record { vec0 = room; vec1 = room; n0 = 0; n1 = 0 }) within fits fits in
      let v0 = take s.n0 s.vec0 in
      let v1 = take s.n1 s.vec1 in
      let right = pick (goes_right h b) pairs in
      let second : masked_pairs h b no_hash 0 v1 ≡ ok (pick (λ o. masked_at h b o) right) =
        ap (masked_pairs h b no_hash 0) r
        ∙ masked_pairs_lem 0 right (pick-AreWithin (goes_right h b) pairs within) small lt in
      (
        v0,
        v1,
        v0 ++ pick (λ o. masked_at h b o) right,
        rw (ne→== (length pairs) 0 (λ e. omega (arith, e, some_pair)), g) refl,
        rw (second, used_all 0 v0) refl,
        rw l (halves-Permᴰ pairs),
      )
