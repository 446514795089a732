-- ===== src/Hash/Update/Removed.antt =====
-- Get after Unset, of hash.go.
use mathlib.Core.Bool.{true≢false}
use elib.Base.{
  ℕ, zero, suc, ◌+◌, ◌-◌, ◌%◌, ◌^◌, ◌<◌, ◌≡◌, ◌≢◌, refl, sym, ◌∙◌, ap, ap₂, arith, true, false,
  ◌&&◌, Bool-cases, inl, inr, ==_iff, ne→==, some, none, ok, length, set, length-set, get_or,
  bit_xor, ◌==◌, if_true, if_false,
}
use elib.Hash.{Hash, Client, bucket_size, base_index, base_index_for_key}
use elib.Hash.Search.{Found, search_key, search_base, count_search, get}
use elib.Hash.Search.First.{
  slot, IsBounded, Fits, load-lt, found_diff, holds, first_hit, search_base-first, other_key,
}
use elib.Hash.Update.{unset_key}
use elib.Hash.Update.Marks.{freed-IsBounded, get_or-set_self}
use elib.Hash.Update.Round.{count_some, some_or, answer, found_slot, get-first_at}
use elib.Hash.Update.Later.{bind-ok}

-- The table without the mark in slot `i`.
abbrev without : ℕ → Hash → Hash
without i h = record h {
  bit_diffs = set h.bit_diffs i 0;
  n_elts = (h.n_elts + 2 ^ 64 - 1) % 2 ^ 64;
}

found_hit : (f : Found) (d : ℕ) → found_diff f ≡ some d → (f.hit ≡ true) × (f.diff ≡ d)
found_hit f d e = elim (Bool-cases f.hit) [
  | inl t ↦ (t, ap (some_or 0) (sym (if_true _ _ t) ∙ e))
  | inr t ↦ absurd (omega (arith, ap count_some (sym (if_false _ _ t) ∙ e)))
]

module _ {K S : Type 0} (client : Client K S) where
  open client use {hash_key_equal}

  no_hit :
      (h : Hash) (s : S) (k : K) (base left diff : ℕ)
      → ((e : ℕ) → holds client h s k base e ≡ false)
      → first_hit client h s k base left diff ≡ none
  unfolding first_hit
  no_hit h s k base zero diff never = refl
  no_hit h s k base (suc left) diff never =
      if_false _ _ (never diff) ∙ no_hit h s k base left (diff + 1) never

  first_hit-lt :
      (h : Hash) (s : S) (k : K) (base left diff d : ℕ)
      → first_hit client h s k base left diff ≡ some d
      → d < diff + left
  unfolding first_hit
  first_hit-lt h s k base zero diff d e = absurd (omega (arith, ap count_some e))
  first_hit-lt h s k base (suc left) diff d e = elim (Bool-cases (holds client h s k base diff)) [
    | inl t ↦ omega (arith, ap (some_or 0) (sym (if_true _ _ t) ∙ e))
    | inr t ↦ omega (arith, first_hit-lt h s k base left (diff + 1) d (sym (if_false _ _ t) ∙ e))
  ]

  without-holds :
      (h h' : Hash) (s : S) (k : K) (base i e : ℕ)
      → i < length h.bit_diffs
      → h'.bit_diffs ≡ set h.bit_diffs i 0
      → ((j : ℕ) → i ≢ j → hash_key_equal k s j ≡ false)
      → holds client h' s k base e ≡ false
  without-holds h h' s k base i e inside same alone = elim (Bool-cases (i == bit_xor base e)) [
    | inl t ↦
        let at : i ≡ bit_xor base e = (==_iff i (bit_xor base e)).0 t in
        let gone : slot h' (bit_xor base e) ≡ 0 =
          ap₂ (λ ds j. get_or ds j 0) same (sym at) ∙ get_or-set_self h.bit_diffs i 0 inside in
        ap (λ b. b && hash_key_equal k s (bit_xor base e))
          (ne→== (e + 1) (slot h' (bit_xor base e)) (λ q. omega (arith, q, gone)))
    | inr t ↦
        other_key client h' s k base e
          (alone (bit_xor base e) (λ q. true≢false (sym ((==_iff i (bit_xor base e)).1 q) ∙ t)))
  ]

  unset_key-removes :
      (h : Hash) (s : S) (k : K) (f : Found)
      → search_base client h s k (base_index_for_key client h k) ≡ ok f
      → f.hit ≡ true
      → bit_xor (base_index_for_key client h k) f.diff < length h.bit_diffs
      → unset_key client k h s
        ≡ ok (
          (bit_xor (base_index_for_key client h k) f.diff, true),
          without
              (bit_xor (base_index_for_key client h k) f.diff)
              (record h { unset_stats = count_search client f h.unset_stats }),
        )
  unfolding unset_key search_key
  unset_key-removes h s k f run hit inside =
      bind-ok _ (bind-ok _ run)
      ∙ if_true _ _ hit
      ∙ bind-ok _ (load-lt h.bit_diffs (bit_xor (base_index_for_key client h k) f.diff) inside)

  base_index-without :
      (h : Hash) (k : K) (i : ℕ) (f : Found)
      → base_index_for_key client
          (without i (record h { unset_stats = count_search client f h.unset_stats }))
          k
        ≡ base_index_for_key client h k
  unfolding base_index
  base_index-without h k i f = refl

  -- Unset of a key that a slot of its bucket holds gives up the first such slot and returns its index;
  -- the largest differences still bound the marks; and when no other slot holds the key, Get does not
  -- find it after that.
  pub unset_key-get :
      (h : Hash) (s : S) (k : K) (d : ℕ)
      → IsBounded h
      → Fits h (base_index_for_key client h k)
      → first_hit client h s k (base_index_for_key client h k) (bucket_size h) 0 ≡ some d
      → ((j : ℕ) → bit_xor (base_index_for_key client h k) d ≢ j → hash_key_equal k s j ≡ false)
      → (h' : Hash) × (unset_key client k h s
          ≡ ok ((bit_xor (base_index_for_key client h k) d, true), h'))
        × IsBounded h'
        × (answer (get client k h' s) ≡ ok (0, false))
  unset_key-get h s k d b fits hit alone =
      let base = base_index_for_key client h k in
      let (f, run, same) = search_base-first client h s k base b fits in
      let (t, at) = found_hit f d (same ∙ hit) in
      let i = bit_xor base d in
      let less : d < bucket_size h =
        omega (arith, first_hit-lt h s k base (bucket_size h) 0 d hit) in
      let inside = fits.0 d less in
      let h' = without i (record h { unset_stats = count_search client f h.unset_stats }) in
      let b' : IsBounded h' = freed-IsBounded i h inside b in
      let fits' : Fits h' base =
        ((λ e l. omega (arith, fits.0 e l, length-set h.bit_diffs i 0)), fits.1) in
      (
        h',
        unset_key-removes h s k f run t (omega (arith, inside, ap (bit_xor base) at))
            ∙ ap
                (λ e. ok (
                  (bit_xor base e, true),
                  without (bit_xor base e)
                      (record h { unset_stats = count_search client f h.unset_stats }),
                ))
                at,
        b',
        get-first_at client h' s k base (base_index-without h k i f) b' fits'
              (omega (arith, fits'.0 d less))
            ∙ ap (λ o. ok (found_slot base o))
                (no_hit h' s k base (bucket_size h) 0
                  (λ e. without-holds h h' s k base i e inside refl alone)),
      )
