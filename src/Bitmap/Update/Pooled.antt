-- ===== src/Bitmap/Update/Pooled.antt =====
-- Updates of pooled bitmaps: the word is there after Validate, and one digit of it changes.
use elib.Base.{
  ℕ, ◌+◌, ◌-◌, ◌/◌, ◌%◌, ◌^◌, ◌≤◌, ◌<◌, ◌≡◌, ◌≢◌, ◌∙◌, ap, arith, Bool, false, ok, bit_and, ◌==◌,
  ◌!=◌, if◌then◌else◌, Bool-cases, inl, inr, ne→==, ==_iff, length, get_or, get_or-set,
  get_elem?-get_or, length-set, ==_refl,
}
use elib.Word.{complement, shl}
use elib.Word.Digits.{bit}
use elib.Cap.{FloatScale}
use elib.Vec.{Vec, capacity, validate_index}
use elib.Vec.Validate.{IsClean, validate-Validated, Validated-read}
use elib.Bitmap.Store.{BitmapPool, is_inline, words, put_words, put_word, validate_words}
use elib.Bitmap.Update.{change_word}
use elib.Bitmap.Update.Content.{
  IsTidy, slot, vector_digit, Changed, ChangesDigit, pooled_ge, mask_test, shl-one, words-slot,
  slot-put_words, put_words-IsTidy,
}

same_word : (x y : ℕ) → x / 64 ≡ y / 64 → (x == y) ≡ (x % 64 == y % 64)
same_word x y e = ground arith

-- On a clean vector Validate of an index adds zero words, so no digit changes.
pub record Grown (v : Vec ℕ) (i : ℕ) (w : Vec ℕ) : Type 0 where
  pub reached : i < length w.items
  pub same : (j : ℕ) → get_or w.items j 0 ≡ get_or v.items j 0
  pub clean : IsClean 0 w
  pub sized : capacity w ≤ 2 ^ 31

validate_index-Grown :
    (scale : FloatScale) (v : Vec ℕ) (i : ℕ)
    → i < 2 ^ 29
    → IsClean 0 v
    → capacity v ≤ 2 ^ 31
    → (w : Vec ℕ) × (validate_index scale 0 v i ≡ ok (i, w)) × Grown v i w
unfolding validate_index
validate_index-Grown scale v i h c s =
    let (w, e, g, t) = validate-Validated 0 scale v (i + 1) (omega arith) (omega arith) s in
    let a : (i + 1) % 2 ^ 64 ≡ i + 1 = omega arith in
    let b : i + 1 - 1 ≡ i = omega arith in
    (
      w,
      rw a (rw b at e),
      record {
        reached = omega (arith, g.longer);
        same = Validated-read 0 v (i + 1) c g;
        clean = g.clean c;
        sized = t;
      },
    )

module _ (p : BitmapPool) (b : ℕ) (pooled : 2 ^ 63 ≤ b) (word : b < 2 ^ 64) (t : IsTidy p)
    (owned : complement b < length p.bitmaps.items) where
  abbrev bi : ℕ
  bi = complement b

  -- The pool after Validate of word `i` in the slot of `b`.
  pub validate_words-Grown :
      (scale : FloatScale) (i : ℕ)
      → i < 2 ^ 29
      → (w : Vec ℕ) × (validate_words scale bi i p ≡ ok (put_words p bi w)) × Grown (slot p bi) i w
  unfolding validate_words
  validate_words-Grown scale i h =
      let (w, e, g) = validate_index-Grown scale (slot p bi) i h (t.clean bi) (t.sized bi) in
      (w, rw (words-slot p bi owned, e), g)

  module _ {op : ℕ → ℕ → ℕ} {f : ℕ → ℕ} (o : ChangesDigit op f) (x : ℕ) (w : Vec ℕ)
      (g : Grown (slot p bi) (x / 64) w) where
    abbrev i : ℕ
    i = x / 64

    abbrev k : ℕ
    k = x % 64

    abbrev old_word : ℕ
    old_word = get_or w.items i 0

    -- The slot with the word changed, and the pool with that slot.
    abbrev updated : Vec ℕ
    updated = put_word w i (op old_word (2 ^ k))

    abbrev after : BitmapPool
    after = put_words (put_words p bi w) bi updated

    size-after : length after.bitmaps.items ≡ length p.bitmaps.items
    size-after = length-set _ bi updated ∙ length-set p.bitmaps.items bi w

    slot-after : (j : ℕ) → slot after j ≡ (if bi == j then updated else slot p j)
    slot-after j =
        slot-put_words (put_words p bi w) bi j updated (rw length-set owned)
        ∙ ground (arith, slot-put_words p bi j w owned)

    updated-digit :
        (y : ℕ)
        → vector_digit updated y
          ≡ (if x == y then f (vector_digit (slot p bi) x) else vector_digit (slot p bi) y)
    updated-digit y = get_updated ∙ elim (Bool-cases (i == y / 64)) [
      | inl same ↦
          let e : i ≡ y / 64 = (==_iff _ _).0 same in
          rw (
            same,
            o.changes old_word k (y % 64) (omega arith) (omega arith),
            same_word x y e,
            ← e,
            ← g.same i,
          )
      | inr other ↦ let d : (x == y) ≡ false = ground arith in rw (other, d, g.same (y / 64))
    ]
      where
        get_updated :
            vector_digit updated y
            ≡ bit (if i == y / 64 then op old_word (2 ^ k) else get_or w.items (y / 64) 0) (y % 64)
        get_updated =
            ap (λ (a : ℕ). bit a (y % 64))
              (get_or-set w.items i (y / 64) (op old_word (2 ^ k)) 0 g.reached)

    pub after-Changed : Changed f p b x b (bit_and old_word (shl 1 k) != 0) after
    after-Changed = record {
      bitmap = record { word = word; owned = λ q. rw size-after owned };
      old_value = rw (pooled_ge b pooled word, ← g.same i) (mask_test old_word k (omega arith));
      content = λ y. rw (pooled_ge b pooled word, slot-after bi, ==_refl bi) (updated-digit y);
      kept = λ c h n. record { word = h.word; owned = λ q. rw size-after (h.owned q) };
      others = λ c h n y. elim (Bool-cases (is_inline c)) [
        | inl inline ↦ rw inline
        | inr large ↦
            let ne : c ≢ b = n (ground arith) in
            let d : (bi == complement c) ≡ false = ne→== _ _ (λ e. ne (omega (arith, h.word))) in
            rw (large, slot-after (complement c), d)
      ];
      tidy = λ s.
          put_words-IsTidy (put_words p bi w) bi updated (rw length-set owned)
            (put_words-IsTidy p bi w owned s g.clean g.sized) g.clean (rw length-set g.sized);
    }

  -- Set2 and Invert2 on a pooled bitmap, for an index below 2^34.
  pub change_word-Changed :
      {op : ℕ → ℕ → ℕ} {f : ℕ → ℕ} (scale : FloatScale) (o : ChangesDigit op f) (x : ℕ)
      → x < 2 ^ 34
      → (old : Bool) × (q : BitmapPool) × (change_word scale op b x p ≡ ok ((b, old), q))
        × Changed f p b x b old q
  unfolding change_word
  change_word-Changed {op} scale o x h =
      let (w, e, g) = validate_words-Grown scale (x / 64) (omega arith) in
      let read = get_elem?-get_or w.items (x / 64) 0 g.reached in
      let here : words (put_words p bi w) bi ≡ ok w =
        words-slot (put_words p bi w) bi (rw length-set owned)
        ∙ ap ok (
            slot-put_words p bi bi w owned
            ∙ ap (λ (t : Bool). if t then w else slot p bi) (==_refl bi)) in
      (
        bit_and (old_word o x w g) (shl 1 (x % 64)) != 0,
        after o x w g,
        rw (e, here, read, shl-one (x % 64) (omega arith)),
        after-Changed o x w g,
      )
