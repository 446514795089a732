-- ===== src/Bitmap/Recycle/Fresh.antt =====
-- Set2 and Invert2 on a pool from which nothing was freed: a bitmap that outgrows its word moves to
-- a new slot.
use elib.Base.{
  ℕ, suc, ◌+◌, ◌-◌, ◌/◌, ◌%◌, ◌^◌, ◌≤◌, ◌<◌, ◌≡◌, ◌≢◌, refl, ◌∙◌, ap, arith, Bool, false, [], ◌∷◌,
  ok, length, ltb, ◌==◌, if◌then◌else◌, Bool-cases, inl, inr, ltb→lt, ltb→le, le→leb, ne→==,
  length-set, get_or-default, replicate, get_or-replicate_self, length-replicate, bit_and, ◌!=◌,
  ==_refl,
}
use elib.Word.{complement, shl}
use elib.Word.Digits.{bit, bit-zero, bit_high}
use elib.Cap.{FloatScale}
use elib.Vec.{Vec, capacity, append}
use elib.Vec.Validate.{IsClean, Validated-read}
use elib.Pool.Grow.{pool_validate-Validated}
use elib.Bitmap.Store.{BitmapPool, Level, no_words, is_inline, words, put_words, to_mem}
use elib.Bitmap.Update.{change2}
use elib.Bitmap.Update.Content.{
  IsBitmap, IsTidy, slot, vector_digit, digit, Changed, ChangesDigit, inline_lt, pooled_ge,
  words-slot, slot-put_words, put_words-IsTidy,
}
use elib.Bitmap.Update.Inline.{change-inline}
use elib.Bitmap.Update.Pooled.{change_word-Changed}
use elib.Bitmap.Recycle.{level, new_slot, get_index, pool_get_index, validate_slot}

-- No slot was ever freed, there is no limit, and there is room for one more slot.
pub record IsFresh (p : BitmapPool) : Type 0 where
  pub none_free : p.free_indices ≡ []
  pub unlimited : p.max_len ≡ 0
  pub few : length p.bitmaps.items < 2 ^ 28
  pub fits : capacity p.bitmaps ≤ 2 ^ 31
  pub unused : IsClean no_words p.bitmaps

-- The pool with one slot more, which is empty.
record Extended (p q : BitmapPool) : Type 0 where
  one_more : length q.bitmaps.items ≡ length p.bitmaps.items + 1
  same : (j : ℕ) → slot q j ≡ slot p j

module _ (scale : FloatScale) (extra : ℕ → ℕ) (p : BitmapPool) (f : IsFresh p) where
  abbrev n : ℕ
  n = length p.bitmaps.items

  new_slot-Extended :
      (lv : Level) → (q : BitmapPool) × (new_slot scale extra lv p ≡ ok (n, q)) × Extended p q
  unfolding new_slot get_index pool_get_index validate_slot
  new_slot-Extended lv =
      let (w, e, v, c) =
        pool_validate-Validated no_words scale p.bitmaps n (omega (arith, f.few)) f.fits in
      let (w', e', v', c') = pool_validate-Validated no_words scale w n (omega (arith, f.few)) c in
      (
        record p { bitmaps = w' },
        rw (f.none_free, f.unlimited, le→leb n n (omega arith), e, e') refl,
        record {
          one_more = omega (arith, v.longer, v'.longer);
          same = λ j.
              Validated-read no_words w (n + 1) (v.clean f.unused) v' j
              ∙ Validated-read no_words p.bitmaps (n + 1) f.unused v j;
        },
      )

  -- The slot that a bitmap of one word moves to.
  abbrev single : ℕ → Vec ℕ
  single b = record { items = b ∷ []; spare = replicate (extra 1) 0 }

  single-digit : (b y : ℕ) → b < 2 ^ 64 → vector_digit (single b) y ≡ bit b y
  single-digit b y h = elim (Bool-cases (ltb y 64)) [
    | inl near ↦
        let i : y / 64 ≡ 0 = omega (arith, ltb→lt _ _ near) in
        let k : y % 64 ≡ y = omega (arith, ltb→lt _ _ near) in rw (i, k)
    | inr far ↦
        let out = ltb→le _ _ far in
        let i : y / 64 ≡ suc (y / 64 - 1) = omega arith in
        rw (i, bit_high 64 b y h out) (bit-zero (y % 64))
  ]

  abbrev r : ℕ
  r = complement n

  -- The pool after the move.
  abbrev moved : BitmapPool → ℕ → BitmapPool
  moved q b = put_words q n (single b)

  to_mem-moved :
      (m b : ℕ)
      → (q : BitmapPool) × (to_mem extra (level scale extra (suc m)) b p ≡ ok (r, moved q b))
        × Extended p q
  unfolding to_mem append level
  to_mem-moved m b =
      let (q, e, x) = new_slot-Extended (level scale extra m) in
      let empty : slot q n ≡ no_words =
        x.same n ∙ get_or-default p.bitmaps.items n no_words (omega arith) in
      let here : words q n ≡ ok no_words =
        words-slot q n (omega (arith, x.one_more)) ∙ ap ok empty in
      (q, rw (e, here) refl, x)

  module _ (t : IsTidy p) (room : extra 1 ≤ 2 ^ 30) (b : ℕ) (small : b < 2 ^ 63) (q : BitmapPool)
      (x : Extended p q) where
    abbrev s : BitmapPool
    s = moved q b

    r_large : 2 ^ 63 ≤ r
    r_large = omega (arith, f.few)

    r_index : complement r ≡ n
    r_index = omega (arith, f.few)

    size : length s.bitmaps.items ≡ n + 1
    size = length-set q.bitmaps.items n (single b) ∙ x.one_more

    r_owned : complement r < length s.bitmaps.items
    r_owned = omega (arith, size, r_index)

    slot-moved : (j : ℕ) → slot s j ≡ (if n == j then single b else slot p j)
    slot-moved j =
        slot-put_words q n j (single b) (omega (arith, x.one_more))
        ∙ ap (λ (v : Vec ℕ). if n == j then single b else v) (x.same j)

    moved-IsTidy : IsTidy s
    moved-IsTidy =
        put_words-IsTidy q n (single b) (omega (arith, x.one_more))
          (record {
            clean = λ j. rw (x.same j) (t.clean j);
            sized = λ j. rw (x.same j) (t.sized j);
          })
          (get_or-replicate_self (extra 1) 0) (omega (arith, length-replicate {A = ℕ} (extra 1) 0))

    digit-moved : (y : ℕ) → digit s r y ≡ digit p b y
    digit-moved y =
        rw (pooled_ge r r_large (omega arith), inline_lt b small, r_index, slot-moved n, ==_refl n)
          (single-digit b y (omega arith))

    other_index : (c : ℕ) → IsBitmap p c → 2 ^ 63 ≤ c → n ≢ complement c
    other_index c h g e = omega (arith, h.owned g)

    digit-kept : (c : ℕ) → IsBitmap p c → (y : ℕ) → digit s c y ≡ digit p c y
    digit-kept c h y = elim (Bool-cases (is_inline c)) [
      | inl inline ↦ rw inline
      | inr large ↦
          let d : (n == complement c) ≡ false = ne→== _ _ (other_index c h (ground arith)) in
          rw (large, slot-moved (complement c), d)
    ]

    moved-IsBitmap : (c : ℕ) → IsBitmap p c → IsBitmap s c
    moved-IsBitmap c h = record { word = h.word; owned = λ g. omega (arith, size, h.owned g) }

    not_r : (c : ℕ) → IsBitmap p c → 2 ^ 63 ≤ c → c ≢ r
    not_r c h g e = other_index c h g (omega (arith, f.few))

    -- A change of the moved bitmap is a change of the inline one.
    moved-Changed :
        {g : ℕ → ℕ} {i : ℕ} {old : Bool} {q' : BitmapPool}
        → Changed g s r i r old q'
        → Changed g p b i r old q'
    moved-Changed {g} {i} c = record {
      bitmap = c.bitmap;
      old_value = rw (digit-moved i) at c.old_value;
      content = λ y. rw (digit-moved i, digit-moved y) at (c.content y);
      kept = λ d h e. c.kept d (moved-IsBitmap d h) (not_r d h);
      others = λ d h e y. c.others d (moved-IsBitmap d h) (not_r d h) y ∙ digit-kept d h y;
      tidy = λ u. c.tidy moved-IsTidy;
    }

  -- Set2 and Invert2 on an inline bitmap.
  pub change2-inline :
      {op : ℕ → ℕ → ℕ} {g : ℕ → ℕ} (o : ChangesDigit op g) (m b x : ℕ)
      → IsTidy p
      → extra 1 ≤ 2 ^ 30
      → b < 2 ^ 63
      → x < 2 ^ 34
      → (r' : ℕ) × (old : Bool) × (q : BitmapPool) × (change2 scale extra
            (level scale extra (suc m))
            op
            b
            x
            p
          ≡ ok ((r', old), q))
        × Changed g p b x r' old q
  unfolding change2
  change2-inline {op} o m b x t room small h = elim (Bool-cases (ltb x 63)) [
    | inl near ↦ (
      op b (shl 1 x),
      bit_and b (shl 1 x) != 0,
      p,
      rw (inline_lt b small, near) refl,
      change-inline o p b x small (ltb→lt _ _ near),
    )
    | inr far ↦
        let (q, e, y) = to_mem-moved m b in
        let (old, q', e', c) =
          change_word-Changed (s t room b small q y) r (r_large t room b small q y) (omega arith)
            (moved-IsTidy t room b small q y) (r_owned t room b small q y) scale o x h in
        (r, old, q', rw (inline_lt b small, far, e) e', moved-Changed t room b small q y c)
  ]
