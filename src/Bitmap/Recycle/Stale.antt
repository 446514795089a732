-- ===== src/Bitmap/Recycle/Stale.antt =====
-- A slot that is used again keeps its old words past the first, and Validate cuts the slice longer
-- without clearing them: a set bit of the bitmap that was freed comes back.
use elib.Base.{
  ℕ, ◌+◌, ◌-◌, ◌/◌, ◌%◌, ◌^◌, ◌≤◌, ◌<◌, ◌≡◌, refl, ◌∙◌, ap, arith, Bool, false, ok, length, get_or,
  ltb, ◌==◌, ◌!=◌, if◌then◌else◌, Bool-cases, inl, inr, le→leb, le→ltb, ne→==, length-set,
  length-take, length-append, get_or-set, get_or-drop, get_or-append_left, get_elem?-get_or, bit_or,
  bit_and, ==_iff, ==_refl, take,
}
use elib.Word.{complement, shl}
use elib.Word.Digits.{bit, bit_le, bit-or, bit_high}
use elib.Cap.{FloatScale}
use elib.Vec.{Vec, cells, cut, capacity, validate_index}
use elib.Vec.Validate.{Validated, validate-Validated, reslice-ok, capacity-cut}
use elib.Bitmap.Store.{BitmapPool, Level, words, put_words, put_word, to_mem, validate_words}
use elib.Bitmap.Update.{change2, change_word, set2}
use elib.Bitmap.Update.Content.{
  slot, vector_digit, digit, inline_lt, pooled_ge, words-slot, slot-put_words,
}

slot-put_words_self :
    (p : BitmapPool) (j : ℕ) (v : Vec ℕ) → j < length p.bitmaps.items → slot (put_words p j v) j ≡ v
slot-put_words_self p j v h =
    slot-put_words p j j v h ∙ ap (λ (t : Bool). if t then v else slot p j) (==_refl j)

module _ (scale : FloatScale) (extra : ℕ → ℕ) (lv : Level) (p q : BitmapPool) (bi b x y : ℕ)
    (taken : lv.new p ≡ ok (bi, q)) (inside : bi < length q.bitmaps.items) (low : bi < 2 ^ 63)
    (fits : capacity (slot q bi) ≤ 2 ^ 31) (small : b < 2 ^ 63) (far : 63 ≤ x) (near : x < 2 ^ 34)
    (old_x : x / 64 < length (slot q bi).items) (past : 64 ≤ y) (below : y / 64 ≤ x / 64)
    (set_before : vector_digit (slot q bi) y ≡ 1) where
  abbrev v : Vec ℕ
  v = slot q bi

  -- The slot that toMem leaves.
  abbrev reused : Vec ℕ
  reused = put_word (cut v 1) 0 b

  abbrev r : ℕ
  r = complement bi

  abbrev q1 : BitmapPool
  q1 = put_words q bi reused

  reused-length : length reused.items ≡ 1
  reused-length = omega (
    arith,
    length-set (take 1 (cells v)) 0 b,
    length-take 1 (cells v),
    length-append v.items v.spare,
  )

  reused-capacity : capacity reused ≡ capacity v
  reused-capacity = omega (arith, length-set (take 1 (cells v)) 0 b, capacity-cut {A = ℕ} 0 v 1)

  moves : to_mem extra lv b p ≡ ok (r, q1)
  unfolding to_mem
  moves =
      let full : (length v.items == 0) ≡ false = ne→== _ 0 (λ e. omega arith) in
      rw (taken, words-slot q bi inside, full, reslice-ok {A = ℕ} 0 v 1 (omega arith)) refl

  slot-q1 : slot q1 bi ≡ reused
  slot-q1 = slot-put_words_self q bi reused inside

  -- The vector after Validate, and the pool with the bit set.
  module _ (w : Vec ℕ) (g : Validated 0 reused (x / 64 + 1) w) where
    stale_word : get_or w.items (y / 64) 0 ≡ get_or v.items (y / 64) 0
    stale_word =
        let k : 1 + (y / 64 - length reused.items) ≡ y / 64 = omega (arith, reused-length) in
        let open_end = le→leb (x / 64 + 1) (capacity reused) (omega (arith, reused-capacity)) in
        g.exposed (y / 64) (omega (arith, reused-length)) (omega arith)
        ∙ rw open_end (
            get_or-drop 1 (cells v) (y / 64 - length reused.items) 0
            ∙ ap (λ (j : ℕ). get_or (cells v) j 0) k
            ∙ get_or-append_left v.items v.spare (y / 64) 0 (omega arith))

    abbrev updated : Vec ℕ
    updated = put_word w (x / 64) (bit_or (get_or w.items (x / 64) 0) (shl 1 (x % 64)))

    still_set : vector_digit updated y ≡ 1
    still_set =
        let reached : x / 64 < length w.items = omega (arith, g.longer) in
        let still : bit (get_or w.items (y / 64) 0) (y % 64) ≡ 1 = rw stale_word set_before in
        ap (λ (a : ℕ). bit a (y % 64))
          (get_or-set w.items (x / 64) (y / 64)
            (bit_or (get_or w.items (x / 64) 0) (shl 1 (x % 64))) 0 reached)
        ∙ elim (Bool-cases (x / 64 == y / 64)) [
          | inl same ↦
              let e : x / 64 ≡ y / 64 = (==_iff _ _).0 same in
              rw (same, e, bit-or, still) (omega (arith, bit_le (shl 1 (x % 64)) (y % 64)))
          | inr other ↦ rw other still
        ]

  -- When `new` hands out a slot with old words (the slot holds word `x / 64`), Set2 of an index `x`
  -- past the inline bits returns a bitmap that holds every index `y`, in a word up to that of `x`,
  -- that the old bitmap of the slot held, although the argument does not hold it.
  pub set2-stale :
      (old : Bool) × (q' : BitmapPool) × (set2 scale extra lv b x p ≡ ok ((r, old), q'))
      × (digit q' r y ≡ 1)
      × (digit p b y ≡ 0)
  unfolding set2 change2 change_word validate_words validate_index
  set2-stale =
      let (w, e, g, c) =
        validate-Validated 0 scale reused (x / 64 + 1) (omega arith) (omega arith)
          (omega (arith, reused-capacity)) in
      let index : complement r ≡ bi = omega arith in
      let large : 2 ^ 63 ≤ r = omega arith in
      let out : ltb x 63 ≡ false = le→ltb x 63 far in
      let first : words q1 bi ≡ ok reused =
        words-slot q1 bi (rw length-set inside) ∙ ap ok slot-q1 in
      let here : bi < length (put_words q1 bi w).bitmaps.items =
        rw (length-set, length-set) inside in
      let again : words (put_words q1 bi w) bi ≡ ok w =
        words-slot (put_words q1 bi w) bi here
        ∙ ap ok (slot-put_words_self q1 bi w (rw length-set inside)) in
      let read = get_elem?-get_or w.items (x / 64) 0 (omega (arith, g.longer)) in
      let step : (x / 64 + 1) % 2 ^ 64 ≡ x / 64 + 1 = omega arith in
      (
        bit_and (get_or w.items (x / 64) 0) (shl 1 (x % 64)) != 0,
        put_words (put_words q1 bi w) bi (updated w g),
        rw (inline_lt b small, out, moves, index, first, step, e, again, read) refl,
        rw
            (
              pooled_ge r large (omega arith),
              index,
              slot-put_words_self (put_words q1 bi w) bi (updated w g) here,
            )
            (still_set w g),
        rw (inline_lt b small) (bit_high 63 b y small (omega arith)),
      )
