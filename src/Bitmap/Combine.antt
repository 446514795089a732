-- ===== src/Bitmap/Combine.antt =====
-- Or, AndNot, AndNotx and checkInline of bitmap.go.
pub mod Unsigned
use elib.Base.{
  ℕ, zero, suc, ◌+◌, ◌-◌, ◌*◌, ◌/◌, ◌%◌, ◌^◌, Bool, not, ◌&&◌, true, false, List, [], ◌∷◌, Outcome,
  ok, panic, index_out_of_range, ◌>>=◌, load, length, take, set, bit_and, bit_or, leb, ltb, ◌==◌,
  ◌!=◌, if◌then◌else◌,
}
use elib.Word.{complement, shl, and_not}
use elib.Cap.{FloatScale}
use elib.Vec.{Vec, reslice}
use elib.Bitmap.Store.{
  BitmapPool, Level, is_pool_index, is_inline, both_inline, bitmap_index, words, put_words,
  put_word, validate_words, to_mem, inline_to_mem,
}

-- `p.bitmaps[bi][i] |= cs[i]` for the words of `cs`.
pub or_loop : List ℕ → List ℕ → Outcome (List ℕ)
or_loop xs [] = ok xs
or_loop [] (c ∷ cs) = panic index_out_of_range
or_loop (x ∷ xs) (c ∷ cs) = do rest ← or_loop xs cs; ok (bit_or x c ∷ rest)

-- `cs`: the words of a bitmap.
abbrev pub words_of : BitmapPool → ℕ → Outcome (List ℕ)
words_of p c = if is_pool_index c then (words p (complement c) >>= λ v. ok v.items) else ok (c ∷ [])

unfoldable pub or : FloatScale → (ℕ → ℕ) → Level → ℕ → ℕ → BitmapPool → Outcome (ℕ × BitmapPool)
or scale extra lv b c p =
    let pooled : Outcome (ℕ × BitmapPool) = do
      (r, p1) ← inline_to_mem extra lv b p
      let bi = complement r
      cs ← words_of p1 c
      p2 ← validate_words scale bi ((length cs + 2 ^ 64 - 1) % 2 ^ 64) p1
      v ← words p2 bi
      xs ← or_loop v.items cs
      ok (r, put_words p2 bi (record v { items = xs }))
    in if both_inline b c then ok (bit_or b c, p) else pooled

-- Possibly reduce memory bitmap to inline.
unfoldable pub check_inline : Level → ℕ → BitmapPool → Outcome (ℕ × BitmapPool)
check_inline lv b p = do
  let bi = complement b
  v ← words p bi
  let l = length v.items
  let freed = λ (r : ℕ). lv.put_index bi p >>= λ (_, p'). ok (r, p')
  let single = load v.items 0 >>= λ w. if not (is_inline w) then ok (b, p) else freed w
  if ltb 1 l then ok (b, p) else if l == 1 then single else freed 0

-- `p.bitmaps[bi][i] &= ^cs[i]`, with the length up to the last word that is not zero.
pub and_not_loop : ℕ → ℕ → List ℕ → List ℕ → Outcome (ℕ × List ℕ)
and_not_loop i l xs [] = ok (l, xs)
and_not_loop i l [] (c ∷ cs) = panic index_out_of_range
and_not_loop i l (x ∷ xs) (c ∷ cs) = do
  let w = and_not x c
  (l', rest) ← and_not_loop (i + 1) (if w != 0 then i + 1 else l) xs cs
  ok (l', w ∷ rest)

unfoldable pub and_not_bitmap :
    FloatScale → (ℕ → ℕ) → Level → ℕ → ℕ → BitmapPool → Outcome (ℕ × BitmapPool)
and_not_bitmap scale extra lv b c p =
    let pooled : Outcome (ℕ × BitmapPool) = do
      (r, p1) ← inline_to_mem extra lv b p
      let bi = complement r
      cs ← words_of p1 c
      p2 ← validate_words scale bi ((length cs + 2 ^ 64 - 1) % 2 ^ 64) p1
      v ← words p2 bi
      (l, xs) ← and_not_loop 0 0 v.items cs
      v' ← reslice (record v { items = xs }) l
      check_inline lv r (put_words p2 bi v')
    in if both_inline b c then ok (and_not b c, p) else pooled

-- `for l > 0 && v[l-1] == 0 { l-- }`, on the words below `l`.
pub strip_loop : List ℕ → ℕ → Outcome ℕ
strip_loop ws zero = ok 0
strip_loop ws (suc l) =
    load ws l >>= λ w. let rest = strip_loop ws l in if w == 0 then rest else ok (suc l)

unfoldable pub and_notx :
    FloatScale → (ℕ → ℕ) → Level → ℕ → ℕ → BitmapPool → Outcome (ℕ × BitmapPool)
and_notx scale extra lv b x p =
    let (i, m) = bitmap_index x in
    let pooled = λ (r : ℕ) (q : BitmapPool). do
      let bi = complement r
      p1 ← validate_words scale bi i q
      s ← words p1 bi
      w ← load s.items i
      let v = and_not w m
      let s' = put_word s i v
      let p2 = put_words p1 bi s'
      let n = length s'.items
      let stripped : Outcome (ℕ × BitmapPool) = do
        l ← strip_loop s'.items n
        s'' ← reslice s' l
        check_inline lv r (put_words p2 bi s'')
      if (i == (n + 2 ^ 64 - 1) % 2 ^ 64) && v == 0 then stripped else ok (r, p2)
    in let moved : Outcome (ℕ × BitmapPool) = do (r, p') ← to_mem extra lv b p; pooled r p'
      in if not (is_pool_index b)
        then (if ltb x 63 then ok (bit_and b (complement (shl 1 x)), p) else moved)
        else pooled b p
