-- ===== src/Elog/Encoding/Varint.antt =====
-- Numbers of variable length that are read back, as elog/encoding.go uses them.
use elib.Base.{
  ℕ, zero, suc, ◌+◌, ◌*◌, ◌/◌, ◌%◌, ◌^◌, ◌≤◌, ◌<◌, ◌≡◌, refl, sym, ◌∙◌, ap, ap₂, arith, false, ◌&&◌,
  ◌||◌, Bool-cases, inl, inr, some, List, [], ◌∷◌, ◌++◌, length, drop, ltb, le→ltb, ltb→le, ◌==◌,
  ne→==, if_true, if_false,
}
use elib.Word.Pow.{two_pow-add}
use elib.Elog.Encoding.{put_uvarint_loop, put_uvarint, uvarint_loop, read_uvarint, good}

-- The tenth byte of a number of 64 bits is 0 or 1.
last_fits : (f n y : ℕ) → n + f ≡ 9 → y < 2 ^ (7 * f + 1) → (ltb 9 n || n == 9 && ltb 1 y) ≡ false
last_fits zero n y e lt =
    let at : n ≡ 9 = omega (arith, e) in rw (at, le→ltb 1 y (omega (arith, lt))) refl
last_fits (suc f) n y e lt = rw (le→ltb 9 n (omega (arith, e)), ne→== n 9 (omega (arith, e))) refl

spread : (a b w : ℕ) → a * w + b * (w * 128) ≡ (a + b * 128) * w
spread a b w = omega arith

weigh : (y w : ℕ) → (y % 128 + 128) % 128 * w + y / 128 * (w * 128) ≡ y * w
weigh y w =
    let low : (y % 128 + 128) % 128 ≡ y % 128 = omega arith in
    let whole : y % 128 + y / 128 * 128 ≡ y = omega arith in
    ap (λ a. a * w + y / 128 * (w * 128)) low ∙ spread (y % 128) (y / 128) w ∙ ap (λ a. a * w) whole

-- What a number's bytes give, by its first byte.
first_byte :
    (f x w n y : ℕ) (rest : List ℕ)
    → n + f ≡ 9
    → y < 2 ^ (7 * f + 1)
    → (128 ≤ y
        → uvarint_loop
            (x + (y % 128 + 128) % 128 * w)
            (w * 128)
            (n + 1)
            (put_uvarint_loop f (y / 128) ++ rest)
          ≡ some (x + y * w, n + suc (length (put_uvarint_loop f (y / 128)))))
    → uvarint_loop x w n (put_uvarint_loop (suc f) y ++ rest)
      ≡ some (x + y * w, n + length (put_uvarint_loop (suc f) y))
unfolding uvarint_loop put_uvarint_loop
first_byte f x w n y rest e lt more = elim (Bool-cases (ltb y 128)) [
  | inl t ↦
      ap (λ p. uvarint_loop x w n (p ++ rest)) (if_true _ _ t)
      ∙ if_true _ _ t
      ∙ if_false _ _ (last_fits f n y e lt)
      ∙ ap (λ (p : List ℕ). some (x + y * w, n + length p)) (sym (if_true _ _ t))
  | inr t ↦
      ap (λ p. uvarint_loop x w n (p ++ rest)) (if_false _ _ t)
      ∙ if_false _ _ (le→ltb (y % 128 + 128) 128 (omega arith))
      ∙ more (ltb→le y 128 t)
      ∙ ap (λ (p : List ℕ). some (x + y * w, n + length p)) (sym (if_false _ _ t))
]

uvarint_loop-put :
    (f x w n y : ℕ) (rest : List ℕ)
    → n + f ≡ 9
    → y < 2 ^ (7 * f + 1)
    → uvarint_loop x w n (put_uvarint_loop (suc f) y ++ rest)
      ≡ some (x + y * w, n + length (put_uvarint_loop (suc f) y))
uvarint_loop-put zero x w n y rest e lt =
    first_byte zero x w n y rest e lt (λ big. absurd (omega (arith, lt, big)))
uvarint_loop-put (suc f) x w n y rest e lt = first_byte (suc f) x w n y rest e lt (λ big.
    let pow : 2 ^ (7 * suc f + 1) ≡ 128 * 2 ^ (7 * f + 1) =
      ap (λ k. 2 ^ k) {y = 7 + (7 * f + 1)} (omega arith) ∙ two_pow-add 7 (7 * f + 1) in
    uvarint_loop-put f (x + (y % 128 + 128) % 128 * w) (w * 128) (n + 1) (y / 128) rest
      (omega (arith, e)) (omega (arith, lt, pow))
    ∙ ap₂ (λ a m. some (a, m)) (omega (arith, weigh y w)) (omega arith))

pub drop_prefix : (xs ys : List ℕ) → drop (length xs) (xs ++ ys) ≡ ys
drop_prefix [] ys = refl
drop_prefix (x ∷ xs) ys = drop_prefix xs ys

-- A number of 64 bits that was put before other bytes is read back, and leaves them.
pub read_uvarint-put :
    (y : ℕ) (rest : List ℕ) → y < 2 ^ 64 → read_uvarint (put_uvarint y ++ rest) ≡ good (y, rest)
read_uvarint-put y rest lt =
    rw (read_uvarint, uvarint_loop-put 9 0 1 0 y rest (omega arith) lt)
      (ap₂ (λ a b. good (a, b)) (omega arith)
        (ap (λ k. drop k (put_uvarint y ++ rest)) (omega arith) ∙ drop_prefix (put_uvarint y) rest))

pub length_put : (f y : ℕ) → length (put_uvarint_loop f y) ≤ f
unfolding put_uvarint_loop
length_put zero y = omega arith
length_put (suc f) y = elim (Bool-cases (ltb y 128)) [
  | inl t ↦ rw t (omega arith)
  | inr t ↦ rw t (omega (arith, length_put f (y / 128)))
]
