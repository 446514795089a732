-- ===== src/Bits/Count/Spread.antt =====
-- The rounds of sums of NSetBits in bits.go work on each byte of the word by itself.
use native.Mathlib.Nat.{
  pow-suc, zero-mod, zero-div, div-add-mod', mul-add-mod_self_right, mul-add-div_right,
}
use elib.Base.{ℕ, zero, suc, ◌+◌, ◌*◌, ◌/◌, ◌%◌, ◌^◌, ◌<◌, ◌≡◌, refl, sym, ◌∙◌, ap, arith, bit_and}
use elib.Word.Digits.{bit_and_step}
use elib.Word.Mask.{bit_and-zero, zero-bit_and}

bit_and-split :
    (k a b m n : ℕ)
    → b < 2 ^ k
    → n < 2 ^ k
    → bit_and (a * 2 ^ k + b) (m * 2 ^ k + n) ≡ bit_and a m * 2 ^ k + bit_and b n
bit_and-split zero a b m n p q =
    let e : a * 1 + b ≡ a = omega arith in
    let f : m * 1 + n ≡ m = omega arith in
    let z : b ≡ 0 = omega arith in rw (e, f, z) (omega (arith, zero-bit_and n))
bit_and-split (suc k) a b m n p q =
    let e : (a * 2 ^ suc k + b) / 2 ≡ a * 2 ^ k + b / 2 = halved a b in
    let f : (m * 2 ^ suc k + n) / 2 ≡ m * 2 ^ k + n / 2 = halved m n in
    let ih =
      bit_and-split k a (b / 2) m (n / 2) (omega (arith, pow-suc 2 k))
        (omega (arith, pow-suc 2 k)) in
    let step = rw (e, f) at (bit_and_step (a * 2 ^ suc k + b) (m * 2 ^ suc k + n)) in
    omega (
      arith,
      step,
      ih,
      doubled a b,
      doubled m n,
      bit_and_step b n,
      ap (λ (t : ℕ). bit_and a m * t) (pow-suc 2 k),
    )
  where
    halved : (u v : ℕ) → (u * 2 ^ suc k + v) / 2 ≡ u * 2 ^ k + v / 2
    halved u v = omega (arith, ap (λ (t : ℕ). u * t) (pow-suc 2 k))

    doubled : (u v : ℕ) → (u * 2 ^ suc k + v) % 2 ≡ v % 2
    doubled u v = omega (arith, ap (λ (t : ℕ). u * t) (pow-suc 2 k))

-- A mask that repeats one byte `w` times, and a function applied to `w` bytes.
abbrev repeated : ℕ → ℕ → ℕ
repeated zero c = 0
repeated (suc w) c = repeated w c * 256 + c

unfoldable pub spread : ℕ → (ℕ → ℕ) → ℕ → ℕ
spread zero f x = 0
spread (suc w) f x = spread w f (x / 256) * 256 + f (x % 256)

pub spread-lt :
    (w : ℕ) (f : ℕ → ℕ) (x : ℕ) → ((b : ℕ) → b < 256 → f b < 256) → spread w f x < 256 ^ w
unfolding spread
spread-lt zero f x h = omega arith
spread-lt (suc w) f x h =
    omega (arith, spread-lt w f (x / 256) h, h (x % 256) (omega arith), pow-suc 256 w)

pub spread-spread :
    (w : ℕ) (f g : ℕ → ℕ) (x : ℕ)
    → ((b : ℕ) → b < 256 → f b < 256)
    → spread w g (spread w f x) ≡ spread w (λ b. g (f b)) x
unfolding spread
spread-spread zero f g x h = refl
spread-spread (suc w) f g x h =
    let small = h (x % 256) (omega arith) in
    let e : (spread w f (x / 256) * 256 + f (x % 256)) / 256 ≡ spread w f (x / 256) = omega arith in
    let d : (spread w f (x / 256) * 256 + f (x % 256)) % 256 ≡ f (x % 256) = omega arith in
    rw (e, d, spread-spread w f g (x / 256) h)

-- One round of sums, on a word of `w` bytes and on one byte.
abbrev pub round : ℕ → ℕ → ℕ → ℕ → ℕ → ℕ
round c d p w x = bit_and x (repeated w c) + bit_and x (repeated w d) / p

abbrev pub round_byte : ℕ → ℕ → ℕ → ℕ → ℕ
round_byte c d p b = bit_and b c + bit_and b d / p

and-repeated :
    (w x c : ℕ)
    → c < 256
    → bit_and x (repeated (suc w) c) ≡ bit_and (x / 256) (repeated w c) * 256 + bit_and (x % 256) c
and-repeated w x c h =
    let e : x / 256 * 256 + x % 256 ≡ x = omega arith in
    ap (λ (t : ℕ). bit_and t (repeated (suc w) c)) (sym e)
    ∙ bit_and-split 8 (x / 256) (x % 256) (repeated w c) c (omega arith) h

module _ (c d p q : ℕ) (hc : c < 256) (hd : d < 256) (hp : 0 < p) (whole : 256 ≡ q * p)
    (aligned : (b : ℕ) → b < 256 → bit_and b d % p ≡ 0) where
  aligned-repeated : (w x : ℕ) → bit_and x (repeated w d) % p ≡ 0
  aligned-repeated zero x = rw (bit_and-zero x) (zero-mod p)
  aligned-repeated (suc w) x =
      let a = bit_and (x / 256) (repeated w d) in
      let b = bit_and (x % 256) d in
      let e : a * 256 + b ≡ a * q * p + b = omega (arith, ap (λ (t : ℕ). a * t) whole) in
      rw (and-repeated w x d hd, e, mul-add-mod_self_right) (aligned (x % 256) (omega arith))

  pub round-spread : (w x : ℕ) → round c d p w x ≡ spread w (round_byte c d p) x
  unfolding spread
  round-spread zero x = rw (bit_and-zero x, zero-div p)
  round-spread (suc w) x =
      let a = bit_and (x / 256) (repeated w d) in
      let b = bit_and (x % 256) d in
      let t = a / p in
      let exact : t * p ≡ a = omega (arith, aligned-repeated w (x / 256), div-add-mod' a p) in
      let e : a * 256 + b ≡ t * 256 * p + b = omega (arith, ap (λ (y : ℕ). y * 256) exact) in
      let shifted : (a * 256 + b) / p ≡ t * 256 + b / p = rw e (mul-add-div_right hp (t * 256) b) in
      rw (and-repeated w x c hc, and-repeated w x d hd, shifted)
        (omega (arith, round-spread w (x / 256)))
