-- ===== src/Word/Pow.antt =====
-- Powers of two, and division by them.
use native.Mathlib.Nat.{
  pow-suc, one-le-pow, div-div-eq-div-mul, pow-le-pow_right, mod-lt, div-add-mod,
  mul-add-mod_self_left, mod-eq_of_lt,
}
use native.Mathlib.Decide.{dec_lt}
use elib.Base.{ℕ, zero, suc, ◌+◌, ◌-◌, ◌*◌, ◌/◌, ◌%◌, ◌^◌, ◌≤◌, ◌<◌, ◌≡◌, ap, ◌∙◌, sym, arith}

pub two_pow-pos : (a : ℕ) → 0 < 2 ^ a
two_pow-pos a = omega (arith, one-le-pow a 2)

pub two_pow-add : (a b : ℕ) → 2 ^ (a + b) ≡ 2 ^ a * 2 ^ b
two_pow-add a zero = let e : a + 0 ≡ a = omega arith in rw e (omega arith)
two_pow-add a (suc b) =
    let e : a + suc b ≡ suc (a + b) = omega arith in
    rw e
      (omega (arith, pow-suc 2 (a + b), two_pow-add a b, ap (λ (t : ℕ). 2 ^ a * t) (pow-suc 2 b)))

pub two_pow-le : {a b : ℕ} → a ≤ b → 2 ^ a ≤ 2 ^ b
two_pow-le h = pow-le-pow_right (omega arith) h

pub two_pow-lt : {a b : ℕ} → a < b → 2 ^ a < 2 ^ b
two_pow-lt {a} {b} h = omega (arith, pow-suc 2 a, two_pow-pos a, two_pow-le {a = suc a} {b = b} h)

pub div_two_pow-add : (x a b : ℕ) → x / 2 ^ a / 2 ^ b ≡ x / 2 ^ (a + b)
div_two_pow-add x a b =
    div-div-eq-div-mul x (2 ^ a) (2 ^ b) ∙ ap (λ (t : ℕ). x / t) (sym (two_pow-add a b))

pub two_pow-lt_inv : (a b : ℕ) → 2 ^ a < 2 ^ b → a < b
two_pow-lt_inv a b h = elim (dec_lt a b) [
  | yes p ↦ p
  | no p ↦ absurd (omega (arith, two_pow-le {a = b} {b = a} (omega arith)))
]

pub two_pow-le_inv : (a b : ℕ) → 2 ^ a ≤ 2 ^ b → a ≤ b
two_pow-le_inv a b h = elim (dec_lt b a) [
  | yes p ↦ absurd (omega (arith, two_pow-lt p))
  | no p ↦ omega arith
]

pub two_pow-suc : (a : ℕ) → 2 ^ (a + 1) ≡ 2 ^ a + 2 ^ a
two_pow-suc a = omega (arith, two_pow-add a 1)

pub div-two_pow-suc : (k a : ℕ) → a / 2 ^ suc k ≡ a / 2 / 2 ^ k
div-two_pow-suc k a = sym (div_two_pow-add a 1 k ∙ ap (λ (t : ℕ). a / 2 ^ t) (omega arith))

pub mod-two_pow-suc : (k a : ℕ) → a % 2 ^ suc k ≡ a / 2 % 2 ^ k * 2 + a % 2
mod-two_pow-suc k a =
    let p = 2 ^ k in
    let r = a / 2 % p * 2 + a % 2 in
    let small : r < 2 ^ suc k = omega (arith, pow-suc 2 k, mod-lt (a / 2) (two_pow-pos k)) in
    let split : a ≡ 2 ^ suc k * (a / 2 / p) + r =
      omega (arith, div-add-mod (a / 2) p, ap (λ (t : ℕ). t * (a / 2 / p)) (pow-suc 2 k)) in
    ap (λ (t : ℕ). t % 2 ^ suc k) split
    ∙ mul-add-mod_self_left (2 ^ suc k) (a / 2 / p) r
    ∙ mod-eq_of_lt small

pub pred-mul : (p q : ℕ) → 0 < p → (p - 1) * q + q ≡ p * q
pred-mul zero q h = absurd (omega arith)
pred-mul (suc p) q h = let e : suc p - 1 ≡ p = omega arith in rw e (omega arith)
