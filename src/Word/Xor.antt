-- ===== src/Word/Xor.antt =====
-- Exclusive or with a word undoes itself, and keeps what stands above the word.
use elib.Base.{ℕ, zero, suc, ◌+◌, ◌/◌, ◌^◌, ◌≤◌, ◌<◌, ◌≡◌, refl, sym, ◌∙◌, ap, arith, bit_xor}
use elib.Word.Pow.{div-two_pow-suc}
use elib.Word.Digits.{bit_xor_step}
use native.Mathlib.Nat.{pow-suc}

xor_undo : (n a d : ℕ) → a + d ≤ n → bit_xor (bit_xor a d) d ≡ a
xor_undo zero a d h = let e : a ≡ 0 = omega arith in let e' : d ≡ 0 = omega arith in rw (e, e') refl
xor_undo (suc n) zero zero h = refl
xor_undo (suc n) a d h =
    let half : bit_xor a d / 2 ≡ bit_xor (a / 2) (d / 2) = omega (arith, bit_xor_step a d) in
    let ih = xor_undo n (a / 2) (d / 2) (omega (arith, h)) in
    let step = rw half at (bit_xor_step (bit_xor a d) d) in
    omega (arith, bit_xor_step a d, step, ih)

pub bit_xor-cancel : (a b d : ℕ) → bit_xor a d ≡ bit_xor b d → a ≡ b
bit_xor-cancel a b d h =
    sym (xor_undo (a + d) a d (omega arith))
    ∙ ap (λ x. bit_xor x d) h
    ∙ xor_undo (b + d) b d (omega arith)

xor_none : (n a : ℕ) → a ≤ n → bit_xor a 0 ≡ a
xor_none zero a h = let e : a ≡ 0 = omega arith in rw e refl
xor_none (suc n) zero h = refl
xor_none (suc n) (suc a) h =
    omega (arith, bit_xor_step (suc a) 0, xor_none n (suc a / 2) (omega (arith, h)))

pub bit_xor-div : (k a d : ℕ) → d < 2 ^ k → bit_xor a d / 2 ^ k ≡ a / 2 ^ k
bit_xor-div zero a d h =
    let e : d ≡ 0 = omega arith in rw e (ap (λ x. x / 1) (xor_none a a (omega arith)))
bit_xor-div (suc k) a d h =
    let half : bit_xor a d / 2 ≡ bit_xor (a / 2) (d / 2) = omega (arith, bit_xor_step a d) in
    div-two_pow-suc k (bit_xor a d)
    ∙ ap (λ x. x / 2 ^ k) half
    ∙ bit_xor-div k (a / 2) (d / 2) (omega (arith, h, pow-suc 2 k))
    ∙ sym (div-two_pow-suc k a)
