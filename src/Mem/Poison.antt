-- ===== src/Mem/Poison.antt =====
-- mem.go: PointerPoison writes every byte of its memory, and no other.
use elib.Base.{
  if◌then◌else◌, ℕ, zero, suc, ◌+◌, ◌-◌, ◌*◌, ◌/◌, ◌%◌, ◌^◌, ◌≤◌, ◌<◌, ◌≡◌, refl, sym, ◌∙◌, inl,
  inr, arith, leb, ltb, leb→le, leb→lt, lt→ltb, ltb→lt, ltb→le, le→ltb, if_true, if_false,
  Bool-cases,
}
use mathlib.Core.Path.{subst}
use elib.Mem.{Memory, poison_word, store, write_loop, poison_two, poison_pointer}

-- A byte of the poison.
abbrev IsPoison : ℕ → Type 0
IsPoison b = (j : ℕ) × (j < 8) × (b ≡ poison_word / 2 ^ (8 * j) % 2 ^ 8)

-- The bytes before `i` are poison; the others are those of the memory `m0`.
abbrev pub IsPoisoned : ℕ → Memory → Memory → Type 0
IsPoisoned i m0 m = ((k : ℕ) → k < i → IsPoison (m k)) × ((k : ℕ) → i ≤ k → m k ≡ m0 k)

-- Each byte of a value is poison.
abbrev HasPoison : ℕ → ℕ → Type 0
HasPoison width x = (j : ℕ) → j < width → IsPoison (x / 2 ^ (8 * j) % 2 ^ 8)

store_before : (w i x k : ℕ) (m : Memory) → k < i → store w i x m k ≡ m k
unfolding store
store_before w i x k m h = if_true _ _ (lt→ltb k i h)

store_inside :
    (w i x k : ℕ) (m : Memory) → i ≤ k → k < i + w → store w i x m k ≡ x / 2 ^ (8 * (k - i)) % 2 ^ 8
unfolding store
store_inside w i x k m h t = if_false _ _ (le→ltb k i h) ∙ if_true _ _ (lt→ltb k (i + w) t)

store_after : (w i x k : ℕ) (m : Memory) → i + w ≤ k → store w i x m k ≡ m k
unfolding store
store_after w i x k m h =
    if_false _ _ (le→ltb k i (omega (arith, h))) ∙ if_false _ _ (le→ltb k (i + w) h)

store-IsPoisoned :
    (w x i : ℕ) (m0 m : Memory)
    → HasPoison w x
    → IsPoisoned i m0 m
    → IsPoisoned (i + w) m0 (store w i x m)
store-IsPoisoned w x i m0 m bytes (low, high) = (
  λ k h. elim (Bool-cases (ltb k i)) [
    | inl t ↦ subst IsPoison (sym (store_before w i x k m (ltb→lt k i t))) (low k (ltb→lt k i t))
    | inr t ↦
        subst IsPoison (sym (store_inside w i x k m (ltb→le k i t) h))
          (bytes (k - i) (omega (arith, ltb→le k i t, h)))
  ],
  λ k h. store_after w i x k m h ∙ high k (omega (arith, h)),
)

word-HasPoison : HasPoison 8 poison_word
word-HasPoison j h = (j, h, refl)

-- A loop leaves less than one step to write.
write_loop-IsPoisoned :
    (w : ℕ) (body : ℕ → Memory → Memory) (n : ℕ) (m0 : Memory)
    → 0 < w
    → w ≤ 16
    → n < 2 ^ 63
    → ((i : ℕ) (m : Memory) → IsPoisoned i m0 m → IsPoisoned (i + w) m0 (body i m))
    → (fuel : ℕ) (s : ℕ × Memory) → s.0 ≤ n
    → n ≤ s.0 + fuel
    → IsPoisoned s.0 m0 s.1
    → let r = write_loop w body n fuel s in (r.0 ≤ n) × (n < r.0 + w) × IsPoisoned r.0 m0 r.1
unfolding write_loop
write_loop-IsPoisoned w body n m0 pos small fit step zero (i, m) low enough p =
    (low, omega arith, p)
write_loop-IsPoisoned w body n m0 pos small fit step (suc fuel) (i, m) low enough p =
    let whole : ((i + w) % 2 ^ 64) ≡ i + w = omega arith in
    elim (Bool-cases (leb (i + w) n)) [
      | inl t ↦
          rw (whole, t)
            (write_loop-IsPoisoned w body n m0 pos small fit step fuel (i + w, body i m)
              (leb→le (i + w) n t) (omega (arith, enough, pos)) (step i m p))
      | inr t ↦ rw (whole, t) (low, leb→lt (i + w) n t, p)
    ]

four-HasPoison : HasPoison 4 (poison_word % 2 ^ 32)
four-HasPoison zero h = (0, omega arith, refl)
four-HasPoison (suc zero) h = (1, omega arith, refl)
four-HasPoison (suc (suc zero)) h = (2, omega arith, refl)
four-HasPoison (suc (suc (suc zero))) h = (3, omega arith, refl)
four-HasPoison (suc (suc (suc (suc j)))) h = absurd (omega (arith, h))

two-HasPoison : HasPoison 2 (poison_word % 2 ^ 16)
two-HasPoison zero h = (0, omega arith, refl)
two-HasPoison (suc zero) h = (1, omega arith, refl)
two-HasPoison (suc (suc j)) h = absurd (omega (arith, h))

one-HasPoison : HasPoison 1 (poison_word % 2 ^ 8)
one-HasPoison zero h = (0, omega arith, refl)
one-HasPoison (suc j) h = absurd (omega (arith, h))

poison_two-IsPoisoned :
    (i : ℕ) (m0 m : Memory) → IsPoisoned i m0 m → IsPoisoned (i + 16) m0 (poison_two i m)
unfolding poison_two
poison_two-IsPoisoned i m0 m p =
    subst (λ e. IsPoisoned e m0 (poison_two i m)) (omega arith)
      (store-IsPoisoned 8 poison_word (i + 8) m0 (store 8 i poison_word m) word-HasPoison
        (store-IsPoisoned 8 poison_word i m0 m word-HasPoison p))

-- The loops that store one value in a step.
stores-IsPoisoned :
    (w x n : ℕ) (m0 : Memory)
    → HasPoison w x
    → 0 < w
    → w ≤ 16
    → n < 2 ^ 63
    → (s : ℕ × Memory) → s.0 ≤ n
    → IsPoisoned s.0 m0 s.1
    → let r = write_loop w (λ i. store w i x) n n s in
      (r.0 ≤ n) × (n < r.0 + w) × IsPoisoned r.0 m0 r.1
stores-IsPoisoned w x n m0 bytes pos small fit s low p =
    write_loop-IsPoisoned w (λ i. store w i x) n m0 pos small fit
      (λ i m. store-IsPoisoned w x i m0 m bytes) n s low (omega arith) p

-- The last byte.
last_byte-IsPoisoned :
    (n : ℕ) (m0 : Memory) (s : ℕ × Memory)
    → s.0 ≤ n
    → n < s.0 + 2
    → IsPoisoned s.0 m0 s.1
    → IsPoisoned n m0 (if ltb s.0 n then store 1 s.0 (poison_word % 2 ^ 8) s.1 else s.1)
last_byte-IsPoisoned n m0 s low near p = elim (Bool-cases (ltb s.0 n)) [
  | inl t ↦ rw t (
      subst (λ e. IsPoisoned e m0 (store 1 s.0 (poison_word % 2 ^ 8) s.1))
        (omega (arith, ltb→lt s.0 n t, near))
        (store-IsPoisoned 1 (poison_word % 2 ^ 8) s.0 m0 s.1 one-HasPoison p))
  | inr t ↦ rw t (subst (λ e. IsPoisoned e m0 s.1) (omega (arith, ltb→le s.0 n t, low)) p)
]

-- For n below 2^63, PointerPoison of n bytes makes each of the n bytes one of the bytes of the poison,
-- and keeps every later byte.
pub poison_pointer-IsPoisoned :
    (n : ℕ) (m : Memory) → n < 2 ^ 63 → IsPoisoned n m (poison_pointer n m)
unfolding poison_pointer
poison_pointer-IsPoisoned n m fit =
    let m16 = write_loop 16 poison_two n n (0, m) in
    let m8 = write_loop 8 (λ i. store 8 i poison_word) n n m16 in
    let m4 = write_loop 4 (λ i. store 4 i (poison_word % 2 ^ 32)) n n m8 in
    let m2 = write_loop 2 (λ i. store 2 i (poison_word % 2 ^ 16)) n n m4 in
    let (b16, _, p16) =
      write_loop-IsPoisoned 16 poison_two n m (omega arith) (omega arith) fit
        (λ i. poison_two-IsPoisoned i m) n (0, m) (omega arith) (omega arith)
        ((λ k h. absurd (omega (arith, h))), λ k h. refl) in
    let (b8, _, p8) =
      stores-IsPoisoned 8 poison_word n m word-HasPoison (omega arith) (omega arith) fit m16 b16
        p16 in
    let (b4, _, p4) =
      stores-IsPoisoned 4 (poison_word % 2 ^ 32) n m four-HasPoison (omega arith) (omega arith) fit
        m8 b8 p8 in
    let (b2, near, p2) =
      stores-IsPoisoned 2 (poison_word % 2 ^ 16) n m two-HasPoison (omega arith) (omega arith) fit
        m4 b4 p4 in
    last_byte-IsPoisoned n m m2 b2 near p2
