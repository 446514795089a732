-- ===== src/Buf/Walks.antt =====
-- hw/buf.go: ChainLen, ChainSlice and validateTotalLen walk the whole chain.
use mathlib.Core.List.{append_assoc, append-nil}
use elib.Base.{
  ◌⊎◌, inl, inr, ℕ, zero, suc, ◌+◌, ◌%◌, ◌^◌, ◌<◌, ◌≤◌, ◌≡◌, refl, ap, sym, ◌∙◌, true, false, none,
  some, arith, List, [], ◌∷◌, ◌++◌, ok, length, length-append, Bool-cases, ltb, ltb→lt,
}
use elib.Buf.{
  RefHeader, Dma, next_ref_of, chain_len, chain_slice, validate_total_len, data_slice, data_start,
  read_bytes,
}

-- The references of a chain, the first one given.
pub data Chain (dma : Dma) : RefHeader → List RefHeader → Type 0 where
  last : {r : RefHeader} → next_ref_of dma r ≡ none → Chain dma r (r ∷ [])
  link :
      {r r' : RefHeader} {rs : List RefHeader}
      → next_ref_of dma r ≡ some r'
      → Chain dma r' rs
      → Chain dma r (r ∷ rs)

abbrev pub total_len : List RefHeader → ℕ
total_len [] = 0
total_len (r ∷ rs) = r.data_len + total_len rs

abbrev pub all_bytes : Dma → List RefHeader → List ℕ
all_bytes dma [] = []
all_bytes dma (r ∷ rs) = data_slice dma r ++ all_bytes dma rs

length-read_bytes : (bytes : ℕ → ℕ) (i n : ℕ) → length (read_bytes bytes i n) ≡ n
unfolding read_bytes
length-read_bytes bytes i zero = refl
length-read_bytes bytes i (suc n) = ap suc (length-read_bytes bytes (suc i) n)

pub length-all_bytes : (dma : Dma) (rs : List RefHeader) → length (all_bytes dma rs) ≡ total_len rs
unfolding data_slice
length-all_bytes dma [] = refl
length-all_bytes dma (r ∷ rs) = omega (
  arith,
  length-append (data_slice dma r) (all_bytes dma rs),
  length-read_bytes dma.bytes (data_start r) r.data_len,
  length-all_bytes dma rs,
)

-- A chain has a reference.
Chain-pos : (dma : Dma) (r : RefHeader) (rs : List RefHeader) → Chain dma r rs → 0 < length rs
Chain-pos dma r _ (last e) = omega arith
Chain-pos dma r _ (link e c) = omega arith

pub chain_len-total :
    (dma : Dma) (r : RefHeader) (rs : List RefHeader)
    → Chain dma r rs
    → (fuel l : ℕ) → length rs ≤ fuel
    → l + total_len rs < 2 ^ 64
    → chain_len dma fuel r l ≡ ok (l + total_len rs)
unfolding chain_len
chain_len-total dma r rs c zero l h fit = absurd (omega (arith, Chain-pos dma r rs c, h))
chain_len-total dma r _ (last e) (suc fuel) l h fit = rw (e, chain_len) (ap ok (omega (arith, fit)))
chain_len-total dma r _ (link {r'} {rs} e c) (suc fuel) l h fit =
    let m : (l + r.data_len) % 2 ^ 64 ≡ l + r.data_len = omega (arith, fit) in
    rw (e, chain_len, m)
      (chain_len-total dma r' rs c fuel (l + r.data_len) (omega (arith, h)) (omega (arith, fit))
        ∙ ap ok (omega arith))

chain_slice-all_bytes :
    (dma : Dma) (r : RefHeader) (rs : List RefHeader)
    → Chain dma r rs
    → (fuel : ℕ) (b : List ℕ) → length rs ≤ fuel
    → chain_slice dma fuel r b ≡ ok (b ++ all_bytes dma rs)
unfolding chain_slice
chain_slice-all_bytes dma r rs c zero b h = absurd (omega (arith, Chain-pos dma r rs c, h))
chain_slice-all_bytes dma r _ (last e) (suc fuel) b h =
    rw (e, chain_slice) (ap (λ m. ok (b ++ m)) (sym (append-nil (data_slice dma r))))
chain_slice-all_bytes dma r _ (link {r'} {rs} e c) (suc fuel) b h =
    rw (e, chain_slice)
      (chain_slice-all_bytes dma r' rs c fuel (b ++ data_slice dma r) (omega (arith, h))
        ∙ ap ok (append_assoc b (data_slice dma r) (all_bytes dma rs)))

-- A chain of n references whose lengths add up to less than 2^64, walked with n rounds of fuel or more:
-- ChainSlice returns the bytes of all its references in order, and ChainLen how many they are.
pub chain_slice-chain_len :
    (dma : Dma) (r : RefHeader) (rs : List RefHeader) (fuel : ℕ)
    → Chain dma r rs
    → length rs ≤ fuel
    → total_len rs < 2 ^ 64
    → (chain_slice dma fuel r [] ≡ ok (all_bytes dma rs))
      × (chain_len dma fuel r 0 ≡ ok (length (all_bytes dma rs)))
chain_slice-chain_len dma r rs fuel c h fit = (
  chain_slice-all_bytes dma r rs c fuel [] h,
  chain_len-total dma r rs c fuel 0 h (omega (arith, fit))
      ∙ ap ok (omega (arith, length-all_bytes dma rs)),
)

-- validateTotalLen ends early only on a chain that is too long.
pub validate_total_len-total :
    (dma : Dma) (want : ℕ) (r : RefHeader) (rs : List RefHeader)
    → Chain dma r rs
    → (fuel l : ℕ) → length rs ≤ fuel
    → l + total_len rs < 2 ^ 64
    → (validate_total_len dma want fuel r l ≡ ok (l + total_len rs, true))
      ⊎ ((k : ℕ) × (validate_total_len dma want fuel r l ≡ ok (k, false))
          × (want < l + total_len rs))
unfolding validate_total_len
validate_total_len-total dma want r rs c zero l h fit =
    absurd (omega (arith, Chain-pos dma r rs c, h))
validate_total_len-total dma want r _ (last e) (suc fuel) l h fit =
    inl (rw (e, validate_total_len) (ap (λ n. ok (n, true)) (omega (arith, fit))))
validate_total_len-total dma want r _ (link {r'} {rs} e c) (suc fuel) l h fit =
    let m : (l + r.data_len) % 2 ^ 64 ≡ l + r.data_len = omega (arith, fit) in
    elim (Bool-cases (ltb want (l + r.data_len))) [
      | inl t ↦ inr (
        l + r.data_len,
        rw (e, validate_total_len, m, t) (ap (λ n. ok (n, false)) m),
        omega (arith, ltb→lt want (l + r.data_len) t),
      )
      | inr t ↦
          elim (validate_total_len-total dma want r' rs c fuel (l + r.data_len) (omega (arith, h))
            (omega (arith, fit))) [
              | inl g ↦ inl (
                  rw (e, validate_total_len, m, t)
                    (ap (λ n. validate_total_len dma want fuel r' n) m
                      ∙ g
                      ∙ ap (λ n. ok (n, true)) (omega arith)))
              | inr (k, g, big) ↦ inr (
                k,
                rw (e, validate_total_len, m, t)
                    (ap (λ n. validate_total_len dma want fuel r' n) m ∙ g),
                omega (arith, big),
              )
            ]
    ]
