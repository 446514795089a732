-- ===== src/Elog/Encoding/Marshal.antt =====
-- MarshalBinary of elog/encoding.go, with the bitmap of types in the pool of bitmap.go.
use elib.Base.{
  ℕ, ◌^◌, ◌<◌, ◌≡◌, refl, sym, ap, ◌∙◌, Bool, true, false, List, [], ◌∷◌, ◌++◌, ◌||◌, Outcome, ok,
  ◌>>=◌, arith, ◌==◌, if◌then◌else◌, Bool-cases, inl, inr, bit_or,
}
use elib.Cap.{FloatScale}
use elib.Word.Bounds.{bit_or-lt}
use elib.Word.Pow.{two_pow-lt}
use elib.Word.Digits.{bit, bit_le, bit-or, bit-pow}
use elib.Bitmap.Store.{BitmapPool, Level}
use elib.Bitmap.Update.{get, orx}
use elib.Bitmap.Update.Single.{inline_get, inline_orx}
use elib.Elog.{Event}
use elib.Elog.Encoding.{Codec, Registry, View, mem, type_table, view_bytes}

-- `typesUsed` and `localTypes`: a type that was met is not added again.
module _ (scale : FloatScale) (extra : ℕ → ℕ) (lv : Level) where
  unfoldable pub local_types : List Event → ℕ → List ℕ → BitmapPool → Outcome (List ℕ × BitmapPool)
  local_types [] used types p = ok (types, p)
  local_types (e ∷ es) used types p =
      let t = e.type_index in
      let met = local_types es used types p in
      let fresh : Outcome (List ℕ × BitmapPool) = do
        (used', p') ← orx scale extra lv used t p
        local_types es used' (types ++ t ∷ []) p'
      in get p used t >>= λ seen. if seen then met else fresh

  -- MarshalBinary, of less than 2^29 bytes: what Validate does past that is not modelled.
  unfoldable pub marshal : Codec → Registry → View → BitmapPool → Outcome (List ℕ × BitmapPool)
  marshal codec reg v p = do
    (types, p') ← local_types v.events 0 [] p
    ok (view_bytes codec reg types v, p')

-- The types fit in an inline bitmap.
abbrev pub AreInline : List Event → Type 0
AreInline [] = Unit
AreInline (e ∷ es) = (e.type_index < 63) × AreInline es

mem-last : (s t : ℕ) (xs : List ℕ) → mem s (xs ++ t ∷ []) ≡ (mem s xs || s == t)
mem-last s t [] = or_false (s == t)
  where
    or_false : (b : Bool) → (b || false) ≡ b
    or_false true = refl
    or_false false = refl
mem-last s t (x ∷ xs) = rw (mem-last s t xs) (or_assoc (s == x) (mem s xs) (s == t))
  where
    or_assoc : (a b c : Bool) → (a || (b || c)) ≡ ((a || b) || c)
    or_assoc true b c = refl
    or_assoc false b c = refl

one_more_bit :
    (w t s : ℕ) (on : Bool) → (bit w s == 1) ≡ on → (bit (bit_or w (2 ^ t)) s == 1) ≡ (on || s == t)
one_more_bit w t s true h = ground (arith, h, bit-or w (2 ^ t) s, bit-pow t s, bit_le w s)
one_more_bit w t s false h = ground (arith, h, bit-or w (2 ^ t) s, bit-pow t s, bit_le w s)

module _ (scale : FloatScale) (extra : ℕ → ℕ) (lv : Level) where
  -- The bitmap and the table have the same types.
  pub local_types-type_table :
      (es : List Event) (used : ℕ) (types : List ℕ) (p : BitmapPool)
      → AreInline es
      → used < 2 ^ 63
      → ((t : ℕ) → (bit used t == 1) ≡ mem t types)
      → local_types scale extra lv es used types p ≡ ok (type_table es types, p)
  unfolding local_types type_table
  local_types-type_table [] used types p a small same = refl
  local_types-type_table (e ∷ es) used types p (lt, a) small same =
      let t = e.type_index in
      let known = inline_get p used t small lt ∙ ap ok (same t) in
      elim (Bool-cases (mem t types)) [
        | inl m ↦ rw (known, m) (local_types-type_table es used types p a small same)
        | inr m ↦
            rw (known, m, inline_orx scale extra lv p used t small lt)
              ((local_types-type_table es (bit_or used (2 ^ t)) (types ++ t ∷ []) p a
                (bit_or-lt 63 used (2 ^ t) small (two_pow-lt lt))
                (λ s. one_more_bit used t s (mem s types) (same s) ∙ sym (mem-last s t types))))
      ]
