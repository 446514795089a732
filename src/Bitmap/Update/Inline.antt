-- ===== src/Bitmap/Update/Inline.antt =====
-- The word operations of the updates, and updates of inline bitmaps.
use elib.Base.{
  ℕ, ◌-◌, ◌^◌, ◌≤◌, ◌<◌, ◌≡◌, refl, arith, false, bit_and, bit_or, bit_xor, ltb, ◌==◌, ◌!=◌,
  if◌then◌else◌, Bool-cases, inl, inr, ltb→lt, ltb→le, ne→==,
}
use elib.Word.{complement, and_not, shl}
use elib.Word.Bounds.{bit_or-lt, bit_xor-lt, bit_and-lt}
use elib.Word.Digits.{bit, bit_le, bit_high, bit-or, bit-xor, bit-and, bit-pow, bit-complement}
use elib.Word.Pow.{two_pow-lt}
use elib.Bitmap.Store.{BitmapPool}
use elib.Bitmap.Update.Content.{Changed, ChangesDigit, inline_lt, mask_test, shl-one}

abbrev pub to_one : ℕ → ℕ
to_one d = 1

abbrev pub to_zero : ℕ → ℕ
to_zero d = 0

abbrev pub flip : ℕ → ℕ
flip d = 1 - d

pub or-ChangesDigit : ChangesDigit bit_or to_one
or-ChangesDigit = record {
  changes = λ w k j h g. ground (arith, bit-or w (2 ^ k) j, bit-pow k j, bit_le w j);
  within = λ n w k h p q. bit_or-lt n w (2 ^ k) p (two_pow-lt q);
}

pub xor-ChangesDigit : ChangesDigit bit_xor flip
xor-ChangesDigit = record {
  changes = λ w k j h g. ground (arith, bit-xor w (2 ^ k) j, bit-pow k j, bit_le w j, bit_le w k);
  within = λ n w k h p q. bit_xor-lt n w (2 ^ k) p (two_pow-lt q);
}

pub and_not-ChangesDigit : ChangesDigit and_not to_zero
and_not-ChangesDigit = record {
  changes = λ w k j h g. ground (
    arith,
    bit-and w (complement (2 ^ k)) j,
    bit-complement 64 (2 ^ k) j (two_pow-lt h),
    bit-pow k j,
    bit_le w j,
  );
  within = λ n w k h p q. bit_and-lt n w _ p;
}

-- An update of an inline bitmap below bit 63.
module _ {op : ℕ → ℕ → ℕ} {f : ℕ → ℕ} (o : ChangesDigit op f) (p : BitmapPool) (b x : ℕ)
    (small : b < 2 ^ 63) where
  inline-digit :
      (n y : ℕ)
      → n ≤ 64
      → b < 2 ^ n
      → x < n
      → bit (op b (2 ^ x)) y ≡ (if x == y then f (bit b x) else bit b y)
  inline-digit n y m h k = elim (Bool-cases (ltb y 64)) [
    | inl near ↦ o.changes b x y (omega arith) (ltb→lt _ _ near)
    | inr far ↦
        let out : 64 ≤ y = ltb→le _ _ far in
        let other : (x == y) ≡ false = ne→== x y (λ e. omega arith) in
        rw (
          other,
          bit_high 63 b y small (omega arith),
          bit_high n (op b (2 ^ x)) y (o.within n b x m h k) (omega arith),
        )
  ]

  pub change-inline : x < 63 → Changed f p b x (op b (shl 1 x)) (bit_and b (shl 1 x) != 0) p
  change-inline h =
      let m : shl 1 x ≡ 2 ^ x = shl-one x (omega arith) in
      let within : op b (2 ^ x) < 2 ^ 63 = o.within 63 b x (omega arith) small h in
      rw m (record {
        bitmap = record { word = omega arith; owned = λ k. absurd (omega arith) };
        old_value = rw (inline_lt b small) (rw m at (mask_test b x (omega arith)));
        content = λ y.
            rw (inline_lt b small, inline_lt (op b (2 ^ x)) within)
              (inline-digit 63 y (omega arith) small h);
        kept = λ c i n. i;
        others = λ c i n y. refl;
        tidy = λ t. t;
      })
