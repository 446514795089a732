-- ===== src/Buf/Headers.antt =====
-- hw/buf.go: the offset and the flags of a reference.
use elib.Base.{
  ℕ, zero, suc, ◌+◌, ◌-◌, ◌*◌, ◌/◌, ◌%◌, ◌^◌, ◌<◌, ◌≡◌, refl, ap, sym, ◌∙◌, true, none, some, arith,
  bit_and, bit_or, ◌!=◌, if◌then◌else◌, not, ap₂, ◌≤◌, ne→==,
}
use elib.Word.Mask.{bit_and-mask, and_not-mask}
use elib.Word.Digits.{bit_or_step}
use elib.Buf.{
  RefHeader, Dma, offset, flags, next_valid_flag, next_is_valid, set_flags, next_valid, next_ref_of,
  get_buffer, advance, restore,
}

abbrev pub IsHeader : RefHeader → Type 0
IsHeader r = r.offset_and_flags < 2 ^ 32

pub offset_lem : (r : RefHeader) → IsHeader r → offset r ≡ r.offset_and_flags / 16 * 16
unfolding offset
offset_lem r h = and_not-mask 4 r.offset_and_flags (omega arith) (omega (arith, h))

pub next_is_valid_lem : (r : RefHeader) → next_is_valid r ≡ (r.offset_and_flags % 2 != 0)
unfolding next_is_valid next_valid_flag
next_is_valid_lem r = ap (λ x. x != 0) (bit_and-mask 1 r.offset_and_flags)

bit_or-zero : (n x : ℕ) → x ≤ n → bit_or x 0 ≡ x
bit_or-zero n zero h = refl
bit_or-zero zero (suc x) h = absurd (omega (arith, h))
bit_or-zero (suc n) (suc x) h =
    omega (arith, bit_or_step (suc x) 0, bit_or-zero n (suc x / 2) (omega (arith, h)))

-- Setting the lowest bit.
bit_or-one : (x : ℕ) → bit_or x 1 ≡ x / 2 * 2 + 1
bit_or-one x = omega (arith, bit_or_step x 1, bit_or-zero (x / 2) (x / 2) (omega arith))

pub set_flags-IsHeader : (r : RefHeader) → IsHeader r → IsHeader (set_flags next_valid r)
unfolding set_flags
set_flags-IsHeader r h = omega (arith, bit_or-one r.offset_and_flags, h)

-- The flag does not touch the offset.
pub offset-set_flags : (r : RefHeader) → IsHeader r → offset (set_flags next_valid r) ≡ offset r
unfolding set_flags
offset-set_flags r h = omega (
  arith,
  offset_lem r h,
  offset_lem (set_flags next_valid r) (set_flags-IsHeader r h),
  bit_or-one r.offset_and_flags,
)

pub next_is_valid-set_flags : (r : RefHeader) → next_is_valid (set_flags next_valid r) ≡ true
unfolding set_flags
next_is_valid-set_flags r =
    next_is_valid_lem (set_flags next_valid r)
    ∙ ap not (ne→== _ 0 (λ e. omega (arith, e, bit_or-one r.offset_and_flags)))

-- NextRef follows the flag that NextIsValid reads.
pub next_ref_of_lem :
    (dma : Dma) (r : RefHeader)
    → next_ref_of dma r ≡ (if next_is_valid r then some ((get_buffer dma r).next_ref) else none)
unfolding next_ref_of flags
next_ref_of_lem dma r =
    let e : bit_and (bit_and r.offset_and_flags 0xf) next_valid ≡ r.offset_and_flags % 2 =
      omega (
        arith,
        bit_and-mask 4 r.offset_and_flags,
        bit_and-mask 1 (bit_and r.offset_and_flags 0xf),
      ) in
    ap (λ x. if x != 0 then some ((get_buffer dma r).next_ref) else none) e
    ∙ ap (λ b. if b then some ((get_buffer dma r).next_ref) else none) (sym (next_is_valid_lem r))

-- Advance by `i` bytes and then Restore to the offset that Advance returned: for a reference of fewer
-- than 2^16 bytes the offset of the bytes is as before, and their number is not: it stays less by `i`.
pub restore-advance :
    (r : RefHeader) (i : ℕ)
    → r.data_offset < 2 ^ 16
    → i ≤ r.data_len
    → r.data_len < 2 ^ 16
    → restore (advance i r).0 (advance i r).1 ≡ record r { data_len = r.data_len - i }
unfolding restore advance
restore-advance r i low le fit =
    ap₂ (λ o l. record r { data_offset = o; data_len = l }) (omega (arith, low))
      (omega (arith, low, le, fit))
