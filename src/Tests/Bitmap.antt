-- ===== src/Tests/Bitmap.antt =====
-- Bitmaps on a pool that starts empty.
use elib.Base.{
  ℕ, zero, suc, ◌+◌, ◌^◌, ◌≤◌, ◌<◌, ◌≡◌, refl, Bool, ok, [], ◌∷◌, arith, ◌==◌, bit_and, length,
  get_or, replicate, get_or-replicate_self,
}
use elib.Word.{complement}
use elib.Tests.Scale.{decimal_scale}
use elib.Vec.{reslice, append, last_ref, validate_index}
use elib.Cap.{next_resize_cap, round}
use elib.Word.Digits.{bit}
use elib.Pool.{validate}
use elib.Bitmap.Store.{BitmapPool, Level, no_words, words, validate_words, to_mem}
use elib.Bitmap.Update.{get, set_bit, set2, invert2, unset2, change2, change_word, orx}
use elib.Bitmap.Update.Content.{IsBitmap, IsTidy, slot, digit, Changed, get_lem}
use elib.Bitmap.Update.Inline.{to_one, to_zero, flip}
use elib.Bitmap.Update.Unset.{unset2-Changed}
use elib.Bitmap.Combine.{or, and_notx}
use elib.Bitmap.Combine.Unsigned.{or-pooled}
use elib.Bitmap.Recycle.{level, free, new_slot, put_index, get_index, pool_get_index, validate_slot}
use elib.Bitmap.Recycle.Fresh.{IsFresh}
use elib.Bitmap.Recycle.Sets.{set2-Changed, invert2-Changed}
use elib.Bitmap.Recycle.Stale.{set2-stale}
use elib.Bitmap.Walk.{foreach_set_bit_in}
use elib.Bitmap.Walk.Visit.{members, foreach_set_bit_in-members}

abbrev pub no_bitmaps : BitmapPool
no_bitmaps = record {
  free_indices = [];
  free_bitmap = 0;
  max_len = 0;
  bitmaps = record { items = []; spare = [] };
}

abbrev pub no_extra : ℕ → ℕ
no_extra n = 0

abbrev pub lv : Level
lv = level decimal_scale no_extra 2

no_bitmaps-IsFresh : IsFresh no_bitmaps
no_bitmaps-IsFresh = record {
  none_free = refl;
  unlimited = refl;
  few = omega arith;
  fits = omega arith;
  unused = λ i. refl;
}

no_bitmaps-IsTidy : IsTidy no_bitmaps
no_bitmaps-IsTidy = record { clean = λ j i. refl; sized = λ j. omega arith }

inline_3 : IsBitmap no_bitmaps 3
inline_3 = record { word = omega arith; owned = λ h. absurd (omega arith) }

set2-Changed_example :
    (r : ℕ) × (old : Bool) × (q : BitmapPool) × (set2 decimal_scale no_extra
        (level decimal_scale no_extra (suc 0))
        3
        64
        no_bitmaps
      ≡ ok ((r, old), q))
    × Changed to_one no_bitmaps 3 64 r old q
set2-Changed_example =
    set2-Changed decimal_scale no_extra (omega arith) no_bitmaps no_bitmaps-IsFresh
      no_bitmaps-IsTidy 0 3 64 inline_3 (omega arith)

invert2-Changed_example :
    (r : ℕ) × (old : Bool) × (q : BitmapPool) × (invert2 decimal_scale no_extra
        (level decimal_scale no_extra (suc 0))
        3
        64
        no_bitmaps
      ≡ ok ((r, old), q))
    × Changed flip no_bitmaps 3 64 r old q
invert2-Changed_example =
    invert2-Changed decimal_scale no_extra (omega arith) no_bitmaps no_bitmaps-IsFresh
      no_bitmaps-IsTidy 0 3 64 inline_3 (omega arith)

-- The pool after Set of index 64 in the empty bitmap, and after that bitmap is freed.
abbrev one_bitmap : BitmapPool
one_bitmap = record {
  free_indices = [];
  free_bitmap = 0;
  max_len = 0;
  bitmaps = record {
    items = (record { items = 0 ∷ 1 ∷ []; spare = replicate 6 0 }) ∷ [];
    spare = replicate 7 no_words;
  };
}

abbrev one_freed : BitmapPool
one_freed = record one_bitmap { free_indices = 0 ∷ []; free_bitmap = 1 }

set_bit_run : set_bit decimal_scale no_extra lv 0 64 no_bitmaps ≡ ok (complement 0, one_bitmap)
unfolding set_bit set2 change2 change_word level free put_index get orx to_mem words validate_words
    new_slot get_index pool_get_index validate_slot validate reslice append last_ref validate_index
    next_resize_cap round
set_bit_run = refl

free_run : free decimal_scale no_extra lv (complement 0) one_bitmap ≡ ok (0, one_freed)
unfolding level free put_index get orx words
free_run = refl

one_bitmap-IsTidy : IsTidy one_bitmap
one_bitmap-IsTidy = record { clean = clean; sized = sized }
  where
    clean : (j i : ℕ) → get_or (slot one_bitmap j).spare i 0 ≡ 0
    clean zero i = get_or-replicate_self 6 0 i
    clean (suc j) i = refl

    sized : (j : ℕ) → length (slot one_bitmap j).items + length (slot one_bitmap j).spare ≤ 2 ^ 31
    sized zero = omega arith
    sized (suc j) = omega arith

pooled_0 : IsBitmap one_bitmap (complement 0)
pooled_0 = record { word = omega arith; owned = λ h. omega arith }

get_lem_example : get one_bitmap (complement 0) 64 ≡ ok (digit one_bitmap (complement 0) 64 == 1)
get_lem_example = get_lem one_bitmap (complement 0) 64 pooled_0

unset2-Changed_example :
    (r : ℕ) × (old : Bool) × (q : BitmapPool) × (unset2 (complement 0) 64 one_bitmap
      ≡ ok ((r, old), q))
    × Changed to_zero one_bitmap (complement 0) 64 r old q
unset2-Changed_example =
    unset2-Changed one_bitmap (complement 0) 64 pooled_0 one_bitmap-IsTidy
      (λ h. absurd (omega arith)) (λ h. omega arith)

foreach_set_bit_in-members_example :
    (n : ℕ) × (foreach_set_bit_in one_bitmap (complement 0)
      ≡ ok (members (digit one_bitmap (complement 0)) n 0))
    × ((y : ℕ) → n ≤ y → digit one_bitmap (complement 0) y ≡ 0)
foreach_set_bit_in-members_example =
    foreach_set_bit_in-members one_bitmap (complement 0) pooled_0 small (omega arith)
  where
    small : (j : ℕ) → get_or (slot one_bitmap 0).items j 0 < 2 ^ 64
    small zero = omega arith
    small (suc zero) = omega arith
    small (suc (suc j)) = omega arith

or-pooled_example :
    or decimal_scale no_extra lv (complement 1) (complement 2) no_bitmaps
    ≡ ok (complement (bit_and 1 2), no_bitmaps)
or-pooled_example = or-pooled decimal_scale no_extra lv no_bitmaps 1 2 (omega arith) (omega arith)

new_run : lv.new one_freed ≡ ok (0, one_bitmap)
unfolding level new_slot get_index pool_get_index validate_slot validate reslice and_notx
new_run = refl

set2-stale_example :
    (old : Bool) × (q' : BitmapPool) × (set2 decimal_scale no_extra lv 0 65 one_freed
      ≡ ok ((complement 0, old), q'))
    × (digit q' (complement 0) 64 ≡ 1)
    × (digit one_freed 0 64 ≡ 0)
unfolding bit
set2-stale_example =
    set2-stale decimal_scale no_extra lv one_freed one_bitmap 0 0 65 64 new_run (omega arith)
      (omega arith) (omega arith) (omega arith) (omega arith) (omega arith) (omega arith)
      (omega arith) (omega arith) refl
