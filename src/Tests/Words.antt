-- ===== src/Tests/Words.antt =====
-- bits.go and cap.go at concrete words.
use elib.Base.{ℕ, ◌+◌, ◌^◌, ◌≤◌, ◌<◌, ◌≡◌, ◌↔◌, refl, true, some, arith}
use elib.Bits.{n_set_bits, min_log2, foreach_set_bit}
use elib.Bits.Count.{n_set_bits-digit_sum}
use elib.Bits.Count.Bytes.{digit_sum}
use elib.Bits.Scan.{positions, foreach_set_bit-positions}
use elib.Bits.Log.{min_log2_lem}
use elib.Cap.{is_valid, next_resize_cap}
use elib.Cap.Form.{IsSum, is_valid_iff}
use elib.Cap.Growth.{next_resize_cap_lem}
use elib.Tests.Scale.{decimal_scale}

n_set_bits_run : n_set_bits 0xff00ff ≡ 16
unfolding n_set_bits
n_set_bits_run = refl

n_set_bits-digit_sum_example : n_set_bits 0xff00ff ≡ digit_sum 64 0xff00ff
n_set_bits-digit_sum_example = n_set_bits-digit_sum 0xff00ff (omega arith)

foreach_set_bit-positions_example : foreach_set_bit 10 ≡ some (positions 64 0 10)
foreach_set_bit-positions_example = foreach_set_bit-positions 10 (omega arith)

abbrev sixteen : ℕ
sixteen = 16

min_log2_lem_example :
    (min_log2 9 < 64) × (2 ^ min_log2 9 ≤ 9) × (9 < 2 ^ min_log2 9 + 2 ^ min_log2 9)
min_log2_lem_example = min_log2_lem 9 (omega arith) (omega arith)

is_valid_iff_example : (is_valid 24 ≡ true) ↔ IsSum 24
is_valid_iff_example = is_valid_iff 24 (omega arith)

next_resize_cap_lem_example :
    (300 ≤ next_resize_cap decimal_scale 300)
    × (7 ≤ next_resize_cap decimal_scale 300)
    × (next_resize_cap decimal_scale 300 ≤ 2 ^ 31)
    × (is_valid (next_resize_cap decimal_scale 300) ≡ true)
next_resize_cap_lem_example = next_resize_cap_lem decimal_scale 300 (omega arith)
