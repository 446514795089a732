-- ===== src/Tests/Tables.antt =====
-- Hash tables of eight slots.
use elib.Base.{
  inl, ◌≤◌, ℕ, ◌-◌, ◌^◌, ◌>>=◌, ◌≡◌, refl, ap, arith, true, false, Bool, [], some, Outcome, ok,
  panic, index_out_of_range, replicate, get_or-replicate_self, ◌==◌, ne→==, if◌then◌else◌,
}
use elib.Hash.{bucket_size, Hash, Client, SearchStats, base_index, set_bit_diff}
use elib.Hash.Mix.{HashState, Lanes, mix_pointer, mix_words, blocks_loop, mix_two, mix_one}
use elib.Hash.Mix.Tail.{mix_pointer-words}
use elib.Tests.Scale.{decimal_scale}
use elib.Bits.{min_log2, n_leading_zeros}
use elib.Cap.{next_unit, round, log2, pow2}
use elib.Hash.Search.{
  get, next_index, next_valid_index, next_valid_loop, search_free_index, free_loop, search_key,
  search_base, search_loop,
}
use elib.Hash.Search.First.{IsBounded, Fits, first_hit}
use elib.Hash.Update.{
  set_round, unset_key, set_key, set_loop, grow_loop, grow, alloc_table, sized, sized_by, copy_elts,
  copy_loop,
}
use elib.Hash.Update.Round.{first_free, answer, get-first, Stored}
use elib.Hash.Update.Later.{set_round-get}
use elib.Hash.Update.Fresh.{no_marks-IsBounded, aligned-Fits}
use elib.Hash.Update.Marks.{marked, marked-IsBounded}
use elib.Hash.Update.Removed.{unset_key-get}
use elib.Hash.Update.Sizes.{alloc_table-Fits}

-- The keys are numbers, kept by a function of the slot; a number is its own hash.
abbrev numbers : Client ℕ (ℕ → ℕ)
numbers = record {
  hash_key = λ k _. record { s0 = 0; s1 = k };
  hash_index = λ s _ i. record { s0 = 0; s1 = s i };
  hash_key_equal = λ k s i. s i == k;
  hash_resize = λ _ _ s. s;
}

abbrev no_stats : SearchStats
no_stats = record { calls = 0; searches = 0; compares = 0 }

-- Four buckets of two slots.
abbrev empty_table : Hash
empty_table = record {
  seed = record { s0 = 0; s1 = 0 };
  cap = 8;
  log2_cap0 = 3;
  log2_cap1 = 0;
  log2_elts_per_bucket = 1;
  limit0 = 2 ^ 32 - 1;
  bit_diffs = replicate 8 0;
  max_bucket_bit_diffs = replicate 4 0;
  n_elts = 0;
  resize_copies = record { items = []; spare = [] };
  grows = 0;
  copies = 0;
  get_stats = no_stats;
  set_stats = no_stats;
  unset_stats = no_stats;
}

empty_table-IsBounded : IsBounded empty_table
empty_table-IsBounded = no_marks-IsBounded empty_table (get_or-replicate_self 8 0)

empty_table-Fits : Fits empty_table 5
empty_table-Fits = aligned-Fits empty_table 5 refl (omega arith)

abbrev no_keys : ℕ → ℕ
no_keys i = 0

-- The key 5 in slot 5.
abbrev five : ℕ → ℕ
five i = if 5 == i then 5 else 0

five-Stored : Stored numbers 5 5 no_keys five
five-Stored = (refl, λ j n. ap (λ b. (if b then 5 else 0) == 5) (ne→== 5 j n))

set_round-get_example :
    (h' : Hash) × (set_round numbers 5 empty_table no_keys ≡ ok (some (5, false), h'))
    × IsBounded h'
    × (answer (get numbers 5 h' five) ≡ ok (5, true))
unfolding base_index first_hit first_free
set_round-get_example =
    set_round-get numbers empty_table no_keys five 5 0 empty_table-IsBounded empty_table-Fits
      (omega arith) refl refl five-Stored

get-first_example : answer (get numbers 5 empty_table no_keys) ≡ ok (0, false)
unfolding base_index first_hit
get-first_example =
    get-first numbers empty_table no_keys 5 empty_table-IsBounded empty_table-Fits (omega arith)

-- The key 5 is in slot 5.
abbrev table_of_five : Hash
table_of_five = marked 5 0 empty_table

table_of_five-IsBounded : IsBounded table_of_five
table_of_five-IsBounded =
    marked-IsBounded 5 0 empty_table (omega arith) (omega arith) empty_table-IsBounded

table_of_five-Fits : Fits table_of_five 5
table_of_five-Fits = aligned-Fits table_of_five 5 refl (omega arith)

unset_key-get_example :
    (h' : Hash) × (unset_key numbers 5 table_of_five five ≡ ok ((5, true), h'))
    × IsBounded h'
    × (answer (get numbers 5 h' five) ≡ ok (0, false))
unfolding base_index first_hit
unset_key-get_example =
    unset_key-get numbers table_of_five five 5 0 table_of_five-IsBounded table_of_five-Fits refl
      (λ j n. ap (λ b. (if b then 5 else 0) == 5) (ne→== 5 j n))

abbrev five_state : HashState
five_state = record { s0 = 5; s1 = 0 }

-- Eight slots are two to the third.
alloc_table-Fits_example :
    Fits
      (alloc_table five_state empty_table)
      (base_index (alloc_table five_state empty_table) five_state)
    × (bucket_size (alloc_table five_state empty_table) ≤ 128)
    × IsBounded (alloc_table five_state empty_table)
alloc_table-Fits_example =
    alloc_table-Fits five_state five_state empty_table (inl (3, omega arith, omega arith, refl))
      (omega arith)

-- A table that was never grown: Unset reads a bucket that is not there, and Get does not.
unset_run :
    unset_key numbers 5 (record empty_table { bit_diffs = []; max_bucket_bit_diffs = [] }) no_keys
    ≡ panic index_out_of_range
unfolding unset_key search_key search_base base_index
unset_run = refl

-- The index 2^64 - 1 stands for the start of the table; NextIndex passes the first slot in use.
next_run : next_index table_of_five (2 ^ 64 - 1) ≡ 2 ^ 64 - 1
unfolding next_index next_valid_index next_valid_loop
next_run = refl

abbrev zero_lanes : Lanes
zero_lanes = record { h0 = 0; h1 = 0; h2 = 0; h3 = 0 }

mix_pointer-words_example :
    mix_pointer (λ i. 7) (λ i. 8) (λ i. 9) zero_lanes 12 ≡ (mix_words (λ i. 7) zero_lanes 12).1
mix_pointer-words_example = mix_pointer-words (λ i. 7) (λ i. 8) (λ i. 9) zero_lanes 12 (omega arith)

-- The second word of sixteen bytes is not read: the first is read twice.
second_word_run :
    mix_words (λ i. if i == 0 then 7 else 1) zero_lanes 16
    ≡ mix_words (λ i. if i == 0 then 7 else 2) zero_lanes 16
unfolding mix_words blocks_loop mix_two mix_one
second_word_run = refl

-- Set of a key in a table with no slots makes a table of sixteen.
abbrev summary : Outcome ((ℕ × Bool) × Hash × (ℕ → ℕ)) → Outcome (ℕ × Bool × ℕ × ℕ)
summary m = m >>= λ r. ok (r.0.0, r.0.1, r.1.cap, r.1.n_elts)

set_run :
    summary (
      set_key numbers decimal_scale
        (λ _. record { s0 = 0; s1 = 0 })
        4
        21
        (record empty_table { cap = 0; bit_diffs = []; max_bucket_bit_diffs = [] })
        no_keys)
    ≡ ok (5, false, 16, 1)
unfolding set_key set_loop set_round search_key search_base search_loop search_free_index free_loop
    set_bit_diff grow_loop grow alloc_table sized sized_by copy_elts copy_loop base_index next_unit
    round log2 pow2 min_log2 n_leading_zeros
set_run = refl
