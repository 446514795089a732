-- ===== src/Hash.antt =====
-- hash.go: a hash table of slots. The keys are kept by the client, under the slots' indices; a slot
-- holds 0, or 1 plus the difference of its index from the base index of its key.
pub mod Mix
pub mod Search
pub mod Update
use elib.Base.{
  ℕ, zero, suc, ◌+◌, ◌-◌, ◌*◌, ◌/◌, ◌%◌, ◌^◌, Bool, true, false, Option, some, none, List, [], ◌∷◌,
  Outcome, ok, panic, ◌>>=◌, load, length, set, bit_and, bit_xor, ltb, leb, ◌==◌, ◌!=◌,
  if◌then◌else◌,
}
use elib.Vec.{Vec}
use elib.Hash.Mix.{HashState}

-- Counts of calls of a kind, of the slots that they passed and of the keys that they compared.
pub record SearchStats : Type 0 where
  pub calls : ℕ
  pub searches : ℕ
  pub compares : ℕ

pub record Hash : Type 0 where
  pub seed : HashState
  pub cap : ℕ
  pub log2_cap0 : ℕ
  pub log2_cap1 : ℕ
  pub log2_elts_per_bucket : ℕ
  pub limit0 : ℕ
  pub bit_diffs : List ℕ
  pub max_bucket_bit_diffs : List ℕ
  pub n_elts : ℕ
  -- Sources and destinations.
  pub resize_copies : Vec (ℕ × ℕ)
  pub grows : ℕ
  pub copies : ℕ
  pub get_stats : SearchStats
  pub set_stats : SearchStats
  pub unset_stats : SearchStats

-- Hasher and HasherKey: the keys, and the client's own state `S`.
pub record Client (K S : Type 0) : Type 0 where
  pub hash_key : K → HashState → HashState
  pub hash_index : S → HashState → ℕ → HashState
  pub hash_key_equal : K → S → ℕ → Bool
  pub hash_resize : ℕ → List (ℕ × ℕ) → S → S

abbrev pub bit_diff_is_valid : ℕ → Bool
bit_diff_is_valid d = d != 0

abbrev pub match_diff : ℕ → ℕ → Bool
match_diff d diff = diff + 1 == d

-- `1 << h.log2EltsPerBucket`, with a byte for the count.
abbrev pub bucket_size : Hash → ℕ
bucket_size h = 2 ^ h.log2_elts_per_bucket

abbrev pub bucket_index : Hash → ℕ → ℕ
bucket_index h base = base / 2 ^ h.log2_elts_per_bucket

-- `h.bitDiffs[i].set(h, baseIndex, diff)`
unfoldable pub set_bit_diff : ℕ → ℕ → ℕ → Hash → Outcome Hash
set_bit_diff i base diff h = do
  let bd = (1 + diff) % 2 ^ 8
  let bi = bucket_index h base
  _ ← load h.bit_diffs i
  largest ← load h.max_bucket_bit_diffs bi
  ok (record h {
    bit_diffs = set h.bit_diffs i bd;
    max_bucket_bit_diffs =
        if ltb largest bd then set h.max_bucket_bit_diffs bi bd else h.max_bucket_bit_diffs;
  })

abbrev pub cap_mask : ℕ → ℕ
cap_mask log2_cap = (2 ^ log2_cap % 2 ^ 64 + 2 ^ 64 - 1) % 2 ^ 64

-- The high half of the first word.
abbrev pub limit : HashState → ℕ
limit s = s.s0 / 2 ^ 32

abbrev pub offset : HashState → ℕ
offset s = s.s1

unfoldable pub base_index : Hash → HashState → ℕ
base_index h s =
    if ltb h.limit0 (limit s)
    then (bit_and (offset s) (cap_mask h.log2_cap1) + 2 ^ h.log2_cap0 % 2 ^ 64) % 2 ^ 64
    else bit_and (offset s) (cap_mask h.log2_cap0)

module _ {K S : Type 0} (client : Client K S) where
  open client use {hash_key, hash_index}

  abbrev pub base_index_for_key : Hash → K → ℕ
  base_index_for_key h k = base_index h (hash_key k h.seed)

  abbrev pub base_index_for_index : Hash → S → ℕ → ℕ
  base_index_for_index h s i = base_index h (hash_index s h.seed i)

abbrev pub is_empty : Hash → Bool
is_empty h = length h.bit_diffs == 0

abbrev pub clear_slots : List ℕ → List ℕ
clear_slots [] = []
clear_slots (d ∷ ds) = 0 ∷ clear_slots ds

unfoldable pub clear : Hash → Hash
clear h = record h {
  bit_diffs = clear_slots h.bit_diffs;
  max_bucket_bit_diffs = clear_slots h.max_bucket_bit_diffs;
  n_elts = 0;
}

-- IsFree
unfoldable pub is_free_slot : Hash → ℕ → Outcome Bool
is_free_slot h i = load h.bit_diffs i >>= λ d. ok (d == 0)
