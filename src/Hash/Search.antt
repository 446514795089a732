-- ===== src/Hash/Search.antt =====
-- The searches of hash.go: Get, the search for a free slot, and the walks over the slots in use.
pub mod First
use elib.Base.{
  ℕ, zero, suc, ◌+◌, ◌-◌, ◌*◌, ◌/◌, ◌%◌, ◌^◌, Bool, true, false, Option, some, none, List, [], ◌∷◌,
  Outcome, ok, panic, ◌>>=◌, load, length, set, bit_and, bit_xor, ltb, leb, ◌==◌, ◌!=◌,
  if◌then◌else◌, hash_empty, drop,
}
use elib.Hash.Mix.{HashState}
use elib.Hash.{
  Hash, Client, SearchStats, bit_diff_is_valid, match_diff, bucket_size, bucket_index, set_bit_diff,
  base_index, base_index_for_key, base_index_for_index, is_empty,
}

-- Where a search ended: whether the last slot matched, its difference, and the keys compared.
pub record Found : Type 0 where
  pub hit : Bool
  pub diff : ℕ
  pub compared : ℕ

module _ {K S : Type 0} (client : Client K S) where
  open client use {hash_key_equal}

  -- The loop of searchBase over the differences that are left.
  unfoldable pub search_loop : Hash → S → K → ℕ → ℕ → ℕ → ℕ → ℕ → Outcome Found
  search_loop h s k base largest zero diff compared =
      ok (record { hit = false; diff = diff; compared = compared })
  search_loop h s k base largest (suc left) diff compared = do
    bd ← load h.bit_diffs (bit_xor base diff)
    let stop : Outcome Found = ok (record { hit = false; diff = diff; compared = compared })
    let next = search_loop h s k base largest left (diff + 1)
    let compare_key : Outcome Found =
        if hash_key_equal k s (bit_xor base diff)
        then ok (record { hit = true; diff = diff; compared = compared + 1 })
        else next (compared + 1)
    if match_diff bd diff
        then compare_key
        else if leb largest (diff + 1)
        then stop
        else next compared

  abbrev pub count_search : Found → SearchStats → SearchStats
  count_search f st = record {
    calls = st.calls + 1;
    searches = st.searches + f.diff;
    compares = st.compares + f.compared;
  }

  unfoldable pub search_base : Hash → S → K → ℕ → Outcome Found
  search_base h s k base = do
    largest ← load h.max_bucket_bit_diffs (bucket_index h base)
    search_loop h s k base largest (bucket_size h) 0 0

  -- searchKey: the base index is returned with what was found.
  unfoldable pub search_key : Hash → S → K → Outcome (ℕ × Found)
  search_key h s k = do
    let base = base_index_for_key client h k
    f ← search_base h s k base
    ok (base, f)

  unfoldable pub get : K → Hash → S → Outcome ((ℕ × Bool) × Hash)
  get k h s = do
    let search : Outcome ((ℕ × Bool) × Hash) = do
      (base, f) ← search_key h s k
      ok (
        (if f.hit then bit_xor base f.diff else 0, f.hit),
        record h { get_stats = count_search f h.get_stats },
      )
    if is_empty h then ok ((0, false), h) else search

-- The loop of searchFreeIndex: the slot found is marked.
unfoldable pub free_loop : Hash → ℕ → ℕ → ℕ → Outcome (Option (ℕ × ℕ) × Hash)
free_loop h base zero diff = ok (none, h)
free_loop h base (suc left) diff = do
  bd ← load h.bit_diffs (bit_xor base diff)
  let next = free_loop h base left (diff + 1)
  let take_slot : Outcome (Option (ℕ × ℕ) × Hash) = do
    h' ← set_bit_diff (bit_xor base diff) base diff h
    ok (some (bit_xor base diff, diff), h')
  if bit_diff_is_valid bd then next else take_slot

unfoldable pub search_free_index : ℕ → Hash → Outcome (Option (ℕ × ℕ) × Hash)
search_free_index base h = free_loop h base (bucket_size h) 0

module _ {K S : Type 0} (client : Client K S) where
  unfoldable pub search_index : ℕ → Hash → S → Outcome (Option ℕ × Hash)
  search_index ki h s = do
    (r, h') ← search_free_index (base_index_for_index client h s ki) h
    elim r [ none ↦ ok (none, h') | some (i, _) ↦ ok (some i, h') ]

-- The calls of the function, in order: the indices of the slots in use from `i` on.
unfoldable pub foreach_slot : ℕ → List ℕ → List ℕ
foreach_slot i [] = []
foreach_slot i (d ∷ ds) =
    let rest = foreach_slot (i + 1) ds in if bit_diff_is_valid d then i ∷ rest else rest

-- The slot after `nth` slots in use; the slots are those from `i` on.
unfoldable pub next_valid_loop : ℕ → ℕ → List ℕ → ℕ
next_valid_loop i nth [] = 2 ^ 64 - 1
next_valid_loop i nth (d ∷ ds) =
    let rest = next_valid_loop (i + 1) (nth - 1) ds in
    let skip_slot = next_valid_loop (i + 1) nth ds in
    if bit_diff_is_valid d then (if nth == 0 then i else rest) else skip_slot

unfoldable pub next_valid_index : Hash → ℕ → ℕ → ℕ
next_valid_index h i nth =
    let start : ℕ = if i == 2 ^ 64 - 1 then 0 else i in
    next_valid_loop start nth (drop start h.bit_diffs)

unfoldable pub next_index : Hash → ℕ → ℕ
next_index h i = next_valid_index h i 1

-- `intn` is Intn of the package rand.
unfoldable pub rand_index : (ℕ → ℕ) → Hash → Outcome ℕ
rand_index intn h =
    if h.n_elts == 0 then panic hash_empty else ok (next_valid_index h (2 ^ 64 - 1) (intn h.n_elts))
