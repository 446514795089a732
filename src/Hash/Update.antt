-- ===== src/Hash/Update.antt =====
-- Set, Unset, growth and the copy into a table that has grown, of hash.go.
-- The two random words of a new table are an argument; Set has them by the number of growths.
pub mod Marks
pub mod Round
pub mod Later
pub mod Fresh
pub mod Removed
pub mod Sizes
use elib.Base.{
  ℕ, zero, suc, ◌+◌, ◌-◌, ◌*◌, ◌/◌, ◌%◌, ◌^◌, Bool, true, false, Option, some, none, List, [], ◌∷◌,
  Outcome, ok, panic, ◌>>=◌, load, length, set, replicate, ltb, leb, ◌==◌, ◌!=◌, if◌then◌else◌,
  bit_or, bit_xor, out_of_fuel,
}
use elib.Word.{shl}
use elib.Cap.{FloatScale, cap_mod, cap_nil, log2, round, next_unit}
use elib.Vec.{Vec, capacity, cut}
use elib.Hash.Mix.{HashState}
use elib.Hash.{Hash, Client, SearchStats, bit_diff_is_valid, set_bit_diff, is_empty}
use elib.Hash.Search.{Found, count_search, search_key, search_free_index, search_index}

-- `(log2c0 - 1) / 2` in 32 bits, cut to a byte and to 7.
abbrev pub bucket_log2 : ℕ → ℕ
bucket_log2 log2c0 = let l = (log2c0 + 2 ^ 32 - 1) % 2 ^ 32 / 2 % 2 ^ 8 in if ltb 7 l then 7 else l

-- The fields that depend on the capacity, by the exponents of its two powers of two.
unfoldable pub sized_by : ℕ × ℕ → Hash → Hash
sized_by (l0, l1) h =
    let b = bucket_log2 l0 in
    let one_table = record h {
      log2_cap0 = l0 % 2 ^ 8;
      log2_cap1 = 0;
      log2_elts_per_bucket = b;
      limit0 = 2 ^ 32 - 1;
    } in
    let short : Bool = ltb (l1 % 2 ^ 8) b in
    let cap' : ℕ = if short then bit_or (2 ^ l0) (2 ^ b) % cap_mod else h.cap in
    let two_tables = record h {
      cap = cap';
      log2_cap0 = l0 % 2 ^ 8;
      log2_cap1 = if short then b else l1 % 2 ^ 8;
      log2_elts_per_bucket = b;
      limit0 = shl 1 (32 + l0) / cap' % 2 ^ 32;
    } in
    if l1 == cap_nil then one_table else two_tables

unfoldable pub sized : Hash → Hash
sized h = sized_by (log2 h.cap) h

module _ (seed : HashState) where
  unfoldable pub alloc_table : Hash → Hash
  alloc_table h0 =
      let h = sized h0 in
      record h {
        seed = seed;
        bit_diffs = replicate h.cap 0;
        max_bucket_bit_diffs = replicate (h.cap / 2 ^ h.log2_elts_per_bucket) 0;
        n_elts = 0;
      }

  unfoldable pub grow : FloatScale → Hash → Hash
  grow scale h =
      alloc_table (record h { grows = (h.grows + 1) % 2 ^ 64; cap = next_unit scale h.cap 4 3 })

module _ {K S : Type 0} (client : Client K S) where
  open client use {hash_resize}

  -- `h.resizeCopies[n] = …`
  abbrev pub store_copy : ℕ → ℕ × ℕ → Vec (ℕ × ℕ) → Outcome (Vec (ℕ × ℕ))
  store_copy n c v = load v.items n >>= λ _. ok (record v { items = set v.items n c })

  -- The slots of the old table from `src` on; `n` are copied. The result is none when a bucket is full.
  unfoldable pub copy_loop : ℕ → List ℕ → ℕ → Hash → S → Outcome (Option ℕ × Hash)
  copy_loop src [] n h s = ok (some n, h)
  copy_loop src (d ∷ ds) n h s = do
    let skip_slot = copy_loop (src + 1) ds n h s
    let copy_slot : Outcome (Option ℕ × Hash) = do
      (r, h') ← search_index client src h s
      let stored : ℕ → Outcome (Option ℕ × Hash) = λ dst. do
        v ← store_copy n (src, dst) h'.resize_copies
        copy_loop (src + 1) ds (n + 1) (record h' { resize_copies = v }) s
      elim r [ none ↦ ok (none, h') | some dst ↦ stored dst ]
    if bit_diff_is_valid d then copy_slot else skip_slot

  -- A nil slice is one of capacity 0.
  unfoldable pub copy_elts : List ℕ → Hash → S → Outcome (Bool × Hash × S)
  copy_elts bds h s = do
    let made : Vec (ℕ × ℕ) =
        if ltb (capacity h.resize_copies) (length bds)
        then record { items = replicate (length bds) (0, 0); spare = [] }
        else h.resize_copies
    (r, h') ←
        copy_loop 0 bds 0 (record h { copies = (h.copies + 1) % 2 ^ 64; resize_copies = made }) s
    elim r [
      | none ↦ ok (false, h', s)
      | some n ↦
          let v = cut h'.resize_copies n in
          ok (true, record h' { resize_copies = v; n_elts = n }, hash_resize h'.cap v.items s)
    ]

  -- One round of Set at a table with slots: the slot of the key, whether the key was there, and none
  -- when the bucket is full.
  unfoldable pub set_round : K → Hash → S → Outcome (Option (ℕ × Bool) × Hash)
  set_round k h s = do
    (base, f) ← search_key client h s k
    let counted = record h { set_stats = count_search client f h.set_stats }
    let add_key : Outcome (Option (ℕ × Bool) × Hash) = do
      (r, h') ← search_free_index base counted
      elim r [
        | none ↦ ok (none, h')
        | some (_, fi) ↦ do
          h'' ← set_bit_diff (bit_xor base fi) base fi h'
          ok (some (bit_xor base fi, false), record h'' { n_elts = (h''.n_elts + 1) % 2 ^ 64 })
      ]
    if f.hit then ok (some (bit_xor base f.diff, true), counted) else add_key

  module _ (scale : FloatScale) (seeds : ℕ → HashState) where
    unfoldable pub grow_loop : ℕ → List ℕ → Hash → S → Outcome (Hash × S)
    grow_loop zero bds h s = panic out_of_fuel
    grow_loop (suc fuel) bds h s = do
      (copied, h', s') ← copy_elts bds (grow (seeds (h.grows + 1)) scale h) s
      let again = grow_loop fuel bds h' s'
      if copied then ok (h', s') else again

    unfoldable pub set_loop : ℕ → Bool → K → Hash → S → Outcome ((ℕ × Bool) × Hash × S)
    set_loop zero non_empty k h s = panic out_of_fuel
    set_loop (suc fuel) non_empty k h s = do
      (r, h') ← if non_empty then set_round k h s else ok (none, h)
      let grown : Outcome ((ℕ × Bool) × Hash × S) = do
        (h'', s') ← grow_loop fuel h'.bit_diffs h' s
        set_loop fuel true k h'' s'
      elim r [ some found ↦ ok (found, h', s) | none ↦ grown ]

    unfoldable pub set_key : ℕ → K → Hash → S → Outcome ((ℕ × Bool) × Hash × S)
    set_key fuel k h s = set_loop fuel (if is_empty h then false else true) k h s

  unfoldable pub unset_key : K → Hash → S → Outcome ((ℕ × Bool) × Hash)
  unset_key k h s = do
    (base, f) ← search_key client h s k
    let counted = record h { unset_stats = count_search client f h.unset_stats }
    let i = bit_xor base f.diff
    let remove : Outcome ((ℕ × Bool) × Hash) = do
      _ ← load h.bit_diffs i
      ok (
        (i, true),
        record counted {
          bit_diffs = set h.bit_diffs i 0;
          n_elts = (h.n_elts + 2 ^ 64 - 1) % 2 ^ 64;
        },
      )
    if f.hit then remove else ok ((0, false), counted)

  -- Init of the table for a client.
  unfoldable pub init_hash : HashState → ℕ → Hash → S → Hash × S
  init_hash seed cap h s =
      let h' = alloc_table seed (record h { cap = round (cap % cap_mod) 3 }) in
      (h', hash_resize h'.cap h'.resize_copies.items s)
