-- ===== src/Mctree/Pairs.antt =====
-- mctree/pair.go: keys, and a hash table that gives each key a place in a vector of pairs.
-- A slice of pairs that reaches past the length of the vector panics; what the spare capacity holds is not
-- modelled.
use elib.Base.{
  leb, panic, index_out_of_range, ℕ, ◌+◌, ◌-◌, ◌*◌, ◌/◌, ◌%◌, ◌^◌, Bool, true, false, ◌&&◌, List,
  [], ◌∷◌, ◌++◌, Outcome, ok, ◌>>=◌, load, length, take, drop, set, get_or, replicate, bit_and, ltb,
  ◌==◌, ◌!=◌, if◌then◌else◌,
}
use elib.Cap.{FloatScale}
use elib.Hash.{Hash, Client}
use elib.Hash.Mix.{HashState, hash_uint64}
use elib.Hash.Search.{get}
use elib.Hash.Update.{set_key, unset_key, init_hash}
use elib.Pool.{FreeBits, Pool, get_index, put_index}

abbrev pub word_bits : ℕ
word_bits = 32

-- A key k matches if k & mask == value for all pairs.
pub record Pair : Type 0 where
  pub mask : ℕ
  pub value : ℕ

unfoldable pub equal_pair : Pair → Pair → Bool
equal_pair a b = (a.value == b.value) && (a.mask == b.mask)

abbrev pub poisoned_pair : Pair
poisoned_pair = record { mask = 0; value = 2 ^ 32 - 1 }

unfoldable pub set_pair : ℕ → ℕ → Pair
set_pair value mask = record { mask = mask % 2 ^ 32; value = value % 2 ^ 32 }

unfoldable pub poison_pairs : List Pair → List Pair
poison_pairs [] = []
poison_pairs (p ∷ ps) = poisoned_pair ∷ poison_pairs ps

abbrev pub slice_of : ℕ → ℕ → List Pair → List Pair
slice_of i n ps = take n (drop i ps)

unfoldable pub get_pairs_for_index : ℕ → ℕ → List Pair → List Pair
get_pairs_for_index i n ps = slice_of (i * n) n ps

unfoldable pub equal_pairs : List Pair → List Pair → Bool
equal_pairs [] [] = true
equal_pairs (a ∷ az) (b ∷ bs) =
    let rest = equal_pairs az bs in if equal_pair a b then rest else false
equal_pairs _ _ = false

abbrev pub pair_offset_invalid : ℕ
pair_offset_invalid = 2 ^ 32 - 1

pub record PairHash : Type 0 where
  pub pair_offset_by_hash_index : List ℕ
  pub n_pairs_per_key : ℕ
  pub pairs : List Pair

-- `h.pairs[o : o+n]`, on 32-bit offsets.
unfoldable pub get_pairs_for_offset : PairHash → ℕ → Outcome (List Pair)
get_pairs_for_offset h o =
    let end = (o + h.n_pairs_per_key) % 2 ^ 32 in
    if leb o end && leb end (length h.pairs)
    then ok (slice_of o (end - o) h.pairs)
    else panic index_out_of_range

unfoldable pub get_pairs_for_hash_index : PairHash → ℕ → Outcome (List Pair)
get_pairs_for_hash_index h i = load h.pair_offset_by_hash_index i >>= get_pairs_for_offset h

-- The calls that the table makes of its client give a value: of a panic they give no pairs.
abbrev pub pairs_or_none : Outcome (List Pair) → List Pair
pairs_or_none (ok ps) = ps
pairs_or_none (panic e) = []

-- The word and the bit of a bit of a key.
unfoldable pub bit_index : ℕ → ℕ × ℕ
bit_index bit = (bit / word_bits, 2 ^ (bit % word_bits))

unfoldable pub is_masked : PairHash → ℕ → ℕ → Outcome Bool
is_masked h o bit = do
  let (b0, b1) = bit_index bit
  p ← load h.pairs ((o + b0) % 2 ^ 32)
  ok (bit_and p.mask b1 != 0)

-- Keys of more than two pairs are hashed as memory, which is a parameter.
module _ (hash_memory : List Pair → HashState → HashState) where
  unfoldable pub hash_pairs : List Pair → HashState → HashState
  hash_pairs (p ∷ []) s = hash_uint64 s p.value p.mask 0 0
  hash_pairs (p ∷ q ∷ []) s = hash_uint64 s p.value p.mask q.value q.mask
  hash_pairs ps s = hash_memory ps s

  unfoldable pub move_offsets : List (ℕ × ℕ) → List ℕ → List ℕ → List ℕ
  move_offsets [] old new = new
  move_offsets ((src, dst) ∷ rs) old new =
      move_offsets rs old (set new dst (get_or old src pair_offset_invalid))

  unfoldable pub resize_pairs : ℕ → List (ℕ × ℕ) → PairHash → PairHash
  resize_pairs cap rs h = record h {
    pair_offset_by_hash_index =
        move_offsets rs h.pair_offset_by_hash_index (replicate cap pair_offset_invalid);
  }

  unfoldable pub pair_client : Client (List Pair) PairHash
  pair_client = record {
    hash_key = hash_pairs;
    hash_index = λ h s i. hash_pairs (pairs_or_none (get_pairs_for_hash_index h i)) s;
    hash_key_equal = λ k h i. equal_pairs k (pairs_or_none (get_pairs_for_hash_index h i));
    hash_resize = resize_pairs;
  }

  unfoldable pub init_pairs : HashState → ℕ → ℕ → Hash → PairHash → Hash × PairHash
  init_pairs seed n cap0 h ph =
      let cap : ℕ = if ltb cap0 32 then 32 else cap0 in
      let (h', ph') = init_hash pair_client seed cap h ph in
      (h', record ph' { n_pairs_per_key = n })

  unfoldable pub get_pair : List Pair → Hash → PairHash → Outcome ((ℕ × Bool) × Hash)
  get_pair p h ph = do
    ((i, found), h') ← get pair_client p h ph
    let known = load ph.pair_offset_by_hash_index i >>= λ o. ok ((o, true), h')
    if found then known else ok ((0, false), h')

  module _ (bits : FreeBits) (scale : FloatScale) (seeds : ℕ → HashState) (fuel : ℕ) where
    open bits use {State}

    pub record PairTable : Type 0 where
      pub hash : Hash
      pub places : PairHash
      pub pairs_pool : Pool bits
      pub bits_state : State

    -- `copy(h.get_pairs_for_offset(o), p)`
    abbrev pub copy_key : ℕ → List Pair → PairHash → PairHash
    copy_key o p ph =
        let k = take ph.n_pairs_per_key p in
        record ph { pairs = take o ph.pairs ++ k ++ drop (o + length k) ph.pairs }

    -- The vector of pairs is made long enough for the last pair of the key; new pairs are zero.
    abbrev pub grown_pairs : ℕ → List Pair → List Pair
    grown_pairs n ps = ps ++ replicate (n - length ps) (record { mask = 0; value = 0 })

    unfoldable pub set_pairs : List Pair → PairTable → Outcome ((ℕ × Bool) × PairTable)
    set_pairs p t = do
      ((i, exists), h, ph) ← set_key pair_client scale seeds fuel p t.hash t.places
      let known : Outcome ((ℕ × Bool) × PairTable) = do
        o ← load ph.pair_offset_by_hash_index i
        ok ((o, true), record t { hash = h; places = copy_key o p ph })
      let fresh : Outcome ((ℕ × Bool) × PairTable) = do
        (pi, pool, s) ← get_index bits (length ph.pairs) t.pairs_pool t.bits_state
        let o : ℕ = pi * ph.n_pairs_per_key % 2 ^ 32
        _ ← load ph.pair_offset_by_hash_index i
        let ph' = record ph {
          pairs = grown_pairs (o + ph.n_pairs_per_key) ph.pairs;
          pair_offset_by_hash_index = set ph.pair_offset_by_hash_index i o;
        }
        ok (
          (o, false),
          record { hash = h; places = copy_key o p ph'; pairs_pool = pool; bits_state = s },
        )
      if exists then known else fresh

    unfoldable pub unset_pairs : List Pair → PairTable → Outcome ((ℕ × Bool) × PairTable)
    unset_pairs p t = do
      ((i, found), h) ← unset_key pair_client p t.hash t.places
      let ph = t.places
      let gone : Outcome ((ℕ × Bool) × PairTable) = do
        o ← load ph.pair_offset_by_hash_index i
        (_, pool, s) ← put_index bits (o / ph.n_pairs_per_key) t.pairs_pool t.bits_state
        let ph' = record ph {
          pair_offset_by_hash_index = set ph.pair_offset_by_hash_index i pair_offset_invalid;
        }
        ok ((o, true), record { hash = h; places = ph'; pairs_pool = pool; bits_state = s })
      if found then gone else ok ((0, false), record t { hash = h })
