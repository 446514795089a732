-- ===== src/Parse/Pending.antt =====
-- doRead and read of parse/parse.go against the bytes that the input still has to give.
use elib.Base.{
  ℕ, ◌+◌, Bool, true, false, List, [], ◌∷◌, ◌++◌, ◌⊎◌, inl, inr, Option, some, none, length, take,
  drop, leb, if◌then◌else◌,
}
use elib.Parse.{Chunk, Fault, Input, Run, done, fail, unexpected_eof, add_chunk}

-- What the reads to come will return: none is made after the end was seen.
abbrev pub stream : List Chunk → List ℕ
stream [] = []
stream (c ∷ cs) = c.bytes ++ (if c.is_eof then [] else stream cs)

abbrev pub reads : Bool → Option (List Chunk) → List ℕ
reads saw none = []
reads saw (some cs) = if saw then [] else stream cs

abbrev pub pending : Input → List ℕ
pending input = drop input.index input.buf ++ reads input.saw_end input.reader

-- The result of a call and what is then pending.
abbrev pub observe : {A : Type 0} → Run A → (Fault ⊎ A) × List ℕ
observe (done a input) = (inr a, pending input)
observe (fail e input) = (inl e, pending input)

-- doRead as it looks to a caller that sees nothing of the buffer.
pub ideal_read : ℕ → Bool → List ℕ → (Fault ⊎ Option (List ℕ)) × List ℕ
ideal_read n must p =
    if leb n (length p)
    then (inr (some (take n p)), drop n p)
    else ((if must then inl unexpected_eof else inr none), p)

-- The reads that are left, and one more.
rounds : Bool → Option (List Chunk) → ℕ
rounds true r = 1
rounds false none = 2
rounds false (some cs) = 2 + length cs

-- The state that a read leaves.
read_to : Option (List Chunk) → Input → Input
read_to none input = record input { saw_end = true }
read_to (some []) input = add_chunk (record { bytes = []; is_eof = true }) [] input
read_to (some (c ∷ cs)) input = add_chunk c cs input
