-- ===== src/Parse/Builtins/Maps.antt =====
-- NewStringMap of parse/builtins.go.
use elib.Base.{
  ℕ, ◌+◌, ◌≡◌, refl, sym, ◌∙◌, ap, Bool-cases, Option, none, some, List, [], ◌∷◌, length, ltb, inl,
  inr, if◌then◌else◌,
}
use elib.Parse.Scan.{same_bytes}
use elib.Parse.Builtins.{StringMap, find, set_string, add_strings, new_string_map}

abbrev pub or_else : Option ℕ → Option ℕ → Option ℕ
or_else (some i) o = some i
or_else none o = o

-- The last index of a text in a list that begins at an index; the empty text has none.
pub last_index : ℕ → List ℕ → List (List ℕ) → Option ℕ
last_index i text [] = none
last_index i text (v ∷ a) =
    or_else (last_index (i + 1) text a)
      (if ltb 0 (length v) then (if same_bytes text v then some i else none) else none)

or_else_assoc : (a b c : Option ℕ) → or_else (or_else a b) c ≡ or_else a (or_else b c)
or_else_assoc (some i) b c = refl
or_else_assoc none b c = refl

find-set_string :
    (i : ℕ) (text v : List ℕ) (m : StringMap)
    → find text (if ltb 0 (length v) then set_string v i m else m)
      ≡ or_else
          (if ltb 0 (length v) then (if same_bytes text v then some i else none) else none)
          (find text m)
unfolding set_string
find-set_string i text v m = elim (Bool-cases (ltb 0 (length v))) [
  | inl e ↦ elim (Bool-cases (same_bytes text v)) [
    | inl e' ↦ rw (e, e') refl
    | inr e' ↦ rw (e, e') refl
  ]
  | inr e ↦ rw e refl
]

find-add_strings :
    (i : ℕ) (text : List ℕ) (a : List (List ℕ)) (m : StringMap)
    → find text (add_strings i a m) ≡ or_else (last_index i text a) (find text m)
unfolding add_strings last_index
find-add_strings i text [] m = refl
find-add_strings i text (v ∷ a) m =
    find-add_strings (i + 1) text a (if ltb 0 (length v) then set_string v i m else m)
    ∙ ap (or_else (last_index (i + 1) text a)) (find-set_string i text v m)
    ∙ sym (or_else_assoc (last_index (i + 1) text a) _ (find text m))

or_else-none : (a : Option ℕ) → or_else a none ≡ a
or_else-none (some i) = refl
or_else-none none = refl

-- NewStringMap of a list of texts maps each text to the last index at which the list has it, and
-- holds no other text; the empty text is not in the map.
pub find-new_string_map :
    (text : List ℕ) (a : List (List ℕ)) → find text (new_string_map a) ≡ last_index 0 text a
unfolding new_string_map
find-new_string_map text a = find-add_strings 0 text a [] ∙ or_else-none (last_index 0 text a)
