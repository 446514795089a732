-- ===== src/Heap/FreeList.antt =====
-- freeElt and removeFreeElt of heap.go undo each other.
use elib.Base.{
  false, ℕ, ◌+◌, ◌-◌, ◌%◌, ◌^◌, ◌≤◌, ◌<◌, ◌≡◌, refl, ◌∙◌, ap, arith, Bool, List, [], ◌∷◌, ◌++◌, ok,
  length, take, set, get_or, get_elem?, some, leb, if◌then◌else◌, le→ltb, lt→ltb, lt→leb, ==_refl,
  length-set, length-append, get_elem?-get_or, get_elem?-append_last, get_elem?-set, set-set,
  take-append, set-get_or,
}
use elib.Cap.{FloatScale}
use elib.Vec.{Vec, capacity, validate_index}
use elib.Vec.Validate.{IsClean, Validated, validate-Validated, Validated-read}
use elib.Heap.{Heap, HeapElt, poison, put_elt, put_list, free_elt, remove_free_elt}

get_elem?-set_self {ℓ} :
    {A : Type ℓ} → (xs : List A) (i : ℕ) (a : A) → i < length xs → get_elem? (set xs i a) i ≡ some a
get_elem?-set_self xs i a h =
    get_elem?-set xs i i a h ∙ ap (λ (t : Bool). if t then some a else get_elem? xs i) (==_refl i)

module _ (scale : FloatScale) (ei size : ℕ) (h : Heap) (inside : ei < length h.elts)
    (small : size ≤ h.max_size) (near : size < 2 ^ 29) (fits : capacity h.free ≤ 2 ^ 31)
    (clean : IsClean [] h.free) where
  abbrev list : List ℕ
  list = get_or h.free.items size []

  abbrev elt : HeapElt
  elt = get_or h.elts ei poison

  module _ (short : length list < 2 ^ 32 - 1) (w : Vec (List ℕ))
      (e : validate_index scale [] h.free size ≡ ok (size, w))
      (g : Validated [] h.free (size + 1) w) where
    -- The heap with the block on the list.
    abbrev listed : Heap
    listed =
        put_list (put_elt (record h { free = w }) ei (record elt { free = length list % 2 ^ 32 }))
          size (list ++ ei ∷ [])

    reached : size < length w.items
    reached = omega (arith, g.longer)

    same_list : (s : ℕ) → get_or w.items s [] ≡ get_or h.free.items s []
    same_list = Validated-read [] h.free (size + 1) clean g

    free_elt-listed : free_elt scale ei size h ≡ ok listed
    unfolding free_elt
    free_elt-listed =
        rw
          (
            le→ltb h.max_size size small,
            e,
            get_elem?-get_or h.elts ei poison inside,
            get_elem?-get_or w.items size [] reached,
            same_list size,
          )
          refl

    -- The heap after the block was taken off again.
    abbrev after : Heap
    after =
        record (put_elt (put_list listed size (take (length list) (list ++ ei ∷ []))) ei poison) {
          removed = h.removed ++ ei ∷ [];
        }

    remove_free_elt-listed : remove_free_elt ei size listed ≡ ok after
    unfolding remove_free_elt
    remove_free_elt-listed =
        let elt' : HeapElt = record elt { free = length list % 2 ^ 32 } in
        let grown = list ++ ei ∷ [] in
        let n : length list % 2 ^ 32 ≡ length list = omega arith in
        let l : length grown % 2 ^ 32 ≡ length list + 1 =
          omega (arith, length-append list (ei ∷ [])) in
        let back : length list + 1 - 1 ≡ length list = omega arith in
        let wide : leb (length (set w.items size grown) % 2 ^ 32) size ≡ false =
          lt→leb (length (set w.items size grown) % 2 ^ 32) size
            (omega (arith, length-set w.items size grown, g.longer)) in
        rw
          (
            get_elem?-set_self h.elts ei elt' inside,
            wide,
            get_elem?-set_self w.items size grown reached,
            l,
            n,
            lt→ltb (length list) (length list + 1) (omega arith),
            get_elem?-append_last list ei,
            ==_refl ei,
            back,
            le→ltb (length list) (length list) (omega arith),
          )
          refl

    after-elts : after.elts ≡ set h.elts ei poison
    after-elts = set-set h.elts ei _ poison

    after-free : (s : ℕ) → get_or after.free.items s [] ≡ get_or h.free.items s []
    after-free s =
        rw
          (
            set-set w.items size (list ++ ei ∷ []) (take (length list) (list ++ ei ∷ [])),
            take-append list (ei ∷ []),
            ← same_list size,
            set-get_or w.items size [],
          )
          (same_list s)

  -- A block put on the list of its size, by freeElt, is taken off again by removeFreeElt, for a size
  -- of at most the largest one asked for: both calls succeed, every list of free blocks is then what it
  -- was, the element is poisoned and added to the removed ones, and nothing else of the elements changes.
  pub free_elt-remove_free_elt :
      length list < 2 ^ 32 - 1
      → (h1 h2 : Heap) × (free_elt scale ei size h ≡ ok h1)
        × (remove_free_elt ei size h1 ≡ ok h2)
        × ((s : ℕ) → get_or h2.free.items s [] ≡ get_or h.free.items s [])
        × (h2.elts ≡ set h.elts ei poison)
        × (h2.removed ≡ h.removed ++ ei ∷ [])
  unfolding validate_index
  free_elt-remove_free_elt short =
      let (w, e, g) = called in
      (
        listed short w e g,
        after short w e g,
        free_elt-listed short w e g,
        remove_free_elt-listed short w e g,
        after-free short w e g,
        after-elts short w e g,
        refl,
      )
    where
      called :
          (w : Vec (List ℕ)) × (validate_index scale [] h.free size ≡ ok (size, w))
          × Validated [] h.free (size + 1) w
      called =
          let (w, e, g, c) =
            validate-Validated [] scale h.free (size + 1) (omega arith) (omega arith) fits in
          let a : (size + 1) % 2 ^ 64 ≡ size + 1 = omega arith in
          let b : size + 1 - 1 ≡ size = omega arith in (w, rw a (rw b at e), g)
