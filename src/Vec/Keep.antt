-- ===== src/Vec/Keep.antt =====
-- What a longer vector keeps, and what it brings in.
use mathlib.Core.List.{append-nil}
use elib.Base.{
  ℕ, ◌+◌, ◌-◌, ◌%◌, ◌^◌, ◌≤◌, ◌<◌, ◌≡◌, refl, ◌∙◌, ap, arith, max, List, [], ◌++◌, ok, length, take,
  drop, replicate, get_or, leb, le→leb, take-append-drop, if◌then◌else◌, length-append, length-take,
  length-replicate, get_or-take, get_or-drop, get_or-pad, get_or-append_left, get_or-append_right,
  get_or-default, take_all,
}
use elib.Vec.{Vec, cells, capacity, cut, reslice, last_ref, copied}

module _ {ℓ} {A : Type ℓ} (zero_value : A) where
  -- Nothing but the zero value lies past the length.
  abbrev pub IsClean : Vec A → Type ℓ
  IsClean v = (i : ℕ) → get_or v.spare i zero_value ≡ zero_value

  -- The vector after a call that makes it at least `l` long.
  pub record Validated (v : Vec A) (l : ℕ) (v' : Vec A) : Type ℓ where
    pub longer : length v'.items ≡ max (length v.items) l
    pub kept :
        (i : ℕ) → i < length v.items → get_or v'.items i zero_value ≡ get_or v.items i zero_value
    pub exposed :
        (i : ℕ)
        → length v.items ≤ i
        → i < l
        → get_or v'.items i zero_value ≡ (
            if leb l (capacity v)
            then get_or v.spare (i - length v.items) zero_value
            else zero_value)
    pub clean : IsClean v → IsClean v'

  pub cut-Validated :
      (v : Vec A) (l : ℕ) → length v.items ≤ l → l ≤ capacity v → Validated v l (cut v l)
  cut-Validated v l h p = record {
    longer = omega (arith, length-take l (cells v), length-append v.items v.spare);
    kept = λ i q.
        get_or-take l (cells v) i zero_value (omega arith)
        ∙ get_or-append_left v.items v.spare i zero_value q;
    exposed = λ i q r. ground (
      arith,
      get_or-take l (cells v) i zero_value r,
      get_or-append_right v.items v.spare i zero_value q,
    );
    clean = λ c i.
        get_or-drop l (cells v) i zero_value
        ∙ get_or-append_right v.items v.spare (l + i) zero_value (omega arith)
        ∙ c (l + i - length v.items);
  }

  -- The copy that the slow path makes, cut to the new length.
  abbrev pub moved : Vec A → ℕ → ℕ → Vec A
  moved v n l = cut (record { items = copied zero_value v n; spare = [] }) l

  copied-pad :
      (v : Vec A) (n : ℕ)
      → length v.items ≤ n
      → copied zero_value v n ++ [] ≡ v.items ++ replicate (n - length v.items) zero_value
  copied-pad v n h =
      append-nil _
      ∙ ap (λ (t : List A). t ++ replicate (n - length v.items) zero_value) (take_all n v.items h)

  pub moved-Validated : (v : Vec A) (n l : ℕ) → l ≤ n → capacity v < l → Validated v l (moved v n l)
  moved-Validated v n l h p =
      let q = v.items ++ replicate (n - length v.items) zero_value in
      let size : length q ≡ n = omega (
        arith,
        length-append v.items (replicate (n - length v.items) zero_value),
        length-replicate (n - length v.items) zero_value,
      ) in
      let read = λ (i : ℕ). get_or-pad v.items (n - length v.items) zero_value i in
      rw (copied-pad v n (omega arith)) (record {
        longer = omega (arith, length-take l q);
        kept = λ i r. get_or-take l q i zero_value (omega arith) ∙ read i;
        exposed = λ i r s.
            ground (
              arith,
              get_or-take l q i zero_value s,
              read i,
              get_or-default v.items i zero_value r,
            );
        clean = λ c i.
            get_or-drop l q i zero_value
            ∙ read (l + i)
            ∙ get_or-default v.items (l + i) zero_value (omega arith);
      })

  pub short-Validated : (v : Vec A) (l : ℕ) → l ≤ length v.items → Validated v l v
  short-Validated v l h = record {
    longer = omega arith;
    kept = λ i p. refl;
    exposed = λ i p q. absurd (omega arith);
    clean = λ c. c;
  }

  pub last_ref-ok :
      (v : Vec A) (l : ℕ) → 0 < l → l < 2 ^ 32 → l ≤ length v.items → last_ref v l ≡ ok (l - 1, v)
  unfolding last_ref
  last_ref-ok v l p q h =
      let e : (l + 2 ^ 32 - 1) % 2 ^ 32 ≡ l - 1 = omega arith in rw e (ground arith)

  pub reslice-ok : (v : Vec A) (l : ℕ) → l ≤ capacity v → reslice v l ≡ ok (cut v l)
  unfolding reslice
  reslice-ok v l h = rw (le→leb l (capacity v) h)

  cells-cut : (v : Vec A) (l : ℕ) → cells (cut v l) ≡ cells v
  cells-cut v l = take-append-drop l (cells v)

  pub cut-cut : (v : Vec A) (l : ℕ) → cut (cut v l) l ≡ cut v l
  cut-cut v l = rw (cells-cut v l)

  pub capacity-cut : (v : Vec A) (l : ℕ) → capacity (cut v l) ≡ capacity v
  capacity-cut v l = omega (
    arith,
    ap length (cells-cut v l),
    length-append (take l (cells v)) (drop l (cells v)),
    length-append v.items v.spare,
  )
