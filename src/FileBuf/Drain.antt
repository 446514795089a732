-- ===== src/FileBuf/Drain.antt =====
-- iomux/filebuf.go: what was given to Write is written in the end.
use mathlib.Core.List.{append_assoc, append-nil}
use elib.Base.{
  ℕ, suc, ◌-◌, ◌≤◌, ◌<◌, ◌≡◌, refl, sym, ap, ◌∙◌, Bool, true, false, Option, none, some, List, [],
  ◌∷◌, ◌++◌, length, take, ltb, if◌then◌else◌, if_true, if_false, Bool-cases, inl, inr,
  length-append, length-take, arith, ltb→le, ltb→lt, le→ltb, Outcome, ok, ◌>>=◌,
}
use elib.FileBuf.{FileBuf, WriteResult, wrote, write_again, write_ready, ask, written}
use elib.FileBuf.Queue.{written_lem}

no_bytes : (l : List ℕ) → length l ≤ 0 → l ≡ []
no_bytes [] h = refl
no_bytes (x ∷ l) h = absurd (omega (arith, h))

open_file :
    (r : WriteResult) (s : FileBuf) (fd : ℕ)
    → s.fd ≡ some fd
    → write_ready r s ≡ (if ltb 0 (length s.tx_buffer.items) then ask r s else ok (false, [], s))
unfolding write_ready
open_file r s fd e =
    let at : Option ℕ → Outcome (Bool × List ℕ × FileBuf) = λ f. elim f [
      | none ↦ ok (false, [], s)
      | some d ↦ if ltb 0 (length s.tx_buffer.items) then ask r s else ok (false, [], s)
    ] in
    ap at e

module _ (takes : List ℕ → ℕ) where
  -- What the system returns: a number of bytes that it took of the buffer, or that it can take none now.
  answer : Bool → FileBuf → WriteResult
  answer ready s = if ready then wrote (takes s.tx_buffer.items) else write_again

  -- WriteReady called again and again, and all the bytes that the system took.
  unfoldable pub rounds : List Bool → FileBuf → Outcome (List ℕ × FileBuf)
  unfolding answer
  rounds [] s = ok ([], s)
  rounds (ready ∷ later) s = do
    (_, taken, s') ← write_ready (answer ready s) s
    (more, s'') ← rounds later s'
    ok (taken ++ more, s'')

  abbrev pub times_ready : List Bool → ℕ
  times_ready [] = 0
  times_ready (true ∷ later) = suc (times_ready later)
  times_ready (false ∷ later) = times_ready later

  abbrev one_if : Bool → ℕ
  one_if true = 1
  one_if false = 0

  module _ (takes_some : (l : List ℕ) → 0 < length l → (0 < takes l) × (takes l ≤ length l)) where
    round :
        (ready : Bool) (s : FileBuf) (fd : ℕ)
        → s.fd ≡ some fd
        → (e : Bool) × (taken : List ℕ) × (s' : FileBuf) × (write_ready (answer ready s) s
            ≡ ok (e, taken, s'))
          × (s'.fd ≡ some fd)
          × (taken ++ s'.tx_buffer.items ≡ s.tx_buffer.items)
          × (length s'.tx_buffer.items ≤ length s.tx_buffer.items - one_if ready)
    unfolding answer ask written
    round true s fd e =
        let n = takes s.tx_buffer.items in
        elim (Bool-cases (ltb 0 (length s.tx_buffer.items))) [
          | inl t ↦
              let (pos, fit) =
                takes_some s.tx_buffer.items (ltb→lt 0 (length s.tx_buffer.items) t) in
              (
                false,
                take n s.tx_buffer.items,
                written n s,
                open_file (wrote n) s fd e
                    ∙ if_true _ _ t
                    ∙ if_false _ _ (le→ltb (length s.tx_buffer.items) n fit),
                e,
                (written_lem n s fit).0,
                omega (
                  arith,
                  ap length ((written_lem n s fit).0),
                  length-append (take n s.tx_buffer.items) (written n s).tx_buffer.items,
                  length-take n s.tx_buffer.items,
                  pos,
                  fit,
                ),
              )
          | inr t ↦ (
            false,
            [],
            s,
            open_file (wrote n) s fd e ∙ if_false _ _ t,
            e,
            refl,
            omega (arith, ltb→le 0 (length s.tx_buffer.items) t),
          )
        ]
    round false s fd e = (
      false,
      [],
      s,
      open_file write_again s fd e ∙ elim (Bool-cases (ltb 0 (length s.tx_buffer.items))) [
        | inl t ↦ if_true _ _ t
        | inr t ↦ if_false _ _ t
      ],
      e,
      refl,
      omega arith,
    )

    rounds_lem :
        (readies : List Bool) (s : FileBuf) (fd : ℕ)
        → s.fd ≡ some fd
        → (sent : List ℕ) × (s' : FileBuf) × (rounds readies s ≡ ok (sent, s'))
          × (sent ++ s'.tx_buffer.items ≡ s.tx_buffer.items)
          × (length s'.tx_buffer.items ≤ length s.tx_buffer.items - times_ready readies)
    unfolding rounds
    rounds_lem [] s fd e = ([], s, refl, refl, omega arith)
    rounds_lem (ready ∷ later) s fd e =
        let (x, taken, s1, g, e1, left, less) = round ready s fd e in
        let (more, s2, g', left', less') = rounds_lem later s1 fd e1 in
        (
          taken ++ more,
          s2,
          rw (g, g') refl,
          append_assoc taken more s2.tx_buffer.items ∙ ap (λ l. taken ++ l) left' ∙ left,
          counted ready later (length s2.tx_buffer.items) (length s1.tx_buffer.items)
              (length s.tx_buffer.items) less less',
        )
      where
        counted :
            (ready : Bool) (later : List Bool) (c b a : ℕ)
            → b ≤ a - one_if ready
            → c ≤ b - times_ready later
            → c ≤ a - times_ready (ready ∷ later)
        counted true later c b a p q = omega (arith, p, q)
        counted false later c b a p q = omega (arith, p, q)

    -- The file is open, and the system, whenever it can write, takes at least one byte of those it is
    -- given and no more than there are. If WriteReady is called again and again, and the system can write
    -- at least as often as there were bytes in the buffer, then all of them are written, in order, and
    -- the buffer is empty.
    pub rounds-drained :
        (readies : List Bool) (s : FileBuf) (fd : ℕ)
        → s.fd ≡ some fd
        → length s.tx_buffer.items ≤ times_ready readies
        → (s' : FileBuf) × (rounds readies s ≡ ok (s.tx_buffer.items, s'))
          × (s'.tx_buffer.items ≡ [])
    rounds-drained readies s fd e enough =
        let (sent, s', g, left, less) = rounds_lem readies s fd e in
        let empty = no_bytes s'.tx_buffer.items (omega (arith, less, enough)) in
        (
          s',
          g ∙ ap (λ l. ok (l, s')) (sym (append-nil sent) ∙ ap (λ l. sent ++ l) (sym empty) ∙ left),
          empty,
        )
