-- ===== src/Bitmap/Recycle.antt =====
-- Slots of the pool of bitmaps: taking, freeing and copying them (pool.go on the pool of bitmaps,
-- gentemplate_pool_bitmap.go, and new, Dup and Free of bitmap.go).
pub mod Fresh
pub mod Sets
pub mod Stale
use elib.Base.{
  ℕ, zero, suc, ◌+◌, ◌-◌, ◌%◌, ◌^◌, Bool, not, ◌&&◌, true, false, List, [], ◌∷◌, ◌++◌, Outcome, ok,
  panic, index_out_of_range, pool_too_large, out_of_fuel, ◌>>=◌, load, length, take, replicate, min,
  leb, ltb, ◌!=◌, if◌then◌else◌,
}
use elib.Word.{complement}
use elib.Cap.{FloatScale, next_resize_cap}
use elib.Vec.{Vec, cut, capacity, reslice, copied}
use elib.Pool.{validate}
use elib.Bitmap.Store.{BitmapPool, Level, no_words, is_pool_index, words, put_words, validate_words}
use elib.Bitmap.Update.{get, orx}
use elib.Bitmap.Combine.{and_notx}

module _ (scale : FloatScale) (extra : ℕ → ℕ) where
  -- Get first free pool index if available.
  unfoldable pub pool_get_index : Level → ℕ → BitmapPool → Outcome (ℕ × BitmapPool)
  pool_get_index lv max p = do
    let l = length p.free_indices
    let taken : Outcome (ℕ × BitmapPool) = do
      i ← load p.free_indices (l - 1)
      let p1 = record p { free_indices = take (l - 1) p.free_indices }
      (fb, p2) ← and_notx scale extra lv p1.free_bitmap i p1
      ok (i, record p2 { free_bitmap = fb })
    (i, p') ← if l != 0 then taken else ok (max, p)
    if p'.max_len != 0 && leb p'.max_len i then panic pool_too_large else ok (i, p')

  unfoldable pub validate_slot : ℕ → BitmapPool → Outcome BitmapPool
  validate_slot i p = do v ← validate scale no_words i p.bitmaps; ok (record p { bitmaps = v })

  unfoldable pub get_index : Level → BitmapPool → Outcome (ℕ × BitmapPool)
  get_index lv p = do
    let l = length p.bitmaps.items
    (i, p') ← pool_get_index lv l p
    if leb l i then (validate_slot i p' >>= λ p''. ok (i, p'')) else ok (i, p')

  -- `new` of bitmap.go
  unfoldable pub new_slot : Level → BitmapPool → Outcome (ℕ × BitmapPool)
  new_slot lv p = do (bi, p') ← get_index lv p; p'' ← validate_slot bi p'; ok (bi, p'')

  -- Put (free) given pool index.
  unfoldable pub put_index : Level → ℕ → BitmapPool → Outcome (Bool × BitmapPool)
  put_index lv i p = do
    free ← get p p.free_bitmap i
    let freed : Outcome (Bool × BitmapPool) = do
      let p1 = record p { free_indices = p.free_indices ++ (i % 2 ^ 32) ∷ [] }
      (fb, p2) ← orx scale extra lv p1.free_bitmap i p1
      ok (true, record p2 { free_bitmap = fb })
    if not free then freed else ok (false, p)

  -- The two operations, nested at most `n` deep.
  unfoldable pub level : ℕ → Level
  level zero = record { new = λ p. panic out_of_fuel; put_index = λ i p. panic out_of_fuel }
  level (suc n) = let lv = level n in record { new = new_slot lv; put_index = put_index lv }

  -- Dup copies given bitmap
  unfoldable pub dup : Level → ℕ → BitmapPool → Outcome (ℕ × BitmapPool)
  dup lv b p =
      let copy : Outcome (ℕ × BitmapPool) = do
        (bi, p1) ← lv.new p
        v ← words p1 (complement b)
        let l = length v.items
        p2 ← validate_words scale bi ((l + 2 ^ 64 - 1) % 2 ^ 64) p1
        w ← words p2 bi
        w' ← reslice w l
        -- `copy` into a slice of the same length.
        ok (complement bi, put_words p2 bi (record w' { items = v.items }))
      in if is_pool_index b then copy else ok (b, p)

  -- Free bitmap so it can be reused later.  Returns zero bitmap.
  unfoldable pub free : Level → ℕ → BitmapPool → Outcome (ℕ × BitmapPool)
  free lv b p =
      if is_pool_index b
      then (lv.put_index (complement b) p >>= λ (_, p'). ok (0, p'))
      else ok (0, p)
