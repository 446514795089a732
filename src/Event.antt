-- ===== src/Event.antt =====
-- event/event.go: events that wait for their times, in a pool and a Fibonacci heap.
-- The state of the pool's free bitmap goes through the calls. An actor is a value with a time; EventAction is
-- not run: the actors whose turn it is are collected, as AdvanceAdd does.
pub mod Leak
use elib.Base.{
  ℕ, zero, suc, ◌+◌, ◌-◌, ◌%◌, ◌^◌, Bool, true, false, Option, none, some, List, [], ◌∷◌, ◌++◌,
  Outcome, ok, panic, out_of_fuel, ◌>>=◌, load, length, set, get_or, ltb, ◌==◌, if◌then◌else◌,
}
use elib.Cap.{FloatScale}
use elib.Vec.{Vec}
use elib.Pool.{FreeBits, DataPool, get_data_index, put_data_index}
use elib.FibHeap.{FibHeap}
use elib.FibHeap
use elib.FibHeap.Delete.{del}
use elib.FibHeap.Min.{Order, less, equal, greater, min}

module _ (bits : FreeBits) (scale : FloatScale) {A : Type 0} (nil : A) (event_time : A → ℕ) where
  open bits use {State}

  pub record EventPool : Type 0 where
    pub pool : DataPool bits scale nil
    pub fibheap : FibHeap
    pub bits_state : State

  -- The difference of the times as a 64-bit int.
  unfoldable pub compare_events : List A → ℕ → ℕ → Order
  compare_events events i j =
      let d : ℕ =
        (event_time (get_or events i nil) + 2 ^ 64 - event_time (get_or events j nil)) % 2 ^ 64 in
      if d == 0 then equal else if ltb d (2 ^ 63) then greater else less

  unfoldable pub add_event : A → EventPool → Outcome (ℕ × EventPool)
  add_event e p = do
    (ei, d, s) ← get_data_index bits scale nil p.pool p.bits_state
    _ ← load d.items.items ei
    f ← FibHeap.add scale ei p.fibheap
    let items = record (d.items) { items = set d.items.items ei e }
    ok (ei, record { pool = record d { items = items }; fibheap = f; bits_state = s })

  unfoldable pub del_event : ℕ → EventPool → Outcome EventPool
  del_event ei p = do
    f ← del ei p.fibheap
    (_, d, s) ← put_data_index bits scale nil ei p.pool p.bits_state
    ok (record { pool = d; fibheap = f; bits_state = s })

  -- A round for each event in the pool and one to stop.
  unfoldable pub advance_loop : ℕ → ℕ → EventPool → List A → Outcome (List A × EventPool)
  advance_loop zero t p iv = panic out_of_fuel
  advance_loop (suc fuel) t p iv = do
    let events = p.pool.items.items
    (ei, valid, f) ← min (compare_events events) p.fibheap
    let p1 = record p { fibheap = f }
    let step : Outcome (List A × EventPool) = do
      e ← load events ei
      let due : Outcome (List A × EventPool) = do
        f' ← del ei f
        advance_loop fuel t (record p { fibheap = f' }) (iv ++ e ∷ [])
      if ltb t (event_time e) then ok (iv, p1) else due
    if valid then step else ok (iv, p1)

  unfoldable pub advance_add : ℕ → EventPool → List A → Outcome (List A × EventPool)
  advance_add t p iv = advance_loop (suc (length p.pool.items.items)) t p iv

  unfoldable pub next_time : EventPool → Outcome (Option ℕ × EventPool)
  next_time p = do
    let events = p.pool.items.items
    (ei, valid, f) ← min (compare_events events) p.fibheap
    let p1 = record p { fibheap = f }
    let found : Outcome (Option ℕ × EventPool) =
        load events ei >>= λ e. ok (some (event_time e), p1)
    if valid then found else ok (none, p1)
