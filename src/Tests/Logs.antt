-- ===== src/Tests/Logs.antt =====
-- Logs of a few events.
use elib.Base.{
  ok, ℕ, zero, suc, ◌+◌, ◌-◌, ◌<◌, ◌≤◌, ◌%◌, get_or, ◌^◌, ◌≡◌, refl, arith, true, min, List, [],
  ◌∷◌, ◌++◌, map, take, drop, length, some,
}
use elib.Elog.{Event, Buffer, zero_event, enable, new_buffer, disable_after, new_view}
use elib.Tests.Scale.{decimal_scale}
use elib.Elog.Ring.{IsLogOf}
use elib.Elog.History.{add_all, kept_event, new_view-add_all, disable_after-IsLogOf}

abbrev event_at : ℕ → Event
event_at t = record { timestamp = t; type_index = 3; track = 0; bytes = [] }

abbrev three_events : List Event
three_events = event_at 1 ∷ event_at 2 ∷ event_at 3 ∷ []

new_view-add_all_example :
    (b0 b b' : Buffer) × (new_buffer 0 8 ≡ ok b0)
    × (enable true b0 ≡ some b)
    × (add_all three_events b ≡ some (ok b'))
    × (new_view decimal_scale b'
        ≡ some (ok (drop (length three_events - 2 ^ b.log2_len) (map kept_event three_events), b')))
new_view-add_all_example =
    new_view-add_all decimal_scale three_events 0 8 (omega arith) (omega arith)

-- A buffer of two events that holds one.
abbrev one_logged : Buffer
one_logged = record {
  events = event_at 1 ∷ zero_event ∷ [];
  index = 1;
  disable_index = 2 ^ 63 - 1;
  log2_len = 1;
  cpu_start_time = 0;
}

one_logged-IsLogOf : IsLogOf (event_at 1 ∷ []) one_logged
one_logged-IsLogOf = (refl, omega arith, refl, at)
  where
    at :
        (j : ℕ)
        → j < 1
        → 1 ≤ j + 2
        → get_or one_logged.events (j % 2) zero_event ≡ get_or (event_at 1 ∷ []) j zero_event
    at zero lt le = refl
    at (suc j) lt le = absurd (omega (arith, lt))

disable_after-IsLogOf_example :
    (b' b'' : Buffer) × (disable_after 5 one_logged ≡ some b')
    × (add_all three_events b' ≡ some (ok b''))
    × IsLogOf ((event_at 1 ∷ []) ++ take (min 5 (2 ^ 0)) (map kept_event three_events)) b''
disable_after-IsLogOf_example =
    disable_after-IsLogOf three_events (event_at 1 ∷ []) one_logged 5 one_logged-IsLogOf
      (omega arith)
