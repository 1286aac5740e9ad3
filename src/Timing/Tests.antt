-- ===== src/Timing/Tests.antt =====
-- Runs of ceell/core/timing.c with a ring of two samples and a clock of 1 MHz.
use ceell.Prelude.{◌+◌, ◌*◌, ◌/◌, ◌%◌, ◌^◌, ◌≡◌, true, none, some, [], ◌∷◌, arith, take}
use ceell.Bytes.{Bytes}
use ceell.Timing.{Timing, timing_init, timing_stop, timing_get_stats}
use ceell.Timing.Store.{IsValid, history, timing_init-IsValid, timing_stop_lem}
use ceell.Timing.Stats.{durations, Answer, timing_get_stats_lem}

abbrev send : Bytes
send = b's' ∷ b'e' ∷ b'n' ∷ b'd' ∷ 0 ∷ []

abbrev start : Timing
start = timing_init 2 1000000

start-IsValid : IsValid 2 1000000 start
start-IsValid = (timing_init-IsValid 2 1000000 (omega arith)).0

-- The counter wraps: 10 cycles from 2 ^ 32 - 4 on end at 6.
timing_stop_lem_example :
    let end_cycle = (4294967292 + 10) % 2 ^ 32 in
    let t' = timing_stop 2 1000000 start (some send) 4294967292 end_cycle in
    (history 2 1000000 t'
      ≡ take 2 (
          record {
            label = some send;
            start_cycle = 4294967292;
            end_cycle = end_cycle;
            duration_us = 10 * 1000000 / 1000000;
          }
          ∷ history 2 1000000 start))
    × IsValid 2 1000000 t'
    × (timing_stop 2 1000000 start none 4294967292 end_cycle ≡ start)
timing_stop_lem_example =
    timing_stop_lem 2 1000000 start send 4294967292 10 start-IsValid (omega arith) (omega arith)
      (omega arith)

abbrev once : Timing
once = timing_stop 2 1000000 start (some send) 5 15

once-IsValid : IsValid 2 1000000 once
once-IsValid =
    (timing_stop_lem 2 1000000 start send 5 10 start-IsValid (omega arith) (omega arith)
      (omega arith)).1

timing_get_stats_lem_example :
    Answer (durations once.sample_count once.samples send) (timing_get_stats once (some send) true)
timing_get_stats_lem_example = timing_get_stats_lem 2 1000000 once send once-IsValid (omega arith)
