-- ===== src/Safe/Watchdog.antt =====
-- When the watchdog triggers the safe state.
use ceell.Prelude.{ℕ, ◌+◌, ◌^◌, ◌<◌, ◌≤◌, ◌≡◌, true, [], arith, if◌then◌else◌, ltb}
use ceell.Prelude.Int.{pos}
use ceell.Safe.{
  SafeState, WatchdogState, comm_failure, safe_state_trigger, watchdog_feed, wdt_round,
}

-- Up to the uptime 2 ^ 31 ms, a round of an enabled watchdog that was fed at `fed` triggers the safe
-- state exactly if more than the timeout has passed since then.
pub wdt_round_lem :
    (fed now timeout : ℕ) (w : WatchdogState) (s : SafeState)
    → w.wdt_enabled ≡ true
    → w.wdt_timeout ≡ pos timeout
    → fed ≤ now
    → fed < 2 ^ 31
    → wdt_round now (watchdog_feed fed w) s
      ≡ (if ltb (fed + timeout) now then safe_state_trigger s comm_failure else ([], s))
unfolding wdt_round watchdog_feed
wdt_round_lem fed now timeout w s on t le small = ground arith

-- From the uptime 2 ^ 31 ms on (24 days) the feed time no longer fits the `int32_t` that keeps it: a
-- round right after a feed triggers the safe state, whatever the timeout.
pub wdt_false_alarm :
    (now timeout : ℕ) (w : WatchdogState) (s : SafeState)
    → w.wdt_enabled ≡ true
    → w.wdt_timeout ≡ pos timeout
    → timeout < 2 ^ 31
    → 2 ^ 31 ≤ now
    → wdt_round now (watchdog_feed now w) s ≡ safe_state_trigger s comm_failure
unfolding wdt_round watchdog_feed
wdt_false_alarm now timeout w s on t small le = ground arith
