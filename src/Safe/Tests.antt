-- ===== src/Safe/Tests.antt =====
-- Runs of ceell/core/safe_state.c and ceell/core/watchdog.c.
use ceell.Prelude.{◌+◌, ◌≡◌, refl, true, [], ◌∷◌, arith, inl, if◌then◌else◌, ltb}
use ceell.Prelude.Int.{pos}
use ceell.Safe.{
  SafeState, WatchdogState, critical_peer_lost, comm_failure, safe_state_trigger, safe_state_active,
  watchdog_feed, wdt_round,
}
use ceell.Safe.Alternate.{IsValid, trigger, clear, safe_run, Alternates, told, safe_run-Alternates}
use ceell.Safe.Watchdog.{wdt_round_lem, wdt_false_alarm}

abbrev start : SafeState
start = record { safe_active = 0; safe_reason_val = 0; safe_cb = true; safe_initialized = true }

start-IsValid : IsValid start
start-IsValid = record { ready = refl; flag = inl refl; reason = λ e. refl }

safe_run-Alternates_example :
    Alternates
      (safe_state_active start)
      (safe_run start (trigger critical_peer_lost ∷ trigger comm_failure ∷ clear ∷ [])).0
    × (told
          (safe_state_active start)
          (safe_run start (trigger critical_peer_lost ∷ trigger comm_failure ∷ clear ∷ [])).0
        ≡ safe_state_active
            (safe_run start (trigger critical_peer_lost ∷ trigger comm_failure ∷ clear ∷ [])).1)
safe_run-Alternates_example =
    safe_run-Alternates start (trigger critical_peer_lost ∷ trigger comm_failure ∷ clear ∷ [])
      start-IsValid refl

abbrev enabled : WatchdogState
enabled = record { wdt_enabled = true; wdt_last_feed = pos 0; wdt_timeout = pos 5000 }

wdt_round_lem_example :
    wdt_round 9000 (watchdog_feed 3000 enabled) start
    ≡ (if ltb (3000 + 5000) 9000 then safe_state_trigger start comm_failure else ([], start))
wdt_round_lem_example =
    wdt_round_lem 3000 9000 5000 enabled start refl refl (omega arith) (omega arith)

wdt_false_alarm_example :
    wdt_round 2147483648 (watchdog_feed 2147483648 enabled) start
    ≡ safe_state_trigger start comm_failure
wdt_false_alarm_example =
    wdt_false_alarm 2147483648 5000 enabled start refl refl (omega arith) (omega arith)
