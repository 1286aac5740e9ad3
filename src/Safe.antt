-- ===== src/Safe.antt =====
-- ceell/core/safe_state.c and ceell/core/watchdog.c.
-- The callback is a function pointer: an operation returns the calls that it makes of it. Readings of
-- the uptime, and what the operating system returns, are arguments.
pub mod Alternate
pub mod Watchdog
mod Tests
use ceell.Prelude.{ℕ, Bool, true, false, not, List, [], ◌∷◌, ◌++◌, if◌then◌else◌, ◌==◌}
use ceell.Prelude.Int.{ℤ, pos, negsuc, ◌-ℤ◌, ltb_ℤ, leb_ℤ, i32}
use ceell.Errno.{Ret, ok, err, einval}

-- `enum ceell_safe_reason`
abbrev pub safe_none : ℕ
safe_none = 0

abbrev pub critical_peer_lost : ℕ
critical_peer_lost = 1

abbrev pub deadline_budget_exceeded : ℕ
deadline_budget_exceeded = 2

abbrev pub comm_failure : ℕ
comm_failure = 3

pub record SafeState : Type 0 where
  pub safe_active : ℕ
  pub safe_reason_val : ℕ
  pub safe_cb : Bool
  pub safe_initialized : Bool

-- A call `safe_cb(active, reason)`.
pub record SafeCall : Type 0 where
  pub active : Bool
  pub reason : ℕ

abbrev pub call_cb : SafeState → Bool → ℕ → List SafeCall
call_cb s active reason = if s.safe_cb then record { active = active; reason = reason } ∷ [] else []

-- `mutex` is what `ceell_mutex_init` returns.
unfoldable pub safe_state_init : Ret → SafeState → Ret × SafeState
safe_state_init (err e) s = (err e, s)
safe_state_init ok s = (
  ok,
  record { safe_active = 0; safe_reason_val = safe_none; safe_cb = false; safe_initialized = true },
)

unfoldable pub safe_state_trigger : SafeState → ℕ → List SafeCall × SafeState
safe_state_trigger s reason =
    if s.safe_initialized
    then if s.safe_active == 0
      then (call_cb s true reason, record s { safe_active = 1; safe_reason_val = reason })
      else if s.safe_reason_val == reason
      then ([], s)
      else ([], record s { safe_reason_val = reason })
    else ([], s)

unfoldable pub safe_state_clear : SafeState → List SafeCall × SafeState
safe_state_clear s =
    if s.safe_initialized
    then if s.safe_active == 0
      then ([], s)
      else (call_cb s false safe_none, record s { safe_active = 0; safe_reason_val = safe_none })
    else ([], s)

unfoldable pub safe_state_active : SafeState → Bool
safe_state_active s = not (s.safe_active == 0)

unfoldable pub safe_state_reason : SafeState → ℕ
unfolding safe_state_active
safe_state_reason s = if safe_state_active s then s.safe_reason_val else safe_none

-- `cb` says whether the pointer is not NULL.
unfoldable pub safe_state_register_cb : SafeState → Bool → SafeState
safe_state_register_cb s cb = if s.safe_initialized then record s { safe_cb = cb } else s

-- The watchdog's atomics: the last feed is an `int32_t`.
pub record WatchdogState : Type 0 where
  pub wdt_enabled : Bool
  pub wdt_last_feed : ℤ
  pub wdt_timeout : ℤ

-- The state with the feed time set to now, as the thread's creation leaves it.
pub watchdog_started : ℤ → ℕ → Ret → Ret × WatchdogState
watchdog_started timeout_ms now ok =
    (ok, record { wdt_enabled = true; wdt_last_feed = i32 (pos now); wdt_timeout = timeout_ms })
watchdog_started timeout_ms now (err e) =
    (err e, record { wdt_enabled = false; wdt_last_feed = i32 (pos now); wdt_timeout = timeout_ms })

-- `thread` is what `ceell_thread_create` returns.
unfoldable pub watchdog_init : ℤ → ℕ → Ret → WatchdogState → Ret × WatchdogState
unfolding watchdog_started
watchdog_init timeout_ms now thread w =
    if leb_ℤ timeout_ms (pos 0) then (err einval, w) else watchdog_started timeout_ms now thread

unfoldable pub watchdog_feed : ℕ → WatchdogState → WatchdogState
watchdog_feed now w = if w.wdt_enabled then record w { wdt_last_feed = i32 (pos now) } else w

-- One round of `wdt_thread_fn`, up to its sleep.
unfoldable pub wdt_round : ℕ → WatchdogState → SafeState → List SafeCall × SafeState
wdt_round now w s =
    let elapsed = pos now -ℤ w.wdt_last_feed in
    if w.wdt_enabled
    then if ltb_ℤ w.wdt_timeout elapsed then safe_state_trigger s comm_failure else ([], s)
    else ([], s)
