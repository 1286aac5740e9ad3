-- ===== src/Health/Classify.antt =====
-- The state as a function of the time since a peer was heard.
use ceell.Prelude.{ℕ, ◌+◌, ◌-◌, ◌*◌, ◌<◌, ◌^◌, ◌≡◌, arith, if◌then◌else◌, ltb, leb}
use ceell.Health.{healthy, degraded, critical, lost, compute_state}
use native.Mathlib.Nat.{div-lt_iff_lt-mul}

-- A peer last heard at `seen` is healthy for one interval and degraded up to four; after four it is
-- lost from the timeout on, and critical before it. A time in the future counts as healthy.
pub compute_state_lem :
    (interval timeout now seen : ℕ)
    → 0 < interval
    → now < 2 ^ 31 * interval
    → compute_state interval timeout now seen ≡ (
        if leb now (seen + interval)
        then healthy
        else if ltb now (seen + 4 * interval)
        then degraded
        else if leb (seen + timeout) now
        then lost
        else critical)
unfolding compute_state
compute_state_lem interval timeout now seen p small = ground (
  arith,
  (div-lt_iff_lt-mul {x = now - seen} {y = 4} p).0,
  (div-lt_iff_lt-mul {x = now - seen} {y = 4} p).1,
  (div-lt_iff_lt-mul {x = now - seen} {y = 2 ^ 31} p).1,
)
