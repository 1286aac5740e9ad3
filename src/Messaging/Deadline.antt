-- ===== src/Messaging/Deadline.antt =====
-- ceell/network/msg_deadline.c: the two questions about a deadline agree.
use ceell.Prelude.{ℕ, ◌≡◌, ◌&&◌, some, arith, ltb}
use ceell.Prelude.Int.{pos, leb_ℤ}
use ceell.Messaging.{Msg, deadline_remaining, deadline_expired}

-- A message has expired exactly if it has a deadline and no time remains, also where the remaining time is
-- clamped to the range of an `int`; without a deadline it never expires.
pub deadline_lem :
    (now : ℕ) (m : Msg)
    → deadline_expired now (some m)
      ≡ (ltb 0 m.deadline_ms && leb_ℤ (deadline_remaining now (some m)) (pos 0))
unfolding deadline_expired deadline_remaining
deadline_lem now m = ground arith
