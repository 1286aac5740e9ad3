-- ===== src/Errno.antt =====
-- The return codes of ceell/: 0, a negative errno, -1, or a negative code of the operating system.
use ceell.Prelude.{ℕ, Bool, true, false}

pub data Errno : Type 0 where
  einval enomem enoent ealready enodev etimedout enobufs eproto eio emsgsize eagain : Errno
  minus_one : Errno
  os : ℕ → Errno

pub data Ret : Type 0 where
  ok : Ret
  err : Errno → Ret

-- `ret < 0`
abbrev pub failed : Ret → Bool
failed ok = false
failed (err e) = true
