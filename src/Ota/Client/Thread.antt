-- ===== src/Ota/Client/Thread.antt =====
-- The thread of ceell/ota/ota_client.c: one check after the other, until one reboots the node.
pub mod Lifetime
use ceell.Prelude.{ℕ, Bool, true, false, Option, none, some, List, [], ◌∷◌}
use ceell.Errno.{Ret}
use ceell.Ota.Version.{OtaVer}
use ceell.Ota.Client.{Fetched, Device, Stream}
use ceell.Ota.Client.Cycle.{
  OtaEvent, CheckEnd, returns, faults, Boot, ota_round, ota_check_and_update,
}
use ceell.Ota.Client.Cycle.Course.{reboots}

-- What the network, the flash and the boot loader give to a check.
pub record Attempt : Type 0 where
  pub fetched : Fetched
  pub device : Device
  pub boot : Boot

-- A round of the loop: what its check did, and the seconds that the thread sleeps after it; `none` if there is
-- no after, because the node reboots or the check has faulted.
abbrev pub Round : Type 0
Round = List OtaEvent × Option ℕ

-- `ceell_sys_reboot` does not return.
unfoldable pub after_check : ℕ → ℕ → Bool → CheckEnd → Option (ℕ × ℕ)
after_check interval_sec fail_count true end = none
after_check interval_sec fail_count false faults = none
after_check interval_sec fail_count false (returns ret) =
    some (ota_round interval_sec fail_count ret)

-- The round, and the rest of the loop, given the failures in a row.
abbrev pub go_on : List OtaEvent → (ℕ → List Round) → Option (ℕ × ℕ) → List Round
go_on es rest none = (es, none) ∷ []
go_on es rest (some (fails, sleep)) = (es, some sleep) ∷ rest fails

module _ (ulong_max : ℕ) (current : OtaVer) (interval_sec : ℕ) where
  -- `ota_thread_entry`, for as many rounds as there are attempts.
  unfoldable pub ota_thread_entry : List Attempt → ℕ → Stream → List Round
  unfolding after_check
  ota_thread_entry [] fail_count s = []
  ota_thread_entry (t ∷ ts) fail_count s =
      let (es, end, s') = ota_check_and_update ulong_max current t.fetched t.device s t.boot in
      go_on es (λ fails. ota_thread_entry ts fails s')
        (after_check interval_sec fail_count (reboots es) end)
