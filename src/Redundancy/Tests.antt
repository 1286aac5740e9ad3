-- ===== src/Redundancy/Tests.antt =====
-- Runs of ceell/network/msg_redundancy.c from the empty ring.
use ceell.Prelude.{◌≡◌, refl, true, false, none, [], ◌∷◌, arith}
use ceell.Errno.{ok}
use ceell.Redundancy.{cleared, redundancy_init, dedup_check, check_all, search_ring}
use ceell.Redundancy.Window.{
  IsValid, window, window_check_all, check_all-window, dedup_remembers, redundancy_init-window,
}

cleared-IsValid : IsValid cleared
unfolding redundancy_init
cleared-IsValid = (redundancy_init-window ok ok 3 cleared none).0

check_all-window_example :
    let (dups, s') = check_all cleared (5 ∷ 6 ∷ 5 ∷ []) in
    ((dups, window s') ≡ window_check_all (window cleared) (5 ∷ 6 ∷ 5 ∷ [])) × IsValid s'
check_all-window_example = check_all-window cleared (5 ∷ 6 ∷ 5 ∷ []) cleared-IsValid

five_new : (dedup_check cleared 5).0 ≡ false
unfolding dedup_check search_ring
five_new = refl

dedup_remembers_example :
    (dedup_check (check_all (dedup_check cleared 5).1 (6 ∷ 7 ∷ [])).1 5).0 ≡ true
dedup_remembers_example =
    dedup_remembers cleared 5 (6 ∷ 7 ∷ []) cleared-IsValid five_new (omega arith)
