-- ===== src/Redundancy.antt =====
-- ceell/network/msg_redundancy.c: sending on two paths, and the ring of sequence numbers seen.
-- The sockets are the operating system's: what `ceell_sendto` returns is an argument.
pub mod Window
mod Tests
use ceell.Prelude.{
  ℕ, zero, suc, ◌+◌, ◌-◌, ◌%◌, Bool, true, false, Option, none, some, List, [], ◌∷◌, if◌then◌else◌,
  ltb, ◌==◌, get_or, set, replicate,
}
use ceell.Errno.{Ret, ok, err, failed, enodev}

-- `CEELL_MSG_DEDUP_RING_SIZE`
abbrev pub dedup_ring_size : ℕ
dedup_ring_size = 32

pub record Dedup : Type 0 where
  pub dedup_ring : List ℕ
  pub dedup_head : ℕ
  pub dedup_count : ℕ

-- The ring after the `memset` of `ceell_msg_redundancy_init`.
abbrev pub cleared : Dedup
cleared = record { dedup_ring = replicate dedup_ring_size 0; dedup_head = 0; dedup_count = 0 }

-- `ceell_msg_redundancy_init`, given what the calls return: the mutex, the socket with its number
-- `fd`, the bind. The `Option` is the secondary socket; one that cannot be bound is closed.
unfoldable pub redundancy_init : Ret → Ret → ℕ → Ret → Dedup → Option ℕ → Ret × Dedup × Option ℕ
redundancy_init (err e) sock fd bind s secondary = (err e, s, secondary)
redundancy_init ok (err e) fd bind s secondary = (err e, cleared, none)
redundancy_init ok ok fd (err e) s secondary = (err e, cleared, none)
redundancy_init ok ok fd ok s secondary = (ok, cleared, some fd)

-- `seq` stands at one of the `n` indices from round `i` on, newest first. The C index is
-- `(head - 1 - i + size) % size`, which is never below 0 here.
pub search_ring : ℕ → ℕ → List ℕ → ℕ → ℕ → Bool
search_ring zero i ring head seq = false
search_ring (suc n) i ring head seq =
    let idx = (head + dedup_ring_size - 1 - i) % dedup_ring_size in
    let rest = search_ring n (i + 1) ring head seq in
    if get_or ring idx 0 == seq then true else rest

unfoldable pub dedup_check : Dedup → ℕ → Bool × Dedup
unfolding search_ring
dedup_check s seq =
    let search_count =
      if ltb s.dedup_count dedup_ring_size then s.dedup_count else dedup_ring_size in
    let new : Dedup = record s {
      dedup_ring = set s.dedup_ring s.dedup_head seq;
      dedup_head = (s.dedup_head + 1) % dedup_ring_size;
      dedup_count = if ltb s.dedup_count dedup_ring_size then s.dedup_count + 1 else s.dedup_count;
    } in
    if search_ring search_count 0 s.dedup_ring s.dedup_head seq then (true, s) else (false, new)

-- Success if at least one path succeeded, else the error of the primary one.
pub both_paths : Ret → Ret → Ret
both_paths ok secondary = ok
both_paths (err e) ok = ok
both_paths (err e) (err f) = err e

-- The secondary path is tried only if its socket is open.
unfoldable pub redundant_send : Option ℕ → Ret → (ℕ → Ret) → Ret
unfolding both_paths
redundant_send none primary send_secondary = both_paths primary (err enodev)
redundant_send (some fd) primary send_secondary = both_paths primary (send_secondary fd)

-- The messages of both paths in the order of their arrival: which are taken for duplicates.
unfoldable pub check_all : Dedup → List ℕ → List Bool × Dedup
unfolding dedup_check
check_all s [] = ([], s)
check_all s (q ∷ qs) =
    let (dup, s') = dedup_check s q in let (dups, s'') = check_all s' qs in (dup ∷ dups, s'')
