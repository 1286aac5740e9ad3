-- ===== src/Messaging.antt =====
-- ceell/network/messaging.c, msg_priority.h, msg_deadline.c and tsn.c: prioritised requests.
-- `A` is the type of socket addresses, `errno` gives the numbers of errno.h, `depth` is
-- `CONFIG_CEELL_MSG_QUEUE_DEPTH`. What the JSON library makes of a packet is a parameter: it parses in
-- place, so the first parse hands on the buffer that it leaves. `encodes` says whether a response fits
-- the 512 bytes of its buffer. A thread is one round of its loop.
pub mod Priority
pub mod Deadline
pub mod Exchange
pub mod Dispatch
pub mod Call
mod Tests
use ceell.Prelude.{
  ℕ, zero, suc, ◌+◌, ◌-◌, ◌%◌, ◌^◌, Bool, true, false, ◌&&◌, Option, none, some, List, [], ◌∷◌,
  ◌++◌, if◌then◌else◌, ltb, leb, ◌==◌, length, replicate, min, set,
}
use ceell.Prelude.Int.{ℤ, pos, negsuc, ◌-ℤ◌, ◌+ℤ◌, ltb_ℤ, leb_ℤ, u16, u32, signed32}
use ceell.Errno.{Ret, Errno, ok, err, einval, enoent, enodev, enomem, etimedout}
use ceell.Bytes.{Bytes, copy_str, copy_if, str_eq, bytes_eq, cstr}
use ceell.Registry.{Registry, service_get_handler}
use ceell.Discovery.{Peers, service_find_peer}

-- `enum ceell_msg_priority`
pub data MsgPriority : Type 0 where
  critical normal bulk : MsgPriority

-- The valid priorities are 0, 1 and 2.
abbrev pub priority_valid : ℤ → Bool
priority_valid p = leb_ℤ (pos 0) p && ltb_ℤ p (pos 3)

-- The default for every other number is NORMAL.
unfoldable pub priority_of : ℤ → MsgPriority
priority_of (negsuc n) = normal
priority_of (pos n) =
    if n == 0 then critical else if n == 1 then normal else if n == 2 then bulk else normal

abbrev pub number_of : MsgPriority → ℕ
number_of critical = 0
number_of normal = 1
number_of bulk = 2

-- An array with an entry for each priority.
pub record PerPriority {ℓ} (X : Type ℓ) : Type ℓ where
  pub for_critical : X
  pub for_normal : X
  pub for_bulk : X

abbrev pub at {ℓ} : {X : Type ℓ} → MsgPriority → PerPriority X → X
at critical t = t.for_critical
at normal t = t.for_normal
at bulk t = t.for_bulk

abbrev pub put {ℓ} : {X : Type ℓ} → MsgPriority → X → PerPriority X → PerPriority X
put critical x t = record t { for_critical = x }
put normal x t = record t { for_normal = x }
put bulk x t = record t { for_bulk = x }

-- `pcp_map` and `ceell_tsn_get_pcp`
unfoldable pub tsn_get_pcp : ℤ → ℤ
unfolding priority_of
tsn_get_pcp p =
    if priority_valid p
    then elim (priority_of p) [ critical ↦ pos 7 | normal ↦ pos 4 | bulk ↦ pos 1 ]
    else negsuc 0

-- There is no TSN hardware.
abbrev pub tsn_available : Bool
tsn_available = false

unfoldable pub tsn_set_socket_priority : ℤ → ℤ
tsn_set_socket_priority p =
    if priority_valid p then (if tsn_available then pos 0 else pos 0) else negsuc 0

-- `struct ceell_msg`
pub record Msg : Type 0 where
  pub status : ℤ
  pub payload : Bytes
  pub priority : MsgPriority
  pub deadline_ms : ℕ
  pub send_time_ms : ℤ

abbrev pub zero_msg : Msg
zero_msg = record {
  status = pos 0;
  payload = replicate 128 0;
  priority = critical;
  deadline_ms = 0;
  send_time_ms = pos 0;
}

-- The end of the deadline, in `int64_t`.
abbrev pub deadline_abs : Msg → ℤ
deadline_abs m = m.send_time_ms +ℤ pos m.deadline_ms

abbrev pub clamp_int : ℤ → ℤ
clamp_int z =
    if ltb_ℤ (pos 2147483647) z
    then pos 2147483647
    else if ltb_ℤ z (negsuc 2147483647)
    then negsuc 2147483647
    else z

unfoldable pub deadline_remaining : ℕ → Option Msg → ℤ
deadline_remaining now none = pos 0
deadline_remaining now (some m) =
    if m.deadline_ms == 0 then pos 0 else clamp_int (deadline_abs m -ℤ pos now)

unfoldable pub deadline_expired : ℕ → Option Msg → Bool
deadline_expired now none = false
deadline_expired now (some m) =
    if m.deadline_ms == 0 then false else leb_ℤ (deadline_abs m) (pos now)

-- `struct msg_dispatch_item`
pub record DispatchItem (A : Type 0) : Type 0 where
  pub payload : Bytes
  pub to_svc : Bytes
  pub seq : ℤ
  pub from_id : ℤ
  pub priority : MsgPriority
  pub deadline_ms : ℤ
  pub send_time_ms : ℤ
  pub src_addr : A

-- `struct msg_req_json`
pub record MsgReq : Type 0 where
  pub type : Option Bytes
  pub seq : ℤ
  pub from_id : ℤ
  pub to_svc : Option Bytes
  pub payload : Option Bytes
  pub priority : ℤ
  pub deadline_ms : ℤ
  pub send_time_ms : ℤ

-- `struct msg_rsp_json`
pub record MsgRsp : Type 0 where
  pub type : Option Bytes
  pub seq : ℤ
  pub from_id : ℤ
  pub status : ℤ
  pub payload : Option Bytes
  pub priority : ℤ

-- A response that `send_response` sends, and to whom.
pub record Response (A : Type 0) : Type 0 where
  pub dest : A
  pub seq : ℤ
  pub from_id : ℤ
  pub status : ℤ
  pub payload : Bytes
  pub priority : MsgPriority

-- A response slot: the count of its semaphore and how often that was reset, the response, and the number
-- that it waits for. A reset aborts the takes that have begun before it, so a take remembers the resets.
pub record RspSlot : Type 0 where
  pub rsp_sem : ℕ
  pub resets : ℕ
  pub pending_rsp : Msg
  pub pending_seq : ℕ

pub record Messaging (A : Type 0) : Type 0 where
  pub msgq : PerPriority (List (DispatchItem A))
  pub slots : PerPriority RspSlot
  pub next_seq : ℕ

abbrev pub zero_slot : RspSlot
zero_slot = record { rsp_sem = 0; resets = 0; pending_rsp = zero_msg; pending_seq = 0 }
