-- ===== src/Messaging/Exchange.antt =====
-- ceell/network/messaging.c: sending a request and waiting for its response, in the slot of its
-- priority.
pub mod Wait
pub mod Resets
pub mod Superseded
use ceell.Prelude.{
  ℕ, zero, suc, ◌+◌, ◌-◌, ◌%◌, ◌^◌, Bool, true, false, Option, none, some, List, [], ◌∷◌,
  if◌then◌else◌, ◌==◌, set, min, replicate,
}
use ceell.Prelude.Int.{ℤ, pos, u32}
use ceell.Errno.{Ret, Errno, ok, err, einval, enoent, enodev, enomem, etimedout}
use ceell.Bytes.{Bytes, copy_str}
use ceell.Discovery.{Peers, service_find_peer}
use ceell.Messaging.{
  MsgPriority, critical, normal, bulk, PerPriority, at, put, priority_of, number_of, Msg, zero_msg,
  MsgRsp, RspSlot, zero_slot, Messaging,
}

-- The payload array of a slot after a response.
abbrev pub copy_payload : Bytes → Option Bytes → Bytes
copy_payload dst none = set dst 0 0
copy_payload dst (some src) = copy_str 128 dst src

-- The slot after a response with its number; the semaphore counts to 1.
abbrev pub fill_slot : RspSlot → MsgPriority → MsgRsp → RspSlot
fill_slot t pri rsp = record t {
  pending_rsp = record t.pending_rsp {
    status = rsp.status;
    priority = pri;
    payload = copy_payload t.pending_rsp.payload rsp.payload;
  };
  rsp_sem = min 1 (t.rsp_sem + 1);
}

-- How the part of `ceell_msg_send_pri` before its wait ends.
pub data Begun : Type 0 where
  refused : Errno → Begun
  waiting : ℕ → MsgPriority → Begun

-- After the slot is claimed: the request must fit its buffer, and be sent.
unfoldable pub send_request : Bool → Ret → ℕ → MsgPriority → Begun
send_request false sent seq pri = refused enomem
send_request true (err e) seq pri = refused e
send_request true ok seq pri = waiting seq pri

module _ {A : Type 0} where
  unfoldable pub handle_response : MsgRsp → Messaging A → Messaging A
  handle_response rsp s =
      let pri = priority_of rsp.priority in
      let slot = at pri s.slots in
      if u32 rsp.seq == slot.pending_seq
      then record s { slots = put pri (fill_slot slot pri rsp) s.slots }
      else s

  abbrev pub empty_queues : Messaging A
  empty_queues = record {
    msgq = record { for_critical = []; for_normal = []; for_bulk = [] };
    slots = record { for_critical = zero_slot; for_normal = zero_slot; for_bulk = zero_slot };
    next_seq = 1;
  }

  -- `ceell_messaging_init`, given what the socket call and the bind return.
  unfoldable pub messaging_init : Ret → Ret → Ret × Messaging A
  messaging_init (err e) bind = (err e, empty_queues)
  messaging_init ok (err e) = (err e, empty_queues)
  messaging_init ok ok = (ok, empty_queues)

  -- The slot is claimed for a new number, and its semaphore is reset: k_sem_reset sets the count to 0 and
  -- ends the takes that wait, which see by `resets` that it came after they began.
  unfoldable pub claim_slot : MsgPriority → Messaging A → ℕ × Messaging A
  claim_slot pri s =
      let seq = s.next_seq in
      (
        seq,
        record s {
          next_seq = (seq + 1) % 2 ^ 32;
          slots =
              put pri
                (record {
                  rsp_sem = 0;
                  resets = (at pri s.slots).resets + 1;
                  pending_rsp = zero_msg;
                  pending_seq = seq;
                })
                s.slots;
        },
      )

  -- `self` says whether the identity is set, `encoded` whether the request fits, `sent` what the socket
  -- returns.
  unfoldable pub send_begin :
      ℕ → Peers → Bool → Bool → Ret → Option Bytes → Bool → ℤ → Messaging A → Begun × Messaging A
  send_begin max_peers peers self encoded sent none rsp priority s = (refused einval, s)
  send_begin max_peers peers self encoded sent (some service) false priority s = (refused einval, s)
  send_begin max_peers peers self encoded sent (some service) true priority s =
      let pri = priority_of priority in
      let (seq, s') = claim_slot pri s in
      elim (service_find_peer max_peers peers (some service) (some (replicate 16 0))).0 [
        | err e ↦ (refused enoent, s)
        | ok ↦ if self then (send_request encoded sent seq pri, s') else (refused enodev, s)
      ]

  -- The part after a wait that no reset has aborted: the semaphore was given, or it is a timeout.
  unfoldable pub send_end : MsgPriority → ℕ → ℤ → Messaging A → Ret × Option Msg × Messaging A
  send_end pri deadline_ms send_time s =
      let slot = at pri s.slots in
      if slot.rsp_sem == 0 then (err etimedout, none, s) else (
        ok,
        some (record slot.pending_rsp {
          priority = pri;
          deadline_ms = deadline_ms;
          send_time_ms = send_time;
        }),
        record s { slots = put pri (record slot { rsp_sem = slot.rsp_sem - 1 }) s.slots },
      )

  -- The part from the take on, which began after `began` resets: one that a later reset has aborted fails
  -- with -EAGAIN, and the function returns its timeout.
  unfoldable pub send_wait : ℕ → MsgPriority → ℕ → ℤ → Messaging A → Ret × Option Msg × Messaging A
  unfolding send_end
  send_wait began pri deadline_ms send_time s =
      if began == (at pri s.slots).resets
      then send_end pri deadline_ms send_time s
      else (err etimedout, none, s)

  -- The responses that the dispatcher handles while the sender waits.
  unfoldable pub handle_all : List MsgRsp → Messaging A → Messaging A
  handle_all [] s = s
  handle_all (r ∷ rs) s = handle_all rs (handle_response r s)

  -- What a send that has begun comes to; `rs` are the responses that the dispatcher handles during the
  -- wait.
  abbrev pub after_wait : List MsgRsp → ℕ → ℤ → Begun → Messaging A → Ret × Option Msg × Messaging A
  after_wait rs deadline_ms send_time (refused e) s = (err e, none, s)
  after_wait rs deadline_ms send_time (waiting seq pri) s =
      send_wait (at pri s.slots).resets pri deadline_ms send_time (handle_all rs s)

  -- `ceell_msg_send_pri`
  unfoldable pub msg_send_pri :
      ℕ
      → Peers
      → Bool
      → Bool
      → Ret
      → List MsgRsp
      → Option Bytes
      → Bool
      → ℤ
      → ℕ
      → ℤ
      → Messaging A
      → Ret × Option Msg × Messaging A
  msg_send_pri max_peers peers self encoded sent rs service rsp priority deadline_ms send_time s =
      let (begun, s') = send_begin max_peers peers self encoded sent service rsp priority s in
      after_wait rs deadline_ms send_time begun s'

  -- `ceell_msg_send`: NORMAL, without a deadline.
  unfoldable pub msg_send :
      ℕ
      → Peers
      → Bool
      → Bool
      → Ret
      → List MsgRsp
      → Option Bytes
      → Bool
      → ℤ
      → Messaging A
      → Ret × Option Msg × Messaging A
  unfolding msg_send_pri
  msg_send max_peers peers self encoded sent rs service rsp send_time s =
      msg_send_pri max_peers peers self encoded sent rs service rsp (pos (number_of normal)) 0
        send_time s
