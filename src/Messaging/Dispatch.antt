-- ===== src/Messaging/Dispatch.antt =====
-- ceell/network/messaging.c: the dispatcher, which routes packets to the queues, and the handler threads.
pub mod Route
pub mod Handle
use ceell.Prelude.{
  ℕ, zero, suc, ◌+◌, Bool, true, false, ◌&&◌, Option, none, some, List, [], ◌∷◌, ◌++◌,
  if◌then◌else◌, ltb, ◌==◌, length, replicate,
}
use ceell.Prelude.Int.{ℤ, pos, negsuc, ◌-ℤ◌, ltb_ℤ, u16, signed32}
use ceell.Errno.{Errno, enoent, enomem, etimedout}
use ceell.Bytes.{Bytes, copy_if, str_eq, bytes_eq}
use ceell.Registry.{Registry, service_get_handler}
use ceell.Messaging.{
  MsgPriority, normal, PerPriority, at, put, priority_of, Msg, zero_msg, deadline_expired,
  DispatchItem, MsgReq, MsgRsp, Response, Messaging,
}
use ceell.Messaging.Exchange.{handle_response}

-- A service handler: from the payload and the 128 bytes of the response array to the status and the
-- array.
abbrev pub Handler : Type 0
Handler = Bytes → Bytes → ℤ × Bytes

abbrev pub is_type : Bytes → Option Bytes → Bool
is_type name none = false
is_type name (some t) = str_eq t name

abbrev pub req_type : Bytes
req_type = b'r' ∷ b'e' ∷ b'q' ∷ []

abbrev pub rsp_type : Bytes
rsp_type = b'r' ∷ b's' ∷ b'p' ∷ []

abbrev pub deadline_expired_text : Bytes
deadline_expired_text =
    b'd' ∷ b'e' ∷ b'a' ∷ b'd' ∷ b'l' ∷ b'i' ∷ b'n' ∷ b'e' ∷ b' ' ∷ b'e' ∷ b'x' ∷ b'p' ∷ b'i' ∷ b'r'
    ∷ b'e' ∷ b'd' ∷ []

abbrev pub unknown_service_text : Bytes
unknown_service_text =
    b'u' ∷ b'n' ∷ b'k' ∷ b'n' ∷ b'o' ∷ b'w' ∷ b'n' ∷ b' ' ∷ b's' ∷ b'e' ∷ b'r' ∷ b'v' ∷ b'i' ∷ b'c'
    ∷ b'e' ∷ []

abbrev pub queue_full_text : Bytes
queue_full_text = b'q' ∷ b'u' ∷ b'e' ∷ b'u' ∷ b'e' ∷ b' ' ∷ b'f' ∷ b'u' ∷ b'l' ∷ b'l' ∷ []

-- The item that is built from a request.
unfoldable pub dispatch_item : {A : Type 0} → A → MsgReq → DispatchItem A
dispatch_item src req = record {
  payload = copy_if 128 (replicate 128 0) req.payload;
  to_svc = copy_if 32 (replicate 32 0) req.to_svc;
  seq = req.seq;
  from_id = req.from_id;
  priority = priority_of req.priority;
  deadline_ms = req.deadline_ms;
  send_time_ms = req.send_time_ms;
  src_addr = src;
}

-- `-E...`, with the numbers of errno.h.
abbrev pub minus : (Errno → ℕ) → Errno → ℤ
minus errno e = pos 0 -ℤ pos (errno e)

-- The check before a request is handed to its service.
unfoldable pub item_expired : {A : Type 0} → ℕ → DispatchItem A → Bool
item_expired now item =
    if ltb_ℤ (pos 0) item.deadline_ms
    then deadline_expired now (
        some (record zero_msg {
          deadline_ms = u16 item.deadline_ms;
          send_time_ms = item.send_time_ms;
        }))
    else false

module _ {A : Type 0} (errno : Errno → ℕ) (encodes : Response A → Bool) (self : Option ℕ) where
  -- `self` is the node's id, if its identity is set.
  unfoldable pub send_response : A → ℤ → ℤ → Bytes → MsgPriority → List (Response A)
  send_response dest seq status payload priority = elim self [
    | none ↦ []
    | some node_id ↦
        let rsp : Response A = record {
          dest = dest;
          seq = seq;
          from_id = signed32 node_id;
          status = status;
          payload = payload;
          priority = priority;
        } in
        if encodes rsp then rsp ∷ [] else []
  ]

  -- A round of `handler_thread_fn` with the item that it took from its queue.
  unfoldable pub handler_round :
      Registry Handler → ℕ → MsgPriority → DispatchItem A → List (Response A)
  handler_round r now pri item =
      if item_expired now item
      then send_response item.src_addr item.seq (minus errno etimedout) deadline_expired_text pri
      else elim (service_get_handler r (some item.to_svc)) [
        | none ↦ send_response item.src_addr item.seq (minus errno enoent) unknown_service_text pri
        | some handler ↦
            let (status, rsp_payload) = handler item.payload (replicate 128 0) in
            send_response item.src_addr item.seq status rsp_payload pri
      ]

  -- `ceell_msgq_get` on the queue of the priority, then the round; an empty queue lets the thread wait.
  unfoldable pub handle_next :
      Registry Handler → ℕ → MsgPriority → Messaging A → List (Response A) × Messaging A
  handle_next r now pri s = elim (at pri s.msgq) [
    | [] ↦ ([], s)
    | item ∷ rest ↦ (handler_round r now pri item, record s { msgq = put pri rest s.msgq })
  ]

  module _ (depth : ℕ) where
    unfoldable pub dispatch_request : A → MsgReq → Messaging A → List (Response A) × Messaging A
    dispatch_request src req s =
        let pri = priority_of req.priority in
        let queue = at pri s.msgq in
        if ltb (length queue) depth
        then ([], record s { msgq = put pri (queue ++ (dispatch_item src req ∷ [])) s.msgq })
        else (send_response src req.seq (minus errno enomem) queue_full_text pri, s)

    -- A packet that is parsed as a response, or ignored.
    unfoldable pub dispatch_response : Option MsgRsp → Messaging A → Messaging A
    dispatch_response none s = s
    dispatch_response (some rsp) s = if is_type rsp_type rsp.type then handle_response rsp s else s

    -- A round of `msg_dispatcher_fn` with a packet: first tried as a request, then as a response, which is
    -- parsed from the buffer that the first parse left.
    unfoldable pub dispatch :
        (Bytes → Option MsgReq × Bytes)
        → (Bytes → Option MsgRsp)
        → A
        → Bytes
        → Messaging A
        → List (Response A) × Messaging A
    dispatch parse_req parse_rsp src buf s =
        let (parsed, left) = parse_req buf in
        elim parsed [
          | none ↦ ([], dispatch_response (parse_rsp left) s)
          | some req ↦
              if is_type req_type req.type
              then dispatch_request src req s
              else ([], dispatch_response (parse_rsp left) s)
        ]
