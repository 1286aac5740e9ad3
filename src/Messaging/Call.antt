-- ===== src/Messaging/Call.antt =====
-- ceell/network/messaging.c: the packets of a request and of its response, and what two nodes make of them.
pub mod Answered
use ceell.Prelude.{ℕ, Bool, true, false, Option, none, some, List, [], ◌∷◌}
use ceell.Prelude.Int.{ℤ, pos, signed32}
use ceell.Errno.{Errno}
use ceell.Bytes.{Bytes, cstr}
use ceell.Registry.{Registry}
use ceell.Messaging.{MsgPriority, number_of, MsgReq, MsgRsp, Response, Messaging}
use ceell.Messaging.Dispatch.{Handler, req_type, rsp_type, handle_next}

-- `payload ? payload : ""`
abbrev pub or_empty : Option Bytes → Bytes
or_empty none = []
or_empty (some payload) = payload

-- The request that `ceell_msg_send_pri` encodes.
unfoldable pub request_json : ℕ → ℕ → Bytes → Option Bytes → MsgPriority → ℕ → ℤ → MsgReq
request_json node_id seq service payload priority deadline_ms send_time = record {
  type = some req_type;
  seq = signed32 seq;
  from_id = signed32 node_id;
  to_svc = some service;
  payload = some (or_empty payload);
  priority = pos (number_of priority);
  deadline_ms = pos deadline_ms;
  send_time_ms = send_time;
}

-- The response that `send_response` encodes.
unfoldable pub response_json : {A : Type 0} → Response A → MsgRsp
response_json rsp = record {
  type = some rsp_type;
  seq = rsp.seq;
  from_id = rsp.from_id;
  status = rsp.status;
  payload = some rsp.payload;
  priority = pos (number_of rsp.priority);
}

abbrev pub text_in : Option Bytes → Option Bytes
text_in none = none
text_in (some b) = some (cstr b)

-- What a packet carries of the texts of a request, and of a response.
abbrev pub request_text : MsgReq → MsgReq
request_text req = record req {
  type = text_in req.type;
  to_svc = text_in req.to_svc;
  payload = text_in req.payload;
}

abbrev pub response_text : MsgRsp → MsgRsp
response_text rsp = record rsp { type = text_in rsp.type; payload = text_in rsp.payload }

module _ {A : Type 0} (errno : Errno → ℕ) (encodes : Response A → Bool) (self : Option ℕ)
    (r : Registry Handler) (pri : MsgPriority) where
  -- The rounds of the handler thread of a priority, at the given uptimes.
  unfoldable pub after_rounds : List ℕ → Messaging A → Messaging A
  after_rounds [] s = s
  after_rounds (now ∷ nows) s = after_rounds nows (handle_next errno encodes self r now pri s).1
