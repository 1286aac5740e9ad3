-- ===== src/Messaging/Tests.antt =====
-- Runs of ceell/network/messaging.c with one peer that offers "echo". Addresses are numbers here.
use ceell.Prelude.{
  ℕ, ◌+◌, ◌%◌, ◌^◌, ◌≡◌, ◌≤◌, ◌++◌, refl, Bool, true, Option, none, some, List, [], ◌∷◌, arith,
  length, take,
}
use ceell.Prelude.Int.{pos}
use ceell.Errno.{Errno, ok}
use ceell.Bytes.{Bytes, cstr, bytes_eq}
use ceell.Csv.{csv_contains, csv_loop, strchr}
use ceell.Registry.{Registry, service_init, service_register_sla}
use ceell.Registry.Table.{contents}
use ceell.Registry.Lookup.{first_named}
use ceell.Discovery.{Peers, zero_peer, service_find_peer, find_offer, get_peers}
use ceell.Messaging.{
  critical, at, put, priority_of, DispatchItem, MsgReq, MsgRsp, Response, Messaging,
}
use ceell.Messaging.Exchange.{
  empty_queues, waiting, claim_slot, send_request, send_begin, handle_all, after_wait,
}
use ceell.Messaging.Exchange.Wait.{last_answer, Outcome, exchange_lem}
use ceell.Messaging.Dispatch.{Handler, dispatch, handle_next, dispatch_item, handler_round}
use ceell.Messaging.Dispatch.Route.{Event, request, serve, run, all_accepted, all_served, run_fifo}
use ceell.Messaging.Dispatch.Handle.{
  is_late, handler_of, text_of, answer, IsAnsweredBy, handler_round_lem,
}
use ceell.Messaging.Exchange.Superseded.{Superseded, superseded_lem}
use ceell.Messaging.Call.{request_json, request_text, response_json, response_text, after_rounds}
use ceell.Messaging.Call.Answered.{reply, IsReply, call_lem}

abbrev echo : Bytes
echo = b'e' ∷ b'c' ∷ b'h' ∷ b'o' ∷ 0 ∷ []

abbrev start : Messaging ℕ
start = empty_queues

abbrev peers : Peers
peers = record { peers = record zero_peer { node_id = 7; services = echo } ∷ []; peer_count = 1 }

goes_out : (send_begin 1 peers true true ok (some echo) true (pos 0) start).0 ≡ waiting 1 critical
unfolding send_begin send_request claim_slot service_find_peer find_offer get_peers csv_contains
    csv_loop strchr bytes_eq cstr priority_of
goes_out = refl

-- A stale response, then the answer.
abbrev responses : List MsgRsp
responses =
    record {
      type = none;
      seq = pos 9;
      from_id = pos 7;
      status = pos 0;
      payload = none;
      priority = pos 0;
    }
    ∷ record {
      type = none;
      seq = pos 1;
      from_id = pos 7;
      status = pos 5;
      payload = some echo;
      priority = pos 0;
    }
    ∷ []

exchange_lem_example : Outcome critical 50 (pos 1000) (last_answer 1 critical none responses) (
    after_wait responses 50
      (pos 1000)
      (waiting 1 critical)
      (send_begin 1 peers true true ok (some echo) true (pos 0) start).1)
exchange_lem_example =
    exchange_lem 1 peers true true ok (some echo) true (pos 0) start 1 critical responses 50
      (pos 1000) goes_out

-- The numbers of errno.h do not matter here.
abbrev errno : Errno → ℕ
errno e = 1

abbrev fits : Response ℕ → Bool
fits rsp = true

abbrev echo_handler : Handler
echo_handler payload rsp_payload = (pos 0, payload)

abbrev registry : Registry Handler
registry = (service_register_sla 4 (service_init 4) (some echo) (some echo_handler) 0 50).1

abbrev req : MsgReq
req = record {
  type = none;
  seq = pos 1;
  from_id = pos 7;
  to_svc = some echo;
  payload = some echo;
  priority = pos 0;
  deadline_ms = pos 50;
  send_time_ms = pos 1000;
}

abbrev events : List (Event ℕ)
events = request 7 req ∷ request 8 req ∷ serve 1001 critical ∷ []

run_fifo_example :
    (at critical start.msgq ++ all_accepted errno fits (some 1) registry 1 critical events start
      ≡ all_served errno fits (some 1) registry 1 critical events start
        ++ at critical (run errno fits (some 1) registry 1 events start).msgq)
    × (length (at critical (run errno fits (some 1) registry 1 events start).msgq) ≤ 1)
run_fifo_example = run_fifo errno fits (some 1) registry 1 critical events start (omega arith)

abbrev item : DispatchItem ℕ
item = dispatch_item 7 req

handler_round_lem_example :
    IsAnsweredBy errno fits 1 7 req.seq critical
      (answer errno
        (is_late 1001 req)
        (handler_of (first_named (text_of 32 req.to_svc) (contents registry)))
        item.payload)
      (handler_round errno fits (some 1) registry 1001 critical item)
    × (cstr item.payload ≡ text_of 128 req.payload)
handler_round_lem_example = handler_round_lem errno fits 1 (λ x. refl) registry 1001 critical 7 req

-- The request of the run above, on its way to a node whose queue holds another one.
abbrev arriving : MsgReq
arriving = request_text (request_json 7 1 echo (some echo) critical 50 (pos 1000))

abbrev busy : Messaging ℕ
busy = record start { msgq = put critical (item ∷ []) start.msgq }

abbrev parse_req : Bytes → Option MsgReq × Bytes
parse_req buf = (some arriving, buf)

abbrev parse_rsp : Bytes → Option MsgRsp
parse_rsp buf = none

abbrev replying : Messaging ℕ
replying =
    after_rounds errno fits (some 1) registry critical (1001 ∷ [])
      (dispatch errno fits (some 1) 2 parse_req parse_rsp 7 (b'{' ∷ []) busy).1

call_lem_example :
    (rsp : Response ℕ) × (args : Bytes) × ((handle_next errno fits
        (some 1)
        registry
        1002
        critical
        replying).0
      ≡ rsp ∷ [])
    × (rsp.dest ≡ 7)
    × (cstr args ≡ take 127 (cstr echo))
    × (IsReply critical
        (reply errno registry 1002 (request_json 7 1 echo (some echo) critical 50 (pos 1000)) args)
        (after_wait
          (response_text (response_json rsp) ∷ [])
          50
          (pos 1000)
          (waiting 1 critical)
          ((send_begin 1 peers true true ok (some echo) true (pos 0) start).1)))
call_lem_example =
    call_lem errno fits 1 registry 2 parse_req parse_rsp (λ x. refl) 1 peers true ok echo
      (some echo) (pos 0) 50 (pos 1000) start 1 7 critical [] goes_out (omega arith) 7 (b'{' ∷ [])
      (1001 ∷ []) 1002 busy refl (omega arith) refl

-- A second request before the answer to the first one.
goes_next :
    (send_begin 1 peers true true ok
      (some echo)
      true
      (pos 0)
      (handle_all [] (send_begin 1 peers true true ok (some echo) true (pos 0) start).1)).0
    ≡ waiting 2 critical
unfolding send_begin send_request claim_slot service_find_peer find_offer get_peers csv_contains
    csv_loop strchr bytes_eq cstr priority_of handle_all
goes_next = refl

unanswered : last_answer 1 critical none [] ≡ none
unfolding last_answer
unanswered = refl

superseded_lem_example :
    let s1 = (send_begin 1 peers true true ok (some echo) true (pos 0) start).1 in
    let second = send_begin 1 peers true true ok (some echo) true (pos 0) (handle_all [] s1) in
    (2 ≡ (1 + 1) % 2 ^ 32)
    × Superseded
        (at critical s1.slots).resets
        (at critical second.1.slots).resets
        critical
        50
        (pos 1000)
        60
        (pos 1010)
        (last_answer 2 critical none responses)
        (handle_all responses second.1)
superseded_lem_example =
    superseded_lem 1 peers peers true true ok ok echo echo (pos 0) (pos 0) start 1 2 critical []
      responses 50 (pos 1000) 60 (pos 1010) goes_out unanswered goes_next
