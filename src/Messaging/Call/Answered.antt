-- ===== src/Messaging/Call/Answered.antt =====
-- A request from one node to another, from the send to the response.
use ceell.Prelude.{
  ℕ, zero, suc, ◌<◌, ◌^◌, ◌≡◌, refl, ap, subst, ◌∙◌, Bool, true, Option, none, some, List, [], ◌∷◌,
  ◌++◌, ==_iff, arith, length, drop, take, ltb, inl, inr,
}
use ceell.Prelude.Int.{ℤ, pos, u32-signed32, signed32}
use ceell.Errno.{Ret, Errno, ok}
use ceell.Bytes.{Bytes, cstr, bytes_eq}
use ceell.Bytes.Copy.{cstr-cstr}
use ceell.Registry.{Registry}
use ceell.Registry.Table.{contents}
use ceell.Registry.Lookup.{first_named}
use ceell.Discovery.{Peers}
use ceell.Messaging.{
  MsgPriority, critical, normal, bulk, at, priority_of, number_of, Msg, MsgReq, MsgRsp, Response,
  Messaging,
}
use ceell.Messaging.Priority.{pri_eq_refl, at-put_self}
use ceell.Messaging.Exchange.{waiting, send_begin, after_wait}
use ceell.Messaging.Exchange.Wait.{is_answer, last_answer, Outcome, exchange_lem}
use ceell.Messaging.Dispatch.{
  Handler, is_type, req_type, dispatch_item, handle_next, dispatch_request, dispatch,
}
use ceell.Messaging.Dispatch.Route.{List-cases}
use ceell.Messaging.Dispatch.Handle.{
  is_late, handler_of, text_of, answer, IsAnsweredBy, handler_round_lem,
}
use ceell.Messaging.Call.{
  or_empty, request_json, response_json, request_text, response_text, after_rounds,
}

priority_of-number_of : (p : MsgPriority) → priority_of (pos (number_of p)) ≡ p
unfolding priority_of
priority_of-number_of critical = refl
priority_of-number_of normal = refl
priority_of-number_of bulk = refl

drop_ahead {ℓ} : {X : Type ℓ} (xs : List X) (x : X) → drop (length xs) (xs ++ (x ∷ [])) ≡ x ∷ []
drop_ahead [] x = refl
drop_ahead (y ∷ xs) x = drop_ahead xs x

less : {a b : ℕ} → a < b → ltb a b ≡ true
less h = ground arith

drop-drop {ℓ} : {X : Type ℓ} (n : ℕ) (xs : List X) → drop n (drop 1 xs) ≡ drop (suc n) xs
drop-drop zero [] = refl
drop-drop (suc n) [] = refl
drop-drop n (x ∷ xs) = refl

last_answer-append :
    (seq : ℕ) (pri : MsgPriority) (rs : List MsgRsp) (r : MsgRsp)
    → is_answer seq pri r ≡ true
    → (o : Option MsgRsp) → last_answer seq pri o (rs ++ (r ∷ [])) ≡ some r
unfolding last_answer
last_answer-append seq pri [] r h o = rw h refl
last_answer-append seq pri (x ∷ rs) r h o = last_answer-append seq pri rs r h _

module _ {A : Type 0} (errno : Errno → ℕ) (encodes : Response A → Bool) (self : Option ℕ)
    (r : Registry Handler) (pri : MsgPriority) where
  -- Each round takes one item, until the queue is empty.
  msgq-handle_next :
      (now : ℕ) (s : Messaging A)
      → at pri (handle_next errno encodes self r now pri s).1.msgq ≡ drop 1 (at pri s.msgq)
  unfolding handle_next
  msgq-handle_next now s = elim (List-cases (at pri s.msgq)) [
    | inl e ↦ rw (e, handle_next) (rw e refl)
    | inr (item, rest, e) ↦ rw (e, handle_next) (at-put_self rest s.msgq pri)
  ]

  msgq-after_rounds :
      (nows : List ℕ) (s : Messaging A)
      → at pri (after_rounds errno encodes self r pri nows s).msgq
        ≡ drop (length nows) (at pri s.msgq)
  unfolding after_rounds
  msgq-after_rounds [] s = refl
  msgq-after_rounds (now ∷ nows) s =
      msgq-after_rounds nows (handle_next errno encodes self r now pri s).1
      ∙ ap (drop (length nows)) (msgq-handle_next now s)
      ∙ drop-drop (length nows) (at pri s.msgq)

-- The answer of the handler thread, from the request as the sender wrote it.
abbrev pub reply : (Errno → ℕ) → Registry Handler → ℕ → MsgReq → Bytes → ℤ × Bytes
reply errno r now req args =
    answer errno (is_late now req) (handler_of (first_named (text_of 32 req.to_svc) (contents r)))
      args

-- What the sender has in the end: status and payload of the answer.
abbrev pub IsReply :
    {A : Type 0} → MsgPriority → ℤ × Bytes → Ret × Option Msg × Messaging A → Type 0
IsReply pri (status, payload) (ret, msg, s) =
    (ret ≡ ok)
    × ((m : Msg) × (msg ≡ some m)
        × (m.status ≡ status)
        × (cstr m.payload ≡ take 127 (cstr payload))
        × (m.priority ≡ pri))

is_answer-response_json :
    {A : Type 0} (seq : ℕ) (pri : MsgPriority) (rsp : Response A)
    → rsp.seq ≡ signed32 seq
    → rsp.priority ≡ pri
    → seq < 2 ^ 32
    → is_answer seq pri (response_text (response_json rsp)) ≡ true
unfolding is_answer response_json
is_answer-response_json seq pri rsp e f small =
    rw (f, priority_of-number_of pri, pri_eq_refl pri, e, u32-signed32 seq small)
      ((==_iff seq seq).1 refl)

-- The sender has a response with its number and priority in its hands.
received :
    {A : Type 0} (max_peers : ℕ) (peers : Peers) (encoded : Bool) (sent : Ret) (service : Bytes)
    (priority : ℤ) (deadline_ms : ℕ) (send_time : ℤ) (s : Messaging A) (seq : ℕ) (pri : MsgPriority)
    (rs : List MsgRsp) (rsp : Response A) (status : ℤ) (text : Bytes)
    → (send_begin max_peers peers true encoded sent (some service) true priority s).0
      ≡ waiting seq pri
    → is_answer seq pri (response_text (response_json rsp)) ≡ true
    → rsp.status ≡ status
    → rsp.payload ≡ text
    → IsReply pri
        (status, text)
        (after_wait
          (rs ++ (response_text (response_json rsp) ∷ []))
          deadline_ms
          send_time
          (waiting seq pri)
          ((send_begin max_peers peers true encoded sent (some service) true priority s).1))
unfolding response_json
received max_peers peers encoded sent service priority deadline_ms send_time s seq pri rs rsp status
      text goes answers e f =
    let x = response_text (response_json rsp) in
    let end =
      after_wait (rs ++ (x ∷ [])) deadline_ms send_time (waiting seq pri)
        (send_begin max_peers peers true encoded sent (some service) true priority s).1 in
    let (ret, (m, msg, st, tx, pr, dl, ti)) =
      subst (λ o. Outcome pri deadline_ms send_time o end)
        (last_answer-append seq pri rs x answers none)
        (exchange_lem max_peers peers true encoded sent (some service) true priority s seq pri
          (rs ++ (x ∷ [])) deadline_ms send_time goes) in
    let shown = tx ∙ ap (take 127) (cstr-cstr rsp.payload) ∙ ap (λ b. take 127 (cstr b)) f in
    (ret, (m, msg, st ∙ e, shown, pr))

module _ {A : Type 0} (errno : Errno → ℕ) (encodes : Response A → Bool) (server : ℕ)
    (r : Registry Handler) (depth : ℕ) (parse_req : Bytes → Option MsgReq × Bytes)
    (parse_rsp : Bytes → Option MsgRsp) where
  -- The packet of a request is put at the end of the queue of its priority.
  queued :
      (src : A) (buf : Bytes) (req : MsgReq) (pri : MsgPriority) (t : Messaging A)
      → (parse_req buf).0 ≡ some req
      → is_type req_type req.type ≡ true
      → priority_of req.priority ≡ pri
      → length (at pri t.msgq) < depth
      → at pri (dispatch errno encodes (some server) depth parse_req parse_rsp src buf t).1.msgq
        ≡ at pri t.msgq ++ (dispatch_item src req ∷ [])
  unfolding dispatch dispatch_request
  queued src buf req pri t parsed is_req e room =
      rw (parsed, is_req, e, less room, dispatch)
        (at-put_self (at pri t.msgq ++ (dispatch_item src req ∷ [])) t.msgq pri)

  -- Once the items before it are served, the next round answers it.
  answered :
      ((x : Response A) → encodes x ≡ true)
      → (src : A) (buf : Bytes) (req : MsgReq) (pri : MsgPriority) (nows : List ℕ) (now : ℕ)
        (t : Messaging A)
      → (parse_req buf).0 ≡ some req
      → is_type req_type req.type ≡ true
      → priority_of req.priority ≡ pri
      → length (at pri t.msgq) < depth
      → length nows ≡ length (at pri t.msgq)
      → let item = dispatch_item src req in
        let t1 = (dispatch errno encodes (some server) depth parse_req parse_rsp src buf t).1 in
        let t2 = after_rounds errno encodes (some server) r pri nows t1 in
        IsAnsweredBy errno encodes server src req.seq pri
          (reply errno r now req item.payload)
          (handle_next errno encodes (some server) r now pri t2).0
  unfolding handle_next
  answered fits src buf req pri nows now t parsed is_req e room turns =
      let item = dispatch_item src req in
      let t1 = (dispatch errno encodes (some server) depth parse_req parse_rsp src buf t).1 in
      let t2 = after_rounds errno encodes (some server) r pri nows t1 in
      let next : at pri t2.msgq ≡ item ∷ [] =
        msgq-after_rounds errno encodes (some server) r pri nows t1
        ∙ ap (drop (length nows)) (queued src buf req pri t parsed is_req e room)
        ∙ ap (λ n. drop n (at pri t.msgq ++ (item ∷ []))) turns
        ∙ drop_ahead (at pri t.msgq) item in
      rw (next, handle_next) (handler_round_lem errno encodes server fits r now pri src req).0

  -- A request that one node sends to another gets the answer of the service, where the sender's
  -- request has gone out with the number `seq`; the packet comes to a node with an identity, whose
  -- JSON parser reads the request back and whose responses fit their buffer; the queue of the
  -- request's priority has room there; and its handler thread does one round for each item before it
  -- and one more. Then that node sends exactly one response, to where the packet came from, and the
  -- sender, if this is the last response that its dispatcher hands over during the wait and no other
  -- send claims the slot meanwhile, gets the
  -- status and the first 127 bytes of the text that the handler of the first service of that name
  -- makes of the first 127 bytes of the payload, or that the request is late, or the service
  -- unknown.
  pub call_lem :
      ((x : Response A) → encodes x ≡ true)
      → (max_peers : ℕ) (peers : Peers) (encoded : Bool) (sent : Ret) (service : Bytes)
        (payload : Option Bytes) (priority : ℤ) (deadline_ms : ℕ) (send_time : ℤ) (s : Messaging A)
        (seq client : ℕ) (pri : MsgPriority) (rs : List MsgRsp)
      → (send_begin max_peers peers true encoded sent (some service) true priority s).0
        ≡ waiting seq pri
      → seq < 2 ^ 32
      → (src : A) (buf : Bytes) (nows : List ℕ) (now : ℕ) (t : Messaging A)
      → (parse_req buf).0
        ≡ some (request_text (request_json client seq service payload pri deadline_ms send_time))
      → length (at pri t.msgq) < depth
      → length nows ≡ length (at pri t.msgq)
      → let s1 = (send_begin max_peers peers true encoded sent (some service) true priority s).1 in
        let t1 = (dispatch errno encodes (some server) depth parse_req parse_rsp src buf t).1 in
        let t2 = after_rounds errno encodes (some server) r pri nows t1 in
        (rsp : Response A) × (args : Bytes) × ((handle_next errno encodes
            (some server)
            r
            now
            pri
            t2).0
          ≡ rsp ∷ [])
        × (rsp.dest ≡ src)
        × (cstr args ≡ take 127 (cstr (or_empty payload)))
        × (IsReply pri
            (reply errno r now
              (request_json client seq service payload pri deadline_ms send_time)
              args)
            (after_wait
              (rs ++ (response_text (response_json rsp) ∷ []))
              deadline_ms
              send_time
              (waiting seq pri)
              s1))
  unfolding request_json cstr bytes_eq
  call_lem fits max_peers peers encoded sent service payload priority deadline_ms send_time s seq
        client pri rs goes small src buf nows now t parsed room turns =
      let req = request_json client seq service payload pri deadline_ms send_time in
      let item = dispatch_item src (request_text req) in
      let a =
        answered fits src buf (request_text req) pri nows now t parsed refl
          (priority_of-number_of pri) room turns in
      let asked : text_of 32 (some (cstr service)) ≡ text_of 32 (some service) =
        ap (take 31) (cstr-cstr service) in
      let text = (handler_round_lem errno encodes server fits r now pri src (request_text req)).1 in
      (
        a.0,
        item.payload,
        a.1,
        a.2,
        text ∙ ap (take 127) (cstr-cstr (or_empty payload)),
        subst
            (λ name.
              IsReply pri
                (answer errno (is_late now req) (handler_of (first_named name (contents r)))
                  item.payload)
                (after_wait (rs ++ (response_text (response_json a.0) ∷ [])) deadline_ms send_time
                  (waiting seq pri)
                  ((send_begin max_peers peers true encoded sent (some service) true priority
                    s).1)))
            asked
            (received max_peers peers encoded sent service priority deadline_ms send_time s seq pri
              rs a.0 _ _ goes (is_answer-response_json seq pri a.0 a.3 a.6 small) a.4 a.5),
      )
