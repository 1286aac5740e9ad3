-- ===== src/Messaging/Dispatch/Handle.antt =====
-- How a request is answered by the handler thread of its priority.
use ceell.Prelude.{
  ℕ, zero, suc, ◌-◌, ◌<◌, ◌≡◌, refl, Bool, true, false, ◌&&◌, Option, none, some, List, [], ◌∷◌,
  arith, take, replicate, ltb,
}
use ceell.Prelude.Int.{ℤ, pos, ◌+ℤ◌, ltb_ℤ, leb_ℤ, u16, signed32}
use ceell.Errno.{Errno, enoent, etimedout}
use ceell.Bytes.{Bytes, cstr, copy_if}
use ceell.Bytes.Copy.{cstr-strncpy-replicate}
use ceell.Registry.{Registry, service_get_handler}
use ceell.Registry.Table.{Service, contents}
use ceell.Registry.Lookup.{first_named, Answers, getters_lem}
use ceell.Messaging.{MsgPriority, deadline_expired, DispatchItem, MsgReq, Response}
use ceell.Messaging.Dispatch.{
  Handler, deadline_expired_text, unknown_service_text, minus, send_response, item_expired,
  handler_round, dispatch_item,
}

-- The request has a deadline that is over, where only its lowest 16 bits count.
abbrev pub is_late : ℕ → MsgReq → Bool
is_late now req =
    ltb_ℤ (pos 0) req.deadline_ms
    && (ltb 0 (u16 req.deadline_ms)
        && leb_ℤ (req.send_time_ms +ℤ pos (u16 req.deadline_ms)) (pos now))

abbrev pub handler_of : Option (Service Handler) → Option Handler
handler_of none = none
handler_of (some s) = s.handler

-- The text that an array of `n` bytes keeps of a field of a request.
abbrev pub text_of : ℕ → Option Bytes → Bytes
text_of n none = []
text_of n (some src) = take (n - 1) (cstr src)

handler_found :
    (r : Registry Handler) (name : Bytes)
    → service_get_handler r (some name) ≡ handler_of (first_named (cstr name) (contents r))
handler_found r name = go (first_named (cstr name) (contents r)) (getters_lem r name)
  where
    go :
        (o : Option (Service Handler))
        → Answers r name o
        → service_get_handler r (some name) ≡ handler_of o
    go none a = a.0
    go (some s) a = a.0

copied_text :
    (n : ℕ) (src : Option Bytes) → 0 < n → cstr (copy_if n (replicate n 0) src) ≡ text_of n src
unfolding cstr
copied_text zero none h = absurd (omega arith)
copied_text (suc n) none h = refl
copied_text n (some src) h = cstr-strncpy-replicate src (n - 1) n (omega arith)

late_lem :
    {A : Type 0} (now : ℕ) (src : A) (req : MsgReq)
    → item_expired now (dispatch_item src req) ≡ is_late now req
unfolding item_expired dispatch_item deadline_expired
late_lem now src req = ground arith

-- Status and payload of the answer, from the handler that is found.
abbrev pub answer : (Errno → ℕ) → Bool → Option Handler → Bytes → ℤ × Bytes
answer errno true h payload = (minus errno etimedout, deadline_expired_text)
answer errno false none payload = (minus errno enoent, unknown_service_text)
answer errno false (some h) payload = h payload (replicate 128 0)

module _ {A : Type 0} (errno : Errno → ℕ) (encodes : Response A → Bool) (id : ℕ) where
  -- One response, to the sender of the request, with its number and its priority.
  abbrev pub IsAnsweredBy : A → ℤ → MsgPriority → ℤ × Bytes → List (Response A) → Type 0
  IsAnsweredBy src seq pri (status, payload) out =
      (rsp : Response A) × (out ≡ rsp ∷ [])
      × (rsp.dest ≡ src)
      × (rsp.seq ≡ seq)
      × (rsp.status ≡ status)
      × (rsp.payload ≡ payload)
      × (rsp.priority ≡ pri)

  module _ (fits : (x : Response A) → encodes x ≡ true) where
    sent :
        (src : A) (seq status : ℤ) (payload : Bytes) (pri : MsgPriority)
        → IsAnsweredBy src seq pri
            (status, payload)
            (send_response errno encodes (some id) src seq status payload pri)
    unfolding send_response
    sent src seq status payload pri =
        let rsp : Response A = record {
          dest = src;
          seq = seq;
          from_id = signed32 id;
          status = status;
          payload = payload;
          priority = pri;
        } in
        rw (fits rsp) (rsp, refl, refl, refl, refl, refl, refl)

    round_lem :
        (r : Registry Handler) (now : ℕ) (pri : MsgPriority) (item : DispatchItem A) (late : Bool)
        (h : Option Handler)
        → item_expired now item ≡ late
        → service_get_handler r (some item.to_svc) ≡ h
        → IsAnsweredBy item.src_addr item.seq pri
            (answer errno late h item.payload)
            (handler_round errno encodes (some id) r now pri item)
    unfolding handler_round
    round_lem r now pri item true h e f =
        rw e (sent item.src_addr item.seq (minus errno etimedout) deadline_expired_text pri)
    round_lem r now pri item false none e f =
        rw (e, f) (sent item.src_addr item.seq (minus errno enoent) unknown_service_text pri)
    round_lem r now pri item false (some h) e f =
        let (status, payload) = h item.payload (replicate 128 0) in
        rw (e, f) (sent item.src_addr item.seq status payload pri)

    -- A node with an identity, whose responses fit their buffer, answers every request that its
    -- handler thread takes with exactly one response to the sender, with the request's number and the thread's
    -- priority: a late one with a timeout, one for
    -- a name without a handler with "unknown service", and every other one with what the handler of the
    -- first service of that name makes of the payload. The name is cut to 31 bytes, the payload to 127.
    pub handler_round_lem :
        (r : Registry Handler) (now : ℕ) (pri : MsgPriority) (src : A) (req : MsgReq)
        → let item = dispatch_item src req in
          IsAnsweredBy src req.seq pri
            (answer errno
              (is_late now req)
              (handler_of (first_named (text_of 32 req.to_svc) (contents r)))
              item.payload)
            (handler_round errno encodes (some id) r now pri item)
          × (cstr item.payload ≡ text_of 128 req.payload)
    unfolding dispatch_item
    handler_round_lem r now pri src req =
        let item = dispatch_item src req in
        let named = handler_found r item.to_svc in
        let text = copied_text 32 req.to_svc (omega arith) in
        let h = handler_of (first_named (text_of 32 req.to_svc) (contents r)) in
        (
          round_lem r now pri item (is_late now req) h (late_lem now src req) (rw text at named),
          copied_text 128 req.payload (omega arith),
        )
