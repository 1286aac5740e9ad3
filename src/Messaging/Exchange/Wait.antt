-- ===== src/Messaging/Exchange/Wait.antt =====
-- What a sender gets for a request: the last response with its number and priority, or a timeout.
use ceell.Prelude.{
  ℕ, ◌≡◌, ◌≢◌, replicate, refl, subst, ◌∙◌, Bool, true, false, ◌&&◌, Option, none, some, List, [],
  ◌∷◌, arith, length, if◌then◌else◌, ◌==◌, Bool-cases, inl, inr, ◌⊎◌, take,
}
use ceell.Prelude.Int.{ℤ, u32}
use ceell.Errno.{Ret, Errno, ok, err, etimedout, enoent, enodev}
use ceell.Bytes.{Bytes, cstr}
use ceell.Bytes.Copy.{cstr-set-strncpy, length-copy_str}
use ceell.Discovery.{Peers, service_find_peer}
use ceell.Messaging.{
  MsgPriority, critical, normal, bulk, at, priority_of, Msg, MsgRsp, RspSlot, Messaging,
}
use ceell.Messaging.Priority.{pri_eq, pri_eq→≡, pri_eq_refl, at-put_self, at-put_ne}
use ceell.Messaging.Exchange.{
  copy_payload, fill_slot, handle_response, claim_slot, refused, waiting, send_request, send_begin,
  send_end, handle_all, after_wait,
}
use ceell.Messaging.Exchange.Resets.{send_wait-handle_all}

-- The response carries the number and the priority of the request.
unfoldable pub is_answer : ℕ → MsgPriority → MsgRsp → Bool
is_answer seq pri r = pri_eq (priority_of r.priority) pri && (u32 r.seq == seq)

-- The last answer among the responses, if `o` is the last one before them.
unfoldable pub last_answer : ℕ → MsgPriority → Option MsgRsp → List MsgRsp → Option MsgRsp
unfolding is_answer
last_answer seq pri o [] = o
last_answer seq pri o (r ∷ rs) = last_answer seq pri (if is_answer seq pri r then some r else o) rs

-- The text of the payload as it fits its array.
abbrev pub payload_text : Option Bytes → Bytes
payload_text none = []
payload_text (some src) = take 127 (cstr src)

abbrev pub Holds : Option MsgRsp → RspSlot → Type 0
Holds none t = t.rsp_sem ≡ 0
Holds (some r) t =
    (t.rsp_sem ≡ 1)
    × (t.pending_rsp.status ≡ r.status)
    × (cstr t.pending_rsp.payload ≡ payload_text r.payload)

pub record Awaits (seq : ℕ) (o : Option MsgRsp) (t : RspSlot) : Type 0 where
  pub numbered : t.pending_seq ≡ seq
  pub size : length t.pending_rsp.payload ≡ 128
  pub holds : Holds o t

copied :
    (dst : Bytes) (src : Option Bytes)
    → length dst ≡ 128
    → (cstr (copy_payload dst src) ≡ payload_text src) × (length (copy_payload dst src) ≡ 128)
unfolding cstr
copied [] src h = absurd (omega arith)
copied (d ∷ dst) none h = (refl, h)
copied (d ∷ dst) (some src) h =
    (cstr-set-strncpy (d ∷ dst) src 127 (omega arith), length-copy_str 128 (d ∷ dst) src ∙ h)

Awaits-fill :
    (seq : ℕ) (o : Option MsgRsp) (t : RspSlot) (pri : MsgPriority) (r : MsgRsp)
    → Awaits seq o t
    → Awaits seq (some r) (fill_slot t pri r)
Awaits-fill seq o t pri r w =
    let c = copied t.pending_rsp.payload r.payload w.size in
    record { numbered = w.numbered; size = c.1; holds = (counts o t w.holds, refl, c.0) }
  where
    counts : (o : Option MsgRsp) (t : RspSlot) → Holds o t → (fill_slot t pri r).rsp_sem ≡ 1
    counts none t h = omega arith
    counts (some r') t h = omega arith

module _ {A : Type 0} (seq : ℕ) (pri : MsgPriority) where
  module _ (o : Option MsgRsp) (r : MsgRsp) (s : Messaging A)
      (w : Awaits seq o (at pri s.slots)) where
    same_priority :
        priority_of r.priority ≡ pri
        → Awaits seq
            (if is_answer seq pri r then some r else o)
            (at pri (handle_response r s).slots)
    unfolding is_answer handle_response
    same_priority e =
        let slot = at pri s.slots in
        let shown : (b : Bool) → (u32 r.seq == seq) ≡ b → (u32 r.seq == slot.pending_seq) ≡ b =
          λ b h. rw w.numbered h in
        elim (Bool-cases (u32 r.seq == seq)) [
          | inl hit ↦
              rw
                (
                  e,
                  pri_eq_refl pri,
                  shown true hit,
                  at-put_self (fill_slot slot pri r) s.slots pri,
                  hit,
                )
                (Awaits-fill seq o slot pri r w)
          | inr miss ↦ rw (e, pri_eq_refl pri, shown false miss, miss) w
        ]

    other_priority :
        pri_eq (priority_of r.priority) pri ≡ false
        → Awaits seq
            (if is_answer seq pri r then some r else o)
            (at pri (handle_response r s).slots)
    unfolding is_answer handle_response
    other_priority e =
        let q = priority_of r.priority in
        elim (Bool-cases (u32 r.seq == (at q s.slots).pending_seq)) [
          | inl hit ↦ rw (e, hit, at-put_ne (fill_slot (at q s.slots) q r) s.slots q pri e) w
          | inr miss ↦ rw (e, miss) w
        ]

    Awaits-handle_response :
        Awaits seq (if is_answer seq pri r then some r else o) (at pri (handle_response r s).slots)
    Awaits-handle_response = elim (Bool-cases (pri_eq (priority_of r.priority) pri)) [
      | inl e ↦ same_priority (pri_eq→≡ (priority_of r.priority) pri e)
      | inr e ↦ other_priority e
    ]

  pub Awaits-handle_all :
      (o : Option MsgRsp) (rs : List MsgRsp) (s : Messaging A)
      → Awaits seq o (at pri s.slots)
      → Awaits seq (last_answer seq pri o rs) (at pri (handle_all rs s).slots)
  unfolding last_answer handle_all
  Awaits-handle_all o [] s w = w
  Awaits-handle_all o (r ∷ rs) s w =
      Awaits-handle_all (if is_answer seq pri r then some r else o) rs (handle_response r s)
        (Awaits-handle_response o r s w)

Awaits-claim_slot :
    {A : Type 0} (pri : MsgPriority) (s : Messaging A)
    → Awaits (claim_slot pri s).0 none (at pri (claim_slot pri s).1.slots)
unfolding claim_slot
Awaits-claim_slot critical s = record { numbered = refl; size = refl; holds = refl }
Awaits-claim_slot normal s = record { numbered = refl; size = refl; holds = refl }
Awaits-claim_slot bulk s = record { numbered = refl; size = refl; holds = refl }

send_request-waiting :
    (encoded : Bool) (sent : Ret) (seq seq' : ℕ) (pri pri' : MsgPriority)
    → send_request encoded sent seq pri ≡ waiting seq' pri'
    → (seq ≡ seq') × (pri ≡ pri')
unfolding send_request
send_request-waiting false sent seq seq' pri pri' e = cc
send_request-waiting true (err x) seq seq' pri pri' e = cc
send_request-waiting true ok seq seq' pri pri' e = (cc, cc)

refused_waiting : (x : Errno) {seq : ℕ} {pri : MsgPriority} → refused x ≢ waiting seq pri
refused_waiting x e = cc

Ret-cases : (r : Ret) → (r ≡ ok) ⊎ ((e : Errno) × (r ≡ err e))
Ret-cases ok = inl refl
Ret-cases (err e) = inr (e, refl)

-- A sender that waits has claimed the slot of its priority.
pub send_begin-claim_slot :
    {A : Type 0} (max_peers : ℕ) (peers : Peers) (self encoded : Bool) (sent : Ret)
    (service : Option Bytes) (rsp : Bool) (priority : ℤ) (s : Messaging A) (seq : ℕ)
    (pri : MsgPriority)
    → (send_begin max_peers peers self encoded sent service rsp priority s).0 ≡ waiting seq pri
    → ((claim_slot pri s).0 ≡ seq)
      × ((send_begin max_peers peers self encoded sent service rsp priority s).1
          ≡ (claim_slot pri s).1)
unfolding send_begin
send_begin-claim_slot max_peers peers self encoded sent none rsp priority s seq pri e = cc
send_begin-claim_slot max_peers peers self encoded sent (some service) false priority s seq pri e =
    cc
send_begin-claim_slot max_peers peers false encoded sent (some service) true priority s seq pri e =
    elim (Ret-cases (service_find_peer max_peers peers (some service) (some (replicate 16 0))).0) [
      | inr (x, f) ↦ absurd (refused_waiting enoent (rw (f, send_begin) at e))
      | inl f ↦ absurd (refused_waiting enodev (rw (f, send_begin) at e))
    ]
send_begin-claim_slot max_peers peers true encoded sent (some service) true priority s seq pri e =
    elim (Ret-cases (service_find_peer max_peers peers (some service) (some (replicate 16 0))).0) [
      | inr (x, f) ↦ absurd (refused_waiting enoent (rw (f, send_begin) at e))
      | inl f ↦
          let p = priority_of priority in
          let q =
            send_request-waiting encoded sent (claim_slot p s).0 seq p pri
              (rw (f, send_begin) at e) in
          rw (f, send_begin, ← q.1) (q.0, refl)
    ]

pub Awaits-send_begin :
    {A : Type 0} (max_peers : ℕ) (peers : Peers) (self encoded : Bool) (sent : Ret)
    (service : Option Bytes) (rsp : Bool) (priority : ℤ) (s : Messaging A) (seq : ℕ)
    (pri : MsgPriority)
    → (send_begin max_peers peers self encoded sent service rsp priority s).0 ≡ waiting seq pri
    → Awaits seq none
        (at pri (send_begin max_peers peers self encoded sent service rsp priority s).1.slots)
Awaits-send_begin max_peers peers self encoded sent service rsp priority s seq pri e =
    let c =
      send_begin-claim_slot max_peers peers self encoded sent service rsp priority s seq pri e in
    rw c.1
      (subst (λ n. Awaits n none (at pri (claim_slot pri s).1.slots)) c.0 (Awaits-claim_slot pri s))

-- What the sender has at the end of its wait, if `o` is the answer.
abbrev pub Outcome :
    {A : Type 0} → MsgPriority → ℕ → ℤ → Option MsgRsp → Ret × Option Msg × Messaging A → Type 0
Outcome pri deadline_ms send_time none (ret, msg, s) = (ret ≡ err etimedout) × (msg ≡ none)
Outcome pri deadline_ms send_time (some r) (ret, msg, s) =
    (ret ≡ ok)
    × ((m : Msg) × (msg ≡ some m)
        × (m.status ≡ r.status)
        × (cstr m.payload ≡ payload_text r.payload)
        × (m.priority ≡ pri)
        × (m.deadline_ms ≡ deadline_ms)
        × (m.send_time_ms ≡ send_time))

pub ended :
    {A : Type 0} (pri : MsgPriority) (deadline_ms : ℕ) (send_time : ℤ) (o : Option MsgRsp)
    (s : Messaging A)
    → Holds o (at pri s.slots)
    → Outcome pri deadline_ms send_time o (send_end pri deadline_ms send_time s)
unfolding send_end
ended pri deadline_ms send_time none s h = rw h (refl, refl)
ended pri deadline_ms send_time (some r) s h = rw h.0 (
  refl,
  (
    record (at pri s.slots).pending_rsp {
      priority = pri;
      deadline_ms = deadline_ms;
      send_time_ms = send_time;
    },
    refl,
    h.1,
    h.2,
    refl,
    refl,
    refl,
  ),
)

-- A sender whose request went out, and whose slot no other send claims meanwhile, gets, whatever
-- responses come in while it waits, the last one that carries the number and the priority of the request, its payload cut to 127 bytes; responses with
-- another number or of another priority do not reach it, and without an answer it times out.
pub exchange_lem :
    {A : Type 0} (max_peers : ℕ) (peers : Peers) (self encoded : Bool) (sent : Ret)
    (service : Option Bytes) (rsp : Bool) (priority : ℤ) (s : Messaging A) (seq : ℕ)
    (pri : MsgPriority) (rs : List MsgRsp) (deadline_ms : ℕ) (send_time : ℤ)
    → (send_begin max_peers peers self encoded sent service rsp priority s).0 ≡ waiting seq pri
    → Outcome pri deadline_ms send_time (last_answer seq pri none rs) (
        after_wait rs deadline_ms send_time
          (waiting seq pri)
          (send_begin max_peers peers self encoded sent service rsp priority s).1)
exchange_lem max_peers peers self encoded sent service rsp priority s seq pri rs deadline_ms
      send_time e =
    let s' = (send_begin max_peers peers self encoded sent service rsp priority s).1 in
    let w =
      Awaits-handle_all seq pri none rs s'
        (Awaits-send_begin max_peers peers self encoded sent service rsp priority s seq pri e) in
    rw (send_wait-handle_all pri deadline_ms send_time rs s')
      (ended pri deadline_ms send_time (last_answer seq pri none rs) (handle_all rs s') w.holds)
