-- ===== src/Messaging/Dispatch/Route.antt =====
-- The queues between the dispatcher and the handler threads: bounded, and first in, first out for each
-- priority.
use ceell.Prelude.{
  ℕ, ◌≤◌, ◌==◌, ◌≡◌, refl, sym, ap, ◌∙◌, Bool, ◌&&◌, Option, List, [], ◌∷◌, ◌++◌, arith, length,
  length-append, append_assoc, append-nil, if◌then◌else◌, ltb, Bool-cases, inl, inr, ◌⊎◌,
}
use ceell.Prelude.Int.{u32}
use ceell.Errno.{Errno}
use ceell.Registry.{Registry}
use ceell.Messaging.{
  MsgPriority, at, priority_of, DispatchItem, MsgReq, MsgRsp, Response, Messaging,
}
use ceell.Messaging.Priority.{pri_eq, pri_eq→≡, pri_eq_refl, at-put_self, at-put_ne}
use ceell.Messaging.Exchange.{handle_response}
use ceell.Messaging.Dispatch.{Handler, dispatch_item, dispatch_request, handle_next}

pub List-cases {ℓ} :
    {X : Type ℓ} (xs : List X) → (xs ≡ []) ⊎ ((x : X) × (rest : List X) × (xs ≡ x ∷ rest))
List-cases [] = inl refl
List-cases (x ∷ xs) = inr (x, xs, refl)

-- What happens to the queues: a request or a response arrives, or a handler thread takes its next item.
pub data Event (A : Type 0) : Type 0 where
  request : A → MsgReq → Event A
  response : MsgRsp → Event A
  serve : ℕ → MsgPriority → Event A

abbrev head_of {ℓ} : {X : Type ℓ} → List X → List X
head_of [] = []
head_of (x ∷ xs) = x ∷ []

pub msgq-handle_response :
    {A : Type 0} (rsp : MsgRsp) (s : Messaging A) → (handle_response rsp s).msgq ≡ s.msgq
unfolding handle_response
msgq-handle_response rsp s =
    elim (Bool-cases (u32 rsp.seq == (at (priority_of rsp.priority) s.slots).pending_seq)) [
      | inl hit ↦ rw hit refl
      | inr miss ↦ rw miss refl
    ]

module _ {A : Type 0} (errno : Errno → ℕ) (encodes : Response A → Bool) (self : Option ℕ)
    (r : Registry Handler) (depth : ℕ) where
  unfoldable pub step : Event A → Messaging A → Messaging A
  step (request src req) s = (dispatch_request errno encodes self depth src req s).1
  step (response rsp) s = handle_response rsp s
  step (serve now pri) s = (handle_next errno encodes self r now pri s).1

  -- The items that the event puts into the queue of the priority `q`, and takes from it.
  unfoldable pub accepted : MsgPriority → Event A → Messaging A → List (DispatchItem A)
  accepted q (request src req) s =
      if pri_eq (priority_of req.priority) q && ltb (length (at q s.msgq)) depth
      then dispatch_item src req ∷ []
      else []
  accepted q (response rsp) s = []
  accepted q (serve now pri) s = []

  unfoldable pub served : MsgPriority → Event A → Messaging A → List (DispatchItem A)
  served q (request src req) s = []
  served q (response rsp) s = []
  served q (serve now pri) s = if pri_eq pri q then head_of (at q s.msgq) else []

  unfoldable pub run : List (Event A) → Messaging A → Messaging A
  run [] s = s
  run (e ∷ es) s = run es (step e s)

  unfoldable pub all_accepted : MsgPriority → List (Event A) → Messaging A → List (DispatchItem A)
  all_accepted q [] s = []
  all_accepted q (e ∷ es) s = accepted q e s ++ all_accepted q es (step e s)

  unfoldable pub all_served : MsgPriority → List (Event A) → Messaging A → List (DispatchItem A)
  all_served q [] s = []
  all_served q (e ∷ es) s = served q e s ++ all_served q es (step e s)

  -- An event keeps the queue's order, and its bound.
  abbrev pub Ordered : MsgPriority → Event A → Messaging A → Type 0
  Ordered q e s =
      (at q s.msgq ++ accepted q e s ≡ served q e s ++ at q (step e s).msgq)
      × (length (at q s.msgq) ≤ depth → length (at q (step e s).msgq) ≤ depth)

  response-Ordered : (q : MsgPriority) (rsp : MsgRsp) (s : Messaging A) → Ordered q (response rsp) s
  unfolding step accepted served
  response-Ordered q rsp s =
      let e = ap (at q) (msgq-handle_response rsp s) in
      (append-nil (at q s.msgq) ∙ sym e, λ h. rw e h)

  request-Ordered :
      (q : MsgPriority) (src : A) (req : MsgReq) (s : Messaging A) → Ordered q (request src req) s
  unfolding step accepted served dispatch_request
  request-Ordered q src req s =
      let pri = priority_of req.priority in
      let item = dispatch_item src req in
      elim (Bool-cases (pri_eq pri q)) [
        | inr other ↦ elim (Bool-cases (ltb (length (at pri s.msgq)) depth)) [
          | inl room ↦
              let e = at-put_ne (at pri s.msgq ++ (item ∷ [])) s.msgq pri q other in
              rw (other, room, step, dispatch_request)
                ((append-nil (at q s.msgq) ∙ sym e, λ h. rw e h))
          | inr no_room ↦
              rw (other, no_room, step, dispatch_request) ((append-nil (at q s.msgq), λ h. h))
        ]
        | inl same ↦ elim (Bool-cases (ltb (length (at pri s.msgq)) depth)) [
          | inl room ↦
              rw
                (
                  ← pri_eq→≡ pri q same,
                  pri_eq_refl pri,
                  room,
                  step,
                  dispatch_request,
                  at-put_self (at pri s.msgq ++ (item ∷ [])) s.msgq pri,
                )
                (refl, λ h. ground (arith, room, length-append (at pri s.msgq) (item ∷ [])))
          | inr no_room ↦
              rw (← pri_eq→≡ pri q same, pri_eq_refl pri, no_room, step, dispatch_request)
                (append-nil (at pri s.msgq), λ h. h)
        ]
      ]

  serve-Ordered :
      (q : MsgPriority) (now : ℕ) (pri : MsgPriority) (s : Messaging A)
      → Ordered q (serve now pri) s
  unfolding step accepted served handle_next
  serve-Ordered q now pri s = elim (List-cases (at pri s.msgq)) [
    | inl empty ↦ elim (Bool-cases (pri_eq pri q)) [
      | inl same ↦
          rw (← pri_eq→≡ pri q same, pri_eq_refl pri, empty, step, handle_next)
            (sym empty, λ h. rw empty h)
      | inr other ↦ rw (other, empty, step, handle_next) (append-nil (at q s.msgq), λ h. h)
    ]
    | inr (item, rest, e) ↦ elim (Bool-cases (pri_eq pri q)) [
      | inl same ↦
          rw
            (
              ← pri_eq→≡ pri q same,
              pri_eq_refl pri,
              e,
              step,
              handle_next,
              at-put_self rest s.msgq pri,
            )
            (append-nil (item ∷ rest), λ h. omega arith)
      | inr other ↦
          rw (other, e, step, handle_next, at-put_ne rest s.msgq pri q other)
            (append-nil (at q s.msgq), λ h. h)
    ]
  ]

  pub step-Ordered : (q : MsgPriority) (e : Event A) (s : Messaging A) → Ordered q e s
  step-Ordered q (request src req) s = request-Ordered q src req s
  step-Ordered q (response rsp) s = response-Ordered q rsp s
  step-Ordered q (serve now pri) s = serve-Ordered q now pri s

  -- Whatever arrives and whichever handler thread runs, the queue of each priority is bounded and first in,
  -- first out: the items that its thread took, and then those that wait, are the ones that waited at the
  -- start and then those that were accepted, in this order, none lost, doubled or taken by another
  -- priority's thread.
  pub run_fifo :
      (q : MsgPriority) (es : List (Event A)) (s : Messaging A)
      → length (at q s.msgq) ≤ depth
      → (at q s.msgq ++ all_accepted q es s ≡ all_served q es s ++ at q (run es s).msgq)
        × (length (at q (run es s).msgq) ≤ depth)
  unfolding run all_accepted all_served
  run_fifo q [] s h = (append-nil (at q s.msgq), h)
  run_fifo q (e ∷ es) s h =
      let o = step-Ordered q e s in
      let ih = run_fifo q es (step e s) (o.1 h) in
      (
        sym (append_assoc (at q s.msgq) (accepted q e s) (all_accepted q es (step e s)))
            ∙ ap (λ l. l ++ all_accepted q es (step e s)) o.0
            ∙ append_assoc (served q e s) (at q (step e s).msgq) (all_accepted q es (step e s))
            ∙ ap (◌++◌ (served q e s)) ih.0
            ∙ sym (
                append_assoc (served q e s) (all_served q es (step e s))
                  (at q (run es (step e s)).msgq)),
        ih.1,
      )
