-- ===== src/Messaging/Exchange/Superseded.antt =====
-- Two senders of one priority at the same time: they share the slot, and the second resets its
-- semaphore.
use ceell.Prelude.{
  ℕ, ◌+◌, ◌%◌, ◌^◌, ◌≡◌, refl, sym, ap, subst, ◌∙◌, Bool, true, Option, none, some, List, [], ◌∷◌,
  arith, ◌==◌, ==_iff, Bool-cases, inl, inr,
}
use ceell.Prelude.Int.{ℤ, u32}
use ceell.Errno.{Ret}
use ceell.Bytes.{Bytes}
use ceell.Discovery.{Peers}
use ceell.Messaging.{MsgPriority, critical, normal, bulk, at, priority_of, MsgRsp, Messaging}
use ceell.Messaging.Priority.{at-put_self}
use ceell.Messaging.Exchange.{
  waiting, claim_slot, send_begin, send_end, send_wait, handle_response, handle_all,
}
use ceell.Messaging.Exchange.Resets.{resets-handle_all, send_wait-send_end}
use ceell.Messaging.Exchange.Wait.{
  send_begin-claim_slot, last_answer, Outcome, ended, Holds, Awaits-send_begin, Awaits-handle_all,
}

module _ {A : Type 0} where
  next_seq-handle_response :
      (r : MsgRsp) (s : Messaging A) → (handle_response r s).next_seq ≡ s.next_seq
  unfolding handle_response
  next_seq-handle_response r s =
      elim (Bool-cases (u32 r.seq == (at (priority_of r.priority) s.slots).pending_seq)) [
        | inl hit ↦ rw hit refl
        | inr miss ↦ rw miss refl
      ]

  next_seq-handle_all :
      (rs : List MsgRsp) (s : Messaging A) → (handle_all rs s).next_seq ≡ s.next_seq
  unfolding handle_all
  next_seq-handle_all [] s = refl
  next_seq-handle_all (r ∷ rs) s =
      next_seq-handle_all rs (handle_response r s) ∙ next_seq-handle_response r s

  timed_out :
      (pri : MsgPriority) (d : ℕ) (t : ℤ) (s : Messaging A)
      → (at pri s.slots).rsp_sem ≡ 0
      → Outcome pri d t none (send_end pri d t s)
  unfolding send_end
  timed_out pri d t s h = rw h (refl, refl)

  -- Once a sender has looked, the semaphore of the slot is 0.
  emptied :
      (pri : MsgPriority) (d : ℕ) (t : ℤ) (o : Option MsgRsp) (s : Messaging A)
      → Holds o (at pri s.slots)
      → (at pri (send_end pri d t s).2.slots).rsp_sem ≡ 0
  unfolding send_end
  emptied pri d t none s h = rw h h
  emptied pri d t (some r) s h =
      rw (h.0, at-put_self (record (at pri s.slots) { rsp_sem = 0 }) s.slots pri) refl

  wait_timed_out :
      (began : ℕ) (pri : MsgPriority) (d : ℕ) (t : ℤ) (s : Messaging A)
      → (at pri s.slots).rsp_sem ≡ 0
      → Outcome pri d t none (send_wait began pri d t s)
  unfolding send_wait
  wait_timed_out began pri d t s h = elim (Bool-cases (began == (at pri s.slots).resets)) [
    | inl same ↦ rw same (timed_out pri d t s h)
    | inr later ↦ rw later (refl, refl)
  ]

  wait_aborted :
      (began : ℕ) (pri : MsgPriority) (d : ℕ) (t : ℤ) (s : Messaging A)
      → (at pri s.slots).resets ≡ began + 1
      → Outcome pri d t none (send_wait began pri d t s)
  unfolding send_wait
  wait_aborted began pri d t s h = elim (Bool-cases (began == (at pri s.slots).resets)) [
    | inl same ↦ absurd (omega (arith, h, (==_iff began (at pri s.slots).resets).0 same))
    | inr later ↦ rw later (refl, refl)
  ]

  resets-claim_slot :
      (pri : MsgPriority) (s : Messaging A)
      → (at pri (claim_slot pri s).1.slots).resets ≡ (at pri s.slots).resets + 1
  unfolding claim_slot
  resets-claim_slot critical s = refl
  resets-claim_slot normal s = refl
  resets-claim_slot bulk s = refl

  left_alone :
      (before : ℕ) (pri : MsgPriority) (d : ℕ) (t : ℤ) (s : Messaging A)
      → (at pri s.slots).resets ≡ before + 1
      → (send_wait before pri d t s).2 ≡ s
  unfolding send_wait
  left_alone before pri d t s h = elim (Bool-cases (before == (at pri s.slots).resets)) [
    | inl same ↦ absurd (omega (arith, h, (==_iff before (at pri s.slots).resets).0 same))
    | inr later ↦ rw later refl
  ]

  successive :
      (pri : MsgPriority) (s s1 : Messaging A) (seq seq' : ℕ)
      → (claim_slot pri s).0 ≡ seq
      → (claim_slot pri s1).0 ≡ seq'
      → s1.next_seq ≡ (claim_slot pri s).1.next_seq
      → seq' ≡ (seq + 1) % 2 ^ 32
  unfolding claim_slot
  successive pri s s1 seq seq' c c' next = sym c' ∙ next ∙ ap (λ n. (n + 1) % 2 ^ 32) c

  -- The ends of the two waits, the first with the deadline `d` and the time `t`, the second with `d'`
  -- and `t'`, from the state `s` on: a take that begins before the second send's reset begins after
  -- `before` resets, one that begins later after `now`.
  abbrev pub Superseded : ℕ → ℕ → MsgPriority → ℕ → ℤ → ℕ → ℤ → Option MsgRsp → Messaging A → Type 0
  Superseded before now pri d t d' t' o s =
      let aborted = send_wait before pri d t s in
      let first = send_wait now pri d t s in
      let second = send_wait now pri d' t' s in
      (Outcome pri d t none aborted × Outcome pri d' t' o (send_wait now pri d' t' aborted.2))
      × (Outcome pri d t o first × Outcome pri d' t' none (send_wait now pri d' t' first.2))
      × (Outcome pri d' t' o second × Outcome pri d t none (send_wait now pri d t second.2))

  ending :
      (before : ℕ) (pri : MsgPriority) (d : ℕ) (t : ℤ) (d' : ℕ) (t' : ℤ) (o : Option MsgRsp)
      (s : Messaging A)
      → (at pri s.slots).resets ≡ before + 1
      → Holds o (at pri s.slots)
      → Superseded before (at pri s.slots).resets pri d t d' t' o s
  ending before pri d t d' t' o s reset w =
      let now = (at pri s.slots).resets in
      let takes : (d : ℕ) (t : ℤ) → Outcome pri d t o (send_wait now pri d t s) =
        λ d t. rw (send_wait-send_end now pri d t s refl) (ended pri d t o s w) in
      let leaves : (d : ℕ) (t : ℤ) → (at pri (send_wait now pri d t s).2.slots).rsp_sem ≡ 0 =
        λ d t. rw (send_wait-send_end now pri d t s refl) (emptied pri d t o s w) in
      (
        (wait_aborted before pri d t s reset, rw (left_alone before pri d t s reset) (takes d' t')),
        (takes d t, wait_timed_out now pri d' t' _ (leaves d t)),
        (takes d' t', wait_timed_out now pri d t _ (leaves d' t')),
      )

  -- A second send begins on the priority of a first one whose answer has not come: `rs` are the responses
  -- that are handled between the two, `rs'` those that are handled after the second and before its take
  -- looks at the semaphore. The requests have successive numbers. If the first sender waits in its take
  -- already, the second's reset of the semaphore aborts it: it times out, and the second gets the last
  -- answer to its own request, or times out if there is none. If the first comes to its take only after
  -- the reset, and looks at the semaphore after `rs'` too, whichever of the two looks first gets the
  -- last answer to the second request, and the other one, if nothing more comes in, times out; without
  -- an answer both do. The answer to the first request reaches neither.
  pub superseded_lem :
      (max_peers : ℕ) (peers peers' : Peers) (encoded encoded' : Bool) (sent sent' : Ret)
      (service service' : Bytes) (priority priority' : ℤ) (s : Messaging A) (seq seq' : ℕ)
      (pri : MsgPriority) (rs rs' : List MsgRsp) (d : ℕ) (t : ℤ) (d' : ℕ) (t' : ℤ)
      → (send_begin max_peers peers true encoded sent (some service) true priority s).0
        ≡ waiting seq pri
      → last_answer seq pri none rs ≡ none
      → let s1 = (send_begin max_peers peers true encoded sent (some service) true priority s).1 in
        let second =
          send_begin max_peers peers' true encoded' sent'
            (some service')
            true
            priority'
            (handle_all rs s1) in
        second.0 ≡ waiting seq' pri
        → (seq' ≡ (seq + 1) % 2 ^ 32)
          × Superseded
              (at pri s1.slots).resets
              (at pri second.1.slots).resets
              pri
              d
              t
              d'
              t'
              (last_answer seq' pri none rs')
              (handle_all rs' second.1)
  superseded_lem max_peers peers peers' encoded encoded' sent sent' service service' priority
        priority' s seq seq' pri rs rs' d t d' t' goes unanswered goes' =
      let b = send_begin max_peers peers true encoded sent (some service) true priority s in
      let s1 = handle_all rs b.1 in
      let c =
        send_begin-claim_slot max_peers peers true encoded sent (some service) true priority s seq
          pri goes in
      let c' =
        send_begin-claim_slot max_peers peers' true encoded' sent' (some service') true priority' s1
          seq' pri goes' in
      let b' = send_begin max_peers peers' true encoded' sent' (some service') true priority' s1 in
      let s2 = handle_all rs' b'.1 in
      let o = last_answer seq' pri none rs' in
      let w = Awaits-handle_all seq' pri none rs' b'.1 (
        Awaits-send_begin max_peers peers' true encoded' sent' (some service') true priority' s1
          seq' pri goes') in
      let kept : (at pri s2.slots).resets ≡ (at pri b'.1.slots).resets =
        resets-handle_all pri rs' b'.1 in
      let reset : (at pri s2.slots).resets ≡ (at pri b.1.slots).resets + 1 =
        kept
        ∙ ap (λ (x : Messaging A). (at pri x.slots).resets) c'.1
        ∙ resets-claim_slot pri s1
        ∙ ap (λ n. n + 1) (resets-handle_all pri rs b.1) in
      (
        successive pri s s1 seq seq' c.0 c'.0
            (next_seq-handle_all rs b.1 ∙ ap (λ (x : Messaging A). x.next_seq) c.1),
        subst (λ now. Superseded (at pri b.1.slots).resets now pri d t d' t' o s2) kept
            (ending (at pri b.1.slots).resets pri d t d' t' o s2 reset w.holds),
      )
