-- ===== src/Messaging/Exchange/Resets.antt =====
-- A wait during which only responses come in is not aborted: they do not reset the semaphore.
use ceell.Prelude.{ℕ, ◌≡◌, refl, sym, ◌∙◌, true, List, [], ◌∷◌, ◌==◌, ==_iff, Bool-cases, inl, inr}
use ceell.Prelude.Int.{ℤ, u32}
use ceell.Messaging.{
  MsgPriority, critical, normal, bulk, PerPriority, at, put, priority_of, MsgRsp, RspSlot,
  Messaging,
}
use ceell.Messaging.Exchange.{fill_slot, handle_response, handle_all, send_end, send_wait}

resets-put :
    (p q : MsgPriority) (t : PerPriority RspSlot) (x : RspSlot)
    → x.resets ≡ (at p t).resets
    → (at q (put p x t)).resets ≡ (at q t).resets
resets-put critical critical t x e = e
resets-put critical normal t x e = refl
resets-put critical bulk t x e = refl
resets-put normal critical t x e = refl
resets-put normal normal t x e = e
resets-put normal bulk t x e = refl
resets-put bulk critical t x e = refl
resets-put bulk normal t x e = refl
resets-put bulk bulk t x e = e

module _ {A : Type 0} where
  resets-handle_response :
      (q : MsgPriority) (r : MsgRsp) (s : Messaging A)
      → (at q (handle_response r s).slots).resets ≡ (at q s.slots).resets
  unfolding handle_response
  resets-handle_response q r s =
      let p = priority_of r.priority in
      elim (Bool-cases (u32 r.seq == (at p s.slots).pending_seq)) [
        | inl hit ↦ rw hit (resets-put p q s.slots (fill_slot (at p s.slots) p r) refl)
        | inr miss ↦ rw miss refl
      ]

  pub resets-handle_all :
      (q : MsgPriority) (rs : List MsgRsp) (s : Messaging A)
      → (at q (handle_all rs s).slots).resets ≡ (at q s.slots).resets
  unfolding handle_all
  resets-handle_all q [] s = refl
  resets-handle_all q (r ∷ rs) s =
      resets-handle_all q rs (handle_response r s) ∙ resets-handle_response q r s

  pub send_wait-send_end :
      (began : ℕ) (pri : MsgPriority) (d : ℕ) (t : ℤ) (s : Messaging A)
      → (at pri s.slots).resets ≡ began
      → send_wait began pri d t s ≡ send_end pri d t s
  unfolding send_wait
  send_wait-send_end began pri d t s e =
      let same : (began == (at pri s.slots).resets) ≡ true =
        (==_iff began (at pri s.slots).resets).1 (sym e) in
      rw same refl

  -- So the take of a single sender ends as `send_end` says.
  pub send_wait-handle_all :
      (pri : MsgPriority) (d : ℕ) (t : ℤ) (rs : List MsgRsp) (s : Messaging A)
      → send_wait (at pri s.slots).resets pri d t (handle_all rs s)
        ≡ send_end pri d t (handle_all rs s)
  send_wait-handle_all pri d t rs s =
      send_wait-send_end (at pri s.slots).resets pri d t (handle_all rs s)
        (resets-handle_all pri rs s)
