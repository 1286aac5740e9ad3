-- ===== src/Safe/Alternate.antt =====
-- The safe state as a switch: what triggers and clears do to it, and what the callback hears.
use ceell.Prelude.{
  ℕ, ◌≡◌, refl, Bool, true, false, not, ◌&&◌, ap, ◌∙◌, List, [], ◌∷◌, ◌++◌, arith, if◌then◌else◌,
  ◌⊎◌,
}
use ceell.Errno.{ok}
use ceell.Safe.{
  SafeState, SafeCall, safe_none, safe_state_init, safe_state_trigger, safe_state_clear,
  safe_state_active, safe_state_reason,
}

-- Outside the safe state there is no reason.
pub record IsValid (s : SafeState) : Type 0 where
  pub ready : s.safe_initialized ≡ true
  pub flag : (s.safe_active ≡ 0) ⊎ (s.safe_active ≡ 1)
  pub reason : s.safe_active ≡ 0 → s.safe_reason_val ≡ safe_none

-- An operation of a client.
pub data SafeOp : Type 0 where
  trigger : ℕ → SafeOp
  clear : SafeOp

unfoldable pub safe_step : SafeState → SafeOp → List SafeCall × SafeState
safe_step s (trigger reason) = safe_state_trigger s reason
safe_step s clear = safe_state_clear s

unfoldable pub safe_run : SafeState → List SafeOp → List SafeCall × SafeState
safe_run s [] = ([], s)
safe_run s (o ∷ os) =
    let (calls, s') = safe_step s o in let (calls', s'') = safe_run s' os in (calls ++ calls', s'')

-- A trigger ends in the safe state with its reason, and a clear outside it with none; the callback is
-- called exactly when the state changes, with the new state.
pub safe_step_lem :
    (s : SafeState) (reason : ℕ)
    → IsValid s
    → let (calls, s') = safe_state_trigger s reason in
      let (calls', s'') = safe_state_clear s in
      ((safe_state_active s' ≡ true) × (safe_state_reason s' ≡ reason) × IsValid s')
      × ((safe_state_active s'' ≡ false) × (safe_state_reason s'' ≡ safe_none) × IsValid s'')
      × (calls ≡ (
          if s.safe_cb && not (safe_state_active s)
          then record { active = true; reason = reason } ∷ []
          else []))
      × (calls' ≡ (
          if s.safe_cb && safe_state_active s
          then record { active = false; reason = safe_none } ∷ []
          else []))
unfolding safe_state_trigger safe_state_clear safe_state_reason safe_state_active
safe_step_lem s reason v = ground arith

-- The calls change the state each time, from `b` on.
abbrev pub Alternates : Bool → List SafeCall → Type 0
Alternates b [] = Unit {0}
Alternates b (c ∷ cs) = (c.active ≡ not b) × Alternates (not b) cs

-- The state that the last call tells, or `b` if there is none.
abbrev pub told : Bool → List SafeCall → Bool
told b [] = b
told b (c ∷ cs) = told (not b) cs

Alternates-append :
    (b : Bool) (cs ds : List SafeCall)
    → Alternates b cs
    → Alternates (told b cs) ds
    → Alternates b (cs ++ ds)
Alternates-append b [] ds h k = k
Alternates-append b (c ∷ cs) ds h k = (h.0, Alternates-append (not b) cs ds h.1 k)

told-append : (b : Bool) (cs ds : List SafeCall) → told b (cs ++ ds) ≡ told (told b cs) ds
told-append b [] ds = refl
told-append b (c ∷ cs) ds = told-append (not b) cs ds

-- One operation of a client who is registered: its calls alternate and tell the state it leaves.
step-Alternates :
    (s : SafeState) (o : SafeOp)
    → IsValid s
    → s.safe_cb ≡ true
    → let (calls, s') = safe_step s o in
      Alternates (safe_state_active s) calls
      × (told (safe_state_active s) calls ≡ safe_state_active s')
      × IsValid s'
      × (s'.safe_cb ≡ true)
unfolding safe_step safe_state_trigger safe_state_clear safe_state_active
step-Alternates s (trigger reason) v cb = ground arith
step-Alternates s clear v cb = ground arith

-- Through any sequence of triggers and clears a registered callback hears of every change of the
-- state, alternately of entering and of leaving, and of nothing else.
pub safe_run-Alternates :
    (s : SafeState) (os : List SafeOp)
    → IsValid s
    → s.safe_cb ≡ true
    → Alternates (safe_state_active s) (safe_run s os).0
      × (told (safe_state_active s) (safe_run s os).0 ≡ safe_state_active (safe_run s os).1)
unfolding safe_run
safe_run-Alternates s [] v cb = (tt, refl)
safe_run-Alternates s (o ∷ os) v cb =
    let one = step-Alternates s o v cb in
    let rest = safe_run-Alternates (safe_step s o).1 os one.2 one.3 in
    (
      Alternates-append (safe_state_active s) (safe_step s o).0 (safe_run (safe_step s o).1 os).0
          one.0 (rw one.1 rest.0),
      told-append (safe_state_active s) (safe_step s o).0 (safe_run (safe_step s o).1 os).0
          ∙ ap (λ b. told b (safe_run (safe_step s o).1 os).0) one.1
          ∙ rest.1,
    )

-- `ceell_safe_state_init` leaves the node outside the safe state, with no callback.
pub safe_state_init-IsValid :
    (s : SafeState)
    → IsValid (safe_state_init ok s).1
      × (safe_state_active (safe_state_init ok s).1 ≡ false)
      × ((safe_state_init ok s).1.safe_cb ≡ false)
unfolding safe_state_init safe_state_active
safe_state_init-IsValid s = ground arith
