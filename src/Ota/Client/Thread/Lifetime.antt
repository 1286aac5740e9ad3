-- ===== src/Ota/Client/Thread/Lifetime.antt =====
-- The life of the update thread: its states, and how long it backs off.
use ceell.Prelude.{
  ℕ, ◌+◌, ◌*◌, ◌≡◌, refl, ap, subst, ◌∙◌, true, false, none, some, List, [], ◌∷◌, arith, ltb,
  if◌then◌else◌, inl, inr, ◌⊎◌, min,
}
use ceell.Errno.{ok, err}
use ceell.Ota.Version.{OtaVer}
use ceell.Ota.Client.{OtaState, idle, checking, rebooting, error, Stream}
use ceell.Ota.Client.Cycle.{OtaEvent, CheckEnd, returns, faults, ota_round, ota_check_and_update}
use ceell.Ota.Client.Cycle.Course.{
  Course, Rests, reboots, is_rebooting, ota_check_and_update-Course,
}
use ceell.Ota.Client.Thread.{Attempt, Round, after_check, go_on, ota_thread_entry}

-- The rounds of the thread from the state `a`, after `fails` failed checks in a row.
abbrev pub Lives : ℕ → OtaState → ℕ → List Round → Type 0
Lives interval a fails [] = (a ≡ idle) ⊎ (a ≡ error)
Lives interval a fails ((es, none) ∷ []) = Course a es rebooting ⊎ Course a es checking
Lives interval a fails ((es, none) ∷ x ∷ rest) = ⊥
Lives interval a fails ((es, some sleep) ∷ rest) =
    (Course a es idle × (sleep ≡ 0) × Lives interval idle 0 rest)
    ⊎ ((z : OtaState) × Course a es z
        × (sleep ≡ min 3600 ((fails + 1) * interval))
        × Lives interval z (fails + 1) rest)

capped : (n : ℕ) → (if ltb 3600 n then 3600 else n) ≡ min 3600 n
capped n = ground arith

-- One round, where the rest of the loop is as it should be.
go_on-Lives :
    (interval : ℕ) (a : OtaState) (fails : ℕ) (es : List OtaEvent) (end : CheckEnd)
    (rest : ℕ → List Round)
    → ((f : ℕ) (z : OtaState) → (z ≡ idle) ⊎ (z ≡ error) → Lives interval z f (rest f))
    → (z : OtaState) → Course a es z
    → Rests z end
    → reboots es ≡ is_rebooting z
    → Lives interval a fails (go_on es rest (after_check interval fails (reboots es) end))
unfolding after_check ota_round
go_on-Lives interval a fails es faults rest ih z c e same =
    let calm : reboots es ≡ false = same ∙ ap is_rebooting e in
    rw calm (inr (subst (Course a es) e c))
go_on-Lives interval a fails es (returns ok) rest ih z c (inl e) same =
    let calm : reboots es ≡ false = same ∙ ap is_rebooting e in
    rw calm (inl (subst (Course a es) e c, refl, ih 0 idle (inl refl)))
go_on-Lives interval a fails es (returns ok) rest ih z c (inr e) same =
    let told : reboots es ≡ true = same ∙ ap is_rebooting e in
    rw told (inl (subst (Course a es) e c))
go_on-Lives interval a fails es (returns (err x)) rest ih z c h same =
    let calm : reboots es ≡ false = same ∙ stays z h in
    rw calm (inr (z, c, capped ((fails + 1) * interval), ih (fails + 1) z h))
  where
    stays : (z : OtaState) → (z ≡ idle) ⊎ (z ≡ error) → is_rebooting z ≡ false
    stays z (inl e) = ap is_rebooting e
    stays z (inr e) = ap is_rebooting e

module _ (ulong_max : ℕ) (current : OtaVer) (interval : ℕ) where
  -- Over any number of rounds from IDLE or ERROR on, whatever the checks meet, the thread moves by the
  -- steps of the state machine. A round goes to IDLE without a sleep and with no failure counted, or its
  -- check fails and the thread sleeps for the interval once for each failure in a row so far, an hour at
  -- most. Only the last round may end otherwise: in REBOOTING, or at the read through a NULL url.
  pub ota_thread_entry-Lives :
      (ts : List Attempt) (a : OtaState) (fails : ℕ) (s : Stream)
      → (a ≡ idle) ⊎ (a ≡ error)
      → Lives interval a fails (ota_thread_entry ulong_max current interval ts fails s)
  unfolding ota_thread_entry
  ota_thread_entry-Lives [] a fails s h = h
  ota_thread_entry-Lives (t ∷ ts) a fails s h =
      let (es, end, s') = ota_check_and_update ulong_max current t.fetched t.device s t.boot in
      let (z, course, rests, same) =
        ota_check_and_update-Course ulong_max current t.device s t.boot t.fetched a h in
      go_on-Lives interval a fails es end _ (λ f z k. ota_thread_entry-Lives ts z f s' k) z course
        rests same
