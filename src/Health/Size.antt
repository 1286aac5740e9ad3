-- ===== src/Health/Size.antt =====
-- `ceell_health_update` keeps the number of slots of the table of ceell/core/health_monitor.c.
use ceell.Prelude.{
  ℕ, suc, ◌≡◌, refl, ap, ◌∙◌, Bool, true, false, List, [], ◌∷◌, length, get_or, set, replicate,
  length-set, Bool-cases, inl, inr, Option-cases,
}
use ceell.Health.{
  PeerHealth, Sighting, Health, Slot, taken, free, full, zero_health, find_slot, take_slot,
  find_or_alloc, refresh, refresh_all, expire_all, health_update,
}

length-take_slot :
    (id : ℕ) (hs : List PeerHealth) (t : Slot) → length (take_slot id hs t).1 ≡ length hs
unfolding take_slot
length-take_slot id hs (taken i) = refl
length-take_slot id hs (free i) = length-set hs i _
length-take_slot id hs full = refl

length-expire_all :
    (cb : Bool) (hs : List PeerHealth) (fs : List Bool) → length (expire_all cb hs fs).1 ≡ length hs
unfolding expire_all
length-expire_all cb [] fs = refl
length-expire_all cb (h ∷ hs) [] = refl
length-expire_all cb (h ∷ hs) (f ∷ fs) = ap suc (length-expire_all cb hs fs)

module _ (interval timeout : ℕ) where
  length-refresh_all :
      (cb : Bool) (now : ℕ) (ps : List Sighting) (hs : List PeerHealth) (fs : List Bool)
      → length (refresh_all interval timeout cb now ps hs fs).1 ≡ length hs
  unfolding refresh_all find_or_alloc
  length-refresh_all cb now [] hs fs = refl
  length-refresh_all cb now (p ∷ ps) hs fs =
      let size = length-take_slot p.node_id hs (find_slot p.node_id 0 hs full) in
      let hs' = (find_or_alloc p.node_id hs).1 in
      elim (Option-cases (find_or_alloc p.node_id hs).0) [
        | inl no_slot ↦ rw (no_slot, refresh_all) (length-refresh_all cb now ps hs' fs ∙ size)
        | inr (idx, slot) ↦
            let h = refresh interval timeout now p (get_or hs' idx zero_health) in
            rw (slot, refresh_all)
              (length-refresh_all cb now ps (set hs' idx h) (set fs idx true)
                ∙ length-set hs' idx h
                ∙ size)
      ]

  pub length-health_update :
      (max_peers now : ℕ) (ps : List Sighting) (s : Health)
      → (length (health_update interval timeout max_peers now ps s).1.health_table
          ≡ length s.health_table)
        × ((health_update interval timeout max_peers now ps s).1.health_initialized
            ≡ s.health_initialized)
  unfolding health_update
  length-health_update max_peers now ps s = elim (Bool-cases s.health_initialized) [
    | inr idle ↦ rw idle (refl, refl)
    | inl ready ↦
        let fs = replicate max_peers false in
        let (calls, hs, gs) = refresh_all interval timeout s.health_cb now ps s.health_table fs in
        rw ready (
          length-expire_all s.health_cb hs gs
              ∙ length-refresh_all s.health_cb now ps s.health_table fs,
          refl,
        )
  ]
