-- ===== src/Health/Full.antt =====
-- The table of ceell/core/health_monitor.c when all of its slots are taken.
use ceell.Prelude.{
  ℕ, zero, suc, ◌+◌, ◌<◌, ◌≤◌, ◌≡◌, ◌≢◌, refl, ap, ◌∙◌, inl, inr, Bool, true, false, none, some,
  List, [], ◌∷◌, arith, length, get_or, set, replicate, length-replicate, if◌then◌else◌, Bool-cases,
}
use ceell.Health.{
  lost, PeerHealth, Sighting, Health, Slot, taken, free, full, zero_health, find_slot, take_slot,
  find_or_alloc, refresh, refresh_all, expire_entry, expire_all, health_update, health_get_state,
}
use ceell.Health.Slots.{
  Found, view, view-untracked, is_tracked, active_count, tracked_at, find_slot-Found,
  find_or_alloc-Placed,
}
use ceell.Health.Update.{Refreshed-step, expire-view}

active-le : (hs : List PeerHealth) → active_count hs ≤ length hs
unfolding active_count
active-le [] = omega arith
active-le (h ∷ hs) = ground (arith, active-le hs)

inactive_lt :
    (j : ℕ) (hs : List PeerHealth)
    → j < length hs
    → (get_or hs j zero_health).active ≡ false
    → active_count hs < length hs
unfolding active_count
inactive_lt j [] lt a = absurd (omega arith)
inactive_lt zero (h ∷ hs) lt a = ground (arith, a, active-le hs)
inactive_lt (suc j) (h ∷ hs) lt a = ground (arith, inactive_lt j hs (omega arith) a)

take_none :
    (id : ℕ) (hs : List PeerHealth) (t : Slot)
    → active_count hs ≡ length hs
    → is_tracked id hs ≡ false
    → Found id 0 hs t
    → take_slot id hs t ≡ (none, hs)
unfolding take_slot
take_none id hs (taken k) c u (j, e, lt, b, mine) = absurd (clash (tracked_at id j hs lt mine) u)
  where
    clash : {b : Bool} → b ≡ true → b ≡ false → ⊥
    clash x y = cc
take_none id hs (free k) c u (j, e, lt, un, idle) =
    absurd (omega (arith, inactive_lt j hs lt idle, c))
take_none id hs full c u f = refl

-- A node without a slot gets none.
no_slot :
    (id : ℕ) (hs : List PeerHealth)
    → active_count hs ≡ length hs
    → is_tracked id hs ≡ false
    → find_or_alloc id hs ≡ (none, hs)
unfolding find_or_alloc
no_slot id hs c u =
    take_none id hs (find_slot id 0 hs full) c u
      (find_slot-Found id 0 hs (find_slot id 0 hs full) refl)

view-none_untracked :
    (id : ℕ) (hs : List PeerHealth) (fs : List Bool)
    → length fs ≡ length hs
    → view id hs fs ≡ none
    → is_tracked id hs ≡ false
unfolding view is_tracked
view-none_untracked id [] fs l e = refl
view-none_untracked id (h ∷ hs) [] l e = absurd (omega arith)
view-none_untracked id (h ∷ hs) (f ∷ fs) l e =
    ground (arith, e, view-none_untracked id hs fs (omega arith))

module _ (interval timeout now : ℕ) (cb : Bool) (id : ℕ) where
  -- Nothing is seen of the node, and no slot is left.
  record Shut (hs : List PeerHealth) (fs : List Bool) : Type 0 where
    marks : length fs ≡ length hs
    taken_all : active_count hs ≡ length hs
    unseen : view id hs fs ≡ none

  refresh_all-Shut :
      (ps : List Sighting) (hs : List PeerHealth) (fs : List Bool)
      → Shut hs fs
      → let (calls, hs', fs') = refresh_all interval timeout cb now ps hs fs in
        Shut hs' fs' × (length hs' ≡ length hs)
  unfolding refresh_all
  refresh_all-Shut [] hs fs c = (c, refl)
  refresh_all-Shut (p ∷ ps) hs fs c = elim (Bool-cases (is_tracked p.node_id hs)) [
    | inr u ↦
        let e = no_slot p.node_id hs c.taken_all u in
        let found : (find_or_alloc p.node_id hs).0 ≡ none = ap (λ q. q.0) e in
        let same : (find_or_alloc p.node_id hs).1 ≡ hs = ap (λ q. q.1) e in
        rw (found, refresh_all) (rw same (refresh_all-Shut ps hs fs c))
    | inl t ↦
        let pl = find_or_alloc-Placed p hs (inl t) in
        let r =
          Refreshed-step interval timeout now p hs fs (find_or_alloc p.node_id hs).0
            (find_or_alloc p.node_id hs).1 pl c.marks in
        let hs' = set (find_or_alloc p.node_id hs).1 pl.slot (
          refresh interval timeout now p
            (get_or (find_or_alloc p.node_id hs).1 pl.slot zero_health)) in
        let fs' = set fs pl.slot true in
        let ih = refresh_all-Shut ps hs' fs' (record {
          marks = r.marks;
          taken_all = omega (arith, r.same_size, c.taken_all, counted t r.active);
          unseen = r.others id (differs t) ∙ c.unseen;
        }) in
        rw (pl.is_found, refresh_all) (ih.0, ih.1 ∙ r.same_size)
  ]
    where
      counted :
          {n : ℕ}
          → is_tracked p.node_id hs ≡ true
          → n ≡ active_count hs + (if is_tracked p.node_id hs then 0 else 1)
          → n ≡ active_count hs
      counted t e = ground (arith, t, e)

      differs : is_tracked p.node_id hs ≡ true → p.node_id ≢ id
      differs t e = clash t (rw e (view-none_untracked id hs fs c.marks c.unseen))
        where
          clash : {b : Bool} → b ≡ true → b ≡ false → ⊥
          clash x y = cc

expire_all_kept :
    (id : ℕ) (cb : Bool) (hs : List PeerHealth) (fs : List Bool)
    → (is_tracked id (expire_all cb hs fs).1 ≡ is_tracked id hs)
      × (active_count (expire_all cb hs fs).1 ≡ active_count hs)
      × (length (expire_all cb hs fs).1 ≡ length hs)
unfolding expire_all expire_entry is_tracked active_count
expire_all_kept id cb [] fs = (refl, refl, refl)
expire_all_kept id cb (h ∷ hs) [] = (refl, refl, refl)
expire_all_kept id cb (h ∷ hs) (f ∷ fs) = ground (arith, expire_all_kept id cb hs fs)

-- All slots are taken, none of them by the node.
pub record IsShutOut (max_peers id : ℕ) (s : Health) : Type 0 where
  pub ready : s.health_initialized ≡ true
  pub size : length s.health_table ≡ max_peers
  pub taken_all : active_count s.health_table ≡ max_peers
  pub unknown : is_tracked id s.health_table ≡ false

-- Updates with copies of the peer table, at their uptimes.
unfoldable pub health_updates : ℕ → ℕ → ℕ → List (ℕ × List Sighting) → Health → Health
health_updates interval timeout max_peers [] s = s
health_updates interval timeout max_peers ((now, peers) ∷ us) s =
    health_updates interval timeout max_peers us
      (health_update interval timeout max_peers now peers s).1

module _ (interval timeout max_peers id : ℕ) where
  health_update-IsShutOut :
      (now : ℕ) (peers : List Sighting) (s : Health)
      → IsShutOut max_peers id s
      → let s' = (health_update interval timeout max_peers now peers s).1 in
        IsShutOut max_peers id s' × (health_get_state s' id ≡ lost)
  unfolding health_update health_get_state
  health_update-IsShutOut now peers s o =
      let fs = replicate max_peers false in
      let start : Shut interval timeout now s.health_cb id s.health_table fs = record {
        marks = omega (arith, length-replicate max_peers false, o.size);
        taken_all = omega (arith, o.taken_all, o.size);
        unseen = view-untracked id s.health_table fs o.unknown;
      } in
      let r = refresh_all-Shut interval timeout now s.health_cb id peers s.health_table fs start in
      let (calls, hs, gs) = refresh_all interval timeout s.health_cb now peers s.health_table fs in
      let k = expire_all_kept id s.health_cb hs gs in
      rw o.ready (
        record {
          ready = refl;
          size = k.2 ∙ r.1 ∙ o.size;
          taken_all = omega (arith, k.1, r.0.taken_all, r.1, o.size);
          unknown = k.0 ∙ view-none_untracked id hs gs r.0.marks r.0.unseen;
        },
        expire-view id s.health_cb hs gs r.0.marks
            ∙ ap (λ v. elim v [ none ↦ lost | some (st, f) ↦ if f then st else lost ]) r.0.unseen,
      )

  -- Once every slot of the table is taken by other nodes, a node counts as lost after every update,
  -- however often and however lately it was heard: slots are never freed.
  pub health_updates-lost :
      (u : ℕ × List Sighting) (us : List (ℕ × List Sighting)) (s : Health)
      → IsShutOut max_peers id s
      → let s' = health_updates interval timeout max_peers (u ∷ us) s in
        (health_get_state s' id ≡ lost) × IsShutOut max_peers id s'
  unfolding health_updates
  health_updates-lost (now, peers) [] s o =
      let h = health_update-IsShutOut now peers s o in (h.1, h.0)
  health_updates-lost (now, peers) (v ∷ us) s o =
      health_updates-lost v us (health_update interval timeout max_peers now peers s).1
        (health_update-IsShutOut now peers s o).0
