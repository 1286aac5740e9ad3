-- ===== src/Node/Tick/Loss.antt =====
-- From a silent peer to the safe state: what a round of ceell/core/lifecycle.c does when a peer is gone.
use ceell.Prelude.{
  ℕ, zero, suc, ◌+◌, ◌≤◌, ◌≡◌, ◌≢◌, refl, ap, ◌∙◌, Bool, true, false, not, ◌&&◌, Option, none, some,
  List, [], ◌∷◌, ◌++◌, map, arith, length, replicate, length-replicate, Bool-cases, inl, inr,
}
use ceell.Discovery.{is_stale, expire_peers}
use ceell.Discovery.Table.{contents, get_peers_all}
use ceell.Discovery.Sweep.{is_node}
use ceell.Discovery.Expiry.{tally, expire_peers_lem}
use ceell.Health.{
  HealthState, lost, PeerHealth, HealthCall, Sighting, Health, is_slot, calls_for, expire_entry,
  expire_all, refresh_all, health_update, get_state, health_get_state,
}
use ceell.Health.Slots.{view, active_count}
use ceell.Health.Update.{latest, untracked, refresh_all-view}
use ceell.Safe.{safe_state_active}
use ceell.Safe.Alternate.{IsValid}
use ceell.Node.{Node, sighting_of, lifecycle_tick}
use ceell.Node.Tick.{safe_after_all, on_health_changes_lem, latest-none}

safe_after_all-append :
    (b : Bool) (xs ys : List HealthCall)
    → safe_after_all b (xs ++ ys) ≡ safe_after_all (safe_after_all b xs) ys
unfolding safe_after_all
safe_after_all-append b [] ys = refl
safe_after_all-append b (x ∷ xs) ys = safe_after_all-append _ xs ys

-- The calls of the second loop only tell of losses.
entry-stays :
    (f : Bool) (h : PeerHealth) (cb : Bool)
    → safe_after_all true (calls_for cb h.node_id h.state (expire_entry f h).state) ≡ true
unfolding safe_after_all expire_entry
entry-stays f h cb = ground arith

entry-loss :
    (h : PeerHealth) (id : ℕ) (b : Bool)
    → is_slot id h ≡ true
    → h.state ≢ lost
    → safe_after_all b (calls_for true h.node_id h.state (expire_entry false h).state) ≡ true
unfolding safe_after_all expire_entry
entry-loss h id b mine alive = ground (arith, mine, alive)

expire_all-stays :
    (cb : Bool) (hs : List PeerHealth) (fs : List Bool)
    → safe_after_all true (expire_all cb hs fs).0 ≡ true
unfolding expire_all safe_after_all
expire_all-stays cb [] fs = refl
expire_all-stays cb (h ∷ hs) [] = refl
expire_all-stays cb (h ∷ hs) (f ∷ fs) =
    safe_after_all-append true (calls_for cb h.node_id h.state (expire_entry f h).state)
      (expire_all cb hs fs).0
    ∙ ap (λ b. safe_after_all b (expire_all cb hs fs).0) (entry-stays f h cb)
    ∙ expire_all-stays cb hs fs

-- Where it marks a peer that was not lost, they end in the safe state.
expire_all-loss :
    (id : ℕ) (st : HealthState) (cb : Bool) (hs : List PeerHealth) (fs : List Bool) (b : Bool)
    → cb ≡ true
    → st ≢ lost
    → view id hs fs ≡ some (st, false)
    → safe_after_all b (expire_all cb hs fs).0 ≡ true
unfolding expire_all view
expire_all-loss id st cb [] fs b told alive e = cc
expire_all-loss id st cb (h ∷ hs) [] b told alive e = cc
expire_all-loss id st cb (h ∷ hs) (f ∷ fs) b told alive e =
    let rest = (expire_all cb hs fs).0 in
    let own = calls_for cb h.node_id h.state (expire_entry f h).state in
    elim (Bool-cases (is_slot id h)) [
      | inl mine ↦
          safe_after_all-append b own rest
          ∙ ap (λ c. safe_after_all c rest) (marked f mine (rw mine at e))
          ∙ expire_all-stays cb hs fs
      | inr other ↦
          safe_after_all-append b own rest
          ∙ expire_all-loss id st cb hs fs _ told alive (rw other at e)
    ]
  where
    marked :
        (f : Bool)
        → is_slot id h ≡ true
        → ◌≡◌ {A = Option (HealthState × Bool)} (some (h.state, f)) (some (st, false))
        → safe_after_all b (calls_for cb h.node_id h.state (expire_entry f h).state) ≡ true
    marked true mine e = cc
    marked false mine e = rw told (entry-loss h id b mine (λ k. alive (cc)))

-- A peer with a state other than LOST has a slot, which starts out unmarked.
view-get_state :
    (id n : ℕ) (hs : List PeerHealth)
    → length hs ≤ n
    → get_state id hs ≢ lost
    → view id hs (replicate n false) ≡ some (get_state id hs, false)
unfolding view get_state
view-get_state id n [] l alive = absurd (alive refl)
view-get_state id zero (h ∷ hs) l alive = absurd (omega arith)
view-get_state id (suc n) (h ∷ hs) l alive = elim (Bool-cases (is_slot id h)) [
  | inl mine ↦ rw mine refl
  | inr other ↦ rw other (view-get_state id n hs (omega arith) (rw other at alive))
]

module _ (interval timeout max_peers samples_max hz : ℕ) (with_watchdog : Bool) where
  -- The update takes a peer that is not in the copy of the table for lost.
  health_update-loss :
      (now : ℕ) (ps : List Sighting) (s : Health) (id : ℕ) (b : Bool)
      → s.health_initialized ≡ true
      → s.health_cb ≡ true
      → length s.health_table ≡ max_peers
      → active_count s.health_table + untracked ps s.health_table ≤ max_peers
      → latest id ps ≡ none
      → health_get_state s id ≢ lost
      → safe_after_all b (health_update interval timeout max_peers now ps s).0 ≡ true
  unfolding health_update health_get_state
  health_update-loss now ps s id b ready told size room silent alive =
      let fs = replicate max_peers false in
      let (calls, hs', fs') = refresh_all interval timeout s.health_cb now ps s.health_table fs in
      let r =
        refresh_all-view interval timeout id now s.health_cb ps s.health_table fs
          (omega (arith, size, length-replicate max_peers false)) (omega (arith, size, room)) in
      let unmarked : view id hs' fs' ≡ some (get_state id s.health_table, false) =
        (rw silent at r.0)
        ∙ view-get_state id max_peers s.health_table (omega (arith, size)) alive in
      rw (ready) (
        safe_after_all-append b calls (expire_all s.health_cb hs' fs').0
        ∙ expire_all-loss id (get_state id s.health_table) s.health_cb hs' fs' _ told alive
            unmarked)

  -- Where the safe state is set up, and the health monitor too, with its callback and with room for
  -- the peers that stay, a peer that was not lost and was not heard within the timeout puts the node
  -- into the safe state in the next round of the lifecycle loop, also where other peers recover in
  -- that round.
  pub lifecycle_tick-safe :
      (now start_cycle end_cycle : ℕ) (n : Node) (id : ℕ)
      → IsValid n.safe
      → n.health.health_initialized ≡ true
      → n.health.health_cb ≡ true
      → length n.health.health_table ≡ max_peers
      → length n.peers.peers ≡ max_peers
      → n.peers.peer_count ≤ max_peers
      → active_count n.health.health_table
          + untracked
              (map sighting_of (contents (expire_peers timeout now n.peers).1))
              n.health.health_table
        ≤ max_peers
      → tally (λ p. is_node id p && not (is_stale timeout now p)) (contents n.peers) ≡ 0
      → health_get_state n.health id ≢ lost
      → safe_state_active
          (lifecycle_tick interval timeout max_peers samples_max hz with_watchdog now start_cycle
            end_cycle n).1.safe
        ≡ true
  unfolding lifecycle_tick
  lifecycle_tick-safe now start_cycle end_cycle n id safe ready told size size' count room
        none_fresh alive =
      let ps = (expire_peers timeout now n.peers).1 in
      let e = expire_peers_lem timeout now n.peers (omega (arith, size', count)) in
      let gone : latest id (map sighting_of (contents ps)) ≡ none =
        latest-none id (contents ps) (e.0 (is_node id) ∙ none_fresh) in
      let copied = get_peers_all max_peers ps (omega (arith, e.1, count)) in
      rw copied (
        (on_health_changes_lem _ n.safe safe).0
        ∙ health_update-loss now (map sighting_of (contents ps)) n.health id _ ready told size room
            gone alive)
