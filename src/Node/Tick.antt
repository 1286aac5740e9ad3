-- ===== src/Node/Tick.antt =====
-- What a round of the lifecycle loop and the callback of the health monitor do to the node.
pub mod Loss
use ceell.Prelude.{
  ℕ, ◌+◌, ◌≤◌, ◌≡◌, refl, ap, ◌∙◌, Bool, true, false, not, ◌&&◌, none, List, [], ◌∷◌, map, arith,
  if◌then◌else◌, length, Bool-cases, inl, inr,
}
use ceell.Discovery.{Peer, is_stale, expire_peers}
use ceell.Discovery.Table.{contents, get_peers_all}
use ceell.Discovery.Sweep.{is_node}
use ceell.Discovery.Expiry.{tally, expire_peers_lem}
use ceell.Health.{HealthState, healthy, lost, state_eq, HealthCall, health_update, health_get_state}
use ceell.Health.Slots.{active_count}
use ceell.Health.Update.{latest, untracked, health_update_lem}
use ceell.Safe.{SafeState, critical_peer_lost, safe_state_active}
use ceell.Safe.Alternate.{IsValid, safe_step_lem}
use ceell.Node.{on_health_change, on_health_changes, Node, sighting_of, lifecycle_tick}

-- The safe state after a change, from that before it.
abbrev pub safe_after : Bool → HealthCall → Bool
safe_after b c =
    if state_eq c.new_state lost
    then true
    else if state_eq c.old_state lost && state_eq c.new_state healthy
    then false
    else b

pub safe_after_all : Bool → List HealthCall → Bool
safe_after_all b [] = b
safe_after_all b (c ∷ cs) = safe_after_all (safe_after b c) cs

on_health_change_step :
    (c : HealthCall) (s : SafeState)
    → IsValid s
    → (safe_state_active (on_health_change c s).1 ≡ safe_after (safe_state_active s) c)
      × IsValid (on_health_change c s).1
unfolding on_health_change
on_health_change_step c s v =
    let l = safe_step_lem s critical_peer_lost v in
    elim (Bool-cases (state_eq c.new_state lost)) [
      | inl falls ↦ rw (falls, on_health_change) (l.0.0, l.0.2)
      | inr stays ↦ elim (Bool-cases (state_eq c.old_state lost)) [
        | inr known ↦ rw (stays, on_health_change) (rw known (refl, v))
        | inl gone ↦ elim (Bool-cases (state_eq c.new_state healthy)) [
          | inl back ↦ rw (stays, on_health_change) (rw gone (rw back (l.1.0, l.1.2)))
          | inr weak ↦ rw (stays, on_health_change) (rw gone (rw weak (refl, v)))
        ]
      ]
    ]

-- Where the safe state is set up, after any sequence of health changes the node is in the safe state
-- exactly as the last loss, or the last return from LOST to HEALTHY, decides, of whichever peer it is, and
-- as before if there was neither; and the safe state stays set up.
pub on_health_changes_lem :
    (cs : List HealthCall) (s : SafeState)
    → IsValid s
    → (safe_state_active (on_health_changes cs s).1 ≡ safe_after_all (safe_state_active s) cs)
      × IsValid (on_health_changes cs s).1
unfolding on_health_changes safe_after_all
on_health_changes_lem [] s v = (refl, v)
on_health_changes_lem (c ∷ cs) s v =
    let h = on_health_change_step c s v in
    let ih = on_health_changes_lem cs (on_health_change c s).1 h.1 in
    (ih.0 ∙ ap (λ b. safe_after_all b cs) h.0, ih.1)

-- While one peer is lost, the return of another peer from LOST to HEALTHY ends the safe state.
pub recovery_clears :
    (lost_peer back : ℕ) (old : HealthState) (s : SafeState)
    → IsValid s
    → safe_state_active
        (on_health_changes
          (record { node_id = lost_peer; old_state = old; new_state = lost }
            ∷ record { node_id = back; old_state = lost; new_state = healthy }
            ∷ [])
          s).1
      ≡ false
unfolding safe_after_all
recovery_clears lost_peer back old s v = (on_health_changes_lem _ s v).0

latest-none :
    (id : ℕ) (ps : List Peer) → tally (is_node id) ps ≡ 0 → latest id (map sighting_of ps) ≡ none
unfolding tally latest
latest-none id [] h = refl
latest-none id (p ∷ ps) h = ground (arith, h, latest-none id ps)

module _ (interval timeout max_peers samples_max hz : ℕ) (with_watchdog : Bool) where
  -- After a round of the lifecycle loop a node that is not in the peer table, or was not heard within the
  -- timeout, counts as lost, where the health table has room for the peers that stay.
  pub lifecycle_tick-lost :
      (now start_cycle end_cycle : ℕ) (n : Node) (id : ℕ)
      → n.health.health_initialized ≡ true
      → length n.health.health_table ≡ max_peers
      → length n.peers.peers ≡ max_peers
      → n.peers.peer_count ≤ max_peers
      → active_count n.health.health_table
          + untracked
              (map sighting_of (contents (expire_peers timeout now n.peers).1))
              n.health.health_table
        ≤ max_peers
      → tally (λ p. is_node id p && not (is_stale timeout now p)) (contents n.peers) ≡ 0
      → health_get_state
          (lifecycle_tick interval timeout max_peers samples_max hz with_watchdog now start_cycle
            end_cycle n).1.health
          id
        ≡ lost
  unfolding lifecycle_tick
  lifecycle_tick-lost now start_cycle end_cycle n id ready size size' count room none_fresh =
      let ps = (expire_peers timeout now n.peers).1 in
      let e = expire_peers_lem timeout now n.peers (omega (arith, size', count)) in
      let gone : latest id (map sighting_of (contents ps)) ≡ none =
        latest-none id (contents ps) (e.0 (is_node id) ∙ none_fresh) in
      let copied = get_peers_all max_peers ps (omega (arith, e.1, count)) in
      ap
        (λ l.
          health_get_state
            (health_update interval timeout max_peers now (map sighting_of l) n.health).1 id)
        copied
      ∙ health_update_lem interval timeout max_peers now (map sighting_of (contents ps)) n.health id
          ready size room
      ∙ rw gone refl
