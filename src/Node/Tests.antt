-- ===== src/Node/Tests.antt =====
-- Runs of the start and of a round of the lifecycle loop.
use ceell.Prelude.{
  ℕ, ◌+◌, ◌≡◌, ◌≢◌, ◌≤◌, refl, true, false, not, ◌&&◌, some, List, [], ◌∷◌, ◌++◌, arith, inl, map,
}
use ceell.Prelude.Int.{pos}
use ceell.Config.{CeellConfig, zero_config}
use ceell.Registry.{Registry}
use ceell.Registry.Table.{contents, IsValid}
use ceell.Discovery.{zero_peer, is_stale, expire_peers, expire_loop}
use ceell.Discovery.Expiry.{tally}
use ceell.Health.{degraded, lost, HealthCall, zero_health, get_state, health_get_state}
use ceell.Health.Slots.{active_count, is_tracked}
use ceell.Health.Update.{untracked}
use ceell.Safe.{SafeState, safe_state_active}
use ceell.Safe.Alternate
use ceell.Discovery.Sweep.{is_node}
use ceell.Discovery.Table
use ceell.Node.{
  echo_name, ota_name, start_registry, on_health_changes, Node, sighting_of, lifecycle_tick,
}
use ceell.Node.Startup.{configured_from, own, start_registry_lem}
use ceell.Node.Tick.{safe_after_all, on_health_changes_lem}
use ceell.Node.Tick.Loss.{lifecycle_tick-safe}

-- A configuration with two services; handlers are numbers here.
abbrev config : CeellConfig
config = record zero_config { version = 2; service_count = 2 }

abbrev started : Registry ℕ
started = start_registry 8 config (some 7) (some 9)

start_registry_lem_example :
    (contents started
      ≡ configured_from config.service_count 0 config
        ++ (own {H = ℕ} echo_name 7 ∷ own ota_name 9 ∷ []))
    × IsValid 8 started
start_registry_lem_example = start_registry_lem {H = ℕ} 8 config 7 9 (omega arith)

abbrev calm : SafeState
calm = record { safe_active = 0; safe_reason_val = 0; safe_cb = true; safe_initialized = true }

calm-IsValid : Alternate.IsValid calm
calm-IsValid = record { ready = refl; flag = inl refl; reason = λ e. refl }

abbrev changes : List HealthCall
changes = record { node_id = 3; old_state = degraded; new_state = lost } ∷ []

on_health_changes_lem_example :
    (safe_state_active (on_health_changes changes calm).1
      ≡ safe_after_all (safe_state_active calm) changes)
    × Alternate.IsValid (on_health_changes changes calm).1
on_health_changes_lem_example = on_health_changes_lem changes calm calm-IsValid

-- The peer 7 was last heard 900 ms ago, the peer 8 just now.
abbrev node : Node
node = record {
  peers = record {
    peers =
        record zero_peer { node_id = 7; last_seen = 100 }
        ∷ record zero_peer { node_id = 8; last_seen = 1000 }
        ∷ [];
    peer_count = 2;
  };
  health = record {
    health_table =
        record zero_health { node_id = 7; state = degraded; active = true } ∷ zero_health ∷ [];
    health_cb = true;
    health_initialized = true;
  };
  safe = calm;
  timing = record { samples = []; sample_head = 0; sample_count = 0; initialized = false };
  watchdog = record { wdt_enabled = true; wdt_last_feed = pos 0; wdt_timeout = pos 5000 };
  tick_count = 0;
}

room :
    active_count node.health.health_table
      + untracked
          (map sighting_of (Table.contents (expire_peers 500 1000 node.peers).1))
          node.health.health_table
    ≤ 2
unfolding untracked active_count is_tracked expire_peers expire_loop
room = omega arith

none_fresh : tally (λ p. is_node 7 p && not (is_stale 500 1000 p)) (Table.contents node.peers) ≡ 0
unfolding tally
none_fresh = refl

was_alive : health_get_state node.health 7 ≢ lost
unfolding health_get_state get_state
was_alive e = cc

lifecycle_tick-safe_example :
    safe_state_active (lifecycle_tick 100 500 2 4 1000000 true 1000 5 9 node).1.safe ≡ true
lifecycle_tick-safe_example =
    lifecycle_tick-safe 100 500 2 4 1000000 true 1000 5 9 node 7 calm-IsValid refl refl refl refl
      (omega arith) room none_fresh was_alive
