-- ===== src/Health/Tests.antt =====
-- Runs of ceell/core/health_monitor.c with two slots, an interval of 2 s and a timeout of 10 s.
use ceell.Prelude.{◌+◌, ◌≡◌, ◌≤◌, refl, true, false, none, some, List, [], ◌∷◌, arith, replicate}
use ceell.Health.{
  Health, Sighting, zero_health, compute_state, health_update, health_get_state, lost,
}
use ceell.Health.Slots.{active_count, is_tracked}
use ceell.Health.Full.{IsShutOut, health_updates, health_updates-lost}
use ceell.Health.Update.{latest, untracked, health_update_lem}

abbrev start : Health
start = record {
  health_table = replicate 2 zero_health;
  health_cb = false;
  health_initialized = true;
}

abbrev seen : List Sighting
seen = record { node_id = 1; last_seen = 3000 } ∷ record { node_id = 2; last_seen = 9000 } ∷ []

room : active_count start.health_table + untracked seen start.health_table ≤ 2
unfolding untracked active_count is_tracked
room = omega arith

health_update_lem_example :
    health_get_state (health_update 2000 10000 2 9000 seen start).1 1
    ≡ elim (latest 1 seen) [ some t ↦ compute_state 2000 10000 9000 t | none ↦ lost ]
health_update_lem_example = health_update_lem 2000 10000 2 9000 seen start 1 refl refl room

abbrev crowded : Health
crowded = record start {
  health_table =
      record zero_health { node_id = 1; active = true }
      ∷ record zero_health { node_id = 2; active = true }
      ∷ [];
}

crowded-IsShutOut : IsShutOut 2 3 crowded
unfolding active_count is_tracked
crowded-IsShutOut = record { ready = refl; size = refl; taken_all = refl; unknown = refl }

-- Node 3 was heard just now.
abbrev third : List Sighting
third = record { node_id = 3; last_seen = 9000 } ∷ []

health_updates-lost_example :
    let s' = health_updates 2000 10000 2 ((9000, third) ∷ (9100, third) ∷ []) crowded in
    (health_get_state s' 3 ≡ lost) × IsShutOut 2 3 s'
health_updates-lost_example =
    health_updates-lost 2000 10000 2 3 (9000, third) ((9100, third) ∷ []) crowded crowded-IsShutOut
