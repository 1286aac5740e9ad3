-- ===== src/Node/Lifecycle/Tests.antt =====
-- Rounds of ceell/core/lifecycle.c on a node with one peer, which offers "echo".
use ceell.Prelude.{
  ℕ, ◌+◌, ◌/◌, ◌≡◌, refl, true, false, none, some, [], ◌∷◌, ◌++◌, length, replicate,
}
use ceell.Prelude.Int.{pos}
use ceell.Errno.{ok, err, eagain}
use ceell.Config.{zero_config}
use ceell.Discovery.{zero_peer, expire_peers, service_find_peer}
use ceell.Health.{zero_health}
use ceell.Timing.{timing_init}
use ceell.Csv.{csv_contains}
use ceell.Messaging.{priority_of, MsgRsp}
use ceell.Messaging.Exchange.{empty_queues}
use ceell.Messaging.Exchange.Wait.{last_answer}
use ceell.Node.{Node, lifecycle_tick, echo_name}
use ceell.Node.Lifecycle.{Life, Outside, lifecycle_round, lifecycle_run}
use ceell.Node.Lifecycle.Echo.{attempts, StopAtSuccess, prints, lifecycle_run_lem}
use ceell.Node.Lifecycle.Answer.{lifecycle_round-answered}

abbrev node : Node
node = record {
  peers = record {
    peers =
        record zero_peer { node_id = 7; services = echo_name ++ replicate 124 0; last_seen = 100 }
        ∷ zero_peer
        ∷ [];
    peer_count = 1;
  };
  health = record {
    health_table = replicate 2 zero_health;
    health_cb = true;
    health_initialized = true;
  };
  safe = record { safe_active = 0; safe_reason_val = 0; safe_cb = false; safe_initialized = true };
  timing = timing_init 4 1000000;
  watchdog = record { wdt_enabled = true; wdt_last_feed = pos 0; wdt_timeout = pos 5000 };
  tick_count = 5;
}

abbrev life : Life ℕ
life = record { node = node; messaging = empty_queues; echo_tested = false }

abbrev answer : MsgRsp
answer = record {
  type = none;
  seq = pos 1;
  from_id = pos 7;
  status = pos 0;
  payload = none;
  priority = pos 1;
}

-- The request cannot be sent in the first round, and is answered in the second.
abbrev unsent : Outside
unsent = record {
  now = 200;
  start_cycle = 5;
  end_cycle = 9;
  encoded = true;
  sent = err eagain;
  responses = [];
  send_time = pos 200;
}

abbrev answered : Outside
answered = record unsent { sent = ok; responses = answer ∷ [] }

lifecycle_run_lem_example :
    let run = lifecycle_run 100 500 2 4 1000000 true true in
    let (shown, l') = run (some zero_config) (unsent ∷ answered ∷ []) life in
    StopAtSuccess false (attempts shown) l'.echo_tested
    × (prints shown + life.node.tick_count / 6 ≡ (life.node.tick_count + 2) / 6)
    × (length shown ≡ 2)
    × (run none (unsent ∷ answered ∷ []) life ≡ ([], life))
lifecycle_run_lem_example =
    lifecycle_run_lem 100 500 2 4 1000000 true true zero_config (unsent ∷ answered ∷ []) life

lifecycle_round-answered_example :
    let (shown, l') = lifecycle_round 100 500 2 4 1000000 true true answered life in
    (shown.echo ≡ some ok) × (l'.echo_tested ≡ true)
unfolding lifecycle_tick expire_peers service_find_peer last_answer csv_contains priority_of
lifecycle_round-answered_example =
    lifecycle_round-answered 100 500 2 4 1000000 true 200 5 9 (answer ∷ []) (pos 200) answer life
      refl refl refl
