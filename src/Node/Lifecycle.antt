-- ===== src/Node/Lifecycle.antt =====
-- `ceell_lifecycle_run` of ceell/core/lifecycle.c as a whole: the rounds of its loop with the statistics and
-- the echo test. `with_echo` is `CONFIG_CEELL_TEST_ECHO_SERVICE`.
pub mod Echo
pub mod Answer
mod Tests
use ceell.Prelude.{
  ℕ, ◌%◌, Bool, true, false, not, ◌&&◌, Option, none, some, List, [], ◌∷◌, if◌then◌else◌, ltb, ◌==◌,
  replicate,
}
use ceell.Prelude.Int.{ℤ}
use ceell.Errno.{Ret, ok, err, failed}
use ceell.Bytes.{Bytes}
use ceell.Config.{CeellConfig}
use ceell.Discovery.{discovery_peer_count, service_find_peer}
use ceell.Safe.{SafeCall}
use ceell.Timing.{TimingStats, timing_print_stats}
use ceell.Messaging.{MsgRsp, Messaging}
use ceell.Messaging.Exchange.{msg_send}
use ceell.Node.{Node, lifecycle_tick, echo_name}

-- `LIFECYCLE_STATS_INTERVAL`
abbrev pub stats_interval : ℕ
stats_interval = 6

-- The variables of the loop, with the parts that it calls.
pub record Life (A : Type 0) : Type 0 where
  pub node : Node
  pub messaging : Messaging A
  pub echo_tested : Bool

-- What the outside gives a round: the uptime, the cycle counter, and what becomes of an echo request.
pub record Outside : Type 0 where
  pub now : ℕ
  pub start_cycle : ℕ
  pub end_cycle : ℕ
  pub encoded : Bool
  pub sent : Ret
  pub responses : List MsgRsp
  pub send_time : ℤ

-- What a round shows: the calls of the safe state's callback, the statistics, the number of peers, and the
-- result of an echo request, if it made one.
pub record Shown : Type 0 where
  pub calls : List SafeCall
  pub stats : Option (List (Bytes × TimingStats))
  pub peers : ℕ
  pub echo : Option Ret

module _ {A : Type 0} (interval timeout max_peers samples_max hz : ℕ)
    (with_watchdog with_echo : Bool) where
  -- The echo test of a round, until it has succeeded once.
  unfoldable pub echo_test : Outside → Life A → Option Ret × Life A
  echo_test o l =
      let peers = l.node.peers in
      let found = service_find_peer max_peers peers (some echo_name) (some (replicate 16 0)) in
      let (ret, rsp, messaging) =
        msg_send max_peers peers true o.encoded o.sent o.responses (some echo_name) true o.send_time
          l.messaging in
      if with_echo && not l.echo_tested && ltb 0 (discovery_peer_count peers)
      then (elim found.0 [
        | err e ↦ (none, l)
        | ok ↦ (some ret, record l { messaging = messaging; echo_tested = not (failed ret) })
      ])
      else (none, l)

  unfoldable pub lifecycle_round : Outside → Life A → Shown × Life A
  unfolding echo_test
  lifecycle_round o l =
      let (calls, node) =
        lifecycle_tick interval timeout max_peers samples_max hz with_watchdog o.now o.start_cycle
          o.end_cycle l.node in
      let (echo, l') = echo_test o (record l { node = node }) in
      (
        record {
          calls = calls;
          stats =
              if node.tick_count % stats_interval == 0
              then some (timing_print_stats samples_max hz node.timing)
              else none;
          peers = discovery_peer_count node.peers;
          echo = echo;
        },
        l',
      )

  -- The loop for as many rounds as the outside gives.
  unfoldable pub lifecycle_rounds : List Outside → Life A → List Shown × Life A
  unfolding lifecycle_round
  lifecycle_rounds [] l = ([], l)
  lifecycle_rounds (o ∷ os) l =
      let (shown, l') = lifecycle_round o l in
      let (rest, l'') = lifecycle_rounds os l' in (shown ∷ rest, l'')

  -- Without an identity it returns at once.
  unfoldable pub lifecycle_run : Option CeellConfig → List Outside → Life A → List Shown × Life A
  unfolding lifecycle_rounds
  lifecycle_run none os l = ([], l)
  lifecycle_run (some id) os l = lifecycle_rounds os l
