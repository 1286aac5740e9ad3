-- ===== src/Node/Threads/Invariant.antt =====
-- What every interleaving of a node's threads keeps.
use ceell.Prelude.{
  ap, ℕ, ◌≤◌, ◌≡◌, refl, sym, subst, ◌∙◌, Bool, true, Option, none, some, List, [], ◌∷◌, arith,
  length, inl, inr, Bool-cases, Option-cases, not, ◌&&◌, ltb, map, replicate,
}
use ceell.Prelude.Int.{ℤ, pos}
use ceell.Errno.{Ret}
use ceell.Bytes.{Bytes}
use ceell.Discovery.{
  Peers, DiscoveryMsg, expire_peers, get_peers, discovery_peer_count, service_find_peer,
}
use ceell.Discovery.Table
use ceell.Discovery.Sweep.{expire_peers-IsValid}
use ceell.Discovery.Threads.{heard, rx_round}
use ceell.Health.{health_update}
use ceell.Health.Size.{length-health_update}
use ceell.Safe.{SafeState, WatchdogState, safe_state_trigger, wdt_round}
use ceell.Safe.Alternate
use ceell.Timing.Store
use ceell.Messaging.{MsgPriority, at, MsgRsp, Messaging}
use ceell.Messaging.Exchange.{
  refused, waiting, Begun, after_wait, claim_slot, send_begin, send_end, handle_response,
  handle_all, msg_send,
}
use ceell.Messaging.Exchange.Resets.{send_wait-handle_all}
use ceell.Messaging.Dispatch.{dispatch, dispatch_response, is_type, req_type, rsp_type}
use ceell.Messaging.Dispatch.Route.{step, step-Ordered, msgq-handle_response, Event}
use ceell.Node.{Node, sighting_of, lifecycle_tick, echo_name}
use ceell.Node.Tick.{on_health_changes_lem}
use ceell.Node.Lifecycle.Echo.{Ret-cases, node-echo_test}
use ceell.Node.Lifecycle.{Life, Outside, echo_test, lifecycle_round}
use ceell.Node.Threads.{
  Setting, Step, hear, round, packet, serve, watch, Reach, here, next, after_hear, after_round,
  after_packet, after_serve, after_watch,
}

-- The queues after a send are those before it.
module _ {A : Type 0} where
  msgq-handle_all : (rs : List MsgRsp) (s : Messaging A) → (handle_all rs s).msgq ≡ s.msgq
  unfolding handle_all
  msgq-handle_all [] s = refl
  msgq-handle_all (r ∷ rs) s = msgq-handle_all rs (handle_response r s) ∙ msgq-handle_response r s

  msgq-send_end :
      (pri : MsgPriority) (deadline_ms : ℕ) (send_time : ℤ) (s : Messaging A)
      → (send_end pri deadline_ms send_time s).2.msgq ≡ s.msgq
  unfolding send_end
  msgq-send_end pri deadline_ms send_time s = ground arith

  msgq-send_begin :
      (max_peers : ℕ) (peers : Peers) (self encoded : Bool) (sent : Ret) (service : Bytes)
      (priority : ℤ) (s : Messaging A)
      → (send_begin max_peers peers self encoded sent (some service) true priority s).1.msgq
        ≡ s.msgq
  unfolding send_begin claim_slot
  msgq-send_begin max_peers peers self encoded sent service priority s = ground arith

  msgq-after_wait :
      (rs : List MsgRsp) (deadline_ms : ℕ) (send_time : ℤ) (b : Begun) (s : Messaging A)
      → (after_wait rs deadline_ms send_time b s).2.msgq ≡ s.msgq
  msgq-after_wait rs deadline_ms send_time (refused e) s = refl
  msgq-after_wait rs deadline_ms send_time (waiting seq pri) s =
      ap (λ x. x.2.msgq) (send_wait-handle_all pri deadline_ms send_time rs s)
      ∙ msgq-send_end pri deadline_ms send_time (handle_all rs s)
      ∙ msgq-handle_all rs s

  msgq-msg_send :
      (max_peers : ℕ) (peers : Peers) (encoded : Bool) (sent : Ret) (rs : List MsgRsp)
      (service : Bytes) (send_time : ℤ) (s : Messaging A)
      → (msg_send max_peers peers true encoded sent rs (some service) true send_time s).2.msgq
        ≡ s.msgq
  unfolding msg_send
  msgq-msg_send max_peers peers encoded sent rs service send_time s =
      let (begun, s') =
        send_begin max_peers peers true encoded sent (some service) true (pos 1) s in
      msgq-after_wait rs 0 send_time begun s'
      ∙ msgq-send_begin max_peers peers true encoded sent service (pos 1) s

wdt_round-IsValid :
    (now : ℕ) (w : WatchdogState) (s : SafeState)
    → Alternate.IsValid s
    → Alternate.IsValid (wdt_round now w s).1
unfolding wdt_round safe_state_trigger
wdt_round-IsValid now w s v = ground arith

module _ {A : Type 0} (c : Setting A) where
  -- The parts' invariants together.
  pub record IsValid (l : Life A) : Type 0 where
    pub peers : Table.IsValid c.self c.max_peers l.node.peers
    pub health_size : length l.node.health.health_table ≡ c.max_peers
    pub health_ready : l.node.health.health_initialized ≡ true
    pub safe : Alternate.IsValid l.node.safe
    pub timing : Store.IsValid c.samples_max c.hz l.node.timing
    pub queues : (q : MsgPriority) → length (at q l.messaging.msgq) ≤ c.depth

  rx_round-IsValid :
      (now : ℕ) (recv : Option Bytes) (s : Peers)
      → Table.IsValid c.self c.max_peers s
      → Table.IsValid c.self c.max_peers (rx_round c.max_peers c.parse c.self now recv s)
  unfolding rx_round
  rx_round-IsValid now none s v = v
  rx_round-IsValid now (some []) s v = v
  rx_round-IsValid now (some (b ∷ bs)) s v = heard-IsValid (c.parse (b ∷ bs))
    where
      heard-IsValid :
          (o : Option DiscoveryMsg)
          → Table.IsValid c.self c.max_peers (heard c.max_peers c.self now o s)
      heard-IsValid none = v
      heard-IsValid (some msg) = Table.update_peer-IsValid c.self c.max_peers s msg now v

  -- A round of the lifecycle loop, before its echo test.
  tick-IsValid :
      (o : Outside) (l : Life A)
      → IsValid l
      → IsValid (record l {
        node =
            (lifecycle_tick c.interval c.timeout c.max_peers c.samples_max c.hz c.with_watchdog
              o.now o.start_cycle o.end_cycle l.node).1;
      })
  unfolding lifecycle_tick
  tick-IsValid o l v =
      let ps = (expire_peers c.timeout o.now l.node.peers).1 in
      let seen = map sighting_of (get_peers c.max_peers ps) in
      let h = length-health_update c.interval c.timeout c.max_peers o.now seen l.node.health in
      let changes = (health_update c.interval c.timeout c.max_peers o.now seen l.node.health).0 in
      record {
        peers = expire_peers-IsValid c.timeout o.now c.self c.max_peers l.node.peers v.peers;
        health_size = h.0 ∙ v.health_size;
        health_ready = h.1 ∙ v.health_ready;
        safe = (on_health_changes_lem changes l.node.safe v.safe).1;
        timing =
            Store.timing_stop-IsValid c.samples_max c.hz l.node.timing _ o.start_cycle o.end_cycle
              v.timing;
        queues = v.queues;
      }

  msgq-echo_test :
      (o : Outside) (l : Life A)
      → (echo_test c.interval c.timeout c.max_peers c.samples_max c.hz c.with_watchdog c.with_echo o
          l).1.messaging.msgq
        ≡ l.messaging.msgq
  unfolding echo_test
  msgq-echo_test o l =
      let peers = l.node.peers in
      let busy = c.with_echo && not l.echo_tested && ltb 0 (discovery_peer_count peers) in
      elim (Bool-cases busy) [
        | inr idle ↦ rw (idle, echo_test) refl
        | inl asks ↦
            elim (Ret-cases
              (service_find_peer c.max_peers peers (some echo_name) (some (replicate 16 0))).0) [
                | inr (e, f) ↦ rw (asks, f, echo_test) refl
                | inl f ↦
                    rw (asks, f, echo_test)
                      (msgq-msg_send c.max_peers peers o.encoded o.sent o.responses echo_name
                        o.send_time l.messaging)
              ]
      ]

  -- Where the node is the same and the queues are, the invariant holds.
  IsValid-same :
      (l m : Life A) → IsValid l → m.node ≡ l.node → m.messaging.msgq ≡ l.messaging.msgq → IsValid m
  IsValid-same l m v e q =
      let back = sym e in
      record {
        peers = subst (λ (n : Node). Table.IsValid c.self c.max_peers n.peers) back v.peers;
        health_size =
            subst (λ (n : Node). length n.health.health_table ≡ c.max_peers) back v.health_size;
        health_ready = subst (λ (n : Node). n.health.health_initialized ≡ true) back v.health_ready;
        safe = subst (λ (n : Node). Alternate.IsValid n.safe) back v.safe;
        timing = subst (λ (n : Node). Store.IsValid c.samples_max c.hz n.timing) back v.timing;
        queues = λ pri. subst (λ t. length (at pri t) ≤ c.depth) (sym q) (v.queues pri);
      }

  round-IsValid : (o : Outside) (l : Life A) → IsValid l → IsValid (after_round c o l)
  unfolding after_round lifecycle_round
  round-IsValid o l v =
      let node =
        (lifecycle_tick c.interval c.timeout c.max_peers c.samples_max c.hz c.with_watchdog o.now
          o.start_cycle o.end_cycle l.node).1 in
      let l1 : Life A = record l { node = node } in
      IsValid-same l1 _ (tick-IsValid o l v)
        (node-echo_test c.interval c.timeout c.max_peers c.samples_max c.hz c.with_watchdog
          c.with_echo o l1)
        (msgq-echo_test o l1)

  msgq-dispatch_response :
      (o : Option MsgRsp) (s : Messaging A)
      → (dispatch_response c.errno c.encodes c.self c.depth o s).msgq ≡ s.msgq
  unfolding dispatch_response
  msgq-dispatch_response none s = refl
  msgq-dispatch_response (some rsp) s = elim (Bool-cases (is_type rsp_type rsp.type)) [
    | inl is_rsp ↦ rw is_rsp (msgq-handle_response rsp s)
    | inr other ↦ rw other refl
  ]

  dispatch-queues :
      (q : MsgPriority) (src : A) (buf : Bytes) (s : Messaging A)
      → length (at q s.msgq) ≤ c.depth
      → length (
          at q (dispatch c.errno c.encodes c.self c.depth c.parse_req c.parse_rsp src buf s).1.msgq)
        ≤ c.depth
  unfolding dispatch step
  dispatch-queues q src buf s h =
      let left = (c.parse_req buf).1 in
      let as_response =
        subst (λ t. length (at q t) ≤ c.depth) (sym (msgq-dispatch_response (c.parse_rsp left) s))
          h in
      elim (Option-cases (c.parse_req buf).0) [
        | inl none_parsed ↦ rw (none_parsed, dispatch) as_response
        | inr (req, parsed) ↦ elim (Bool-cases (is_type req_type req.type)) [
          | inl is_req ↦
              rw (parsed, is_req, dispatch)
                ((step-Ordered c.errno c.encodes c.self c.registry c.depth q (Event.request src req)
                    s).1
                  h)
          | inr other ↦ rw (parsed, other, dispatch) as_response
        ]
      ]

  Step-IsValid : {l m : Life A} → Step c l m → IsValid l → IsValid m
  unfolding after_hear after_packet after_serve after_watch step
  Step-IsValid {l} (hear now recv) v = record {
    peers = rx_round-IsValid now recv l.node.peers v.peers;
    health_size = v.health_size;
    health_ready = v.health_ready;
    safe = v.safe;
    timing = v.timing;
    queues = v.queues;
  }
  Step-IsValid {l} (round o) v = round-IsValid o l v
  Step-IsValid {l} (packet src buf) v = record {
    peers = v.peers;
    health_size = v.health_size;
    health_ready = v.health_ready;
    safe = v.safe;
    timing = v.timing;
    queues = λ q. dispatch-queues q src buf l.messaging (v.queues q);
  }
  Step-IsValid {l} (serve now pri) v = record {
    peers = v.peers;
    health_size = v.health_size;
    health_ready = v.health_ready;
    safe = v.safe;
    timing = v.timing;
    queues = λ q.
        (step-Ordered c.errno c.encodes c.self c.registry c.depth q (Event.serve now pri)
            l.messaging).1
          (v.queues q);
  }
  Step-IsValid {l} (watch now) v = record {
    peers = v.peers;
    health_size = v.health_size;
    health_ready = v.health_ready;
    safe = wdt_round-IsValid now l.node.watchdog l.node.safe v.safe;
    timing = v.timing;
    queues = v.queues;
  }

  -- Whatever the threads of a valid node do, in whichever order, and whatever arrives, the node stays valid:
  -- the peer table has each node once and never the node itself, and no more peers or longer texts than
  -- its arrays hold; the safe state is set up, with a reason if it is active; the store of timing samples and
  -- the health table keep their sizes; and no queue of requests is longer than its depth.
  pub Reach-IsValid : {l m : Life A} → IsValid l → Reach c l m → IsValid m
  Reach-IsValid v here = v
  Reach-IsValid v (next r st) = Step-IsValid st (Reach-IsValid v r)
