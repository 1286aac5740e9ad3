-- ===== src/Node/Threads/PowerOn.antt =====
-- A node from the start of src/main.c on: what holds in whatever its threads come to.
use ceell.Prelude.{
  ℕ, ◌<◌, ◌≤◌, ◌≡◌, refl, ap, subst, ◌≢◌, sym, ◌∙◌, true, false, if◌then◌else◌, Option, none, some,
  arith, replicate, length, length-replicate,
}
use ceell.Errno.{Ret, ok, err, failed}
use ceell.Bytes.{Bytes}
use ceell.Discovery.{Peers, zero_peer}
use ceell.Health.{Health, zero_health, health_init, health_register_cb}
use ceell.Safe.{WatchdogState, safe_state_init}
use ceell.Safe.Alternate
use ceell.Safe.Alternate.{safe_state_init-IsValid}
use ceell.Timing.Store
use ceell.Timing.Store.{timing_init-IsValid}
use ceell.Messaging.{MsgPriority, critical, normal, bulk, at, Messaging}
use ceell.Messaging.Exchange.{empty_queues}
use ceell.Node.Boot.{Env, Statics, going, main}
use ceell.Node.Boot.Outcome.{main-Running}
use ceell.Node.Lifecycle.{Life}
use ceell.Node.Threads.{Setting, Reach}
use ceell.Node.Threads.Invariant.{IsValid, Reach-IsValid}

-- The peer table as the program is loaded.
abbrev pub no_peers : ℕ → Peers
no_peers max_peers = record { peers = replicate max_peers zero_peer; peer_count = 0 }

abbrev pub messaging_of : {A : Type 0} → Option (Messaging A) → Messaging A
messaging_of none = empty_queues
messaging_of (some m) = m

health_started :
    (max_peers : ℕ) (mutex : Ret) (h h' : Health)
    → mutex ≡ ok
    → h' ≡ (if failed mutex then h else health_register_cb (health_init max_peers ok h).1 true)
    → (length h'.health_table ≡ max_peers) × (h'.health_initialized ≡ true)
unfolding health_init health_register_cb
health_started max_peers (err x) h h' e f = absurd (differ e)
  where
    differ : err x ≢ ok
    differ q = cc
health_started max_peers ok h h' e f = rw f (length-replicate max_peers zero_health, refl)

module _ {H A : Type 0} (c : Setting A) where
  -- The node at the entry of the lifecycle loop.
  abbrev pub entered : WatchdogState → Statics H A → Life A
  entered w t = record {
    node = record {
      peers = no_peers c.max_peers;
      health = t.health;
      safe = t.safe;
      timing = t.timing;
      watchdog = w;
      tick_count = 0;
    };
    messaging = messaging_of t.messaging;
    echo_tested = false;
  }

  -- A node whose start enters the lifecycle loop, with the mutexes of the health monitor and of the
  -- safe state made, is valid after whatever interleaving of its threads follows, whatever arrives:
  -- the peer table has each node once and never the node itself, and no more peers or longer texts
  -- than its arrays hold; the safe state is set up, with a reason if it is active; the timing
  -- samples and the health table keep their sizes; and no queue of requests is longer than its
  -- depth.
  pub main-IsValid :
      (max_services port : ℕ) (group : Bytes) (echo ota : Option H) (env : Env) (s t : Statics H A)
      (w : WatchdogState) {m : Life A}
      → main max_services c.max_peers c.samples_max c.hz port group echo ota env s ≡ going t
      → env.health_mutex ≡ ok
      → env.safe_mutex ≡ ok
      → 0 < c.samples_max
      → Reach c (entered w t) m
      → IsValid c m
  main-IsValid max_services port group echo ota env s t w started health safe samples reach =
      let r =
        main-Running max_services c.max_peers c.samples_max c.hz port group echo ota env s t
          started in
      let h = health_started c.max_peers env.health_mutex s.health t.health health r.health in
      Reach-IsValid c
        (record {
          peers = record {
            size = length-replicate c.max_peers zero_peer;
            count_in = omega arith;
            distinct = tt;
            foreign = tt;
            formed = tt;
          };
          health_size = h.0;
          health_ready = h.1;
          safe =
              subst Alternate.IsValid (sym (r.safe ∙ ap (λ q. (safe_state_init q s.safe).1) safe))
                (safe_state_init-IsValid s.safe).0;
          timing =
              subst (Store.IsValid c.samples_max c.hz) (sym r.timing)
                (timing_init-IsValid c.samples_max c.hz samples).0;
          queues = λ q.
              subst (λ o. length (at q (messaging_of o).msgq) ≤ c.depth) (sym r.messaging)
                (empty q);
        })
        reach
    where
      empty : (q : MsgPriority) → length (at q (empty_queues {A = A}).msgq) ≤ c.depth
      empty critical = omega arith
      empty normal = omega arith
      empty bulk = omega arith
