-- ===== src/Node/Boot/Outcome.antt =====
-- How the start of a node ends: which errors make `main` return, and what a started node has.
use ceell.Prelude.{
  ℕ, ◌≡◌, ◌≢◌, refl, ap, subst, true, Option, none, some, List, [], ◌∷◌, if◌then◌else◌, ◌⊎◌, inl,
  inr,
}
use ceell.Errno.{Ret, Errno, ok, err, ealready, failed}
use ceell.Bytes.{Bytes}
use ceell.Config.{CeellConfig}
use ceell.Config.Load.{config_load}
use ceell.Timing.{timing_init}
use ceell.Health.{Health, health_init, health_register_cb}
use ceell.Safe.{safe_state_init}
use ceell.Discovery.Threads.{SocketRets, disc_tx, disc_rx, discovery_init}
use ceell.Messaging.Exchange.{messaging_init, empty_queues}
use ceell.Node.{net_setup, identity_init, register_own, ota_name, start_registry}
use ceell.Node.Boot.{
  Env, Statics, Progress, returned, going, ◌>>=◌, set_net, set_identity, fill_registry,
  init_monitors, start_discovery, start_messaging, start_ota, main,
}

Ret-cases : (r : Ret) → (r ≡ ok) ⊎ ((e : Errno) × (r ≡ err e))
Ret-cases ok = inl refl
Ret-cases (err e) = inr (e, refl)

err-ne-ok : (e : Errno) → err e ≢ ok
err-ne-ok e h = cc

abbrev pub first_error : List Ret → Option Errno
first_error [] = none
first_error (ok ∷ rs) = first_error rs
first_error (err e ∷ rs) = some e

sock-init :
    (port : ℕ) (group : Bytes) (r : SocketRets)
    → (discovery_init port group r).0 ≡ ok
    → (discovery_init port group r).1 ≡ some r.fd
unfolding discovery_init
sock-init port group r e = elim (Ret-cases r.socket) [
  | inr (x, sock) ↦ absurd (err-ne-ok x (rw (sock, discovery_init) at e))
  | inl sock ↦ elim (Ret-cases r.bind) [
    | inr (x, bind) ↦ absurd (err-ne-ok x (rw (sock, bind, discovery_init) at e))
    | inl bind ↦ rw (sock, bind, discovery_init) refl
  ]
]

queues-init : {A : Type 0} (sock bind : Ret) → (messaging_init {A = A} sock bind).1 ≡ empty_queues
unfolding messaging_init
queues-init (err e) bind = refl
queues-init ok (err e) = refl
queues-init ok ok = refl

module _ {H A : Type 0} (max_services max_peers samples_max hz port : ℕ) (group : Bytes)
    (echo ota : Option H) (env : Env) (s : Statics H A) where
  abbrev pub config : CeellConfig
  config = config_load env.defaults env.parsers env.flash

  -- What the parts of a node have at the entry of the lifecycle loop.
  pub record Running (t : Statics H A) : Type 0 where
    pub identity : t.identity ≡ (identity_init config s.identity).1
    pub registry : t.registry ≡ start_registry max_services config echo ota
    pub timing : t.timing ≡ timing_init samples_max hz
    pub health : t.health ≡ (
        if failed env.health_mutex
        then s.health
        else health_register_cb (health_init max_peers ok s.health).1 true)
    pub safe : t.safe ≡ (safe_state_init env.safe_mutex s.safe).1
    pub sock : t.sock ≡ some env.disc_socket.fd
    pub threads : t.threads ≡ disc_tx ∷ disc_rx ∷ []
    pub messaging : t.messaging ≡ some empty_queues

  set_identity-going :
      (cfg : CeellConfig) (o : Option CeellConfig)
      → (let (ret, identity) = identity_init cfg o in
          elim ret [
            | ok ↦ going (record s { identity = identity })
            | err ealready ↦ going (record s { identity = identity })
            | err e ↦ returned e (record s { identity = identity })
          ])
        ≡ going (record s { identity = (identity_init cfg o).1 })
  unfolding identity_init
  set_identity-going cfg none = refl
  set_identity-going cfg (some c) = refl

  -- The start from its fourth step on.
  unfoldable rest : Statics H A → Progress (Statics H A)
  rest t =
      fill_registry max_services max_peers samples_max hz port group echo ota config t
      >>= init_monitors max_services max_peers samples_max hz port group echo ota env
      >>= start_discovery max_services max_peers samples_max hz port group echo ota env
      >>= start_messaging max_services max_peers samples_max hz port group echo ota env
      >>= start_ota max_services max_peers samples_max hz port group echo ota env

  main-rest :
      net_setup env.interface (some config) ≡ ok
      → main max_services max_peers samples_max hz port group echo ota env s
        ≡ rest (record s { identity = (identity_init config s.identity).1 })
  unfolding main rest set_net set_identity
  main-rest net =
      rw (net, main)
        (ap
          (λ p.
            p
            >>= fill_registry max_services max_peers samples_max hz port group echo ota config
            >>= init_monitors max_services max_peers samples_max hz port group echo ota env
            >>= start_discovery max_services max_peers samples_max hz port group echo ota env
            >>= start_messaging max_services max_peers samples_max hz port group echo ota env
            >>= start_ota max_services max_peers samples_max hz port group echo ota env)
          (set_identity-going config s.identity))

  Running-ota :
      (o : Option H) (t : Statics H A)
      → Running (record t { registry = register_own max_services ota_name o t.registry })
      → (u : Statics H A) × (start_ota max_services max_peers samples_max hz port group echo o env t
          ≡ going u)
        × Running u
  unfolding start_ota register_own
  Running-ota none t r = (
    t,
    refl,
    record {
      identity = r.identity;
      registry = r.registry;
      timing = r.timing;
      health = r.health;
      safe = r.safe;
      sock = r.sock;
      threads = r.threads;
      messaging = r.messaging;
    },
  )
  Running-ota (some h) t r = (
    _,
    refl,
    record {
      identity = r.identity;
      registry = r.registry;
      timing = r.timing;
      health = r.health;
      safe = r.safe;
      sock = r.sock;
      threads = r.threads;
      messaging = r.messaging;
    },
  )

  health_start :
      (mutex : Ret) (h : Health)
      → (if failed (health_init max_peers mutex h).0
          then (health_init max_peers mutex h).1
          else health_register_cb (health_init max_peers mutex h).1 true)
        ≡ (if failed mutex then h else health_register_cb (health_init max_peers ok h).1 true)
  unfolding health_init
  health_start ok h = refl
  health_start (err e) h = refl

  -- How the start ends, if `o` is its first error.
  abbrev pub Ends : Option Errno → Progress (Statics H A) → Type 0
  Ends (some e) p = (t : Statics H A) × (p ≡ returned e t)
  Ends none p = (t : Statics H A) × (p ≡ going t) × Running t

  rest-Ends :
      Ends
        (first_error (
          (discovery_init port group env.disc_socket).0
          ∷ (messaging_init {A = A} env.msg_socket env.msg_bind).0
          ∷ []))
        (rest (record s { identity = (identity_init config s.identity).1 }))
  unfolding rest fill_registry init_monitors start_discovery start_messaging start_registry
  rest-Ends = elim (Ret-cases (discovery_init port group env.disc_socket).0) [
    | inr (e, disc) ↦ rw (disc, rest) (_, refl)
    | inl disc ↦ elim (Ret-cases (messaging_init {A = A} env.msg_socket env.msg_bind).0) [
      | inr (e, msg) ↦ rw (disc, msg, rest) (_, refl)
      | inl msg ↦
          rw (disc, msg, rest)
            (Running-ota ota _ (record {
              identity = refl;
              registry = refl;
              timing = refl;
              health = health_start env.health_mutex s.health;
              safe = refl;
              sock = sock-init port group env.disc_socket disc;
              threads = refl;
              messaging = ap some (queues-init env.msg_socket env.msg_bind);
            }))
    ]
  ]

  -- `main` returns the first error of the network, of the discovery socket or of the messaging socket; the
  -- other steps never make it return: not the identity, which may be set already, nor the health monitor,
  -- the safe state or the OTA client. Without an error it enters the lifecycle loop, and then the
  -- identity is set, the registry holds what the start registers, the threads of discovery run, and the
  -- monitors are as their initialisation leaves them, or untouched where it failed.
  pub main_lem :
      Ends
        (first_error (
          net_setup env.interface (some config)
          ∷ (discovery_init port group env.disc_socket).0
          ∷ (messaging_init {A = A} env.msg_socket env.msg_bind).0
          ∷ []))
        (main max_services max_peers samples_max hz port group echo ota env s)
  unfolding main
  main_lem = elim (Ret-cases (net_setup env.interface (some config))) [
    | inr (e, net) ↦ rw (net, main) (s, refl)
    | inl net ↦ rw (main-rest net, net) rest-Ends
  ]

  -- Where the messaging socket fails after discovery has started, `main` returns that error while the two
  -- threads of discovery run on: the node announces the services that are registered, though nothing
  -- listens for requests and no lifecycle loop runs.
  pub main-deaf :
      (e : Errno)
      → net_setup env.interface (some config) ≡ ok
      → (discovery_init port group env.disc_socket).0 ≡ ok
      → (messaging_init {A = A} env.msg_socket env.msg_bind).0 ≡ err e
      → (t : Statics H A) × (main max_services max_peers samples_max hz port group echo ota env s
          ≡ returned e t)
        × (t.threads ≡ disc_tx ∷ disc_rx ∷ [])
        × (t.registry ≡ start_registry max_services config echo none)
        × (t.messaging ≡ s.messaging)
  unfolding rest fill_registry init_monitors start_discovery start_messaging start_registry
      register_own
  main-deaf e net disc msg = rw (main-rest net, disc, msg, rest) (_, refl, refl, refl, refl)

  Running-Ends :
      (o : Option Errno) (p : Progress (Statics H A)) (t : Statics H A)
      → p ≡ going t
      → Ends o p
      → Running t
  Running-Ends (some e) p t q (u, f) = cc
  Running-Ends none p t q (u, f, r) = subst Running (cc) r

  -- A node that has reached the lifecycle loop has what `Running` says.
  pub main-Running :
      (t : Statics H A)
      → main max_services max_peers samples_max hz port group echo ota env s ≡ going t
      → Running t
  main-Running t e = Running-Ends _ _ t e main_lem
