-- ===== src/Node/Boot.antt =====
-- `main` of src/main.c: the start of a node, step by step, with its early returns.
pub mod Outcome
mod Tests
use ceell.Prelude.{ℕ, Bool, true, false, Option, none, some, List, [], ◌∷◌, if◌then◌else◌}
use ceell.Errno.{Ret, Errno, ok, err, ealready, failed}
use ceell.Bytes.{Bytes}
use ceell.Config.{CeellConfig}
use ceell.Config.Load.{Defaults, Parsers, Flash, config_load}
use ceell.Registry.{Registry, service_init}
use ceell.Timing.{Timing, timing_init}
use ceell.Health.{Health, health_init, health_register_cb}
use ceell.Safe.{SafeState, safe_none, safe_state_init}
use ceell.Discovery.Threads.{SocketRets, Thread, discovery_init, discovery_start}
use ceell.Ota.Client.Cycle.{Boot, ota_init}
use ceell.Messaging.{Messaging}
use ceell.Messaging.Exchange.{messaging_init}
use ceell.Node.{
  Interface, net_setup, identity_init, register_services, register_own, echo_name, ota_name,
}

-- What the libraries and the operating system give during the start.
pub record Env : Type 0 where
  pub defaults : Defaults
  pub parsers : Parsers
  pub flash : Flash
  pub interface : Interface
  pub health_mutex : Ret
  pub safe_mutex : Ret
  pub disc_socket : SocketRets
  pub msg_socket : Ret
  pub msg_bind : Ret
  pub auto_confirm : Bool
  pub boot : Boot

-- The static variables of the parts. `threads` are the discovery threads that run, `messaging` is there
-- once its socket is bound and its threads run.
pub record Statics (H A : Type 0) : Type 0 where
  pub identity : Option CeellConfig
  pub registry : Registry H
  pub timing : Timing
  pub health : Health
  pub safe : SafeState
  pub sock : Option ℕ
  pub threads : List Thread
  pub messaging : Option (Messaging A)
  pub ota_running : Bool

-- Where `main` is: it has returned an error, or goes on.
pub data Progress (S : Type 0) : Type 0 where
  returned : Errno → S → Progress S
  going : S → Progress S

infixl 5 ◌>>=◌
abbrev pub ◌>>=◌ : {S : Type 0} → Progress S → (S → Progress S) → Progress S
returned e s >>= f = returned e s
going s >>= f = f s

-- `if (ret < 0) { return ret; }`
abbrev pub fatal : {S : Type 0} → Ret → S → Progress S
fatal ok s = going s
fatal (err e) s = returned e s

module _ {H A : Type 0} (max_services max_peers samples_max hz port : ℕ) (group : Bytes)
    (echo ota : Option H) where
  -- Steps 1 to 3. The configuration is always loaded: `ceell_config_load` returns 0.
  unfoldable pub set_net : Env → CeellConfig → Statics H A → Progress (Statics H A)
  set_net env cfg s = fatal (net_setup env.interface (some cfg)) s

  unfoldable pub set_identity : CeellConfig → Statics H A → Progress (Statics H A)
  set_identity cfg s =
      let (ret, identity) = identity_init cfg s.identity in
      elim ret [
        | ok ↦ going (record s { identity = identity })
        | err ealready ↦ going (record s { identity = identity })
        | err e ↦ returned e (record s { identity = identity })
      ]

  -- Steps 4 and 5.
  unfoldable pub fill_registry : CeellConfig → Statics H A → Progress (Statics H A)
  fill_registry cfg s =
      let r = register_services max_services cfg.service_count 0 cfg (service_init max_services) in
      going (record s { registry = register_own max_services echo_name echo r })

  -- Steps 5b to 5d: what fails here is logged only.
  unfoldable pub init_monitors : Env → Statics H A → Progress (Statics H A)
  init_monitors env s =
      let (ret, health) = health_init max_peers env.health_mutex s.health in
      going (record s {
        timing = timing_init samples_max hz;
        health = if failed ret then health else health_register_cb health true;
        safe = (safe_state_init env.safe_mutex s.safe).1;
      })

  -- Steps 6 and 7.
  unfoldable pub start_discovery : Env → Statics H A → Progress (Statics H A)
  start_discovery env s =
      let (ret, sock, calls) = discovery_init port group env.disc_socket in
      fatal ret (record s { sock = sock }) >>= λ s. going (record s { threads = discovery_start })

  -- Step 8.
  unfoldable pub start_messaging : Env → Statics H A → Progress (Statics H A)
  start_messaging env s =
      let (ret, messaging) = messaging_init {A = A} env.msg_socket env.msg_bind in
      fatal ret s >>= λ s. going (record s { messaging = some messaging })

  -- Step 9, if the option is there.
  unfoldable pub start_ota : Env → Statics H A → Progress (Statics H A)
  start_ota env s = elim ota [
    | none ↦ going s
    | some handler ↦ going (record s {
      registry = register_own max_services ota_name (some handler) s.registry;
      ota_running = if failed (ota_init env.auto_confirm env.boot).0 then false else true;
    })
  ]

  -- `going` is the entry of the lifecycle loop.
  unfoldable pub main : Env → Statics H A → Progress (Statics H A)
  unfolding set_net set_identity fill_registry init_monitors start_discovery start_messaging
      start_ota
  main env s =
      let cfg = config_load env.defaults env.parsers env.flash in
      set_net env cfg s
      >>= set_identity cfg
      >>= fill_registry cfg
      >>= init_monitors env
      >>= start_discovery env
      >>= start_messaging env
      >>= start_ota env
