-- ===== src/Node.antt =====
-- src/main.c, ceell/core/net_setup.c, node_identity.c and lifecycle.c, and ceell/osal/zephyr/osal_net.c: how
-- the parts work together.
-- `H` is the type of service handlers; the options `CONFIG_CEELL_TEST_ECHO_SERVICE`, `CONFIG_CEELL_OTA` and
-- `CONFIG_CEELL_WATCHDOG` are Boolean arguments.
pub mod Startup
pub mod Tick
pub mod Boot
pub mod Lifecycle
pub mod Threads
mod Tests
use ceell.Prelude.{
  ℕ, zero, suc, ◌+◌, ◌%◌, ◌^◌, Bool, true, false, not, Option, none, some, List, [], ◌∷◌, ◌++◌, map,
  if◌then◌else◌, ◌==◌, get_or,
}
use ceell.Errno.{Ret, Errno, ok, err, einval, ealready, enodev, enobufs, failed}
use ceell.Bytes.{Bytes, copy_str}
use ceell.Csv.{at_char}
use ceell.Config.{CeellConfig, zero_name, zero_sla}
use ceell.Registry.{Registry, service_init, service_register, service_register_sla}
use ceell.Discovery.{Peer, Peers, expire_peers, get_peers}
use ceell.Health.{HealthState, healthy, lost, state_eq, Sighting, HealthCall, Health, health_update}
use ceell.Safe.{
  SafeState, SafeCall, critical_peer_lost, safe_state_trigger, safe_state_clear, WatchdogState,
  watchdog_feed,
}
use ceell.Timing.{Timing, timing_stop}

-- `echo_handler` of main.c: the payload, cut to the response array of `rsp_len` bytes.
unfoldable pub echo_handler : Bytes → Bytes → ℕ → Ret × Bytes
echo_handler payload rsp_payload rsp_len = (ok, copy_str rsp_len rsp_payload payload)

-- The default interface of the operating system: whether there is one, `net_addr_pton`, and whether it
-- takes another address.
pub record Interface : Type 0 where
  pub is_there : Bool
  pub pton : Bytes → Option Bytes
  pub takes : Bool

-- What is asked of the interface; the netmask is for an address.
pub data NetCall : Type 0 where
  set_netmask : Bytes → Bytes → NetCall
  add_address : Bytes → NetCall

-- The netmask, if a text is given; `none` if it is no address.
unfoldable pub netmask_calls : Interface → Bytes → Option Bytes → Option (List NetCall)
netmask_calls n addr none = some []
netmask_calls n addr (some netmask) =
    let set : Option (List NetCall) = elim (n.pton netmask) [
      | none ↦ none
      | some mask ↦ some (set_netmask addr mask ∷ [])
    ] in
    if at_char netmask then set else some []

-- `ceell_net_if_setup`
unfoldable pub net_if_setup : Interface → Option Bytes → Option Bytes → Ret × List NetCall
unfolding netmask_calls
net_if_setup n none netmask = (err einval, [])
net_if_setup n (some ip) netmask =
    if not (at_char ip)
    then (err einval, [])
    else if not n.is_there
    then (err enodev, [])
    else elim (n.pton ip) [
      | none ↦ (err einval, [])
      | some addr ↦ elim (netmask_calls n addr netmask) [
        | none ↦ (err einval, [])
        | some calls ↦ (if n.takes then ok else err enobufs, calls ++ (add_address addr ∷ []))
      ]
    ]

unfoldable pub net_setup : Interface → Option CeellConfig → Ret
unfolding net_if_setup
net_setup n none = err einval
net_setup n (some cfg) =
    if at_char cfg.ip then (net_if_setup n (some cfg.ip) (some cfg.netmask)).0 else err einval

-- The identity is set once.
unfoldable pub identity_init : CeellConfig → Option CeellConfig → Ret × Option CeellConfig
identity_init cfg none = (ok, some cfg)
identity_init cfg (some identity) = (err ealready, some identity)

abbrev pub echo_name : Bytes
echo_name = b'e' ∷ b'c' ∷ b'h' ∷ b'o' ∷ []

abbrev pub ota_name : Bytes
ota_name = b'o' ∷ b't' ∷ b'a' ∷ []

module _ {H : Type 0} (max_services : ℕ) where
  -- A service of the configuration has no handler; only V2 has priorities and deadlines.
  unfoldable pub register_service : CeellConfig → ℕ → Registry H → Registry H
  register_service cfg i r =
      let name = get_or cfg.services i zero_name in
      let sla = get_or cfg.service_slas i zero_sla in
      if cfg.version == 2
      then (service_register_sla max_services r (some name) none sla.priority sla.deadline_ms).1
      else (service_register max_services r (some name) none).1

  -- The loop over the services from the index `i` on; a failed registration is logged only.
  unfoldable pub register_services : ℕ → ℕ → CeellConfig → Registry H → Registry H
  register_services zero i cfg r = r
  register_services (suc n) i cfg r = register_services n (i + 1) cfg (register_service cfg i r)

  -- A handler of the program itself, if the option gives it.
  unfoldable pub register_own : Bytes → Option H → Registry H → Registry H
  register_own name none r = r
  register_own name (some handler) r =
      (service_register max_services r (some name) (some handler)).1

  -- Steps 4, 5 and 9 of `main`.
  unfoldable pub start_registry : CeellConfig → Option H → Option H → Registry H
  start_registry cfg echo ota = register_own ota_name ota (
      register_own echo_name echo
        (register_services cfg.service_count 0 cfg (service_init max_services)))

-- `on_health_change`
unfoldable pub on_health_change : HealthCall → SafeState → List SafeCall × SafeState
on_health_change c s =
    if state_eq c.new_state lost
    then safe_state_trigger s critical_peer_lost
    else if state_eq c.old_state lost
    then (if state_eq c.new_state healthy then safe_state_clear s else ([], s))
    else ([], s)

unfoldable pub on_health_changes : List HealthCall → SafeState → List SafeCall × SafeState
on_health_changes [] s = ([], s)
on_health_changes (c ∷ cs) s =
    let (calls, s') = on_health_change c s in
    let (calls', s'') = on_health_changes cs s' in (calls ++ calls', s'')

pub record Node : Type 0 where
  pub peers : Peers
  pub health : Health
  pub safe : SafeState
  pub timing : Timing
  pub watchdog : WatchdogState
  pub tick_count : ℕ

abbrev pub sighting_of : Peer → Sighting
sighting_of p = record { node_id = p.node_id; last_seen = p.last_seen }

abbrev pub tick_label : Bytes
tick_label =
    b'l' ∷ b'i' ∷ b'f' ∷ b'e' ∷ b'c' ∷ b'y' ∷ b'c' ∷ b'l' ∷ b'e' ∷ b'_' ∷ b't' ∷ b'i' ∷ b'c' ∷ b'k'
    ∷ []

module _ (interval timeout max_peers samples_max hz : ℕ) (with_watchdog : Bool) where
  -- A round of `ceell_lifecycle_run` at the uptime `now`, between two readings of the cycle counter: peers
  -- expire before their health is computed, and the callback runs within the update.
  unfoldable pub lifecycle_tick : ℕ → ℕ → ℕ → Node → List SafeCall × Node
  lifecycle_tick now start_cycle end_cycle n =
      let peers = (expire_peers timeout now n.peers).1 in
      let (changes, health) =
        health_update interval timeout max_peers now (map sighting_of (get_peers max_peers peers))
          n.health in
      let (calls, safe) = on_health_changes changes n.safe in
      (
        calls,
        record {
          peers = peers;
          health = health;
          safe = safe;
          timing = timing_stop samples_max hz n.timing (some tick_label) start_cycle end_cycle;
          watchdog = if with_watchdog then watchdog_feed now n.watchdog else n.watchdog;
          tick_count = n.tick_count + 1;
        },
      )
