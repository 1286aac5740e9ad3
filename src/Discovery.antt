-- ===== src/Discovery.antt =====
-- ceell/network/discovery.c and ceell/network/service_discovery.c: the table of peers.
-- `max_peers` and `timeout` are `CONFIG_CEELL_DISCOVERY_MAX_PEERS` and `CONFIG_CEELL_PEER_TIMEOUT_MS`. The
-- uptime is an argument; an announcement is what `json_obj_parse` makes of a packet.
pub mod Table
pub mod Expiry
pub mod Services
pub mod Sweep
pub mod Threads
pub mod Announced
pub mod Lookup
pub mod Offer
mod Tests
use ceell.Prelude.{
  ℕ, zero, suc, ◌+◌, ◌-◌, ◌^◌, Bool, true, false, Option, none, some, List, [], ◌∷◌, if◌then◌else◌,
  ltb, leb, ◌==◌, length, get_or, set, take, replicate, min,
}
use ceell.Prelude.Int.{ℤ, pos, ◌-ℤ◌, ltb_ℤ, u32}
use ceell.Errno.{Ret, ok, err, einval, enoent}
use ceell.Bytes.{Bytes, cstr, copy_str, copy_if, strncpy}
use ceell.Csv.{csv_contains}

-- `struct ceell_peer`
pub record Peer : Type 0 where
  pub node_id : ℕ
  pub role : Bytes
  pub name : Bytes
  pub ip : Bytes
  pub services : Bytes
  pub last_seen : ℕ

-- `struct discovery_msg`
pub record DiscoveryMsg : Type 0 where
  pub node_id : ℤ
  pub role : Option Bytes
  pub name : Option Bytes
  pub ip : Option Bytes
  pub services : Option Bytes

pub record Peers : Type 0 where
  pub peers : List Peer
  pub peer_count : ℕ

abbrev pub zero_peer : Peer
zero_peer = record {
  node_id = 0;
  role = replicate 32 0;
  name = replicate 64 0;
  ip = replicate 16 0;
  services = replicate 128 0;
  last_seen = 0;
}

-- `p->services` of a peer that is heard again.
abbrev pub renew_services : Bytes → Option Bytes → Bytes
renew_services old none = old
renew_services old (some services) = copy_str 128 old services

-- The loop over the known peers; `none` if none of the `n` has the id.
pub touch_peer : ℕ → ℕ → DiscoveryMsg → ℕ → List Peer → Option (List Peer)
touch_peer id zero msg now ps = none
touch_peer id (suc n) msg now [] = none
touch_peer id (suc n) msg now (p ∷ ps) =
    let found =
      record p { services = renew_services p.services msg.services; last_seen = now } ∷ ps in
    let rest = touch_peer id n msg now ps in
    if p.node_id == id then some found else elim rest [ none ↦ none | some ps' ↦ some (p ∷ ps') ]

-- The entry of a new peer, its strings cut to the arrays of the entry, which is cleared first.
pub new_peer : DiscoveryMsg → ℕ → Peer
new_peer msg now = record {
  node_id = u32 msg.node_id;
  role = copy_if 32 zero_peer.role msg.role;
  name = copy_if 64 zero_peer.name msg.name;
  ip = copy_if 16 zero_peer.ip msg.ip;
  services = copy_if 128 zero_peer.services msg.services;
  last_seen = now;
}

-- `self` is the node's own id, if its identity is set.
pub is_own : Option ℕ → ℕ → Bool
is_own none id = false
is_own (some self) id = id == self

module _ (max_peers : ℕ) where
  unfoldable pub add_peer : Peers → DiscoveryMsg → ℕ → Peers
  unfolding new_peer
  add_peer s msg now =
      if ltb s.peer_count max_peers
      then record s {
        peers = set s.peers s.peer_count (new_peer msg now);
        peer_count = s.peer_count + 1;
      }
      else s

  unfoldable pub update_peer : Option ℕ → Peers → DiscoveryMsg → ℕ → Peers
  unfolding is_own
  update_peer self s msg now =
      let id = u32 msg.node_id in
      if is_own self id then s else elim (touch_peer id s.peer_count msg now s.peers) [
        | some ps ↦ record s { peers = ps }
        | none ↦ add_peer s msg now
      ]

-- `(now - last_seen) > CONFIG_CEELL_PEER_TIMEOUT_MS`, in `int64_t`
abbrev pub is_stale : ℕ → ℕ → Peer → Bool
is_stale timeout now p = ltb_ℤ (pos timeout) (pos now -ℤ pos p.last_seen)

-- The loop of `ceell_discovery_expire_peers` at index `i`; each round brings `i` and the count closer,
-- so the fuel is their distance at the start.
unfoldable pub expire_loop : ℕ → ℕ → ℕ → ℕ → Peers → ℕ → ℕ × Peers
expire_loop zero timeout now i s expired = (expired, s)
expire_loop (suc fuel) timeout now i s expired =
    let last = s.peer_count - 1 in
    let ps = if ltb i last then set s.peers i (get_or s.peers last zero_peer) else s.peers in
    elim (ltb i s.peer_count) [
      | false ↦ (expired, s)
      | true ↦ elim (is_stale timeout now (get_or s.peers i zero_peer)) [
        | true ↦
            expire_loop fuel timeout now i (record s { peers = ps; peer_count = last })
              (expired + 1)
        | false ↦ expire_loop fuel timeout now (i + 1) s expired
      ]
    ]

unfoldable pub expire_peers : ℕ → ℕ → Peers → ℕ × Peers
unfolding expire_loop
expire_peers timeout now s = expire_loop s.peer_count timeout now 0 s 0

unfoldable pub discovery_peer_count : Peers → ℕ
discovery_peer_count s = s.peer_count

-- The copy that `ceell_discovery_get_peers` makes.
unfoldable pub get_peers : ℕ → Peers → List Peer
get_peers max_out s = take (if ltb s.peer_count max_out then s.peer_count else max_out) s.peers

-- The loop of `ceell_service_find_peer`: the address of the first peer that offers the service.
unfoldable pub find_offer : List Peer → Bytes → Option Bytes
find_offer [] service = none
find_offer (p ∷ ps) service =
    if csv_contains p.services service then some p.ip else find_offer ps service

-- `ip_out` is an array of 16 bytes, if the pointer is there.
unfoldable pub service_find_peer : ℕ → Peers → Option Bytes → Option Bytes → Ret × Bytes
unfolding find_offer get_peers
service_find_peer max_peers s none ip_out = (err einval, [])
service_find_peer max_peers s (some service) none = (err einval, [])
service_find_peer max_peers s (some service) (some ip_out) =
    elim (find_offer (get_peers max_peers s) service) [
      | none ↦ (err enoent, ip_out)
      | some ip ↦ (ok, copy_str 16 ip_out ip)
    ]
