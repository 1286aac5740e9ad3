-- ===== src/Discovery/Threads.antt =====
-- ceell/network/discovery.c: the set-up of the socket, and a round of each of the two threads.
-- `encode` is `json_obj_encode_buf` into the 512 bytes of its buffer, `none` if it fails; `parse` is
-- `json_obj_parse`, `none` if it is negative. What the socket calls return are arguments.
use ceell.Prelude.{ℕ, Option, none, some, List, [], ◌∷◌, ◌++◌}
use ceell.Prelude.Int.{signed32}
use ceell.Errno.{Ret, ok, err}
use ceell.Bytes.{Bytes}
use ceell.Config.{CeellConfig}
use ceell.Registry.{Registry, service_names_csv}
use ceell.Discovery.{DiscoveryMsg, Peers, update_peer}

-- The calls of `ceell_discovery_init`, with the socket that they are given.
pub data InitCall : Type 0 where
  mutex_init : InitCall
  open_socket : InitCall
  reuse_addr : ℕ → InitCall
  bind_port : ℕ → ℕ → InitCall
  join_group : ℕ → Bytes → InitCall

-- What the calls return; `fd` is the number of an opened socket.
pub record SocketRets : Type 0 where
  pub socket : Ret
  pub fd : ℕ
  pub bind : Ret
  pub join : Ret

-- `sock` is the open socket, if there is one. A socket that cannot be bound stays open, and a group that
-- cannot be joined is no error.
unfoldable pub discovery_init : ℕ → Bytes → SocketRets → Ret × Option ℕ × List InitCall
discovery_init port group r = elim r.socket [
  | err e ↦ (err e, none, mutex_init ∷ open_socket ∷ [])
  | ok ↦
      let opened = mutex_init ∷ open_socket ∷ reuse_addr r.fd ∷ bind_port r.fd port ∷ [] in
      elim r.bind [
        | err e ↦ (err e, some r.fd, opened)
        | ok ↦ (ok, some r.fd, opened ++ (join_group r.fd group ∷ []))
      ]
]

-- The thread names of `ceell_discovery_start`, in the order in which they are created.
pub data Thread : Type 0 where
  disc_tx disc_rx : Thread

abbrev pub discovery_start : List Thread
discovery_start = disc_tx ∷ disc_rx ∷ []

-- What `tx_thread_fn` announces: the identity and the text of the services.
unfoldable pub announcement : CeellConfig → Bytes → DiscoveryMsg
announcement id svc_csv = record {
  node_id = signed32 id.node_id;
  role = some id.role;
  name = some id.name;
  ip = some id.ip;
  services = some svc_csv;
}

-- A round of `tx_thread_fn`: the packet that it sends, if any, and the buffer `svc_csv` for the next
-- round. The result of `service_names_csv` is not looked at.
unfoldable pub tx_round :
    {H : Type 0}
    → (DiscoveryMsg → Option Bytes)
    → Option CeellConfig
    → Registry H
    → Bytes
    → Option Bytes × Bytes
unfolding announcement
tx_round encode none r svc_csv = (none, svc_csv)
tx_round encode (some id) r svc_csv =
    let csv = (service_names_csv r (some svc_csv)).1 in (encode (announcement id csv), csv)

-- A parsed packet.
pub heard : ℕ → Option ℕ → ℕ → Option DiscoveryMsg → Peers → Peers
heard max_peers self now none s = s
heard max_peers self now (some msg) s = update_peer max_peers self s msg now

-- A round of `rx_thread_fn` with the bytes that `ceell_recvfrom` delivers, `none` if it fails.
unfoldable pub rx_round :
    ℕ → (Bytes → Option DiscoveryMsg) → Option ℕ → ℕ → Option Bytes → Peers → Peers
unfolding heard
rx_round max_peers parse self now none s = s
rx_round max_peers parse self now (some []) s = s
rx_round max_peers parse self now (some (b ∷ bs)) s = heard max_peers self now (parse (b ∷ bs)) s
