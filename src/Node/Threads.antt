-- ===== src/Node/Threads.antt =====
-- The threads of a node, each step of which is one round of one thread: the receiver of
-- ceell/network/discovery.c, the lifecycle loop of ceell/core/lifecycle.c, the dispatcher and the handlers of
-- ceell/network/messaging.c and the watchdog of ceell/core/watchdog.c. The environment chooses whose turn
-- it is, the uptime, and what arrives. The sender of discovery only reads.
pub mod Invariant
pub mod PowerOn
mod Tests
use ceell.Prelude.{ℕ, Bool, Option}
use ceell.Errno.{Errno}
use ceell.Bytes.{Bytes}
use ceell.Registry.{Registry}
use ceell.Discovery.{DiscoveryMsg}
use ceell.Discovery.Threads.{rx_round}
use ceell.Safe.{wdt_round}
use ceell.Messaging.{MsgPriority, MsgReq, MsgRsp, Response}
use ceell.Messaging.Dispatch.{Handler, dispatch, handle_next}
use ceell.Node.{Node}
use ceell.Node.Lifecycle.{Life, Outside, lifecycle_round}

-- The constants of the configuration, and the code that a node calls.
pub record Setting (A : Type 0) : Type 0 where
  pub interval : ℕ
  pub timeout : ℕ
  pub max_peers : ℕ
  pub samples_max : ℕ
  pub hz : ℕ
  pub depth : ℕ
  pub with_watchdog : Bool
  pub with_echo : Bool
  pub self : Option ℕ
  pub registry : Registry Handler
  pub errno : Errno → ℕ
  pub encodes : Response A → Bool
  pub parse : Bytes → Option DiscoveryMsg
  pub parse_req : Bytes → Option MsgReq × Bytes
  pub parse_rsp : Bytes → Option MsgRsp

module _ {A : Type 0} (c : Setting A) where
  unfoldable pub after_hear : ℕ → Option Bytes → Life A → Life A
  after_hear now recv l = record l {
    node = record l.node { peers = rx_round c.max_peers c.parse c.self now recv l.node.peers };
  }

  unfoldable pub after_round : Outside → Life A → Life A
  after_round o l =
      (lifecycle_round c.interval c.timeout c.max_peers c.samples_max c.hz c.with_watchdog
        c.with_echo o l).1

  unfoldable pub after_packet : A → Bytes → Life A → Life A
  after_packet src buf l = record l {
    messaging =
        (dispatch c.errno c.encodes c.self c.depth c.parse_req c.parse_rsp src buf l.messaging).1;
  }

  unfoldable pub after_serve : ℕ → MsgPriority → Life A → Life A
  after_serve now pri l = record l {
    messaging = (handle_next c.errno c.encodes c.self c.registry now pri l.messaging).1;
  }

  unfoldable pub after_watch : ℕ → Life A → Life A
  after_watch now l = record l {
    node = record l.node { safe = (wdt_round now l.node.watchdog l.node.safe).1 };
  }

  -- A round of some thread.
  pub data Step (l : Life A) : Life A → Type 0 where
    hear : (now : ℕ) (recv : Option Bytes) → Step l (after_hear now recv l)
    round : (o : Outside) → Step l (after_round o l)
    packet : (src : A) (buf : Bytes) → Step l (after_packet src buf l)
    serve : (now : ℕ) (pri : MsgPriority) → Step l (after_serve now pri l)
    watch : (now : ℕ) → Step l (after_watch now l)

  -- Any interleaving of rounds.
  pub data Reach (l : Life A) : Life A → Type 0 where
    here : Reach l l
    next : {m n : Life A} → Reach l m → Step m n → Reach l n
