-- ===== src/Node/Lifecycle/Answer.antt =====
-- The echo test of ceell/core/lifecycle.c succeeds in the first round in which it is answered.
use ceell.Prelude.{
  ℕ, zero, suc, ◌≡◌, ◌≢◌, refl, Bool, true, false, not, ◌&&◌, Option, none, some, List, [],
  if◌then◌else◌, ltb, arith, replicate, take,
}
use ceell.Prelude.Int.{ℤ, pos}
use ceell.Errno.{Ret, ok, err, enoent}
use ceell.Bytes.{Bytes}
use ceell.Discovery.{Peer, Peers, discovery_peer_count, get_peers, service_find_peer}
use ceell.Messaging.{normal, priority_of, Msg, MsgRsp, Messaging, number_of}
use ceell.Messaging.Exchange.{waiting, claim_slot, send_request, send_begin, msg_send_pri, msg_send}
use ceell.Messaging.Exchange.Wait.{last_answer, Outcome, exchange_lem}
use ceell.Node.{lifecycle_tick, echo_name}
use ceell.Node.Lifecycle.{Life, Outside, echo_test, lifecycle_round}

none_taken : (k : ℕ) (ps : List Peer) → k ≡ 0 → take k ps ≡ []
none_taken zero ps e = refl
none_taken (suc k) ps e = absurd (omega arith)

none_copied :
    (max_peers : ℕ) (ps : List Peer)
    → get_peers max_peers (record { peers = ps; peer_count = 0 }) ≡ []
unfolding get_peers
none_copied zero ps = refl
none_copied (suc m) ps = none_taken (if ltb 0 (suc m) then 0 else suc m) ps (ground arith)

-- Where a peer is found there is one.
found_lt :
    (max_peers : ℕ) (ps : List Peer) (n : ℕ) (service ip_out : Bytes)
    → (service_find_peer max_peers
        (record { peers = ps; peer_count = n })
        (some service)
        (some ip_out)).0
      ≡ ok
    → ltb 0 n ≡ true
unfolding service_find_peer
found_lt max_peers ps zero service ip_out e =
    absurd (not_found (rw (none_copied max_peers ps, service_find_peer) at e))
  where
    not_found : err enoent ≢ ok
    not_found h = cc
found_lt max_peers ps (suc n) service ip_out e = ground arith

module _ {A : Type 0} (max_peers : ℕ) (peers : Peers) (service : Bytes) (s : Messaging A) where
  begun_waiting :
      (service_find_peer max_peers peers (some service) (some (replicate 16 0))).0 ≡ ok
      → (send_begin max_peers peers true true ok (some service) true (pos 1) s).0
        ≡ waiting s.next_seq normal
  unfolding send_begin send_request priority_of claim_slot
  begun_waiting found = rw (found, send_begin) refl

  -- A request that goes out and is answered during the wait succeeds.
  msg_send-answered :
      (rs : List MsgRsp) (send_time : ℤ) (r : MsgRsp)
      → (service_find_peer max_peers peers (some service) (some (replicate 16 0))).0 ≡ ok
      → last_answer s.next_seq normal none rs ≡ some r
      → (msg_send max_peers peers true true ok rs (some service) true send_time s).0 ≡ ok
  unfolding msg_send
  msg_send-answered rs send_time r found answered =
      let sent : (send_begin max_peers peers true true ok (some service) true
            (pos (number_of normal)) s).0
          ≡ waiting s.next_seq normal =
        begun_waiting found in
      let x =
        exchange_lem max_peers peers true true ok (some service) true (pos 1) s s.next_seq normal rs
          0 send_time sent in
      rw (sent, msg_send_pri) (answer _ _ answered x)
    where
      answer :
          (o : Option MsgRsp) (x : Ret × Option Msg × Messaging A)
          → o ≡ some r
          → Outcome normal 0 send_time o x
          → x.0 ≡ ok
      answer none x e h = cc
      answer (some q) x e h = h.0

module _ {A : Type 0} (interval timeout max_peers samples_max hz : ℕ) (with_watchdog : Bool) where
  echo_test-answered :
      (now start_cycle end_cycle : ℕ) (rs : List MsgRsp) (send_time : ℤ) (r : MsgRsp) (l : Life A)
      → l.echo_tested ≡ false
      → (service_find_peer max_peers l.node.peers (some echo_name) (some (replicate 16 0))).0 ≡ ok
      → last_answer l.messaging.next_seq normal none rs ≡ some r
      → let o : Outside = record {
        now = now;
        start_cycle = start_cycle;
        end_cycle = end_cycle;
        encoded = true;
        sent = ok;
        responses = rs;
        send_time = send_time;
      } in
        let (echo, l') =
          echo_test interval timeout max_peers samples_max hz with_watchdog true o l in
        (echo ≡ some ok) × (l'.echo_tested ≡ true)
  unfolding echo_test discovery_peer_count
  echo_test-answered now start_cycle end_cycle rs send_time r l fresh found answered =
      let some_peer =
        found_lt max_peers l.node.peers.peers l.node.peers.peer_count echo_name (replicate 16 0)
          found in
      rw
        (
          asks l.echo_tested (ltb 0 l.node.peers.peer_count) fresh some_peer,
          found,
          msg_send-answered max_peers l.node.peers echo_name l.messaging rs send_time r found
              answered,
          echo_test,
        )
        (refl, refl)
    where
      asks : (b c : Bool) → b ≡ false → c ≡ true → (true && not b && c) ≡ true
      asks b c e f = rw (e, f) refl

  -- In a round of the loop in which the echo test has not succeeded yet, some peer that is left after the
  -- expiry offers the service "echo", the request goes out, and a response to it comes in during the
  -- wait, the test succeeds.
  pub lifecycle_round-answered :
      (now start_cycle end_cycle : ℕ) (rs : List MsgRsp) (send_time : ℤ) (r : MsgRsp) (l : Life A)
      → l.echo_tested ≡ false
      → (service_find_peer max_peers
          (lifecycle_tick interval timeout max_peers samples_max hz with_watchdog now start_cycle
            end_cycle l.node).1.peers
          (some echo_name)
          (some (replicate 16 0))).0
        ≡ ok
      → last_answer l.messaging.next_seq normal none rs ≡ some r
      → let o : Outside = record {
        now = now;
        start_cycle = start_cycle;
        end_cycle = end_cycle;
        encoded = true;
        sent = ok;
        responses = rs;
        send_time = send_time;
      } in
        let (shown, l') =
          lifecycle_round interval timeout max_peers samples_max hz with_watchdog true o l in
        (shown.echo ≡ some ok) × (l'.echo_tested ≡ true)
  unfolding lifecycle_round
  lifecycle_round-answered now start_cycle end_cycle rs send_time r l fresh found answered =
      echo_test-answered now start_cycle end_cycle rs send_time r _ fresh found answered
