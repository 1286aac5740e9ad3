-- ===== src/Discovery/Tests.antt =====
-- Runs of the peer table of ceell/network/discovery.c with two places.
use ceell.Prelude.{
  replicate, ◌+◌, ◌==◌, if◌then◌else◌, ltb, ◌≡◌, refl, Bool, not, ◌&&◌, none, some, [], ◌∷◌, arith,
  length,
}
use ceell.Prelude.Int.{pos, u32}
use ceell.Discovery.{
  Peer, DiscoveryMsg, Peers, zero_peer, is_stale, is_own, update_peer, expire_peers,
  service_find_peer,
}
use ceell.Discovery.Table.{contents, IsValid}
use ceell.Bytes.{cstr}
use ceell.Discovery.Offer.{first_offer, IsFound, service_find_peer_lem}
use ceell.Discovery.Lookup.{peer_of, announced, update_peer_lem}
use ceell.Discovery.Expiry.{tally, expire_peers_lem}

abbrev hello : DiscoveryMsg
hello = record { node_id = pos 7; role = none; name = none; ip = none; services = none }

abbrev two : Peers
two = record {
  peers =
      record zero_peer { node_id = 7; last_seen = 100 }
      ∷ record zero_peer { node_id = 8; last_seen = 900 }
      ∷ [];
  peer_count = 2;
}

expire_peers_lem_example :
    ((q : Peer → Bool)
      → tally q (contents (expire_peers 500 1000 two).1)
        ≡ tally (λ p. q p && not (is_stale 500 1000 p)) (contents two))
    × ((expire_peers 500 1000 two).0 + (expire_peers 500 1000 two).1.peer_count ≡ two.peer_count)
    × (length (expire_peers 500 1000 two).1.peers ≡ length two.peers)
expire_peers_lem_example = expire_peers_lem 500 1000 two (omega arith)

two-IsValid : IsValid (some 1) 2 two
unfolding is_own
two-IsValid = record {
  size = refl;
  count_in = omega arith;
  distinct = (((λ e. omega (arith, e)), tt), (tt, tt));
  foreign = (refl, (refl, tt));
  formed = (
    ((refl, refl), (refl, refl), (refl, refl), (refl, refl)),
    (((refl, refl), (refl, refl), (refl, refl), (refl, refl)), tt),
  );
}

update_peer_lem_example : peer_of 7 (update_peer 2 (some 1) two hello 1000) ≡ (
    if 7 == u32 (pos 7)
    then announced (is_own (some 1) 7) (ltb 2 2) hello 1000 (peer_of 7 two)
    else peer_of 7 two)
update_peer_lem_example = update_peer_lem (some 1) 2 two hello 1000 two-IsValid 7

-- "led" is among the names of the peer 8.
abbrev offering : Peers
offering = record two {
  peers =
      record zero_peer { node_id = 7; last_seen = 100 }
      ∷ record zero_peer {
        node_id = 8;
        ip = b'1' ∷ b'.' ∷ b'2' ∷ replicate 13 0;
        services = b'c' ∷ b'a' ∷ b'm' ∷ b',' ∷ b'l' ∷ b'e' ∷ b'd' ∷ replicate 121 0;
      }
      ∷ [];
}

offering-IsValid : IsValid (some 1) 2 offering
unfolding is_own
offering-IsValid = record {
  size = refl;
  count_in = omega arith;
  distinct = (((λ e. omega (arith, e)), tt), (tt, tt));
  foreign = (refl, (refl, tt));
  formed = (
    ((refl, refl), (refl, refl), (refl, refl), (refl, refl)),
    (((refl, refl), (refl, refl), (refl, refl), (refl, refl)), tt),
  );
}

service_find_peer_lem_example :
    IsFound
      (first_offer (cstr (b'l' ∷ b'e' ∷ b'd' ∷ [])) (contents offering))
      (replicate 16 0)
      (service_find_peer 2 offering (some (b'l' ∷ b'e' ∷ b'd' ∷ [])) (some (replicate 16 0)))
service_find_peer_lem_example =
    service_find_peer_lem (some 1) 2 offering (b'l' ∷ b'e' ∷ b'd' ∷ []) (replicate 16 0)
      offering-IsValid refl
