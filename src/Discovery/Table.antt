-- ===== src/Discovery/Table.antt =====
-- The invariant of the peer table, and what an announcement does to it.
use native.Mathlib.Numerals.{add-one}
use ceell.Prelude.{
  ℕ, zero, suc, ◌+◌, ◌≤◌, ◌≡◌, ◌≢◌, refl, sym, ap, inl, inr, true, false, Option, none, some, List,
  [], ◌∷◌, ◌++◌, map, arith, length, take, set, length-set, take-set, All, All-append, subst, ltb,
  ◌==◌, Bool-cases, Option-cases,
}
use mathlib.Core.List.{map-append}
use ceell.Prelude.Int.{u32}
use ceell.Bytes.{Bytes}
use ceell.Bytes.Copy.{IsTerminated, IsTerminated-copy_str, IsTerminated-copy_if}
use ceell.Discovery.{
  Peer, DiscoveryMsg, Peers, zero_peer, renew_services, touch_peer, new_peer, is_own, add_peer,
  update_peer, get_peers,
}

abbrev pub contents : Peers → List Peer
contents s = take s.peer_count s.peers

abbrev pub ids : List Peer → List ℕ
ids ps = map (λ p. p.node_id) ps

abbrev pub NotIn : ℕ → List ℕ → Type 0
NotIn i is = All (λ j. j ≢ i) is

abbrev pub Distinct : List ℕ → Type 0
Distinct [] = Unit {0}
Distinct (i ∷ is) = NotIn i is × Distinct is

abbrev pub AreForeign : Option ℕ → List ℕ → Type 0
AreForeign self is = All (λ i. is_own self i ≡ false) is

-- The texts of an entry end within their arrays.
abbrev pub HasArrays : Peer → Type 0
HasArrays p =
    IsTerminated 32 p.role
    × IsTerminated 64 p.name
    × IsTerminated 16 p.ip
    × IsTerminated 128 p.services

-- No node stands in the table twice, the node itself never, the count fits the array, and the texts of
-- the entries end within theirs.
pub record IsValid (self : Option ℕ) (max_peers : ℕ) (s : Peers) : Type 0 where
  pub size : length s.peers ≡ max_peers
  pub count_in : s.peer_count ≤ max_peers
  pub distinct : Distinct (ids (contents s))
  pub foreign : AreForeign self (ids (contents s))
  pub formed : All HasArrays (contents s)

pub Distinct-append : (is : List ℕ) (i : ℕ) → Distinct is → NotIn i is → Distinct (is ++ (i ∷ []))
Distinct-append [] i d n = (tt, tt)
Distinct-append (j ∷ is) i d n = (last is d.0, Distinct-append is i d.1 n.1)
  where
    last : (is : List ℕ) → NotIn j is → NotIn j (is ++ (i ∷ []))
    last [] h = (λ e. n.0 (sym e), tt)
    last (k ∷ is) h = (h.0, last is h.1)

AreForeign-append :
    (self : Option ℕ) (is : List ℕ) (i : ℕ)
    → AreForeign self is
    → is_own self i ≡ false
    → AreForeign self (is ++ (i ∷ []))
AreForeign-append self [] i h k = (k, tt)
AreForeign-append self (j ∷ is) i h k = (h.0, AreForeign-append self is i h.1 k)

IsTerminated-renew_services :
    (old : Bytes) (services : Option Bytes)
    → IsTerminated 128 old
    → IsTerminated 128 (renew_services old services)
IsTerminated-renew_services old none h = h
IsTerminated-renew_services old (some services) h =
    IsTerminated-copy_str 128 old services (omega arith) h.0

HasArrays-new_peer : (msg : DiscoveryMsg) (now : ℕ) → HasArrays (new_peer msg now)
unfolding new_peer
HasArrays-new_peer msg now = (
  IsTerminated-copy_if 32 zero_peer.role msg.role (refl, refl),
  IsTerminated-copy_if 64 zero_peer.name msg.name (refl, refl),
  IsTerminated-copy_if 16 zero_peer.ip msg.ip (refl, refl),
  IsTerminated-copy_if 128 zero_peer.services msg.services (refl, refl),
)

module _ (id : ℕ) (msg : DiscoveryMsg) (now : ℕ) where
  -- A known peer keeps its place and its id.
  touch_some :
      (n : ℕ) (ps ps' : List Peer)
      → touch_peer id n msg now ps ≡ some ps'
      → (length ps' ≡ length ps) × (ids (take n ps') ≡ ids (take n ps))
  unfolding touch_peer
  touch_some zero ps ps' e = cc
  touch_some (suc n) [] ps' e = cc
  touch_some (suc n) (p ∷ ps) ps' e = elim (Bool-cases (p.node_id == id)) [
    | inl hit ↦
        let q : record p { services = renew_services p.services msg.services; last_seen = now } ∷ ps
            ≡ ps' =
          ground (arith, e, hit) in
        rw (← q) (refl, refl)
    | inr miss ↦ elim (Option-cases (touch_peer id n msg now ps)) [
      | inl f ↦ absurd (impossible miss f)
      | inr (qs, f) ↦
          let q : p ∷ qs ≡ ps' = ground (arith, e, miss, f) in
          let ih = touch_some n ps qs f in rw (← q) (ap suc ih.0, ap (◌∷◌ p.node_id) ih.1)
    ]
  ]
    where
      impossible : (p.node_id == id) ≡ false → touch_peer id n msg now ps ≡ none → ⊥
      impossible miss f = ground (arith, e, miss, f)

  touch_some-HasArrays :
      (n : ℕ) (ps ps' : List Peer)
      → touch_peer id n msg now ps ≡ some ps'
      → All HasArrays (take n ps)
      → All HasArrays (take n ps')
  unfolding touch_peer
  touch_some-HasArrays zero ps ps' e h = tt
  touch_some-HasArrays (suc n) [] ps' e h = cc
  touch_some-HasArrays (suc n) (p ∷ ps) ps' e h = elim (Bool-cases (p.node_id == id)) [
    | inl hit ↦
        let q : record p { services = renew_services p.services msg.services; last_seen = now } ∷ ps
            ≡ ps' =
          ground (arith, e, hit) in
        let (a, b, c, d) = h.0 in
        subst (λ qs. All HasArrays (take (suc n) qs)) q
          ((a, b, c, IsTerminated-renew_services p.services msg.services d), h.1)
    | inr miss ↦ elim (Option-cases (touch_peer id n msg now ps)) [
      | inl f ↦ absurd (impossible miss f)
      | inr (qs, f) ↦
          let q : p ∷ qs ≡ ps' = ground (arith, e, miss, f) in
          subst (λ rs. All HasArrays (take (suc n) rs)) q (h.0, touch_some-HasArrays n ps qs f h.1)
    ]
  ]
    where
      impossible : (p.node_id == id) ≡ false → touch_peer id n msg now ps ≡ none → ⊥
      impossible miss f = ground (arith, e, miss, f)

  pub touch_none :
      (n : ℕ) (ps : List Peer) → touch_peer id n msg now ps ≡ none → NotIn id (ids (take n ps))
  unfolding touch_peer
  touch_none zero ps e = tt
  touch_none (suc n) [] e = tt
  touch_none (suc n) (p ∷ ps) e = (ground (arith, e), touch_none n ps (ground (arith, e)))

pub get_peers_all :
    (max_peers : ℕ) (s : Peers) → s.peer_count ≤ max_peers → get_peers max_peers s ≡ contents s
unfolding get_peers
get_peers_all max_peers s h = ap (λ k. take k s.peers) (ground arith)

module _ (self : Option ℕ) (max_peers : ℕ) where
  add_peer-IsValid :
      (s : Peers) (msg : DiscoveryMsg) (now : ℕ)
      → IsValid self max_peers s
      → NotIn (u32 msg.node_id) (ids (contents s))
      → is_own self (u32 msg.node_id) ≡ false
      → IsValid self max_peers (add_peer max_peers s msg now)
  unfolding add_peer
  add_peer-IsValid s msg now v n f = elim (Bool-cases (ltb s.peer_count max_peers)) [
    | inr no_room ↦ rw no_room v
    | inl room ↦
        let p = new_peer msg now in
        let e : ids (take (s.peer_count + 1) (set s.peers s.peer_count p))
            ≡ ids (contents s) ++ (u32 msg.node_id ∷ []) =
          rw (add-one, take-set s.peer_count s.peers p (ground (arith, room, v.size)))
            (map-append (λ (q : Peer). q.node_id) (contents s) (p ∷ [])) in
        rw room (record {
          size = omega (arith, length-set s.peers s.peer_count p, v.size);
          count_in = ground (arith, room);
          distinct = rw e (Distinct-append (ids (contents s)) (u32 msg.node_id) v.distinct n);
          foreign = rw e (AreForeign-append self (ids (contents s)) (u32 msg.node_id) v.foreign f);
          formed = subst (All HasArrays) (sym (added room)) (
              All-append HasArrays (contents s) (new_peer msg now ∷ []) v.formed
                (HasArrays-new_peer msg now, tt));
        })
  ]
    where
      added :
          ltb s.peer_count max_peers ≡ true
          → take (s.peer_count + 1) (set s.peers s.peer_count (new_peer msg now))
            ≡ contents s ++ (new_peer msg now ∷ [])
      added room =
          rw
            (
              add-one,
              take-set s.peer_count s.peers (new_peer msg now) (ground (arith, room, v.size)),
            )
            refl

  -- No announcement, of whatever node and with whatever texts, puts a node into the table twice or the
  -- node itself into it, or more peers than the array holds, or a text that does not end in its array.
  pub update_peer-IsValid :
      (s : Peers) (msg : DiscoveryMsg) (now : ℕ)
      → IsValid self max_peers s
      → IsValid self max_peers (update_peer max_peers self s msg now)
  unfolding update_peer
  update_peer-IsValid s msg now v = elim (Bool-cases (is_own self (u32 msg.node_id))) [
    | inl own ↦ rw own v
    | inr other ↦ elim (Option-cases (touch_peer (u32 msg.node_id) s.peer_count msg now s.peers)) [
      | inl e ↦
          rw (other, e)
            (add_peer-IsValid s msg now v
              (touch_none (u32 msg.node_id) msg now s.peer_count s.peers e) other)
      | inr (ps, e) ↦
          let t = touch_some (u32 msg.node_id) msg now s.peer_count s.peers ps e in
          rw (other, e)
            (record {
              size = omega (arith, t.0, v.size);
              count_in = v.count_in;
              distinct = rw t.1 v.distinct;
              foreign = rw t.1 v.foreign;
              formed =
                  touch_some-HasArrays (u32 msg.node_id) msg now s.peer_count s.peers ps e v.formed;
            })
    ]
  ]
