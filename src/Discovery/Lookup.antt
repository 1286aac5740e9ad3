-- ===== src/Discovery/Lookup.antt =====
-- The peer table of ceell/network/discovery.c as a map from ids to peers, and an announcement as its update.
use native.Mathlib.Numerals.{add-one}
use ceell.Prelude.{
  ℕ, zero, suc, ◌≡◌, ◌≢◌, refl, sym, ap, subst, Bool, true, false, Option, none, some, List, [],
  ◌∷◌, ◌++◌, arith, if◌then◌else◌, ltb, take, ◌==◌, ==_iff, Bool-cases, Option-cases, inl, inr,
  take-set,
}
use ceell.Prelude.Int.{u32}
use ceell.Discovery.{
  Peer, DiscoveryMsg, Peers, renew_services, touch_peer, new_peer, is_own, add_peer, update_peer,
}
use ceell.Discovery.Table.{contents, ids, NotIn, IsValid, touch_none}

-- The entry of a node.
abbrev pub find_node : ℕ → List Peer → Option Peer
find_node i [] = none
find_node i (p ∷ ps) = if p.node_id == i then some p else find_node i ps

abbrev pub peer_of : ℕ → Peers → Option Peer
peer_of i s = find_node i (contents s)

-- A known peer that is heard again.
abbrev pub touched : DiscoveryMsg → ℕ → Peer → Peer
touched msg now p = record p { services = renew_services p.services msg.services; last_seen = now }

-- The entry of the sender after its announcement, from the one before it.
abbrev pub announced : Bool → Bool → DiscoveryMsg → ℕ → Option Peer → Option Peer
announced own room msg now (some p) = some (if own then p else touched msg now p)
announced own room msg now none =
    if own then none else if room then some (new_peer msg now) else none

announced_own :
    (room : Bool) (msg : DiscoveryMsg) (now : ℕ) (o : Option Peer)
    → announced true room msg now o ≡ o
announced_own room msg now none = refl
announced_own room msg now (some p) = refl

module _ (i : ℕ) (p : Peer) where
  find_node-append_new :
      (ps : List Peer)
      → (p.node_id == i) ≡ true
      → find_node i ps ≡ none
      → find_node i (ps ++ (p ∷ [])) ≡ some p
  find_node-append_new [] hit e = rw hit refl
  find_node-append_new (q ∷ ps) hit e = elim (Bool-cases (q.node_id == i)) [
    | inl f ↦ absurd (known f)
    | inr f ↦ rw f (find_node-append_new ps hit (rw f at e))
  ]
    where
      known : (q.node_id == i) ≡ true → ⊥
      known f = ground (arith, e, f)

  find_node-append_other :
      (ps : List Peer) → (p.node_id == i) ≡ false → find_node i (ps ++ (p ∷ [])) ≡ find_node i ps
  find_node-append_other [] miss = rw miss refl
  find_node-append_other (q ∷ ps) miss =
      ap (λ o. if q.node_id == i then some q else o) (find_node-append_other ps miss)

find_node-NotIn : (i : ℕ) (ps : List Peer) → NotIn i (ids ps) → find_node i ps ≡ none
find_node-NotIn i [] h = refl
find_node-NotIn i (p ∷ ps) h =
    let miss : (p.node_id == i) ≡ false = ground (arith, h.0) in rw miss (find_node-NotIn i ps h.1)

module _ (id : ℕ) (msg : DiscoveryMsg) (now : ℕ) where
  -- The loop over the known peers changes the entry of the sender and no other.
  find_node-touch_peer :
      (n : ℕ) (ps ps' : List Peer)
      → touch_peer id n msg now ps ≡ some ps'
      → ((p : Peer) × (find_node id (take n ps) ≡ some p)
          × (find_node id (take n ps') ≡ some (touched msg now p)))
        × ((i : ℕ) → i ≢ id → find_node i (take n ps') ≡ find_node i (take n ps))
  unfolding touch_peer
  find_node-touch_peer zero ps ps' e = cc
  find_node-touch_peer (suc n) [] ps' e = cc
  find_node-touch_peer (suc n) (p ∷ ps) ps' e = elim (Bool-cases (p.node_id == id)) [
    | inl hit ↦
        let q : touched msg now p ∷ ps ≡ ps' = ground (arith, e, hit) in
        rw (← q, hit) ((p, refl, refl), others hit)
    | inr miss ↦ elim (Option-cases (touch_peer id n msg now ps)) [
      | inl f ↦ absurd (impossible miss f)
      | inr (qs, f) ↦
          let q : p ∷ qs ≡ ps' = ground (arith, e, miss, f) in
          let ih = find_node-touch_peer n ps qs f in
          rw (← q, miss)
            (ih.0, λ i other. ap (λ o. if p.node_id == i then some p else o) (ih.1 i other))
    ]
  ]
    where
      impossible : (p.node_id == id) ≡ false → touch_peer id n msg now ps ≡ none → ⊥
      impossible miss f = ground (arith, e, miss, f)

      others :
          (p.node_id == id) ≡ true
          → (i : ℕ) → i ≢ id
          → (if p.node_id == i then some (touched msg now p) else find_node i (take n ps))
            ≡ (if p.node_id == i then some p else find_node i (take n ps))
      others hit i other =
          let miss : (p.node_id == i) ≡ false = ground (arith, hit, other) in rw miss refl

module _ (self : Option ℕ) (max_peers : ℕ) (s : Peers) (msg : DiscoveryMsg) (now : ℕ)
    (v : IsValid self max_peers s) where
  contents-add_peer :
      ltb s.peer_count max_peers ≡ true
      → contents (add_peer max_peers s msg now) ≡ contents s ++ (new_peer msg now ∷ [])
  unfolding add_peer
  contents-add_peer room =
      rw
        (
          room,
          add-one,
          take-set s.peer_count s.peers (new_peer msg now) (ground (arith, room, v.size)),
        )
        refl

  add_peer_full : ltb s.peer_count max_peers ≡ false → add_peer max_peers s msg now ≡ s
  unfolding add_peer
  add_peer_full no_room = rw no_room refl

  same : ((new_peer msg now).node_id == u32 msg.node_id) ≡ true
  unfolding new_peer
  same = (==_iff (u32 msg.node_id) (u32 msg.node_id)).1 refl

  differs : (i : ℕ) → i ≢ u32 msg.node_id → ((new_peer msg now).node_id == i) ≡ false
  unfolding new_peer
  differs i h = ground (arith, h)

  on_sender :
      let id = u32 msg.node_id in
      peer_of id (update_peer max_peers self s msg now)
      ≡ announced (is_own self id) (ltb s.peer_count max_peers) msg now (peer_of id s)
  unfolding update_peer
  on_sender =
      let id = u32 msg.node_id in
      elim (Bool-cases (is_own self id)) [
        | inl own ↦ rw own (sym (announced_own (ltb s.peer_count max_peers) msg now (peer_of id s)))
        | inr other ↦ elim (Option-cases (touch_peer id s.peer_count msg now s.peers)) [
          | inr (ps, e) ↦
              let ((p, before, after), rest) =
                find_node-touch_peer id msg now s.peer_count s.peers ps e in
              rw (other, e, before) after
          | inl e ↦
              let unknown =
                find_node-NotIn id (contents s) (touch_none id msg now s.peer_count s.peers e) in
              elim (Bool-cases (ltb s.peer_count max_peers)) [
                | inr no_room ↦ rw (other, e, no_room, unknown, add_peer_full no_room) unknown
                | inl room ↦
                    rw (other, e, unknown, room, contents-add_peer room)
                      (find_node-append_new id (new_peer msg now) (contents s) same unknown)
              ]
        ]
      ]

  on_others :
      (i : ℕ) → i ≢ u32 msg.node_id → peer_of i (update_peer max_peers self s msg now) ≡ peer_of i s
  unfolding update_peer
  on_others i not_sender =
      let id = u32 msg.node_id in
      elim (Bool-cases (is_own self id)) [
        | inl own ↦ rw own refl
        | inr other ↦ elim (Option-cases (touch_peer id s.peer_count msg now s.peers)) [
          | inr (ps, e) ↦
              rw (other, e)
                ((find_node-touch_peer id msg now s.peer_count s.peers ps e).1 i not_sender)
          | inl e ↦ elim (Bool-cases (ltb s.peer_count max_peers)) [
            | inr no_room ↦ rw (other, e, add_peer_full no_room) refl
            | inl room ↦
                rw (other, e, contents-add_peer room)
                  (find_node-append_other i (new_peer msg now) (contents s) (differs i not_sender))
          ]
        ]
      ]

  -- On a valid table an announcement is the update of a map: the sender's own entry is renewed if there
  -- is one, made from the message if there is none and the table has room, and left away
  -- otherwise; the node's own announcement changes nothing, and no other entry changes.
  pub update_peer_lem :
      (i : ℕ)
      → peer_of i (update_peer max_peers self s msg now) ≡ (
          if i == u32 msg.node_id
          then announced (is_own self i) (ltb s.peer_count max_peers) msg now (peer_of i s)
          else peer_of i s)
  update_peer_lem i = elim (Bool-cases (i == u32 msg.node_id)) [
    | inr miss ↦ rw miss (on_others i (ground (arith, miss)))
    | inl hit ↦
        let e = (==_iff i (u32 msg.node_id)).0 hit in
        rw hit (
          subst
            (λ j.
              peer_of j (update_peer max_peers self s msg now)
              ≡ announced (is_own self j) (ltb s.peer_count max_peers) msg now (peer_of j s))
            (sym e) on_sender)
  ]
