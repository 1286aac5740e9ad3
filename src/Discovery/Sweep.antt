-- ===== src/Discovery/Sweep.antt =====
-- The invariant of the peer table through the sweep of ceell/network/discovery.c.
use ceell.Prelude.{
  ℕ, ◌≤◌, ◌≡◌, refl, ap, ◌∙◌, ◌-◌, get_or, ◌↔◌, ==_iff, Bool, false, not, ◌&&◌, Option, List, [],
  ◌∷◌, arith, ◌==◌, length, All, Bool-cases, inl, inr,
}
use ceell.Bytes.{Bytes}
use ceell.Discovery.{Peer, Peers, is_own, is_stale, expire_peers}
use ceell.Discovery.Table.{contents, ids, NotIn, Distinct, AreForeign, HasArrays, IsValid}
use ceell.Discovery.Expiry.{tally, expire_peers_lem}

abbrev pub is_node : ℕ → Peer → Bool
is_node id p = p.node_id == id

-- A filter takes entries away.
tally-le : (q r : Peer → Bool) (ps : List Peer) → tally (λ p. q p && r p) ps ≤ tally q ps
unfolding tally
tally-le q r [] = omega arith
tally-le q r (p ∷ ps) = ground (arith, tally-le q r ps)

NotIn-tally : (id : ℕ) (ps : List Peer) → tally (is_node id) ps ≡ 0 → NotIn id (ids ps)
unfolding tally
NotIn-tally id [] h = tt
NotIn-tally id (p ∷ ps) h = (ground (arith, h), NotIn-tally id ps (ground (arith, h)))

tally-NotIn : (id : ℕ) (ps : List Peer) → NotIn id (ids ps) → tally (is_node id) ps ≡ 0
unfolding tally
tally-NotIn id [] h = refl
tally-NotIn id (p ∷ ps) h = ground (arith, tally-NotIn id ps h.1, h.0)

-- The ids are distinct if no id is counted twice.
Distinct-tally : (ps : List Peer) → ((id : ℕ) → tally (is_node id) ps ≤ 1) → Distinct (ids ps)
unfolding tally
Distinct-tally [] h = tt
Distinct-tally (p ∷ ps) h = (
  NotIn-tally p.node_id ps (ground (arith, h p.node_id)),
  Distinct-tally ps (λ id. ground (arith, h id)),
)

tally-Distinct : (ps : List Peer) → Distinct (ids ps) → (id : ℕ) → tally (is_node id) ps ≤ 1
unfolding tally
tally-Distinct [] h id = omega arith
tally-Distinct (p ∷ ps) h id = elim (Bool-cases (p.node_id == id)) [
  | inl hit ↦ ground (
    arith,
    tally-NotIn p.node_id ps h.0,
    ap (λ i. tally (is_node i) ps) ((==_iff p.node_id id).0 hit),
  )
  | inr miss ↦ rw miss (omega (arith, tally-Distinct ps h.1 id))
]

-- A Boolean test fails nowhere if it is counted nowhere.
All_of_tally : (q : Peer → Bool) (ps : List Peer) → tally q ps ≡ 0 → All (λ p. q p ≡ false) ps
unfolding tally
All_of_tally q [] h = tt
All_of_tally q (p ∷ ps) h = (ground (arith, h), All_of_tally q ps (ground (arith, h)))

tally-All : (q : Peer → Bool) (ps : List Peer) → All (λ p. q p ≡ false) ps → tally q ps ≡ 0
unfolding tally
tally-All q [] h = refl
tally-All q (p ∷ ps) h = ground (arith, h.0, tally-All q ps h.1)

All_map {ℓ κ ν} :
    {A : Type ℓ} {P : A → Type κ} {Q : A → Type ν} (f : (a : A) → P a → Q a) (xs : List A)
    → All P xs
    → All Q xs
All_map f [] h = tt
All_map f (x ∷ xs) h = (f x h.0, All_map f xs h.1)

AreForeign-tally :
    (self : Option ℕ) (ps : List Peer)
    → tally (λ p. is_own self p.node_id) ps ≡ 0
    → AreForeign self (ids ps)
unfolding tally
AreForeign-tally self [] h = tt
AreForeign-tally self (p ∷ ps) h = (ground (arith, h), AreForeign-tally self ps (ground (arith, h)))

tally-AreForeign :
    (self : Option ℕ) (ps : List Peer)
    → AreForeign self (ids ps)
    → tally (λ p. is_own self p.node_id) ps ≡ 0
unfolding tally
tally-AreForeign self [] h = refl
tally-AreForeign self (p ∷ ps) h = ground (arith, h.0, tally-AreForeign self ps h.1)

abbrev ends : ℕ → Bytes → Bool
ends n b = (length b == n) && (get_or b (n - 1) 1 == 0)

abbrev lacks_arrays : Peer → Bool
lacks_arrays p = not (ends 32 p.role && ends 64 p.name && ends 16 p.ip && ends 128 p.services)

lacks_arrays_iff : (p : Peer) → (lacks_arrays p ≡ false) ↔ HasArrays p
lacks_arrays_iff p = (λ h. ground (arith, h), λ h. ground (arith, h))

module _ (timeout now : ℕ) (self : Option ℕ) (max_peers : ℕ) where
  -- What no entry has before the sweep, none has afterwards.
  none_after :
      (q : Peer → Bool) (s : Peers)
      → s.peer_count ≤ length s.peers
      → tally q (contents s) ≡ 0
      → tally q (contents (expire_peers timeout now s).1) ≡ 0
  none_after q s c h = omega (
    arith,
    (expire_peers_lem timeout now s c).0 q,
    tally-le q (λ p. not (is_stale timeout now p)) (contents s),
    h,
  )

  -- A sweep keeps the invariant of the table.
  pub expire_peers-IsValid :
      (s : Peers) → IsValid self max_peers s → IsValid self max_peers (expire_peers timeout now s).1
  expire_peers-IsValid s v =
      let c : s.peer_count ≤ length s.peers = omega (arith, v.size, v.count_in) in
      let e = expire_peers_lem timeout now s c in
      let ps = contents (expire_peers timeout now s).1 in
      record {
        size = e.2 ∙ v.size;
        count_in = omega (arith, e.1, v.count_in);
        distinct = Distinct-tally ps (λ id. omega (
          arith,
          e.0 (is_node id),
          tally-le (is_node id) (λ p. not (is_stale timeout now p)) (contents s),
          tally-Distinct (contents s) v.distinct id,
        ));
        foreign = AreForeign-tally self ps (
            none_after (λ p. is_own self p.node_id) s c
              (tally-AreForeign self (contents s) v.foreign));
        formed =
            All_map (λ p h. (lacks_arrays_iff p).0 h) ps
              (All_of_tally lacks_arrays ps (
                none_after lacks_arrays s c (
                  tally-All lacks_arrays (contents s)
                    (All_map (λ p h. (lacks_arrays_iff p).1 h) (contents s) v.formed))));
      }
