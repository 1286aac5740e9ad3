-- ===== src/Discovery/Offer.antt =====
-- `ceell_service_find_peer` of ceell/network/service_discovery.c against a search in the lists of names.
use ceell.Prelude.{
  ℕ, zero, suc, ◌<◌, ◌≡◌, refl, ap, subst, ◌∙◌, Option, none, some, List, [], ◌∷◌, arith, length,
  take_all, All, if◌then◌else◌, get_or, Bool-cases, Option-cases, inl, inr,
}
use ceell.Errno.{Ret, ok, err, enoent}
use ceell.Bytes.{Bytes, cstr}
use ceell.Bytes.Copy.{cstr-set-strncpy}
use ceell.Csv.Join.{any_eq}
use ceell.Csv.Split.{words, csv_contains-words}
use ceell.Discovery.{Peer, Peers, find_offer, get_peers, service_find_peer}
use ceell.Discovery.Table.{contents, HasArrays, IsValid, get_peers_all}

-- The first peer that has the name among the names that it announced.
abbrev pub first_offer : Bytes → List Peer → Option Peer
first_offer name [] = none
first_offer name (p ∷ ps) =
    if any_eq name (words (cstr p.services)) then some p else first_offer name ps

-- What the caller has, with the array for the address.
abbrev pub IsFound : Option Peer → Bytes → Ret × Bytes → Type 0
IsFound none ip_out (ret, out) = (ret ≡ err enoent) × (out ≡ ip_out)
IsFound (some p) ip_out (ret, out) = (ret ≡ ok) × (cstr out ≡ cstr p.ip)

abbrev ip_of : Option Peer → Option Bytes
ip_of none = none
ip_of (some p) = some p.ip

find_offer-first_offer :
    (ps : List Peer) (service : Bytes)
    → find_offer ps service ≡ ip_of (first_offer (cstr service) ps)
unfolding find_offer
find_offer-first_offer [] service = refl
find_offer-first_offer (p ∷ ps) service =
    let same =
      (csv_contains-words p.services service (suc (length (cstr p.services))) (omega arith)).0 in
    elim (Bool-cases (any_eq (cstr service) (words (cstr p.services)))) [
      | inl offers ↦ rw (same, offers) refl
      | inr other ↦ rw (same, other) (find_offer-first_offer ps service)
    ]

length-cstr_lt : (n : ℕ) (b : Bytes) → length b ≡ suc n → get_or b n 1 ≡ 0 → length (cstr b) < suc n
unfolding cstr
length-cstr_lt n [] l z = omega arith
length-cstr_lt n (zero ∷ bs) l z = omega arith
length-cstr_lt zero (suc c ∷ bs) l z = absurd (omega (arith, z))
length-cstr_lt (suc n) (suc c ∷ bs) l z = omega (arith, length-cstr_lt n bs (omega arith) z)

All-first_offer :
    (P : Peer → Type 0) (name : Bytes) (ps : List Peer) (p : Peer)
    → All P ps
    → first_offer name ps ≡ some p
    → P p
All-first_offer P name [] p h e = cc
All-first_offer P name (q ∷ ps) p h e = elim (Bool-cases (any_eq name (words (cstr q.services)))) [
  | inl offers ↦
      let f : ◌≡◌ {A = Option Peer} (some q) (some p) = rw offers at e in
      let same : q ≡ p = cc in subst P same h.0
  | inr other ↦ All-first_offer P name ps p h.1 (rw other at e)
]

-- On a valid table, and with an array of 16 bytes for it, the lookup gives the whole address of the
-- first peer that has the name among the names that it announced; without one it returns -ENOENT and
-- the array is as before.
pub service_find_peer_lem :
    (self : Option ℕ) (max_peers : ℕ) (s : Peers) (service ip_out : Bytes)
    → IsValid self max_peers s
    → length ip_out ≡ 16
    → IsFound
        (first_offer (cstr service) (contents s))
        ip_out
        (service_find_peer max_peers s (some service) (some ip_out))
unfolding service_find_peer
service_find_peer_lem self max_peers s service ip_out v l =
    let found : find_offer (get_peers max_peers s) service
        ≡ ip_of (first_offer (cstr service) (contents s)) =
      ap (λ ps. find_offer ps service) (get_peers_all max_peers s v.count_in)
      ∙ find_offer-first_offer (contents s) service in
    elim (Option-cases (first_offer (cstr service) (contents s))) [
      | inl e ↦ rw (found, e, service_find_peer) (refl, refl)
      | inr (p, e) ↦
          let (r, n, i, t) = All-first_offer HasArrays (cstr service) (contents s) p v.formed e in
          rw (found, e, service_find_peer)
            (
              refl,
              cstr-set-strncpy ip_out p.ip 15 (omega arith)
                  ∙ take_all 15 (cstr p.ip) (omega (arith, length-cstr_lt 15 p.ip i.0 i.1)),
            )
    ]
