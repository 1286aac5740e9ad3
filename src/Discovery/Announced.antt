-- ===== src/Discovery/Announced.antt =====
-- From the registry of one node to the lookup on another: what ceell/network/discovery.c announces is
-- what ceell/network/service_discovery.c finds.
mod Tests
use native.Mathlib.Numerals.{add-one}
use ceell.Prelude.{
  ℕ, zero, suc, ◌+◌, ◌-◌, ◌^◌, ◌<◌, ◌≤◌, ◌≡◌, refl, sym, ap, subst, ◌∙◌, Bool, true, false, Option,
  none, some, List, [], ◌∷◌, ◌++◌, arith, length, All, if◌then◌else◌, ltb, replicate, set, take,
  ◌==◌, ==_iff, Bool-cases, Option-cases, inl, inr, ◌⊎◌, length-append, take-set, take_all,
}
use ceell.Prelude.Int.{u32, u32-signed32, signed32}
use ceell.Errno.{Ret, ok, err}
use ceell.Bytes.{Bytes, cstr, strncpy, copy_str}
use ceell.Bytes.Copy.{NoNul}
use ceell.Csv.{csv_contains, join}
use ceell.Csv.Join.{IsPlain, any_eq}
use ceell.Registry.{Registry, service_names_csv}
use ceell.Registry.Table.{contents as services_in}
use ceell.Registry.Names.{NoNul-join, names_of, names_csv_lem}
use ceell.Config.{CeellConfig}
use ceell.Discovery.{
  Peer, DiscoveryMsg, Peers, renew_services, touch_peer, new_peer, is_own, add_peer, update_peer,
  find_offer, get_peers, service_find_peer,
}
use ceell.Discovery.Table.{
  contents, HasArrays, IsValid, ids, NotIn, touch_none, get_peers_all, update_peer-IsValid,
}
use ceell.Discovery.Services.{All-NoNul, csv_contains-join_nul, csv_contains-announced}
use ceell.Discovery.Threads.{announcement, tx_round, heard, rx_round}

-- Some entry has the property.
abbrev pub Any {ℓ} : {A : Type ℓ} → (A → Type 0) → List A → Type 0
Any P [] = ⊥
Any P (x ∷ xs) = P x ⊎ Any P xs

Any-last {ℓ} : {A : Type ℓ} (P : A → Type 0) (xs : List A) (x : A) → P x → Any P (xs ++ (x ∷ []))
Any-last P [] x h = inl h
Any-last P (y ∷ ys) x h = inr (Any-last P ys x h)

-- A bounded copy of a shorter text fills the array with NULs.
set-strncpy_nil :
    (n : ℕ) (dst : Bytes) → length dst ≡ suc n → set (strncpy dst [] n) n 0 ≡ replicate (suc n) 0
unfolding strncpy
set-strncpy_nil n [] h = absurd (omega arith)
set-strncpy_nil zero (x ∷ []) h = refl
set-strncpy_nil zero (x ∷ y ∷ dst) h = absurd (omega arith)
set-strncpy_nil (suc n) (x ∷ dst) h = ap (◌∷◌ 0) (set-strncpy_nil n dst (omega arith))

set-strncpy :
    (src dst : Bytes) (n d : ℕ)
    → NoNul src
    → n ≡ length src + d
    → length dst ≡ suc n
    → set (strncpy dst src n) n 0 ≡ src ++ replicate (suc d) 0
unfolding strncpy
set-strncpy [] dst n d h e l = set-strncpy_nil n dst l ∙ ap (λ k. replicate (suc k) 0) (omega arith)
set-strncpy (c ∷ src) [] n d h e l = absurd (omega arith)
set-strncpy (zero ∷ src) (x ∷ dst) n d h e l = absurd (omega (arith, h.0))
set-strncpy (suc c ∷ src) (x ∷ dst) zero d h e l = absurd (omega arith)
set-strncpy (suc c ∷ src) (x ∷ dst) (suc n) d h e l =
    ap (◌∷◌ (suc c)) (set-strncpy src dst n d h.1 (omega arith) (omega arith))

-- The entry of the node `id`, heard at `now`, that offers `service` just if it is one of the names.
abbrev pub Offers : List Bytes → Bytes → ℕ → ℕ → Peer → Type 0
Offers ns service id now p =
    (p.node_id ≡ id) × (p.last_seen ≡ now) × (csv_contains p.services service ≡ any_eq service ns)

-- The table has room, or the node stands in it.
abbrev pub HasPlace : ℕ → ℕ → Peers → Type 0
HasPlace max_peers id s = (s.peer_count < max_peers) ⊎ (NotIn id (ids (contents s)) → ⊥)

module _ (ns : List Bytes) (plain : All IsPlain ns) (fits : length (join ns) ≤ 127) where
  csv_contains-renewed :
      (old service : Bytes)
      → length old ≡ 128
      → IsPlain service
      → csv_contains (copy_str 128 old (join ns)) service ≡ any_eq service ns
  csv_contains-renewed old service l k =
      ap (λ a. csv_contains a service)
        (set-strncpy (join ns) old 127 (127 - length (join ns)) (NoNul-join ns (All-NoNul ns plain))
          (omega arith) l)
      ∙ csv_contains-join_nul ns (replicate (127 - length (join ns)) 0) service plain k

  module _ (service : Bytes) (k : IsPlain service) (msg : DiscoveryMsg) (now : ℕ)
      (announced : msg.services ≡ some (join ns)) where
    Offers-new_peer : Offers ns service (u32 msg.node_id) now (new_peer msg now)
    unfolding new_peer
    Offers-new_peer =
        (refl, refl, csv_contains-announced ns msg.services service plain k fits announced)

    Offers-touch_peer :
        (id n : ℕ) (ps ps' : List Peer)
        → touch_peer id n msg now ps ≡ some ps'
        → All HasArrays (take n ps)
        → Any (Offers ns service id now) (take n ps')
    unfolding touch_peer
    Offers-touch_peer id zero ps ps' e h = cc
    Offers-touch_peer id (suc n) [] ps' e h = cc
    Offers-touch_peer id (suc n) (p ∷ ps) ps' e h = elim (Bool-cases (p.node_id == id)) [
      | inl hit ↦
          let q : record p { services = renew_services p.services msg.services; last_seen = now }
                ∷ ps
              ≡ ps' =
            ground (arith, e, hit) in
          subst (λ qs. Any (Offers ns service id now) (take (suc n) qs)) q
            (inl (
              (==_iff p.node_id id).0 hit,
              refl,
              ap (λ o. csv_contains (renew_services p.services o) service) announced
                  ∙ csv_contains-renewed p.services service h.0.3.0 k,
            ))
      | inr miss ↦ elim (Option-cases (touch_peer id n msg now ps)) [
        | inl f ↦ absurd (impossible miss f)
        | inr (qs, f) ↦
            let q : p ∷ qs ≡ ps' = ground (arith, e, miss, f) in
            subst (λ rs. Any (Offers ns service id now) (take (suc n) rs)) q
              (inr (Offers-touch_peer id n ps qs f h.1))
      ]
    ]
      where
        impossible : (p.node_id == id) ≡ false → touch_peer id n msg now ps ≡ none → ⊥
        impossible miss f = ground (arith, e, miss, f)

    module _ (self : Option ℕ) (max_peers : ℕ) where
      Offers-add_peer :
          (s : Peers)
          → IsValid self max_peers s
          → s.peer_count < max_peers
          → Any (Offers ns service (u32 msg.node_id) now) (contents (add_peer max_peers s msg now))
      unfolding add_peer
      Offers-add_peer s v room =
          let fits : ltb s.peer_count max_peers ≡ true = ground arith in
          rw
            (
              fits,
              add-one,
              take-set s.peer_count s.peers (new_peer msg now) (omega (arith, v.size)),
            )
            (Any-last (Offers ns service (u32 msg.node_id) now) (contents s) (new_peer msg now)
              Offers-new_peer)

      Offers-update_peer :
          (s : Peers)
          → IsValid self max_peers s
          → is_own self (u32 msg.node_id) ≡ false
          → HasPlace max_peers (u32 msg.node_id) s
          → Any
              (Offers ns service (u32 msg.node_id) now)
              (contents (update_peer max_peers self s msg now))
      unfolding update_peer
      Offers-update_peer s v other place =
          let id = u32 msg.node_id in
          elim (Option-cases (touch_peer id s.peer_count msg now s.peers)) [
            | inr (ps, e) ↦ rw (other, e) (Offers-touch_peer id s.peer_count s.peers ps e v.formed)
            | inl e ↦ elim place [
              | inl room ↦ rw (other, e) (Offers-add_peer s v room)
              | inr known ↦ absurd (known (touch_none id msg now s.peer_count s.peers e))
            ]
          ]

-- A peer that offers the service is found.
find_offer-Any :
    (service : Bytes) (ps : List Peer)
    → Any (λ p. csv_contains p.services service ≡ true) ps
    → (ip : Bytes) × (find_offer ps service ≡ some ip)
unfolding find_offer
find_offer-Any service [] h = absurd h
find_offer-Any service (p ∷ ps) h = elim (Bool-cases (csv_contains p.services service)) [
  | inl offers ↦ (p.ip, rw offers refl)
  | inr other ↦ elim h [
    | inl offers ↦ absurd (cc)
    | inr rest ↦ let f = find_offer-Any service ps rest in (f.0, rw other f.1)
  ]
]

Any-map {ℓ} :
    {A : Type ℓ} {P Q : A → Type 0} (f : (a : A) → P a → Q a) (xs : List A) → Any P xs → Any Q xs
Any-map f [] h = h
Any-map f (x ∷ xs) (inl h) = inl (f x h)
Any-map f (x ∷ xs) (inr h) = inr (Any-map f xs h)

find_peer-Any :
    (self : Option ℕ) (max_peers : ℕ) (s : Peers) (service ip_out : Bytes)
    → IsValid self max_peers s
    → Any (λ p. csv_contains p.services service ≡ true) (contents s)
    → (service_find_peer max_peers s (some service) (some ip_out)).0 ≡ ok
unfolding service_find_peer
find_peer-Any self max_peers s service ip_out v h =
    let f =
      find_offer-Any service (get_peers max_peers s)
        (rw (get_peers_all max_peers s v.count_in) h) in
    rw (f.1, service_find_peer) refl

abbrev pub text_of : Option Bytes → Option Bytes
text_of none = none
text_of (some b) = some (cstr b)

-- What a packet carries of the texts of a message.
abbrev pub as_text : DiscoveryMsg → DiscoveryMsg
as_text msg = record {
  node_id = msg.node_id;
  role = text_of msg.role;
  name = text_of msg.name;
  ip = text_of msg.ip;
  services = text_of msg.services;
}

-- The JSON library parses what it encoded, and encodes to at least one byte.
abbrev pub ParsesBack : (DiscoveryMsg → Option Bytes) → (Bytes → Option DiscoveryMsg) → Type 0
ParsesBack encode parse =
    (msg : DiscoveryMsg) (b : ℕ) (bs : Bytes)
    → encode msg ≡ some (b ∷ bs)
    → parse (b ∷ bs) ≡ some (as_text msg)

announced_text :
    {H : Type 0} (r : Registry H) (svc_csv : Bytes)
    → length svc_csv ≡ 128
    → length (join (names_of (services_in r))) ≤ 127
    → cstr (service_names_csv r (some svc_csv)).1 ≡ join (names_of (services_in r))
announced_text r [] l fits = absurd (omega arith)
announced_text r (b ∷ bs) l fits = elim (names_csv_lem r b bs) [
  | inl h ↦ h.2
  | inr h ↦ absurd (omega (arith, h.0))
]

-- Where the JSON library reads back what it wrote, a node whose registered names are plain and fit
-- the 127 bytes of the announcement announces itself, and another node, which has it in its valid
-- table or has room for it, receives the packet. Then the table of that node has an entry with the
-- sender's id, heard now, that offers a plain name exactly if it is registered, and a lookup of any
-- registered plain name succeeds.
pub find_peer-announced :
    {H : Type 0} (max_peers : ℕ) (encode : DiscoveryMsg → Option Bytes)
    (parse : Bytes → Option DiscoveryMsg) (self : Option ℕ) (id : CeellConfig) (r : Registry H)
    (svc_csv : Bytes) (b : ℕ) (bs : Bytes) (now : ℕ) (s : Peers) (service asked ip_out : Bytes)
    → ParsesBack encode parse
    → IsPlain service
    → IsPlain asked
    → any_eq asked (names_of (services_in r)) ≡ true
    → length svc_csv ≡ 128
    → All IsPlain (names_of (services_in r))
    → length (join (names_of (services_in r))) ≤ 127
    → id.node_id < 2 ^ 32
    → is_own self id.node_id ≡ false
    → IsValid self max_peers s
    → HasPlace max_peers id.node_id s
    → (tx_round encode (some id) r svc_csv).0 ≡ some (b ∷ bs)
    → let s' = rx_round max_peers parse self now (some (b ∷ bs)) s in
      Any (Offers (names_of (services_in r)) service id.node_id now) (contents s')
      × ((service_find_peer max_peers s' (some asked) (some ip_out)).0 ≡ ok)
unfolding tx_round rx_round
find_peer-announced max_peers encode parse self id r svc_csv b bs now s service asked ip_out back k
      q named l plain fits word other v place sent =
    let ns = names_of (services_in r) in
    let msg = as_text (announcement id (service_names_csv r (some svc_csv)).1) in
    let parsed : parse (b ∷ bs) ≡ some msg =
      back (announcement id (service_names_csv r (some svc_csv)).1) b bs sent in
    let e : u32 msg.node_id ≡ id.node_id = u32-signed32 id.node_id word in
    let s' = update_peer max_peers self s msg now in
    let offers = λ (x : Bytes) (h : IsPlain x).
      Offers-update_peer ns plain fits x h msg now (ap some (announced_text r svc_csv l fits)) self
        max_peers s v (ap (is_own self) e ∙ other)
        (subst (λ i. HasPlace max_peers i s) (sym e) place) in
    rw parsed (
      subst (λ i. Any (Offers ns service i now) (contents s')) e (offers service k),
      find_peer-Any self max_peers s' asked ip_out (update_peer-IsValid self max_peers s msg now v)
          (Any-map (λ p h. h.2 ∙ named) (contents s') (offers asked q)),
    )
