-- ===== src/Discovery/Announced/Tests.antt =====
-- Two nodes of ceell/network/discovery.c: node 7 announces "led" and "cam" to node 1. The packets are texts
-- that end in NULs.
use ceell.Prelude.{
  ℕ, zero, suc, ◌≡◌, refl, subst, Option, none, some, [], ◌∷◌, ◌++◌, arith, replicate, inl,
}
use ceell.Prelude.Int.{ℤ, pos}
use ceell.Errno.{ok}
use ceell.Bytes.{Bytes, cstr, bytes_eq}
use ceell.Bytes.Copy.{NoNul, cstr-NoNul}
use ceell.Csv.{join}
use ceell.Csv.Join.{any_eq}
use ceell.Registry.{Registry, ServiceEntry, zero_entry, service_names_csv}
use ceell.Config.{CeellConfig, zero_config}
use ceell.Discovery.{DiscoveryMsg, Peers, zero_peer, is_own, service_find_peer}
use ceell.Discovery.Table.{contents, IsValid}
use ceell.Discovery.Threads.{rx_round, tx_round}
use ceell.Discovery.Announced.{Any, Offers, text_of, ParsesBack, find_peer-announced}

encode_fields : ℤ → Option Bytes → Option Bytes → Option Bytes → Option Bytes → Option Bytes
encode_fields (pos n) (some a) (some b) (some c) (some d) =
    some (n ∷ (cstr a ++ (0 ∷ (cstr b ++ (0 ∷ (cstr c ++ (0 ∷ (cstr d ++ (0 ∷ [])))))))))
encode_fields _ _ _ _ _ = none

encode : DiscoveryMsg → Option Bytes
unfolding encode_fields
encode msg = encode_fields msg.node_id msg.role msg.name msg.ip msg.services

field : Bytes → Bytes × Bytes
field [] = ([], [])
field (zero ∷ bs) = ([], bs)
field (suc c ∷ bs) = let (a, rest) = field bs in (suc c ∷ a, rest)

parse : Bytes → Option DiscoveryMsg
unfolding field
parse [] = none
parse (n ∷ bs) =
    let (role, r1) = field bs in
    let (name, r2) = field r1 in
    let (ip, r3) = field r2 in
    let (services, r4) = field r3 in
    some (record {
      node_id = pos n;
      role = some role;
      name = some name;
      ip = some ip;
      services = some services;
    })

field-append : (a rest : Bytes) → NoNul a → field (a ++ (0 ∷ rest)) ≡ (a, rest)
unfolding field
field-append [] rest h = refl
field-append (zero ∷ a) rest h = absurd (omega arith)
field-append (suc c ∷ a) rest h = rw (field-append a rest h.1) refl

parse_text :
    (n : ℕ) (a b c d : Bytes)
    → parse (n ∷ (cstr a ++ (0 ∷ (cstr b ++ (0 ∷ (cstr c ++ (0 ∷ (cstr d ++ (0 ∷ [])))))))))
      ≡ some (record {
        node_id = pos n;
        role = some (cstr a);
        name = some (cstr b);
        ip = some (cstr c);
        services = some (cstr d);
      })
unfolding parse
parse_text n a b c d =
    rw
      (
        field-append (cstr a) (cstr b ++ (0 ∷ (cstr c ++ (0 ∷ (cstr d ++ (0 ∷ []))))))
            (cstr-NoNul a),
        field-append (cstr b) (cstr c ++ (0 ∷ (cstr d ++ (0 ∷ [])))) (cstr-NoNul b),
        field-append (cstr c) (cstr d ++ (0 ∷ [])) (cstr-NoNul c),
        field-append (cstr d) [] (cstr-NoNul d),
      )
      refl

parse_fields :
    (z : ℤ) (a b c d : Option Bytes) (x : ℕ) (xs : Bytes)
    → encode_fields z a b c d ≡ some (x ∷ xs)
    → parse (x ∷ xs)
      ≡ some (record {
        node_id = z;
        role = text_of a;
        name = text_of b;
        ip = text_of c;
        services = text_of d;
      })
unfolding encode_fields
parse_fields (pos n) (some a) (some b) (some c) (some d) x xs e =
    subst
      (λ t.
        parse t
        ≡ some (record {
          node_id = pos n;
          role = some (cstr a);
          name = some (cstr b);
          ip = some (cstr c);
          services = some (cstr d);
        }))
      (cc) (parse_text n a b c d)
parse_fields _ _ _ _ _ x xs e = cc

parse-encode : ParsesBack encode parse
unfolding encode
parse-encode msg b bs e = parse_fields msg.node_id msg.role msg.name msg.ip msg.services b bs e

abbrev led : Bytes
led = b'l' ∷ b'e' ∷ b'd' ∷ []

abbrev cam : Bytes
cam = b'c' ∷ b'a' ∷ b'm' ∷ []

abbrev entry : Bytes → ServiceEntry ℕ
entry name = record zero_entry { name = name ++ replicate 29 0 }

abbrev sender : Registry ℕ
sender = record { services = entry led ∷ entry cam ∷ []; svc_count = 2 }

abbrev seven : CeellConfig
seven = record zero_config { node_id = 7 }

abbrev table : Peers
table = record { peers = replicate 2 zero_peer; peer_count = 0 }

table-IsValid : IsValid (some 1) 2 table
table-IsValid = record {
  size = refl;
  count_in = omega arith;
  distinct = tt;
  foreign = tt;
  formed = tt;
}

abbrev tail : Bytes
tail = 0 ∷ 0 ∷ 0 ∷ b'l' ∷ b'e' ∷ b'd' ∷ b',' ∷ b'c' ∷ b'a' ∷ b'm' ∷ 0 ∷ []

find_peer-announced_example :
    let s' = rx_round 2 parse (some 1) 100 (some (7 ∷ tail)) table in
    Any (Offers (led ∷ cam ∷ []) led 7 100) (contents s')
    × ((service_find_peer 2 s' (some cam) (some (replicate 16 0))).0 ≡ ok)
unfolding cstr tx_round encode is_own join service_names_csv any_eq bytes_eq
find_peer-announced_example =
    find_peer-announced 2 encode parse (some 1) seven sender (replicate 128 0) 7 tail 100 table led
      cam (replicate 16 0) parse-encode (ground arith) (ground arith) refl refl
      (ground arith, (ground arith, tt)) (omega arith) (omega arith) refl table-IsValid
      (inl (omega arith)) refl
