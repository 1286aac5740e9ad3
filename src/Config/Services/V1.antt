-- ===== src/Config/Services/V1.antt =====
-- The comma-separated services of the V1 format.
use native.Mathlib.Numerals.{add-one}
use ceell.Prelude.{
  ℕ, zero, suc, ◌<◌, ◌≤◌, ◌≡◌, refl, ap, true, false, Option, none, some, List, [], ◌∷◌, ◌++◌, map,
  arith, if◌then◌else◌, ltb, Bool-cases, inl, inr, length, take, take_all, length-append,
  append-nil, All,
}
use ceell.Bytes.{Bytes}
use ceell.Bytes.Copy.{NoNul}
use ceell.Csv.{comma, strchr, at_char, token_len, skip_comma, join}
use ceell.Csv.Join.{
  IsPlain, IsText, cstr_plain, strchr-none, strchr-comma, take_prefix, at_char_plain, length-join,
}
use ceell.Config.{CeellConfig, add_v1, csv_services, parse_services_csv}
use ceell.Config.Services.{
  Entry, names, slas, IsValid, Extends, Extends-nil, Extends-full, Extends-Added, Added-add_v1,
}

-- The names that fit their array, the others are left out.
pub short : List Bytes → List Bytes
short [] = []
short (n ∷ ns) = if ltb (length n) 32 then n ∷ short ns else short ns

-- With NORMAL priority and no deadline.
abbrev pub by_default : Bytes → Entry
by_default n = (n, 1, 0)

NoNul-plain : (n : Bytes) → IsText n → NoNul n
NoNul-plain [] h = tt
NoNul-plain (c ∷ n) h = (h.0.0, NoNul-plain n h.1)

-- What is left to do after a token.
abbrev rest_of : ℕ → Option Bytes → CeellConfig → CeellConfig
rest_of fuel found cfg = elim found [
  | none ↦ cfg
  | some rest ↦ csv_services fuel (skip_comma rest) cfg
]

csv_step :
    (fuel : ℕ) (p n : Bytes) (found : Option Bytes) (cfg : CeellConfig)
    → at_char p ≡ true
    → cfg.service_count < 4
    → strchr p comma ≡ found
    → token_len p found ≡ length n
    → 0 < length n
    → csv_services (suc fuel) p cfg
      ≡ rest_of fuel found (if ltb (length n) 32 then add_v1 cfg p (length n) else cfg)
unfolding csv_services
csv_step fuel p n none cfg a room f t some_char =
    let r : ltb cfg.service_count 4 ≡ true = ground (arith, room) in
    let s : ltb 0 (length n) ≡ true = ground (arith, some_char) in
    rw (a, csv_services) (rw r (rw f (rw f (rw t (rw s refl)))))
csv_step fuel p n (some rest) cfg a room f t some_char =
    let r : ltb cfg.service_count 4 ≡ true = ground (arith, room) in
    let s : ltb 0 (length n) ≡ true = ground (arith, some_char) in
    rw (a, csv_services) (rw r (rw f (rw f (rw t (rw s refl)))))

module _ (cfg : CeellConfig) (v : IsValid cfg) (room : cfg.service_count < 4) (p n : Bytes)
    (t : take (length n) p ≡ n) (h : IsPlain n) where
  abbrev with_token : CeellConfig
  with_token = if ltb (length n) 32 then add_v1 cfg p (length n) else cfg

  token-IsValid : IsValid with_token
  token-IsValid = elim (Bool-cases (ltb (length n) 32)) [
    | inl fits ↦
        rw fits (Added-add_v1 cfg v room p n t (NoNul-plain n h.0) (ground (arith, fits))).valid
    | inr long ↦ rw long v
  ]

  token-Extends :
      (ns : List Bytes) (cfg' : CeellConfig)
      → Extends with_token (short ns) (map by_default (short ns)) cfg'
      → Extends cfg (short (n ∷ ns)) (map by_default (short (n ∷ ns))) cfg'
  unfolding short
  token-Extends ns cfg' x = elim (Bool-cases (ltb (length n) 32)) [
    | inl fits ↦ rw fits (
        Extends-Added cfg v n (n, 1, 0) (short ns) (map by_default (short ns))
          (add_v1 cfg p (length n)) cfg'
          (Added-add_v1 cfg v room p n t (NoNul-plain n h.0) (ground (arith, fits))) (rw fits at x))
    | inr long ↦ rw long (rw long at x)
  ]

csv_full :
    (fuel : ℕ) (p : Bytes) (cfg : CeellConfig)
    → 4 ≤ cfg.service_count
    → csv_services (suc fuel) p cfg ≡ cfg
unfolding csv_services
csv_full fuel p cfg h =
    let r : ltb cfg.service_count 4 ≡ false = ground (arith, h) in
    elim (Bool-cases (at_char p)) [
      | inl more ↦ rw (more, csv_services) (rw r refl)
      | inr end ↦ rw (end, csv_services) refl
    ]

csv_end : (fuel : ℕ) (cfg : CeellConfig) → csv_services (suc fuel) [] cfg ≡ cfg
unfolding csv_services
csv_end fuel cfg = refl

-- A step of the induction, with the rest of the text done.
module _ (fuel : ℕ) (cfg : CeellConfig) (v : IsValid cfg) (room : cfg.service_count < 4) (n : Bytes)
    (h : IsPlain n) where
  last_token :
      Extends cfg (short (n ∷ [])) (map by_default (short (n ∷ []))) (csv_services (suc fuel) n cfg)
  last_token =
      let t = take_all (length n) n (omega arith) in
      let w = with_token cfg v room n n t h in
      rw
        (csv_step fuel n n none cfg (rw (← append-nil n) (at_char_plain n [] h)) room
          (strchr-none n h.0) (ap length (cstr_plain n h.0)) h.1)
        (token-Extends cfg v room n n t h [] w
          (unfold short in (Extends-nil w (token-IsValid cfg v room n n t h))))

  next_token :
      (r : Bytes) (ns : List Bytes)
      → ((c : CeellConfig)
          → IsValid c
          → Extends c (short ns) (map by_default (short ns)) (csv_services fuel r c))
      → Extends cfg
          (short (n ∷ ns))
          (map by_default (short (n ∷ ns)))
          (csv_services (suc fuel) (n ++ (comma ∷ r)) cfg)
  next_token r ns ih =
      let p = n ++ (comma ∷ r) in
      let t = take_prefix n (comma ∷ r) in
      let w = with_token cfg v room p n t h in
      rw
        (csv_step fuel p n (some (comma ∷ r)) cfg (at_char_plain n (comma ∷ r) h) room
          (strchr-comma n r h.0) (omega (arith, length-append n (comma ∷ r))) h.1)
        (token-Extends cfg v room p n t h ns (csv_services fuel r w)
          (ih w (token-IsValid cfg v room p n t h)))

Extends-join :
    (ns : List Bytes) (fuel : ℕ) (cfg : CeellConfig)
    → IsValid cfg
    → All IsPlain ns
    → length ns ≤ suc fuel
    → Extends cfg (short ns) (map by_default (short ns)) (csv_services (suc fuel) (join ns) cfg)
unfolding join
Extends-join [] fuel cfg v h le = rw (csv_end fuel cfg) (unfold short in (Extends-nil cfg v))
Extends-join (n ∷ []) fuel cfg v h le = elim (Bool-cases (ltb cfg.service_count 4)) [
  | inl room ↦ last_token fuel cfg v (ground (arith, room)) n h.0
  | inr full ↦
      rw (csv_full fuel n cfg (ground (arith, full))) (
        Extends-full cfg v (short (n ∷ [])) (map by_default (short (n ∷ [])))
          (ground (arith, full)))
]
Extends-join (n ∷ m ∷ ns) zero cfg v h le = absurd (omega arith)
Extends-join (n ∷ m ∷ ns) (suc fuel) cfg v h le = elim (Bool-cases (ltb cfg.service_count 4)) [
  | inl room ↦
      next_token (suc fuel) cfg v (ground (arith, room)) n h.0 (join (m ∷ ns)) (m ∷ ns)
        (λ c w. Extends-join (m ∷ ns) fuel c w h.1 (omega arith))
  | inr full ↦ rw (csv_full (suc fuel) (n ++ (comma ∷ join (m ∷ ns))) cfg (ground (arith, full))) (
      Extends-full cfg v (short (n ∷ m ∷ ns)) (map by_default (short (n ∷ m ∷ ns)))
        (ground (arith, full)))
]

-- From plain names joined by commas the first four of at most 31 bytes become the services of a V1
-- configuration, in their order, with NORMAL priority and no deadline; longer names are left out.
pub parse_services_csv-join :
    (cfg : CeellConfig) (ns : List Bytes)
    → IsValid cfg
    → All IsPlain ns
    → let cfg' = parse_services_csv cfg (some (join ns)) in
      (names cfg' ≡ take 4 (short ns))
      × (slas cfg' ≡ take 4 (map by_default (short ns)))
      × IsValid cfg'
unfolding parse_services_csv
parse_services_csv-join cfg ns v h =
    let start : CeellConfig = record cfg { service_count = 0 } in
    let x =
      Extends-join ns (length (join ns)) start
        (record {
          size = v.size;
          sla_size = v.sla_size;
          fits = v.fits;
          sla_fits = v.sla_fits;
          count_in = omega arith;
        })
        h (omega (arith, length-join ns h)) in
    rw add-one (x.named, x.agreed, x.valid)
