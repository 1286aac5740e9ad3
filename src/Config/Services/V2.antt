-- ===== src/Config/Services/V2.antt =====
-- The services array of the V2 format.
use ceell.Prelude.{
  ℕ, zero, suc, ◌%◌, refl, ◌≡◌, none, some, List, [], ◌∷◌, map, arith, if◌then◌else◌, ltb,
  Bool-cases, inl, inr, take, Option-cases,
}
use ceell.Prelude.Int.{ℤ, pos, negsuc}
use ceell.Bytes.{Bytes, cstr}
use ceell.Csv.{at_char}
use ceell.Config.{
  CeellConfig, JsonSvcEntry, sla_priority, sla_deadline, add_v2, v2_services, parse_services_v2,
}
use ceell.Config.Services.{
  Entry, names, slas, IsValid, Extends, Extends-nil, Extends-skip, Extends-Added, Added-add_v2,
}

-- What a service asks for: the three known priorities, and NORMAL in place of any other number.
agreed_priority : ℤ → ℕ
agreed_priority (pos zero) = 0
agreed_priority (pos (suc zero)) = 1
agreed_priority (pos (suc (suc zero))) = 2
agreed_priority (pos (suc (suc (suc n)))) = 1
agreed_priority (negsuc n) = 1

agreed_deadline : ℤ → ℕ
agreed_deadline (pos n) = n % 65536
agreed_deadline (negsuc n) = 0

sla_priority-agreed_priority : (p : ℤ) → sla_priority p ≡ agreed_priority p
unfolding agreed_priority
sla_priority-agreed_priority (negsuc n) = refl
sla_priority-agreed_priority (pos zero) = refl
sla_priority-agreed_priority (pos (suc zero)) = refl
sla_priority-agreed_priority (pos (suc (suc zero))) = refl
sla_priority-agreed_priority (pos (suc (suc (suc n)))) = ground arith

sla_deadline-agreed_deadline : (d : ℤ) → sla_deadline d ≡ agreed_deadline d
unfolding agreed_deadline
sla_deadline-agreed_deadline (negsuc n) = refl
sla_deadline-agreed_deadline (pos n) = refl

-- The entries with a name, the name cut to 31 bytes, with their priorities and deadlines.
pub entries_of : List JsonSvcEntry → List Entry
entries_of [] = []
entries_of (e ∷ es) = elim e.name [
  | none ↦ entries_of es
  | some name ↦
      let entry : Entry =
        (take 31 (cstr name), agreed_priority e.priority, agreed_deadline e.deadline_ms) in
      if at_char name then entry ∷ entries_of es else entries_of es
]

abbrev pub name_of : Entry → Bytes
name_of e = e.0

Extends-v2_services :
    (es : List JsonSvcEntry) (cfg : CeellConfig)
    → IsValid cfg
    → Extends cfg (map name_of (entries_of es)) (entries_of es) (v2_services es cfg)
unfolding v2_services entries_of
Extends-v2_services [] cfg v = Extends-nil cfg v
Extends-v2_services (e ∷ es) cfg v = elim (Option-cases e.name) [
  | inl nameless ↦ rw nameless (Extends-v2_services es cfg v)
  | inr (name, o) ↦ elim (Bool-cases (at_char name)) [
    | inr empty ↦ rw (o, empty) (Extends-v2_services es cfg v)
    | inl given ↦ elim (Bool-cases (ltb cfg.service_count 4)) [
      | inl room ↦
          let a =
            rw (sla_priority-agreed_priority e.priority, sla_deadline-agreed_deadline e.deadline_ms)
              at (Added-add_v2 cfg v (ground (arith, room)) name e.priority e.deadline_ms) in
          rw (o, given, room)
            (Extends-Added cfg v _ _ _ _ (add_v2 cfg name e.priority e.deadline_ms) _ a
              (Extends-v2_services es (add_v2 cfg name e.priority e.deadline_ms) a.valid))
      | inr full ↦
          rw (o, given, full)
            (Extends-skip cfg v _ _ _ _ _ (ground (arith, full)) (Extends-v2_services es cfg v))
    ]
  ]
]

-- Into a valid configuration, from the entries of a V2 configuration the first four that have a name
-- become the services, in their order: the name cut to 31 bytes, a priority other than 0, 1 and 2 as
-- NORMAL, and the deadline by its lowest 16 bits, 0 for a negative one.
pub parse_services_v2_lem :
    (cfg : CeellConfig) (es : List JsonSvcEntry)
    → IsValid cfg
    → let cfg' = parse_services_v2 cfg es in
      (names cfg' ≡ take 4 (map name_of (entries_of es)))
      × (slas cfg' ≡ take 4 (entries_of es))
      × IsValid cfg'
unfolding parse_services_v2
parse_services_v2_lem cfg es v =
    let start : CeellConfig = record cfg { service_count = 0 } in
    let x = Extends-v2_services es start (record {
      size = v.size;
      sla_size = v.sla_size;
      fits = v.fits;
      sla_fits = v.sla_fits;
      count_in = omega arith;
    }) in
    (x.named, x.agreed, x.valid)
