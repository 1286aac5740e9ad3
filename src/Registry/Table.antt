-- ===== src/Registry/Table.antt =====
-- The table as a list of entries, its invariant, and what registration does to it.
use ceell.Prelude.{
  ℕ, zero, suc, ◌<◌, ◌≤◌, ◌≡◌, refl, ap, Option, none, some, List, [], ◌∷◌, ◌++◌, arith, length,
  take, set, replicate, All, length-set, length-replicate, ◌⊎◌,
}
use ceell.Errno.{Ret, ok, err, einval, enomem}
use ceell.Bytes.{Bytes, cstr}
use ceell.Bytes.Copy.{cstr-set-strncpy, length-copy_str}
use ceell.Registry.{
  ServiceEntry, Registry, max_service_name_len, zero_entry, entry_at, fill_entry, service_init,
  service_register_sla,
}

-- A registered service: its name as text, and its parameters.
pub record Service (H : Type 0) : Type 0 where
  pub name : Bytes
  pub handler : Option H
  pub priority : ℕ
  pub deadline_ms : ℕ

module _ {H : Type 0} where
  abbrev pub service_of : ServiceEntry H → Service H
  service_of e = record {
    name = cstr e.name;
    handler = e.handler;
    priority = e.priority;
    deadline_ms = e.deadline_ms;
  }

  -- The first `n` entries of the array.
  abbrev pub services_of : ℕ → List (ServiceEntry H) → List (Service H)
  services_of zero es = []
  services_of (suc n) [] = []
  services_of (suc n) (e ∷ es) = service_of e ∷ services_of n es

  -- The services in the order of their registration.
  abbrev pub contents : Registry H → List (Service H)
  contents r = services_of r.svc_count r.services

  abbrev pub NameFits : ServiceEntry H → Type 0
  NameFits e = length e.name ≡ max_service_name_len

  pub services_of-set :
      (n : ℕ) (es : List (ServiceEntry H)) (e : ServiceEntry H)
      → n < length es
      → services_of (suc n) (set es n e) ≡ services_of n es ++ (service_of e ∷ [])
  services_of-set zero [] e h = absurd (omega arith)
  services_of-set zero (x ∷ es) e h = refl
  services_of-set (suc n) [] e h = absurd (omega arith)
  services_of-set (suc n) (x ∷ es) e h =
      ap (◌∷◌ (service_of x)) (services_of-set n es e (omega arith))

  NameFits-entry_at :
      (es : List (ServiceEntry H)) (i : ℕ) → All NameFits es → NameFits (entry_at es i)
  NameFits-entry_at [] i h = refl
  NameFits-entry_at (e ∷ es) zero h = h.0
  NameFits-entry_at (e ∷ es) (suc i) h = NameFits-entry_at es i h.1

  All-set :
      (es : List (ServiceEntry H)) (i : ℕ) (e : ServiceEntry H)
      → All NameFits es
      → NameFits e
      → All NameFits (set es i e)
  All-set [] i e h k = tt
  All-set (x ∷ es) zero e h k = (k, h.1)
  All-set (x ∷ es) (suc i) e h k = (h.0, All-set es i e h.1 k)

  service_of-fill :
      (e : ServiceEntry H) (name : Bytes) (handler : Option H) (priority deadline_ms : ℕ)
      → NameFits e
      → service_of (fill_entry e name handler priority deadline_ms) ≡ record {
        name = take 31 (cstr name);
        handler = handler;
        priority = priority;
        deadline_ms = deadline_ms;
      }
  unfolding fill_entry
  service_of-fill e name handler priority deadline_ms h =
      ground (arith, cstr-set-strncpy e.name name 31)

  NameFits-fill :
      (e : ServiceEntry H) (name : Bytes) (handler : Option H) (priority deadline_ms : ℕ)
      → NameFits e
      → NameFits (fill_entry e name handler priority deadline_ms)
  unfolding fill_entry
  NameFits-fill e name handler priority deadline_ms h =
      omega (arith, length-copy_str max_service_name_len e.name name)

All-zero : (H : Type 0) (n : ℕ) → All NameFits (replicate n (zero_entry {H = H}))
All-zero H zero = tt
All-zero H (suc n) = (refl, All-zero H n)

module _ {H : Type 0} where
  module _ (max_services : ℕ) where
    pub record IsValid (r : Registry H) : Type 0 where
      pub size : length r.services ≡ max_services
      pub counted : r.svc_count ≤ max_services
      pub names : All NameFits r.services

    -- `service_init` gives a valid table with no service.
    pub service_init-IsValid :
        IsValid (service_init {H = H} max_services)
        × (contents (service_init {H = H} max_services) ≡ [])
    unfolding service_init
    service_init-IsValid = (
      record {
        size = length-replicate max_services zero_entry;
        counted = omega arith;
        names = All-zero H max_services;
      },
      refl,
    )

    -- What a registration answers and does, on every branch.
    abbrev pub Registered : Registry H → Option Bytes → Option H → ℕ → ℕ → Ret × Registry H → Type 0
    Registered r none handler priority deadline_ms (ret, r') = (ret ≡ err einval) × (r' ≡ r)
    Registered r (some name) handler priority deadline_ms (ret, r') =
        ((r.svc_count ≡ max_services) × (ret ≡ err enomem) × (r' ≡ r))
        ⊎ ((r.svc_count < max_services)
            × (ret ≡ ok)
            × (contents r'
                ≡ contents r
                  ++ (record {
                    name = take 31 (cstr name);
                    handler = handler;
                    priority = priority;
                    deadline_ms = deadline_ms;
                  }
                      ∷ [])))

    -- On a valid table `service_register_sla` refuses a NULL name and a full table without a
    -- change, and else appends the service, its name cut to 31 bytes; the table stays valid.
    pub service_register_sla_lem :
        (r : Registry H) (name : Option Bytes) (handler : Option H) (priority deadline_ms : ℕ)
        → IsValid r
        → let out = service_register_sla max_services r name handler priority deadline_ms in
          Registered r name handler priority deadline_ms out × IsValid out.1
    unfolding service_register_sla
    service_register_sla_lem r none handler priority deadline_ms v = ((refl, refl), v)
    service_register_sla_lem r (some name) handler priority deadline_ms v =
        let old = entry_at r.services r.svc_count in
        let new = fill_entry old name handler priority deadline_ms in
        let fits = NameFits-entry_at r.services r.svc_count v.names in
        ground (
          arith,
          services_of-set r.svc_count r.services new,
          service_of-fill old name handler priority deadline_ms fits,
          length-set r.services r.svc_count new,
          All-set r.services r.svc_count new v.names
              (NameFits-fill old name handler priority deadline_ms fits),
        )
