-- ===== src/Registry/Lookup.antt =====
-- What the getters answer: the first service registered under a name.
use ceell.Prelude.{
  ℕ, zero, suc, ◌<◌, ◌≡◌, refl, Option, none, some, List, [], ◌∷◌, ◌++◌, arith, take, if◌then◌else◌,
}
use ceell.Bytes.{Bytes, cstr, bytes_eq}
use ceell.Registry.{
  ServiceEntry, Registry, find_entry, service_get_handler, service_get_priority,
  service_get_deadline, service_register_sla,
}
use ceell.Registry.Table.{
  Service, service_of, services_of, contents, IsValid, service_register_sla_lem,
}

module _ {H : Type 0} where
  -- The first service of that name.
  pub first_named : Bytes → List (Service H) → Option (Service H)
  first_named name [] = none
  first_named name (s ∷ ss) = if bytes_eq s.name name then some s else first_named name ss

  -- The three answers about a name, if this is the service found.
  abbrev pub Answers : Registry H → Bytes → Option (Service H) → Type 0
  Answers r name none =
      (service_get_handler r (some name) ≡ none)
      × (service_get_priority r (some name) ≡ 1)
      × (service_get_deadline r (some name) ≡ 0)
  Answers r name (some s) =
      (service_get_handler r (some name) ≡ s.handler)
      × (service_get_priority r (some name) ≡ s.priority)
      × (service_get_deadline r (some name) ≡ s.deadline_ms)

  abbrev seen : Option (ServiceEntry H) → Option (Service H)
  seen none = none
  seen (some e) = some (service_of e)

  find_entry-first_named :
      (n : ℕ) (es : List (ServiceEntry H)) (name : Bytes)
      → seen (find_entry n es name) ≡ first_named (cstr name) (services_of n es)
  unfolding find_entry first_named
  find_entry-first_named zero es name = refl
  find_entry-first_named (suc n) [] name = refl
  find_entry-first_named (suc n) (e ∷ es) name = ground (arith, find_entry-first_named n es name)

  seen-Answers :
      (r : Registry H) (name : Bytes) (found : Option (ServiceEntry H))
      → find_entry r.svc_count r.services name ≡ found
      → Answers r name (seen found)
  unfolding service_get_handler service_get_priority service_get_deadline
  seen-Answers r name none e = ground (arith, e)
  seen-Answers r name (some f) e = ground (arith, e)

  -- The getters answer by the first service of the table with that name.
  pub getters_lem :
      (r : Registry H) (name : Bytes) → Answers r name (first_named (cstr name) (contents r))
  getters_lem r name =
      rw (← find_entry-first_named r.svc_count r.services name)
        (seen-Answers r name (find_entry r.svc_count r.services name) refl)

  first_named-append :
      (name : Bytes) (ss : List (Service H)) (s : Service H)
      → first_named name (ss ++ (s ∷ [])) ≡ elim (first_named name ss) [
        | some t ↦ some t
        | none ↦ if bytes_eq s.name name then some s else none
      ]
  unfolding first_named
  first_named-append name [] s = refl
  first_named-append name (t ∷ ss) s = ground (arith, first_named-append name ss s)

  -- What a name finds once another service is registered: what it found before, and the new service
  -- only if the name was free and fits.
  abbrev pub after_register : Option (Service H) → Service H → Bytes → Option (Service H)
  after_register (some old) new name = some old
  after_register none new name = if bytes_eq new.name name then some new else none

  -- A registration on a valid table that is not full never changes what the getters answer about a
  -- name that is taken: the first registration of a name stays the one that is found.
  pub getters-register :
      (max_services : ℕ) (r : Registry H) (name : Bytes) (handler : Option H)
      (priority deadline_ms : ℕ) (asked : Bytes)
      → IsValid max_services r
      → r.svc_count < max_services
      → Answers
          (service_register_sla max_services r (some name) handler priority deadline_ms).1
          asked
          (after_register
            (first_named (cstr asked) (contents r))
            (record {
              name = take 31 (cstr name);
              handler = handler;
              priority = priority;
              deadline_ms = deadline_ms;
            })
            (cstr asked))
  getters-register max_services r name handler priority deadline_ms asked v room =
      let r' = (service_register_sla max_services r (some name) handler priority deadline_ms).1 in
      rw (← registered) (getters_lem r' asked)
    where
      new : Service H
      new = record {
        name = take 31 (cstr name);
        handler = handler;
        priority = priority;
        deadline_ms = deadline_ms;
      }

      registered :
          first_named (cstr asked) (
            contents
              (service_register_sla max_services r (some name) handler priority deadline_ms).1)
          ≡ after_register (first_named (cstr asked) (contents r)) new (cstr asked)
      registered = ground (
        arith,
        service_register_sla_lem max_services r (some name) handler priority deadline_ms v,
        first_named-append (cstr asked) (contents r) new,
      )
