-- ===== src/Node/Startup.antt =====
-- The registry after the start: the services of the configuration come first, and shadow the program's own.
use ceell.Prelude.{
  ℕ, zero, suc, ◌+◌, ◌<◌, ◌≤◌, ◌≡◌, refl, sym, ap, ◌∙◌, Option, none, some, List, [], ◌∷◌, ◌++◌,
  arith, if◌then◌else◌, ◌==◌, get_or, take, append_assoc, append-nil, Bool-cases, inl, inr, length,
}
use ceell.Bytes.{Bytes, cstr}
use ceell.Config.{CeellConfig, zero_name, zero_sla}
use ceell.Registry.{Registry, service_init, service_register, service_register_sla}
use ceell.Registry.Table.{
  Service, contents, IsValid, service_init-IsValid, service_register_sla_lem,
}
use ceell.Node.{
  register_service, register_services, register_own, echo_name, ota_name, start_registry,
}

module _ {H : Type 0} where
  -- The service that the `i`-th entry of the configuration asks for.
  abbrev pub configured : CeellConfig → ℕ → Service H
  configured cfg i = record {
    name = take 31 (cstr (get_or cfg.services i zero_name));
    handler = none;
    priority = if cfg.version == 2 then (get_or cfg.service_slas i zero_sla).priority else 1;
    deadline_ms = if cfg.version == 2 then (get_or cfg.service_slas i zero_sla).deadline_ms else 0;
  }

  -- Those of `n` entries from `i` on.
  unfoldable pub configured_from : ℕ → ℕ → CeellConfig → List (Service H)
  configured_from zero i cfg = []
  configured_from (suc n) i cfg = configured cfg i ∷ configured_from n (i + 1) cfg

  -- A service of the program itself.
  abbrev pub own : Bytes → H → Service H
  own name handler = record { name = name; handler = some handler; priority = 1; deadline_ms = 0 }

length-configured_from :
    (H : Type 0) (n i : ℕ) (cfg : CeellConfig) → length (configured_from {H = H} n i cfg) ≡ n
unfolding configured_from
length-configured_from H zero i cfg = refl
length-configured_from H (suc n) i cfg = ap suc (length-configured_from H n (i + 1) cfg)

module _ {H : Type 0} (max_services : ℕ) where
  -- The table has room for one more, and then holds `s` behind the others.
  record Appended (r : Registry H) (s : Service H) (r' : Registry H) : Type 0 where
    held : contents r' ≡ contents r ++ (s ∷ [])
    valid : IsValid max_services r'
    counted : r'.svc_count ≡ r.svc_count + 1

  svc_count-register :
      (r : Registry H) (name : Bytes) (handler : Option H) (priority deadline_ms : ℕ)
      → r.svc_count < max_services
      → (service_register_sla max_services r (some name) handler priority deadline_ms).1.svc_count
        ≡ r.svc_count + 1
  unfolding service_register_sla
  svc_count-register r name handler priority deadline_ms room = ground (arith, room)

  registered :
      (r : Registry H) (name : Bytes) (handler : Option H) (priority deadline_ms : ℕ)
      → IsValid max_services r
      → r.svc_count < max_services
      → Appended r
          (record {
            name = take 31 (cstr name);
            handler = handler;
            priority = priority;
            deadline_ms = deadline_ms;
          })
          (service_register_sla max_services r (some name) handler priority deadline_ms).1
  registered r name handler priority deadline_ms v room =
      let l = service_register_sla_lem max_services r (some name) handler priority deadline_ms v in
      record {
        held = elim l.0 [ inl f ↦ absurd (omega (arith, f.0)) | inr h ↦ h.2 ];
        valid = l.1;
        counted = svc_count-register r name handler priority deadline_ms room;
      }

  register_service-Appended :
      (cfg : CeellConfig) (i : ℕ) (r : Registry H)
      → IsValid max_services r
      → r.svc_count < max_services
      → Appended r (configured cfg i) (register_service max_services cfg i r)
  unfolding register_service service_register
  register_service-Appended cfg i r v room = elim (Bool-cases (cfg.version == 2)) [
    | inl v2 ↦
        let sla = get_or cfg.service_slas i zero_sla in
        rw (v2, register_service)
          (registered r (get_or cfg.services i zero_name) none sla.priority sla.deadline_ms v room)
    | inr other ↦
        rw (other, register_service)
          (registered r (get_or cfg.services i zero_name) none 1 0 v room)
  ]

  -- The table after the loop.
  record Filled (r : Registry H) (ss : List (Service H)) (r' : Registry H) : Type 0 where
    held : contents r' ≡ contents r ++ ss
    valid : IsValid max_services r'
    counted : r'.svc_count ≡ r.svc_count + length ss

  register_services-Filled :
      (n i : ℕ) (cfg : CeellConfig) (r : Registry H)
      → IsValid max_services r
      → r.svc_count + n ≤ max_services
      → Filled r (configured_from n i cfg) (register_services max_services n i cfg r)
  unfolding register_services configured_from
  register_services-Filled zero i cfg r v room = record {
    held = sym (append-nil (contents r));
    valid = v;
    counted = omega arith;
  }
  register_services-Filled (suc n) i cfg r v room =
      let a = register_service-Appended cfg i r v (omega arith) in
      let r' = register_service max_services cfg i r in
      let f = register_services-Filled n (i + 1) cfg r' a.valid (omega (arith, a.counted)) in
      record {
        held =
            f.held
            ∙ ap (λ l. l ++ configured_from n (i + 1) cfg) a.held
            ∙ append_assoc (contents r) (configured cfg i ∷ []) (configured_from n (i + 1) cfg);
        valid = f.valid;
        counted = omega (arith, f.counted, a.counted);
      }

  -- Where the table has room for them, the registry after the start holds the services of the
  -- configuration, without a handler, then "echo" and then "ota" with the program's handlers. Only a V2
  -- configuration gives priorities and deadlines.
  pub start_registry_lem :
      (cfg : CeellConfig) (echo ota : H)
      → cfg.service_count + 2 ≤ max_services
      → let r = start_registry max_services cfg (some echo) (some ota) in
        (contents r
          ≡ configured_from cfg.service_count 0 cfg ++ (own echo_name echo ∷ own ota_name ota ∷ []))
        × IsValid max_services r
  unfolding start_registry register_own service_register cstr
  start_registry_lem cfg echo ota room =
      let init = service_init-IsValid {H = H} max_services in
      let n = cfg.service_count in
      let f =
        register_services-Filled n 0 cfg (service_init max_services) init.0
          (omega (arith, empty)) in
      let r1 = register_services max_services n 0 cfg (service_init max_services) in
      let l = length-configured_from H n 0 cfg in
      let a =
        registered r1 echo_name (some echo) 1 0 f.valid (omega (arith, f.counted, l, empty)) in
      let r2 = (service_register_sla max_services r1 (some echo_name) (some echo) 1 0).1 in
      let b =
        registered r2 ota_name (some ota) 1 0 a.valid
          (omega (arith, a.counted, f.counted, l, empty)) in
      let configured_all = configured_from {H = H} n 0 cfg in
      (
        b.held
            ∙ ap (λ l. l ++ (own ota_name ota ∷ []))
                (a.held
                  ∙ ap (λ l. l ++ (own echo_name echo ∷ []))
                      (f.held ∙ ap (λ l. l ++ configured_all) init.1))
            ∙ append_assoc configured_all (own echo_name echo ∷ []) (own ota_name ota ∷ []),
        b.valid,
      )
    where
      empty : (service_init {H = H} max_services).svc_count ≡ 0
      empty = unfold service_init in refl
