-- ===== src/Config/Load/Valid.antt =====
-- Whatever the flash holds and the parser makes of it, the loaded configuration is well formed.
use ceell.Prelude.{
  ℕ, suc, zero, length, ◌+◌, ◌<◌, ◌≡◌, refl, Bool, true, false, Option, none, some, List, [], ◌∷◌,
  arith, if◌then◌else◌, ltb, Bool-cases, inl, inr, set, ◌&&◌,
}
use ceell.Prelude.Int.{ℤ, pos, leb_ℤ}
use ceell.Errno.{Ret, ok, err}
use ceell.Bytes.{Bytes, cstr}
use ceell.Bytes.Copy.{IsTerminated-copy_str, IsTerminated-copy_if}
use ceell.Csv.{comma, strchr, at_char, token_len, skip_comma}
use ceell.Config.{
  CeellConfig, zero_config, JsonSvcEntry, v2_services, parse_services_csv, parse_services_v2,
  csv_services, add_v1, add_v2, add_entry,
}
use ceell.Config.Load.Formed.{IsFormed, with_count, IsFormed-add_v1, IsFormed-add_v2}
use ceell.Config.Load.{
  Defaults, load_defaults, flash_is_empty, JsonCommon, copy_common_fields, Parsers, load_v1,
  load_v2, parse_json, Flash, load_from, config_load,
}

if_IsFormed :
    (b : Bool) (x y : CeellConfig) → IsFormed x → IsFormed y → IsFormed (if b then x else y)
if_IsFormed true x y f g = f
if_IsFormed false x y f g = g

IsFormed-csv_services :
    (fuel : ℕ) (p : Bytes) (cfg : CeellConfig) → IsFormed cfg → IsFormed (csv_services fuel p cfg)
unfolding csv_services
IsFormed-csv_services zero p cfg f = f
IsFormed-csv_services (suc fuel) p cfg f =
    elim (Bool-cases (at_char p && ltb cfg.service_count 4)) [
      | inr stop ↦ rw (stop, csv_services) f
      | inl more ↦
          let room : cfg.service_count < 4 = ground (arith, more) in
          let len = token_len p (strchr p comma) in
          let cfg' = if ltb 0 len && ltb len 32 then add_v1 cfg p len else cfg in
          let f' = token_added (strchr p comma) room (ltb 0 len && ltb len 32) refl in
          rw (more, csv_services)
            (after cfg' f' (strchr p comma) (λ q. IsFormed-csv_services fuel q cfg' f'))
    ]
  where
    token_added :
        (found : Option Bytes)
        → cfg.service_count < 4
        → (b : Bool) → (ltb 0 (token_len p found) && ltb (token_len p found) 32) ≡ b
        → IsFormed (if b then add_v1 cfg p (token_len p found) else cfg)
    token_added found room false e = f
    token_added found room true e = IsFormed-add_v1 cfg f room p found (ground (arith, e))

    after :
        (cfg' : CeellConfig)
        → IsFormed cfg'
        → (found : Option Bytes) → ((q : Bytes) → IsFormed (csv_services fuel q cfg'))
        → IsFormed
            (elim found [ none ↦ cfg' | some rest ↦ csv_services fuel (skip_comma rest) cfg' ])
    after cfg' f' none ih = f'
    after cfg' f' (some rest) ih = ih (skip_comma rest)

IsFormed-add_entry :
    (cfg : CeellConfig) (e : JsonSvcEntry) → IsFormed cfg → IsFormed (add_entry cfg e)
IsFormed-add_entry cfg e f = go e.name
  where
    go :
        (name : Option Bytes)
        → IsFormed (elim name [
          | none ↦ cfg
          | some n ↦
              if at_char n && ltb cfg.service_count 4
              then add_v2 cfg n e.priority e.deadline_ms
              else cfg
        ])
    go none = f
    go (some n) = elim (Bool-cases (at_char n && ltb cfg.service_count 4)) [
      | inl room ↦ rw room (IsFormed-add_v2 cfg f (ground (arith, room)) n e.priority e.deadline_ms)
      | inr full ↦ rw full f
    ]

IsFormed-v2_services :
    (es : List JsonSvcEntry) (cfg : CeellConfig) → IsFormed cfg → IsFormed (v2_services es cfg)
unfolding v2_services
IsFormed-v2_services [] cfg f = f
IsFormed-v2_services (e ∷ es) cfg f =
    IsFormed-v2_services es (add_entry cfg e) (IsFormed-add_entry cfg e f)

IsFormed-load_defaults : (d : Defaults) → IsFormed (load_defaults d zero_config)
unfolding load_defaults
IsFormed-load_defaults d = record {
  role_ends = IsTerminated-copy_str 32 zero_config.role d.role (omega arith) refl;
  name_ends = IsTerminated-copy_str 64 zero_config.name d.name (omega arith) refl;
  ip_ends = IsTerminated-copy_str 16 zero_config.ip d.ip (omega arith) refl;
  netmask_ends = IsTerminated-copy_str 16 zero_config.netmask d.netmask (omega arith) refl;
  size = refl;
  services_end = ((refl, refl), ((refl, refl), ((refl, refl), ((refl, refl), tt))));
  sla_size = refl;
  slas_end = ((refl, refl), ((refl, refl), ((refl, refl), ((refl, refl), tt))));
  count_in = omega arith;
}

IsFormed-copy_common_fields : (j : JsonCommon) → IsFormed (copy_common_fields zero_config j)
unfolding copy_common_fields
IsFormed-copy_common_fields j = record {
  role_ends = IsTerminated-copy_if 32 zero_config.role j.role (refl, refl);
  name_ends = IsTerminated-copy_if 64 zero_config.name j.name (refl, refl);
  ip_ends = IsTerminated-copy_if 16 zero_config.ip j.ip (refl, refl);
  netmask_ends = IsTerminated-copy_if 16 zero_config.netmask j.netmask (refl, refl);
  size = refl;
  services_end = ((refl, refl), ((refl, refl), ((refl, refl), ((refl, refl), tt))));
  sla_size = refl;
  slas_end = ((refl, refl), ((refl, refl), ((refl, refl), ((refl, refl), tt))));
  count_in = omega arith;
}

IsFormed-load_v1 : (d : Defaults) (o : Option (JsonCommon × Option Bytes)) → IsFormed (load_v1 d o)
unfolding load_v1 parse_services_csv
IsFormed-load_v1 d none = IsFormed-load_defaults d
IsFormed-load_v1 d (some (j, none)) =
    with_count (copy_common_fields zero_config j) 0 (IsFormed-copy_common_fields j) (omega arith)
IsFormed-load_v1 d (some (j, some csv)) =
    let cfg = copy_common_fields zero_config j in
    IsFormed-csv_services (length csv + 1) csv (record cfg { service_count = 0 })
      (with_count cfg 0 (IsFormed-copy_common_fields j) (omega arith))

IsFormed-load_v2 :
    (d : Defaults) (o : Option (JsonCommon × List JsonSvcEntry)) → IsFormed (load_v2 d o)
unfolding load_v2 parse_services_v2
IsFormed-load_v2 d none = IsFormed-load_defaults d
IsFormed-load_v2 d (some (j, es)) =
    let cfg = copy_common_fields zero_config j in
    IsFormed-v2_services es (record cfg { service_count = 0 })
      (with_count cfg 0 (IsFormed-copy_common_fields j) (omega arith))

IsFormed-parse_json : (d : Defaults) (ps : Parsers) (buf : Bytes) → IsFormed (parse_json d ps buf)
unfolding parse_json
IsFormed-parse_json d ps buf = go (ps.version_only (cstr (set buf 511 0))).0
  where
    left : Bytes
    left = (ps.version_only (cstr (set buf 511 0))).1

    go :
        (version : Option ℤ)
        → IsFormed (elim version [
          | none ↦ load_defaults d zero_config
          | some v ↦
              if leb_ℤ v (pos 2) && leb_ℤ (pos 2) v
              then load_v2 d (ps.config_v2 left)
              else if leb_ℤ v (pos 1) && leb_ℤ (pos 1) v
              then load_v1 d (ps.config_v1 left)
              else load_defaults d zero_config
        ])
    go none = IsFormed-load_defaults d
    go (some v) =
        if_IsFormed _ _ _ (IsFormed-load_v2 d (ps.config_v2 left))
          (if_IsFormed _ _ _ (IsFormed-load_v1 d (ps.config_v1 left)) (IsFormed-load_defaults d))

IsFormed-load_from : (d : Defaults) (ps : Parsers) (buf : Bytes) → IsFormed (load_from d ps buf)
unfolding load_from
IsFormed-load_from d ps buf =
    if_IsFormed (flash_is_empty buf) (load_defaults d zero_config) (parse_json d ps buf)
      (IsFormed-load_defaults d) (IsFormed-parse_json d ps buf)

-- Whatever the flash returns and holds and the JSON parser makes of it, every text of the loaded
-- configuration ends within its array, those of the four places for services and of their agreements
-- too, and it has four services at most.
pub config_load-IsFormed : (d : Defaults) (ps : Parsers) (f : Flash) → IsFormed (config_load d ps f)
unfolding config_load
config_load-IsFormed d ps f = go f.opened f.read
  where
    go :
        (o r : Ret)
        → IsFormed (elim o [
          | err e ↦ load_from d ps f.mapped
          | ok ↦ elim r [ err e ↦ load_defaults d zero_config | ok ↦ load_from d ps f.read_buf ]
        ])
    go (err e) r = IsFormed-load_from d ps f.mapped
    go ok (err e) = IsFormed-load_defaults d
    go ok ok = IsFormed-load_from d ps f.read_buf
