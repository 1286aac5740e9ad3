-- ===== src/Config.antt =====
-- ceell/core/config_parser.c: the configuration of the node from flash.
-- The strings of Kconfig are a parameter, as is what the flash and the JSON library return; the first
-- parse of the buffer hands on the buffer that it leaves. The C function never fails: it falls back to
-- the defaults.
pub mod Services
pub mod Load
mod Tests
use ceell.Prelude.{
  ℕ, zero, suc, ◌+◌, Bool, true, false, ◌&&◌, Option, none, some, List, [], ◌∷◌, ◌++◌,
  if◌then◌else◌, ltb, leb, ◌==◌, length, get_or, set, take, replicate, drop,
}
use ceell.Prelude.Int.{ℤ, pos, negsuc, u16, u32, leb_ℤ}
use ceell.Errno.{Ret, ok, err}
use ceell.Bytes.{Bytes, cstr, strncpy, copy_str, copy_if}
use ceell.Csv.{comma, strchr, at_char, token_len, skip_comma}

abbrev pub config_max_services : ℕ
config_max_services = 4

-- `struct ceell_service_sla`
pub record ServiceSla : Type 0 where
  pub name : Bytes
  pub priority : ℕ
  pub deadline_ms : ℕ

-- `struct ceell_config`
pub record CeellConfig : Type 0 where
  pub version : ℕ
  pub node_id : ℕ
  pub role : Bytes
  pub name : Bytes
  pub ip : Bytes
  pub netmask : Bytes
  pub services : List Bytes
  pub service_count : ℕ
  pub from_flash : Bool
  pub service_slas : List ServiceSla

abbrev pub zero_name : Bytes
zero_name = replicate 32 0

abbrev pub zero_sla : ServiceSla
zero_sla = record { name = zero_name; priority = 0; deadline_ms = 0 }

-- After the `memset` at the start of `ceell_config_load`.
abbrev pub zero_config : CeellConfig
zero_config = record {
  version = 0;
  node_id = 0;
  role = replicate 32 0;
  name = replicate 64 0;
  ip = replicate 16 0;
  netmask = replicate 16 0;
  services = replicate 4 zero_name;
  service_count = 0;
  from_flash = false;
  service_slas = replicate 4 zero_sla;
}

-- `memcpy(dst, p, len); dst[len] = '\0';`
abbrev pub copy_token : Bytes → Bytes → ℕ → Bytes
copy_token dst p len = set (take len p ++ drop len dst) len 0

-- A token of the V1 text becomes the next service, with NORMAL priority and no deadline.
unfoldable pub add_v1 : CeellConfig → Bytes → ℕ → CeellConfig
add_v1 cfg p len =
    let idx = cfg.service_count in
    let name = copy_token (get_or cfg.services idx zero_name) p len in
    record cfg {
      services = set cfg.services idx name;
      service_slas = set cfg.service_slas idx (record {
        name = strncpy (get_or cfg.service_slas idx zero_sla).name name 31;
        priority = 1;
        deadline_ms = 0;
      });
      service_count = idx + 1;
    }

-- The loop over the tokens; the fuel bounds them, and `parse_services_csv` gives enough.
unfoldable pub csv_services : ℕ → Bytes → CeellConfig → CeellConfig
csv_services zero p cfg = cfg
csv_services (suc fuel) p cfg = elim (at_char p && ltb cfg.service_count config_max_services) [
  | false ↦ cfg
  | true ↦
      let found = strchr p comma in
      let len = token_len p found in
      let cfg' = if ltb 0 len && ltb len 32 then add_v1 cfg p len else cfg in
      elim found [ none ↦ cfg' | some rest ↦ csv_services fuel (skip_comma rest) cfg' ]
]

unfoldable pub parse_services_csv : CeellConfig → Option Bytes → CeellConfig
unfolding csv_services
parse_services_csv cfg none = record cfg { service_count = 0 }
parse_services_csv cfg (some csv) =
    csv_services (length csv + 1) csv (record cfg { service_count = 0 })

-- `struct json_svc_entry`
pub record JsonSvcEntry : Type 0 where
  pub name : Option Bytes
  pub priority : ℤ
  pub deadline_ms : ℤ

-- Priorities other than 0, 1 and 2 become NORMAL.
abbrev pub sla_priority : ℤ → ℕ
sla_priority (negsuc n) = 1
sla_priority (pos n) = if leb n 2 then n else 1

abbrev pub sla_deadline : ℤ → ℕ
sla_deadline (negsuc n) = 0
sla_deadline (pos n) = u16 (pos n)

unfoldable pub add_v2 : CeellConfig → Bytes → ℤ → ℤ → CeellConfig
add_v2 cfg name priority deadline_ms =
    let idx = cfg.service_count in
    record cfg {
      services = set cfg.services idx (copy_str 32 (get_or cfg.services idx zero_name) name);
      service_slas = set cfg.service_slas idx (record {
        name = copy_str 32 (get_or cfg.service_slas idx zero_sla).name name;
        priority = sla_priority priority;
        deadline_ms = sla_deadline deadline_ms;
      });
      service_count = idx + 1;
    }

-- An entry that has a name, and there is room for it.
abbrev pub add_entry : CeellConfig → JsonSvcEntry → CeellConfig
add_entry cfg entry = elim entry.name [
  | none ↦ cfg
  | some name ↦
      if at_char name && ltb cfg.service_count config_max_services
      then add_v2 cfg name entry.priority entry.deadline_ms
      else cfg
]

-- The loop of `parse_services_v2`; once there is no room the rest changes nothing.
unfoldable pub v2_services : List JsonSvcEntry → CeellConfig → CeellConfig
v2_services [] cfg = cfg
v2_services (e ∷ es) cfg = v2_services es (add_entry cfg e)

unfoldable pub parse_services_v2 : CeellConfig → List JsonSvcEntry → CeellConfig
unfolding v2_services
parse_services_v2 cfg entries = v2_services entries (record cfg { service_count = 0 })
