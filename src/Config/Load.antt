-- ===== src/Config/Load.antt =====
-- ceell/core/config_parser.c: reading the configuration, with its fallback to the defaults.
pub mod Formed
pub mod Valid
use ceell.Prelude.{
  ℕ, Bool, true, false, ◌&&◌, Option, none, some, List, [], ◌∷◌, if◌then◌else◌, leb, ◌==◌, set,
}
use ceell.Prelude.Int.{ℤ, pos, u32, leb_ℤ}
use ceell.Errno.{Ret, ok, err}
use ceell.Bytes.{Bytes, cstr, copy_str, copy_if}
use ceell.Config.{CeellConfig, zero_config, parse_services_csv, JsonSvcEntry, parse_services_v2}

-- The values of Kconfig.
pub record Defaults : Type 0 where
  pub node_id : ℕ
  pub role : Bytes
  pub name : Bytes
  pub ip : Bytes
  pub netmask : Bytes

unfoldable pub load_defaults : Defaults → CeellConfig → CeellConfig
load_defaults d cfg = record cfg {
  version = 0;
  node_id = d.node_id;
  role = copy_str 32 cfg.role d.role;
  name = copy_str 64 cfg.name d.name;
  ip = copy_str 16 cfg.ip d.ip;
  netmask = copy_str 16 cfg.netmask d.netmask;
  service_count = 0;
  from_flash = false;
}

unfoldable pub flash_is_empty : Bytes → Bool
flash_is_empty [] = true
flash_is_empty (b ∷ bs) = let rest = flash_is_empty bs in if b == 255 then rest else false

-- The fields that both formats have, as the parser gives them.
pub record JsonCommon : Type 0 where
  pub version : ℤ
  pub node_id : ℤ
  pub role : Option Bytes
  pub name : Option Bytes
  pub ip : Option Bytes
  pub netmask : Option Bytes

unfoldable pub copy_common_fields : CeellConfig → JsonCommon → CeellConfig
copy_common_fields cfg j = record cfg {
  version = u32 j.version;
  node_id = u32 j.node_id;
  from_flash = true;
  role = copy_if 32 cfg.role j.role;
  name = copy_if 64 cfg.name j.name;
  ip = copy_if 16 cfg.ip j.ip;
  netmask = copy_if 16 cfg.netmask j.netmask;
}

-- The JSON library's parsers for the version, and for the two formats.
pub record Parsers : Type 0 where
  pub version_only : Bytes → Option ℤ × Bytes
  pub config_v1 : Bytes → Option (JsonCommon × Option Bytes)
  pub config_v2 : Bytes → Option (JsonCommon × List JsonSvcEntry)

unfoldable pub load_v1 : Defaults → Option (JsonCommon × Option Bytes) → CeellConfig
load_v1 d none = load_defaults d zero_config
load_v1 d (some (j, services)) = parse_services_csv (copy_common_fields zero_config j) services

unfoldable pub load_v2 : Defaults → Option (JsonCommon × List JsonSvcEntry) → CeellConfig
load_v2 d none = load_defaults d zero_config
load_v2 d (some (j, entries)) = parse_services_v2 (copy_common_fields zero_config j) entries

-- From the label `parse_json` on.
unfoldable pub parse_json : Defaults → Parsers → Bytes → CeellConfig
unfolding load_v1 load_v2
parse_json d ps read_buf =
    let (version, left) = ps.version_only (cstr (set read_buf 511 0)) in
    elim version [
      | none ↦ load_defaults d zero_config
      | some v ↦
          if leb_ℤ v (pos 2) && leb_ℤ (pos 2) v
          then load_v2 d (ps.config_v2 left)
          else if leb_ℤ v (pos 1) && leb_ℤ (pos 1) v
          then load_v1 d (ps.config_v1 left)
          else load_defaults d zero_config
    ]

-- What the flash holds: the result of opening it, of reading it, the bytes read, and the bytes that are
-- mapped to memory.
pub record Flash : Type 0 where
  pub opened : Ret
  pub read : Ret
  pub read_buf : Bytes
  pub mapped : Bytes

unfoldable pub load_from : Defaults → Parsers → Bytes → CeellConfig
load_from d ps buf =
    let parsed = parse_json d ps buf in
    if flash_is_empty buf then load_defaults d zero_config else parsed

unfoldable pub config_load : Defaults → Parsers → Flash → CeellConfig
unfolding load_from
config_load d ps f = elim f.opened [
  | err e ↦ load_from d ps f.mapped
  | ok ↦ elim f.read [ err e ↦ load_defaults d zero_config | ok ↦ load_from d ps f.read_buf ]
]
