-- ===== src/Config/Tests.antt =====
-- Runs of ceell/core/config_parser.c from an empty configuration.
use ceell.Prelude.{◌≡◌, refl, none, some, List, [], ◌∷◌, arith, take, map, replicate}
use ceell.Prelude.Int.{pos, negsuc}
use ceell.Errno.{ok, err, enodev}
use ceell.Bytes.{Bytes}
use ceell.Csv.{join}
use ceell.Csv.Join.{IsPlain}
use ceell.Config.{zero_config, JsonSvcEntry, parse_services_csv, parse_services_v2}
use ceell.Config.Services.{names, slas, IsValid}
use ceell.Config.Services.V1.{short, by_default, parse_services_csv-join}
use ceell.Config.Services.V2.{entries_of, name_of, parse_services_v2_lem}
use ceell.Config.Load.{Defaults, JsonCommon, Parsers, Flash, config_load}
use ceell.Config.Load.Formed.{IsFormed}
use ceell.Config.Load.Valid.{config_load-IsFormed}

abbrev body : Bytes
body = b'b' ∷ b'o' ∷ b'd' ∷ b'y' ∷ []

abbrev door : Bytes
door = b'd' ∷ b'o' ∷ b'o' ∷ b'r' ∷ []

zero_config-IsValid : IsValid zero_config
zero_config-IsValid = record {
  size = refl;
  sla_size = refl;
  fits = (refl, (refl, (refl, (refl, tt))));
  sla_fits = ((refl, refl), ((refl, refl), ((refl, refl), ((refl, refl), tt))));
  count_in = omega arith;
}

IsPlain-body : IsPlain body
IsPlain-body = ground arith

IsPlain-door : IsPlain door
IsPlain-door = ground arith

parse_services_csv-join_example :
    let cfg' = parse_services_csv zero_config (some (join (body ∷ door ∷ []))) in
    (names cfg' ≡ take 4 (short (body ∷ door ∷ [])))
    × (slas cfg' ≡ take 4 (map by_default (short (body ∷ door ∷ []))))
    × IsValid cfg'
parse_services_csv-join_example =
    parse_services_csv-join zero_config (body ∷ door ∷ []) zero_config-IsValid
      (IsPlain-body, (IsPlain-door, tt))

abbrev entries : List JsonSvcEntry
entries =
    record { name = some body; priority = pos 0; deadline_ms = pos 50 }
    ∷ record { name = none; priority = pos 1; deadline_ms = pos 0 }
    ∷ record { name = some door; priority = pos 7; deadline_ms = negsuc 0 }
    ∷ []

parse_services_v2_lem_example :
    let cfg' = parse_services_v2 zero_config entries in
    (names cfg' ≡ take 4 (map name_of (entries_of entries)))
    × (slas cfg' ≡ take 4 (entries_of entries))
    × IsValid cfg'
parse_services_v2_lem_example = parse_services_v2_lem zero_config entries zero_config-IsValid

abbrev defaults : Defaults
defaults = record { node_id = 1; role = body; name = door; ip = door; netmask = door }

abbrev json : JsonCommon
json = record {
  version = pos 2;
  node_id = pos 3;
  role = some body;
  name = none;
  ip = some door;
  netmask = none;
}

abbrev parsers : Parsers
parsers = record {
  version_only = λ buf. (some (pos 2), buf);
  config_v1 = λ buf. none;
  config_v2 = λ buf. some (json, entries);
}

abbrev flash : Flash
flash = record { opened = err enodev; read = ok; read_buf = []; mapped = replicate 512 65 }

config_load-IsFormed_example : IsFormed (config_load defaults parsers flash)
config_load-IsFormed_example = config_load-IsFormed defaults parsers flash
