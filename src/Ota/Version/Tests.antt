-- ===== src/Ota/Version/Tests.antt =====
-- Runs of ceell/ota/ota_version.c at the version 1.20.300.
use ceell.Prelude.{◌≡◌, ◌<◌, ◌↔◌, refl, some, [], ◌∷◌, ◌++◌, arith}
use ceell.Prelude.Int.{pos, ◌<ℤ◌}
use ceell.Bytes.{Bytes}
use ceell.Ota.Version.{OtaVer, ver_parse, ver_cmp, ver_text}
use ceell.Ota.Version.Order.{IsVersion, packed, ver_cmp_lem}
use ceell.Ota.Version.Text.{ver_parse-ver_text}

abbrev v1 : OtaVer
v1 = record { major = 1; minor = 20; patch = 300 }

abbrev v2 : OtaVer
v2 = record { major = 1; minor = 21; patch = 0 }

v1-IsVersion : IsVersion v1
v1-IsVersion = record { major_in = omega arith; minor_in = omega arith; patch_in = omega arith }

v2-IsVersion : IsVersion v2
v2-IsVersion = record { major_in = omega arith; minor_in = omega arith; patch_in = omega arith }

ver_cmp_lem_example :
    ((ver_cmp v1 v2 <ℤ pos 0) ↔ (packed v1 < packed v2)) × ((ver_cmp v1 v2 ≡ pos 0) ↔ (v1 ≡ v2))
ver_cmp_lem_example = ver_cmp_lem v1 v2 v1-IsVersion v2-IsVersion

abbrev suffix : Bytes
suffix = b'-' ∷ b'r' ∷ b'c' ∷ 0 ∷ []

ver_parse-ver_text_example : ver_parse 4294967295 (some (ver_text v1 ++ suffix)) ≡ some v1
ver_parse-ver_text_example = ver_parse-ver_text 4294967295 v1 suffix v1-IsVersion (omega arith) refl
