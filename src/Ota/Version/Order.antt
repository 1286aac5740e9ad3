-- ===== src/Ota/Version/Order.antt =====
-- The comparison of versions is that of their packed 32-bit numbers.
use ceell.Prelude.{ℕ, ◌+◌, ◌*◌, ◌^◌, ◌<◌, ◌≡◌, ◌↔◌, arith}
use ceell.Prelude.Int.{pos, ◌<ℤ◌}
use ceell.Ota.Version.{OtaVer, ver_cmp}

-- The ranges of `uint8_t`, `uint8_t` and `uint16_t`.
pub record IsVersion (v : OtaVer) : Type 0 where
  pub major_in : v.major < 2 ^ 8
  pub minor_in : v.minor < 2 ^ 8
  pub patch_in : v.patch < 2 ^ 16

abbrev pub packed : OtaVer → ℕ
packed v = v.major * 2 ^ 24 + v.minor * 2 ^ 16 + v.patch

-- `ceell_ota_ver_cmp` is negative exactly if the first version is the older one, and 0 exactly if the
-- two are equal: it is the order of the packed numbers, and so a total order.
pub ver_cmp_lem :
    (a b : OtaVer)
    → IsVersion a
    → IsVersion b
    → ((ver_cmp a b <ℤ pos 0) ↔ (packed a < packed b)) × ((ver_cmp a b ≡ pos 0) ↔ (a ≡ b))
unfolding ver_cmp
ver_cmp_lem a b va vb =
    ((λ h. ground arith, λ h. ground arith), (λ h. ground arith, λ h. ground arith))
