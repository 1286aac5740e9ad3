-- ===== src/Ota/Client/Cycle.antt =====
-- ceell/ota/ota_client.c: the check cycle as what it does in order, the service handler and the thread.
pub mod Course
use ceell.Prelude.{
  ℕ, suc, ◌+◌, ◌-◌, ◌*◌, Bool, true, false, Option, none, some, List, [], ◌∷◌, ◌++◌, if◌then◌else◌,
  ltb, leb, ◌==◌, length, take, replicate,
}
use ceell.Prelude.Int.{ℤ, pos, leb_ℤ}
use ceell.Errno.{Ret, Errno, ok, err, einval, failed}
use ceell.Bytes.{Bytes, copy_str, str_eq, bytes_eq, cstr}
use ceell.Ota.Version.{OtaVer, ver_parse, ver_cmp, ver_to_str}
use ceell.Ota.Client.{
  OtaState, idle, checking, downloading, validating, marking, rebooting, error, ota_state_str,
  Manifest, Fetched, failure, manifest, Device, Stream, download_firmware,
}

pub data OtaEvent : Type 0 where
  set_state : OtaState → OtaEvent
  confirm_image : OtaEvent
  request_upgrade : OtaEvent
  reboot : OtaEvent

-- How the cycle ends: it returns, or it reads through the NULL url of the manifest.
pub data CheckEnd : Type 0 where
  returns : Ret → CheckEnd
  faults : CheckEnd

-- The boot loader: whether the running image is confirmed, and what confirming it and marking the new
-- one return.
pub record Boot : Type 0 where
  pub is_confirmed : Bool
  pub confirmed : Ret
  pub marked : Ret

unfoldable pub mark_image : Ret → List OtaEvent × CheckEnd
mark_image (err e) = (set_state marking ∷ request_upgrade ∷ set_state error ∷ [], returns (err e))
mark_image ok =
    (set_state marking ∷ request_upgrade ∷ set_state rebooting ∷ reboot ∷ [], returns ok)

unfoldable pub confirm_and_mark : Bool → Ret → Ret → List OtaEvent × CheckEnd
unfolding mark_image
confirm_and_mark true confirmed marked =
    let (es, end) = mark_image marked in (set_state validating ∷ es, end)
confirm_and_mark false ok marked =
    let (es, end) = mark_image marked in (set_state validating ∷ confirm_image ∷ es, end)
confirm_and_mark false (err e) marked =
    (set_state validating ∷ confirm_image ∷ set_state error ∷ [], returns (err e))

-- The cycle from the state DOWNLOADING on, with what the download returned.
unfoldable pub install : Ret → Boot → List OtaEvent × CheckEnd
unfolding confirm_and_mark
install (err e) b = (set_state downloading ∷ set_state error ∷ [], returns (err e))
install ok b =
    let (es, end) = confirm_and_mark b.is_confirmed b.confirmed b.marked in
    (set_state downloading ∷ es, end)

-- The url is copied to an array of 128 bytes first.
unfoldable pub update_from :
    Option Bytes → ℤ → Device → Stream → Boot → List OtaEvent × CheckEnd × Stream
unfolding install
update_from none size d s b = ([], faults, s)
update_from (some url) size d s b =
    let (ret, s') = download_firmware d (some (copy_str 128 (replicate 128 0) url)) size s in
    let (es, end) = install ret b in (es, end, s')

-- The cycle after the state CHECKING is set and the manifest is there.
unfoldable pub check_manifest :
    ℕ → OtaVer → Manifest → Device → Stream → Boot → List OtaEvent × CheckEnd × Stream
check_manifest ulong_max current m d s b = elim (ver_parse ulong_max m.version) [
  | none ↦ (set_state idle ∷ [], returns (err einval), s)
  | some remote ↦
      let update = update_from m.url m.size d s b in
      if leb_ℤ (ver_cmp remote current) (pos 0)
      then (set_state idle ∷ [], returns ok, s)
      else update
]

unfoldable pub ota_check_and_update :
    ℕ → OtaVer → Fetched → Device → Stream → Boot → List OtaEvent × CheckEnd × Stream
unfolding check_manifest
ota_check_and_update ulong_max current (failure e) d s b =
    (set_state checking ∷ set_state idle ∷ [], returns (err e), s)
ota_check_and_update ulong_max current (manifest m) d s b =
    let (es, end, s') = check_manifest ulong_max current m d s b in
    (set_state checking ∷ es, end, s')

-- `snprintf(buf, len, "%s", text)`
abbrev pub printed : ℕ → Bytes → Bytes
printed len text = take (len - 1) text

abbrev pub status_command : Bytes
status_command = b's' ∷ b't' ∷ b'a' ∷ b't' ∷ b'u' ∷ b's' ∷ []

abbrev pub version_command : Bytes
version_command = b'v' ∷ b'e' ∷ b'r' ∷ b's' ∷ b'i' ∷ b'o' ∷ b'n' ∷ []

abbrev pub check_command : Bytes
check_command = b'c' ∷ b'h' ∷ b'e' ∷ b'c' ∷ b'k' ∷ []

abbrev pub triggered_text : Bytes
triggered_text = b't' ∷ b'r' ∷ b'i' ∷ b'g' ∷ b'g' ∷ b'e' ∷ b'r' ∷ b'e' ∷ b'd' ∷ []

abbrev pub unknown_text : Bytes
unknown_text =
    b'u' ∷ b'n' ∷ b'k' ∷ b'n' ∷ b'o' ∷ b'w' ∷ b'n' ∷ b' ' ∷ b'c' ∷ b'o' ∷ b'm' ∷ b'm' ∷ b'a' ∷ b'n'
    ∷ b'd' ∷ []

-- The status, the text of the response, and whether a check is triggered.
unfoldable pub ota_service_handler : OtaState → OtaVer → Bytes → ℕ → Ret × Bytes × Bool
ota_service_handler state current payload rsp_len =
    if str_eq payload status_command
    then (ok, printed rsp_len (ota_state_str state), false)
    else if str_eq payload version_command
    then (ok, (ver_to_str current rsp_len).1, false)
    else if str_eq payload check_command
    then (ok, printed rsp_len triggered_text, true)
    else (err einval, printed rsp_len unknown_text, false)

-- A round of the thread after its check: the failures in a row, and the seconds that it sleeps. The product
-- is an `int` in C, and fits it while the failures in a row are fewer than 2 ^ 31 / interval_sec.
unfoldable pub ota_round : ℕ → ℕ → Ret → ℕ × ℕ
ota_round interval_sec fail_count ok = (0, 0)
ota_round interval_sec fail_count (err e) =
    let backoff = (fail_count + 1) * interval_sec in
    (fail_count + 1, if ltb 3600 backoff then 3600 else backoff)

-- `auto_confirm` is `CONFIG_CEELL_OTA_AUTO_CONFIRM`. The result, and whether the image is confirmed now.
unfoldable pub ota_init : Bool → Boot → Ret × Bool
ota_init false b = (ok, false)
ota_init true b =
    if b.is_confirmed
    then (ok, false)
    else elim b.confirmed [ err e ↦ (err e, true) | ok ↦ (ok, true) ]
