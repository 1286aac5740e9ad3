-- ===== src/Ota/Client/Tests.antt =====
-- Runs of ceell/ota/ota_client.c with an update from 1.0.0 to 1.2.3.
use ceell.Prelude.{
  ◌≡◌, refl, true, false, ◌&&◌, Option, none, some, [], List, ◌∷◌, arith, length, inl, ◌⊎◌,
  if◌then◌else◌, ltb,
}
use ceell.Prelude.Int.{pos, ◌≤ℤ◌}
use ceell.Errno.{ok, enobufs}
use ceell.Bytes.{Bytes}
use ceell.Ota.Version.{OtaVer, ver_parse}
use ceell.Ota.Client.{
  OtaState, idle, Manifest, failure, manifest, parsed_manifest, fetch_manifest, Device,
  starts_slash, fresh_stream, download_firmware, end_download, after_open, firmware_all,
  firmware_cb,
}
use ceell.Ota.Client.Download.{concat, fetch_manifest_lem, body, download_firmware_lem}
use ceell.Ota.Client.Cycle.{Boot, ota_check_and_update}
use ceell.Ota.Client.Thread.{Attempt, ota_thread_entry}
use ceell.Ota.Client.Thread.Lifetime.{Lives, ota_thread_entry-Lives}
use ceell.Ota.Client.Cycle.Course.{
  Course, Rests, reboots, is_rebooting, is_newer, can_swap, downloads, ota_check_and_update-Course,
  reboots-ota_check_and_update,
}

abbrev image : Bytes
image = 1 ∷ 2 ∷ 3 ∷ []

abbrev device : Device
device = record {
  opened = ok;
  erased = ok;
  started = ok;
  connected = ok;
  parts = record { body_frag = image; final_data = true; write = ok; flush = ok } ∷ [];
  http = ok;
}

abbrev path : Bytes
path = b'/' ∷ b'f' ∷ b'w' ∷ 0 ∷ []

abbrev remote : Manifest
remote = record {
  version = some (b'1' ∷ b'.' ∷ b'2' ∷ b'.' ∷ b'3' ∷ 0 ∷ []);
  url = some path;
  sha256 = none;
  size = pos 3;
}

abbrev current : OtaVer
current = record { major = 1; minor = 0; patch = 0 }

abbrev boot : Boot
boot = record { is_confirmed = false; confirmed = ok; marked = ok }

abbrev read_nothing : Bytes → Option Manifest
read_nothing text = some remote

fetch_manifest_lem_example : fetch_manifest ok (image ∷ image ∷ []) ok read_nothing ≡ (
    if ltb 511 (length (concat (image ∷ image ∷ [])))
    then failure enobufs
    else parsed_manifest (read_nothing (concat (image ∷ image ∷ []))))
fetch_manifest_lem_example = fetch_manifest_lem (image ∷ image ∷ []) read_nothing

downloaded : (download_firmware device (some path) (pos 3) fresh_stream).0 ≡ ok
unfolding download_firmware after_open end_download firmware_all firmware_cb
downloaded = refl

download_firmware_lem_example :
    (starts_slash (some path) ≡ true)
    × ((download_firmware device (some path) (pos 3) fresh_stream).1.stored ≡ body device.parts)
    × ((pos 3 ≤ℤ pos 0) ⊎ (pos 3 ≡ pos (length (body device.parts))))
download_firmware_lem_example =
    download_firmware_lem device (some path) (pos 3) fresh_stream downloaded (omega arith)
      (omega arith)

ota_check_and_update-Course_example :
    let (es, end, s') =
      ota_check_and_update 4294967295 current (manifest remote) device fresh_stream boot in
    (z : OtaState) × Course idle es z × Rests z end × (reboots es ≡ is_rebooting z)
ota_check_and_update-Course_example =
    ota_check_and_update-Course 4294967295 current device fresh_stream boot (manifest remote) idle
      (inl refl)

reboots-ota_check_and_update_example :
    reboots (ota_check_and_update 4294967295 current (manifest remote) device fresh_stream boot).0
    ≡ (is_newer current (ver_parse 4294967295 remote.version)
        && (downloads device fresh_stream remote && can_swap boot))
reboots-ota_check_and_update_example =
    reboots-ota_check_and_update 4294967295 current device fresh_stream boot remote

-- A check without a server, then one that updates the node.
abbrev attempts : List Attempt
attempts =
    record { fetched = failure enobufs; device = device; boot = boot }
    ∷ record { fetched = manifest remote; device = device; boot = boot }
    ∷ []

ota_thread_entry-Lives_example :
    Lives 60 idle 0 (ota_thread_entry 4294967295 current 60 attempts 0 fresh_stream)
ota_thread_entry-Lives_example =
    ota_thread_entry-Lives 4294967295 current 60 attempts idle 0 fresh_stream (inl refl)
