-- ===== src/Ota/Client.antt =====
-- ceell/ota/ota_client.c and ota_state.c: fetching the manifest, downloading the firmware, and the check
-- cycle. What the network, the flash and the boot loader return is an argument; `size_t` has 32 bits.
pub mod Download
pub mod Cycle
pub mod Thread
mod Tests
use ceell.Prelude.{
  ℕ, zero, suc, ◌+◌, ◌-◌, ◌*◌, ◌%◌, ◌^◌, Bool, true, false, not, ◌&&◌, Option, none, some, List, [],
  ◌∷◌, ◌++◌, if◌then◌else◌, ltb, leb, ◌==◌, length, take, replicate,
}
use ceell.Prelude.Int.{ℤ, pos, negsuc, ltb_ℤ, leb_ℤ, u32}
use ceell.Errno.{Ret, Errno, ok, err, einval, enobufs, eproto, eio, emsgsize}
use ceell.Bytes.{Bytes, copy_str, str_eq, bytes_eq, cstr}
use ceell.Ota.Version.{OtaVer, ver_parse, ver_cmp, ver_to_str}

-- `enum ceell_ota_state`
pub data OtaState : Type 0 where
  idle checking downloading validating marking rebooting error : OtaState

unfoldable pub ota_state_str : OtaState → Bytes
ota_state_str idle = b'i' ∷ b'd' ∷ b'l' ∷ b'e' ∷ []
ota_state_str checking = b'c' ∷ b'h' ∷ b'e' ∷ b'c' ∷ b'k' ∷ b'i' ∷ b'n' ∷ b'g' ∷ []
ota_state_str downloading =
    b'd' ∷ b'o' ∷ b'w' ∷ b'n' ∷ b'l' ∷ b'o' ∷ b'a' ∷ b'd' ∷ b'i' ∷ b'n' ∷ b'g' ∷ []
ota_state_str validating = b'v' ∷ b'a' ∷ b'l' ∷ b'i' ∷ b'd' ∷ b'a' ∷ b't' ∷ b'i' ∷ b'n' ∷ b'g' ∷ []
ota_state_str marking = b'm' ∷ b'a' ∷ b'r' ∷ b'k' ∷ b'i' ∷ b'n' ∷ b'g' ∷ []
ota_state_str rebooting = b'r' ∷ b'e' ∷ b'b' ∷ b'o' ∷ b'o' ∷ b't' ∷ b'i' ∷ b'n' ∷ b'g' ∷ []
ota_state_str error = b'e' ∷ b'r' ∷ b'r' ∷ b'o' ∷ b'r' ∷ []

-- `struct ota_manifest`
pub record Manifest : Type 0 where
  pub version : Option Bytes
  pub url : Option Bytes
  pub sha256 : Option Bytes
  pub size : ℤ

-- `connect_to_server`: whether the address is valid, and what the socket and the connection return.
unfoldable pub connect_to_server : Bool → Ret → Ret → Ret
connect_to_server false socket connect = err einval
connect_to_server true (err e) connect = err e
connect_to_server true ok connect = connect

-- The bytes of `manifest_buf` that are filled.
pub record ManifestBuf : Type 0 where
  pub manifest_buf : Bytes
  pub manifest_truncated : Bool

-- A body fragment; the buffer has 512 bytes, one of them for the NUL.
unfoldable pub manifest_cb : ManifestBuf → Bytes → ManifestBuf
manifest_cb s frag =
    if ltb 0 (length frag) && not s.manifest_truncated
    then if ltb (512 - 1 - length s.manifest_buf) (length frag)
      then record s { manifest_truncated = true }
      else record s { manifest_buf = s.manifest_buf ++ frag }
    else s

unfoldable pub manifest_all : ManifestBuf → List Bytes → ManifestBuf
manifest_all s [] = s
manifest_all s (f ∷ fs) = manifest_all (manifest_cb s f) fs

pub data Fetched : Type 0 where
  failure : Errno → Fetched
  manifest : Manifest → Fetched

pub parsed_manifest : Option Manifest → Fetched
parsed_manifest none = failure eproto
parsed_manifest (some m) = manifest m

-- The HTTP request calls back with the fragments and returns; `parse` is the JSON library's parser.
unfoldable pub fetch_manifest : Ret → List Bytes → Ret → (Bytes → Option Manifest) → Fetched
unfolding parsed_manifest
fetch_manifest (err e) frags http parse = failure e
fetch_manifest ok frags (err e) parse = failure e
fetch_manifest ok frags ok parse =
    let s = manifest_all (record { manifest_buf = []; manifest_truncated = false }) frags in
    if s.manifest_truncated then failure enobufs else parsed_manifest (parse s.manifest_buf)

-- A call of `firmware_cb`: the fragment, whether it is the last one, and what the stream returns to the
-- write and to the flush.
pub record Part : Type 0 where
  pub body_frag : Bytes
  pub final_data : Bool
  pub write : Ret
  pub flush : Ret

-- `stored` is what the stream took.
pub record Stream : Type 0 where
  pub stream_active : Bool
  pub firmware_downloaded : ℕ
  pub stored : Bytes

abbrev pub write_frag : Ret → Bytes → Stream → Stream
write_frag (err e) frag s = record s { stream_active = false }
write_frag ok frag s = record s {
  firmware_downloaded = (s.firmware_downloaded + length frag) % 2 ^ 32;
  stored = s.stored ++ frag;
}

abbrev pub flush_stream : Ret → Stream → Stream
flush_stream ok s = s
flush_stream (err e) s = record s { stream_active = false }

-- A failed write returns before the flush; so does the flush of a stream that is no longer active.
unfoldable pub firmware_cb : Stream → Part → Stream
firmware_cb s p =
    let s' =
      if ltb 0 (length p.body_frag) && s.stream_active
      then write_frag p.write p.body_frag s
      else s in
    if p.final_data && s'.stream_active then flush_stream p.flush s' else s'

unfoldable pub firmware_all : Stream → List Part → Stream
firmware_all s [] = s
firmware_all s (p ∷ ps) = firmware_all (firmware_cb s p) ps

-- What the flash and the network do for `download_firmware`.
pub record Device : Type 0 where
  pub opened : Ret
  pub erased : Ret
  pub started : Ret
  pub connected : Ret
  pub parts : List Part
  pub http : Ret

abbrev pub starts_slash : Option Bytes → Bool
starts_slash none = false
starts_slash (some []) = false
starts_slash (some (c ∷ cs)) = c == b'/'

abbrev pub fresh_stream : Stream
fresh_stream = record { stream_active = true; firmware_downloaded = 0; stored = [] }

-- After the request: its error, then that of the stream, then the size, if the manifest gives one.
unfoldable pub end_download : Ret → ℤ → Stream → Ret
end_download (err e) expected_size s = err e
end_download ok expected_size s =
    if s.stream_active
    then if ltb_ℤ (pos 0) expected_size && not (s.firmware_downloaded == u32 expected_size)
      then err emsgsize
      else ok
    else err eio

unfoldable pub after_open : Device → ℤ → Stream → Ret × Stream
unfolding end_download
after_open d expected_size s = elim d.erased [
  | err e ↦ (err e, s)
  | ok ↦ elim d.started [
    | err e ↦ (err e, s)
    | ok ↦ elim d.connected [
      | err e ↦ (err e, fresh_stream)
      | ok ↦
          let s' = firmware_all fresh_stream d.parts in (end_download d.http expected_size s', s')
    ]
  ]
]

-- `s` is the stream of the download before.
unfoldable pub download_firmware : Device → Option Bytes → ℤ → Stream → Ret × Stream
download_firmware d url expected_size s =
    if starts_slash url
    then elim d.opened [ err e ↦ (err e, s) | ok ↦ after_open d expected_size s ]
    else (err eproto, s)
