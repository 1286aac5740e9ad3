-- ===== src/Ota/Client/Cycle/Course.antt =====
-- The course of a check cycle: which states follow each other, and when it leads to a reboot.
use ceell.Prelude.{
  ℕ, ◌≡◌, refl, Bool, true, false, not, ◌&&◌, ◌||◌, Option, none, some, List, [], ◌∷◌, Bool-cases,
  Option-cases, inl, inr, ◌⊎◌, replicate,
}
use ceell.Prelude.Int.{pos, leb_ℤ}
use ceell.Errno.{Ret, ok, err, failed}
use ceell.Bytes.{Bytes, copy_str}
use ceell.Ota.Version.{OtaVer, ver_parse, ver_cmp}
use ceell.Ota.Client.{
  OtaState, idle, checking, downloading, validating, marking, rebooting, error, Manifest, Fetched,
  failure, manifest, Device, Stream, download_firmware,
}
use ceell.Ota.Client.Cycle.{
  OtaEvent, set_state, confirm_image, request_upgrade, reboot, CheckEnd, returns, faults, Boot,
  mark_image, confirm_and_mark, install, update_from, check_manifest, ota_check_and_update,
}

-- The steps of the state machine.
pub data Step : OtaState → OtaState → Type 0 where
  check : Step idle checking
  check_again : Step error checking
  give_up : Step checking idle
  found : Step checking downloading
  loaded : Step downloading validating
  confirmed : Step validating marking
  marked : Step marking rebooting
  download_failed : Step downloading error
  confirm_failed : Step validating error
  mark_failed : Step marking error

-- The states that are set go by steps from the state `a`, and end in `z`.
abbrev pub Course : OtaState → List OtaEvent → OtaState → Type 0
Course a [] z = a ≡ z
Course a (set_state b ∷ es) z = Step a b × Course b es z
Course a (confirm_image ∷ es) z = Course a es z
Course a (request_upgrade ∷ es) z = Course a es z
Course a (reboot ∷ es) z = Course a es z

-- The state in which a cycle leaves the client.
abbrev pub Rests : OtaState → CheckEnd → Type 0
Rests z (returns ok) = (z ≡ idle) ⊎ (z ≡ rebooting)
Rests z (returns (err e)) = (z ≡ idle) ⊎ (z ≡ error)
Rests z faults = z ≡ checking

-- The node is told to reboot.
unfoldable pub reboots : List OtaEvent → Bool
reboots [] = false
reboots (reboot ∷ es) = true
reboots (set_state a ∷ es) = reboots es
reboots (confirm_image ∷ es) = reboots es
reboots (request_upgrade ∷ es) = reboots es

abbrev pub is_rebooting : OtaState → Bool
is_rebooting rebooting = true
is_rebooting idle = false
is_rebooting checking = false
is_rebooting downloading = false
is_rebooting validating = false
is_rebooting marking = false
is_rebooting error = false

abbrev Runs : OtaState → List OtaEvent → CheckEnd → Type 0
Runs a es end = (z : OtaState) × Course a es z × Rests z end × (reboots es ≡ is_rebooting z)

Runs-mark_image : (m : Ret) → Runs validating (mark_image m).0 (mark_image m).1
unfolding mark_image reboots
Runs-mark_image ok = (rebooting, (confirmed, (marked, refl)), inr refl, refl)
Runs-mark_image (err e) = (error, (confirmed, (mark_failed, refl)), inr refl, refl)

Runs-install : (ret : Ret) (b : Boot) → Runs checking (install ret b).0 (install ret b).1
unfolding install confirm_and_mark reboots
Runs-install (err e) b = (error, (found, (download_failed, refl)), inr refl, refl)
Runs-install ok b = go b.is_confirmed b.confirmed
  where
    go :
        (c : Bool) (r : Ret)
        → let (es, end) = confirm_and_mark c r b.marked in
          Runs checking (set_state downloading ∷ es) end
    go true r = let (z, c, q, r) = Runs-mark_image b.marked in (z, (found, (loaded, c)), q, r)
    go false ok = let (z, c, q, r) = Runs-mark_image b.marked in (z, (found, (loaded, c)), q, r)
    go false (err e) = (error, (found, (loaded, (confirm_failed, refl))), inr refl, refl)

starts : (a : OtaState) → (a ≡ idle) ⊎ (a ≡ error) → Step a checking
starts a (inl e) = rw e check
starts a (inr e) = rw e check_again

module _ (ulong_max : ℕ) (current : OtaVer) (d : Device) (s : Stream) (b : Boot) where
  Runs-check_manifest :
      (m : Manifest)
      → let (es, end, s') = check_manifest ulong_max current m d s b in Runs checking es end
  unfolding check_manifest reboots
  Runs-check_manifest m = elim (Option-cases (ver_parse ulong_max m.version)) [
    | inl e ↦ rw (e, check_manifest) (idle, (give_up, refl), inl refl, refl)
    | inr (v, e) ↦ elim (Bool-cases (leb_ℤ (ver_cmp v current) (pos 0))) [
      | inl old ↦ rw (e, old, check_manifest) (idle, (give_up, refl), inl refl, refl)
      | inr new ↦ rw (e, new, check_manifest) (updated m.url)
    ]
  ]
    where
      updated :
          (url : Option Bytes)
          → let (es, end, s') = update_from url m.size d s b in Runs checking es end
      updated none = unfold update_from in (checking, refl, refl, refl)
      updated (some url) =
          unfold update_from in
          (Runs-install (download_firmware d (some (copy_str 128 (replicate 128 0) url)) m.size s).0
            b)

  -- A check cycle from the state IDLE or ERROR moves by the steps of the state machine, and a cycle that
  -- returns ends in IDLE or REBOOTING with 0, and in IDLE or ERROR with an error code. The node is told to
  -- reboot exactly if the cycle ends in REBOOTING.
  pub ota_check_and_update-Course :
      (fetched : Fetched) (a : OtaState)
      → (a ≡ idle) ⊎ (a ≡ error)
      → let (es, end, s') = ota_check_and_update ulong_max current fetched d s b in
        (z : OtaState) × Course a es z × Rests z end × (reboots es ≡ is_rebooting z)
  unfolding ota_check_and_update reboots
  ota_check_and_update-Course (failure e) a h =
      (idle, (starts a h, (give_up, refl)), inl refl, refl)
  ota_check_and_update-Course (manifest m) a h =
      let (z, c, q, r) = Runs-check_manifest m in (z, (starts a h, c), q, r)

-- The running image is confirmed, or can be, and the new one can be marked.
abbrev pub can_swap : Boot → Bool
can_swap b = (b.is_confirmed || not (failed b.confirmed)) && not (failed b.marked)

abbrev pub is_newer : OtaVer → Option OtaVer → Bool
is_newer current none = false
is_newer current (some v) = not (leb_ℤ (ver_cmp v current) (pos 0))

reboots-install :
    (ret : Ret) (b : Boot) → reboots (install ret b).0 ≡ (not (failed ret) && can_swap b)
unfolding install confirm_and_mark mark_image reboots
reboots-install (err e) b = refl
reboots-install ok b = go b.is_confirmed b.confirmed b.marked
  where
    go :
        (c : Bool) (r m : Ret)
        → reboots (set_state downloading ∷ (confirm_and_mark c r m).0)
          ≡ ((c || not (failed r)) && not (failed m))
    go true r ok = refl
    go true r (err e) = refl
    go false ok ok = refl
    go false ok (err e) = refl
    go false (err e) m = refl

module _ (d : Device) (s : Stream) where
  -- The download of the url that a manifest gives, as far as 127 bytes hold it, succeeds.
  abbrev pub downloads : Manifest → Bool
  downloads m = elim m.url [
    | none ↦ false
    | some url ↦
        not (failed (download_firmware d (some (copy_str 128 (replicate 128 0) url)) m.size s).0)
  ]

module _ (ulong_max : ℕ) (current : OtaVer) (d : Device) (s : Stream) (b : Boot) where
  reboots-update_from :
      (url : Option Bytes) (m : Manifest)
      → m.url ≡ url
      → reboots (update_from url m.size d s b).0 ≡ (downloads d s m && can_swap b)
  unfolding update_from reboots
  reboots-update_from none m e = rw e refl
  reboots-update_from (some url) m e = rw e (
      reboots-install (download_firmware d (some (copy_str 128 (replicate 128 0) url)) m.size s).0
        b)

  -- A check cycle with a manifest reboots the node exactly if the manifest's version is newer than the
  -- running one, the download succeeds, the running image is confirmed or can be, and the new one can be
  -- marked.
  pub reboots-ota_check_and_update :
      (m : Manifest)
      → reboots (ota_check_and_update ulong_max current (manifest m) d s b).0
        ≡ (is_newer current (ver_parse ulong_max m.version) && (downloads d s m && can_swap b))
  unfolding ota_check_and_update reboots
  reboots-ota_check_and_update m = elim (Option-cases (ver_parse ulong_max m.version)) [
    | inl e ↦ rw (e, check_manifest) refl
    | inr (v, e) ↦ elim (Bool-cases (leb_ℤ (ver_cmp v current) (pos 0))) [
      | inl old ↦ rw (e, old, check_manifest) refl
      | inr new ↦ rw (e, new, check_manifest) (reboots-update_from m.url m refl)
    ]
  ]
