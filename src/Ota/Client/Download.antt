-- ===== src/Ota/Client/Download.antt =====
-- What reaches the manifest buffer and the flash, in whatever fragments the server sends it.
use ceell.Prelude.{
  ℕ, ◌%◌, ◌^◌, ◌<◌, ◌≤◌, ◌≡◌, refl, true, false, Option, List, [], ◌∷◌, ◌++◌, arith, length,
  length-append, append_assoc, append-nil, if◌then◌else◌, ltb, inl, inr, ◌⊎◌,
}
use ceell.Prelude.Int.{ℤ, pos, negsuc, ◌<ℤ◌, ◌≤ℤ◌}
use ceell.Errno.{ok, enobufs}
use ceell.Bytes.{Bytes}
use ceell.Ota.Client.{
  Manifest, ManifestBuf, manifest_cb, manifest_all, failure, parsed_manifest, fetch_manifest, Part,
  Stream, firmware_cb, firmware_all, Device, starts_slash, fresh_stream, end_download, after_open,
  download_firmware,
}

pub concat : List Bytes → Bytes
concat [] = []
concat (f ∷ fs) = f ++ concat fs

-- What a buffer that holds `text` has become, after `more` arrived.
abbrev Grown : Bytes → ManifestBuf → Type 0
Grown text s =
    ((s.manifest_truncated ≡ true) × (511 < length text))
    ⊎ ((s.manifest_truncated ≡ false) × (s.manifest_buf ≡ text) × (length text ≤ 511))

manifest_cb-Grown :
    (text frag : Bytes) (s : ManifestBuf) → Grown text s → Grown (text ++ frag) (manifest_cb s frag)
unfolding manifest_cb
manifest_cb-Grown text frag s (inl h) = rw h.0 (ground (arith, length-append text frag))
manifest_cb-Grown text [] s (inr h) = rw append-nil (inr h)
manifest_cb-Grown text (c ∷ cs) s (inr h) =
    ground (arith, h.0, h.1, h.2, length-append text (c ∷ cs))

manifest_all-Grown :
    (text : Bytes) (fs : List Bytes) (s : ManifestBuf)
    → Grown text s
    → Grown (text ++ concat fs) (manifest_all s fs)
unfolding manifest_all concat
manifest_all-Grown text [] s h = rw append-nil h
manifest_all-Grown text (f ∷ fs) s h =
    rw (append_assoc text f (concat fs)) at
      (manifest_all-Grown (text ++ f) fs (manifest_cb s f) (manifest_cb-Grown text f s h))

-- Where the server is reached and the request succeeds, the manifest that is parsed is the whole body if
-- it has at most 511 bytes, in however many fragments it came, and a longer one is refused.
pub fetch_manifest_lem :
    (frags : List Bytes) (parse : Bytes → Option Manifest)
    → fetch_manifest ok frags ok parse ≡ (
        if ltb 511 (length (concat frags))
        then failure enobufs
        else parsed_manifest (parse (concat frags)))
unfolding fetch_manifest
fetch_manifest_lem frags parse =
    done (manifest_all start frags)
      (manifest_all-Grown [] frags start (inr (refl, refl, omega arith)))
  where
    start : ManifestBuf
    start = record { manifest_buf = []; manifest_truncated = false }

    done :
        (s : ManifestBuf)
        → Grown (concat frags) s
        → (if s.manifest_truncated then failure enobufs else parsed_manifest (parse s.manifest_buf))
          ≡ (if ltb 511 (length (concat frags))
              then failure enobufs
              else parsed_manifest (parse (concat frags)))
    done s (inl h) = ground (arith, h.0, h.1)
    done s (inr h) = ground (arith, h.0, h.1, h.2)

abbrev pub body : List Part → Bytes
body [] = []
body (p ∷ ps) = p.body_frag ++ body ps

-- An active stream has taken all that arrived, and counted it.
abbrev Took : Bytes → Stream → Type 0
Took text s = (s.stored ≡ text) × (s.firmware_downloaded ≡ length text % 2 ^ 32)

append_empty : (text frag : Bytes) → ltb 0 (length frag) ≡ false → text ++ frag ≡ text
append_empty text [] h = append-nil text
append_empty text (c ∷ cs) h = ground arith

-- A call that leaves the stream active found it active, and took the whole fragment.
firmware_cb-Took :
    (text : Bytes) (s : Stream) (p : Part)
    → (firmware_cb s p).stream_active ≡ true
    → (s.stream_active ≡ true) × (Took text s → Took (text ++ p.body_frag) (firmware_cb s p))
unfolding firmware_cb
firmware_cb-Took text s p h = (
  ground arith,
  λ t. ground (arith, t.0, t.1, append_empty text p.body_frag, length-append text p.body_frag),
)

firmware_all-Took :
    (text : Bytes) (ps : List Part) (s : Stream)
    → (firmware_all s ps).stream_active ≡ true
    → (s.stream_active ≡ true) × (Took text s → Took (text ++ body ps) (firmware_all s ps))
unfolding firmware_all
firmware_all-Took text [] s h = (h, λ t. rw append-nil t)
firmware_all-Took text (p ∷ ps) s h =
    let ih = firmware_all-Took (text ++ p.body_frag) ps (firmware_cb s p) h in
    let one = firmware_cb-Took text s p ih.0 in
    (one.0, λ t. rw (append_assoc text p.body_frag (body ps)) at (ih.1 (one.1 t)))

sizes :
    (expected_size : ℤ) (s : Stream) {n : ℕ}
    → end_download ok expected_size s ≡ ok
    → s.stream_active ≡ true
    → s.firmware_downloaded ≡ n % 2 ^ 32
    → n < 2 ^ 32
    → expected_size <ℤ pos (2 ^ 31)
    → (expected_size ≤ℤ pos 0) ⊎ (expected_size ≡ pos n)
unfolding end_download
sizes (negsuc m) s e a c small fits = inl (omega arith)
sizes (pos m) s e a c small fits = ground (arith, e, a, c)

after_open_lem :
    (d : Device) (expected_size : ℤ) (s : Stream)
    → (after_open d expected_size s).0 ≡ ok
    → length (body d.parts) < 2 ^ 32
    → expected_size <ℤ pos (2 ^ 31)
    → ((after_open d expected_size s).1.stored ≡ body d.parts)
      × ((expected_size ≤ℤ pos 0) ⊎ (expected_size ≡ pos (length (body d.parts))))
unfolding after_open end_download
after_open_lem d expected_size s e small fits =
    let erased : d.erased ≡ ok = ground (arith, e) in
    let started : d.started ≡ ok = ground (arith, e, erased) in
    let connected : d.connected ≡ ok = ground (arith, e, erased, started) in
    let http : d.http ≡ ok = ground (arith, e, erased, started, connected) in
    let s' = firmware_all fresh_stream d.parts in
    let e' : end_download ok expected_size s' ≡ ok = rw (erased, started, connected, http) at e in
    let active : s'.stream_active ≡ true = ground (arith, e') in
    let took = (firmware_all-Took [] d.parts fresh_stream active).1 (refl, omega arith) in
    let ends : (after_open d expected_size s).1 ≡ s' = ground (arith, erased, started, connected) in
    (rw ends took.0, sizes expected_size s' e' active took.1 small fits)

-- A download that returns 0 came from an absolute path, and the stream took the whole body of the
-- response, in order; if the manifest gives a positive size, the body has that size.
pub download_firmware_lem :
    (d : Device) (url : Option Bytes) (expected_size : ℤ) (s : Stream)
    → (download_firmware d url expected_size s).0 ≡ ok
    → length (body d.parts) < 2 ^ 32
    → expected_size <ℤ pos (2 ^ 31)
    → (starts_slash url ≡ true)
      × ((download_firmware d url expected_size s).1.stored ≡ body d.parts)
      × ((expected_size ≤ℤ pos 0) ⊎ (expected_size ≡ pos (length (body d.parts))))
unfolding download_firmware
download_firmware_lem d url expected_size s e small fits =
    let slash : starts_slash url ≡ true = ground (arith, e) in
    let opened : d.opened ≡ ok = ground (arith, e, slash) in
    let at_flash : download_firmware d url expected_size s ≡ after_open d expected_size s =
      ground (arith, slash, opened) in
    let got = after_open_lem d expected_size s (rw at_flash at e) small fits in
    (slash, rw at_flash got.0, got.1)
