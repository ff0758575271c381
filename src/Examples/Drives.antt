-- ===== src/Examples/Drives.antt =====
-- A drive whose current caching policy is page 8 after page 1, and that reports pointers.
use picdplayer.Outcome.{returned}
use picdplayer.Prelude.{
  ℕ, ◌≡◌, refl, sym, if◌then◌else◌, if-both, length, ◌==◌, arith, List, [], ◌∷◌, ◌++◌, ℤ, pos,
  replicate, drop, codes,
}
use picdplayer.Capabilities.{DriveCapabilities, unknown_capabilities, response_bytes}
use picdplayer.Capabilities.ModePage
use picdplayer.Capabilities.ModePage.Bounds
use picdplayer.Capabilities.Feature
use picdplayer.Capabilities.Feature.Encode
use picdplayer.Capabilities.Probe
use picdplayer.Capabilities.Probe.Report
use picdplayer.Capabilities.Probe.Steps
use picdplayer.Capabilities.Probe.Reported

abbrev drive : DriveCapabilities
drive = unknown_capabilities (codes "/dev/sr0")

abbrev some_text : ℤ → List ℕ
some_text e = codes "Input/output error"

-- Twelve bytes follow the length field: the rest of the header, page 1 of no byte, page 8 of three.
abbrev caching : List ℕ
caching = 0 ∷ 13 ∷ 0 ∷ 0 ∷ 0 ∷ 0 ∷ 0 ∷ 0 ∷ 1 ∷ 0 ∷ 8 ∷ 3 ∷ 1 ∷ 0 ∷ 0 ∷ []

abbrev mode_transport : List ℕ → List ℕ → ℤ × List ℕ × ℕ
mode_transport command buffer = (pos 0, caching ++ drop 15 buffer, 15)

read_mode_page-PagePost_example :
    Bounds.PagePost 8 (ModePage.read_mode_page some_text mode_transport 8)
read_mode_page-PagePost_example =
    Bounds.read_mode_page-PagePost some_text mode_transport 8 (λ e. refl)

abbrev features : List Encode.Feature
features =
    record { high = 0; low = 0; version = 3; payload = 0 ∷ 8 ∷ 1 ∷ 0 ∷ [] }
    ∷ record { high = 0; low = 30; version = 5; payload = 2 ∷ 0 ∷ 0 ∷ 0 ∷ [] }
    ∷ []

parse_features-encode_example :
    Feature.parse_features drive
      (0 ∷ 0 ∷ 0 ∷ 20 ∷ 0 ∷ 0 ∷ 0 ∷ 8 ∷ (Encode.encode features ++ replicate 488 0))
    ≡ returned (Encode.report drive features)
parse_features-encode_example =
    Encode.parse_features-encode 0 0 0 20 0 0 0 8 features (replicate 488 0) drive refl

abbrev response : List ℕ
response = 0 ∷ 0 ∷ 0 ∷ 20 ∷ 0 ∷ 0 ∷ 0 ∷ 8 ∷ (Encode.encode features ++ replicate 488 0)

-- It fills a buffer of the response's length.
abbrev packet_transport : List ℕ → List ℕ → ℤ × List ℕ
packet_transport command buffer = (pos 0, if length buffer == 512 then response else buffer)

packet_transport-length :
    (command buffer : List ℕ) → length (packet_transport command buffer).1 ≡ length buffer
packet_transport-length command buffer =
    if-both (λ (xs : List ℕ). length xs ≡ length buffer) (length buffer == 512)
      (λ whole. let size : length buffer ≡ 512 = ground (arith, whole) in sym size) (λ _. refl)

probe_drive_capabilities-Reported_example :
    (audio : ModePage.ModePageResult) × (cache : ModePage.ModePageResult) × (ModePage.read_mode_page
        some_text mode_transport 42
      ≡ returned audio)
    × (ModePage.read_mode_page some_text mode_transport 8 ≡ returned cache)
    × Steps.Ends
        (Report.Reports
          (packet_transport Feature.get_configuration (replicate response_bytes 0))
          audio
          cache
          drive)
        (Probe.probe_drive_capabilities some_text some_text packet_transport mode_transport drive)
probe_drive_capabilities-Reported_example =
    Reported.probe_drive_capabilities-Reported some_text some_text packet_transport mode_transport
      drive (λ e. refl) (λ e. refl) packet_transport-length
