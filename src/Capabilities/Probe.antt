-- ===== src/Capabilities/Probe.antt =====
-- src/drive_capabilities.cpp: the reports of the CD/DVD and caching pages, and the whole probe over
-- two transports. What sysfs says of the device is the capabilities that the probe starts from.
pub mod Report
pub mod Steps
pub mod Reported
use picdplayer.Assessment.{Knowledge}
use picdplayer.Outcome.{Outcome, returned, undefined, ◌>>=◌}
use picdplayer.Prelude.{
  ℕ, suc, ◌+◌, ◌*◌, Bool, true, false, not, ◌||◌, some, List, [], ◌∷◌, ◌++◌, ℤ, pos, if◌then◌else◌,
  ltb, ◌==◌, length, codes,
}
use picdplayer.Capabilities.{
  DriveCapabilities, CapabilityFlag, CapabilityEvidenceSource, byte, be16, has_bit,
}
use picdplayer.Capabilities.Feature.{reported, probe_c2_feature}
use picdplayer.Capabilities.ModePage.{ModePageResult, read_mode_page}
use picdplayer.Verifier.{is_nil}

abbrev pub with_detail : CapabilityFlag → List ℕ → CapabilityFlag
with_detail flag text = record flag { detail = text }

abbrev pub reason_or : ModePageResult → List ℕ → List ℕ
reason_or response text = if is_nil response.error then text else response.error

abbrev pub audio_unavailable : DriveCapabilities → List ℕ → DriveCapabilities
audio_unavailable result text = record result {
  digital_audio_extraction = with_detail result.digital_audio_extraction text;
  accurate_stream = with_detail result.accurate_stream text;
  current_speed_detail = text;
}

abbrev pub with_flags : DriveCapabilities → ℕ → DriveCapabilities
with_flags result flags = record result {
  digital_audio_extraction =
      reported (has_bit flags 1)
        (codes "MMC CD/DVD page CDDA_CS (digital commands, not Audio play)");
  accurate_stream =
      reported (has_bit flags 2)
        (codes "MMC CD/DVD page CDDA_SA (drive report, not measured continuity)");
}

abbrev pub speed_text : ℕ → List ℕ
speed_text rate =
    if rate == 0
    then codes "MMC current read speed reported zero; no physical speed inferred"
    else codes
        "MMC current read speed at capability probe, kB/s report; not spindle/throughput measurement or CD/DVD x"

abbrev pub with_speed : DriveCapabilities → ℕ → DriveCapabilities
with_speed result rate = record result {
  current_read_speed_kbytes_per_second = some rate;
  current_speed_source = CapabilityEvidenceSource.drive_reported;
  current_speed_detail = speed_text rate;
}

unfoldable pub audio_report : DriveCapabilities → ModePageResult → Outcome DriveCapabilities
audio_report result response =
    if not (is_nil response.error) || ltb (length response.page) 6
    then returned (
        audio_unavailable result (
          codes "MMC MODE SENSE(10) CD/DVD page: "
          ++ reason_or response (codes "CD/DVD flags not returned")))
    else byte response.page 5 >>= λ flags.
        if ltb (length response.page) 16
        then returned (record (with_flags result flags) {
          current_speed_detail = codes "MMC CD/DVD page current-read-speed field not returned";
        })
        else be16 response.page 14 >>= λ rate. returned (with_speed (with_flags result flags) rate)

unfoldable pub cache_report : DriveCapabilities → ModePageResult → Outcome DriveCapabilities
cache_report result response =
    if not (is_nil response.error) || ltb (length response.page) 3
    then returned (record result {
      read_cache = with_detail result.read_cache (
          codes "MMC MODE SENSE(10) caching page: "
          ++ reason_or response (codes "RCD field not returned"));
    })
    else byte response.page 2 >>= λ flags. returned (record result {
      read_cache = reported (not (has_bit flags 1)) (
          if has_bit flags 1
          then codes
              "Current caching policy RCD=1: reported disabled; not hardware-cache absence or read independence"
          else codes
              "Current caching policy RCD=0: reported enabled; not hardware-cache size or read independence");
    })

module _ (strerror error_text : ℤ → List ℕ) (packet_transport : List ℕ → List ℕ → ℤ × List ℕ)
    (mode_transport : List ℕ → List ℕ → ℤ × List ℕ × ℕ) where
  unfoldable pub probe_cd_audio_report : DriveCapabilities → Outcome DriveCapabilities
  unfolding audio_report
  probe_cd_audio_report result = read_mode_page strerror mode_transport 42 >>= audio_report result

  unfoldable pub probe_cache_report : DriveCapabilities → Outcome DriveCapabilities
  unfolding cache_report
  probe_cache_report result = read_mode_page strerror mode_transport 8 >>= cache_report result

  -- probe_drive_capabilities with both transports, from the identity on.
  unfoldable pub probe_drive_capabilities : DriveCapabilities → Outcome DriveCapabilities
  unfolding probe_cd_audio_report probe_cache_report
  probe_drive_capabilities identity =
      probe_c2_feature error_text packet_transport identity
      >>= probe_cd_audio_report
      >>= probe_cache_report
