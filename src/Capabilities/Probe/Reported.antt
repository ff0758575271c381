-- ===== src/Capabilities/Probe/Reported.antt =====
-- What the whole probe sets in the capabilities, by the drive's own answers.
use picdplayer.Outcome.{Outcome, returned, thrown, undefined, ◌>>=◌}
use picdplayer.Prelude.{ℕ, ◌≡◌, refl, false, List, ℤ, length, replicate}
use picdplayer.Capabilities.{DriveCapabilities, response_bytes}
use picdplayer.Capabilities.Feature.{probe_c2_feature, get_configuration}
use picdplayer.Capabilities.Feature.Post.{probe_c2_feature-ProbePost}
use picdplayer.Capabilities.ModePage.{ModePageResult, read_mode_page}
use picdplayer.Capabilities.ModePage.Bounds.{PagePost, read_mode_page-PagePost}
use picdplayer.Capabilities.Probe.{
  audio_report, cache_report, probe_cd_audio_report, probe_cache_report, probe_drive_capabilities,
}
use picdplayer.Capabilities.Probe.Report.{Reports}
use picdplayer.Verifier.{is_nil}
use picdplayer.Capabilities.Probe.Steps.{
  Ends, Ends-map, >>=-Ends, PointersStep, AudioStep, CacheStep, Step-Reports,
  ProbePost-PointersStep, audio_report-AudioStep, cache_report-CacheStep,
}

steps-Reports :
    (answer : ℤ × List ℕ) (audio caching : ModePageResult) (first second : Outcome ModePageResult)
    (a : DriveCapabilities) (o : Outcome DriveCapabilities)
    → first ≡ returned audio
    → second ≡ returned caching
    → Ends (PointersStep answer a) o
    → Ends
        (Reports answer audio caching a)
        (o >>= (λ b. first >>= audio_report b) >>= (λ c. second >>= cache_report c))
steps-Reports answer audio caching first second a (returned b) e f p =
    rw (e, f)
      (>>=-Ends (AudioStep audio b) (Reports answer audio caching a) (audio_report b audio)
        (λ c. cache_report c caching) (audio_report-AudioStep b audio)
        (λ c s.
          Ends-map (CacheStep caching c) (Reports answer audio caching a) (cache_report c caching)
            (λ d t. Step-Reports answer audio caching a b c d p s t)
            (cache_report-CacheStep c caching)))
steps-Reports answer audio caching first second a (thrown x) e f p = p
steps-Reports answer audio caching first second a undefined e f p = p

page-returned :
    (requested : ℕ) (o : Outcome ModePageResult)
    → PagePost requested o
    → (r : ModePageResult) × (o ≡ returned r)
page-returned requested (returned r) p = (r, refl)
page-returned requested (thrown e) p = absurd p
page-returned requested undefined p = absurd p

probe-Reports :
    (strerror error_text : ℤ → List ℕ) (packet_transport : List ℕ → List ℕ → ℤ × List ℕ)
    (mode_transport : List ℕ → List ℕ → ℤ × List ℕ × ℕ) (identity : DriveCapabilities)
    (audio caching : ModePageResult)
    → read_mode_page strerror mode_transport 42 ≡ returned audio
    → read_mode_page strerror mode_transport 8 ≡ returned caching
    → ((e : ℤ) → is_nil (error_text e) ≡ false)
    → ((command buffer : List ℕ) → length (packet_transport command buffer).1 ≡ length buffer)
    → Ends
        (Reports
          (packet_transport get_configuration (replicate response_bytes 0))
          audio
          caching
          identity)
        (probe_drive_capabilities strerror error_text packet_transport mode_transport identity)
unfolding probe_drive_capabilities probe_cd_audio_report probe_cache_report
probe-Reports strerror error_text packet_transport mode_transport identity audio caching e f tells
      keeps =
    steps-Reports (packet_transport get_configuration (replicate response_bytes 0)) audio caching
      (read_mode_page strerror mode_transport 42) (read_mode_page strerror mode_transport 8)
      identity (probe_c2_feature error_text packet_transport identity) e f
      (ProbePost-PointersStep (packet_transport get_configuration (replicate response_bytes 0))
        identity (probe_c2_feature error_text packet_transport identity)
        (probe_c2_feature-ProbePost identity error_text packet_transport tells keeps))

-- Whatever the drive answers to the three commands of the probe, over a packet transport that keeps the
-- length of the buffer and with no empty text for an errno, the search for each mode page returns and
-- the probe returns. The pointers' flag becomes the bit of the first CD Read feature that the answer to
-- GET CONFIGURATION lists, or no when it lists none, with an errno of 0; or it is kept and there is an
-- error. The flags for digital extraction and for an accurate stream become bits 0 and 1 of byte 5 of
-- the CD/DVD page, the read speed the number at byte 14 of it, and the read cache's flag no or yes by
-- bit 0 of byte 2 of the caching page, all as reported by the drive; each is kept only when its page
-- has an error or is too short. Device, vendor, model, firmware, the other two flags, the requested
-- speed and its error, the current speed, the offset and the observation with its two marks are as they
-- were. Of the texts of details nothing is said.
pub probe_drive_capabilities-Reported :
    (strerror error_text : ℤ → List ℕ) (packet_transport : List ℕ → List ℕ → ℤ × List ℕ)
    (mode_transport : List ℕ → List ℕ → ℤ × List ℕ × ℕ) (identity : DriveCapabilities)
    → ((e : ℤ) → is_nil (strerror e) ≡ false)
    → ((e : ℤ) → is_nil (error_text e) ≡ false)
    → ((command buffer : List ℕ) → length (packet_transport command buffer).1 ≡ length buffer)
    → (audio : ModePageResult) × (caching : ModePageResult) × (read_mode_page strerror
          mode_transport 42
        ≡ returned audio)
      × (read_mode_page strerror mode_transport 8 ≡ returned caching)
      × Ends
          (Reports
            (packet_transport get_configuration (replicate response_bytes 0))
            audio
            caching
            identity)
          (probe_drive_capabilities strerror error_text packet_transport mode_transport identity)
probe_drive_capabilities-Reported strerror error_text packet_transport mode_transport identity says
      tells keeps =
    let (audio, e) =
      page-returned 42 (read_mode_page strerror mode_transport 42)
        (read_mode_page-PagePost strerror mode_transport 42 says) in
    let (caching, f) =
      page-returned 8 (read_mode_page strerror mode_transport 8)
        (read_mode_page-PagePost strerror mode_transport 8 says) in
    (
      audio,
      caching,
      e,
      f,
      probe-Reports strerror error_text packet_transport mode_transport identity audio caching e f
          tells keeps,
    )
