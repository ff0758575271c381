-- ===== src/Capabilities/Probe/Report.antt =====
-- What the answers of the drive say of the capabilities that the whole probe leaves.
use picdplayer.Prelude.{
  ℕ, ◌+◌, ◌/◌, ◌%◌, ◌<◌, ◌≡◌, Bool, true, false, ◌⊎◌, some, List, ℤ, pos, if◌then◌else◌, length,
  get_elem?,
}
use picdplayer.Assessment.{Knowledge}
use picdplayer.Capabilities.{DriveCapabilities, CapabilityFlag, CapabilityEvidenceSource}
use picdplayer.Capabilities.Feature.Post.{SaysBit, IsPair}
use picdplayer.Capabilities.ModePage.{ModePageResult}
use picdplayer.Verifier.{is_nil}

-- The value and the source are as they were.
abbrev pub IsKept : CapabilityFlag → CapabilityFlag → Type 0
IsKept before after = (after.value ≡ before.value) × (after.source ≡ before.source)

-- The drive reports the value for a bit that is set, or the other one for a bit that is not.
abbrev pub Answers : ℕ → Knowledge → Knowledge → CapabilityFlag → Type 0
Answers bit set unset after =
    (after.source ≡ CapabilityEvidenceSource.drive_reported)
    × (((bit ≡ 1) × (after.value ≡ set)) ⊎ ((bit ≡ 0) × (after.value ≡ unset)))

-- The page has an error or is too short for this many bytes.
abbrev pub IsShort : ModePageResult → ℕ → Type 0
IsShort r n = (is_nil r.error ≡ false) ⊎ (length r.page < n)

-- Without the byte of the page the flag is kept, and with it the flag is what a bit of it says.
abbrev pub FlagPost :
    ModePageResult → ℕ → ℕ → Knowledge → Knowledge → CapabilityFlag → CapabilityFlag → Type 0
FlagPost r i bit set unset before after =
    (IsShort r (i + 1) × IsKept before after)
    ⊎ ((is_nil r.error ≡ true)
        × ((flags : ℕ) × (get_elem? r.page i ≡ some flags)
            × Answers (flags / bit % 2) set unset after))

-- Without two bytes at 14 of a page of 16 the read speed is kept, and with them it is their number.
abbrev pub SpeedPost : ModePageResult → DriveCapabilities → DriveCapabilities → Type 0
SpeedPost r before after =
    (IsShort r 16
      × (after.current_read_speed_kbytes_per_second ≡ before.current_read_speed_kbytes_per_second)
      × (after.current_speed_source ≡ before.current_speed_source))
    ⊎ ((is_nil r.error ≡ true)
        × ((rate : ℕ) × IsPair r.page 14 rate
            × (after.current_read_speed_kbytes_per_second ≡ some rate)
            × (after.current_speed_source ≡ CapabilityEvidenceSource.drive_reported)))

-- The flag of the pointers is kept and there is an error, or there is none that is new, the command
-- succeeded, and the flag is the bit that the list of features in the answer says.
abbrev pub PointersPost : ℤ × List ℕ → DriveCapabilities → DriveCapabilities → Type 0
PointersPost answer before after =
    ((is_nil after.probe_error ≡ false) × IsKept before.c2_supported after.c2_supported)
    ⊎ ((after.probe_error ≡ before.probe_error)
        × (answer.0 ≡ pos 0)
        × ((bit : Bool) × SaysBit answer.1 bit
            × Answers (if bit then 1 else 0) Knowledge.yes Knowledge.no after.c2_supported))

-- The members that no report of the probe is about.
abbrev pub Others : DriveCapabilities → DriveCapabilities → Type 0
Others before after =
    (after.device ≡ before.device)
    × (after.vendor ≡ before.vendor)
    × (after.model ≡ before.model)
    × (after.firmware ≡ before.firmware)
    × (after.c2_trustworthy ≡ before.c2_trustworthy)
    × (after.speed_control ≡ before.speed_control)
    × (after.requested_speed_x ≡ before.requested_speed_x)
    × (after.speed_request_error ≡ before.speed_request_error)
    × (after.current_speed_x ≡ before.current_speed_x)
    × (after.read_offset_samples ≡ before.read_offset_samples)
    × (after.observation ≡ before.observation)
    × (after.observation_revalidating ≡ before.observation_revalidating)
    × (after.observation_retiring_io ≡ before.observation_retiring_io)

-- The probe's answers: to GET CONFIGURATION, for the CD/DVD page, and for the caching page.
pub record Reports (answer : ℤ × List ℕ) (audio caching : ModePageResult)
    (before after : DriveCapabilities) : Type 0 where
  pub pointers : PointersPost answer before after
  pub digital_audio_extraction :
      FlagPost audio 5 1 Knowledge.yes Knowledge.no before.digital_audio_extraction
        after.digital_audio_extraction
  pub accurate_stream :
      FlagPost audio 5 2 Knowledge.yes Knowledge.no before.accurate_stream after.accurate_stream
  pub speed : SpeedPost audio before after
  pub read_cache :
      FlagPost caching 2 1 Knowledge.no Knowledge.yes before.read_cache after.read_cache
  pub others : Others before after
