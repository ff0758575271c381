-- ===== src/Capabilities.antt =====
-- include/drive_capabilities.hpp and src/drive_capabilities.cpp: what a drive reports of itself.
-- The packet transports and the texts of the C library for an errno are parameters; bytes are numbers
-- below 256. A transport answers a command with an errno, the buffer after the call and, where it
-- tells, the bytes transferred. A read behind a buffer is undefined.
pub mod ModePage
pub mod Feature
pub mod Probe
use picdplayer.Assessment.{Knowledge}
use picdplayer.Device.{DevicePresence, DeviceObservationSnapshot, is_present, same_bytes}
use picdplayer.Outcome.{Outcome, returned, undefined, deref, ◌>>=◌}
use picdplayer.Prelude.{
  ℕ, zero, suc, ◌+◌, ◌-◌, ◌*◌, ◌/◌, ◌%◌, Bool, true, false, not, ◌&&◌, ◌||◌, Option, some, List, [],
  ◌∷◌, ◌++◌, ℤ, pos, ◌==ℤ◌, if◌then◌else◌, ltb, leb, ◌==◌, length, take, drop, replicate, get_elem?,
  codes, same_text,
}

pub data CapabilityEvidenceSource : Type 0 where
  none kernel_reported drive_reported tested database user_configured inferred :
      CapabilityEvidenceSource

pub record CapabilityFlag : Type 0 where
  pub value : Knowledge
  pub source : CapabilityEvidenceSource
  pub detail : List ℕ

pub record DriveCapabilities : Type 0 where
  pub device : List ℕ
  pub vendor : List ℕ
  pub model : List ℕ
  pub firmware : List ℕ
  pub digital_audio_extraction : CapabilityFlag
  pub c2_supported : CapabilityFlag
  pub c2_trustworthy : CapabilityFlag
  pub read_cache : CapabilityFlag
  pub accurate_stream : CapabilityFlag
  pub speed_control : CapabilityFlag
  pub requested_speed_x : Option ℤ
  pub speed_request_error : List ℕ
  pub current_speed_x : Option ℤ
  pub current_read_speed_kbytes_per_second : Option ℕ
  pub current_speed_source : CapabilityEvidenceSource
  pub current_speed_detail : List ℕ
  pub read_offset_samples : Option ℤ
  pub probe_error : List ℕ
  pub observation : Option DeviceObservationSnapshot
  pub observation_revalidating : Bool
  pub observation_retiring_io : Bool

abbrev pub unknown_flag : CapabilityFlag
unknown_flag = record {
  value = Knowledge.unknown;
  source = CapabilityEvidenceSource.none;
  detail = [];
}

-- A new DriveCapabilities of a device.
abbrev pub unknown_capabilities : List ℕ → DriveCapabilities
unknown_capabilities device = record {
  device = device;
  vendor = [];
  model = [];
  firmware = [];
  digital_audio_extraction = unknown_flag;
  c2_supported = unknown_flag;
  c2_trustworthy = unknown_flag;
  read_cache = unknown_flag;
  accurate_stream = unknown_flag;
  speed_control = unknown_flag;
  requested_speed_x = Option.none;
  speed_request_error = [];
  current_speed_x = Option.none;
  current_read_speed_kbytes_per_second = Option.none;
  current_speed_source = CapabilityEvidenceSource.none;
  current_speed_detail = [];
  read_offset_samples = Option.none;
  probe_error = [];
  observation = Option.none;
  observation_revalidating = false;
  observation_retiring_io = false;
}

abbrev pub invalidated_drive_capabilities :
    List ℕ → Option ℤ → DeviceObservationSnapshot → DriveCapabilities
invalidated_drive_capabilities device configured_offset observation =
    record (unknown_capabilities device) {
      read_offset_samples = configured_offset;
      observation = some observation;
    }

unfoldable pub bind_drive_probe :
    DriveCapabilities → DriveCapabilities → ℕ → DeviceObservationSnapshot → Bool × DriveCapabilities
bind_drive_probe current probed generation observation =
    if not (generation == observation.generation)
    then (false, current)
    else if not observation.sampled
        || not (is_present observation.presence)
        || not (same_text probed.device current.device)
    then (
      false,
      record (invalidated_drive_capabilities current.device current.read_offset_samples
          observation) { probe_error = codes "probe is not bound to a current device observation" },
    )
    else (
      true,
      record probed {
        read_offset_samples = current.read_offset_samples;
        observation = some observation;
      },
    )

abbrev pub response_bytes : ℕ
response_bytes = 512

abbrev pub byte : List ℕ → ℕ → Outcome ℕ
byte bytes i = deref (get_elem? bytes i)

abbrev pub be16 : List ℕ → ℕ → Outcome ℕ
be16 bytes i = byte bytes i >>= λ high. byte bytes (i + 1) >>= λ low. returned (high * 256 + low)

-- The bit of the value 2 ^ k, by its value.
abbrev pub has_bit : ℕ → ℕ → Bool
has_bit value bit = value / bit % 2 == 1

abbrev pub maximum_requested_speed_x : ℕ
maximum_requested_speed_x = 255

pub record DriveSpeedRequestResult : Type 0 where
  pub requested_speed_x : Option ℕ
  pub error : List ℕ

-- `error_text` is what a std::system_error for CDROM_SELECT_SPEED says.
unfoldable pub request_drive_speed : (ℤ → List ℕ) → ℕ → (ℕ → ℤ) → DriveSpeedRequestResult
request_drive_speed error_text speed_x transport =
    if (speed_x == 0) || ltb maximum_requested_speed_x speed_x
    then record {
      requested_speed_x = Option.none;
      error = codes "requested CD speed must be in the range 1..255x";
    }
    else if not (transport speed_x ==ℤ pos 0)
    then record { requested_speed_x = Option.none; error = error_text (transport speed_x) }
    else record { requested_speed_x = some speed_x; error = [] }

abbrev pub knowledge_name : Knowledge → List ℕ
knowledge_name Knowledge.unknown = codes "UNKNOWN"
knowledge_name Knowledge.no = codes "NO"
knowledge_name Knowledge.yes = codes "YES"

abbrev pub capability_evidence_source_name : CapabilityEvidenceSource → List ℕ
capability_evidence_source_name CapabilityEvidenceSource.none = codes "NONE"
capability_evidence_source_name CapabilityEvidenceSource.kernel_reported = codes "KERNEL_REPORTED"
capability_evidence_source_name CapabilityEvidenceSource.drive_reported = codes "DRIVE_REPORTED"
capability_evidence_source_name CapabilityEvidenceSource.tested = codes "TESTED"
capability_evidence_source_name CapabilityEvidenceSource.database = codes "DATABASE"
capability_evidence_source_name CapabilityEvidenceSource.user_configured = codes "USER_CONFIGURED"
capability_evidence_source_name CapabilityEvidenceSource.inferred = codes "INFERRED"
