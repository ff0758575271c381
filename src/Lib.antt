-- ===== src/Lib.antt =====
-- Verification of picdplayer, a CD player daemon in C++.
--
-- The daemon reads an audio CD through a chain of readers with one interface, CddaReader: the direct
-- reader asks the kernel for frames, the offset reader shifts the stream by the drive's offset, and
-- the repeated read verifier returns a block only when enough reads agree on it. Each result is made
-- into evidence and counted, in bounded memory, by the coverage of a stream and the map of a disc.
-- The player controller keeps what the listener wants: disc, track, position, playback state. The
-- PCM worker reads a range in a thread of its own and queues its blocks for the output. The
-- playback engine moves these blocks to the output and the position to the player. The media and
-- device trackers turn observations of the drive into insertions and generations, and a
-- snapshot joins the owners' states for the API.
--
-- Parts, with the files that model them:
--   Reader      include/cdda_reader.hpp: results, and the interface as a record of operations
--   Direct      src/cdda_reader.cpp, src/linux_ioctl_reader.hpp: LinuxIoctlReader
--   Mmc         src/cdda_reader.cpp: make_mmc_c2_audio_read, and its decoding of the response
--   Policy      include/read_policy.hpp, src/repeated_read_policy.cpp: the read policy
--   Offset      include/read_offset.hpp, src/read_offset.cpp: the window and OffsetReader
--   Verifier    src/repeated_read_verifier.cpp: RepeatedReadVerifier
--   Worker      include/pcm_worker.hpp, src/pcm_worker.cpp: PcmWorker and its thread
--   Engine      include/playback_engine.hpp, src/playback_engine.cpp: PlaybackEngine, over the calls of
--               a worker and of an audio output; Engine.Threaded gives it the calls of the PCM worker,
--               and Engine.Heard is about both together
--   Coverage    src/integrity_state.cpp: ReadCoverage::observe
--   DiscMap     src/integrity_state.cpp: DiscReadMap::observe
--   Evidence    src/integrity_state.cpp: make_read_evidence, observe_read, names
--   Toc         include/disc_toc.hpp, src/disc_toc.cpp: make_audio_toc
--   Player      src/player_controller.cpp: PlayerController
--   Media       src/media_state.cpp: MediaStateTracker
--   Device      src/device_lifecycle.cpp: DeviceObservationTracker, permits, EpochReader
--   Metadata    src/metadata_session.cpp: MetadataSession
--   Assessment  src/c2_reference_assessment.cpp: C2ReferenceAssessment
--   Publisher   src/read_diagnostics_publisher.cpp: ReadDiagnosticsPublisher, as interleaved steps
--   Cec         src/cec_input.cpp: the keys of a remote control and CecNavigationFilter
--   Capabilities  include/drive_capabilities.hpp, src/drive_capabilities.cpp: the probe of a drive
--   Snapshot    src/daemon_snapshot.cpp: make_daemon_snapshot
--   Outcome     how a call ends: a value, an exception, undefined behaviour
--   Prelude     numbers, lists, parts of streams; Examples: the theorems at concrete inputs
--
-- Names are the source's. An object is a record, a method a function from the object and its
-- arguments to the outcome and the object as the call leaves it. A method that throws before it
-- writes gives the object back as it was. A read outside a vector or of an empty optional is the
-- outcome `undefined`. A reader is a state with a seek and a read, and the wrapping readers take any
-- such reader as a parameter, with no assumption on it unless a theorem names one. The engine takes
-- the worker and the output in the same way, and throws and catches through a state that a throw
-- keeps. A PCM buffer is the list of its samples; the caller's span goes in and comes back.
--
-- Numbers: std::size_t and unsigned values are natural numbers, whose sums keep the 32 or 64-bit
-- wrap where the source can reach it; int32_t and int64_t values are integers, since the guards of
-- the source keep their sums in range. The conversion of a negative difference to std::size_t is
-- written out. A clock is a function from the number of the call to nanoseconds.
--
-- Loops: the verifier's loop recurses on the attempts left, which is the source's own bound. The
-- merge loop of the map has as fuel the number of regions, and each merge takes one away. The
-- direct reader's loop has as fuel the frames asked for, and each turn that goes on reads one or
-- more. The two loops over the response of a drive have as fuel its length and one, and each round
-- goes on by two bytes or more. The arrays of 128 and 256 regions and of 8 attempts are the lists
-- of their used entries; the ring of 128 reads is an array with its indices. The engine's loop has
-- the 12 rounds of the source.
--
-- Threads: the publisher's worker and the PCM worker. A turn of a thread is what it does from one
-- point without the mutex to the next, with the answers of the calls in between, and an event list is
-- an interleaving of the turns with the calls of the owner. A wait that ends with nothing to do is a
-- turn that stays at its point.
--
-- Not modelled: the player session above the engine, the observers, the metadata and media workers,
-- the complete read of a disc, ALSA, ioctls, sysfs, HTTP, JSON, files, logs, libcdio-paranoia, the
-- API and the user interface. The transports of the direct reader and of the probe are
-- parameters; the constructors' null checks are left out where the model has no null.
pub mod Prelude
pub mod Reader
pub mod Coverage
pub mod Outcome
pub mod Toc
pub mod Player
pub mod Media
pub mod Device
pub mod Snapshot
pub mod Evidence
pub mod DiscMap
pub mod Verifier
pub mod Offset
pub mod Direct
pub mod Mmc
pub mod Metadata
pub mod Policy
pub mod Cec
pub mod Worker
pub mod Engine
pub mod Capabilities
pub mod Publisher
pub mod Assessment
pub mod Examples
