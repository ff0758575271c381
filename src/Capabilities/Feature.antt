-- ===== src/Capabilities/Feature.antt =====
-- src/drive_capabilities.cpp, probe_c2_feature: the search for the CD Read feature in the response of
-- GET CONFIGURATION. `error_text` is what the std::system_error of an errno says.
pub mod Encode
pub mod Post
use picdplayer.Assessment.{Knowledge}
use picdplayer.Outcome.{Outcome, returned, undefined, ◌>>=◌}
use picdplayer.Prelude.{
  ℕ, zero, suc, ◌+◌, ◌-◌, ◌*◌, Bool, true, false, not, ◌&&◌, ◌||◌, List, [], ◌∷◌, ◌++◌, ℤ, pos,
  ◌==ℤ◌, if◌then◌else◌, ltb, ◌==◌, length, replicate, codes, to_string,
}
use picdplayer.Capabilities.{
  DriveCapabilities, CapabilityFlag, CapabilityEvidenceSource, byte, be16, has_bit, response_bytes,
}

abbrev pub cd_read_feature : ℕ
cd_read_feature = 30

abbrev pub with_probe_error : DriveCapabilities → List ℕ → DriveCapabilities
with_probe_error result text = record result { probe_error = text }

abbrev pub reported : Bool → List ℕ → CapabilityFlag
reported bit text = record {
  value = if bit then Knowledge.yes else Knowledge.no;
  source = CapabilityEvidenceSource.drive_reported;
  detail = text;
}

abbrev pub with_c2 : DriveCapabilities → Bool → List ℕ → DriveCapabilities
with_c2 result bit text = record result { c2_supported = reported bit text }

abbrev pub feature_absent : DriveCapabilities → DriveCapabilities
feature_absent result = with_c2 result false (codes "MMC GET CONFIGURATION CD Read feature absent")

abbrev pub feature_flags : DriveCapabilities → ℕ → DriveCapabilities
feature_flags result flags =
    with_c2 result (has_bit flags 2) (codes "MMC GET CONFIGURATION CD Read feature C2 Flags")

abbrev pub feature_truncated : DriveCapabilities → DriveCapabilities
feature_truncated result =
    with_probe_error result (codes "GET CONFIGURATION CD Read feature is truncated")

-- The body of the loop; `continue` is the next round.
unfoldable pub feature_step :
    List ℕ → ℕ → ℕ → DriveCapabilities → (ℕ → Outcome DriveCapabilities) → Outcome DriveCapabilities
feature_step bytes total offset result continue =
    if ltb total (offset + 4)
    then returned
        (with_probe_error result (codes "GET CONFIGURATION feature descriptor header is truncated"))
    else byte bytes (offset + 3) >>= λ additional.
        if ltb total (offset + (4 + additional))
        then returned
            (with_probe_error result (codes "GET CONFIGURATION feature descriptor is truncated"))
        else be16 bytes offset >>= λ code.
            if code == cd_read_feature
            then (if ltb additional 1
                then returned (feature_truncated result)
                else byte bytes (offset + 4) >>= λ flags. returned (feature_flags result flags))
            else continue (offset + (4 + additional))

-- The loop. Each round goes on by four bytes or more, so that the fuel is not used up.
unfoldable pub scan_features : ℕ → List ℕ → ℕ → ℕ → DriveCapabilities → Outcome DriveCapabilities
unfolding feature_step
scan_features zero bytes total offset result = undefined
scan_features (suc fuel) bytes total offset result =
    let rest =
      feature_step bytes total offset result (λ next. scan_features fuel bytes total next result) in
    if ltb offset total then rest else returned (feature_absent result)

abbrev pub malformed : ℕ → List ℕ
malformed n =
    codes "GET CONFIGURATION response is malformed (data_length=" ++ (to_string n ++ codes ")")

unfoldable pub parse_features : DriveCapabilities → List ℕ → Outcome DriveCapabilities
unfolding scan_features
parse_features result bytes = be16 bytes 0 >>= λ high. be16 bytes 2 >>= λ low.
    let n = high * 65536 + low in
    if ltb n 4 || ltb (length bytes) (n + 4)
    then returned (with_probe_error result (malformed n))
    else scan_features (n + 4) bytes (n + 4) 8 result

abbrev pub get_configuration : List ℕ
get_configuration = 70 ∷ 0 ∷ 0 ∷ 0 ∷ 0 ∷ 0 ∷ 0 ∷ 2 ∷ 0 ∷ 0 ∷ []

unfoldable pub probe_c2_feature :
    (ℤ → List ℕ) → (List ℕ → List ℕ → ℤ × List ℕ) → DriveCapabilities → Outcome DriveCapabilities
unfolding parse_features
probe_c2_feature error_text transport result =
    let answer = transport get_configuration (replicate response_bytes 0) in
    if not (answer.0 ==ℤ pos 0)
    then returned (with_probe_error result (error_text answer.0))
    else parse_features result answer.1
