-- ===== src/Policy.antt =====
-- include/read_policy.hpp, src/repeated_read_policy.cpp, and the parsing of a backend's name in
-- src/cdda_reader.cpp: what the operator may configure, and the strategy that a reader is given.
pub mod Strategy
pub mod Bounds
use picdplayer.Assessment.{Knowledge}
use picdplayer.Outcome.{Outcome, returned, thrown, invalid_argument, throw_if, ◌>>◌}
use picdplayer.Prelude.{
  ℕ, ◌%◌, Bool, true, false, not, ◌||◌, List, ◌++◌, ℤ, pos, if◌then◌else◌, ltb, ◌==◌, codes,
  same_text, to_string,
}
use picdplayer.Reader.{CddaBackend}
use picdplayer.Verifier.{RepeatedReadPolicy, validate_repeated_read_policy}

pub data ReadVerificationMode : Type 0 where
  single repeat : ReadVerificationMode

pub record ReadPolicy : Type 0 where
  pub mode : ReadVerificationMode
  pub region_frames : ℕ
  pub required_matches : ℕ
  pub maximum_attempts : ℕ
  pub time_budget_ms : ℕ

pub data ReadStrategyDowngrade : Type 0 where
  none policy_restart_required c2_probe_pending c2_capability_unknown : ReadStrategyDowngrade
  c2_unsupported c2_backend_unsupported c2_stream_restart_required : ReadStrategyDowngrade

pub record ReadStrategySelection : Type 0 where
  pub requested : List ℕ
  pub effective : List ℕ
  pub downgrade : ReadStrategyDowngrade
  pub pending : Bool

abbrev pub pcm_block_cd_frames : ℕ
pcm_block_cd_frames = 15

abbrev pub read_verification_mode_name : ReadVerificationMode → List ℕ
read_verification_mode_name ReadVerificationMode.single = codes "SINGLE"
read_verification_mode_name ReadVerificationMode.repeat = codes "REPEAT"

unfoldable pub parse_read_verification_mode : List ℕ → Outcome ReadVerificationMode
parse_read_verification_mode value =
    if same_text value (codes "single")
    then returned ReadVerificationMode.single
    else if same_text value (codes "repeat")
    then returned ReadVerificationMode.repeat
    else thrown invalid_argument

unfoldable pub parse_cdda_backend : List ℕ → Outcome CddaBackend
parse_cdda_backend name =
    if same_text name (codes "direct")
    then returned CddaBackend.direct
    else if same_text name (codes "paranoia")
    then returned CddaBackend.paranoia
    else thrown invalid_argument

-- The policy's part that the repeated read verifier takes; its overlap is the default.
abbrev pub to_repeated : ReadPolicy → RepeatedReadPolicy
to_repeated policy = record {
  required_matches = policy.required_matches;
  maximum_attempts = policy.maximum_attempts;
  time_budget = pos policy.time_budget_ms;
  overlap_frames = 15;
}

unfoldable pub validate_read_policy : ReadPolicy → ℕ → Outcome (Unit {0})
validate_read_policy policy buffer_capacity_frames =
    throw_if
      (ltb policy.region_frames pcm_block_cd_frames
        || ltb buffer_capacity_frames policy.region_frames
        || not (policy.region_frames % pcm_block_cd_frames == 0))
      invalid_argument
    >> validate_repeated_read_policy (to_repeated policy)

abbrev pub repeated_in : ReadVerificationMode → ReadPolicy → Outcome RepeatedReadPolicy
repeated_in ReadVerificationMode.single policy = thrown invalid_argument
repeated_in ReadVerificationMode.repeat policy = returned (to_repeated policy)

unfoldable pub repeated_read_policy : ReadPolicy → Outcome RepeatedReadPolicy
repeated_read_policy policy = repeated_in policy.mode policy

abbrev pub backend_name : CddaBackend → List ℕ
backend_name CddaBackend.direct = codes "direct"
backend_name CddaBackend.paranoia = codes "paranoia-library"

-- "2of3"
abbrev pub vote_name : ReadPolicy → List ℕ
vote_name policy =
    to_string policy.required_matches ++ (codes "of" ++ to_string policy.maximum_attempts)

abbrev pub mode_suffix : ReadVerificationMode → List ℕ → List ℕ
mode_suffix ReadVerificationMode.single vote = codes "-single-read"
mode_suffix ReadVerificationMode.repeat vote = codes "+repeat-" ++ vote

abbrev pub read_policy_strategy : ReadPolicy → CddaBackend → List ℕ
read_policy_strategy policy backend =
    backend_name backend ++ mode_suffix policy.mode (vote_name policy)

abbrev pub c2_strategy : ReadPolicy → List ℕ
c2_strategy policy = codes "direct-c2-pointers" ++ mode_suffix policy.mode (vote_name policy)

-- The selection once a direct reader's probe has ended.
abbrev pub probed_selection : Knowledge → List ℕ → List ℕ → ReadStrategySelection
probed_selection Knowledge.yes requested fallback = record {
  requested = requested;
  effective = requested;
  downgrade = ReadStrategyDowngrade.none;
  pending = false;
}
probed_selection Knowledge.no requested fallback = record {
  requested = requested;
  effective = fallback;
  downgrade = ReadStrategyDowngrade.c2_unsupported;
  pending = false;
}
probed_selection Knowledge.unknown requested fallback = record {
  requested = requested;
  effective = fallback;
  downgrade = ReadStrategyDowngrade.c2_capability_unknown;
  pending = false;
}

abbrev pub backend_selection :
    CddaBackend → Bool → Knowledge → List ℕ → List ℕ → ReadStrategySelection
backend_selection CddaBackend.paranoia probe_complete c2_supported pointers fallback = record {
  requested = fallback;
  effective = fallback;
  downgrade = ReadStrategyDowngrade.c2_backend_unsupported;
  pending = false;
}
backend_selection CddaBackend.direct false c2_supported pointers fallback = record {
  requested = pointers;
  effective = fallback;
  downgrade = ReadStrategyDowngrade.c2_probe_pending;
  pending = true;
}
backend_selection CddaBackend.direct true c2_supported pointers fallback =
    probed_selection c2_supported pointers fallback

unfoldable pub select_read_strategy :
    ReadPolicy → CddaBackend → Bool → Bool → Knowledge → ReadStrategySelection
select_read_strategy policy backend request_c2_pointers probe_complete c2_supported =
    let fallback = read_policy_strategy policy backend in
    if not request_c2_pointers
    then record {
      requested = fallback;
      effective = fallback;
      downgrade = ReadStrategyDowngrade.none;
      pending = false;
    }
    else backend_selection backend probe_complete c2_supported (c2_strategy policy) fallback

abbrev pub read_strategy_downgrade_name : ReadStrategyDowngrade → List ℕ
read_strategy_downgrade_name ReadStrategyDowngrade.none = codes "NONE"
read_strategy_downgrade_name ReadStrategyDowngrade.policy_restart_required =
    codes "POLICY_RESTART_REQUIRED"
read_strategy_downgrade_name ReadStrategyDowngrade.c2_probe_pending = codes "C2_PROBE_PENDING"
read_strategy_downgrade_name ReadStrategyDowngrade.c2_capability_unknown =
    codes "C2_CAPABILITY_UNKNOWN"
read_strategy_downgrade_name ReadStrategyDowngrade.c2_unsupported = codes "C2_UNSUPPORTED"
read_strategy_downgrade_name ReadStrategyDowngrade.c2_backend_unsupported =
    codes "C2_BACKEND_UNSUPPORTED"
read_strategy_downgrade_name ReadStrategyDowngrade.c2_stream_restart_required =
    codes "C2_STREAM_RESTART_REQUIRED"
