-- ===== src/Examples/Inputs.antt =====
-- The configuration of a reader, a held key of a remote control, and the bytes of a read with pointers.
use picdplayer.Outcome.{Outcome, returned}
use picdplayer.Prelude.{
  ℕ, zero, suc, ◌≡◌, ◌≢◌, refl, true, false, List, [], ◌∷◌, ℤ, pos, length, length-replicate,
  replicate, arith,
}
use picdplayer.Reader.{CddaReader, CddaBackend, ReadResult, ReadStatus, read_result}
use picdplayer.Assessment.{Knowledge}
use picdplayer.Policy.{ReadPolicy, ReadVerificationMode, select_read_strategy, validate_read_policy}
use picdplayer.Policy.Strategy
use picdplayer.Policy.Bounds
use picdplayer.Cec.{CecNavigation, UiCodes, cec_navigation_from_ui_code, new_filter, release}
use picdplayer.Cec.Held
use picdplayer.Device.{DevicePresence, DeviceObservationTracker, DeviceChangeReason, new_tracker}
use picdplayer.Device.Bound
use picdplayer.Device.Epoch
use picdplayer.Device
use picdplayer.Mmc.{PacketTransport, decode, mmc_c2_audio_read}
use picdplayer.Mmc.Decode

abbrev two_of_three : ReadPolicy
two_of_three = record {
  mode = ReadVerificationMode.repeat;
  region_frames = 75;
  required_matches = 2;
  maximum_attempts = 3;
  time_budget_ms = 10000;
}

select_read_strategy-Selected_example :
    Strategy.Selected two_of_three CddaBackend.direct true false Knowledge.yes
      (select_read_strategy two_of_three CddaBackend.direct true false Knowledge.yes)
select_read_strategy-Selected_example =
    Strategy.select_read_strategy-Selected two_of_three CddaBackend.direct true false Knowledge.yes

validate_read_policy-Validated_example :
    Bounds.Validated two_of_three 150 (validate_read_policy two_of_three 150)
validate_read_policy-Validated_example = Bounds.validate_read_policy-Validated two_of_three 150

abbrev keys : UiCodes
keys = record {
  cmd_play = 68;
  cmd_pause = 70;
  cmd_stop = 69;
  cmd_skip_forward = 75;
  cmd_skip_backward = 76;
  cmd_fast_forward = 73;
  cmd_rewind = 72;
  cmd_up = 1;
  cmd_down = 2;
  cmd_left = 3;
  cmd_right = 4;
  cmd_select = 0;
  cmd_back = 13;
}

hold-HeldPost_example :
    (out : List ℕ) × (Held.emitted keys 1 4
        (release new_filter 4)
        (1000 ∷ 200001000 ∷ 300001000 ∷ 400001000 ∷ [])
      ≡ (1000 ∷ out))
    × Held.HeldPost keys 1 4 true 1000 out
unfolding cec_navigation_from_ui_code
hold-HeldPost_example =
    Held.hold-HeldPost keys 1 4 CecNavigation.up refl new_filter 1000
      (200001000 ∷ 300001000 ∷ 400001000 ∷ [])
      (omega arith, omega arith, (omega arith, omega arith, (omega arith, omega arith, tt)))

abbrev seven : ℤ
seven = pos 7

abbrev one : ℕ
one = 1

sevens : (n : ℕ) → Decode.AllInt16 (replicate n seven)
sevens zero = tt
sevens (suc n) = (omega arith, sevens n)

abbrev frame : Decode.Frame
frame = record {
  samples = replicate 1176 seven;
  pointers = replicate 294 one;
  size = length-replicate 1176 seven;
  pointer_size = length-replicate 294 one;
  fits = sevens 1176;
}

decode-encode_example :
    decode 1 (Decode.encode (frame ∷ []))
    ≡ returned (Decode.all_samples (frame ∷ []), Decode.any_reported (frame ∷ []))
decode-encode_example = Decode.decode-encode (frame ∷ [])

abbrev echo : PacketTransport
echo = record { Drive = Unit {0}; send = λ command buffer d. (pos 0, buffer, length buffer, d) }

mmc_c2_audio_read-ReadPost_example :
    Decode.ReadPost echo
      (replicate 1176 (pos 0))
      (mmc_c2_audio_read echo (pos 5) (replicate 1176 (pos 0)) tt)
mmc_c2_audio_read-ReadPost_example =
    Decode.mmc_c2_audio_read-ReadPost echo (replicate 1176 (pos 0)) (λ command buffer d. refl)
      (pos 5) tt

abbrev present : Device.DeviceObservation
present = record { presence = DevicePresence.present; signature = 49 ∷ []; error = [] }

abbrev known_device : DeviceObservationTracker
known_device = record {
  snapshot = record {
    generation = 1;
    presence = DevicePresence.present;
    reason = DeviceChangeReason.initial;
    error = [];
    sampled = true;
  };
  signature = 49 ∷ [];
}

abbrev steady : ℕ → DeviceObservationTracker
steady n = known_device

abbrev one_result : ReadResult
one_result = read_result (pos 0) 1 1 ReadStatus.ok (pos 0) 0

abbrev silence : CddaReader
silence = record {
  State = Unit {0};
  seek = λ lba s. (returned tt, s);
  read = λ pcm s. (returned (one_result, pcm), s);
}

abbrev given : Outcome (ReadResult × List ℤ)
given = returned (one_result, [])

read-AllAgree_example :
    (((silence.read [] tt).0 ≡ given)
      × Epoch.AllAgree known_device (Epoch.observes present ∷ [])
      × ((Epoch.run known_device (Epoch.observes present ∷ [])).snapshot.presence
          ≢ DevicePresence.absent))
unfolding Epoch.run Epoch.step Device.observe Device.record_observation Device.bounded
    Device.permits Bound.read Bound.checked
read-AllAgree_example =
    Bound.read-AllAgree silence steady 1 (record { reader = tt; calls = 0 })
      (Epoch.observes present ∷ []) [] (one_result, []) refl (omega arith) refl
