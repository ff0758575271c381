-- ===== src/Mmc.antt =====
-- src/cdda_reader.cpp, make_mmc_c2_audio_read: the read command with error pointers, and the decoding
-- of its response. The packet transport is a parameter; bytes are numbers.
pub mod Decode
use picdplayer.Outcome.{Outcome, returned, thrown, undefined, ◌>>=◌}
use picdplayer.Prelude.{
  ℕ, zero, suc, ◌+◌, ◌-◌, ◌*◌, ◌/◌, ◌%◌, ◌^◌, Bool, true, false, not, ◌&&◌, ◌||◌, List, [], ◌∷◌,
  ◌++◌, ℤ, pos, negsuc, pos_part, ◌-ℤ◌, ltb_ℤ, ◌==ℤ◌, ltb, ◌==◌, if◌then◌else◌, length, replicate,
}
use picdplayer.Reader.{C2Status, samples_per_frame, int32_max}
use picdplayer.Verifier.{is_nil}

abbrev pub einval : ℤ
einval = pos 22

abbrev pub emsgsize : ℤ
emsgsize = pos 90

abbrev pub cdda_bytes_per_frame : ℕ
cdda_bytes_per_frame = 2352

abbrev pub c2_pointer_bytes_per_frame : ℕ
c2_pointer_bytes_per_frame = 294

-- The errno, the response buffer after the call, the bytes transferred, and the drive.
pub record PacketTransport : Type 1 where
  pub Drive : Type 0
  pub send : List ℕ → List ℕ → Drive → ℤ × List ℕ × ℕ × Drive

abbrev pub put_be24 : ℕ → List ℕ
put_be24 value = value / 65536 % 256 ∷ value / 256 % 256 ∷ value % 256 ∷ []

-- Of an LBA from 0 on.
abbrev pub put_be32 : ℕ → List ℕ
put_be32 value = value / 16777216 % 256 ∷ put_be24 value

abbrev pub read_command : ℤ → ℕ → List ℕ
read_command lba frames =
    190 ∷ 4 ∷ (put_be32 (pos_part lba) ++ (put_be24 frames ++ (18 ∷ 0 ∷ 0 ∷ [])))

-- The bit pattern of a word as an int16_t.
unfoldable pub to_int16 : ℕ → ℤ
to_int16 w = if ltb w 32768 then pos w else negsuc (65535 - w)

-- The next samples of the response, and the bytes behind them.
unfoldable pub decode_samples : ℕ → List ℕ → Outcome (List ℤ × List ℕ)
unfolding to_int16
decode_samples zero bytes = returned ([], bytes)
decode_samples (suc n) [] = undefined
decode_samples (suc n) (low ∷ []) = undefined
decode_samples (suc n) (low ∷ high ∷ bytes) =
    decode_samples n bytes >>= λ x. returned (to_int16 (low + high * 256) ∷ x.0, x.1)

-- Whether one of the next bytes is not 0, and the bytes behind them.
unfoldable pub any_pointer : ℕ → List ℕ → Outcome (Bool × List ℕ)
any_pointer zero bytes = returned (false, bytes)
any_pointer (suc n) [] = undefined
any_pointer (suc n) (b ∷ bytes) = any_pointer n bytes >>= λ x. returned (not (b == 0) || x.0, x.1)

-- The loop over the frames: the samples, and whether a pointer is reported.
unfoldable pub decode : ℕ → List ℕ → Outcome (List ℤ × Bool)
unfolding decode_samples any_pointer
decode zero bytes = returned ([], false)
decode (suc n) bytes = decode_samples samples_per_frame bytes >>= λ x.
    any_pointer c2_pointer_bytes_per_frame x.1 >>= λ y.
    decode n y.1 >>= λ z. returned (x.0 ++ z.0, y.0 || z.1)

module _ (T : PacketTransport) where
  open T use {Drive}

  abbrev pub C2Read : Type 0
  C2Read = (ℤ × C2Status) × List ℤ × Drive

  unfoldable pub with_response : ℕ → List ℤ → ℤ × List ℕ × ℕ × Drive → Outcome C2Read
  unfolding decode
  with_response frames pcm (error, response, transferred, d) =
      if not (error ==ℤ pos 0)
      then returned ((error, C2Status.unknown), pcm, d)
      else if not (transferred == frames * (cdda_bytes_per_frame + c2_pointer_bytes_per_frame))
      then returned ((emsgsize, C2Status.unknown), pcm, d)
      else decode frames response >>= λ x.
          returned ((pos 0, if x.1 then C2Status.reported else C2Status.clean), x.0, d)

  unfoldable pub mmc_c2_audio_read : ℤ → List ℤ → Drive → Outcome C2Read
  unfolding with_response
  mmc_c2_audio_read lba pcm d =
      let frames = length pcm / samples_per_frame in
      if ltb_ℤ lba (pos 0) || is_nil pcm || not (length pcm % samples_per_frame == 0)
      then returned ((einval, C2Status.unknown), pcm, d)
      else if ltb 75 frames || ltb_ℤ (pos int32_max -ℤ lba) (pos frames)
      then returned ((einval, C2Status.unknown), pcm, d)
      else with_response frames pcm (
          T.send (read_command lba frames)
            (replicate (frames * (cdda_bytes_per_frame + c2_pointer_bytes_per_frame)) 0) d)
