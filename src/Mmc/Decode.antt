-- ===== src/Mmc/Decode.antt =====
-- The decoding of the response of the read command with error pointers.
use picdplayer.Outcome.{Outcome, returned, thrown, undefined}
use picdplayer.Prelude.{
  ℕ, zero, suc, ◌+◌, ◌-◌, ◌*◌, ◌/◌, ◌%◌, ◌≤◌, ◌<◌, ◌≡◌, refl, ◌∙◌, Bool, true, false, not, ◌||◌,
  ◌⊎◌, inl, inr, List, [], ◌∷◌, ◌++◌, ℤ, pos, negsuc, ◌-ℤ◌, ltb_ℤ, ◌==ℤ◌, if◌then◌else◌, if-both,
  ltb, ◌==◌, length, length-append, length-replicate, replicate, arith,
}
use picdplayer.Reader.{C2Status, samples_per_frame, int32_max}
use picdplayer.Verifier.{is_nil}
use picdplayer.Mmc.{
  to_int16, decode_samples, any_pointer, decode, PacketTransport, C2Read, with_response,
  mmc_c2_audio_read, read_command,
}

-- A sample's bit pattern, and its bytes, the low one first.
abbrev pub word : ℤ → ℕ
word (pos n) = n
word (negsuc n) = 65535 - n

abbrev pub IsInt16 : ℤ → Type 0
IsInt16 (pos n) = n < 32768
IsInt16 (negsuc n) = n < 32768

abbrev pub encode_samples : List ℤ → List ℕ
encode_samples [] = []
encode_samples (s ∷ ss) = word s % 256 ∷ word s / 256 ∷ encode_samples ss

abbrev pub AllInt16 : List ℤ → Type 0
AllInt16 [] = Unit {0}
AllInt16 (s ∷ ss) = IsInt16 s × AllInt16 ss

abbrev pub any_nonzero : List ℕ → Bool
any_nonzero [] = false
any_nonzero (b ∷ bs) = not (b == 0) || any_nonzero bs

-- A frame of the response: its samples and its pointer bytes.
pub record Frame : Type 0 where
  pub samples : List ℤ
  pub pointers : List ℕ
  pub size : length samples ≡ 1176
  pub pointer_size : length pointers ≡ 294
  pub fits : AllInt16 samples

abbrev pub encode : List Frame → List ℕ
encode [] = []
encode (f ∷ fs) = encode_samples f.samples ++ (f.pointers ++ encode fs)

abbrev pub all_samples : List Frame → List ℤ
all_samples [] = []
all_samples (f ∷ fs) = f.samples ++ all_samples fs

abbrev pub any_reported : List Frame → Bool
any_reported [] = false
any_reported (f ∷ fs) = any_nonzero f.pointers || any_reported fs

bytes_word : (w : ℕ) → w % 256 + w / 256 * 256 ≡ w
bytes_word w = omega arith

to_int16-word : (s : ℤ) → IsInt16 s → to_int16 (word s % 256 + word s / 256 * 256) ≡ s
unfolding to_int16
to_int16-word (pos n) h = rw (bytes_word n) (ground arith)
to_int16-word (negsuc n) h = rw (bytes_word (65535 - n)) (ground arith)

decode_samples-encode_samples :
    (ss : List ℤ) (n : ℕ) (rest : List ℕ)
    → length ss ≡ n
    → AllInt16 ss
    → decode_samples n (encode_samples ss ++ rest) ≡ returned (ss, rest)
unfolding decode_samples
decode_samples-encode_samples [] zero rest e h = refl
decode_samples-encode_samples [] (suc n) rest e h = absurd (omega arith)
decode_samples-encode_samples (s ∷ ss) zero rest e h = absurd (omega arith)
decode_samples-encode_samples (s ∷ ss) (suc n) rest e h =
    rw (decode_samples-encode_samples ss n rest (omega arith) h.1, to_int16-word s h.0) refl

any_pointer-append :
    (bs : List ℕ) (n : ℕ) (rest : List ℕ)
    → length bs ≡ n
    → any_pointer n (bs ++ rest) ≡ returned (any_nonzero bs, rest)
unfolding any_pointer
any_pointer-append [] zero rest e = refl
any_pointer-append [] (suc n) rest e = absurd (omega arith)
any_pointer-append (b ∷ bs) zero rest e = absurd (omega arith)
any_pointer-append (b ∷ bs) (suc n) rest e = rw (any_pointer-append bs n rest (omega arith)) refl

-- Decoding the response that carries some frames, each of 1176 int16_t samples, low byte first, and
-- 294 pointer bytes, gives the samples of all frames in order, and whether a pointer byte is not 0.
pub decode-encode :
    (fs : List Frame) → decode (length fs) (encode fs) ≡ returned (all_samples fs, any_reported fs)
unfolding decode
decode-encode [] = refl
decode-encode (f ∷ fs) =
    rw
      (
        decode_samples-encode_samples f.samples 1176 (f.pointers ++ encode fs) f.size f.fits,
        any_pointer-append f.pointers 294 (encode fs) f.pointer_size,
        decode-encode fs,
      )
      refl

decode_samples-length :
    (n : ℕ) (bytes : List ℕ)
    → n * 2 ≤ length bytes
    → (x : List ℤ × List ℕ) × (decode_samples n bytes ≡ returned x)
      × (length x.0 ≡ n)
      × (length x.1 + n * 2 ≡ length bytes)
unfolding decode_samples
decode_samples-length zero bytes h = (([], bytes), refl, refl, omega arith)
decode_samples-length (suc n) [] h = absurd (omega arith)
decode_samples-length (suc n) (low ∷ []) h = absurd (omega arith)
decode_samples-length (suc n) (low ∷ high ∷ bytes) h =
    let (x, e, samples, rest) = decode_samples-length n bytes (omega arith) in
    (
      (to_int16 (low + high * 256) ∷ x.0, x.1),
      rw e refl,
      omega (arith, samples),
      omega (arith, rest),
    )

any_pointer-length :
    (n : ℕ) (bytes : List ℕ)
    → n ≤ length bytes
    → (x : Bool × List ℕ) × (any_pointer n bytes ≡ returned x) × (length x.1 + n ≡ length bytes)
unfolding any_pointer
any_pointer-length zero bytes h = ((false, bytes), refl, omega arith)
any_pointer-length (suc n) [] h = absurd (omega arith)
any_pointer-length (suc n) (b ∷ bytes) h =
    let (x, e, rest) = any_pointer-length n bytes (omega arith) in
    ((not (b == 0) || x.0, x.1), rw e refl, omega (arith, rest))

decode-length :
    (n : ℕ) (bytes : List ℕ)
    → n * 2646 ≤ length bytes
    → (x : List ℤ × Bool) × (decode n bytes ≡ returned x) × (length x.0 ≡ n * 1176)
unfolding decode
decode-length zero bytes h = (([], false), refl, refl)
decode-length (suc n) bytes h =
    let (x, e, samples, behind) = decode_samples-length 1176 bytes (omega arith) in
    let (y, f, rest) = any_pointer-length 294 x.1 (omega (arith, behind)) in
    let (z, g, more) = decode-length n y.1 (omega (arith, behind, rest)) in
    (
      (x.0 ++ z.0, y.0 || z.1),
      rw (e, f, g) refl,
      omega (arith, length-append x.0 z.0, samples, more),
    )

module _ (T : PacketTransport) (pcm : List ℤ) where
  -- With no error the whole buffer is written and the pointers were observed; with one the buffer is as
  -- it was and nothing is claimed of the pointers.
  abbrev pub ReadPost : Outcome (C2Read T) → Type 0
  ReadPost (returned ((error, status), out, d)) =
      ((error ≡ pos 0)
        × (length out ≡ length pcm)
        × ((status ≡ C2Status.clean) ⊎ (status ≡ C2Status.reported)))
      ⊎ (((error ==ℤ pos 0) ≡ false) × (out ≡ pcm) × (status ≡ C2Status.unknown))
  ReadPost (thrown e) = ⊥
  ReadPost undefined = ⊥

  observed :
      (b : Bool)
      → ((if b then C2Status.reported else C2Status.clean) ≡ C2Status.clean)
        ⊎ ((if b then C2Status.reported else C2Status.clean) ≡ C2Status.reported)
  observed true = inr refl
  observed false = inl refl

  with_response-ReadPost :
      (frames : ℕ) (x : ℤ × List ℕ × ℕ × T.Drive)
      → length x.1 ≡ frames * 2646
      → length pcm ≡ frames * 1176
      → ReadPost (with_response T frames pcm x)
  unfolding with_response
  with_response-ReadPost frames (error, response, transferred, d) size whole =
      let (z, e, long) = decode-length frames response (omega (arith, size)) in
      if-both ReadPost (not (error ==ℤ pos 0)) (λ bad. inr (ground arith, refl, refl))
        (λ _.
          if-both ReadPost (not (transferred == frames * 2646)) (λ _. inr (refl, refl, refl))
            (λ _. rw e (inl (refl, omega (arith, long, whole), observed z.1))))

  -- Over a transport that keeps the length of the buffer it is handed, a call ends with no read out of
  -- bounds: without an error, with the whole buffer written and the pointers clean or reported; or with
  -- an error, the buffer as it was and the pointers unknown.
  pub mmc_c2_audio_read-ReadPost :
      ((command buffer : List ℕ) (d : T.Drive) → length (T.send command buffer d).1 ≡ length buffer)
      → (lba : ℤ) (d : T.Drive) → ReadPost (mmc_c2_audio_read T lba pcm d)
  unfolding mmc_c2_audio_read
  mmc_c2_audio_read-ReadPost keeps lba d =
      if-both ReadPost
        (ltb_ℤ lba (pos 0) || is_nil pcm || not (length pcm % samples_per_frame == 0))
        (λ _. inr (refl, refl, refl))
        (λ shaped.
          if-both ReadPost
            (ltb 75 (length pcm / samples_per_frame)
              || ltb_ℤ (pos int32_max -ℤ lba) (pos (length pcm / samples_per_frame)))
            (λ _. inr (refl, refl, refl))
            (λ _.
              let no_rest : length pcm % 1176 ≡ 0 = ground arith in
              let buffer : List ℕ = replicate (length pcm / samples_per_frame * 2646) 0 in
              let command : List ℕ = read_command lba (length pcm / samples_per_frame) in
              with_response-ReadPost (length pcm / samples_per_frame) (T.send command buffer d)
                (keeps command buffer d
                  ∙ length-replicate (length pcm / samples_per_frame * 2646) 0)
                (omega (arith, no_rest))))
