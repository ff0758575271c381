-- ===== src/Capabilities/Probe/Steps.antt =====
-- What each of the three reports of the probe sets, and that it keeps the rest.
use picdplayer.Outcome.{Outcome, returned, thrown, undefined, ◌>>=◌}
use picdplayer.Prelude.{
  ℕ, ◌/◌, ◌%◌, ◌<◌, ◌≡◌, refl, ◌∙◌, Bool, true, false, not, ◌||◌, inl, inr, List, [], ℤ, pos,
  if◌then◌else◌, if-both, ltb, ◌==◌, length, arith, Bool-cases,
}
use picdplayer.Assessment.{Knowledge}
use picdplayer.Capabilities.{DriveCapabilities}
use picdplayer.Capabilities.Feature.{reported}
use picdplayer.Capabilities.Feature.Post.{ProbePost, SaysBit, be16-IsPair}
use picdplayer.Capabilities.ModePage.{ModePageResult}
use picdplayer.Capabilities.ModePage.Bounds.{byte-below}
use picdplayer.Capabilities.Probe.{audio_report, cache_report}
use picdplayer.Capabilities.Probe.Report.{
  Answers, IsShort, FlagPost, SpeedPost, PointersPost, Others, Reports,
}
use picdplayer.Verifier.{is_nil}

abbrev pub Ends {ℓ} : {A : Type ℓ} → (A → Type 0) → Outcome A → Type 0
Ends P (returned a) = P a
Ends P (thrown e) = ⊥
Ends P undefined = ⊥

pub >>=-Ends {ℓ} :
    {A : Type ℓ} (P : A → Type 0) (Q : DriveCapabilities → Type 0) (o : Outcome A)
    (k : A → Outcome DriveCapabilities)
    → Ends P o
    → ((a : A) → P a → Ends Q (k a))
    → Ends Q (o >>= k)
>>=-Ends P Q (returned a) k p q = q a p
>>=-Ends P Q (thrown e) k p q = absurd p
>>=-Ends P Q undefined k p q = absurd p

pub Ends-map :
    (P Q : DriveCapabilities → Type 0) (o : Outcome DriveCapabilities)
    → ((a : DriveCapabilities) → P a → Q a)
    → Ends P o
    → Ends Q o
Ends-map P Q (returned a) f p = f a p
Ends-map P Q (thrown e) f p = p
Ends-map P Q undefined f p = p

answer_of :
    (bit : ℕ) (text : List ℕ)
    → bit < 2
    → Answers bit Knowledge.yes Knowledge.no (reported (bit == 1) text)
answer_of bit text small = elim (Bool-cases (bit == 1)) [
  | inl set ↦ rw set (refl, inl (ground arith, refl))
  | inr unset ↦ rw unset (refl, inr (ground arith, refl))
]

inverse_of :
    (bit : ℕ) (text : List ℕ)
    → bit < 2
    → Answers bit Knowledge.no Knowledge.yes (reported (not (bit == 1)) text)
inverse_of bit text small = elim (Bool-cases (bit == 1)) [
  | inl set ↦ rw set (refl, inl (ground arith, refl))
  | inr unset ↦ rw unset (refl, inr (ground arith, refl))
]

answer_bit :
    (bit : Bool) (text : List ℕ)
    → Answers (if bit then 1 else 0) Knowledge.yes Knowledge.no (reported bit text)
answer_bit true text = (refl, inl (refl, refl))
answer_bit false text = (refl, inr (refl, refl))

missing_bytes :
    (r : ModePageResult) (n : ℕ)
    → (not (is_nil r.error) || ltb (length r.page) n) ≡ true
    → IsShort r n
missing_bytes r n h = elim (Bool-cases (is_nil r.error)) [
  | inl good ↦ inr (ground arith)
  | inr bad ↦ inl bad
]

missing_speed : (r : ModePageResult) → IsShort r 6 → IsShort r 16
missing_speed r (inl bad) = inl bad
missing_speed r (inr short) = inr (omega arith)

same : (a : DriveCapabilities) → Others a a
same a = (refl, refl, refl, refl, refl, refl, refl, refl, refl, refl, refl, refl, refl)

Others-trans : (a b c : DriveCapabilities) → Others a b → Others b c → Others a c
Others-trans a b c (p1, p2, p3, p4, p5, p6, p7, p8, p9, p10, p11, p12, p13)
      (q1, q2, q3, q4, q5, q6, q7, q8, q9, q10, q11, q12, q13) =
    (
      q1 ∙ p1,
      q2 ∙ p2,
      q3 ∙ p3,
      q4 ∙ p4,
      q5 ∙ p5,
      q6 ∙ p6,
      q7 ∙ p7,
      q8 ∙ p8,
      q9 ∙ p9,
      q10 ∙ p10,
      q11 ∙ p11,
      q12 ∙ p12,
      q13 ∙ p13,
    )

-- The members that the report of the CD/DVD page is about are as they were.
pub record KeepsAudio (b c : DriveCapabilities) : Type 0 where
  pub digital_audio_extraction : c.digital_audio_extraction ≡ b.digital_audio_extraction
  pub accurate_stream : c.accurate_stream ≡ b.accurate_stream
  pub speed : c.current_read_speed_kbytes_per_second ≡ b.current_read_speed_kbytes_per_second
  pub speed_source : c.current_speed_source ≡ b.current_speed_source

pub record PointersStep (answer : ℤ × List ℕ) (a b : DriveCapabilities) : Type 0 where
  pub pointers : PointersPost answer a b
  pub audio : KeepsAudio a b
  pub read_cache : b.read_cache ≡ a.read_cache
  pub others : Others a b

pub record AudioStep (r : ModePageResult) (b c : DriveCapabilities) : Type 0 where
  pub digital_audio_extraction :
      FlagPost r 5 1 Knowledge.yes Knowledge.no b.digital_audio_extraction
        c.digital_audio_extraction
  pub accurate_stream :
      FlagPost r 5 2 Knowledge.yes Knowledge.no b.accurate_stream c.accurate_stream
  pub speed : SpeedPost r b c
  pub c2_supported : c.c2_supported ≡ b.c2_supported
  pub probe_error : c.probe_error ≡ b.probe_error
  pub read_cache : c.read_cache ≡ b.read_cache
  pub others : Others b c

pub record CacheStep (r : ModePageResult) (c d : DriveCapabilities) : Type 0 where
  pub cache : FlagPost r 2 1 Knowledge.no Knowledge.yes c.read_cache d.read_cache
  pub c2_supported : d.c2_supported ≡ c.c2_supported
  pub probe_error : d.probe_error ≡ c.probe_error
  pub audio : KeepsAudio c d
  pub others : Others c d

pub Step-Reports :
    (answer : ℤ × List ℕ) (audio caching : ModePageResult) (a b c d : DriveCapabilities)
    → PointersStep answer a b
    → AudioStep audio b c
    → CacheStep caching c d
    → Reports answer audio caching a d
Step-Reports answer audio caching a b c d p s t = record {
  pointers = rw (t.c2_supported, s.c2_supported, t.probe_error, s.probe_error) p.pointers;
  digital_audio_extraction =
      rw (t.audio.digital_audio_extraction, ← p.audio.digital_audio_extraction)
        s.digital_audio_extraction;
  accurate_stream = rw (t.audio.accurate_stream, ← p.audio.accurate_stream) s.accurate_stream;
  speed = rw (t.audio.speed, t.audio.speed_source, ← p.audio.speed, ← p.audio.speed_source) s.speed;
  read_cache = rw (← p.read_cache, ← s.read_cache) t.cache;
  others = Others-trans a c d (Others-trans a b c p.others s.others) t.others;
}

pub ProbePost-PointersStep :
    (answer : ℤ × List ℕ) (a : DriveCapabilities) (o : Outcome DriveCapabilities)
    → ProbePost a (λ bit. (answer.0 ≡ pos 0) × SaysBit answer.1 bit) o
    → Ends (PointersStep answer a) o
ProbePost-PointersStep answer a (returned b) (inl (text, says, e)) = rw e (record {
  pointers = inl (says, (refl, refl));
  audio = record {
    digital_audio_extraction = refl;
    accurate_stream = refl;
    speed = refl;
    speed_source = refl;
  };
  read_cache = refl;
  others = same a;
})
ProbePost-PointersStep answer a (returned b) (inr (bit, text, (fine, says), e)) = rw e (record {
  pointers = inr (refl, fine, (bit, says, answer_bit bit text));
  audio = record {
    digital_audio_extraction = refl;
    accurate_stream = refl;
    speed = refl;
    speed_source = refl;
  };
  read_cache = refl;
  others = same a;
})
ProbePost-PointersStep answer a (thrown e) p = absurd p
ProbePost-PointersStep answer a undefined p = absurd p

pub audio_report-AudioStep :
    (b : DriveCapabilities) (r : ModePageResult) → Ends (AudioStep r b) (audio_report b r)
unfolding audio_report
audio_report-AudioStep b r =
    if-both (Ends (AudioStep r b)) (not (is_nil r.error) || ltb (length r.page) 6)
      (λ short. record {
        digital_audio_extraction = inl (missing_bytes r 6 short, (refl, refl));
        accurate_stream = inl (missing_bytes r 6 short, (refl, refl));
        speed = inl (missing_speed r (missing_bytes r 6 short), refl, refl);
        c2_supported = refl;
        probe_error = refl;
        read_cache = refl;
        others = same b;
      })
      (λ six.
        let (flags, e, at) = byte-below r.page 5 (ground (arith, six)) in
        let good : is_nil r.error ≡ true = ground (arith, six) in
        rw e (
          if-both (Ends (AudioStep r b)) (ltb (length r.page) 16)
            (λ short. record {
              digital_audio_extraction =
                  inr (good, (flags, at, answer_of (flags / 1 % 2) [] (omega arith)));
              accurate_stream = inr (good, (flags, at, answer_of (flags / 2 % 2) [] (omega arith)));
              speed = inl (inr (ground (arith, short)), refl, refl);
              c2_supported = refl;
              probe_error = refl;
              read_cache = refl;
              others = same b;
            })
            (λ long.
              let (rate, f, pair) = be16-IsPair r.page 14 (ground (arith, long)) in
              rw f (record {
                digital_audio_extraction =
                    inr (good, (flags, at, answer_of (flags / 1 % 2) [] (omega arith)));
                accurate_stream =
                    inr (good, (flags, at, answer_of (flags / 2 % 2) [] (omega arith)));
                speed = inr (good, (rate, pair, refl, refl));
                c2_supported = refl;
                probe_error = refl;
                read_cache = refl;
                others = same b;
              }))))

pub cache_report-CacheStep :
    (c : DriveCapabilities) (r : ModePageResult) → Ends (CacheStep r c) (cache_report c r)
unfolding cache_report
cache_report-CacheStep c r =
    if-both (Ends (CacheStep r c)) (not (is_nil r.error) || ltb (length r.page) 3)
      (λ short. record {
        cache = inl (missing_bytes r 3 short, (refl, refl));
        c2_supported = refl;
        probe_error = refl;
        audio = record {
          digital_audio_extraction = refl;
          accurate_stream = refl;
          speed = refl;
          speed_source = refl;
        };
        others = same c;
      })
      (λ three.
        let (flags, e, at) = byte-below r.page 2 (ground (arith, three)) in
        rw e (record {
          cache =
              inr (ground (arith, three), (flags, at, inverse_of (flags / 1 % 2) [] (omega arith)));
          c2_supported = refl;
          probe_error = refl;
          audio = record {
            digital_audio_extraction = refl;
            accurate_stream = refl;
            speed = refl;
            speed_source = refl;
          };
          others = same c;
        }))
