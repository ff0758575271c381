-- ===== src/Capabilities/Feature/Post.antt =====
-- What the probe of the pointers leaves, whatever the drive answers.
use mathlib.Core.Path.{subst}
use picdplayer.Outcome.{Outcome, returned, thrown, undefined}
use picdplayer.Prelude.{
  ℕ, zero, suc, ◌+◌, ◌*◌, ◌≤◌, ◌<◌, ◌≡◌, ◌≢◌, refl, Bool, false, not, ◌||◌, ◌⊎◌, inl, inr, some,
  List, ℤ, pos, ◌==ℤ◌, if-both, ltb, ◌==◌, length, get_elem?, replicate, length-replicate, arith,
}
use picdplayer.Capabilities.{DriveCapabilities, has_bit, response_bytes, be16}
use picdplayer.Capabilities.Feature.{
  feature_step, scan_features, parse_features, probe_c2_feature, cd_read_feature, get_configuration,
  with_probe_error, with_c2,
}
use picdplayer.Capabilities.ModePage.Bounds.{byte-below}
use picdplayer.Verifier.{is_nil}

-- The two bytes from an index on, the high one first.
abbrev pub IsPair : List ℕ → ℕ → ℕ → Type 0
IsPair bytes i n =
    (high : ℕ) × (low : ℕ) × (get_elem? bytes i ≡ some high)
    × (get_elem? bytes (i + 1) ≡ some low)
    × (n ≡ high * 256 + low)

pub be16-IsPair :
    (bytes : List ℕ) (i : ℕ)
    → i + 1 < length bytes
    → (n : ℕ) × (be16 bytes i ≡ returned n) × IsPair bytes i n
be16-IsPair bytes i h =
    let (high, e, f) = byte-below bytes i (omega (arith, h)) in
    let (low, g, k) = byte-below bytes (i + 1) h in
    (high * 256 + low, rw (e, g) refl, (high, low, f, k, refl))

-- From one index to another there are whole features, none of them the CD Read feature.
pub data Skips (bytes : List ℕ) : ℕ → ℕ → Type 0 where
  here : (i : ℕ) → Skips bytes i i
  next :
      (i j code additional : ℕ)
      → IsPair bytes i code
      → code ≢ 30
      → get_elem? bytes (i + 3) ≡ some additional
      → Skips bytes (i + (4 + additional)) j
      → Skips bytes i j

-- Behind such features there is a CD Read feature with this bit, or the list ends and the bit is 0.
abbrev pub Says : List ℕ → ℕ → ℕ → Bool → Type 0
Says bytes total i bit =
    (j : ℕ) × Skips bytes i j
    × (((flags : ℕ) × IsPair bytes j 30
          × (get_elem? bytes (j + 4) ≡ some flags)
          × (bit ≡ has_bit flags 2))
        ⊎ ((j ≡ total) × (bit ≡ false)))

-- What the list of features in a whole response says, whose length stands in the first four bytes.
abbrev pub SaysBit : List ℕ → Bool → Type 0
SaysBit bytes bit =
    (high : ℕ) × (low : ℕ) × IsPair bytes 0 high
    × IsPair bytes 2 low
    × (high * 65536 + low + 4 ≤ length bytes)
    × Says bytes (high * 65536 + low + 4) 8 bit

module _ (before : DriveCapabilities) where
  -- Only an error is added, or only the flag of the pointers is set, with a reason for its value.
  abbrev pub ProbePost : (Bool → Type 0) → Outcome DriveCapabilities → Type 0
  ProbePost Why (returned after) =
      ((text : List ℕ) × (is_nil text ≡ false) × (after ≡ with_probe_error before text))
      ⊎ ((bit : Bool) × (text : List ℕ) × Why bit × (after ≡ with_c2 before bit text))
  ProbePost Why (thrown e) = ⊥
  ProbePost Why undefined = ⊥

  ProbePost-map :
      (Why Why' : Bool → Type 0) (o : Outcome DriveCapabilities)
      → ((bit : Bool) → Why bit → Why' bit)
      → ProbePost Why o
      → ProbePost Why' o
  ProbePost-map Why Why' (returned after) f (inl p) = inl p
  ProbePost-map Why Why' (returned after) f (inr (bit, text, w, e)) = inr (bit, text, f bit w, e)
  ProbePost-map Why Why' (thrown e) f p = p
  ProbePost-map Why Why' undefined f p = p

  module _ (bytes : List ℕ) (total : ℕ) (whole : total ≤ length bytes) where
    feature_step-ProbePost :
        (offset : ℕ) (continue : ℕ → Outcome DriveCapabilities)
        → ((next : ℕ)
            → offset < next
            → next ≤ total
            → ProbePost (Says bytes total next) (continue next))
        → ProbePost (Says bytes total offset) (feature_step bytes total offset before continue)
    unfolding feature_step
    feature_step-ProbePost offset continue goes =
        let Post : Outcome DriveCapabilities → Type 0 = ProbePost (Says bytes total offset) in
        if-both Post (ltb total (offset + 4)) (λ _. inl (_, refl, refl))
          (λ header.
            let (additional, e, size) =
              byte-below bytes (offset + 3) (ground (arith, header, whole)) in
            rw e (
              if-both Post (ltb total (offset + (4 + additional))) (λ _. inl (_, refl, refl))
                (λ fits.
                  let (code, f, pair) = be16-IsPair bytes offset (ground (arith, header, whole)) in
                  rw f (
                    if-both Post (code == cd_read_feature)
                      (λ is_read.
                        if-both Post (ltb additional 1) (λ _. inl (_, refl, refl))
                          (λ one.
                            let (flags, g, k) =
                              byte-below bytes (offset + 4) (ground (arith, one, fits, whole)) in
                            let read : code ≡ 30 = ground (arith, is_read) in
                            rw g (
                              inr (
                                has_bit flags 2,
                                _,
                                (
                                  offset,
                                  Skips.here offset,
                                  inl (flags, subst (IsPair bytes offset) read pair, k, refl),
                                ),
                                refl,
                              ))))
                      (λ other.
                        ProbePost-map (Says bytes total (offset + (4 + additional)))
                          (Says bytes total offset) (continue (offset + (4 + additional)))
                          (λ bit (j, skips, found). (
                            j,
                            Skips.next offset j code additional pair (λ e. ground (arith, e, other))
                                size skips,
                            found,
                          ))
                          (goes (offset + (4 + additional)) (omega arith)
                            (ground (arith, fits))))))))

    scan_features-ProbePost :
        (fuel offset : ℕ)
        → total < offset + fuel
        → offset ≤ total
        → ProbePost (Says bytes total offset) (scan_features fuel bytes total offset before)
    unfolding scan_features
    scan_features-ProbePost zero offset enough inside = absurd (omega (arith, enough, inside))
    scan_features-ProbePost (suc fuel) offset enough inside =
        if-both (ProbePost (Says bytes total offset)) (ltb offset total)
          (λ _.
            feature_step-ProbePost offset (λ next. scan_features fuel bytes total next before)
              (λ next further kept.
                scan_features-ProbePost fuel next (omega (arith, further, enough)) kept))
          (λ ends.
            inr (
              false,
              _,
              (offset, Skips.here offset, inr (ground (arith, ends, inside), refl)),
              refl,
            ))

  parse_features-ProbePost :
      (bytes : List ℕ) → 8 ≤ length bytes → ProbePost (SaysBit bytes) (parse_features before bytes)
  unfolding parse_features
  parse_features-ProbePost bytes long =
      let (high, e, first) = be16-IsPair bytes 0 (omega (arith, long)) in
      let (low, f, second) = be16-IsPair bytes 2 (omega (arith, long)) in
      let total : ℕ = high * 65536 + low + 4 in
      rw e (
        rw f (
          if-both (ProbePost (SaysBit bytes))
            (ltb (high * 65536 + low) 4 || ltb (length bytes) (high * 65536 + low + 4))
            (λ _. inl (_, refl, refl))
            (λ good.
              let whole : total ≤ length bytes = ground (arith, good) in
              ProbePost-map (Says bytes total 8) (SaysBit bytes)
                (scan_features total bytes total 8 before)
                (λ bit says. (high, low, first, second, whole, says))
                (scan_features-ProbePost bytes total whole total 8 (omega arith)
                  (ground (arith, good))))))

  -- Whatever a drive answers to GET CONFIGURATION, over a transport that keeps the length of the buffer
  -- and with no empty text for an errno: the probe ends with no read behind the buffer, and either only
  -- leaves an error, so that the flag of the pointers stays as it was, or only sets that flag, when the
  -- command succeeded, to what the first CD Read feature of the answer says, or to no without one.
  pub probe_c2_feature-ProbePost :
      (error_text : ℤ → List ℕ) (transport : List ℕ → List ℕ → ℤ × List ℕ)
      → ((e : ℤ) → is_nil (error_text e) ≡ false)
      → ((command buffer : List ℕ) → length (transport command buffer).1 ≡ length buffer)
      → ProbePost
          (λ bit.
            ((transport get_configuration (replicate response_bytes 0)).0 ≡ pos 0)
            × SaysBit (transport get_configuration (replicate response_bytes 0)).1 bit)
          (probe_c2_feature error_text transport before)
  unfolding probe_c2_feature
  probe_c2_feature-ProbePost error_text transport says keeps =
      let answer : ℤ × List ℕ = transport get_configuration (replicate response_bytes 0) in
      let zero_byte : ℕ = 0 in
      if-both (ProbePost (λ bit. (answer.0 ≡ pos 0) × SaysBit answer.1 bit))
        (not (answer.0 ==ℤ pos 0)) (λ _. inl (_, says answer.0, refl))
        (λ fine.
          ProbePost-map (SaysBit answer.1) (λ bit. (answer.0 ≡ pos 0) × SaysBit answer.1 bit)
            (parse_features before answer.1) (λ bit w. (ground (arith, fine), w))
            (parse_features-ProbePost answer.1 (
              omega (
                arith,
                keeps get_configuration (replicate response_bytes zero_byte),
                length-replicate response_bytes zero_byte,
              ))))
