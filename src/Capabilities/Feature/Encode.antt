-- ===== src/Capabilities/Feature/Encode.antt =====
-- The feature list of a response, and what is reported of it.
use picdplayer.Outcome.{Outcome, returned, ◌>>=◌}
use picdplayer.Prelude.{
  ℕ, zero, suc, ◌+◌, ◌*◌, ◌≤◌, ◌<◌, ◌≡◌, refl, sym, ap, ◌∙◌, true, false, ◌||◌, some, List, [], ◌∷◌,
  ◌++◌, if◌then◌else◌, ltb, ◌==◌, length, length-append, drop, get_elem?, arith,
}
use native.Mathlib.Nat.{add-zero}
use picdplayer.Prelude.Slice.{drop-drop, drop-append, append_assoc}
use picdplayer.Capabilities.{DriveCapabilities, byte}
use picdplayer.Capabilities.Feature.{
  feature_step, scan_features, parse_features, feature_absent, feature_flags, feature_truncated,
  cd_read_feature,
}

-- A feature descriptor: its code in two bytes, its third byte, and the bytes behind the header.
pub record Feature : Type 0 where
  pub high : ℕ
  pub low : ℕ
  pub version : ℕ
  pub payload : List ℕ

abbrev pub encode : List Feature → List ℕ
encode [] = []
encode (f ∷ fs) = f.high ∷ f.low ∷ f.version ∷ length f.payload ∷ (f.payload ++ encode fs)

abbrev pub code_of : Feature → ℕ
code_of f = f.high * 256 + f.low

abbrev pub flags_or_truncated : DriveCapabilities → List ℕ → DriveCapabilities
flags_or_truncated result [] = feature_truncated result
flags_or_truncated result (flags ∷ rest) = feature_flags result flags

-- The first CD Read feature tells; without one the pointers are not supported.
abbrev pub report : DriveCapabilities → List Feature → DriveCapabilities
report result [] = feature_absent result
report result (f ∷ fs) =
    let rest = report result fs in
    if code_of f == cd_read_feature then flags_or_truncated result f.payload else rest

get_elem?-drop {ℓ} :
    {A : Type ℓ} (xs : List A) (n i : ℕ) → get_elem? xs (n + i) ≡ get_elem? (drop n xs) i
get_elem?-drop xs zero i = ap (get_elem? xs) (omega arith)
get_elem?-drop [] (suc n) i = refl
get_elem?-drop (x ∷ xs) (suc n) i =
    let next : suc n + i ≡ suc (n + i) = omega arith in
    ap (get_elem? (x ∷ xs)) next ∙ get_elem?-drop xs n i

module _ (bytes padding : List ℕ) (result : DriveCapabilities) where
  feature_step-encode :
      (high low version : ℕ) (payload rest : List ℕ) (offset total : ℕ)
      (continue : ℕ → Outcome DriveCapabilities)
      → drop offset bytes ≡ high ∷ low ∷ version ∷ length payload ∷ (payload ++ rest)
      → offset + (4 + length payload) ≤ total
      → feature_step bytes total offset result continue ≡ (
          if high * 256 + low == cd_read_feature
          then returned (flags_or_truncated result payload)
          else continue (offset + (4 + length payload)))
  unfolding feature_step
  feature_step-encode high low version payload rest offset total continue here fits =
      let whole : ltb total (offset + 4) ≡ false = ground (arith, fits) in
      let inside : ltb total (offset + (4 + length payload)) ≡ false = ground (arith, fits) in
      let at : (i : ℕ)
          → get_elem? bytes (offset + i)
            ≡ get_elem? (high ∷ low ∷ version ∷ length payload ∷ (payload ++ rest)) i =
        λ i. get_elem?-drop bytes offset i ∙ ap (λ xs. get_elem? xs i) here in
      let first : get_elem? bytes offset ≡ some high =
        ap (get_elem? bytes) (sym (add-zero offset)) ∙ at 0 in
      rw (whole, at 3, inside, first, at 1) (by_code payload (at 4))
    where
      by_code :
          (payload : List ℕ)
          → get_elem? bytes (offset + 4) ≡ get_elem? (payload ++ rest) 0
          → (if high * 256 + low == cd_read_feature
              then (if ltb (length payload) 1
                  then returned (feature_truncated result)
                  else byte bytes (offset + 4) >>= λ flags. returned (feature_flags result flags))
              else continue (offset + (4 + length payload)))
            ≡ (if high * 256 + low == cd_read_feature
                then returned (flags_or_truncated result payload)
                else continue (offset + (4 + length payload)))
      by_code [] e = refl
      by_code (flags ∷ more) e =
          (let long : ltb (length (flags ∷ more)) 1 ≡ false = ground arith in rw (e, long) refl)

  pub scan_features-encode :
      (fs : List Feature) (fuel offset total : ℕ)
      → drop offset bytes ≡ encode fs ++ padding
      → total ≡ offset + length (encode fs)
      → total < offset + fuel
      → scan_features fuel bytes total offset result ≡ returned (report result fs)
  unfolding scan_features
  scan_features-encode fs zero offset total here sized enough =
      absurd (omega (arith, sized, enough))
  scan_features-encode [] (suc fuel) offset total here sized enough =
      let ended : ltb offset total ≡ false = ground (arith, sized) in rw ended refl
  scan_features-encode (f ∷ fs) (suc fuel) offset total here sized enough =
      let long : length (encode (f ∷ fs)) ≡ 4 + length f.payload + length (encode fs) =
        omega (arith, length-append f.payload (encode fs)) in
      let more : ltb offset total ≡ true = ground (arith, sized, long) in
      let shape : drop offset bytes
          ≡ f.high ∷ f.low ∷ f.version ∷ length f.payload ∷ (f.payload ++ (encode fs ++ padding)) =
        here
        ∙ ap (λ xs. f.high ∷ f.low ∷ f.version ∷ length f.payload ∷ xs)
            (append_assoc f.payload (encode fs) padding) in
      let behind : drop (offset + (4 + length f.payload)) bytes ≡ encode fs ++ padding =
        sym (drop-drop offset (4 + length f.payload) (offset + (4 + length f.payload)) bytes refl)
        ∙ ap (drop (4 + length f.payload)) shape
        ∙ drop-append (f.high ∷ f.low ∷ f.version ∷ length f.payload ∷ f.payload)
            (encode fs ++ padding) (4 + length f.payload) 0 (omega arith) in
      let rest =
        scan_features-encode fs fuel (offset + (4 + length f.payload)) total behind
          (omega (arith, sized, long)) (omega (arith, enough)) in
      rw
        (
          more,
          feature_step-encode f.high f.low f.version f.payload (encode fs ++ padding) offset total
              (λ next. scan_features fuel bytes total next result) shape
              (omega (arith, sized, long)),
          rest,
        )
        (ground arith)

-- A response whose length field counts the four bytes behind it and the feature list, whatever is in
-- those four bytes, in the third bytes of the features and behind the list: its first CD Read feature
-- tells whether pointers are supported, by the second bit of its first byte; a CD Read feature with no
-- byte is an error, and without such a feature pointers are reported as not supported.
pub parse_features-encode :
    (b0 b1 b2 b3 c0 c1 c2 c3 : ℕ) (fs : List Feature) (padding : List ℕ)
    (result : DriveCapabilities)
    → (b0 * 256 + b1) * 65536 + (b2 * 256 + b3) ≡ 4 + length (encode fs)
    → parse_features result (b0 ∷ b1 ∷ b2 ∷ b3 ∷ c0 ∷ c1 ∷ c2 ∷ c3 ∷ (encode fs ++ padding))
      ≡ returned (report result fs)
unfolding parse_features
parse_features-encode b0 b1 b2 b3 c0 c1 c2 c3 fs padding result counted =
    let bytes : List ℕ = b0 ∷ b1 ∷ b2 ∷ b3 ∷ c0 ∷ c1 ∷ c2 ∷ c3 ∷ (encode fs ++ padding) in
    let n : ℕ = (b0 * 256 + b1) * 65536 + (b2 * 256 + b3) in
    let good : (ltb n 4 || ltb (length bytes) (n + 4)) ≡ false =
      ground (arith, counted, length-append (encode fs) padding) in
    rw good (
      scan_features-encode bytes padding result fs (n + 4) 8 (n + 4) refl (omega (arith, counted))
        (omega arith))
