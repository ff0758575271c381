-- ===== src/Direct/Reads.antt =====
-- LinuxIoctlReader: how many ordinary reads the device sees for one block.
use picdplayer.Prelude.{
  ℕ, zero, suc, ◌+◌, ◌*◌, ◌^◌, ◌≤◌, ◌<◌, ◌≡◌, refl, true, false, ◌&&◌, ◌⊎◌, inl, inr, List, ℤ, pos,
  neg_part, ◌==ℤ◌, if-both, length, arith,
}
use picdplayer.Reader.{C2Status, add32}
use picdplayer.Direct.{
  Transports, DirectOptions, Tried, try_read, BlockRead, pointers_required, block_read, read_plain,
  read_again, after_c2, read_block, is_observed, eio,
}
use picdplayer.Direct.Block.{GivesDisc, BlockPost, read_block-BlockPost}

-- A counter kept on the device's side: one more for each ordinary read, the same for a read with pointers.
pub record IsCounter (T : Transports) (reads : T.Device → ℕ) : Type 0 where
  pub audio : (lba : ℤ) (b : List ℤ) (d : T.Device) → reads (T.audio_read lba b d).2 ≡ suc (reads d)
  pub pointers : (lba : ℤ) (b : List ℤ) (d : T.Device) → reads (T.c2_read lba b d).2 ≡ reads d

module _ (T : Transports) (reads : T.Device → ℕ) (counter : IsCounter T reads) (lba : ℤ) where
  open T use {Device}

  -- One loop with `left` retries, from `n` retries and `seen` reads on.
  pub record Looped (left n seen : ℕ) (t : Tried T) : Type 0 where
    pub some_read : seen < reads t.device
    pub at_most : reads t.device ≤ seen + suc left
    pub counted : n + left < 2 ^ 32 → suc (t.retries + seen) ≡ n + reads t.device
    pub gave_up : (t.error ==ℤ eio) ≡ true → reads t.device ≡ seen + suc left

  try_read-Looped :
      (left n : ℕ) (b : List ℤ) (d : Device) → Looped left n (reads d) (try_read T left lba n b d)
  unfolding try_read
  try_read-Looped zero n b d =
      let one = counter.audio lba b d in
      record {
        some_read = omega (arith, one);
        at_most = omega (arith, one);
        counted = λ small. omega (arith, one);
        gave_up = λ e. omega (arith, one);
      }
  try_read-Looped (suc left) n b d =
      let one = counter.audio lba b d in
      if-both (Looped (suc left) n (reads d)) ((T.audio_read lba b d).0 ==ℤ eio)
        (λ _.
          let again =
            try_read-Looped left (add32 n 1) (T.audio_read lba b d).1 (T.audio_read lba b d).2 in
          record {
            some_read = omega (arith, one, again.some_read);
            at_most = omega (arith, one, again.at_most);
            counted = λ small. omega (arith, one, again.counted (omega (arith, small)), small);
            gave_up = λ e. omega (arith, one, again.gave_up e);
          })
        (λ other. record {
          some_read = omega (arith, one);
          at_most = omega (arith, one);
          counted = λ small. omega (arith, one);
          gave_up = λ e. absurd (ground (arith, e, other));
        })

  module _ (o : DirectOptions) where
    -- The device has seen no ordinary read, and no retry is counted.
    pub record WithPointers (n seen : ℕ) (t : Tried T) : Type 0 where
      pub asked : o.request_c2_pointers ≡ true
      pub error : t.error ≡ pos 0
      pub no_read : reads t.device ≡ seen
      pub no_retry : t.retries ≡ n

    -- One loop, which is the only one when pointers are not asked for, or when it ended with error 0.
    pub record Once (n seen : ℕ) (t : Tried T) : Type 0 where
      pub loop : Looped o.retries n seen t
      pub last : (o.request_c2_pointers ≡ false) ⊎ ((t.error ==ℤ pos 0) ≡ true)

    -- Two loops, the second after an error that the first left.
    pub record Twice (n seen : ℕ) (t : Tried T) : Type 0 where
      pub asked : o.request_c2_pointers ≡ true
      pub first : Tried T
      pub loop : Looped o.retries n seen first
      pub failed : (first.error ==ℤ pos 0) ≡ false
      pub again : Looped o.retries first.retries (reads first.device) t
      pub total : reads t.device ≤ seen + 2 * suc o.retries
      pub counted : n + 2 * o.retries < 2 ^ 32 → t.retries + seen + 2 ≡ n + reads t.device

    abbrev pub ReadsPost : ℕ → ℕ → BlockRead T → Type 0
    ReadsPost n seen (pointers_required error block d) =
        (reads d ≡ seen) × (o.require_c2_pointers ≡ true)
    ReadsPost n seen (block_read t c2) = WithPointers n seen t ⊎ (Once n seen t ⊎ Twice n seen t)

    read_again-ReadsPost :
        (n seen : ℕ) (t : Tried T)
        → o.request_c2_pointers ≡ true
        → Looped o.retries n seen t
        → ReadsPost n seen (read_again T o lba t)
    unfolding read_again
    read_again-ReadsPost n seen t asked h =
        if-both (ReadsPost n seen) (t.error ==ℤ pos 0)
          (λ good. inr (inl (record { loop = h; last = inr good })))
          (λ bad.
            let again = try_read-Looped o.retries t.retries t.block t.device in
            inr (
              inr (record {
                asked = asked;
                first = t;
                loop = h;
                failed = bad;
                again = again;
                total = omega (arith, h.at_most, again.at_most);
                counted = λ small.
                    let one = h.counted (omega (arith, small)) in
                    let two = again.counted (omega (arith, small, one, h.at_most)) in
                    omega (arith, one, two);
              })))

    after_c2-ReadsPost :
        (n seen : ℕ) (x : (ℤ × C2Status) × List ℤ × Device)
        → o.request_c2_pointers ≡ true
        → reads x.2 ≡ seen
        → ReadsPost n seen (after_c2 T o lba n x)
    unfolding after_c2
    after_c2-ReadsPost n seen ((error, status), block, d) asked same =
        if-both (ReadsPost n seen) ((error ==ℤ pos 0) && is_observed status)
          (λ _. inl (record { asked = asked; error = refl; no_read = same; no_retry = refl }))
          (λ _.
            if-both (ReadsPost n seen) o.require_c2_pointers (λ required. (same, required))
              (λ _.
                rw (← same)
                  (read_again-ReadsPost n (reads d) _ asked (try_read-Looped o.retries n block d))))

    read_block-counted :
        (n : ℕ) (b : List ℤ) (d : Device) → ReadsPost n (reads d) (read_block T o lba n b d)
    unfolding read_block read_plain
    read_block-counted n b d =
        if-both (ReadsPost n (reads d)) o.request_c2_pointers
          (λ asked.
            after_c2-ReadsPost n (reads d) (T.c2_read lba b d) asked (counter.pointers lba b d))
          (λ plain. inr (inl (record { loop = try_read-Looped o.retries n b d; last = inl plain })))

-- Over transports that give the disc's entries when they give no error, at an LBA that is not negative,
-- the reads of one block leave a buffer of its length, which holds the entries of its frames when the
-- last error is 0. By a count of the ordinary reads on the device's side there are none of them when
-- the pointers are read, or when pointers are required and not read, which ends with an error; else
-- there is one loop of at least one read and at most the option's number plus one, and a second such
-- loop exactly when pointers are requested and the first loop left an error. A loop ends with EIO only
-- after all its reads. The counter of retries grows by at most twice the option's number, and as long
-- as 32 bits hold the retries, those counted are the reads less one for each loop.
pub read_block-ReadsPost :
    (T : Transports) (disc : ℕ → ℤ) (gives : GivesDisc T disc) (reads : T.Device → ℕ)
    (counter : IsCounter T reads) (o : DirectOptions) (lba : ℤ) (fine : neg_part lba ≡ 0) (n : ℕ)
    (b : List ℤ) (d : T.Device)
    → BlockPost T disc gives o lba fine (length b) n (read_block T o lba n b d)
      × ReadsPost T reads counter lba o n (reads d) (read_block T o lba n b d)
read_block-ReadsPost T disc gives reads counter o lba fine n b d = (
  read_block-BlockPost T disc gives o lba fine n b d,
  read_block-counted T reads counter lba o n b d,
)
