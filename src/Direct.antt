-- ===== src/Direct.antt =====
-- src/cdda_reader.cpp: LinuxIoctlReader, which reads through the kernel's audio ioctl in blocks of at
-- most 75 frames, with an optional request for the drive's error pointers.
-- The two transports are parameters: they are handed the block's buffer and give it back.
pub mod Copy
pub mod Block
pub mod Read
pub mod Reads
pub mod Repeat
use picdplayer.Outcome.{Outcome, returned, thrown, invalid_argument, logic_error}
use picdplayer.Prelude.{
  ℕ, zero, suc, ◌+◌, ◌-◌, ◌*◌, ◌/◌, ◌%◌, Bool, true, false, not, ◌&&◌, ◌||◌, List, [], ◌∷◌, ◌++◌, ℤ,
  pos, negsuc, ◌+ℤ◌, ◌-ℤ◌, ltb_ℤ, ◌==ℤ◌, ltb, ◌==◌, if◌then◌else◌, length, take, drop, replicate,
  min,
}
use picdplayer.Reader.{
  ReadResult, ReadStatus, C2Status, read_result, samples_per_frame, int32_max, add32,
}
use picdplayer.Verifier.{is_nil, same_c2, merge_c2_status}

abbrev pub eio : ℤ
eio = pos 5

abbrev pub eproto : ℤ
eproto = pos 71

pub record DirectOptions : Type 0 where
  pub retries : ℕ
  pub request_c2_pointers : Bool
  pub inactive_c2_status : C2Status
  pub require_c2_pointers : Bool
  pub c2_timeout_ms : ℕ

-- Each call gives an errno, or 0, the buffer that it was handed as it is after the call, and the
-- next state of the device.
pub record Transports : Type 1 where
  pub Device : Type 0
  pub audio_read : ℤ → List ℤ → Device → ℤ × List ℤ × Device
  pub c2_read : ℤ → List ℤ → Device → (ℤ × C2Status) × List ℤ × Device

-- The constructor's check; whether each transport is given is an argument.
unfoldable pub validate_options : Bool → Bool → DirectOptions → Outcome (Unit {0})
validate_options has_transport has_c2_transport o =
    if not has_transport
      || ltb 10 o.retries
      || (o.c2_timeout_ms == 0)
      || ltb 5000 o.c2_timeout_ms
      || (o.require_c2_pointers && not o.request_c2_pointers)
      || (o.request_c2_pointers && not has_c2_transport)
      || (not o.request_c2_pointers
          && not (same_c2 o.inactive_c2_status C2Status.not_checked)
          && not (same_c2 o.inactive_c2_status C2Status.not_available))
    then thrown invalid_argument
    else returned tt

-- An observation of pointers: clean or reported.
abbrev pub is_observed : C2Status → Bool
is_observed s = same_c2 s C2Status.clean || same_c2 s C2Status.reported

module _ (T : Transports) where
  open T use {Device}

  -- After the loop of the ordinary reads of a block.
  pub record Tried : Type 0 where
    pub error : ℤ
    pub block : List ℤ
    pub device : Device
    pub retries : ℕ

  abbrev pub tried_once : ℕ → ℤ × List ℤ × Device → Tried
  tried_once n (error, block, device) = record {
    error = error;
    block = block;
    device = device;
    retries = n;
  }

  -- do { ... } while (true), with the retries that are left and the count of retries so far.
  unfoldable pub try_read : ℕ → ℤ → ℕ → List ℤ → Device → Tried
  try_read zero lba n block d = tried_once n (T.audio_read lba block d)
  try_read (suc left) lba n block d =
      let t = tried_once n (T.audio_read lba block d) in
      let again = try_read left lba (add32 n 1) t.block t.device in
      if t.error ==ℤ eio then again else t

  -- How the body of the loop ends for a block: with the call's result, or with the last error, the
  -- block's pointer status and the call's retries.
  pub data BlockRead : Type 0 where
    pointers_required : ℤ → List ℤ → Device → BlockRead
    block_read : Tried → C2Status → BlockRead

  unfoldable pub read_plain : DirectOptions → ℤ → ℕ → List ℤ → Device → BlockRead
  unfolding try_read
  read_plain o lba n block d = block_read (try_read o.retries lba n block d) o.inactive_c2_status

  -- The second ordinary read, which follows when the error of the first is left.
  unfoldable pub read_again : DirectOptions → ℤ → Tried → BlockRead
  unfolding try_read
  read_again o lba t =
      if t.error ==ℤ pos 0
      then block_read t C2Status.unknown
      else block_read (try_read o.retries lba t.retries t.block t.device) C2Status.unknown

  unfoldable pub after_c2 : DirectOptions → ℤ → ℕ → (ℤ × C2Status) × List ℤ × Device → BlockRead
  unfolding try_read read_again
  after_c2 o lba n ((error, status), block, d) =
      if (error ==ℤ pos 0) && is_observed status
      then block_read (record { error = pos 0; block = block; device = d; retries = n }) status
      else if o.require_c2_pointers
      then pointers_required (if error ==ℤ pos 0 then eproto else error) block d
      else read_again o lba (try_read o.retries lba n block d)

  unfoldable pub read_block : DirectOptions → ℤ → ℕ → List ℤ → Device → BlockRead
  unfolding read_plain after_c2
  read_block o lba n block d =
      if o.request_c2_pointers
      then after_c2 o lba n (T.c2_read lba block d)
      else read_plain o lba n block d

  -- The locals of read and the object's cursor.
  pub record Reading : Type 0 where
    pub result : ReadResult
    pub pcm : List ℤ
    pub scratch : List ℤ
    pub cursor : ℤ
    pub positioned : Bool
    pub device : Device

  -- std::copy of a block to an index of the caller's buffer.
  unfoldable pub copy_to : List ℤ → ℕ → List ℤ → List ℤ
  copy_to pcm i block = take i pcm ++ (block ++ drop (i + length block) pcm)

  abbrev pub block_frames : ReadResult → ℕ
  block_frames r = min 75 (r.frames_requested - r.frames_read)

  unfoldable pub c2_after : ReadResult → C2Status → C2Status
  c2_after r block =
      if r.frames_read == 0
      then block
      else if same_c2 r.c2_status C2Status.reported || same_c2 block C2Status.reported
      then C2Status.reported
      else if not (same_c2 r.c2_status block)
      then C2Status.unknown
      else r.c2_status

  unfoldable pub fail : Reading → ReadResult → List ℤ → Device → Reading
  fail g result scratch d = record g {
    result = result;
    scratch = scratch;
    positioned = false;
    device = d;
  }

  unfoldable pub with_block : Reading → List ℤ → C2Status → Tried → Reading
  unfolding c2_after copy_to
  with_block g scratch c2 t =
      let frames = block_frames g.result in
      record {
        result = record g.result {
          retries = t.retries;
          c2_status = c2_after g.result c2;
          frames_read = g.result.frames_read + frames;
        };
        pcm = copy_to g.pcm (g.result.frames_read * samples_per_frame) t.block;
        scratch = scratch;
        cursor = g.cursor +ℤ pos frames;
        positioned = g.positioned;
        device = t.device;
      }

  -- scratch, of which a block is the first part, after the block's reads
  abbrev pub scratch_after : List ℤ → List ℤ → List ℤ
  scratch_after block scratch = block ++ drop (length block) scratch

  -- The end of the loop's body, and whether the loop goes on.
  unfoldable pub after_block : Reading → BlockRead → Reading × Bool
  unfolding fail with_block
  after_block g (pointers_required error block d) = (
    fail g
        (record g.result {
          c2_status = C2Status.unknown;
          status = ReadStatus.read_error;
          native_error = error;
        })
        (scratch_after block g.scratch) d,
    false,
  )
  after_block g (block_read t c2) =
      if t.error ==ℤ pos 0 then (with_block g (scratch_after t.block g.scratch) c2 t, true) else (
        fail g
            (record g.result {
              retries = t.retries;
              status = ReadStatus.read_error;
              native_error = t.error;
            })
            (scratch_after t.block g.scratch) t.device,
        false,
      )

  unfoldable pub read_step : DirectOptions → Reading → Reading × Bool
  unfolding read_block after_block
  read_step o g = after_block g (
      read_block o g.cursor g.result.retries
        (take (block_frames g.result * samples_per_frame) g.scratch) g.device)

  -- The loop, on fuel: each turn that goes on reads a frame or more.
  unfoldable pub read_loop : DirectOptions → ℕ → Reading → Reading
  unfolding read_step
  read_loop o zero g = g
  read_loop o (suc fuel) g =
      let turn = read_step o g in
      let rest = read_loop o fuel turn.0 in
      if ltb g.result.frames_read g.result.frames_requested
      then (if turn.1 then rest else turn.0)
      else g

  pub record LinuxIoctlReader : Type 0 where
    pub options : DirectOptions
    pub cursor : ℤ
    pub positioned : Bool
    pub device : Device

  unfoldable pub seek : ℤ → LinuxIoctlReader → Outcome (Unit {0}) × LinuxIoctlReader
  seek lba r =
      if ltb_ℤ lba (pos 0)
      then (thrown invalid_argument, r)
      else (returned tt, record r { cursor = lba; positioned = true })

  -- The state of the loop before its first turn.
  unfoldable pub start_reading : List ℤ → LinuxIoctlReader → Reading
  start_reading pcm r = record {
    result =
        record (read_result r.cursor (length pcm / samples_per_frame) 0 ReadStatus.ok (pos 0) 0) {
          c2_status =
              if r.options.request_c2_pointers
              then C2Status.unknown
              else r.options.inactive_c2_status;
        };
    pcm = pcm;
    scratch = replicate (75 * samples_per_frame) (pos 0);
    cursor = r.cursor;
    positioned = r.positioned;
    device = r.device;
  }

  abbrev pub finish : LinuxIoctlReader → Reading → Outcome (ReadResult × List ℤ) × LinuxIoctlReader
  finish r g = (
    returned (g.result, g.pcm),
    record r { cursor = g.cursor; positioned = g.positioned; device = g.device },
  )

  unfoldable pub read : List ℤ → LinuxIoctlReader → Outcome (ReadResult × List ℤ) × LinuxIoctlReader
  unfolding read_loop start_reading
  read pcm r =
      if not r.positioned
      then (thrown logic_error, r)
      else if is_nil pcm || not (length pcm % samples_per_frame == 0)
      then (thrown invalid_argument, r)
      else if ltb_ℤ (pos int32_max -ℤ r.cursor) (pos (length pcm / samples_per_frame))
      then (thrown invalid_argument, r)
      else finish r (read_loop r.options (length pcm / samples_per_frame) (start_reading pcm r))
