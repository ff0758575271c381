-- ===== src/Direct/Repeat.antt =====
-- LinuxIoctlReader: a block whose request for pointers and ordinary reads all fail is retried twice over.
use picdplayer.Prelude.{
  ℕ, zero, suc, ◌+◌, ◌*◌, ◌<◌, ◌^◌, ◌≡◌, refl, true, false, List, ℤ, pos, ◌==ℤ◌, arith,
}
use picdplayer.Reader.{C2Status, add32}
use picdplayer.Direct.{
  Transports, DirectOptions, Tried, try_read, block_read, read_again, after_c2, read_block, eio,
}

module _ (T : Transports) (o : DirectOptions) (lba : ℤ) where
  open T use {Device}

  abbrev pub AlwaysFails : Type 0
  AlwaysFails = (b : List ℤ) (d : Device) → (T.audio_read lba b d).0 ≡ eio

  abbrev pub NoPointers : Type 0
  NoPointers = (b : List ℤ) (d : Device) → ((T.c2_read lba b d).0.0 ==ℤ pos 0) ≡ false

  try_read-AlwaysFails :
      AlwaysFails
      → (left n : ℕ) (b : List ℤ) (d : Device) → n + left < 2 ^ 32
      → ((try_read T left lba n b d).retries ≡ n + left) × ((try_read T left lba n b d).error ≡ eio)
  unfolding try_read
  try_read-AlwaysFails fails zero n b d small = (omega arith, fails b d)
  try_read-AlwaysFails fails (suc left) n b d small =
      let again =
        try_read-AlwaysFails fails left (add32 n 1) (T.audio_read lba b d).1
          (T.audio_read lba b d).2 (omega arith) in
      rw (fails b d) (omega (arith, again.0), again.1)

  -- With pointers requested and not required, when the request for the pointers and every ordinary read fail, the reads with EIO, a block adds twice the option's number of retries: the ordinary reads are made by two loops of the function, one after the other.
  pub read_block-AlwaysFails :
      AlwaysFails
      → NoPointers
      → o.request_c2_pointers ≡ true
      → o.require_c2_pointers ≡ false
      → (n : ℕ) (b : List ℤ) (d : Device) → n + 2 * o.retries < 2 ^ 32
      → (t : Tried T) × (read_block T o lba n b d ≡ block_read t C2Status.unknown)
        × (t.error ≡ eio)
        × (t.retries ≡ n + 2 * o.retries)
  unfolding read_block after_c2 read_again
  read_block-AlwaysFails fails none asked optional n b d small =
      let first_block = (T.c2_read lba b d).1 in
      let device = (T.c2_read lba b d).2 in
      let t = try_read T o.retries lba n first_block device in
      let first = try_read-AlwaysFails fails o.retries n first_block device (omega arith) in
      let second =
        try_read-AlwaysFails fails o.retries t.retries t.block t.device (omega (arith, first.0)) in
      (
        try_read T o.retries lba t.retries t.block t.device,
        rw (asked, none b d, optional, first.1) refl,
        second.1,
        omega (arith, first.0, second.0),
      )
