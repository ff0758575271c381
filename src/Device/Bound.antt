-- ===== src/Device/Bound.antt =====
-- src/device_lifecycle.cpp, EpochReader: a reader bound to a generation of the device. `current` is a
-- callback; its answer may change between two calls, so it is a function of the number of its calls.
use picdplayer.Outcome.{Outcome, returned, thrown, undefined, system_error}
use picdplayer.Prelude.{
  ℕ, suc, ◌≢◌, ◌+◌, ◌<◌, ◌^◌, ◌≡◌, inl, inr, ap, sym, ◌∙◌, Bool, true, List, ℤ, length,
  if◌then◌else◌, Bool-cases, arith,
}
use picdplayer.Reader.{CddaReader, ReadResult}
use picdplayer.Device.{DevicePresence, DeviceObservationTracker, permits}
use picdplayer.Device.Epoch.{Event, AllAgree, run, permits-AllAgree}

module _ (R : CddaReader) (current : ℕ → Bool) where
  pub record EpochReader : Type 0 where
    pub reader : R.State
    pub calls : ℕ

  abbrev pub check : EpochReader → Outcome (Unit {0}) × EpochReader
  check s = (
    if current s.calls then returned tt else thrown system_error,
    record s { calls = suc s.calls },
  )

  -- The second check, unless the call ended by an exception.
  unfoldable pub checked : {A : Type 0} → Outcome A × R.State → ℕ → Outcome A × EpochReader
  checked (returned x, r) n =
      (if current n then returned x else thrown system_error, record { reader = r; calls = suc n })
  checked (thrown e, r) n = (thrown e, record { reader = r; calls = n })
  checked (undefined, r) n = (undefined, record { reader = r; calls = n })

  unfoldable pub seek : ℤ → EpochReader → Outcome (Unit {0}) × EpochReader
  unfolding checked
  seek position s =
      let after = record s { calls = suc s.calls } in
      if current s.calls
      then checked (R.seek position s.reader) (suc s.calls)
      else (thrown system_error, after)

  unfoldable pub read : List ℤ → EpochReader → Outcome (ReadResult × List ℤ) × EpochReader
  unfolding checked
  read pcm s =
      let after = record s { calls = suc s.calls } in
      if current s.calls
      then checked (R.read pcm s.reader) (suc s.calls)
      else (thrown system_error, after)

  abbrev pub make_device_epoch_reader : CddaReader
  make_device_epoch_reader = record { State = EpochReader; seek = seek; read = read }

  -- What ends a call normally: the check passed, and the wrapped reader gave the result.
  checked-returned :
      {A : Type 0} (x : A) (o : Outcome A × R.State) (n : ℕ)
      → (checked o n).0 ≡ returned x
      → (o.0 ≡ returned x) × (current n ≡ true)
  unfolding checked
  checked-returned x (returned y, r) n e = elim (Bool-cases (current n)) [
    | inl holds ↦ (ground (arith, holds), holds)
    | inr fails ↦ absurd (ground (arith, fails))
  ]
  checked-returned x (thrown f, r) n e = absurd (ground (arith))
  checked-returned x (undefined, r) n e = absurd (ground (arith))

  read-returned :
      (pcm : List ℤ) (s : EpochReader) (x : ReadResult × List ℤ)
      → (read pcm s).0 ≡ returned x
      → ((R.read pcm s.reader).0 ≡ returned x)
        × (current s.calls ≡ true)
        × (current (suc s.calls) ≡ true)
  unfolding read
  read-returned pcm s x e = elim (Bool-cases (current s.calls)) [
    | inl holds ↦
        (let (given, again) =
            checked-returned x (R.read pcm s.reader) (suc s.calls) (ground (arith, holds)) in
          (given, holds, again))
    | inr fails ↦ absurd (ground (arith, fails))
  ]

permits-generation :
    (t : DeviceObservationTracker) (g : ℕ) → permits t g ≡ true → t.snapshot.generation ≡ g
unfolding permits
permits-generation t g h = ground arith

module _ (R : CddaReader) (history : ℕ → DeviceObservationTracker) (generation : ℕ) where
  -- The callback of a reader bound to a generation: the tracker as it stands at each of the calls.
  abbrev pub still_permitted : ℕ → Bool
  still_permitted n = permits (history n) generation

  -- If a read through a reader bound to a generation returns, then the wrapped reader returned that
  -- result; and of the events that the tracker saw between the two checks of the read, too few to wrap
  -- its counter, none is a reader failure and each reports the device as it was known at the first
  -- check; and at the second check the device is not absent.
  pub read-AllAgree :
      (s : EpochReader R still_permitted) (es : List Event) (pcm : List ℤ) (x : ReadResult × List ℤ)
      → history (suc s.calls) ≡ run (history s.calls) es
      → length es + generation < 2 ^ 64
      → (read R still_permitted pcm s).0 ≡ returned x
      → ((R.read pcm s.reader).0 ≡ returned x)
        × AllAgree (history s.calls) es
        × ((run (history s.calls) es).snapshot.presence ≢ DevicePresence.absent)
  read-AllAgree s es pcm x later few e =
      let (given, before, after) = read-returned R still_permitted pcm s x e in
      let same : (history s.calls).snapshot.generation ≡ generation =
        permits-generation (history s.calls) generation before in
      let (agree, present) = permits-AllAgree (history s.calls) es (omega (arith, same)) (
        ap (permits (run (history s.calls) es)) same
        ∙ ap (λ t. permits t generation) (sym later)
        ∙ after) in
      (given, agree, present)
