-- ===== src/Worker/Release.antt =====
-- device_released: no call of the drive is made, and the reader is closed.
use picdplayer.Prelude.{
  ℕ, ◌≡◌, refl, Bool, true, false, List, [], ◌∷◌, ◌==◌, if-both, length, arith, ℤ, pos, ◌*◌, ◌∙◌,
  replicate,
}
use picdplayer.Outcome.{Exception}
use picdplayer.Reader.{ReadResult, samples_per_frame}
use picdplayer.Worker.{
  PcmWorker, PcmBlock, PlayerEvent, start, cancel, discard_reader, reconfigure, close, pop,
  pop_event, set_disc_generation, device_released, pop_from, pop_event_from,
}
use picdplayer.Worker.Thread.{
  System, Point, Drive, Stream, Answer, gave, threw, turn, turn_at, take_read, fail, account,
  push_event, block_of, frames_of, after_read, failed, incomplete_map,
}
use picdplayer.Worker.Run.{Event, step, run, started, with_worker, owner_step}

-- The thread is inside a call of the drive, or about to make it.
abbrev pub is_busy : Point → Bool
is_busy (Point.opening st) = true
is_busy (Point.in_factory st) = true
is_busy (Point.seeking st) = true
is_busy (Point.in_seek st) = true
is_busy (Point.in_read_admission st) = true
is_busy (Point.in_read st) = true
is_busy Point.waiting = false
is_busy Point.discarding = true
is_busy Point.retired = false
is_busy Point.finished = false
is_busy (Point.begun st) = false
is_busy (Point.opened st) = false
is_busy (Point.settled st) = false
is_busy (Point.looping st) = false
is_busy (Point.accounted st r block) = false
is_busy (Point.failing st e unobserved) = false

pub record Inv (s : System) : Type 0 where
  pub opened : s.reader ≡ true → s.worker.reader_open ≡ true
  pub busy : is_busy s.point ≡ true → s.worker.drive_call_inflight ≡ true

account-flags :
    (w : PcmWorker) (st : Stream) (r : ReadResult)
    → ((account w st r).reader_open ≡ w.reader_open)
      × ((account w st r).drive_call_inflight ≡ w.drive_call_inflight)
unfolding account push_event
account-flags w st r =
    if-both
      (λ (x : PcmWorker).
        (x.reader_open ≡ w.reader_open) × (x.drive_call_inflight ≡ w.drive_call_inflight))
      (length w.events == 256) (λ _. (refl, refl)) (λ _. (refl, refl))

failed-flags :
    (w : PcmWorker) (st : Stream) (e : Exception)
    → ((failed w st e).reader_open ≡ w.reader_open)
      × ((failed w st e).drive_call_inflight ≡ w.drive_call_inflight)
failed-flags w st e =
    if-both
      (λ (x : PcmWorker).
        (x.reader_open ≡ w.reader_open) × (x.drive_call_inflight ≡ w.drive_call_inflight))
      (st.generation == w.generation) (λ _. (refl, refl)) (λ _. (refl, refl))

module _ (s : System) (v : Inv s) where
  take_read-Inv :
      (st : Stream) (now : ℕ) (a : Answer (ReadResult × List ℤ))
      → s.worker.drive_call_inflight ≡ true
      → Inv (take_read s st now a)
  unfolding take_read after_read
  take_read-Inv st now (threw e) busy = record { opened = v.opened; busy = λ h. cc }
  take_read-Inv st now (gave (r, samples)) busy =
      let w : PcmWorker = after_read s.worker st r now in
      if-both
        (λ (x : PcmWorker).
          Inv (record s { worker = x; point = Point.accounted st r (block_of w st r samples) }))
        (st.generation == w.generation)
        (λ _. record { opened = λ h. (account-flags w st r).0 ∙ v.opened h; busy = λ h. cc })
        (λ _. record { opened = v.opened; busy = λ h. cc })

  turn_at-Inv :
      (p : Point) (d : Drive)
      → (is_busy p ≡ true → s.worker.drive_call_inflight ≡ true)
      → Inv (turn_at s p d)
  unfolding turn_at fail
  turn_at-Inv Point.waiting d busy = ground arith
  turn_at-Inv Point.discarding d busy = ground arith
  turn_at-Inv Point.retired d busy = ground arith
  turn_at-Inv Point.finished d busy = record { opened = v.opened; busy = λ h. cc }
  turn_at-Inv (Point.begun st) d busy = ground arith
  turn_at-Inv (Point.opening st) d busy = ground arith
  turn_at-Inv (Point.opened st) d busy = ground arith
  turn_at-Inv (Point.settled st) d busy = ground arith
  turn_at-Inv (Point.seeking st) d busy = ground arith
  turn_at-Inv (Point.looping st) d busy = ground arith
  turn_at-Inv (Point.in_read_admission st) d busy = ground arith
  turn_at-Inv (Point.in_factory st) d busy = ground arith
  turn_at-Inv (Point.in_seek st) d busy = ground arith
  turn_at-Inv (Point.in_read st) d busy =
      take_read-Inv st d.now
        (d.read st.position (replicate (frames_of st * samples_per_frame) (pos 0))) (busy refl)
  turn_at-Inv (Point.accounted st r block) d busy = ground arith
  turn_at-Inv (Point.failing st e unobserved) d busy =
      let w : PcmWorker = record (incomplete_map s.worker st unobserved) {
        reader_open = false;
        reading = false;
        drive_call_inflight = false;
      } in
      record { opened = λ h. cc; busy = λ h. cc }

pop_from-Inv :
    (s : System) (q : List PcmBlock) → Inv s → Inv (with_worker s (pop_from s.worker q).1)
pop_from-Inv s [] v = record { opened = v.opened; busy = v.busy }
pop_from-Inv s (block ∷ rest) v = record { opened = v.opened; busy = v.busy }

pop_event_from-Inv :
    (s : System) (q : List PlayerEvent) → Inv s → Inv (with_worker s (pop_event_from s.worker q).1)
pop_event_from-Inv s [] v = record { opened = v.opened; busy = v.busy }
pop_event_from-Inv s (event ∷ rest) v = record { opened = v.opened; busy = v.busy }

owner_step-Inv : (s : System) (e : Event) → Inv s → Inv (with_worker s (owner_step s.worker e))
unfolding start cancel discard_reader reconfigure close pop pop_event set_disc_generation
owner_step-Inv s (Event.turns d) v = record { opened = v.opened; busy = v.busy }
owner_step-Inv s (Event.starts begin end) v = ground arith
owner_step-Inv s Event.cancels v = record { opened = v.opened; busy = v.busy }
owner_step-Inv s Event.discards v = record { opened = v.opened; busy = v.busy }
owner_step-Inv s Event.pops v = pop_from-Inv s s.worker.queue v
owner_step-Inv s Event.pops_event v = pop_event_from-Inv s s.worker.events v
owner_step-Inv s Event.closes v = record { opened = v.opened; busy = v.busy }
owner_step-Inv s (Event.reconfigures strategy mode frames) v = ground arith
owner_step-Inv s (Event.sets_disc generation) v = ground arith

step-Inv : (s : System) (e : Event) → Inv s → Inv (step s e)
unfolding step turn
step-Inv s (Event.turns d) v = turn_at-Inv s v s.point d v.busy
step-Inv s (Event.starts begin end) v = owner_step-Inv s (Event.starts begin end) v
step-Inv s Event.cancels v = owner_step-Inv s Event.cancels v
step-Inv s Event.discards v = owner_step-Inv s Event.discards v
step-Inv s Event.pops v = owner_step-Inv s Event.pops v
step-Inv s Event.pops_event v = owner_step-Inv s Event.pops_event v
step-Inv s Event.closes v = owner_step-Inv s Event.closes v
step-Inv s (Event.reconfigures strategy mode frames) v =
    owner_step-Inv s (Event.reconfigures strategy mode frames) v
step-Inv s (Event.sets_disc generation) v = owner_step-Inv s (Event.sets_disc generation) v

run-Inv : (s : System) (es : List Event) → Inv s → Inv (run s es)
unfolding run
run-Inv s [] v = v
run-Inv s (e ∷ es) v = run-Inv (step s e) es (step-Inv s e v)

-- After any interleaving of the owner's calls with the turns of the thread of a new worker, whatever
-- the factory and the reader answered: when device_released returns true, the thread holds no reader
-- and is not in a call of the factory or of the reader, nor past the start of one.
pub run-released :
    (w : PcmWorker) (es : List Event)
    → device_released (run (started w) es).worker ≡ true
    → ((run (started w) es).reader ≡ false) × (is_busy (run (started w) es).point ≡ false)
unfolding device_released
run-released w es h =
    let v : Inv (run (started w) es) =
      run-Inv (started w) es (record { opened = λ h. cc; busy = λ h. cc }) in
    let opened = v.opened in let busy = v.busy in (ground arith, ground arith)
