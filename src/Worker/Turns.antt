-- ===== src/Worker/Turns.antt =====
-- Every turn of the thread keeps the invariant, and leaves the generation.
use picdplayer.Outcome.{Exception, runtime_error}
use picdplayer.Prelude.{
  ℕ, ◌*◌, ◌<◌, ◌≡◌, refl, sym, ap, ◌∙◌, Bool, true, false, not, ◌&&◌, ◌||◌, inr, List, ℤ, pos, ◌<ℤ◌,
  ltb_ℤ, ltb, ◌==◌, if-both, length, replicate, length-replicate, -ℤ_parts, arith,
}
use mathlib.Core.Path.{subst}
use picdplayer.Reader.{ReadResult, is_ok, samples_per_frame}
use picdplayer.Worker.{PcmWorker, PcmBlock}
use picdplayer.Worker.Order.{
  core, Inv, Inv-move, Inv-progress, Inv-leave, Inv-admitted, Inv-ended, Inv-failed, Inv-pushed,
}
use picdplayer.Worker.Thread.{
  System, Point, Drive, Stream, Answer, gave, threw, turn_at, wait, open_if_needed, check_opened,
  begin_read, take_read, take_reader, take_seek, push_block, fail, end_stream, account, push_event,
  after_read, incomplete_map, block_of, frames_of,
}

account-core : (w : PcmWorker) (st : Stream) (r : ReadResult) → core (account w st r) ≡ core w
unfolding account push_event
account-core w st r =
    if-both (λ (x : PcmWorker). core x ≡ core w) (length w.events == 256) (λ _. refl) (λ _. refl)

incomplete_map-core :
    (w : PcmWorker) (st : Stream) (b : Bool) → core (incomplete_map w st b) ≡ core w
incomplete_map-core w st b =
    if-both (λ (x : PcmWorker). core x ≡ core w)
      (b && (st.disc_generation == w.disc_generation) && w.disc_map.complete) (λ _. refl)
      (λ _. refl)

-- The generation and the end of the range are the same.
abbrev pub SameRange : PcmWorker → PcmWorker → Type 0
SameRange w x = (x.generation ≡ w.generation) × (x.end ≡ w.end)

take_reader-SameRange :
    (s : System) (st : Stream) (a : Answer Bool) → SameRange s.worker (take_reader s st a).worker
take_reader-SameRange s st (threw e) = (refl, refl)
take_reader-SameRange s st (gave is_open) = (refl, refl)

take_seek-SameRange :
    (s : System) (st : Stream) (a : Answer (Unit {0}))
    → SameRange s.worker (take_seek s st a).worker
take_seek-SameRange s st (threw e) = (refl, refl)
take_seek-SameRange s st (gave _) = (refl, refl)

take_read-SameRange :
    (s : System) (st : Stream) (now : ℕ) (a : Answer (ReadResult × List ℤ))
    → SameRange s.worker (take_read s st now a).worker
unfolding take_read after_read
take_read-SameRange s st now (threw e) = (refl, refl)
take_read-SameRange s st now (gave (r, samples)) =
    let w : PcmWorker = after_read s.worker st r now in
    if-both (SameRange s.worker) (st.generation == w.generation)
      (λ _. (ap (λ c. c.generation) (account-core w st r), ap (λ c. c.end) (account-core w st r)))
      (λ _. (refl, refl))

-- No turn begins a new generation.
pub turn_at-SameRange :
    (s : System) (p : Point) (d : Drive) → SameRange s.worker (turn_at s p d).worker
unfolding turn_at wait open_if_needed check_opened begin_read push_block fail take_read after_read
turn_at-SameRange s Point.waiting d = ground arith
turn_at-SameRange s Point.discarding d = (refl, refl)
turn_at-SameRange s Point.retired d = (refl, refl)
turn_at-SameRange s Point.finished d = (refl, refl)
turn_at-SameRange s (Point.begun st) d = ground arith
turn_at-SameRange s (Point.opening st) d = (refl, refl)
turn_at-SameRange s (Point.opened st) d = ground arith
turn_at-SameRange s (Point.settled st) d = (refl, refl)
turn_at-SameRange s (Point.seeking st) d = (refl, refl)
turn_at-SameRange s (Point.looping st) d = ground arith
turn_at-SameRange s (Point.in_read_admission st) d = (refl, refl)
turn_at-SameRange s (Point.in_factory st) d = take_reader-SameRange s st d.open_reader
turn_at-SameRange s (Point.in_seek st) d = take_seek-SameRange s st (d.seek st.position)
turn_at-SameRange s (Point.in_read st) d =
    take_read-SameRange s st d.now
      (d.read st.position (replicate (frames_of st * samples_per_frame) (pos 0)))
turn_at-SameRange s (Point.accounted st r block) d = ground arith
turn_at-SameRange s (Point.failing st e unobserved) d =
    if-both (SameRange s.worker)
      (st.generation == (incomplete_map s.worker st unobserved).generation)
      (λ _. (
        ap (λ c. c.generation) (incomplete_map-core s.worker st unobserved),
        ap (λ c. c.end) (incomplete_map-core s.worker st unobserved),
      ))
      (λ _. (
        ap (λ c. c.generation) (incomplete_map-core s.worker st unobserved),
        ap (λ c. c.end) (incomplete_map-core s.worker st unobserved),
      ))

module _ (Given : ℤ → List ℤ → Type 0) where
  -- An accepted read of the whole buffer fills the span, as the reader promises.
  abbrev pub IsFaithful : Drive → Type 0
  IsFaithful d =
      (lba : ℤ) (buffer : List ℤ) (r : ReadResult) (samples : List ℤ)
      → d.read lba buffer ≡ gave (r, samples)
      → is_ok r.status ≡ true
      → r.frames_read * samples_per_frame ≡ length buffer
      → (length samples ≡ length buffer) × Given lba samples

  abbrev pub Holds : System → ℤ → Type 0
  Holds s next = Inv Given (core s.worker) s.point next

  module _ (s : System) (next : ℤ) where
    wait-Holds : Inv Given (core s.worker) Point.waiting next → Holds (wait s) next
    unfolding wait
    wait-Holds v =
        let at_rest : s.worker.closing ≡ false = v.open_worker in
        if-both (λ (x : System). Holds x next) s.worker.closing (λ h. absurd (ground (arith, h)))
          (λ _.
            if-both (λ (x : System). Holds x next) s.worker.discard
              (λ _. record {
                to = v.to;
                chain = v.chain;
                open_worker = v.open_worker;
                ended = v.ended;
                undone = v.undone;
                sized = v.sized;
                range = v.range;
                ahead = v.ahead;
                progress = v.progress;
                known = tt;
              })
              (λ kept.
                if-both (λ (x : Point). Inv Given (core s.worker) x next) s.worker.active
                  (λ active. record {
                    to = v.to;
                    chain = v.chain;
                    open_worker = v.open_worker;
                    ended = v.ended;
                    undone = v.undone;
                    sized = v.sized;
                    range = v.range;
                    ahead = v.ahead;
                    progress = (
                      v.sized,
                      inr (
                        refl,
                        record {
                          at = v.progress active;
                          end = refl;
                          active = active;
                          kept = kept;
                          within = (let inside = v.range active in omega (arith, inside));
                        },
                      ),
                    );
                    known = tt;
                  })
                  (λ _. v)))

    check_opened-Holds :
        (st : Stream)
        → Inv Given (core s.worker) (Point.opened st) next
        → Holds (check_opened s st) next
    unfolding check_opened
    check_opened-Holds st v =
        if-both (λ (x : System). Holds x next) (not s.reader)
          (λ _.
            Inv-move Given (core s.worker) (Point.opened st) (Point.failing st runtime_error false)
              next refl tt v)
          (λ _.
            if-both (λ (x : System). Holds x next) s.worker.closing
              (λ h. (let at_rest = v.open_worker in absurd (ground (arith, h))))
              (λ _.
                if-both (λ (x : System). Holds x next) (not (st.generation == s.worker.generation))
                  (λ other.
                    Inv-leave Given (core s.worker) (Point.opened st) next st refl v Point.waiting
                      refl tt (ground (arith, other)))
                  (λ _.
                    Inv-move Given (core s.worker) (Point.opened st) (Point.settled st) next refl tt
                      v)))

    end_stream-Holds :
        (st : Stream)
        → Inv Given (core s.worker) (Point.looping st) next
        → ltb_ℤ st.position st.end ≡ false
        → Holds (end_stream s st) next
    end_stream-Holds st v reached =
        if-both (λ (x : System). Holds x next) (st.generation == s.worker.generation)
          (Inv-ended Given (core s.worker) (Point.looping st) next st refl v reached)
          (Inv-leave Given (core s.worker) (Point.looping st) next st refl v Point.waiting refl tt)

    begin_read-Holds :
        (st : Stream) (now : ℕ)
        → Inv Given (core s.worker) (Point.looping st) next
        → Holds (begin_read s st now) next
    unfolding begin_read
    begin_read-Holds st now v =
        if-both (λ (x : System). Holds x next) (not (ltb_ℤ st.position st.end))
          (λ reached. end_stream-Holds st v (ground (arith, reached)))
          (λ inside.
            if-both (λ (x : System). Holds x next) s.worker.closing
              (λ h. (let at_rest = v.open_worker in absurd (ground (arith, h))))
              (λ _.
                if-both (λ (x : System). Holds x next) (not (st.generation == s.worker.generation))
                  (λ other.
                    Inv-leave Given (core s.worker) (Point.looping st) next st refl v Point.waiting
                      refl tt (ground (arith, other)))
                  (λ _.
                    if-both (λ (x : System). Holds x next)
                      (ltb (length s.worker.queue) st.capacity_blocks)
                      (λ _.
                        Inv-move Given (core s.worker) (Point.looping st)
                          (Point.in_read_admission st) next refl (ground (arith, inside)) v)
                      (λ _. v))))

    take_read-Holds :
        (st : Stream) (d : Drive)
        → IsFaithful d
        → Inv Given (core s.worker) (Point.in_read st) next
        → (a : Answer (ReadResult × List ℤ))
        → d.read st.position (replicate (frames_of st * samples_per_frame) (pos 0)) ≡ a
        → Holds (take_read s st d.now a) next
    unfolding take_read after_read
    take_read-Holds st d good v (threw e) _ =
        Inv-move Given (core s.worker) (Point.in_read st) (Point.failing st e true) next refl tt v
    take_read-Holds st d good v (gave (r, samples)) given =
        let w : PcmWorker = after_read s.worker st r d.now in
        let sized : 0 < st.read_block_cd_frames =
          (Inv-progress Given (core s.worker) (Point.in_read st) next st refl v).0 in
        let inside : st.position <ℤ st.end = v.known in
        let after : Inv Given (core s.worker) (Point.accounted st r (block_of w st r samples))
            next =
          Inv-move Given (core s.worker) (Point.in_read st)
            (Point.accounted st r (block_of w st r samples)) next refl
            (λ fine full.
              (let size : length (replicate (frames_of st * samples_per_frame) (pos 0))
                    ≡ frames_of st * samples_per_frame =
                  length-replicate (frames_of st * samples_per_frame) (pos 0) in
                let (kept, promised) =
                  good st.position (replicate (frames_of st * samples_per_frame) (pos 0)) r samples
                    given fine (ap (λ (n : ℕ). n * samples_per_frame) full ∙ sym size) in
                (
                  inside,
                  (refl, refl, ground (arith, -ℤ_parts st.end st.position), kept ∙ size, promised),
                )))
            v in
        if-both
          (λ (x : PcmWorker).
            Inv Given (core x) (Point.accounted st r (block_of w st r samples)) next)
          (st.generation == w.generation)
          (λ _.
            subst (λ c. Inv Given c (Point.accounted st r (block_of w st r samples)) next)
              (sym (account-core w st r)) after)
          (λ _. after)

    push_block-Holds :
        (st : Stream) (r : ReadResult) (block : PcmBlock)
        → Inv Given (core s.worker) (Point.accounted st r block) next
        → Holds (push_block s st r block) next
    unfolding push_block
    push_block-Holds st r block v =
        if-both (λ (x : System). Holds x next)
          (not (is_ok r.status) || not (r.frames_read == frames_of st))
          (λ _.
            Inv-move Given (core s.worker) (Point.accounted st r block)
              (Point.failing st runtime_error false) next refl tt v)
          (λ whole.
            if-both (λ (x : System). Holds x next) s.worker.closing
              (λ h. (let at_rest = v.open_worker in absurd (ground (arith, h))))
              (λ _.
                if-both (λ (x : System). Holds x next) (not (st.generation == s.worker.generation))
                  (λ other.
                    Inv-leave Given (core s.worker) (Point.accounted st r block) next st refl v
                      Point.waiting refl tt (ground (arith, other)))
                  (λ same.
                    (let (inside, good) = v.known (ground (arith, whole)) (ground (arith, whole)) in
                      Inv-pushed Given (core s.worker) (Point.accounted st r block) next st refl v
                        block inside good (ground (arith, same))))))

    fail-Holds :
        (st : Stream) (e : Exception) (unobserved : Bool)
        → Inv Given (core s.worker) (Point.failing st e unobserved) next
        → Holds (fail s st e unobserved) next
    unfolding fail
    fail-Holds st e unobserved v =
        let w : PcmWorker = incomplete_map s.worker st unobserved in
        let u : Inv Given (core w) (Point.failing st e unobserved) next =
          subst (λ c. Inv Given c (Point.failing st e unobserved) next)
            (sym (incomplete_map-core s.worker st unobserved)) v in
        if-both (λ (x : PcmWorker). Inv Given (core x) Point.waiting next)
          (st.generation == w.generation)
          (Inv-failed Given (core w) (Point.failing st e unobserved) next st refl u)
          (Inv-leave Given (core w) (Point.failing st e unobserved) next st refl u Point.waiting
            refl tt)

    take_reader-Holds :
        (st : Stream)
        → Inv Given (core s.worker) (Point.in_factory st) next
        → (a : Answer Bool) → Holds (take_reader s st a) next
    take_reader-Holds st v (threw e) =
        Inv-move Given (core s.worker) (Point.in_factory st) (Point.failing st e false) next refl tt
          v
    take_reader-Holds st v (gave is_open) =
        Inv-move Given (core s.worker) (Point.in_factory st) (Point.opened st) next refl tt v

    take_seek-Holds :
        (st : Stream)
        → Inv Given (core s.worker) (Point.in_seek st) next
        → (a : Answer (Unit {0})) → Holds (take_seek s st a) next
    take_seek-Holds st v (threw e) =
        Inv-move Given (core s.worker) (Point.in_seek st) (Point.failing st e false) next refl tt v
    take_seek-Holds st v (gave _) =
        Inv-move Given (core s.worker) (Point.in_seek st) (Point.looping st) next refl tt v

    pub turn_at-Holds :
        (p : Point) (d : Drive)
        → IsFaithful d
        → Inv Given (core s.worker) p next
        → Holds (turn_at s p d) next
    unfolding turn_at open_if_needed
    turn_at-Holds Point.waiting d good v = wait-Holds v
    turn_at-Holds Point.discarding d good v =
        Inv-move Given (core s.worker) Point.discarding Point.waiting next refl tt v
    turn_at-Holds Point.retired d good v =
        Inv-move Given (core s.worker) Point.retired Point.waiting next refl tt v
    turn_at-Holds Point.finished d good v = v
    turn_at-Holds (Point.begun st) d good v =
        if-both (λ (x : System). Holds x next) s.reader
          (λ _. Inv-move Given (core s.worker) (Point.begun st) (Point.opened st) next refl tt v)
          (λ _. Inv-move Given (core s.worker) (Point.begun st) (Point.opening st) next refl tt v)
    turn_at-Holds (Point.opening st) d good v =
        Inv-admitted Given (core s.worker) (Point.opening st) next st refl v (Point.in_factory st)
          refl tt
    turn_at-Holds (Point.opened st) d good v = check_opened-Holds st v
    turn_at-Holds (Point.settled st) d good v =
        Inv-move Given (core s.worker) (Point.settled st) (Point.seeking st) next refl tt v
    turn_at-Holds (Point.seeking st) d good v =
        Inv-admitted Given (core s.worker) (Point.seeking st) next st refl v (Point.in_seek st) refl
          tt
    turn_at-Holds (Point.looping st) d good v = begin_read-Holds st d.now v
    turn_at-Holds (Point.in_read_admission st) d good v =
        Inv-admitted Given (core s.worker) (Point.in_read_admission st) next st refl v
          (Point.in_read st) refl v.known
    turn_at-Holds (Point.in_factory st) d good v = take_reader-Holds st v d.open_reader
    turn_at-Holds (Point.in_seek st) d good v = take_seek-Holds st v (d.seek st.position)
    turn_at-Holds (Point.in_read st) d good v = take_read-Holds st d good v _ refl
    turn_at-Holds (Point.accounted st r block) d good v = push_block-Holds st r block v
    turn_at-Holds (Point.failing st e unobserved) d good v = fail-Holds st e unobserved v
