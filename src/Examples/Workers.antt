-- ===== src/Examples/Workers.antt =====
-- A worker over a drive that reads silence, asked for 20 frames, in blocks of 15.
use picdplayer.Prelude.{
  ℕ, ◌-◌, ◌%◌, ◌/◌, ◌^◌, ◌≡◌, refl, sym, ap, true, false, List, [], ◌∷◌, ℤ, pos, length, replicate,
  length-replicate, arith,
}
use mathlib.Core.Path.{subst}
use picdplayer.Reader.{ReadResult, ReadStatus, read_result}
use picdplayer.Evidence.{ReadEvidence, make_read_evidence}
use picdplayer.Worker.{PcmWorker, PcmBufferConfig, fresh}
use picdplayer.Worker
use picdplayer.Worker.History.{Ring}
use picdplayer.Worker.History
use picdplayer.Worker.History.Window
use picdplayer.Worker.Thread
use picdplayer.Worker.Thread.{Drive, Answer}
use picdplayer.Worker.Run
use picdplayer.Worker.Run.{Event}
use picdplayer.Worker.Release
use picdplayer.Worker.Turns
use picdplayer.Worker.Delivery

abbrev pub good_read : ℤ → List ℤ → ReadResult
good_read lba buffer =
    read_result lba (length buffer / 1176) (length buffer / 1176) ReadStatus.ok (pos 0) 0

abbrev pub silent_drive : Drive
silent_drive = record {
  now = 0;
  open_reader = Answer.gave true;
  seek = λ lba. Answer.gave tt;
  read = λ lba buffer. Answer.gave (good_read lba buffer, replicate (length buffer) (pos 0));
}

abbrev IsSilence : ℤ → List ℤ → Type 0
IsSilence lba samples = samples ≡ replicate (length samples) (pos 0)

silent : Turns.IsFaithful IsSilence silent_drive
silent lba buffer r samples e ok full =
    let same : replicate (length buffer) (pos 0) ≡ samples = cc in
    subst (λ xs. (length xs ≡ length buffer) × IsSilence lba xs) same
      (
        length-replicate (length buffer) (pos 0),
        ap (λ n. replicate n (pos 0)) (sym (length-replicate (length buffer) (pos 0))),
      )

abbrev pub no_evidence : ReadEvidence
no_evidence = make_read_evidence (read_result (pos 0) 0 0 ReadStatus.ok (pos 0) 0)

abbrev pub buffer : PcmBufferConfig
buffer = record { capacity_cd_frames = 30; startup_cd_frames = 15 }

abbrev pub new_worker : PcmWorker
new_worker = fresh (λ i. no_evidence) buffer [] [] 15

abbrev turn : Event
turn = Event.turns silent_drive

-- An earlier range is asked for and cancelled.
abbrev before : List Event
before = Event.starts (pos 0) (pos 40) ∷ turn ∷ turn ∷ Event.cancels ∷ turn ∷ []

abbrev after : List Event
after =
    turn ∷ turn ∷ turn ∷ turn ∷ turn ∷ turn ∷ turn ∷ turn ∷ turn ∷ Event.pops ∷ turn
    ∷ Event.pops_event ∷ turn ∷ []

run-Delivered_example : Delivery.Delivered IsSilence new_worker before after (pos 10) (pos 30)
unfolding Worker.new_worker Worker.validate_pcm_buffer_config
run-Delivered_example =
    Delivery.run-Delivered IsSilence new_worker before after (pos 10) (pos 30) (λ i. no_evidence)
      buffer [] [] 15 refl (tt, (silent, (silent, (tt, (silent, tt))))) (omega arith) (omega arith)
      (omega arith)
      (
        silent,
        (
          silent,
          (
            silent,
            (
              silent,
              (silent, (silent, (silent, (silent, (silent, (tt, (silent, (tt, (silent, tt))))))))),
            ),
          ),
        ),
      )

abbrev released_after : List Event
released_after =
    Event.starts (pos 0) (pos 40)
    ∷ turn
    ∷ turn
    ∷ turn
    ∷ turn
    ∷ Event.discards
    ∷ turn
    ∷ turn
    ∷ turn
    ∷ []

run-released_example :
    ((Run.run (Run.started new_worker) released_after).reader ≡ false)
    × (Release.is_busy (Run.run (Run.started new_worker) released_after).point ≡ false)
unfolding Run.run Run.step Thread.turn Thread.turn_at Worker.start Worker.discard_reader
    Worker.device_released
run-released_example = Release.run-released new_worker released_after refl

abbrev numbers : Ring ℕ
numbers = record { slots = λ i. i; begin = 3; size = 5; evicted = 7 }

abbrev pair : List ℕ
pair = 1 ∷ 2 ∷ []

remember_all-last_reads_example :
    (History.recent_reads (Window.remember_all (History.cleared numbers) pair)
      ≡ Window.last_reads pair)
    × ((Window.remember_all (History.cleared numbers) pair).evicted ≡ (length pair - 128) % 2 ^ 64)
remember_all-last_reads_example = Window.remember_all-last_reads numbers pair
