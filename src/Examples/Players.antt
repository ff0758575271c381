-- ===== src/Examples/Players.antt =====
-- A player, its engine and a worker over a drive that reads a silent disc.
use mathlib.Core.Path.{subst}
use picdplayer.Engine.{System, Engine, new_engine}
use picdplayer.Engine
use picdplayer.Engine.Heard
use picdplayer.Engine.Log.{Sent, watched_output}
use picdplayer.Engine.OnDisc
use picdplayer.Engine.OnDisc.{OnDisc, Faithful}
use picdplayer.Engine.Proven.{Proven, pcm_worker}
use picdplayer.Engine.Run
use picdplayer.Engine.Run.{Event}
use picdplayer.Engine.Threaded.{Slot}
use picdplayer.Examples.Engines.{all_taken}
use picdplayer.Examples.Workers.{silent_drive, no_evidence, buffer, new_worker}
use picdplayer.Examples.Discs.{two_tracks}
use picdplayer.Outcome.{returned}
use picdplayer.Player.Run.{loads, plays}
use picdplayer.Prelude.{
  ℕ, zero, suc, ◌*◌, ◌≡◌, refl, sym, ap, ◌∙◌, some, List, [], ◌∷◌, ℤ, pos, pos_part, length,
  replicate, length-replicate,
}
use picdplayer.Prelude.Slice.{slice}
use picdplayer.Worker
use picdplayer.Worker.Fresh
use picdplayer.Worker.Turns.{IsFaithful}

abbrev silent_disc : ℕ → ℤ
silent_disc i = pos 0

silence-slice : (i n : ℕ) → replicate n (pos 0) ≡ slice silent_disc i n
unfolding slice
silence-slice i zero = refl
silence-slice i (suc n) = ap (λ xs. pos 0 ∷ xs) (silence-slice (suc i) n)

silent-IsFaithful : IsFaithful (OnDisc silent_disc) silent_drive
silent-IsFaithful lba samples r read e ok full =
    let same : replicate (length samples) (pos 0) ≡ read = cc in
    subst (λ xs. (length xs ≡ length samples) × OnDisc silent_disc lba xs) same
      (
        length-replicate (length samples) (pos 0),
        silence-slice (pos_part lba * 1176) (length samples)
            ∙ ap (slice silent_disc (pos_part lba * 1176))
                (sym (length-replicate (length samples) (pos 0))),
      )

abbrev four_turns : Slot
four_turns = record {
  drives = silent_drive ∷ silent_drive ∷ silent_drive ∷ silent_drive ∷ [];
  now = 0;
}

-- Four turns before each of 16 calls.
abbrev schedule : List Slot
schedule = replicate 16 four_turns

four-Faithful : OnDisc.AllFaithful silent_disc four_turns.drives
four-Faithful =
    (silent-IsFaithful, (silent-IsFaithful, (silent-IsFaithful, (silent-IsFaithful, tt))))

turns-Faithful : (n : ℕ) → Faithful silent_disc (replicate n four_turns)
turns-Faithful zero = tt
turns-Faithful (suc n) = (four-Faithful, turns-Faithful n)

made : Worker.new_worker (λ i. no_evidence) buffer [] [] 15 ≡ returned new_worker
unfolding Worker.new_worker Worker.validate_pcm_buffer_config
made = refl

-- The player plays for six ticks.
abbrev playing_session : List Event
playing_session =
    Event.sets_disc_end (pos 450)
    ∷ Event.commands (loads two_tracks) 1
    ∷ Event.commands plays 2
    ∷ Event.ticks 3 4
    ∷ Event.ticks 5 6
    ∷ Event.ticks 7 8
    ∷ Event.ticks 9 10
    ∷ Event.ticks 11 12
    ∷ Event.ticks 13 14
    ∷ []

abbrev ready : Proven silent_disc
ready = record {
  threaded = Heard.resting new_worker schedule;
  valid =
      Heard.resting-IsValid silent_disc new_worker schedule
        (Fresh.new_worker-IsNew (λ i. no_evidence) buffer [] [] 15 new_worker made)
        (turns-Faithful 16);
}

run_from-Hears_example :
    (t : System (Proven silent_disc) (Sent ℕ)) × (Run.run_from
        (pcm_worker silent_disc)
        (watched_output all_taken)
        (some (Run.begun (new_engine (pos 450) (pos 10000) 1) ready 0))
        playing_session
      ≡ some t)
    × Heard.Hears silent_disc t
unfolding Engine.new_playback_engine
run_from-Hears_example =
    Heard.run_from-Hears silent_disc all_taken 0 (λ i. no_evidence) buffer [] [] 15 new_worker
      schedule (pos 450) (pos 10000) (new_engine (pos 450) (pos 10000) 1) playing_session made
      (turns-Faithful 16) refl
