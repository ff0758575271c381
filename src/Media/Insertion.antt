-- ===== src/Media/Insertion.antt =====
-- The life of a tracker: insertions are reported once for each emptying, errors belong to ejects.
use picdplayer.Prelude.{
  ℕ, ◌+◌, ◌≤◌, ◌≡◌, Bool, true, false, ◌⊎◌, List, [], ◌∷◌, if◌then◌else◌, arith,
}
use picdplayer.Media.{
  MediaObservation, MediaLifecycleState, MediaStateTracker, new_tracker, observe,
  take_audio_insertion, begin_eject, eject_failed,
}

pub data Event : Type 0 where
  observes : MediaObservation → Event
  takes begins_eject : Event
  fails_eject : List ℕ → Event

abbrev pub sees_empty : Event → ℕ
sees_empty (observes MediaObservation.tray_open) = 1
sees_empty (observes MediaObservation.no_disc) = 1
sees_empty _ = 0

abbrev pub emptied : List Event → ℕ
emptied [] = 0
emptied (e ∷ es) = sees_empty e + emptied es

-- The tracker after an event, and how many insertions the event reported.
unfoldable pub step : MediaStateTracker → Event → MediaStateTracker × ℕ
unfolding observe take_audio_insertion begin_eject eject_failed
step m (observes o) = (observe m o, 0)
step m takes = let (n, b) = take_audio_insertion m in (n, if b then 1 else 0)
step m begins_eject = (begin_eject m, 0)
step m (fails_eject error) = (eject_failed m error, 0)

unfoldable pub run : MediaStateTracker → List Event → MediaStateTracker × ℕ
run m [] = (m, 0)
run m (e ∷ es) = let (n, k) = step m e in let (final, more) = run n es in (final, k + more)

abbrev flag : Bool → ℕ
flag true = 1
flag false = 0

step_count :
    (m : MediaStateTracker) (e : Event)
    → (step m e).1 + flag (step m e).0.observed_empty ≤ sees_empty e + flag m.observed_empty
unfolding step
step_count m (observes MediaObservation.tray_open) = ground arith
step_count m (observes MediaObservation.no_disc) = ground arith
step_count m (observes o) = ground arith
step_count m takes = ground arith
step_count m begins_eject = ground arith
step_count m (fails_eject error) = ground arith

run_count :
    (m : MediaStateTracker) (es : List Event)
    → (run m es).1 + flag (run m es).0.observed_empty ≤ emptied es + flag m.observed_empty
unfolding run
run_count m [] = omega arith
run_count m (e ∷ es) = omega (arith, step_count m e, run_count (step m e).0 es)

abbrev pub Inv : MediaStateTracker → Type 0
Inv m = (m.state ≡ MediaLifecycleState.eject_error) ⊎ (m.error ≡ [])

step-Inv : (m : MediaStateTracker) (e : Event) → Inv m → Inv (step m e).0
unfolding step
step-Inv m e v = ground arith

run-Inv : (m : MediaStateTracker) (es : List Event) → Inv m → Inv (run m es).0
unfolding run
run-Inv m [] v = v
run-Inv m (e ∷ es) v = run-Inv (step m e).0 es (step-Inv m e v)

-- From a new tracker, over any observations and commands: insertions are reported at most as often
-- as an empty tray was observed, and an error text is present only in the eject-error state.
pub run-new_tracker :
    (es : List Event)
    → ((run new_tracker es).1 ≤ emptied es)
      × (((run new_tracker es).0.state ≡ MediaLifecycleState.eject_error)
          ⊎ ((run new_tracker es).0.error ≡ []))
run-new_tracker es =
    (omega (arith, run_count new_tracker es), run-Inv new_tracker es (ground arith))
