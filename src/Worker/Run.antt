-- ===== src/Worker/Run.antt =====
-- Any interleaving of the owner's calls with the turns of the thread.
use picdplayer.Prelude.{ℕ, false, Option, none, some, List, [], ◌∷◌, ◌++◌, ℤ}
use picdplayer.Worker.{
  PcmWorker, PcmBlock, start, cancel, discard_reader, reconfigure, close, pop, pop_event,
  set_disc_generation,
}
use picdplayer.Worker.Thread.{System, Point, Drive, turn}

pub data Event : Type 0 where
  turns : Drive → Event
  starts : ℤ → ℤ → Event
  cancels discards pops pops_event closes : Event
  reconfigures : List ℕ → List ℕ → ℕ → Event
  sets_disc : ℕ → Event

abbrev pub with_worker : System → PcmWorker → System
with_worker s w = record s { worker = w }

abbrev pub owner_step : PcmWorker → Event → PcmWorker
owner_step w (turns d) = w
owner_step w (starts begin end) = (start w begin end).1
owner_step w cancels = cancel w
owner_step w discards = discard_reader w
owner_step w pops = (pop w).1
owner_step w pops_event = (pop_event w).1
owner_step w closes = close w
owner_step w (reconfigures strategy mode frames) = (reconfigure w strategy mode frames).1
owner_step w (sets_disc generation) = (set_disc_generation w generation).1

unfoldable pub step : System → Event → System
step s (turns d) = turn s d
step s (starts begin end) = with_worker s (owner_step s.worker (starts begin end))
step s cancels = with_worker s (owner_step s.worker cancels)
step s discards = with_worker s (owner_step s.worker discards)
step s pops = with_worker s (owner_step s.worker pops)
step s pops_event = with_worker s (owner_step s.worker pops_event)
step s closes = with_worker s (owner_step s.worker closes)
step s (reconfigures strategy mode frames) =
    with_worker s (owner_step s.worker (reconfigures strategy mode frames))
step s (sets_disc generation) = with_worker s (owner_step s.worker (sets_disc generation))

unfoldable pub run : System → List Event → System
run s [] = s
run s (e ∷ es) = run (step s e) es

abbrev pub to_list : Option PcmBlock → List PcmBlock
to_list none = []
to_list (some block) = block ∷ []

abbrev pub popped_by : PcmWorker → Event → List PcmBlock
popped_by w pops = to_list (pop w).0
popped_by w (turns d) = []
popped_by w (starts begin end) = []
popped_by w cancels = []
popped_by w discards = []
popped_by w pops_event = []
popped_by w closes = []
popped_by w (reconfigures strategy mode frames) = []
popped_by w (sets_disc generation) = []

-- The blocks that the owner is given, in order.
unfoldable pub popped : System → List Event → List PcmBlock
popped s [] = []
popped s (e ∷ es) = popped_by s.worker e ++ popped (step s e) es

-- The thread of a new worker.
abbrev pub started : PcmWorker → System
started w = record { worker = w; reader = false; point = Point.waiting }
