-- ===== src/Publisher.antt =====
-- include/read_diagnostics_publisher.hpp and src/read_diagnostics_publisher.cpp: the projection of
-- the read diagnostics for the API, which a worker thread serializes.
-- A request runs under the lock as one step. The worker runs under the lock to take a capture, and
-- again to publish; between the two the serializer runs, which is a parameter, where `none` stands for
-- an exception. `P` stands for the members of the diagnostics that are only handed on. The clocks'
-- readings are arguments.
pub mod Context
pub mod Request
use picdplayer.Outcome.{Outcome, returned, thrown, undefined, Exception, logic_error}
use picdplayer.Prelude.{
  ℕ, ◌+◌, ◌-◌, Bool, true, false, not, ◌&&◌, ◌||◌, Option, none, some, List, [], ◌∷◌, ltb, leb,
  ◌==◌, if◌then◌else◌, length,
}
use picdplayer.Reader.{add64}
use picdplayer.Evidence.{ReadEvidence}
use picdplayer.DiscMap.{DiscReadMap}
use picdplayer.DiscMap
use picdplayer.Verifier.{is_nil}

pub record DiagnosticContext : Type 0 where
  pub stream_generation : ℕ
  pub disc_generation : ℕ

abbrev pub read_history_capacity : ℕ
read_history_capacity = 128

abbrev pub maximum_bytes : ℕ
maximum_bytes = 1_048_576

abbrev pub same_context : DiagnosticContext → DiagnosticContext → Bool
same_context a b =
    (a.stream_generation == b.stream_generation) && (a.disc_generation == b.disc_generation)

pub record DiagnosticPublication : Type 0 where
  pub map : List ℕ
  pub history : List ℕ

module _ (P : Type 0) where
  pub record ReadDiagnostics : Type 0 where
    pub disc_map : Option DiscReadMap
    pub recent_reads : List ReadEvidence
    pub stream_generation : ℕ
    pub rest : P

  pub record DiagnosticCapture : Type 0 where
    pub read : ReadDiagnostics
    pub sequence : ℕ
    pub captured_at_unix_ms : ℕ
    pub detail : Bool

  pub record Publisher : Type 0 where
    pub refresh : ℕ
    pub closing : Bool
    pub active : Bool
    pub context : DiagnosticContext
    pub active_context : DiagnosticContext
    pub context_revision : ℕ
    pub active_revision : ℕ
    pub active_detail : Bool
    pub pending : Option DiagnosticCapture
    pub map : Option (List ℕ)
    pub history : Option (List ℕ)
    pub sequence : ℕ
    pub map_sequence : ℕ
    pub history_sequence : ℕ
    pub map_requested : Option ℕ
    pub history_requested : Option ℕ

  -- if (context != context_) { ... }
  unfoldable pub with_context : Publisher → DiagnosticContext → Publisher
  with_context p context = if same_context context p.context then p else record p {
    context = context;
    context_revision = add64 p.context_revision 1;
    map = none;
    history = none;
    pending = none;
    map_requested = none;
    history_requested = none;
  }

  abbrev pub pending_covers : Option DiagnosticCapture → Bool → Bool
  pending_covers none detail = false
  pending_covers (some c) detail = c.detail || not detail

  abbrev pub is_covered : Publisher → DiagnosticContext → Bool → Bool
  is_covered p context detail =
      (p.active
        && (p.active_revision == p.context_revision)
        && same_context p.active_context context
        && (p.active_detail || not detail))
      || pending_covers p.pending detail

  abbrev pub is_due : ℕ → ℕ → Option ℕ → Bool
  is_due refresh now none = true
  is_due refresh now (some requested) = leb refresh (now - requested)

  -- The disc map is of another disc, or missing.
  abbrev pub other_disc : ℕ → Option DiscReadMap → Bool
  other_disc generation none = true
  other_disc generation (some m) = not (m.disc_generation == generation)

  abbrev pub is_mismatch : DiagnosticContext → ReadDiagnostics → Bool
  is_mismatch context r =
      not (r.stream_generation == context.stream_generation)
      || (not (context.disc_generation == 0) && other_disc context.disc_generation r.disc_map)

  abbrev pub map_too_long : Option DiscReadMap → Bool
  map_too_long none = false
  map_too_long (some m) = ltb DiscMap.capacity (length m.regions)

  abbrev pub is_too_long : ReadDiagnostics → Bool
  is_too_long r = ltb read_history_capacity (length r.recent_reads) || map_too_long r.disc_map

  abbrev pub without_map : DiagnosticContext → ReadDiagnostics → ReadDiagnostics
  without_map context r = if context.disc_generation == 0 then record r { disc_map = none } else r

  abbrev pub body_of : Bool → Publisher → Option (List ℕ)
  body_of true p = p.history
  body_of false p = p.map

  abbrev pub requested_of : Bool → Publisher → Option ℕ
  requested_of true p = p.history_requested
  requested_of false p = p.map_requested

  abbrev pub note_request : Bool → ℕ → Publisher → Publisher
  note_request true now p = record p { history_requested = some now }
  note_request false now p = record p { map_requested = some now }

  -- The checks on what the owner captured, and the new pending job.
  unfoldable pub enqueue :
      Publisher
      → DiagnosticContext
      → Bool
      → ℕ
      → ℕ
      → Outcome ReadDiagnostics
      → Outcome (Unit {0}) × Publisher
  enqueue p context detail now captured (returned r) =
      let read = without_map context r in
      if is_mismatch context r
      then (thrown logic_error, p)
      else if is_too_long read
      then (thrown logic_error, p)
      else (
        returned tt,
        note_request detail now (record p {
          sequence = add64 p.sequence 1;
          pending = some (record {
            read = read;
            sequence = add64 p.sequence 1;
            captured_at_unix_ms = captured;
            detail = detail;
          });
        }),
      )
  enqueue p context detail now captured (thrown e) = (thrown e, p)
  enqueue p context detail now captured undefined = (undefined, p)

  abbrev pub text_of : Option (List ℕ) → List ℕ
  text_of none = []
  text_of (some body) = body

  abbrev pub answer :
      Option (List ℕ) → Outcome (Unit {0}) × Publisher → Outcome (List ℕ) × Publisher
  answer body (returned _, p) = (returned (text_of body), p)
  answer body (thrown e, p) = (thrown e, p)
  answer body (undefined, p) = (undefined, p)

  -- The body is taken before the capture.
  unfoldable pub request_in :
      Publisher
      → DiagnosticContext
      → Bool
      → (Bool → Outcome ReadDiagnostics)
      → ℕ
      → ℕ
      → Outcome (List ℕ) × Publisher
  unfolding enqueue
  request_in p context detail capture now captured =
      if not (is_covered p context detail) && is_due p.refresh now (requested_of detail p)
      then answer (body_of detail p) (enqueue p context detail now captured (capture detail))
      else (returned (text_of (body_of detail p)), p)

  unfoldable pub request :
      Publisher
      → DiagnosticContext
      → Bool
      → (Bool → Outcome ReadDiagnostics)
      → ℕ
      → ℕ
      → Outcome (List ℕ) × Publisher
  unfolding with_context request_in
  request p context detail capture now captured =
      request_in (with_context p context) context detail capture now captured

  -- The locals of the worker while it serializes.
  pub record Work : Type 0 where
    pub capture : DiagnosticCapture
    pub context : DiagnosticContext
    pub revision : ℕ

  unfoldable pub take_pending : Publisher → Option DiagnosticCapture → Option (Publisher × Work)
  take_pending p none = none
  take_pending p (some c) = some (
    record p {
      pending = none;
      active = true;
      active_context = p.context;
      active_detail = c.detail;
      active_revision = p.context_revision;
    },
    record { capture = c; context = p.context; revision = p.context_revision },
  )

  -- The worker's turn from its wait to the unlock; none while there is nothing to do.
  unfoldable pub take_work : Publisher → Option (Publisher × Work)
  unfolding take_pending
  take_work p = if p.closing then none else take_pending p p.pending

  -- An empty text, or one of a publication that is too long, is none.
  abbrev pub kept : List ℕ → Option (List ℕ)
  kept text = if is_nil text then none else some text

  abbrev pub is_within : DiagnosticPublication → Bool
  is_within d = not (ltb maximum_bytes (length d.map) || ltb maximum_bytes (length d.history))

  unfoldable pub texts : Option DiagnosticPublication → Option (List ℕ) × Option (List ℕ)
  texts none = (none, none)
  texts (some d) = if is_within d then (kept d.map, kept d.history) else (none, none)

  abbrev pub newer : Option (List ℕ) → ℕ → ℕ → Bool
  newer none sequence old = false
  newer (some _) sequence old = ltb old sequence

  unfoldable pub publish_map : Publisher → Option (List ℕ) → ℕ → Publisher
  publish_map p map sequence =
      if newer map sequence p.map_sequence
      then record p { map = map; map_sequence = sequence }
      else p

  unfoldable pub publish_history : Publisher → Option (List ℕ) → ℕ → Publisher
  publish_history p history sequence =
      if newer history sequence p.history_sequence
      then record p { history = history; history_sequence = sequence }
      else p

  -- The worker's turn from the second lock to the end of the loop's body.
  unfoldable pub finish_work :
      (DiagnosticCapture → Option DiagnosticPublication) → Publisher → Work → Publisher
  unfolding texts publish_map publish_history
  finish_work serialize p w =
      let idle : Publisher = record p { active = false } in
      let made = texts (serialize w.capture) in
      if not p.closing && same_context w.context p.context && (w.revision == p.context_revision)
      then publish_history (publish_map idle made.0 w.capture.sequence) made.1 w.capture.sequence
      else idle

  -- The destructor, up to the join.
  unfoldable pub close : Publisher → Publisher
  close p = record p { closing = true; pending = none }

  -- The object and the worker's locals; a worker that waits has none.
  pub record System : Type 0 where
    pub publisher : Publisher
    pub work : Option Work

  abbrev pub new_publisher : ℕ → Publisher
  new_publisher refresh = record {
    refresh = refresh;
    closing = false;
    active = false;
    context = record { stream_generation = 0; disc_generation = 0 };
    active_context = record { stream_generation = 0; disc_generation = 0 };
    context_revision = 0;
    active_revision = 0;
    active_detail = false;
    pending = none;
    map = none;
    history = none;
    sequence = 0;
    map_sequence = 0;
    history_sequence = 0;
    map_requested = none;
    history_requested = none;
  }
