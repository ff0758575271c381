-- ===== src/Publisher/Context.antt =====
-- The texts that requests return are of the context that they ask for.
use picdplayer.Outcome.{Outcome}
use picdplayer.Prelude.{
  ℕ, ◌≡◌, refl, sym, Bool, false, not, ◌&&◌, Option, none, some, List, [], ◌∷◌, ◌==◌, if-both,
  some_injective, arith,
}
use mathlib.Core.Path.{subst}
use picdplayer.Verifier.{is_nil}
use picdplayer.Publisher.{
  DiagnosticContext, DiagnosticPublication, DiagnosticCapture, ReadDiagnostics, Publisher, Work,
  request, take_work, texts, publish_map, publish_history, finish_work, close, take_pending, System,
  new_publisher, same_context, is_within, kept, newer,
}
use picdplayer.Publisher.Request.{
  IsOf, IsMapOf, IsHistoryOf, Inv, IsWork, same_context-eq, Answered, RequestPost,
  request-RequestPost,
}

module _ (P : Type 0) (serialize : DiagnosticCapture P → Option DiagnosticPublication) where
  WorkPost : Option (Publisher P × Work P) → Type 0
  WorkPost none = Unit {0}
  WorkPost (some (p, w)) = (Inv P serialize) p × (IsWork P serialize) w

  take_pending-WorkPost :
      (p : Publisher P) (o : Option (DiagnosticCapture P))
      → p.pending ≡ o
      → (Inv P serialize) p
      → WorkPost (take_pending P p o)
  unfolding take_pending WorkPost IsWork
  take_pending-WorkPost p none e v = tt
  take_pending-WorkPost p (some c) e v =
      (record { pending = λ d x. cc; map = v.map; history = v.history }, v.pending c e)

  take_work-WorkPost : (p : Publisher P) → (Inv P serialize) p → WorkPost (take_work P p)
  unfolding take_work WorkPost
  take_work-WorkPost p v =
      if-both WorkPost p.closing (λ _. tt) (λ _. take_pending-WorkPost p p.pending refl v)

  kept-eq : (text body : List ℕ) → kept P text ≡ some body → text ≡ body
  kept-eq text body =
      if-both (λ o. o ≡ some body → text ≡ body) (is_nil text) (λ _ e. cc)
        (λ _ e. some_injective _ _ e)

  module _ (context : DiagnosticContext) (c : DiagnosticCapture P)
      (of : (IsOf P serialize) context c) (body : List ℕ) where
    texts-IsMapOf :
        (o : Option DiagnosticPublication)
        → serialize c ≡ o
        → (texts P o).0 ≡ some body
        → (IsMapOf P serialize) context body
    unfolding texts IsMapOf
    texts-IsMapOf none made = λ e. cc
    texts-IsMapOf (some d) made =
        if-both
          (λ (x : Option (List ℕ) × Option (List ℕ)).
            x.0 ≡ some body → (IsMapOf P serialize) context body)
          (is_within P d) (λ _ e. (c, d, made, kept-eq d.map body e, of)) (λ _ e. cc)

    texts-IsHistoryOf :
        (o : Option DiagnosticPublication)
        → serialize c ≡ o
        → (texts P o).1 ≡ some body
        → (IsHistoryOf P serialize) context body
    unfolding texts IsHistoryOf
    texts-IsHistoryOf none made = λ e. cc
    texts-IsHistoryOf (some d) made =
        if-both
          (λ (x : Option (List ℕ) × Option (List ℕ)).
            x.1 ≡ some body → (IsHistoryOf P serialize) context body)
          (is_within P d) (λ _ e. (c, d, made, kept-eq d.history body e, of)) (λ _ e. cc)

  publish_map-Inv :
      (p : Publisher P) (o : Option (List ℕ)) (sequence : ℕ)
      → (Inv P serialize) p
      → ((body : List ℕ) → o ≡ some body → (IsMapOf P serialize) p.context body)
      → (Inv P serialize) (publish_map P p o sequence)
        × ((publish_map P p o sequence).context ≡ p.context)
  unfolding publish_map
  publish_map-Inv p o sequence v h =
      if-both (λ (q : Publisher P). (Inv P serialize) q × (q.context ≡ p.context))
        (newer P o sequence p.map_sequence)
        (λ _. (record { pending = v.pending; map = h; history = v.history }, refl)) (λ _. (v, refl))

  publish_history-Inv :
      (p : Publisher P) (o : Option (List ℕ)) (sequence : ℕ)
      → (Inv P serialize) p
      → ((body : List ℕ) → o ≡ some body → (IsHistoryOf P serialize) p.context body)
      → (Inv P serialize) (publish_history P p o sequence)
  unfolding publish_history
  publish_history-Inv p o sequence v h =
      if-both (Inv P serialize) (newer P o sequence p.history_sequence)
        (λ _. record { pending = v.pending; map = v.map; history = h }) (λ _. v)

  finish_work-Inv :
      (p : Publisher P) (w : Work P)
      → (Inv P serialize) p
      → (IsWork P serialize) w
      → (Inv P serialize) (finish_work P serialize p w)
  unfolding finish_work IsWork
  finish_work-Inv p w v of =
      let idle : (Inv P serialize) (record p { active = false }) = record {
        pending = v.pending;
        map = v.map;
        history = v.history;
      } in
      if-both (Inv P serialize)
        (not p.closing && same_context w.context p.context && (w.revision == p.context_revision))
        (λ current.
          let here : w.context ≡ p.context = (same_context-eq P serialize) _ _ (ground arith) in
          let ours : (IsOf P serialize) p.context w.capture =
            subst (λ q. (IsOf P serialize) q w.capture) here of in
          let (mapped, same) =
            publish_map-Inv (record p { active = false }) (texts P (serialize w.capture)).0
              w.capture.sequence idle
              (λ body e. texts-IsMapOf p.context w.capture ours body _ refl e) in
          publish_history-Inv _ _ _ mapped (λ body e.
            subst (λ q. (IsHistoryOf P serialize) q body) (sym same)
              (texts-IsHistoryOf p.context w.capture ours body _ refl e)))
        (λ _. idle)

  pub data Event : Type 0 where
    requests : DiagnosticContext → Bool → (Bool → Outcome (ReadDiagnostics P)) → ℕ → ℕ → Event
    takes finishes closes : Event

  abbrev taken : System P → Option (Publisher P × Work P) → System P
  taken y none = y
  taken y (some (p, w)) = record { publisher = p; work = some w }

  -- The worker takes a capture while it waits, and publishes while it has one.
  pub step : System P → Event → System P
  unfolding request take_work finish_work close
  step y (requests context detail capture now captured) = record y {
    publisher = (request P y.publisher context detail capture now captured).1;
  }
  step y takes = elim y.work [ none ↦ taken y (take_work P y.publisher) | some w ↦ y ]
  step y finishes = elim y.work [
    | none ↦ y
    | some w ↦ record { publisher = finish_work P serialize y.publisher w; work = none }
  ]
  step y closes = record y { publisher = close P y.publisher }

  pub run : System P → List Event → System P
  unfolding step
  run y [] = y
  run y (e ∷ es) = run (step y e) es

  pub record Safe (y : System P) : Type 0 where
    pub publisher : (Inv P serialize) y.publisher
    pub work : (w : Work P) → y.work ≡ some w → (IsWork P serialize) w

  taken-Safe :
      (y : System P) (o : Option (Publisher P × Work P)) → Safe y → WorkPost o → Safe (taken y o)
  unfolding WorkPost
  taken-Safe y none v h = v
  taken-Safe y (some (p, w)) v h = record {
    publisher = h.0;
    work = λ x e. subst (IsWork P serialize) (some_injective _ _ e) h.1;
  }

  takes-Safe :
      (y : System P) (o : Option (Work P))
      → Safe y
      → Safe (elim o [ none ↦ taken y (take_work P y.publisher) | some w ↦ y ])
  takes-Safe y none v =
      taken-Safe y (take_work P y.publisher) v (take_work-WorkPost y.publisher v.publisher)
  takes-Safe y (some w) v = v

  finishes-Safe :
      (y : System P) (o : Option (Work P))
      → y.work ≡ o
      → Safe y
      → Safe (elim o [
        | none ↦ y
        | some w ↦ record { publisher = finish_work P serialize y.publisher w; work = none }
      ])
  finishes-Safe y none e v = v
  finishes-Safe y (some w) e v = record {
    publisher = finish_work-Inv y.publisher w v.publisher (v.work w e);
    work = λ x f. cc;
  }

  step-Safe : (y : System P) (e : Event) → Safe y → Safe (step y e)
  unfolding step close RequestPost
  step-Safe y (requests context detail capture now captured) v = record {
    publisher =
        ((request-RequestPost P serialize) y.publisher context detail capture now captured
          v.publisher).1.0;
    work = v.work;
  }
  step-Safe y takes v = takes-Safe y y.work v
  step-Safe y finishes v = finishes-Safe y y.work refl v
  step-Safe y closes v = record {
    publisher = record {
      pending = λ c e. cc;
      map = v.publisher.map;
      history = v.publisher.history;
    };
    work = v.work;
  }

  run-Safe : (y : System P) (es : List Event) → Safe y → Safe (run y es)
  unfolding run
  run-Safe y [] v = v
  run-Safe y (e ∷ es) v = run-Safe (step y e) es (step-Safe y e v)

  abbrev pub start : ℕ → System P
  start refresh = record { publisher = new_publisher P refresh; work = none }

  -- After any interleaving of requests, of the worker's two turns and of the destructor, a request for
  -- a context that returns gives an empty text, or a text that the serializer made of a capture of that
  -- stream and, unless the context has no disc, of that disc; never a text of an earlier context.
  pub run-Answered :
      (refresh : ℕ) (es : List Event) (context : DiagnosticContext) (detail : Bool)
      (capture : Bool → Outcome (ReadDiagnostics P)) (now captured : ℕ)
      → (Answered P serialize) context detail
          (request P (run (start refresh) es).publisher context detail capture now captured).0
  unfolding RequestPost
  run-Answered refresh es context detail capture now captured =
      ((request-RequestPost P serialize) (run (start refresh) es).publisher context detail capture
        now captured
        (run-Safe (start refresh) es (record {
          publisher = record { pending = λ c e. cc; map = λ c e. cc; history = λ c e. cc };
          work = λ w e. cc;
        })).publisher).0
