-- ===== src/Publisher/Request.antt =====
-- What a request gives: the invariant of the publisher, and the text that it keeps for a context.
use picdplayer.Outcome.{Exception, Outcome, returned, thrown, undefined}
use picdplayer.Prelude.{
  ℕ, ◌≡◌, refl, sym, ◌∙◌, Bool, true, false, not, ◌&&◌, ◌⊎◌, inl, inr, Option, none, some, List, [],
  ◌==◌, if-both, some_injective, arith,
}
use mathlib.Core.Path.{subst, ap₂}
use picdplayer.DiscMap.{DiscReadMap}
use picdplayer.Reader.{add64}
use picdplayer.Publisher.{
  DiagnosticContext, DiagnosticPublication, DiagnosticCapture, ReadDiagnostics, Publisher, Work,
  with_context, enqueue, request_in, request, same_context, is_covered, is_due, requested_of,
  body_of, text_of, answer, note_request, is_mismatch, is_too_long, without_map, other_disc,
}

module _ (P : Type 0) (serialize : DiagnosticCapture P → Option DiagnosticPublication) where
  -- The capture is of the stream and of the disc.
  pub IsOf : DiagnosticContext → DiagnosticCapture P → Type 0
  IsOf context c =
      (c.read.stream_generation ≡ context.stream_generation)
      × ((context.disc_generation ≡ 0)
          ⊎ ((m : DiscReadMap) × (c.read.disc_map ≡ some m)
              × (m.disc_generation ≡ context.disc_generation)))

  -- A text is a part of what the serializer made of a capture of the context.
  unfoldable pub IsMapOf : DiagnosticContext → List ℕ → Type 0
  IsMapOf context body =
      (c : DiagnosticCapture P) × (d : DiagnosticPublication) × (serialize c ≡ some d)
      × (d.map ≡ body)
      × IsOf context c

  unfoldable pub IsHistoryOf : DiagnosticContext → List ℕ → Type 0
  IsHistoryOf context body =
      (c : DiagnosticCapture P) × (d : DiagnosticPublication) × (serialize c ≡ some d)
      × (d.history ≡ body)
      × IsOf context c

  pub record Inv (p : Publisher P) : Type 0 where
    pub pending : (c : DiagnosticCapture P) → p.pending ≡ some c → IsOf p.context c
    pub map : (body : List ℕ) → p.map ≡ some body → IsMapOf p.context body
    pub history : (body : List ℕ) → p.history ≡ some body → IsHistoryOf p.context body

  unfoldable pub IsWork : Work P → Type 0
  IsWork w = IsOf w.context w.capture

  with_context-Inv :
      (p : Publisher P) (context : DiagnosticContext) → Inv p → Inv (with_context P p context)
  unfolding with_context
  with_context-Inv p context v =
      if-both Inv (same_context context p.context) (λ _. v)
        (λ _. record { pending = λ c e. cc; map = λ c e. cc; history = λ c e. cc })

  pub same_context-eq : (a b : DiagnosticContext) → same_context a b ≡ true → a ≡ b
  same_context-eq a b h =
      let streams : a.stream_generation ≡ b.stream_generation = ground arith in
      let discs : a.disc_generation ≡ b.disc_generation = ground arith in
      ap₂ (λ s d. record { stream_generation = s; disc_generation = d }) streams discs

  with_context-context :
      (p : Publisher P) (context : DiagnosticContext) → (with_context P p context).context ≡ context
  unfolding with_context
  with_context-context p context =
      if-both (λ (q : Publisher P). q.context ≡ context) (same_context context p.context)
        (λ same. sym (same_context-eq _ _ same)) (λ _. refl)

  note_request-Inv :
      (detail : Bool) (now : ℕ) (p : Publisher P) → Inv p → Inv (note_request P detail now p)
  note_request-Inv true now p v = record { pending = v.pending; map = v.map; history = v.history }
  note_request-Inv false now p v = record { pending = v.pending; map = v.map; history = v.history }

  note_request-context :
      (detail : Bool) (now : ℕ) (p : Publisher P)
      → (note_request P detail now p).context ≡ p.context
  note_request-context true now p = refl
  note_request-context false now p = refl

  other_disc-false :
      (generation : ℕ) (o : Option DiscReadMap)
      → other_disc P generation o ≡ false
      → (m : DiscReadMap) × (o ≡ some m) × (m.disc_generation ≡ generation)
  other_disc-false generation none h = cc
  other_disc-false generation (some m) h = (m, refl, ground arith)

  captured-IsOf :
      (context : DiagnosticContext) (r : ReadDiagnostics P) (sequence captured : ℕ) (detail : Bool)
      → is_mismatch P context r ≡ false
      → IsOf context (record {
        read = without_map P context r;
        sequence = sequence;
        captured_at_unix_ms = captured;
        detail = detail;
      })
  unfolding IsOf
  captured-IsOf context r sequence captured detail fits =
      if-both
        (λ (q : ReadDiagnostics P).
          (q.stream_generation ≡ context.stream_generation)
          × ((context.disc_generation ≡ 0)
              ⊎ ((m : DiscReadMap) × (q.disc_map ≡ some m)
                  × (m.disc_generation ≡ context.disc_generation))))
        (context.disc_generation == 0) (λ zero_disc. (ground arith, inl (ground arith)))
        (λ some_disc.
          (ground arith, inr (other_disc-false context.disc_generation r.disc_map (ground arith))))

  abbrev EnqueuePost : DiagnosticContext → Outcome (Unit {0}) × Publisher P → Type 0
  EnqueuePost context x = Inv x.1 × (x.1.context ≡ context)

  enqueue-EnqueuePost :
      (p : Publisher P) (context : DiagnosticContext) (detail : Bool) (now captured : ℕ)
      (o : Outcome (ReadDiagnostics P))
      → Inv p
      → p.context ≡ context
      → EnqueuePost context (enqueue P p context detail now captured o)
  unfolding enqueue
  enqueue-EnqueuePost p context detail now captured (returned r) v here =
      if-both (EnqueuePost context) (is_mismatch P context r) (λ _. (v, here))
        (λ fits.
          if-both (EnqueuePost context) (is_too_long P (without_map P context r)) (λ _. (v, here))
            (λ _. (
              note_request-Inv detail now _ (record {
                pending = λ c e. subst (IsOf p.context) (some_injective _ _ e) (
                    subst
                      (λ q. IsOf q (record {
                        read = without_map P context r;
                        sequence = add64 p.sequence 1;
                        captured_at_unix_ms = captured;
                        detail = detail;
                      }))
                      (sym here)
                      (captured-IsOf context r (add64 p.sequence 1) captured detail fits));
                map = v.map;
                history = v.history;
              }),
              note_request-context detail now _ ∙ here,
            )))
  enqueue-EnqueuePost p context detail now captured (thrown e) v here = (v, here)
  enqueue-EnqueuePost p context detail now captured undefined v here = (v, here)

  -- What a request gives: no text yet, or a text of its context.
  abbrev pub Answered : DiagnosticContext → Bool → Outcome (List ℕ) → Type 0
  Answered context true (returned body) = (body ≡ []) ⊎ IsHistoryOf context body
  Answered context false (returned body) = (body ≡ []) ⊎ IsMapOf context body
  Answered context _ (thrown e) = Unit {0}
  Answered context _ undefined = Unit {0}

  text-cases :
      (Q : List ℕ → Type 0) (o : Option (List ℕ))
      → ((body : List ℕ) → o ≡ some body → Q body)
      → (text_of P o ≡ []) ⊎ Q (text_of P o)
  text-cases Q none h = inl refl
  text-cases Q (some body) h = inr (h body refl)

  text-Answered :
      (p : Publisher P) (detail : Bool)
      → Inv p
      → Answered p.context detail (returned (text_of P (body_of P detail p)))
  text-Answered p true v = text-cases (IsHistoryOf p.context) p.history v.history
  text-Answered p false v = text-cases (IsMapOf p.context) p.map v.map

  unfoldable pub RequestPost : DiagnosticContext → Bool → Outcome (List ℕ) × Publisher P → Type 0
  RequestPost context detail x =
      Answered context detail x.0 × EnqueuePost context (returned tt, x.1)

  any_failure :
      (context : DiagnosticContext) (detail : Bool) (e : Exception)
      → Answered context detail (thrown e)
  any_failure context true e = tt
  any_failure context false e = tt

  any_fault : (context : DiagnosticContext) (detail : Bool) → Answered context detail undefined
  any_fault context true = tt
  any_fault context false = tt

  answer-RequestPost :
      (context : DiagnosticContext) (detail : Bool) (body : Option (List ℕ))
      (x : Outcome (Unit {0}) × Publisher P)
      → Answered context detail (returned (text_of P body))
      → EnqueuePost context x
      → RequestPost context detail (answer P body x)
  unfolding RequestPost
  answer-RequestPost context detail body (returned u, p) a v = (a, v)
  answer-RequestPost context detail body (thrown e, p) a v = (any_failure context detail e, v)
  answer-RequestPost context detail body (undefined, p) a v = (any_fault context detail, v)

  pub request-RequestPost :
      (p : Publisher P) (context : DiagnosticContext) (detail : Bool)
      (capture : Bool → Outcome (ReadDiagnostics P)) (now captured : ℕ)
      → Inv p
      → RequestPost context detail (request P p context detail capture now captured)
  unfolding request request_in RequestPost
  request-RequestPost p context detail capture now captured v =
      let q = with_context P p context in
      let here = with_context-context p context in
      let w = with_context-Inv p context v in
      let a =
        subst (λ c. Answered c detail (returned (text_of P (body_of P detail q)))) here
          (text-Answered q detail w) in
      if-both (RequestPost context detail)
        (not (is_covered P q context detail) && is_due P q.refresh now (requested_of P detail q))
        (λ _.
          answer-RequestPost context detail (body_of P detail q) _ a
            (enqueue-EnqueuePost q context detail now captured (capture detail) w here))
        (λ _. (a, (w, here)))
