-- ===== src/Device/Epoch.antt =====
-- A generation that is still current has seen no change of the device.
use picdplayer.Prelude.{
  ℕ, suc, ◌+◌, ◌≤◌, ◌<◌, ◌^◌, ◌≡◌, refl, true, not, ◌&&◌, ◌||◌, ◌⊎◌, inl, inr, List, [], ◌∷◌,
  length, arith, Bool-cases, sym, ◌∙◌, ◌≢◌,
}
use picdplayer.Device.{
  DevicePresence, DeviceObservation, DeviceObservationTracker, same_presence, is_present,
  same_bytes, bounded, record_observation, observe, reader_failed, permits,
}

pub data Event : Type 0 where
  observes : DeviceObservation → Event
  fails : Event

unfoldable pub step : DeviceObservationTracker → Event → DeviceObservationTracker
unfolding observe reader_failed
step t (observes v) = observe t v
step t fails = reader_failed t

unfoldable pub run : DeviceObservationTracker → List Event → DeviceObservationTracker
run t [] = t
run t (e ∷ es) = run (step t e) es

pub same_presence-eq : (p q : DevicePresence) → same_presence p q ≡ true → p ≡ q
same_presence-eq p q h = ground arith

pub same_bytes-eq : (xs ys : List ℕ) → same_bytes xs ys ≡ true → xs ≡ ys
same_bytes-eq [] [] h = refl
same_bytes-eq [] (y ∷ ys) h = cc
same_bytes-eq (x ∷ xs) [] h = cc
same_bytes-eq (x ∷ xs) (y ∷ ys) h = ground (arith, same_bytes-eq xs ys)

-- The event reports the device as it was known: the presence, and the signature of a present one.
abbrev pub Agrees : DeviceObservationTracker → Event → Type 0
Agrees t fails = ⊥
Agrees t (observes v) =
    ((bounded v).presence ≡ t.snapshot.presence)
    × ((bounded v).presence ≡ DevicePresence.present → (bounded v).signature ≡ t.signature)

abbrev pub AllAgree : DeviceObservationTracker → List Event → Type 0
AllAgree t [] = Unit {0}
AllAgree t (e ∷ es) = Agrees t e × AllAgree t es

-- A step raises the generation by one (below 2 ^ 64), or leaves it and agrees with what was known.
step-generation :
    (t : DeviceObservationTracker) (e : Event)
    → suc t.snapshot.generation < 2 ^ 64
    → ((step t e).snapshot.generation ≡ suc t.snapshot.generation)
      ⊎ (((step t e).snapshot.generation ≡ t.snapshot.generation) × Agrees t e)
unfolding step record_observation observe
step-generation t fails h = inl (omega arith)
step-generation t (observes v) h =
    elim (Bool-cases (
      not t.snapshot.sampled
      || not (same_presence t.snapshot.presence (bounded v).presence)
      || (is_present (bounded v).presence && not (same_bytes t.signature (bounded v).signature)))) [
        | inl changed ↦ inl (rw changed (omega arith))
        | inr same ↦ inr (
          rw same refl,
          (
            sym (same_presence-eq t.snapshot.presence (bounded v).presence (ground arith)),
            λ p. sym (same_bytes-eq t.signature (bounded v).signature (ground arith)),
          ),
        )
      ]

step-presence :
    (t : DeviceObservationTracker) (v : DeviceObservation)
    → ((step t (observes v)).snapshot.presence ≡ (bounded v).presence)
      × ((step t (observes v)).signature ≡ (bounded v).signature)
unfolding step record_observation observe
step-presence t v = (refl, refl)

Agrees-back :
    (t : DeviceObservationTracker) (e f : Event) → Agrees t e → Agrees (step t e) f → Agrees t f
Agrees-back t fails f a b = absurd a
Agrees-back t (observes v) fails a b = b
Agrees-back t (observes v) (observes w) a b =
    let (p, s) = step-presence t v in (b.0 ∙ p ∙ a.0, λ q. b.1 q ∙ s ∙ a.1 (sym p ∙ sym b.0 ∙ q))

AllAgree-back :
    (t : DeviceObservationTracker) (e : Event) (es : List Event)
    → Agrees t e
    → AllAgree (step t e) es
    → AllAgree t es
AllAgree-back t e [] a b = tt
AllAgree-back t e (f ∷ es) a b = (Agrees-back t e f a b.0, AllAgree-back t e es a b.1)

run-le :
    (t : DeviceObservationTracker) (es : List Event)
    → length es + t.snapshot.generation < 2 ^ 64
    → t.snapshot.generation ≤ (run t es).snapshot.generation
unfolding run
run-le t [] h = omega arith
run-le t (e ∷ es) h = elim (step-generation t e (omega arith)) [
  | inl up ↦ omega (arith, run-le (step t e) es (omega arith))
  | inr (same, _) ↦ omega (arith, run-le (step t e) es (omega arith))
]

run-AllAgree :
    (t : DeviceObservationTracker) (es : List Event)
    → length es + t.snapshot.generation < 2 ^ 64
    → (run t es).snapshot.generation ≡ t.snapshot.generation
    → AllAgree t es
unfolding run
run-AllAgree t [] h e = tt
run-AllAgree t (e ∷ es) h same = elim (step-generation t e (omega arith)) [
  | inl up ↦ absurd (omega (arith, run-le (step t e) es (omega arith)))
  | inr (kept, agrees) ↦ (
    agrees,
    AllAgree-back t e es agrees (run-AllAgree (step t e) es (omega arith) (same ∙ sym kept)),
  )
]

-- If the generation that was current before some observations and reader failures, too few to wrap
-- the counter, is still permitted after them, then no reader failed, each of the observations
-- reported the presence known before, and of a present device the signature known before; and the
-- device is not absent.
pub permits-AllAgree :
    (t : DeviceObservationTracker) (es : List Event)
    → length es + t.snapshot.generation < 2 ^ 64
    → permits (run t es) t.snapshot.generation ≡ true
    → AllAgree t es × ((run t es).snapshot.presence ≢ DevicePresence.absent)
unfolding permits
permits-AllAgree t es h p = (run-AllAgree t es h (ground arith), ground arith)
