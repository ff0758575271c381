-- ===== src/Engine/OnDisc.antt =====
-- The engine over PcmWorker: what is heard is the disc.
use picdplayer.Engine.Threaded.{
  Slot, Threaded, turned, slot_of, rest_of, entered, next_generation, started_by, popped_by,
}
use picdplayer.Outcome.{Outcome}
use picdplayer.Prelude.{
  ℕ, ◌+◌, ◌*◌, ◌%◌, ◌^◌, ◌≤◌, ◌<◌, ◌≡◌, refl, sym, ap, ◌∙◌, true, false, ◌||◌, List, [], ◌∷◌, ◌++◌,
  ℤ, pos, ◌≤ℤ◌, ◌<ℤ◌, pos_part, if-both, ltb_ℤ, leb_ℤ, ◌==◌, length, length-append, arith,
  Bool-cases, inl, inr,
}
use picdplayer.Prelude.Int.{◌+ℤ◌}
use picdplayer.Prelude.Slice.{slice, slice-append, append_nil}
use picdplayer.Worker.{PcmWorker, PcmBlock}
use picdplayer.Worker
use picdplayer.Worker.Blocks.{Chain}
use picdplayer.Worker.Popping.{popped-Holds}
use picdplayer.Worker.Delivery.{restarted}
use picdplayer.Worker.Thread
use picdplayer.Worker.Thread.{Drive, turn}
use picdplayer.Worker.Turns.{IsFaithful, Holds, turn_at-Holds, turn_at-SameRange}

module _ (disc : ℕ → ℤ) where
  -- The samples of a range of LBAs from 0 on.
  abbrev pub OnDisc : ℤ → List ℤ → Type 0
  OnDisc lba xs = xs ≡ slice disc (pos_part lba * 1176) (length xs)

  abbrev pub AllFaithful : List Drive → Type 0
  AllFaithful [] = Unit {0}
  AllFaithful (d ∷ ds) = IsFaithful OnDisc d × AllFaithful ds

  abbrev pub Faithful : List Slot → Type 0
  Faithful [] = Unit {0}
  Faithful (slot ∷ rest) = AllFaithful slot.drives × Faithful rest

  -- While the generations are fewer than 2 ^ 64: the worker keeps its invariant, and the samples popped
  -- are those of the disc from the first LBA on, up to the first block of the queue.
  pub record Follows (t : Threaded) : Type 0 where
    pub next : ℤ
    pub holds : Holds OnDisc t.system next
    pub few : t.system.worker.generation ≤ t.generations
    pub earlier : t.generation ≤ t.system.worker.generation
    pub low : pos 0 ≤ℤ t.begin
    pub on_disc : OnDisc t.begin t.samples
    pub reached :
        t.system.worker.generation ≡ t.generation
        → (pos 0 ≤ℤ next) × (pos_part next * 1176 ≡ pos_part t.begin * 1176 + length t.samples)

  pub record IsValid (t : Threaded) : Type 0 where
    pub faithful : Faithful t.schedule
    pub follows : t.generations < 2 ^ 64 → Follows t

  turned-Holds :
      (s : Thread.System) (next : ℤ) (ds : List Drive)
      → AllFaithful ds
      → Holds OnDisc s next
      → Holds OnDisc (turned s ds) next × ((turned s ds).worker.generation ≡ s.worker.generation)
  unfolding turn
  turned-Holds s next [] good v = (v, refl)
  turned-Holds s next (d ∷ ds) (good, rest) v =
      let (w, e) =
        turned-Holds (turn s d) next ds rest (turn_at-Holds OnDisc s next s.point d good v) in
      (w, e ∙ (turn_at-SameRange s s.point d).0)

  Faithful-parts :
      (schedule : List Slot)
      → Faithful schedule
      → AllFaithful (slot_of schedule).drives × Faithful (rest_of schedule)
  Faithful-parts [] f = (tt, tt)
  Faithful-parts (slot ∷ rest) f = f

  pub entered-IsValid : (t : Threaded) → IsValid t → IsValid (entered t)
  entered-IsValid t v =
      let (good, rest) = Faithful-parts t.schedule v.faithful in
      record {
        faithful = rest;
        follows = λ small.
            let f = v.follows small in
            let (holds, same) =
              turned-Holds t.system f.next (slot_of t.schedule).drives good f.holds in
            record {
              next = f.next;
              holds = holds;
              few = rw same f.few;
              earlier = rw same f.earlier;
              low = f.low;
              on_disc = f.on_disc;
              reached = λ e. f.reached (sym same ∙ e);
            };
      }

  slice-none : (i : ℕ) → [] ≡ slice disc i 0
  unfolding slice
  slice-none i = refl

  append-OnDisc :
      (from next : ℤ) (xs ys : List ℤ)
      → OnDisc from xs
      → OnDisc next ys
      → pos_part next * 1176 ≡ pos_part from * 1176 + length xs
      → OnDisc from (xs ++ ys)
  append-OnDisc from next xs ys x y e =
      ap (λ t. t ++ ys) x
      ∙ ap (λ t. slice disc (pos_part from * 1176) (length xs) ++ t) y
      ∙ slice-append disc (pos_part from * 1176) (length xs) (pos_part next * 1176) (length ys)
          (length (xs ++ ys)) e (length-append xs ys)

  advanced :
      (next : ℤ) (frames : ℕ)
      → pos 0 ≤ℤ next
      → (pos 0 ≤ℤ next +ℤ pos frames) × (pos_part (next +ℤ pos frames) ≡ pos_part next + frames)
  unfolding ◌+ℤ◌
  advanced next frames above = (grind arith, grind arith)

  -- A call that ends the stream.
  renewed-IsValid :
      (t : Threaded) (w : PcmWorker)
      → IsValid t
      → w.generation ≡ (t.system.worker.generation + 1) % 2 ^ 64
      → ((f : Follows t)
          → t.system.worker.generation + 1 < 2 ^ 64
          → Holds OnDisc (record t.system { worker = w }) t.system.worker.end)
      → IsValid (next_generation t w)
  renewed-IsValid t w v e h = record {
    faithful = v.faithful;
    follows = λ small.
        let f = v.follows (omega (arith, small)) in
        let room : t.system.worker.generation + 1 < 2 ^ 64 = omega (arith, small, f.few) in
        let g : w.generation ≡ t.system.worker.generation + 1 = omega (arith, e, room) in
        record {
          next = t.system.worker.end;
          holds = h f room;
          few = omega (arith, g, f.few);
          earlier = omega (arith, g, f.earlier);
          low = f.low;
          on_disc = f.on_disc;
          reached = λ same. absurd (omega (arith, same, g, f.earlier));
        };
  }

  pub cancel-IsValid :
      (t : Threaded) → IsValid t → IsValid (next_generation t (Worker.cancel t.system.worker))
  unfolding Worker.cancel
  cancel-IsValid t v = renewed-IsValid t (Worker.cancel t.system.worker) v refl (λ f room.
      restarted OnDisc t.system f.next f.holds room t.system.worker.begin t.system.worker.end
        t.system.worker.end false t.system.worker.discard (omega arith) (λ h. cc) (λ h. cc))

  pub discard-IsValid :
      (t : Threaded)
      → IsValid t
      → IsValid (next_generation t (Worker.discard_reader t.system.worker))
  unfolding Worker.discard_reader
  discard-IsValid t v = renewed-IsValid t (Worker.discard_reader t.system.worker) v refl (λ f room.
      restarted OnDisc t.system f.next f.holds room t.system.worker.begin t.system.worker.end
        t.system.worker.end false true (omega arith) (λ h. cc) (λ h. cc))

  pub start-IsValid :
      (from to : ℤ) (t : Threaded)
      → IsValid t
      → IsValid (started_by from t (Worker.start t.system.worker from to)).1
  unfolding Worker.start
  start-IsValid from to t v =
      if-both (λ (x : Outcome ℕ × PcmWorker). IsValid (started_by from t x).1)
        (ltb_ℤ from (pos 0) || leb_ℤ to from) (λ _. v)
        (λ good. record {
          faithful = v.faithful;
          follows = λ small.
              let f = v.follows (omega (arith, small)) in
              let room : t.system.worker.generation + 1 < 2 ^ 64 = omega (arith, small, f.few) in
              let low : pos 0 ≤ℤ from = ground (arith, good) in
              let range : from <ℤ to = ground (arith, good) in
              record {
                next = from;
                holds =
                    restarted OnDisc t.system f.next f.holds room from to from true
                      t.system.worker.discard (omega (arith, range)) (λ _. range) (λ _. refl);
                few = omega (arith, room, f.few);
                earlier = omega arith;
                low = low;
                on_disc = slice-none (pos_part from * 1176);
                reached = λ _. (low, omega arith);
              };
        })

  pop_from-IsValid :
      (t : Threaded) (q : List PcmBlock)
      → IsValid t
      → ((f : Follows t) → Chain OnDisc t.system.worker.generation f.next f.holds.to q)
      → IsValid (popped_by t (Worker.pop_from t.system.worker q)).1
  pop_from-IsValid t [] v c = v
  pop_from-IsValid t (block ∷ rest) v c = record {
    faithful = v.faithful;
    follows = λ small.
        let f = v.follows small in
        let (frames, (same, here, some_frames, sized, given), more) = c f in
        record {
          next = f.next +ℤ pos frames;
          holds = popped-Holds OnDisc t.system f.next f.holds block rest frames more;
          few = f.few;
          earlier = f.earlier;
          low = f.low;
          on_disc = elim (Bool-cases (block.generation == t.generation)) [
            | inl present ↦
                let at_next = (f.reached (ground (arith, present, same))).1 in
                rw present
                  (append-OnDisc t.begin f.next t.samples block.samples f.on_disc given at_next)
            | inr other ↦ rw (other, append_nil t.samples) f.on_disc
          ];
          reached = λ e.
              let (above, at_next) = f.reached e in
              let present : (block.generation == t.generation) ≡ true = ground (arith, same, e) in
              let (still, next') = advanced f.next frames above in
              (
                still,
                rw present
                    (omega (arith, next', at_next, sized, length-append t.samples block.samples)),
              );
        };
  }

  pub pop-IsValid :
      (t : Threaded) → IsValid t → IsValid (popped_by t (Worker.pop t.system.worker)).1
  unfolding Worker.pop
  pop-IsValid t v = pop_from-IsValid t t.system.worker.queue v (λ f. f.holds.chain)
