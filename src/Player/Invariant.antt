-- ===== src/Player/Invariant.antt =====
-- The invariant of the player and the commands that keep it.
use picdplayer.Prelude.{
  ℕ, ◌≡◌, ◌≢◌, refl, Bool, true, false, inl, inr, Option, none, some, ℤ, ◌+ℤ◌, ◌≤ℤ◌, ◌<ℤ◌, leb_ℤ,
  get_elem?, arith, int_laws, Bool-cases,
}
use picdplayer.Outcome.{Outcome, returned, thrown, undefined, deref, invalid_argument, ◌>>=◌}
use picdplayer.Toc.{Track, DiscToc}
use picdplayer.Toc.Contiguous.{IsValid, next_start}
use picdplayer.Player.{
  with_disc, PlayerController, PlaybackState, initial_state, select_index, moved_to, with_playback,
  first_of, last_of,
}
use picdplayer.Player.Tracks.{Bounds, get_elem?-Bounds}

-- A valid disc is loaded, and the playback range lies in it.
pub record HasDisc (c : PlayerController) (toc : DiscToc) : Type 0 where
  pub first : ℤ
  pub valid : IsValid first toc
  pub has : c.toc ≡ some toc
  pub low : next_start toc.tracks toc.leadout_lba ≤ℤ c.begin
  pub order : c.begin ≤ℤ c.end
  pub high : c.end ≤ℤ toc.leadout_lba
  pub inserted : c.state.playback ≢ PlaybackState.no_disc

-- The current track and position belong together: the position lies inside the track.
pub record At (c : PlayerController) (toc : DiscToc) : Type 0 where
  pub track : Track
  pub position : ℤ
  pub at_index : get_elem? toc.tracks c.index ≡ some track
  pub numbered : c.state.track ≡ some track.number
  pub positioned : c.state.position_lba ≡ some position
  pub after : track.start_lba ≤ℤ position
  pub before : position <ℤ track.start_lba +ℤ track.length_frames

pub data Inv (c : PlayerController) : Type 0 where
  empty : c.toc ≡ none → c.state ≡ initial_state → Inv c
  loaded : (toc : DiscToc) → HasDisc c toc → At c toc → Inv c

-- A call returns and keeps the invariant, or rejects its argument; it never reads out of bounds.
abbrev pub Keeps : Outcome (PlayerController × Bool) → Type 0
Keeps (returned r) = Inv r.0
Keeps (thrown e) = e ≡ invalid_argument
Keeps undefined = ⊥

module _ (missing : Outcome (PlayerController × Bool))
    (f : DiscToc → Outcome (PlayerController × Bool)) where
  pub with_disc-none :
      (o : Option DiscToc) → o ≡ none → Keeps missing → Keeps (with_disc o missing f)
  unfolding with_disc
  with_disc-none none e k = k
  with_disc-none (some toc) e k = cc

  pub with_disc-eq :
      (o : Option DiscToc) (toc : DiscToc) → o ≡ some toc → with_disc o missing f ≡ f toc
  unfolding with_disc
  with_disc-eq o toc e = rw e

  pub with_disc-some :
      (o : Option DiscToc) (toc : DiscToc)
      → o ≡ some toc
      → Keeps (f toc)
      → Keeps (with_disc o missing f)
  unfolding with_disc
  with_disc-some o toc e k = rw e k

pub deref-Keeps {ℓ} :
    {A : Type ℓ} (f : A → Outcome (PlayerController × Bool)) (o : Option A) (a : A)
    → o ≡ some a
    → Keeps (f a)
    → Keeps (deref o >>= f)
deref-Keeps f o a e k = rw e k

pub moved-HasDisc :
    (c : PlayerController) (toc : DiscToc) (i : ℕ) (t : Track) (p : ℤ)
    → HasDisc c toc
    → HasDisc (moved_to c i t p) toc
moved-HasDisc c toc i t p h = record {
  first = h.first;
  valid = h.valid;
  has = h.has;
  low = h.low;
  order = h.order;
  high = h.high;
  inserted = h.inserted;
}

pub with_playback-HasDisc :
    (c : PlayerController) (toc : DiscToc) (s : PlaybackState)
    → s ≢ PlaybackState.no_disc
    → HasDisc c toc
    → HasDisc (with_playback c s) toc
with_playback-HasDisc c toc s n h = record {
  first = h.first;
  valid = h.valid;
  has = h.has;
  low = h.low;
  order = h.order;
  high = h.high;
  inserted = n;
}

pub with_playback-At :
    (c : PlayerController) (toc : DiscToc) (s : PlaybackState)
    → At c toc
    → At (with_playback c s) toc
with_playback-At c toc s a = record {
  track = a.track;
  position = a.position;
  at_index = a.at_index;
  numbered = a.numbered;
  positioned = a.positioned;
  after = a.after;
  before = a.before;
}

pub moved-Inv :
    (c : PlayerController) (toc : DiscToc) (i : ℕ) (t : Track) (p : ℤ)
    → HasDisc c toc
    → get_elem? toc.tracks i ≡ some t
    → t.start_lba ≤ℤ p
    → p <ℤ t.start_lba +ℤ t.length_frames
    → Inv (moved_to c i t p)
moved-Inv c toc i t p h e low high = loaded toc (moved-HasDisc c toc i t p h) (record {
  track = t;
  position = p;
  at_index = e;
  numbered = refl;
  positioned = refl;
  after = low;
  before = high;
})

module _ (c : PlayerController) (toc : DiscToc) (i : ℕ) (t : Track) (h : HasDisc c toc)
    (e : get_elem? toc.tracks i ≡ some t) where
  bounds : Bounds toc.tracks toc.leadout_lba t
  bounds = get_elem?-Bounds h.first toc.tracks toc.leadout_lba i h.valid.4 e

  -- Without the range check the start of the track is always a position of it.
  pub unconstrained-Inv : Keeps (select_index c toc i false)
  unfolding select_index
  unconstrained-Inv =
      rw e (moved-Inv c toc i t t.start_lba h e (omega arith) (omega (int_laws, bounds.nonempty)))

  pub fitting-Inv : leb_ℤ (last_of c t) (first_of c t) ≡ false → Keeps (select_index c toc i true)
  unfolding select_index
  fitting-Inv inside =
      rw (e, inside) (moved-Inv c toc i t (first_of c t) h e (ground arith) (ground arith))

  pub constrained-Inv : Inv c → Keeps (select_index c toc i true)
  unfolding select_index
  constrained-Inv v = elim (Bool-cases (leb_ℤ (last_of c t) (first_of c t))) [
    | inl outside ↦ rw (e, outside) v
    | inr inside ↦ fitting-Inv inside
  ]
