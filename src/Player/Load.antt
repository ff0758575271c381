-- ===== src/Player/Load.antt =====
-- load_disc, remove_disc and set_playback_range: the commands that choose the disc and the range.
use picdplayer.Prelude.{
  ◌≡◌, refl, false, not, ◌||◌, inl, inr, some, List, [], ◌∷◌, ℤ, ◌+ℤ◌, ltb_ℤ, leb_ℤ, get_elem?,
  arith, min-max_room, int_laws, Bool-cases,
}
use picdplayer.Outcome.{Outcome, returned, thrown, undefined, ◌>>=◌}
use picdplayer.Toc.{Track, DiscToc, make_audio_toc}
use picdplayer.Toc.Contiguous.{IsValid, starts, TocBuilt, make_audio_toc-TocBuilt}
use picdplayer.Player.{
  install, PlayerController, PlaybackState, with_playback, first_of, last_of, same_tracks,
  load_disc, load_tracks, remove_disc, set_playback_range,
}
use picdplayer.Player.Tracks.{front, Bounds, get_elem?-Bounds}
use picdplayer.Player.Invariant.{
  Inv, HasDisc, Keeps, with_disc-none, with_disc-some, deref-Keeps, empty, loaded, fitting-Inv,
}

module _ (c : PlayerController) (n : ℤ) (toc : DiscToc) (v : IsValid n toc) where
  t : Track
  t = (front toc n v).track

  b : Bounds toc.tracks toc.leadout_lba t
  unfolding t
  b = get_elem?-Bounds n toc.tracks toc.leadout_lba 0 v.4 (front toc n v).there

  fresh : PlayerController
  fresh =
      with_playback (record c { toc = some toc; begin = t.start_lba; end = toc.leadout_lba })
        PlaybackState.stopped

  fresh-HasDisc : HasDisc fresh toc
  unfolding fresh t
  fresh-HasDisc = record {
    first = n;
    valid = v;
    has = refl;
    low = rw (front toc n v).starts_at (omega arith);
    order = omega (int_laws, b.ends, b.nonempty);
    high = omega arith;
    inserted = λ e. cc;
  }

  fits : leb_ℤ (last_of fresh t) (first_of fresh t) ≡ false
  unfolding fresh
  fits =
      min-max_room t.start_lba t.start_lba (t.start_lba +ℤ t.length_frames) toc.leadout_lba
        (omega (int_laws, b.nonempty)) (omega (int_laws, b.nonempty, b.ends))
        (omega (int_laws, b.nonempty)) (omega (int_laws, b.nonempty, b.ends))

  install-Keeps : (tracks : List Track) → Keeps (install c tracks toc)
  unfolding install fresh t
  install-Keeps tracks = elim (Bool-cases (not (same_tracks tracks toc.tracks))) [
    | inl differ ↦ rw differ refl
    | inr same ↦ rw same (
        deref-Keeps _ (get_elem? toc.tracks 0) t (front toc n v).there
          (fitting-Inv fresh toc 0 t fresh-HasDisc (front toc n v).there fits))
  ]

load_tracks-Keeps :
    (c : PlayerController) (toc : DiscToc) (ts : List Track) → Keeps (load_tracks c toc ts)
unfolding load_tracks
load_tracks-Keeps c toc [] = refl
load_tracks-Keeps c toc (t ∷ ts) =
    made (make_audio_toc t.number (starts (t ∷ ts)) toc.leadout_lba)
      (make_audio_toc-TocBuilt t.number (starts (t ∷ ts)) toc.leadout_lba)
  where
    made :
        (m : Outcome DiscToc)
        → TocBuilt t.number (starts (t ∷ ts)) toc.leadout_lba m
        → Keeps (m >>= λ validated. install c (t ∷ ts) validated)
    made (returned v) b = install-Keeps c t.number v b.0 (t ∷ ts)
    made (thrown e) b = b
    made undefined b = b

pub load_disc-Keeps : (c : PlayerController) (toc : DiscToc) → Keeps (load_disc c toc)
unfolding load_disc
load_disc-Keeps c toc = load_tracks-Keeps c toc toc.tracks

pub remove_disc-Inv : (c : PlayerController) → Inv (remove_disc c)
unfolding remove_disc
remove_disc-Inv c = empty refl refl

pub set_playback_range-Keeps :
    (c : PlayerController) (b e : ℤ) → Inv c → Keeps (set_playback_range c b e)
unfolding set_playback_range
set_playback_range-Keeps c b e (empty n s) = with_disc-none _ _ c.toc n refl
set_playback_range-Keeps c b e (loaded toc h a) = with_disc-some _ _ c.toc toc h.has (
    deref-Keeps _ (get_elem? toc.tracks 0) t (front toc h.first h.valid).there
      (elim (Bool-cases (ltb_ℤ b t.start_lba || ltb_ℤ toc.leadout_lba e || ltb_ℤ e b)) [
        | inl outside ↦ rw outside refl
        | inr inside ↦ rw inside (
            loaded toc
              (record {
                first = h.first;
                valid = h.valid;
                has = h.has;
                low = rw (← (front toc h.first h.valid).starts_at) (ground arith);
                order = ground arith;
                high = ground arith;
                inserted = h.inserted;
              })
              (record {
                track = a.track;
                position = a.position;
                at_index = a.at_index;
                numbered = a.numbered;
                positioned = a.positioned;
                after = a.after;
                before = a.before;
              }))
      ]))
  where
    t : Track
    t = (front toc h.first h.valid).track
