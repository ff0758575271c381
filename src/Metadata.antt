-- ===== src/Metadata.antt =====
-- include/metadata_model.hpp, include/metadata_session.hpp and src/metadata_session.cpp: the session
-- that owns what is known of the current disc's titles, against answers that come late.
-- A string is its list of bytes. The worker that answers a request is not part of the session.
pub mod Stale
use picdplayer.Prelude.{
  ℕ, ◌+◌, Bool, true, false, not, ◌&&◌, ◌||◌, Option, none, some, List, [], ◌∷◌, ℤ, ◌==ℤ◌, ltb,
  ◌==◌, if◌then◌else◌, length, get_elem?,
}
use picdplayer.Reader.{add64}
use picdplayer.Toc.{Track, DiscToc}
use picdplayer.Device.{same_bytes}

pub data MetadataStatus : Type 0 where
  not_requested loading available not_found ambiguous error : MetadataStatus

pub data ArtworkStatus : Type 0 where
  not_requested available unavailable error : ArtworkStatus

pub data ArtistIdentityStatus : Type 0 where
  unavailable available ambiguous : ArtistIdentityStatus

pub record ArtistIdentity : Type 0 where
  pub status : ArtistIdentityStatus
  pub mbid : List ℕ

pub record TrackMetadata : Type 0 where
  pub track_number : ℤ
  pub title : List ℕ
  pub artist : List ℕ
  pub recording_id : List ℕ
  pub source_length_ms : Option ℤ

pub record DiscMetadata : Type 0 where
  pub release_id : List ℕ
  pub release_group_id : List ℕ
  pub album_title : List ℕ
  pub album_artist : List ℕ
  pub artist_identity : ArtistIdentity
  pub country : List ℕ
  pub date : List ℕ
  pub medium_position : ℤ
  pub medium_title : List ℕ
  pub tracks : List TrackMetadata

pub record ReleaseCandidate : Type 0 where
  pub metadata : DiscMetadata

pub record ArtworkInfo : Type 0 where
  pub status : ArtworkStatus
  pub image_url : List ℕ
  pub mime_type : List ℕ
  pub error : List ℕ

pub record MetadataResult : Type 0 where
  pub status : MetadataStatus
  pub disc_id : List ℕ
  pub toc : List ℕ
  pub candidates : List ReleaseCandidate
  pub selected : Option ℕ
  pub candidates_declined : Bool
  pub artwork : ArtworkInfo
  pub error : List ℕ
  pub from_cache : Bool

abbrev pub no_artwork : ArtworkInfo
no_artwork = record {
  status = ArtworkStatus.not_requested;
  image_url = [];
  mime_type = [];
  error = [];
}

abbrev pub no_metadata : MetadataStatus → MetadataResult
no_metadata status = record {
  status = status;
  disc_id = [];
  toc = [];
  candidates = [];
  selected = none;
  candidates_declined = false;
  artwork = no_artwork;
  error = [];
  from_cache = false;
}

abbrev pub no_identity : ArtistIdentity
no_identity = record { status = ArtistIdentityStatus.unavailable; mbid = [] }

abbrev pub is_available : MetadataStatus → Bool
is_available MetadataStatus.available = true
is_available _ = false

abbrev pub is_ambiguous : MetadataStatus → Bool
is_ambiguous MetadataStatus.ambiguous = true
is_ambiguous _ = false

-- candidates[*selected], where it is in range.
unfoldable pub selected_candidate : MetadataResult → Option ReleaseCandidate
selected_candidate r = elim r.selected [ none ↦ none | some i ↦ get_elem? r.candidates i ]

unfoldable pub selected_artist_identity : MetadataResult → ArtistIdentity
unfolding selected_candidate
selected_artist_identity r =
    if is_available r.status
    then elim (selected_candidate r) [ none ↦ no_identity | some c ↦ c.metadata.artist_identity ]
    else no_identity

unfoldable pub same_entries : List Track → List Track → Bool
same_entries [] [] = true
same_entries [] (_ ∷ _) = false
same_entries (_ ∷ _) [] = false
same_entries (a ∷ rest) (b ∷ others) =
    (a.number ==ℤ b.number)
    && (a.start_lba ==ℤ b.start_lba)
    && (a.length_frames ==ℤ b.length_frames)
    && same_entries rest others

unfoldable pub same_toc : DiscToc → DiscToc → Bool
unfolding same_entries
same_toc l r = (l.leadout_lba ==ℤ r.leadout_lba) && same_entries l.tracks r.tracks

pub record MetadataSession : Type 0 where
  pub generation : ℕ
  pub toc : Option DiscToc
  pub snapshot : MetadataResult

pub record MetadataRequest : Type 0 where
  pub generation : ℕ
  pub toc : DiscToc

pub record MetadataWorkerResult : Type 0 where
  pub generation : ℕ
  pub toc : DiscToc
  pub metadata : MetadataResult

unfoldable pub begin : MetadataSession → DiscToc → MetadataSession × MetadataRequest
begin s toc = (
  record {
    generation = add64 s.generation 1;
    toc = some toc;
    snapshot = no_metadata MetadataStatus.loading;
  },
  record { generation = add64 s.generation 1; toc = toc },
)

unfoldable pub invalidate : MetadataSession → MetadataSession
invalidate s = record {
  generation = add64 s.generation 1;
  toc = none;
  snapshot = no_metadata MetadataStatus.not_requested;
}

-- `toc_ && same_toc(*toc_, toc)`
unfoldable pub holds : Option DiscToc → DiscToc → Bool
unfolding same_toc
holds none toc = false
holds (some old) toc = same_toc old toc

unfoldable pub begin_if_needed :
    MetadataSession → DiscToc → MetadataSession × Option MetadataRequest
unfolding holds begin
begin_if_needed s toc =
    if holds s.toc toc then (s, none) else ((begin s toc).0, some (begin s toc).1)

-- `!toc_ || !same_toc(result.toc, *toc_)`
unfoldable pub is_other : DiscToc → Option DiscToc → Bool
unfolding same_toc
is_other toc none = true
is_other toc (some old) = not (same_toc toc old)

unfoldable pub apply : MetadataSession → MetadataWorkerResult → MetadataSession × Bool
unfolding is_other
apply s r =
    if not (r.generation == s.generation) || is_other r.toc s.toc
    then (s, false)
    else (record s { snapshot = r.metadata }, true)

abbrev pub has_toc : MetadataSession → Bool
has_toc s = elim s.toc [ none ↦ false | some _ ↦ true ]

-- The candidates can be chosen from, under this generation.
abbrev pub is_choice : MetadataSession → ℕ → Bool
is_choice s generation =
    (generation == s.generation)
    && has_toc s
    && not (ltb (length s.snapshot.candidates) 2)
    && (is_ambiguous s.snapshot.status || is_available s.snapshot.status)

unfoldable pub select_candidate : MetadataSession → ℕ → ℕ → MetadataSession × Bool
select_candidate s generation index =
    if is_choice s generation && ltb index (length s.snapshot.candidates)
    then (
      record s {
        snapshot = record s.snapshot {
          selected = some index;
          candidates_declined = false;
          status = MetadataStatus.available;
          artwork = no_artwork;
        };
      },
      true,
    )
    else (s, false)

unfoldable pub decline_candidates : MetadataSession → ℕ → MetadataSession × Bool
decline_candidates s generation =
    if is_choice s generation
    then (
      record s {
        snapshot = record s.snapshot {
          selected = none;
          candidates_declined = true;
          status = MetadataStatus.ambiguous;
          artwork = no_artwork;
        };
      },
      true,
    )
    else (s, false)

-- The selected candidate has this release id.
unfoldable pub is_selected : MetadataResult → List ℕ → Bool
unfolding selected_candidate
is_selected r release_id = elim (selected_candidate r) [
  | none ↦ false
  | some c ↦ same_bytes c.metadata.release_id release_id
]

unfoldable pub apply_artwork : MetadataSession → ℕ → List ℕ → ArtworkInfo → MetadataSession × Bool
unfolding is_selected
apply_artwork s generation release_id artwork =
    if (generation == s.generation) && has_toc s && is_selected s.snapshot release_id
    then (record s { snapshot = record s.snapshot { artwork = artwork } }, true)
    else (s, false)
