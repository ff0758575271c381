-- ===== src/DiscMap.antt =====
-- DiscReadMap of include/integrity_state.hpp and src/integrity_state.cpp: the observations of one
-- disc generation, as intervals that carry a set of flags, in a fixed memory of 256 regions.
-- `regions` is the used prefix of the source's array, so `size` is its length.
pub mod Merge
pub mod Invariant
pub mod History
use Prim.Native.Nat.{bit_or}
use picdplayer.Prelude.{
  ℕ, zero, suc, ◌+◌, ◌-◌, ◌*◌, ◌^◌, Bool, true, false, not, ◌&&◌, ◌||◌, Option, none, some, List,
  [], ◌∷◌, ◌++◌, ℤ, pos, negsuc, ltb, leb, ◌==◌, if◌then◌else◌, length, min, max,
}
use picdplayer.Reader.{ReadResult, is_ok, int32_max}
use picdplayer.Evidence.{
  IntegrityReadStatus, evidence_status, make_read_evidence, is_complete, nonzero,
}

pub record Region : Type 0 where
  pub begin : ℕ
  pub end : ℕ
  pub flags : ℕ

pub record DiscReadMap : Type 0 where
  pub regions : List Region
  pub disc_generation : ℕ
  pub revision : ℕ
  pub complete : Bool

abbrev pub capacity : ℕ
capacity = 256

-- `if (b) flags |= flag;`
abbrev pub set_flag : Bool → ℕ → ℕ → ℕ
set_flag true flag flags = bit_or flags flag
set_flag false flag flags = flags

abbrev pub is_recovered : IntegrityReadStatus → Bool
is_recovered IntegrityReadStatus.recovered = true
is_recovered _ = false

abbrev pub is_uncertain : IntegrityReadStatus → Bool
is_uncertain IntegrityReadStatus.uncertain = true
is_uncertain _ = false

-- attempted 1, accepted 2, retry 4, repeated 8, recovered 16, uncertain 32, backend_anomaly 64.
pub flags_from : Bool → Bool → Bool → IntegrityReadStatus → Bool → ℕ
flags_from accepted retried repeated status backend = set_flag backend 64 (
    set_flag (is_uncertain status) 32 (
      set_flag (is_recovered status) 16
        (set_flag repeated 8 (set_flag retried 4 (set_flag accepted 2 1)))))

pub flags_of : ReadResult → ℕ
unfolding flags_from make_read_evidence
flags_of r =
    flags_from (is_complete r) (nonzero r.retries) (ltb 1 r.verification.attempts)
      (make_read_evidence r).status
      (nonzero r.paranoia.fixups
        || nonzero r.paranoia.skips
        || nonzero r.paranoia.read_errors
        || nonzero r.paranoia.cache_errors)

-- The condition of the merging loop.
abbrev pub touches : Region → Region → Bool
touches m r = (r.flags == m.flags) && leb r.begin m.end && leb m.begin r.end

abbrev pub union : Region → Region → Region
union m r = record { begin = min m.begin r.begin; end = max m.end r.end; flags = m.flags }

abbrev pub put_second : Region → List Region → List Region
put_second x [] = x ∷ []
put_second x (last ∷ others) = last ∷ x ∷ others

-- `regions[i] = regions[--size]` on the part of the array behind index i: the last one comes first.
pub fill : List Region → List Region
fill [] = []
fill (x ∷ xs) = put_second x (fill xs)

abbrev pub behind : Region → Option (Region × List Region) → Option (Region × List Region)
behind r none = none
behind r (some (q, rest)) = some (q, r ∷ rest)

-- The first region that touches `m`, and the array without it.
pub pick : Region → List Region → Option (Region × List Region)
unfolding fill
pick m [] = none
pick m (r ∷ rs) =
    let later = behind r (pick m rs) in if touches m r then some (r, fill rs) else later

-- The merging loop: after each merge it starts again at index 0. A merge takes a region away, so
-- the number of regions is fuel enough.
pub merge_loop : ℕ → Region → List Region → Region × List Region
unfolding pick
merge_loop zero m rs = (m, rs)
merge_loop (suc fuel) m rs = elim (pick m rs) [
  | none ↦ (m, rs)
  | some (r, rest) ↦ merge_loop fuel (union m r) rest
]

pub place : DiscReadMap → Region → DiscReadMap
unfolding merge_loop
place d m =
    let (merged, rest) = merge_loop (length d.regions) m d.regions in
    if length rest == capacity
    then record d { regions = rest; complete = false }
    else record d { regions = rest ++ (merged ∷ []) }

abbrev pub revision_max : ℕ
revision_max = 2 ^ 64 - 1

-- The range check on the start, an int32_t.
pub observe_at : DiscReadMap → ℤ → ReadResult → DiscReadMap
unfolding place flags_of
observe_at d (negsuc _) r = record d { complete = false }
observe_at d (pos start) r =
    if (r.frames_requested == 0)
      || ltb r.frames_requested r.frames_read
      || ltb (int32_max - start) r.frames_requested
    then record d { complete = false }
    else place d (record { begin = start; end = start + r.frames_requested; flags = flags_of r })

pub observe : DiscReadMap → ReadResult → DiscReadMap
unfolding observe_at
observe d r =
    if (d.disc_generation == 0) || not d.complete
    then d
    else if d.revision == revision_max
    then record d { complete = false }
    else observe_at (record d { revision = d.revision + 1 }) r.start_lba r
