-- ===== src/Worker/History.antt =====
-- include/pcm_worker.hpp and src/pcm_worker.cpp: the array history_ of the last reads, as a ring.
-- `slots` is the array, of which the entries below the capacity are used.
pub mod Window
use picdplayer.Prelude.{
  ℕ, zero, suc, ◌+◌, ◌-◌, ◌%◌, ◌^◌, ◌≤◌, ◌<◌, ◌≡◌, refl, List, [], ◌∷◌, ◌++◌, if◌then◌else◌, ltb,
  ◌==◌, length, drop, arith,
}
use picdplayer.Reader.{add64}

abbrev pub read_history_capacity : ℕ
read_history_capacity = 128

pub record Ring {ℓ} (A : Type ℓ) : Type ℓ where
  pub slots : ℕ → A
  pub begin : ℕ
  pub size : ℕ
  pub evicted : ℕ

module _ {ℓ} {A : Type ℓ} where
  abbrev pub put_slot : (ℕ → A) → ℕ → A → ℕ → A
  put_slot slots i a j = if j == i then a else slots j

  abbrev pub cleared : Ring A → Ring A
  cleared r = record r { begin = 0; size = 0; evicted = 0 }

  -- The oldest entry leaves a full ring.
  abbrev pub make_room : Ring A → Ring A
  make_room r =
      if r.size == read_history_capacity
      then record r {
        begin = (r.begin + 1) % read_history_capacity;
        size = r.size - 1;
        evicted = add64 r.evicted 1;
      }
      else r

  abbrev pub put_back : Ring A → A → Ring A
  put_back r a = record r {
    slots = put_slot r.slots ((r.begin + r.size) % read_history_capacity) a;
    size = r.size + 1;
  }

  unfoldable pub remember : Ring A → A → Ring A
  remember r a = put_back (make_room r) a

  -- The loop of status over the entries from the oldest on.
  unfoldable pub entries : (ℕ → A) → ℕ → ℕ → List A
  entries slots i zero = []
  entries slots i (suc n) = slots (i % read_history_capacity) ∷ entries slots (suc i) n

  unfoldable pub recent_reads : Ring A → List A
  unfolding entries
  recent_reads r = entries r.slots r.begin r.size
