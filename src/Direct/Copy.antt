-- ===== src/Direct/Copy.antt =====
-- A buffer of which a first part has been overwritten.
use picdplayer.Prelude.{ℕ, ◌+◌, ◌≡◌, ap, sym, ◌∙◌, List, ◌++◌, ℤ, length, drop, arith}
use picdplayer.Prelude.Slice.{
  slice, length-slice, slice-append, take-append, drop-append, drop-drop, append_assoc,
}
use picdplayer.Direct.{copy_to, Transports}

-- The buffer after `n` entries of the stream have been read to its start.
abbrev pub filled : (ℕ → ℤ) → ℕ → ℕ → List ℤ → List ℤ
filled disc i n pcm = slice disc i n ++ drop n pcm

pub copy_to-filled :
    (T : Transports) (disc : ℕ → ℤ) (i n j m k : ℕ) (pcm : List ℤ)
    → j ≡ i + n
    → k ≡ n + m
    → copy_to T (filled disc i n pcm) n (slice disc j m) ≡ filled disc i k pcm
unfolding copy_to
copy_to-filled T disc i n j m k pcm e f =
    let size = length-slice disc i n in
    let block = length-slice disc j m in
    rw (take-append (slice disc i n) (drop n pcm) n (sym size)) (
      rw
        (drop-append (slice disc i n) (drop n pcm) (n + length (slice disc j m)) m
          (omega (arith, size, block)))
        (rw (drop-drop n m k pcm f) (
          sym (append_assoc (slice disc i n) (slice disc j m) (drop k pcm))
          ∙ ap (λ t. t ++ drop k pcm) (slice-append disc i n j m k e f))))
