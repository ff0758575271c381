-- ===== src/Capabilities/ModePage.antt =====
-- src/drive_capabilities.cpp, read_mode_page: the search for a page in the response of MODE SENSE.
pub mod Bounds
use picdplayer.Outcome.{Outcome, returned, undefined, ◌>>=◌}
use picdplayer.Prelude.{
  ℕ, zero, suc, ◌+◌, ◌-◌, ◌*◌, ◌/◌, ◌%◌, Bool, true, false, not, ◌&&◌, ◌||◌, List, [], ◌∷◌, ◌++◌, ℤ,
  pos, ◌==ℤ◌, if◌then◌else◌, ltb, ◌==◌, length, take, drop, replicate, codes,
}
use picdplayer.Capabilities.{byte, be16, has_bit, response_bytes}
use picdplayer.Verifier.{is_nil}

pub record ModePageResult : Type 0 where
  pub page : List ℕ
  pub error : List ℕ

abbrev pub unavailable : List ℕ → Outcome ModePageResult
unavailable reason = returned (record { page = []; error = reason })

abbrev pub header_of : Bool → ℕ
header_of subpage = if subpage then 4 else 2

-- The length of the page or subpage at an offset, its header included.
abbrev pub length_at : List ℕ → ℕ → Bool → Outcome ℕ
length_at bytes offset true = be16 bytes (offset + 2) >>= λ n. returned (4 + n)
length_at bytes offset false = byte bytes (offset + 1) >>= λ n. returned (2 + n)

-- The rest of the loop's body, behind the header of a page.
unfoldable pub found :
    List ℕ
    → ℕ
    → ℕ
    → ℕ
    → List ℕ
    → ℕ
    → ℕ
    → (ℕ → List ℕ → Outcome ModePageResult)
    → Outcome ModePageResult
found bytes total requested offset page first size continue =
    if ltb (total - offset) size
    then unavailable (codes "page payload is truncated")
    else if first % 64 == requested
    then (if not (is_nil page) || has_bit first 64
        then unavailable (codes "ambiguous requested page layout")
        else continue (offset + size) (take size (drop offset bytes)))
    else continue (offset + size) page

-- The body of the loop; `continue` is the next round.
unfoldable pub page_step :
    List ℕ → ℕ → ℕ → ℕ → List ℕ → (ℕ → List ℕ → Outcome ModePageResult) → Outcome ModePageResult
unfolding found
page_step bytes total requested offset page continue =
    if ltb (total - offset) 2
    then unavailable (codes "page header is truncated")
    else byte bytes offset >>= λ first.
        if ltb (total - offset) (header_of (has_bit first 64))
        then unavailable (codes "subpage header is truncated")
        else length_at bytes offset (has_bit first 64) >>= λ size.
            found bytes total requested offset page first size continue

abbrev pub finish : List ℕ → Outcome ModePageResult
finish page =
    if is_nil page
    then unavailable (codes "requested page not returned")
    else returned (record { page = page; error = [] })

-- The loop. Each round goes on by two bytes or more, so that the fuel is not used up.
unfoldable pub scan_pages : ℕ → List ℕ → ℕ → ℕ → ℕ → List ℕ → Outcome ModePageResult
unfolding page_step
scan_pages zero bytes total requested offset page = undefined
scan_pages (suc fuel) bytes total requested offset page =
    let rest =
      page_step bytes total requested offset page (scan_pages fuel bytes total requested) in
    if ltb offset total then rest else finish page

-- What follows a transfer without error.
unfoldable pub parse_mode_page : ℕ → List ℕ → ℕ → Outcome ModePageResult
unfolding scan_pages
parse_mode_page requested bytes transferred =
    if ltb transferred 8 || ltb (length bytes) transferred
    then unavailable (codes "transfer length invalid")
    else be16 bytes 0 >>= λ n.
        if ltb (n + 2) 8 || ltb transferred (n + 2)
        then unavailable (codes "response header is truncated")
        else be16 bytes 6 >>= λ descriptors.
            if ltb (n + 2 - 8) descriptors
            then unavailable (codes "block descriptors are truncated")
            else scan_pages (n + 3) bytes (n + 2) requested (8 + descriptors) []

abbrev pub mode_sense : ℕ → List ℕ
mode_sense requested = 90 ∷ 8 ∷ requested ∷ 0 ∷ 0 ∷ 0 ∷ 0 ∷ 2 ∷ 0 ∷ 0 ∷ []

-- `strerror` gives the text of an errno.
unfoldable pub read_mode_page :
    (ℤ → List ℕ) → (List ℕ → List ℕ → ℤ × List ℕ × ℕ) → ℕ → Outcome ModePageResult
unfolding parse_mode_page
read_mode_page strerror transport requested =
    let answer = transport (mode_sense requested) (replicate response_bytes 0) in
    if not (answer.0 ==ℤ pos 0)
    then unavailable (strerror answer.0)
    else parse_mode_page requested answer.1 answer.2
