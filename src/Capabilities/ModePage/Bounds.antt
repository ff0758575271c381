-- ===== src/Capabilities/ModePage/Bounds.antt =====
-- What read_mode_page gives, whatever the drive answers.
use picdplayer.Outcome.{Outcome, returned, thrown, undefined}
use picdplayer.Prelude.{
  ℕ, zero, suc, ◌+◌, ◌-◌, ◌*◌, ◌%◌, ◌≤◌, ◌<◌, ◌≡◌, refl, ◌∙◌, ap, sym, Bool, true, false, not, ◌||◌,
  ◌⊎◌, inl, inr, some, List, [], ◌∷◌, ℤ, pos, ◌==ℤ◌, if-both, ltb, ◌==◌, length, length-take, take,
  drop, replicate, get_elem?, get_elem?-below, arith,
}
use mathlib.Core.Path.{subst}
use picdplayer.Capabilities.{byte, be16, has_bit, response_bytes}
use picdplayer.Capabilities.ModePage.{
  ModePageResult, header_of, length_at, found, page_step, finish, scan_pages, parse_mode_page,
  read_mode_page, mode_sense,
}
use picdplayer.Verifier.{is_nil}

-- A page has the code, is no subpage, and is as long as its second byte says.
abbrev pub IsPage : ℕ → List ℕ → Type 0
IsPage requested [] = ⊥
IsPage requested (first ∷ []) = ⊥
IsPage requested (first ∷ n ∷ rest) =
    (first % 64 ≡ requested) × (has_bit first 64 ≡ false) × (length rest ≡ n)

-- A page and no error, or an error and no page; and no read behind the buffer.
abbrev pub PagePost : ℕ → Outcome ModePageResult → Type 0
PagePost requested (returned r) =
    ((r.error ≡ []) × IsPage requested r.page) ⊎ ((is_nil r.error ≡ false) × (r.page ≡ []))
PagePost requested (thrown e) = ⊥
PagePost requested undefined = ⊥

pub byte-below :
    (bytes : List ℕ) (i : ℕ)
    → i < length bytes
    → (b : ℕ) × (byte bytes i ≡ returned b) × (get_elem? bytes i ≡ some b)
byte-below bytes i h = let (b, e) = get_elem?-below bytes i h in (b, rw e refl, e)

pub be16-below :
    (bytes : List ℕ) (i : ℕ) → i + 1 < length bytes → (n : ℕ) × (be16 bytes i ≡ returned n)
be16-below bytes i h =
    let (high, e, _) = byte-below bytes i (omega (arith, h)) in
    let (low, f, _) = byte-below bytes (i + 1) h in (high * 256 + low, rw (e, f) refl)

page-at :
    (bytes : List ℕ) (offset first n : ℕ)
    → get_elem? bytes offset ≡ some first
    → get_elem? bytes (suc offset) ≡ some n
    → offset + suc (suc n) ≤ length bytes
    → (rest : List ℕ) × (take (suc (suc n)) (drop offset bytes) ≡ first ∷ n ∷ rest)
      × (length rest ≡ n)
page-at [] offset first n e f h = absurd (ground arith)
page-at (a ∷ []) zero first n e f h = absurd (ground arith)
page-at (a ∷ b ∷ rest) zero first n e f h =
    (take n rest, ground arith, length-take n rest ∙ omega (arith, h))
page-at (a ∷ bytes) (suc offset) first n e f h = page-at bytes offset first n e f (omega arith)

length_at-below :
    (bytes : List ℕ) (offset : ℕ) (subpage : Bool)
    → offset + header_of subpage ≤ length bytes
    → (n : ℕ) × (length_at bytes offset subpage ≡ returned n) × (header_of subpage ≤ n)
length_at-below bytes offset true h =
    let (n, e) = be16-below bytes (offset + 2) (omega (arith, h)) in (4 + n, rw e refl, omega arith)
length_at-below bytes offset false h =
    let (n, e, _) = byte-below bytes (offset + 1) (omega (arith, h)) in
    (2 + n, rw e refl, omega arith)

abbrev IsFound : ℕ → List ℕ → Type 0
IsFound requested page = (page ≡ []) ⊎ IsPage requested page

finish-PagePost :
    (requested : ℕ) (page : List ℕ) → IsFound requested page → PagePost requested (finish page)
finish-PagePost requested [] h = inr (refl, refl)
finish-PagePost requested (first ∷ []) h = absurd (elim h [ inl e ↦ cc | inr p ↦ p ])
finish-PagePost requested (first ∷ n ∷ rest) h = elim h [
  | inl e ↦ absurd (cc)
  | inr p ↦ inl (refl, p)
]

module _ (bytes : List ℕ) (total requested : ℕ) (whole : total ≤ length bytes) where
  Goes : (ℕ → List ℕ → Outcome ModePageResult) → ℕ → Type 0
  Goes continue offset =
      (next : ℕ) (page : List ℕ)
      → suc offset < next
      → next ≤ total
      → IsFound requested page
      → PagePost requested (continue next page)

  found-IsPage :
      (offset size first : ℕ)
      → get_elem? bytes offset ≡ some first
      → has_bit first 64 ≡ false
      → first % 64 ≡ requested
      → length_at bytes offset false ≡ returned size
      → offset + size ≤ length bytes
      → offset + 2 ≤ length bytes
      → IsPage requested (take size (drop offset bytes))
  found-IsPage offset size first e plain code sized inside header =
      let (n, f, g) = byte-below bytes (offset + 1) (omega (arith, header)) in
      let is_size : suc (suc n) ≡ size = ground (arith, f) in
      let (rest, shape, long) =
        page-at bytes offset first n e (ap (get_elem? bytes) (omega arith) ∙ g)
          (omega (arith, is_size, inside)) in
      subst (λ m. IsPage requested (take m (drop offset bytes))) is_size
        (subst (IsPage requested) (sym shape) (code, plain, long))

  found-PagePost :
      (offset : ℕ) (page : List ℕ) (size first : ℕ) (continue : ℕ → List ℕ → Outcome ModePageResult)
      → get_elem? bytes offset ≡ some first
      → length_at bytes offset (has_bit first 64) ≡ returned size
      → suc offset < offset + size
      → offset + 2 ≤ total
      → IsFound requested page
      → Goes continue offset
      → PagePost requested (found bytes total requested offset page first size continue)
  unfolding found Goes
  found-PagePost offset page size first continue e sized further header so_far next =
      if-both (PagePost requested) (ltb (total - offset) size) (λ _. inr (refl, refl))
        (λ fits.
          let inside : offset + size ≤ total = ground (arith, fits, header) in
          if-both (PagePost requested) (first % 64 == requested)
            (λ code.
              if-both (PagePost requested) (not (is_nil page) || has_bit first 64)
                (λ _. inr (refl, refl))
                (λ plain.
                  let no_subpage : has_bit first 64 ≡ false = ground (arith, plain) in
                  next (offset + size) (take size (drop offset bytes)) further inside (
                    inr (
                      found-IsPage offset size first e no_subpage (ground (arith, code))
                        (ap (length_at bytes offset) (sym no_subpage) ∙ sized)
                        (omega (arith, inside, whole)) (omega (arith, header, whole))))))
            (λ _. next (offset + size) page further inside so_far))

  page_step-PagePost :
      (offset : ℕ) (page : List ℕ) (continue : ℕ → List ℕ → Outcome ModePageResult)
      → offset < total
      → IsFound requested page
      → Goes continue offset
      → PagePost requested (page_step bytes total requested offset page continue)
  unfolding page_step
  page_step-PagePost offset page continue inside so_far next =
      if-both (PagePost requested) (ltb (total - offset) 2) (λ _. inr (refl, refl))
        (λ header.
          let (first, e, f) = byte-below bytes offset (omega (arith, inside, whole)) in
          rw f (
            if-both (PagePost requested) (ltb (total - offset) (header_of (has_bit first 64)))
              (λ _. inr (refl, refl))
              (λ fits.
                let (size, g, more) =
                  length_at-below bytes offset (has_bit first 64)
                    (ground (arith, fits, inside, whole)) in
                rw g (
                  found-PagePost offset page size first continue f g (ground (arith, more))
                    (ground (arith, header)) so_far next))))

  pub scan_pages-PagePost :
      (fuel offset : ℕ) (page : List ℕ)
      → total < offset + fuel
      → offset ≤ total
      → IsFound requested page
      → PagePost requested (scan_pages fuel bytes total requested offset page)
  unfolding scan_pages Goes
  scan_pages-PagePost zero offset page enough inside so_far = absurd (omega (arith, enough, inside))
  scan_pages-PagePost (suc fuel) offset page enough inside so_far =
      if-both (PagePost requested) (ltb offset total)
        (λ below.
          page_step-PagePost offset page (scan_pages fuel bytes total requested)
            (ground (arith, below)) so_far
            (λ next page' further kept good.
              scan_pages-PagePost fuel next page' (omega (arith, further, enough)) kept good))
        (λ _. finish-PagePost requested page so_far)

parse_mode_page-PagePost :
    (requested : ℕ) (bytes : List ℕ) (transferred : ℕ)
    → PagePost requested (parse_mode_page requested bytes transferred)
unfolding parse_mode_page
parse_mode_page-PagePost requested bytes transferred =
    if-both (PagePost requested) (ltb transferred 8 || ltb (length bytes) transferred)
      (λ _. inr (refl, refl))
      (λ sized.
        let (n, e) = be16-below bytes 0 (ground (arith, sized)) in
        rw e (
          if-both (PagePost requested) (ltb (n + 2) 8 || ltb transferred (n + 2))
            (λ _. inr (refl, refl))
            (λ whole.
              let (descriptors, f) = be16-below bytes 6 (ground (arith, sized)) in
              rw f (
                if-both (PagePost requested) (ltb (n + 2 - 8) descriptors) (λ _. inr (refl, refl))
                  (λ fits.
                    scan_pages-PagePost bytes (n + 2) requested (ground (arith, sized, whole))
                      (n + 3) (8 + descriptors) [] (omega arith) (ground (arith, whole, fits))
                      (inl refl))))))

-- Whatever the drive answers to MODE SENSE, in any buffer and with any count of bytes, the search
-- ends with no read behind the buffer: with an error and no page, or with no error and a page that
-- has the requested code, is no subpage and is as long as its header says; if strerror gives no
-- empty text.
pub read_mode_page-PagePost :
    (strerror : ℤ → List ℕ) (transport : List ℕ → List ℕ → ℤ × List ℕ × ℕ) (requested : ℕ)
    → ((e : ℤ) → is_nil (strerror e) ≡ false)
    → PagePost requested (read_mode_page strerror transport requested)
unfolding read_mode_page
read_mode_page-PagePost strerror transport requested says =
    let answer : ℤ × List ℕ × ℕ = transport (mode_sense requested) (replicate response_bytes 0) in
    if-both (PagePost requested) (not (answer.0 ==ℤ pos 0)) (λ _. inr (says answer.0, refl))
      (λ _. parse_mode_page-PagePost requested answer.1 answer.2)
