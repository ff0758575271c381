-- ===== src/Evidence/Status.antt =====
-- What the status of a read claims.
use picdplayer.Prelude.{◌<◌, ◌≡◌, ◌⊎◌, arith}
use picdplayer.Reader.{ReadResult, ReadStatus}
use picdplayer.Evidence.{IntegrityReadStatus, make_read_evidence}

-- A read counts as clean only if all its frames came back with no retry, fix-up, skip, read error
-- or cache error reported and, if it was verified by repetition, with no mismatch.
pub make_read_evidence-clean :
    (r : ReadResult)
    → (make_read_evidence r).status ≡ IntegrityReadStatus.clean
    → (r.status ≡ ReadStatus.ok)
      × (r.frames_read ≡ r.frames_requested)
      × (r.retries ≡ 0)
      × (r.paranoia.fixups ≡ 0)
      × (r.paranoia.skips ≡ 0)
      × (r.paranoia.read_errors ≡ 0)
      × (r.paranoia.cache_errors ≡ 0)
      × ((r.verification.matching_reads < 2) ⊎ (r.verification.mismatches ≡ 0))
unfolding make_read_evidence
make_read_evidence-clean r h = ground arith
