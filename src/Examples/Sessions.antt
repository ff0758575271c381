-- ===== src/Examples/Sessions.antt =====
-- A request for metadata, an assessment of two sectors, and requests for the diagnostics.
use picdplayer.Outcome.{Outcome, returned}
use picdplayer.Prelude.{
  ℕ, ◌≡◌, refl, Bool, true, false, Option, none, some, List, [], ◌∷◌, ◌⊎◌, pos, replicate, arith,
}
use picdplayer.Reader.{C2Status}
use picdplayer.Toc.{DiscToc}
use picdplayer.Metadata.{
  MetadataSession, MetadataWorkerResult, MetadataStatus, no_metadata, begin, apply,
}
use picdplayer.Metadata.Stale
use picdplayer.Assessment
use picdplayer.Assessment.{
  C2Reference, C2ReferenceAssessment, C2SectorSample, Knowledge, zero_counts,
}
use picdplayer.Assessment.Verdict
use picdplayer.Publisher
use picdplayer.Publisher.{
  DiagnosticContext, DiagnosticPublication, DiagnosticCapture, ReadDiagnostics,
}
use picdplayer.Publisher.Context
use picdplayer.Publisher.Request

abbrev short_disc : DiscToc
short_disc = record {
  tracks = record { number = pos 1; start_lba = pos 0; length_frames = pos 150 } ∷ [];
  leadout_lba = pos 150;
}

abbrev new_session : MetadataSession
new_session = record {
  generation = 0;
  toc = none;
  snapshot = no_metadata MetadataStatus.not_requested;
}

abbrev late_answer : MetadataWorkerResult
late_answer = record {
  generation = 1;
  toc = short_disc;
  metadata = no_metadata MetadataStatus.not_found;
}

-- The same disc is seen again, and then the tray is opened before the answer comes.
abbrev removal : List Stale.Event
removal = Stale.begins_if_needed short_disc ∷ Stale.invalidates ∷ []

apply-AllKeep_example :
    (((apply (Stale.run (begin new_session short_disc).0 removal) late_answer).1 ≡ true)
      × Stale.AllKeep (begin new_session short_disc).0 removal
      × (short_disc ≡ short_disc)
      × ((apply (Stale.run (begin new_session short_disc).0 removal) late_answer).0.snapshot
          ≡ late_answer.metadata))
    ⊎ (apply (Stale.run (begin new_session short_disc).0 removal) late_answer
        ≡ (Stale.run (begin new_session short_disc).0 removal, false))
unfolding begin
apply-AllKeep_example =
    Stale.apply-AllKeep new_session short_disc removal late_answer refl (omega arith)

-- The digest of 64 zeros, and one of 64 ones.
abbrev zeros : List ℕ
zeros = replicate 64 48

abbrev ones : List ℕ
ones = replicate 64 49

abbrev reference : C2Reference
reference = record {
  id = 97 ∷ [];
  provenance = 97 ∷ [];
  independent = true;
  alignment_verified = true;
  offset_samples = some (pos 0);
  sectors = record { lba = pos 10; sha256 = zeros } ∷ record { lba = pos 11; sha256 = zeros } ∷ [];
  expected_toc = none;
}

abbrev clean_sample : C2SectorSample
clean_sample = record { lba = pos 10; complete = true; c2 = C2Status.clean; sha256 = zeros }

abbrev flagged_sample : C2SectorSample
flagged_sample = record { lba = pos 10; complete = true; c2 = C2Status.reported; sha256 = ones }

abbrev next_sample : C2SectorSample
next_sample = record { lba = pos 11; complete = true; c2 = C2Status.clean; sha256 = zeros }

abbrev new_assessment : C2ReferenceAssessment
new_assessment = record { reference = reference; attempts = 0 ∷ 0 ∷ []; counts = zero_counts }

abbrev samples : List C2SectorSample
samples =
    clean_sample ∷ next_sample ∷ flagged_sample ∷ clean_sample ∷ clean_sample ∷ next_sample
    ∷ next_sample ∷ []

run-IsTrusted_example :
    (b : C2ReferenceAssessment) × (taken : List C2SectorSample) × (Verdict.run new_assessment []
        samples
      ≡ some (b, taken))
    × (Assessment.verdict b ≡ Knowledge.yes → Verdict.IsTrusted reference taken)
unfolding Assessment.new_assessment Assessment.is_refused Assessment.id_valid
    Assessment.sectors_valid Assessment.digest_valid
run-IsTrusted_example = Verdict.run-IsTrusted reference new_assessment samples refl

abbrev no_reads : Bool → Outcome (ReadDiagnostics (Unit {0}))
no_reads detail =
    returned (record { disc_map = none; recent_reads = []; stream_generation = 4; rest = tt })

abbrev one_byte : DiagnosticCapture (Unit {0}) → Option DiagnosticPublication
one_byte c = some (record { map = 77 ∷ []; history = [] })

abbrev stream_four : DiagnosticContext
stream_four = record { stream_generation = 4; disc_generation = 0 }

abbrev turns : List (Context.Event (Unit {0}) one_byte)
turns = Context.requests stream_four false no_reads 10 0 ∷ Context.takes ∷ Context.finishes ∷ []

run-Answered_example :
    Request.Answered
      (Unit {0})
      one_byte
      stream_four
      false
      (Publisher.request
        (Unit {0})
        (Context.run (Unit {0}) one_byte (Context.start (Unit {0}) one_byte 2000) turns).publisher
        stream_four
        false
        no_reads
        3000
        0).0
run-Answered_example =
    Context.run-Answered (Unit {0}) one_byte 2000 turns stream_four false no_reads 3000 0
