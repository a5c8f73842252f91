-- ===== src/Sync/Queueing.antt =====
-- What a batch queues: the accounts of the documents, and the rows of the new jobs.
use mathlib.Core.List.Perm
use ops_incident_core.Prelude.{
  ℕ, ◌+◌, ◌≡◌, Bool, true, false, ◌||◌, some, List, [], ◌++◌, map, Perm, any, All, length, Pairwise,
}
use ops_incident_core.Prelude.Text.{Text, text_eq}
use ops_incident_core.Settings.{Settings}
use ops_incident_core.Db.{IndexJob, IndexStatus}
use ops_incident_core.Ingestion.Documents.{
  NormalizedDocument, DocumentBatchError, valid, validate_normalized_document,
}
use ops_incident_core.Sync.Diagnostics.{BatchIngestResult}

-- The later document has another identifier.
abbrev pub Differs : NormalizedDocument → NormalizedDocument → Type 0
Differs first later = text_eq later.external_id first.external_id ≡ false

abbrev pub has_id : Text → List NormalizedDocument → Bool
has_id id documents = any (λ (v : NormalizedDocument). text_eq id v.external_id) documents

-- A document that is turned down is invalid, or has an identifier that is taken.
abbrev pub IsTaken : Settings → List Text → List NormalizedDocument → NormalizedDocument → Type 0
IsTaken settings seen queued document =
    (v : NormalizedDocument)
    → validate_normalized_document settings false document ≡ valid v
    → (any (text_eq v.external_id) seen || has_id v.external_id queued) ≡ true

-- The screening of the documents of a batch: which are accepted and which are turned down.
record Screening (settings : Settings) (seen : List Text)
    (documents queued : List NormalizedDocument) (errors : List DocumentBatchError) : Type 0 where
  accepted_ones : List NormalizedDocument
  turned_down : List NormalizedDocument
  partition : Perm (accepted_ones ++ turned_down) documents
  validations : map (validate_normalized_document settings false) accepted_ones ≡ map valid queued
  taken : All (IsTaken settings seen queued) turned_down
  count : length queued + length errors ≡ length documents
  unseen : All (λ v. any (text_eq v.external_id) seen ≡ false) queued
  distinct : Pairwise Differs queued

-- A new job waits for its first attempt at the current version of the index.
abbrev pub IsQueued : Settings → ℕ → ℕ → IndexJob → Type 0
IsQueued settings source_id sync_id job =
    (job.status ≡ IndexStatus.pending)
    × (job.attempts ≡ 0)
    × (job.source_id ≡ source_id)
    × (job.sync_id ≡ some sync_id)
    × (job.index_version ≡ settings.vector_index_version)

-- The account of a batch: its result, and the new jobs with their documents.
abbrev pub IsAccounted :
    Settings → ℕ → ℕ → List NormalizedDocument → BatchIngestResult × List IndexJob → Type 0
IsAccounted settings source_id sync_id documents (result, jobs) =
    let queued = map IndexJob.normalized_payload jobs in
    (result.received ≡ length documents)
    × (length jobs + length result.errors ≡ length documents)
    × (result.skipped_invalid ≡ length result.errors)
    × All (IsQueued settings source_id sync_id) jobs
    × Pairwise Differs queued
    × ((accepted_ones : List NormalizedDocument) × (turned_down : List NormalizedDocument) × Perm
          (accepted_ones ++ turned_down) documents
        × (map (validate_normalized_document settings false) accepted_ones ≡ map valid queued)
        × All (IsTaken settings [] queued) turned_down)
