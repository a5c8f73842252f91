-- ===== src/Readiness/Score.antt =====
-- `_score` and `_grade`. A score is a signed number until the last line clamps it.
pub mod Bounds
use ops_incident_core.Prelude.{
  ℕ, ◌+◌, ◌*◌, Bool, true, false, not, ◌&&◌, ◌||◌, Option, none, some, List, [], ◌∷◌, ◌++◌, min,
  max, if◌then◌else◌, leb, ◌==◌, when,
}
use ops_incident_core.Prelude.Int.{ℤ, pos, pos_part, ◌-ℤ◌, min_ℤ, max_ℤ}
use ops_incident_core.Db.{SyncStatus}

-- The dictionary that `_coverage` makes.
pub record Coverage : Type 0 where
  pub has_code : Bool
  pub has_docs : Bool
  pub has_logs : Bool
  pub has_deploys : Bool
  pub has_runbooks : Bool
  pub has_incidents : Bool
  pub has_api_docs : Bool
  pub has_configs : Bool

-- The fields of `LatestSyncSnapshot` that the report reads.
pub record LatestSync : Type 0 where
  pub status : SyncStatus
  pub parser_errors : ℕ

-- The fields of `ReadinessSnapshot` that the score and the lists read.
pub record Snapshot : Type 0 where
  pub source_count : ℕ
  pub document_count : ℕ
  pub chunk_count : ℕ
  pub successful_syncs : ℕ
  pub latest_sync : Option LatestSync

-- The notes that go with a score.
pub data Note : Type 0 where
  no_documents no_successful_sync latest_sync_failed no_chunks only_code_and_docs : Note
  sync_parser_errors : ℕ → Note

-- `FAILED_STATUSES`
abbrev pub is_failed : SyncStatus → Bool
is_failed SyncStatus.failed = true
is_failed SyncStatus.cancelled = true
is_failed _ = false

abbrev pub latest_failed : Option LatestSync → Bool
latest_failed none = false
latest_failed (some latest) = is_failed latest.status

abbrev pub latest_parser_errors : Option LatestSync → ℕ
latest_parser_errors none = 0
latest_parser_errors (some latest) = latest.parser_errors

unfoldable pub weight : Bool → ℕ → ℕ
weight present n = if present then n else 0

unfoldable pub evidence_score : Coverage → ℕ
evidence_score c =
    weight c.has_code 15
    + weight c.has_docs 10
    + weight c.has_configs 10
    + weight c.has_logs 20
    + weight c.has_deploys 15
    + weight c.has_runbooks 15
    + weight c.has_incidents 10
    + weight c.has_api_docs 5

unfoldable pub parser_penalty : ℕ → ℕ
parser_penalty errors = if errors == 0 then 0 else min 15 (max 3 (errors * 2))

-- Code and docs, and none of the four kinds of operational evidence.
unfoldable pub is_static_only : Coverage → Bool
is_static_only c =
    c.has_code
    && c.has_docs
    && not (c.has_logs || c.has_deploys || c.has_runbooks || c.has_incidents)

-- The statements of `_score` that change the number, in their order.
unfoldable pub after_sync : Snapshot → ℤ → ℤ
after_sync s score = if s.successful_syncs == 0 then score -ℤ pos 30 else score

unfoldable pub after_latest : Snapshot → ℤ → ℤ
after_latest s score = if latest_failed s.latest_sync then score -ℤ pos 20 else score

unfoldable pub after_errors : Snapshot → ℤ → ℤ
after_errors s score = score -ℤ pos (parser_penalty (latest_parser_errors s.latest_sync))

unfoldable pub after_chunks : Snapshot → ℤ → ℤ
after_chunks s score = if s.chunk_count == 0 then min_ℤ score (pos 20) else score

unfoldable pub after_static : Coverage → ℤ → ℤ
after_static c score = if is_static_only c then min_ℤ score (pos 55) else score

unfoldable pub notes : Snapshot → Coverage → List Note
notes s c =
    when (s.successful_syncs == 0) no_successful_sync
    ++ when (latest_failed s.latest_sync) latest_sync_failed
    ++ when (not (latest_parser_errors s.latest_sync == 0))
        (sync_parser_errors (latest_parser_errors s.latest_sync))
    ++ when (s.chunk_count == 0) no_chunks
    ++ when (is_static_only c) only_code_and_docs

unfoldable pub raw_score : Snapshot → Coverage → ℤ
raw_score s c =
    after_static c
      (after_chunks s (after_errors s (after_latest s (after_sync s (pos (evidence_score c))))))

unfoldable pub score : Snapshot → Coverage → ℕ × List Note
score s c =
    if s.document_count == 0
    then (0, no_documents ∷ [])
    else (pos_part (max_ℤ (pos 0) (min_ℤ (pos 100) (raw_score s c))), notes s c)

pub data Grade : Type 0 where
  excellent good partial weak empty : Grade

unfoldable pub grade : ℕ → Grade
grade n =
    if leb 85 n
    then excellent
    else if leb 70 n
    then good
    else if leb 50 n
    then partial
    else if leb 25 n
    then weak
    else empty
