-- ===== src/Worker/IndexJob/Row.antt =====
-- What one delivery does to the row of its job.
use ops_incident_core.Prelude.{
  ℕ, ◌+◌, Bool, true, false, Option, none, some, List, [], ◌∷◌, if◌then◌else◌, ◌==◌, leb, ltb, not,
}
use ops_incident_core.Settings.{Settings}
use ops_incident_core.Db.{IndexJob, IndexStatus, ErrorCode}

-- How parsing, embedding and publishing the document ended: with the number of chunks made and
-- the codes of the errors, by an exception, or cut off by the worker's time limit, whose
-- `CancelledError` the handler does not catch.
pub data IndexOutcome : Type 0 where
  indexed : (chunks_created : ℕ) → (errors : List ℕ) → IndexOutcome
  threw : (exception : ℕ) → IndexOutcome
  cut_off : IndexOutcome

-- How the handler ends; an exception goes on to the worker, and so does the time limit.
pub data JobResult : Type 0 where
  returned : JobResult
  raised : ℕ → JobResult
  stopped : JobResult

-- `index_job.status in {"completed", "stale", "running"}`
unfoldable pub is_skipped : IndexStatus → Bool
is_skipped IndexStatus.completed = true
is_skipped IndexStatus.stale = true
is_skipped IndexStatus.running = true
is_skipped _ = false

-- `indexed.errors[0].code if indexed.errors else None`
unfoldable pub first_error : List ℕ → Option ErrorCode
first_error [] = none
first_error (code ∷ codes) = some (ErrorCode.reported code)

-- `index_job.error_code or "retry_limit_exceeded"`
unfoldable pub keep_error : Option ErrorCode → Option ErrorCode
keep_error none = some ErrorCode.retry_limit_exceeded
keep_error (some code) = some code

-- The row once the attempt is under way.
unfoldable pub start_attempt : ℕ → IndexJob → IndexJob
start_attempt now job = record job {
  status = IndexStatus.running;
  attempts = job.attempts + 1;
  started_at = some now;
}

-- The assignments after the indexer has returned.
unfoldable pub finish_attempt : ℕ → List ℕ → IndexJob → IndexJob
unfolding first_error
finish_attempt now [] job = record job {
  status = IndexStatus.completed;
  error_code = none;
  finished_at = some now;
}
finish_attempt now (code ∷ codes) job = record job {
  status = IndexStatus.failed;
  error_code = first_error (code ∷ codes);
  finished_at = some now;
}

-- The assignments of the `except` block: `retryable` reads the attempts already counted.
unfoldable pub fail_attempt : Settings → ℕ → ℕ → IndexJob → IndexJob
fail_attempt settings now exception job =
    if ltb job.attempts settings.rag_index_max_retries
    then record job {
      status = IndexStatus.pending;
      error_code = some (ErrorCode.exception_class exception);
      finished_at = none;
    }
    else record job {
      status = IndexStatus.failed;
      error_code = some (ErrorCode.exception_class exception);
      finished_at = some now;
    }

-- One attempt, by how the indexer ended. What an attempt that is cut off has written is rolled
-- back with its session.
unfoldable pub attempt : Settings → ℕ → IndexOutcome → IndexJob → IndexJob × JobResult
unfolding start_attempt finish_attempt fail_attempt
attempt settings now (indexed chunks errors) job =
    (finish_attempt now errors (start_attempt now job), returned)
attempt settings now (threw exception) job =
    (fail_attempt settings now exception (start_attempt now job), raised exception)
attempt settings now cut_off job = (job, stopped)

-- The guards in their order, then the attempt.
unfoldable pub run_index_job : Settings → ℕ → IndexOutcome → IndexJob → IndexJob × JobResult
unfolding is_skipped keep_error attempt
run_index_job settings now outcome job =
    if is_skipped job.status
    then (job, returned)
    else if leb settings.rag_index_max_retries job.attempts
    then (
      record job {
        status = IndexStatus.failed;
        error_code = keep_error job.error_code;
        finished_at = some now;
      },
      returned,
    )
    else if not (job.index_version == settings.vector_index_version)
    then (
      record job {
        status = IndexStatus.stale;
        error_code = some ErrorCode.index_version_changed;
        finished_at = some now;
      },
      returned,
    )
    else attempt settings now outcome job
