-- ===== src/Operations/Runs.antt =====
-- The rows of the operational runs with what changes them one at a time. An event and a finding
-- keep their labels; payloads, thresholds and recommendations are left out.
use ops_incident_core.Prelude.{
  ℕ, ◌+◌, Bool, true, false, ◌&&◌, ◌||◌, Option, none, some, String, List, [], ◌∷◌, ◌++◌, select,
  take, if◌then◌else◌, ◌==◌, leb, non_empty, or_default,
}
use ops_incident_core.Prelude.Text.{Text, codes, lower, text_eq}
use ops_incident_core.Db.{Counts, find_row, update_row}
use ops_incident_core.Retrieval.Words.{strip}

-- `RUN_TYPES`
pub data RunType : Type 0 where
  evaluator observer logging : RunType

abbrev pub same_type : RunType → RunType → Bool
same_type evaluator evaluator = true
same_type observer observer = true
same_type logging logging = true
same_type _ _ = false

pub data OperationalRunStatus : Type 0 where
  queued running completed failed : OperationalRunStatus

-- `TERMINAL_STATUSES`
abbrev pub is_terminal : OperationalRunStatus → Bool
is_terminal OperationalRunStatus.completed = true
is_terminal OperationalRunStatus.failed = true
is_terminal _ = false

-- What each agent writes to `summary_json`; rates are ten-thousandths.
pub data RunSummary : Type 0 where
  queued_summary : RunSummary
  failed_summary : Text → RunSummary
  observer_summary :
      (findings_count syncs_checked files_seen parser_errors failed_jobs stale_jobs : ℕ)
      → RunSummary
  logging_summary : (events_checked : ℕ) (categories severities event_types : Counts) → RunSummary
  evaluator_summary :
      (is_completed : Bool) (total_cases failed_cases recall wrong_rate latency_p95_ms : ℕ)
      → RunSummary

pub record OperationalRun : Type 0 where
  pub id : ℕ
  pub project_id : ℕ
  pub run_type : RunType
  pub status : OperationalRunStatus
  pub idempotency_key : Text
  pub summary : RunSummary
  pub attempts : ℕ
  pub error_code : Option Text
  pub started_at : Option ℕ
  pub finished_at : Option ℕ

pub record RunEvent : Type 0 where
  pub project_id : ℕ
  pub operational_run_id : ℕ
  pub category : String
  pub event_type : String
  pub severity : String

pub record OperationalFinding : Type 0 where
  pub operational_run_id : ℕ
  pub project_id : ℕ
  pub finding_type : String
  pub severity : String

pub record Operations : Type 0 where
  pub runs : List OperationalRun
  pub events : List RunEvent
  pub findings : List OperationalFinding

-- `_label`, on the characters of ASCII.
abbrev is_label_part : ℕ → Bool
is_label_part c =
    (leb b'a' c && leb c b'z') || (leb b'0' c && leb c b'9') || c == b'_' || c == b'-' || c == b'.'

unfoldable pub label : Text → ℕ → Text
unfolding lower
label value limit =
    let kept = take limit (select is_label_part (lower value)) in
    if non_empty kept then kept else codes "unknown"

-- The row that the unique constraint finds.
unfoldable pub find_key : ℕ → RunType → Text → List OperationalRun → Option OperationalRun
unfolding text_eq
find_key project_id run_type key [] = none
find_key project_id run_type key (run ∷ runs) =
    if run.project_id == project_id
      && same_type run.run_type run_type
      && text_eq run.idempotency_key key
    then some run
    else find_key project_id run_type key runs

-- `(idempotency_key or build_idempotency_key(run_type, request)).strip()[:128]`; the digest that
-- stands for a missing key is an argument.
unfoldable pub key_of : Option Text → Text → Text
unfolding strip
key_of idempotency_key built =
    let given = or_default idempotency_key [] in
    take 128 (strip (if non_empty given then given else built))

unfoldable pub new_run : ℕ → ℕ → RunType → Text → OperationalRun
new_run fresh project_id run_type key = record {
  id = fresh;
  project_id = project_id;
  run_type = run_type;
  status = OperationalRunStatus.queued;
  idempotency_key = key;
  summary = queued_summary;
  attempts = 0;
  error_code = none;
  started_at = none;
  finished_at = none;
}

unfoldable pub create_operational_run :
    ℕ → ℕ → RunType → Option Text → Text → Operations → Operations × OperationalRun
unfolding find_key key_of new_run
create_operational_run fresh project_id run_type idempotency_key built ops =
    let key = key_of idempotency_key built in
    elim (find_key project_id run_type key ops.runs) [
      | some run ↦ (ops, run)
      | none ↦
          let run = new_run fresh project_id run_type key in
          (record ops { runs = ops.runs ++ run ∷ [] }, run)
    ]

-- The session writes a changed row back.
unfoldable pub save : OperationalRun → Operations → Operations
save run ops = record ops { runs = update_row OperationalRun.id run.id (λ _. run) ops.runs }

unfoldable pub record_operational_event :
    OperationalRun → String → String → String → Operations → Operations
record_operational_event run category event_type severity ops = record ops {
  events =
      ops.events
      ++ record {
        project_id = run.project_id;
        operational_run_id = run.id;
        category = category;
        event_type = event_type;
        severity = severity;
      }
        ∷ [];
}

-- `_start` and `_finish`, on the row; `_start` also writes an event.
unfoldable pub begin_attempt : ℕ → OperationalRun → OperationalRun
begin_attempt now run = record run {
  status = OperationalRunStatus.running;
  attempts = run.attempts + 1;
  started_at = some now;
}

unfoldable pub start : ℕ → OperationalRun → OperationalRun
unfolding begin_attempt
start now run = if is_terminal run.status then run else begin_attempt now run

unfoldable pub record_start : OperationalRun → Operations → Operations
unfolding record_operational_event
record_start run ops =
    if is_terminal run.status
    then ops
    else record_operational_event run "worker" "operational_run_started" "info" ops

unfoldable pub finish : ℕ → OperationalRun → OperationalRun
finish now run = record run { status = OperationalRunStatus.completed; finished_at = some now }

unfoldable pub fail_run : ℕ → Text → OperationalRun → OperationalRun
unfolding label
fail_run now error run = record run {
  status = OperationalRunStatus.failed;
  error_code = some (label error 64);
  summary = failed_summary (label error 64);
  finished_at = some now;
}

unfoldable pub mark_operational_run_failed : ℕ → ℕ → Text → Operations → Operations
unfolding fail_run save record_operational_event
mark_operational_run_failed now run_id error ops =
    elim (find_row OperationalRun.id run_id ops.runs) [
      | none ↦ ops
      | some run ↦
          if is_terminal run.status
          then ops
          else record_operational_event run "worker" "operational_run_failed" "high"
              (save (fail_run now error run) ops)
    ]
