-- ===== src/Readiness/Report.antt =====
-- The lists of the report: what is missing, what can be asked, and what to do.
pub mod Gaps
use ops_incident_core.Prelude.{
  ℕ, Bool, true, false, not, ◌&&◌, ◌||◌, Option, none, some, String, List, [], ◌∷◌, ◌++◌, any,
  if◌then◌else◌, ◌==◌, when,
}
use text.Mathlib.Text.{◌==◌ as str_eq}
use ops_incident_core.Db.{SyncStatus}
use ops_incident_core.Readiness.Score.{Coverage, Snapshot, LatestSync, is_failed}

unfoldable pub missing_evidence : Coverage → List String
missing_evidence c =
    when (not c.has_logs) "Timestamped application logs are missing."
    ++ when (not c.has_deploys) "Deploy history or code diffs are missing."
    ++ when (not c.has_runbooks) "Runbooks or remediation docs are missing."
    ++ when (not c.has_incidents) "Previous incident reports or postmortems are missing."
    ++ when (not c.has_api_docs)
        "API/OpenAPI docs are missing; endpoint investigation may rely on code only."
    ++ when (not c.has_code) "Source code evidence is missing."

unfoldable pub answerable_questions : Coverage → List String
answerable_questions c =
    (if c.has_code || c.has_docs || c.has_configs
      then "Where is a feature, endpoint, or behavior implemented?"
        ∷ "Which files define API, configuration, or service behavior?"
        ∷ "Where are service or module boundaries visible in the repo?" ∷ []
      else [])
    ++ when c.has_logs "What errors, timeouts, or latency symptoms appear in the logs?"
    ++ when c.has_deploys "What deploys, releases, or diffs are available around a change?"
    ++ when c.has_runbooks "What remediation or rollback steps are already documented?"
    ++ when c.has_incidents "Have similar incidents or postmortems been indexed?"
    ++ when c.has_api_docs "Which endpoints are documented?"

unfoldable pub weak_questions : Coverage → List String
weak_questions c =
    (if not c.has_logs
      then "Why did latency spike at runtime?" ∷ "What errors happened during the outage?" ∷ []
      else [])
    ++ (if not c.has_deploys
        then "Was this caused by the last deploy?" ∷ "What changed immediately before the incident?"
          ∷ []
        else [])
    ++ when (not c.has_incidents) "Has this happened before?"
    ++ when (not c.has_runbooks) "What rollback or fix does the team already recommend?"

unfoldable pub observability_gaps : Coverage → List String
observability_gaps c =
    when (not c.has_logs) "No timestamped logs found; runtime symptoms cannot be grounded."
    ++ when (not c.has_deploys) "No deploy history found; deploy-regression analysis will be weak."
    ++ when (c.has_logs && not c.has_deploys) "Logs exist but deploy context is missing."
    ++ when (not c.has_incidents)
        "No previous incident reports found; similarity lookup is unavailable."

unfoldable pub suggested_actions : Coverage → Snapshot → List String
suggested_actions c s =
    when (s.source_count == 0) "Register a source and run Collector sync."
    ++ when (not c.has_logs)
        "Add timestamped application logs with service names, request IDs, and error levels."
    ++ when (not c.has_deploys) "Add deploy history, release notes, or patch/diff exports."
    ++ when (not c.has_runbooks)
        "Add runbooks for critical services and common rollback procedures."
    ++ when (not c.has_incidents) "Add previous incident reports or postmortems."
    ++ when (not c.has_api_docs) "Add OpenAPI/API docs if endpoint-level investigation matters."
    ++ when (not c.has_code) "Add backend source code or service ownership docs."

unfoldable pub suggested_questions : Coverage → List String
suggested_questions c =
    (if c.has_code
      then "Where is the application configured?" ∷ "Which files define database configuration?"
        ∷ "Which modules or services appear most important?" ∷ []
      else [])
    ++ when c.has_configs
        "Which configuration files mention deployment, Docker, or database settings?"
    ++ when c.has_logs "What timeout, error, or latency symptoms appear in the logs?"
    ++ when c.has_deploys "What changed in the latest deploy history or diff?"
    ++ when c.has_runbooks "Which runbooks mention rollback or restart steps?"
    ++ when (not c.has_logs || not c.has_deploys)
        "What evidence is missing for deploy-regression or latency investigation?"

-- `_dedupe`: the first of equal items stays, in its place.
unfoldable pub dedupe_from : List String → List String → List String
dedupe_from seen [] = []
dedupe_from seen (item ∷ items) =
    let fresh = item ∷ dedupe_from (item ∷ seen) items in
    let rest = dedupe_from seen items in if any (str_eq item) seen then rest else fresh

unfoldable pub dedupe : List String → List String
unfolding dedupe_from
dedupe items = dedupe_from [] items

abbrev pub is_partial : SyncStatus → Bool
is_partial SyncStatus.partial_success = true
is_partial _ = false

-- `_warnings`, on the notes of the score as they read.
unfoldable pub warnings : Snapshot → Coverage → List String → List String
unfolding dedupe
warnings s c score_notes = dedupe (
    score_notes
    ++ elim s.latest_sync [
      | none ↦ []
      | some latest ↦
          when (is_partial latest.status)
            "Latest sync completed with partial success; inspect parser errors and skipped documents."
          ++ when (is_failed latest.status) "Latest sync failed; readiness may be stale."
    ]
    ++ when (not c.has_logs) "Latency and outage investigations will be weak without logs."
    ++ when (not c.has_deploys)
        "Deploy-regression investigations will be weak without deploy history."
    ++ when (not c.has_incidents)
        "Previous-incident lookup is unavailable without incident reports.")
