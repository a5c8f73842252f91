-- ===== src/Readiness/Report/Gaps.antt =====
-- How the lists of the report agree with one another.
use ops_incident_core.Prelude.{
  ◌+◌, ◌≡◌, ◌↔◌, Bool, true, ◌&&◌, String, [], arith, length, to_int, ◌==◌, when,
}
use ops_incident_core.Readiness.Score.{Coverage, Snapshot}
use ops_incident_core.Readiness.Report.{missing_evidence, suggested_actions}

length-when : (b : Bool) (x : String) → length (when b x) ≡ to_int b
length-when b x = ground arith

-- Each kind of evidence that is reported missing comes with one suggested action, besides the
-- action to register a source where there is none; and nothing is reported missing exactly when
-- all six kinds are there.
pub missing_evidence_actions :
    (c : Coverage) (s : Snapshot)
    → (length (suggested_actions c s) ≡ to_int (s.source_count == 0) + length (missing_evidence c))
      × ((missing_evidence c ≡ []) ↔ (
          (c.has_code && c.has_logs && c.has_deploys && c.has_runbooks && c.has_incidents
            && c.has_api_docs)
          ≡ true))
unfolding missing_evidence suggested_actions
missing_evidence_actions c s = ground arith
