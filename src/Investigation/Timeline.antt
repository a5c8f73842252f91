-- ===== src/Investigation/Timeline.antt =====
-- incidentops/investigation/timeline_builder.py
pub mod Order
use ops_incident_core.Prelude.{
  ℕ, Bool, true, false, not, ◌&&◌, ◌||◌, Option, none, some, String, List, [], ◌∷◌, ◌++◌,
  if◌then◌else◌, leb, or_default, is_some, sort_by,
}
use text.Mathlib.Text.{◌==◌ as str_eq}
use ops_incident_core.Prelude.Text.{Text, codes, lower, contains}
use ops_incident_core.Retrieval.Packing.{EvidenceItem}
use ops_incident_core.Investigation.Findings.{truthy, is_of_type, IncidentMatch}

pub record TimelineEvent : Type 0 where
  pub event_type : String
  pub summary : Text
  pub ts : Option ℕ
  pub evidence_chunk_ids : List String

unfoldable pub deploy_event : EvidenceItem → TimelineEvent
deploy_event item = record {
  event_type = "deploy";
  summary =
      if truthy item.deploy_hash
      then codes "deploy evidence found for " ++ codes (or_default item.deploy_hash "")
      else codes "deploy evidence found";
  ts = item.timestamp_start;
  evidence_chunk_ids = item.chunk_id ∷ [];
}

unfoldable pub log_event : EvidenceItem → TimelineEvent
unfolding lower contains
log_event item =
    let text = lower item.text in
    record {
      event_type = "log_signal";
      summary =
          if contains text (codes "timeout")
          then codes "timeout evidence appears in logs"
          else if contains text (codes "error")
          then codes "error evidence appears in logs"
          else if contains text (codes "ms")
          then codes "latency evidence appears in logs"
          else codes "log evidence found";
      ts = item.timestamp_start;
      evidence_chunk_ids = item.chunk_id ∷ [];
    }

-- The loop over the evidence.
unfoldable pub evidence_events : List EvidenceItem → List TimelineEvent
unfolding deploy_event log_event
evidence_events [] = []
evidence_events (item ∷ items) =
    let events = evidence_events items in
    if is_of_type "deploy" item
    then deploy_event item ∷ events
    else if is_of_type "logs" item && is_some item.timestamp_start
    then log_event item ∷ events
    else events

unfoldable pub incident_events : List IncidentMatch → List TimelineEvent
incident_events [] = []
incident_events (top ∷ rest) =
    record {
      event_type = "similar_incident";
      summary = codes "similar previous incident found: " ++ codes top.document_path;
      ts = none;
      evidence_chunk_ids = top.chunk_id ∷ [];
    }
    ∷ []

-- The order of the key `(event.ts is None, event.ts or datetime.max)`.
abbrev pub not_after : TimelineEvent → TimelineEvent → Bool
not_after a b = elim a.ts [
  | none ↦ not (is_some b.ts)
  | some s ↦ elim b.ts [ none ↦ true | some t ↦ leb s t ]
]

unfoldable pub build_timeline : List EvidenceItem → List IncidentMatch → List TimelineEvent
unfolding evidence_events incident_events
build_timeline evidence incidents =
    sort_by not_after (evidence_events evidence ++ incident_events incidents)
