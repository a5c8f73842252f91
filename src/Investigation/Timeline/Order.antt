-- ===== src/Investigation/Timeline/Order.antt =====
-- The order of the timeline, and what it is made of.
use ops_incident_core.Prelude.{Bool, ◌&&◌, ◌||◌, is_some}
use ops_incident_core.Retrieval.Packing.{EvidenceItem}
use ops_incident_core.Investigation.Findings.{is_of_type}

-- The evidence that makes an event: any of a deploy, and dated logs.
abbrev pub makes_event : EvidenceItem → Bool
makes_event item =
    is_of_type "deploy" item || (is_of_type "logs" item && is_some item.timestamp_start)
