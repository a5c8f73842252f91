-- ===== src/Retrieval/Intent/Support.antt =====
-- When an investigation is supported.
use ops_incident_core.Prelude.{
  ◌≡◌, Bool, true, not, ◌&&◌, String, List, [], ◌∷◌, arith, length, to_int,
}
use ops_incident_core.Retrieval.Intent.{
  Intent, runtime_incident, deploy_regression, previous_incident, has_type, is_incident_like,
  investigate_supported, is_repo_lookup,
}

-- The evidence that an intent cannot do without.
abbrev pub required_type : Intent → List String
required_type runtime_incident = "logs" ∷ []
required_type deploy_regression = "deploy" ∷ []
required_type previous_incident = "incident" ∷ []
required_type _ = []

abbrev pub all_present : List String → List String → Bool
all_present [] types = true
all_present (t ∷ ts) types = has_type t types && all_present ts types

-- An investigation is supported exactly when the query is about an incident or a runbook and the
-- evidence that its intent requires is there, and there is one reason exactly when it is not; a
-- supported investigation of an incident-like query has a required type of evidence, and one of
-- a runbook query has none.
pub investigate_supported_lem :
    (i : Intent) (types : List String)
    → ((investigate_supported i types).0
        ≡ (not (is_repo_lookup i) && all_present (required_type i) types))
      × (length (investigate_supported i types).1 ≡ to_int (not (investigate_supported i types).0))
      × (length (required_type i) ≡ to_int (is_incident_like i))
unfolding investigate_supported is_incident_like
investigate_supported_lem i types = ground arith
