-- ===== src/Agent/Nodes.antt =====
-- The nodes of the workflow and their attempts: incidentops/agent/nodes.py, the sequential engine
-- of graph.py, and `execute_node_with_observability` of service.py. The state keeps the fields
-- that steer the run; which attempt of which node raises is an argument, and a time limit that
-- passes is one way to raise.
pub mod Attempts
pub mod Workflow
use ops_incident_core.Prelude.{
  ℕ, zero, suc, ◌+◌, Bool, true, false, not, Option, none, some, String, List, [], ◌∷◌, ◌++◌,
  if◌then◌else◌, ◌==◌, max, or_default,
}
use ops_incident_core.Settings.{Settings}

-- `RunStatus`
pub data RunStatus : Type 0 where
  queued running awaiting_approval approved rejected completed failed : RunStatus

pub data NodeName : Type 0 where
  classify_task extract_entities resolve_scope analyze_logs analyze_deploy_diff : NodeName
  find_previous_incidents generate_hypotheses select_root_cause : NodeName
  draft_incident_report draft_issue risk_gate wait_for_human_approval finalize_answer : NodeName

-- `NODE_ORDER`
abbrev pub node_order : List NodeName
node_order =
    classify_task ∷ extract_entities ∷ resolve_scope ∷ analyze_logs ∷ analyze_deploy_diff
    ∷ find_previous_incidents ∷ generate_hypotheses ∷ select_root_cause ∷ draft_incident_report
    ∷ draft_issue ∷ risk_gate ∷ wait_for_human_approval ∷ finalize_answer ∷ []

-- The fields of `InvestigationState` that steer the run: the three `_fix` are the suggested fix
-- of the final answer and the one that each draft was made with.
pub record AgentState : Type 0 where
  pub status : RunStatus
  pub risk_level : Option String
  pub pending_approval : Bool
  pub final_fix : Option String
  pub report_fix : Option String
  pub issue_fix : Option String

abbrev pub validate : String
validate =
    "Validate the leading hypothesis against deploy history, logs, and ownership documentation before taking action."

-- What a node does to these fields; `confident` says that the selected root cause is above low.
unfoldable pub run_node : Bool → NodeName → AgentState → AgentState
run_node confident draft_incident_report s = record s {
  report_fix = some (or_default s.final_fix "");
}
run_node confident draft_issue s = record s { issue_fix = some (or_default s.final_fix "") }
run_node confident risk_gate s = record s { risk_level = some "medium"; pending_approval = true }
run_node confident wait_for_human_approval s = record s {
  status = if s.pending_approval then awaiting_approval else s.status;
}
run_node confident finalize_answer s = record s {
  final_fix = if confident then some validate else none;
  status = if not s.pending_approval then completed else awaiting_approval;
}
run_node confident _ s = s

-- The run events, with the attempt where the event carries one.
pub data RunEvent : Type 0 where
  run_started retrieved_evidence graph_started graph_completed run_failed : RunEvent
  node_started node_completed node_failed node_retried : NodeName → ℕ → RunEvent
  run_finished approval_resolved : RunStatus → RunEvent

-- The state that a node returned, or the error that the loop ends with.
pub data NodeResult : Type 0 where
  done : AgentState → NodeResult
  gave_up : String → NodeResult

abbrev pub is_retryable_node : NodeName → Bool
is_retryable_node wait_for_human_approval = false
is_retryable_node _ = true

unfoldable pub attempts_allowed : Settings → NodeName → ℕ
attempts_allowed settings name =
    if is_retryable_node name then max 1 (settings.workflow_max_retries + 1) else 1

module _ (confident : Bool) (raises : NodeName → ℕ → Option String) where
  -- The `while` loop with the attempts that are left, after a number of attempts.
  unfoldable pub run_attempts : NodeName → AgentState → ℕ → ℕ → List RunEvent × NodeResult
  unfolding run_node
  run_attempts name s zero attempt = ([], gave_up "unknown error")
  run_attempts name s (suc left) attempt =
      let again = run_attempts name s left (attempt + 1) in
      elim (raises name (attempt + 1)) [
        | none ↦ (
          node_started name (attempt + 1) ∷ node_completed name (attempt + 1) ∷ [],
          done (run_node confident name s),
        )
        | some error ↦
            if left == 0
            then (
              node_started name (attempt + 1) ∷ node_failed name (attempt + 1) ∷ [],
              gave_up error,
            )
            else (
              node_started name (attempt + 1)
                  ∷ node_failed name (attempt + 1)
                  ∷ node_retried name (attempt + 2)
                  ∷ again.0,
              again.1,
            )
      ]

  module _ (settings : Settings) where
    unfoldable pub execute_node : NodeName → AgentState → List RunEvent × NodeResult
    unfolding run_attempts attempts_allowed
    execute_node name s = run_attempts name s (attempts_allowed settings name) 0

    -- The nodes one after another, until one gives up.
    unfoldable pub run_nodes : List NodeName → AgentState → List RunEvent × NodeResult
    unfolding execute_node
    run_nodes [] s = ([], done s)
    run_nodes (name ∷ names) s =
        let first = execute_node name s in
        elim first.1 [
          | gave_up error ↦ (first.0, gave_up error)
          | done s' ↦ (let rest = run_nodes names s' in (first.0 ++ rest.0, rest.1))
        ]

    unfoldable pub run_agent_graph : AgentState → List RunEvent × NodeResult
    unfolding run_nodes
    run_agent_graph = run_nodes node_order
