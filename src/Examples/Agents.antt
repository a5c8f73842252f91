-- ===== src/Examples/Agents.antt =====
-- Runs of an agent, with nodes that raise, and decisions on them.
use ops_incident_core.Prelude.{ℕ, ◌≡◌, refl, true, Option, none, some, String, if◌then◌else◌, ◌==◌}
use ops_incident_core.Agent.Nodes.{
  awaiting_approval, NodeName, analyze_logs, node_order, AgentState, validate, done,
  attempts_allowed, execute_node, run_agent_graph, run_nodes, run_attempts, run_node,
}
use ops_incident_core.Agent.Nodes.Attempts.{IsExecution, execute_node_lem}
use ops_incident_core.Agent.Nodes.Workflow.{apply_nodes, run_agent_graph_lem}
use ops_incident_core.Agent.Runs.{
  RunState, initial_state, created_run, execute_run, resume_after_approval, created, executed,
  resumed,
}
use ops_incident_core.Agent.Runs.Approvals.{IsSettled, Reachable-IsSettled}
use ops_incident_core.Examples.Rows.{settings}

-- Only the first attempt of the analysis of logs raises.
abbrev flaky : NodeName → ℕ → Option String
flaky analyze_logs n = if n == 1 then some "timeout" else none
flaky _ n = none

execute_node_lem_example :
    IsExecution
      (attempts_allowed settings analyze_logs)
      (execute_node true flaky settings analyze_logs initial_state)
execute_node_lem_example = execute_node_lem true flaky settings analyze_logs initial_state

abbrev final_state : AgentState
final_state = apply_nodes true node_order initial_state

ends : (run_agent_graph true flaky settings initial_state).1 ≡ done final_state
unfolding run_agent_graph run_nodes execute_node run_attempts attempts_allowed run_node
ends = refl

run_agent_graph_lem_example :
    (final_state ≡ apply_nodes true node_order initial_state)
    × (final_state.status ≡ awaiting_approval)
    × (final_state.pending_approval ≡ true)
    × (final_state.report_fix ≡ some "")
    × (final_state.issue_fix ≡ some "")
    × (final_state.final_fix ≡ (if true then some validate else none))
run_agent_graph_lem_example =
    run_agent_graph_lem true flaky settings initial_state final_state refl ends

abbrev executed_run : RunState
executed_run = execute_run settings true flaky true none none created_run

Reachable-IsSettled_example : IsSettled (resume_after_approval true none executed_run)
Reachable-IsSettled_example =
    Reachable-IsSettled settings (resume_after_approval true none executed_run)
      (resumed true none executed_run (executed true true flaky none none created_run created))
