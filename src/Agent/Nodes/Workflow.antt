-- ===== src/Agent/Nodes/Workflow.antt =====
-- What a workflow that ends leaves in its state.
use ops_incident_core.Prelude.{
  ℕ, zero, suc, ◌+◌, ◌≡◌, ◌⊎◌, refl, Bool, true, Option, none, some, String, List, [], ◌∷◌, arith,
  if◌then◌else◌, inl, inr,
}
use ops_incident_core.Settings.{Settings}
use ops_incident_core.Agent.Nodes.{
  awaiting_approval, NodeName, node_order, AgentState, validate, run_node, NodeResult, done,
  gave_up, attempts_allowed, run_attempts, execute_node, run_nodes, run_agent_graph,
}

-- The nodes applied to a state, once each and in order.
abbrev pub apply_nodes : Bool → List NodeName → AgentState → AgentState
apply_nodes confident [] s = s
apply_nodes confident (name ∷ names) s = apply_nodes confident names (run_node confident name s)

run_attempts_done :
    (confident : Bool) (raises : NodeName → ℕ → Option String) (name : NodeName) (s s' : AgentState)
    (left attempt : ℕ)
    → (run_attempts confident raises name s left attempt).1 ≡ done s'
    → s' ≡ run_node confident name s
unfolding run_attempts
run_attempts_done confident raises name s s' zero attempt h = cc
run_attempts_done confident raises name s s' (suc left) attempt h =
    ground (arith, run_attempts_done confident raises name s s' left (attempt + 1))

result_cases :
    (r : NodeResult) → ((s : AgentState) × (r ≡ done s)) ⊎ ((e : String) × (r ≡ gave_up e))
result_cases (done s) = inl (s, refl)
result_cases (gave_up e) = inr (e, refl)

run_nodes_done :
    (confident : Bool) (raises : NodeName → ℕ → Option String) (settings : Settings)
    (names : List NodeName) (s s' : AgentState)
    → (run_nodes confident raises settings names s).1 ≡ done s'
    → s' ≡ apply_nodes confident names s
unfolding run_nodes execute_node
run_nodes_done confident raises settings [] s s' h = cc
run_nodes_done confident raises settings (name ∷ names) s s' h =
    elim (result_cases (execute_node confident raises settings name s).1) [
      | inl (s₁, e) ↦ ground (
        arith,
        run_attempts_done confident raises name s s₁ (attempts_allowed settings name) 0,
        run_nodes_done confident raises settings names s₁ s',
      )
      | inr (error, e) ↦ ground arith
    ]

-- However often nodes are retried, a workflow that ends leaves the state of its nodes applied once
-- each and in order. The run then awaits an approval; both drafts were made with an empty
-- suggested fix, since they come before the node that suggests one.
pub run_agent_graph_lem :
    (confident : Bool) (raises : NodeName → ℕ → Option String) (settings : Settings)
    (s s' : AgentState)
    → s.final_fix ≡ none
    → (run_agent_graph confident raises settings s).1 ≡ done s'
    → (s' ≡ apply_nodes confident node_order s)
      × (s'.status ≡ awaiting_approval)
      × (s'.pending_approval ≡ true)
      × (s'.report_fix ≡ some "")
      × (s'.issue_fix ≡ some "")
      × (s'.final_fix ≡ (if confident then some validate else none))
unfolding run_agent_graph run_node
run_agent_graph_lem confident raises settings s s' fresh h =
    let e = run_nodes_done confident raises settings node_order s s' h in
    (e, ground arith, ground arith, ground arith, ground arith, ground arith)
