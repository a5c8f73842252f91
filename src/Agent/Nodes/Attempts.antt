-- ===== src/Agent/Nodes/Attempts.antt =====
-- How often a node is tried.
use ops_incident_core.Prelude.{
  ℕ, zero, suc, ◌+◌, ◌-◌, ◌≤◌, ◌≡◌, Bool, true, false, Option, String, List, [], ◌∷◌, arith,
  Option-cases, inl, inr, to_int,
}
use ops_incident_core.Settings.{Settings}
use ops_incident_core.Agent.Nodes.{
  NodeName, AgentState, RunEvent, node_started, node_failed, node_retried, NodeResult, done,
  gave_up, attempts_allowed, run_attempts, execute_node,
}

abbrev pub starts : List RunEvent → ℕ
starts [] = 0
starts (node_started name n ∷ events) = suc (starts events)
starts (_ ∷ events) = starts events

abbrev pub failures : List RunEvent → ℕ
failures [] = 0
failures (node_failed name n ∷ events) = suc (failures events)
failures (_ ∷ events) = failures events

abbrev pub retries : List RunEvent → ℕ
retries [] = 0
retries (node_retried name n ∷ events) = suc (retries events)
retries (_ ∷ events) = retries events

abbrev pub succeeded : NodeResult → Bool
succeeded (done s) = true
succeeded (gave_up e) = false

-- The events of an execution with a number of attempts allowed.
pub record IsExecution (allowed : ℕ) (execution : List RunEvent × NodeResult) : Type 0 where
  pub tried : 1 ≤ starts execution.0
  pub within : starts execution.0 ≤ allowed
  pub settled : failures execution.0 + to_int (succeeded execution.1) ≡ starts execution.0
  pub retried : retries execution.0 + 1 ≡ starts execution.0
  pub exhausted : succeeded execution.1 ≡ false → starts execution.0 ≡ allowed

run_attempts-IsExecution :
    (confident : Bool) (raises : NodeName → ℕ → Option String) (name : NodeName) (s : AgentState)
    (left attempt : ℕ)
    → IsExecution (suc left) (run_attempts confident raises name s (suc left) attempt)
unfolding run_attempts
run_attempts-IsExecution confident raises name s zero attempt =
    elim (Option-cases (raises name (attempt + 1))) [
      | inl e ↦ rw (e, run_attempts) (ground arith)
      | inr (error, e) ↦ rw (e, run_attempts) (ground arith)
    ]
run_attempts-IsExecution confident raises name s (suc left) attempt =
    let ih = run_attempts-IsExecution confident raises name s left (attempt + 1) in
    elim (Option-cases (raises name (attempt + 1))) [
      | inl e ↦ rw (e, run_attempts) (ground arith)
      | inr (error, e) ↦ rw (e, run_attempts) (ground (arith, ih))
    ]

allowed_some :
    (settings : Settings) (name : NodeName) → (n : ℕ) × (attempts_allowed settings name ≡ suc n)
unfolding attempts_allowed
allowed_some settings name = (attempts_allowed settings name - 1, ground arith)

-- A node is tried at least once and at most as often as it is allowed, the wait for an approval
-- once; every attempt is recorded as failed but the one that succeeds, and every attempt but the
-- first as a retry; and a node gives up only when every attempt that it is allowed has failed.
pub execute_node_lem :
    (confident : Bool) (raises : NodeName → ℕ → Option String) (settings : Settings)
    (name : NodeName) (s : AgentState)
    → IsExecution (attempts_allowed settings name) (execute_node confident raises settings name s)
unfolding execute_node
execute_node_lem confident raises settings name s =
    let (n, e) = allowed_some settings name in
    rw e (run_attempts-IsExecution confident raises name s n 0)
