-- ===== src/Agent/Runs.antt =====
-- The run of an agent and its approval: `execute_run`, `_ensure_pending_approval` and
-- `resume_after_approval` of incidentops/agent/service.py. The approvals are those of the run, the
-- newest first.
pub mod Approvals
use ops_incident_core.Prelude.{
  ℕ, Bool, true, false, not, ◌&&◌, Option, none, some, String, List, [], ◌∷◌, ◌++◌, any,
  if◌then◌else◌,
}
use ops_incident_core.Settings.{Settings}
use ops_incident_core.Agent.Nodes.{
  RunStatus, queued, running, awaiting_approval, approved, rejected, completed, failed, NodeName,
  AgentState, RunEvent, run_started, retrieved_evidence, graph_started, graph_completed, run_failed,
  run_finished, approval_resolved, NodeResult, done, gave_up, run_agent_graph,
}

-- `ApprovalStatus`
pub data ApprovalStatus : Type 0 where
  is_pending is_approved is_rejected : ApprovalStatus

pub record Approval : Type 0 where
  pub status : ApprovalStatus
  pub rationale : Option String

-- The columns of `AgentRun` that the service assigns, less the final answer. The entry "approval"
-- that `resume_after_approval` puts into it is written in place into the dictionary of a run that
-- has an answer, and plain JSONB sees no change of it: there the entry never reaches the table.
pub record AgentRun : Type 0 where
  pub status : RunStatus
  pub risk_level : Option String
  pub pending_approval : Bool
  pub error : Option String

-- A run, its approvals and its events.
pub record RunState : Type 0 where
  pub run : AgentRun
  pub approvals : List Approval
  pub events : List RunEvent

abbrev pub waits : ApprovalStatus → Bool
waits is_pending = true
waits _ = false

unfoldable pub ensure_pending_approval : List Approval → List Approval
ensure_pending_approval approvals =
    if any (λ (a : Approval). waits a.status) approvals
    then approvals
    else record { status = is_pending; rationale = none } ∷ approvals

-- The state that the workflow starts in.
abbrev pub initial_state : AgentState
initial_state = record {
  status = running;
  risk_level = none;
  pending_approval = false;
  final_fix = none;
  report_fix = none;
  issue_fix = none;
}

-- The `except` block.
unfoldable pub fail_run : String → RunState → RunState
fail_run error rs = record rs {
  run = record (rs.run) { status = failed; error = some error; pending_approval = false };
  events = rs.events ++ run_failed ∷ [];
}

-- The assignments after the workflow; `late_error` is an exception from what follows them, the
-- drafts and the last event.
unfoldable pub finish_run : Bool → Option String → AgentState → RunState → RunState
unfolding ensure_pending_approval fail_run
finish_run create_issue_draft late_error s rs =
    let awaits = s.pending_approval && create_issue_draft in
    let finished : RunState = record rs {
      run = record (rs.run) {
        status = if awaits then awaiting_approval else completed;
        risk_level = s.risk_level;
        pending_approval = awaits;
      };
      approvals = if awaits then ensure_pending_approval rs.approvals else rs.approvals;
    } in
    elim late_error [
      | some error ↦ fail_run error finished
      | none ↦ record finished { events = finished.events ++ run_finished finished.run.status ∷ [] }
    ]

-- The run once it is under way.
abbrev pub start_run : RunState → RunState
start_run rs = record rs {
  run = record (rs.run) { status = running; error = none };
  events = rs.events ++ run_started ∷ [];
}

module _ (settings : Settings) (confident : Bool) (raises : NodeName → ℕ → Option String) where
  -- The nodes, on a run whose evidence has been retrieved.
  unfoldable pub run_workflow : Bool → Option String → RunState → RunState
  unfolding run_agent_graph fail_run finish_run
  run_workflow create_issue_draft late_error rs =
      let graph = run_agent_graph confident raises settings initial_state in
      elim graph.1 [
        | gave_up error ↦ fail_run error (record rs { events = rs.events ++ graph.0 })
        | done s ↦
            finish_run create_issue_draft late_error s
              (record rs { events = rs.events ++ graph.0 ++ graph_completed ∷ [] })
      ]

  -- `search_error` is an exception of the search for evidence.
  unfoldable pub execute_run : Bool → Option String → Option String → RunState → RunState
  unfolding run_workflow fail_run
  execute_run create_issue_draft search_error late_error rs =
      let started = start_run rs in
      elim search_error [
        | some error ↦ fail_run error started
        | none ↦
            run_workflow create_issue_draft late_error (record started {
              events = started.events ++ retrieved_evidence ∷ graph_started ∷ [];
            })
      ]

unfoldable pub resolve : Bool → Option String → Approval
resolve is_yes rationale = record {
  status = if is_yes then is_approved else is_rejected;
  rationale = rationale;
}

-- A decision on the newest approval; a run without one is left as it is.
unfoldable pub decide : Bool → Option String → AgentRun → List Approval → List RunEvent → RunState
unfolding resolve
decide is_yes rationale run [] events = record { run = run; approvals = []; events = events }
decide is_yes rationale run (approval ∷ older) events = record {
  run = record run { pending_approval = false; status = if is_yes then completed else rejected };
  approvals = resolve is_yes rationale ∷ older;
  events = events ++ approval_resolved (if is_yes then approved else rejected) ∷ [];
}

unfoldable pub resume_after_approval : Bool → Option String → RunState → RunState
unfolding decide
resume_after_approval is_yes rationale rs = decide is_yes rationale rs.run rs.approvals rs.events

-- `create_run`
abbrev pub created_run : RunState
created_run = record {
  run = record { status = queued; risk_level = none; pending_approval = false; error = none };
  approvals = [];
  events = [];
}

-- The states that a run comes to: it is executed, again after a redelivery, and decided on, in any
-- order and whatever the nodes, the search and the drafts do.
pub data Reachable (settings : Settings) : RunState → Type 0 where
  created : Reachable settings created_run
  executed :
      (confident create_issue_draft : Bool) (raises : NodeName → ℕ → Option String)
      (search_error late_error : Option String) (rs : RunState)
      → Reachable settings rs
      → Reachable settings
          (execute_run settings confident raises create_issue_draft search_error late_error rs)
  resumed :
      (is_yes : Bool) (rationale : Option String) (rs : RunState)
      → Reachable settings rs
      → Reachable settings (resume_after_approval is_yes rationale rs)
