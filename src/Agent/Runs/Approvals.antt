-- ===== src/Agent/Runs/Approvals.antt =====
-- What a run's status, its flag and its approvals say of one another.
use ops_incident_core.Prelude.{
  ℕ, ◌≡◌, Bool, true, false, Option, none, some, String, List, [], ◌∷◌, ◌++◌, any, arith, is_some,
}
use ops_incident_core.Settings.{Settings}
use ops_incident_core.Agent.Nodes.{
  RunStatus, awaiting_approval, failed, NodeName, AgentState, NodeResult, done, gave_up,
  run_agent_graph, RunEvent, graph_completed, retrieved_evidence, graph_started,
}
use ops_incident_core.Agent.Runs.{
  AgentRun, Approval, RunState, waits, initial_state, ensure_pending_approval, fail_run, finish_run,
  run_workflow, start_run, execute_run, decide, resume_after_approval, Reachable, created, executed,
  resumed,
}

abbrev pub is_awaiting : RunStatus → Bool
is_awaiting awaiting_approval = true
is_awaiting _ = false

abbrev pub is_failed_run : RunStatus → Bool
is_failed_run failed = true
is_failed_run _ = false

-- The flag says that the run awaits an approval, an approval is then pending, and a run that has
-- failed has an error.
pub record IsSettled (rs : RunState) : Type 0 where
  pub flagged : rs.run.pending_approval ≡ is_awaiting rs.run.status
  pub asked :
      is_awaiting rs.run.status ≡ true → any (λ (a : Approval). waits a.status) rs.approvals ≡ true
  pub explained : is_failed_run rs.run.status ≡ true → is_some rs.run.error ≡ true

fail_run-IsSettled : (error : String) (rs : RunState) → IsSettled (fail_run error rs)
unfolding fail_run
fail_run-IsSettled error rs = ground arith

ensure_pending :
    (approvals : List Approval)
    → any (λ (a : Approval). waits a.status) (ensure_pending_approval approvals) ≡ true
unfolding ensure_pending_approval
ensure_pending approvals = ground arith

finish_run-IsSettled :
    (create : Bool) (late : Option String) (s : AgentState) (rs : RunState)
    → IsSettled (finish_run create late s rs)
unfolding finish_run fail_run
finish_run-IsSettled create (some error) s rs = ground arith
finish_run-IsSettled create none s rs = ground (arith, ensure_pending rs.approvals)

-- What the workflow ends with, given how its nodes ended.
after_graph :
    (create : Bool) (late : Option String) (before after : RunState) (r : NodeResult)
    → IsSettled
        (elim r [ gave_up error ↦ fail_run error before | done s ↦ finish_run create late s after ])
after_graph create late before after (gave_up error) = fail_run-IsSettled error before
after_graph create late before after (done s) = finish_run-IsSettled create late s after

module _ (settings : Settings) (confident : Bool) (raises : NodeName → ℕ → Option String) where
  run_workflow-IsSettled :
      (create : Bool) (late : Option String) (rs : RunState)
      → IsSettled (run_workflow settings confident raises create late rs)
  unfolding run_workflow
  run_workflow-IsSettled create late rs =
      let graph = run_agent_graph confident raises settings initial_state in
      after_graph create late (record rs { events = rs.events ++ graph.0 })
        (record rs { events = rs.events ++ graph.0 ++ graph_completed ∷ [] }) graph.1

  execute_run-IsSettled :
      (create : Bool) (search late : Option String) (rs : RunState)
      → IsSettled (execute_run settings confident raises create search late rs)
  unfolding execute_run
  execute_run-IsSettled create (some error) late rs = fail_run-IsSettled error (start_run rs)
  execute_run-IsSettled create none late rs =
      run_workflow-IsSettled create late (record (start_run rs) {
        events = (start_run rs).events ++ retrieved_evidence ∷ graph_started ∷ [];
      })

decide-IsSettled :
    (is_yes : Bool) (rationale : Option String) (run : AgentRun) (approvals : List Approval)
    (events events' : List RunEvent)
    → IsSettled (record { run = run; approvals = approvals; events = events })
    → IsSettled (decide is_yes rationale run approvals events')
unfolding decide
decide-IsSettled is_yes rationale run [] events events' h = ground arith
decide-IsSettled true rationale run (a ∷ older) events events' h = ground arith
decide-IsSettled false rationale run (a ∷ older) events events' h = ground arith

-- In every state that a run comes to, it is flagged as pending exactly when it awaits an
-- approval, an approval is pending then, and a run that has failed has an error.
pub Reachable-IsSettled :
    (settings : Settings) (rs : RunState) → Reachable settings rs → IsSettled rs
unfolding resume_after_approval
Reachable-IsSettled settings rs created = ground arith
Reachable-IsSettled settings rs (executed confident create raises search late before h) =
    execute_run-IsSettled settings confident raises create search late before
Reachable-IsSettled settings rs (resumed is_yes rationale before h) =
    decide-IsSettled is_yes rationale before.run before.approvals before.events before.events
      (Reachable-IsSettled settings before h)
