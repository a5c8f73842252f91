-- ===== src/Agent.antt =====
-- incidentops/agent: the workflow of an agent run and the approval that it waits for.
pub mod Nodes
pub mod Runs
