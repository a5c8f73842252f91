-- ===== src/Examples.antt =====
-- Concrete rows, jobs, queries and evidence that the theorems are applied to, and tests of the
-- definitions on them.
mod Rows
mod Jobs
mod Agents
mod Queues
mod Access
mod Evidence
mod Reports
mod Syncs
mod Searches
mod OperationalRuns
