-- ===== src/Settings.antt =====
-- The fields of incidentops/config/settings.py that the modelled components read.
use ops_incident_core.Prelude.{ℕ, Bool}

pub record Settings : Type 0 where
  pub rag_async_indexing : Bool
  pub rag_index_max_retries : ℕ
  pub rag_index_dispatch_batch_size : ℕ
  pub job_queue_claim_idle_ms : ℕ
  pub vector_index_version : ℕ
  pub worker_concurrency : ℕ
  pub worker_job_max_retries : ℕ
  pub workflow_run_timeout_seconds : ℕ
  pub eval_run_timeout_seconds : ℕ
  pub operational_agent_timeout_seconds : ℕ
  pub index_job_timeout_seconds : ℕ
  pub rag_remote_timeout_seconds : ℕ
  pub workflow_max_retries : ℕ
  pub max_sync_diagnostics_bytes : ℕ
  pub max_documents_per_batch : ℕ
  pub max_batch_bytes : ℕ
  pub max_external_id_length : ℕ
  pub max_path_length : ℕ
  pub max_document_bytes : ℕ
  pub max_metadata_bytes : ℕ
  pub collector_batch_request_limit : ℕ
  pub rate_limit_enabled : Bool
  pub is_production_like : Bool
  pub demo_mode_public : Bool
  pub allow_demo_project_bypass : Bool
