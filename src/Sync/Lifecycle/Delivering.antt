-- ===== src/Sync/Lifecycle/Delivering.antt =====
-- The worker's handler carries every row of `source_syncs` on.
use ops_incident_core.Prelude.{
  ℕ, ◌≡◌, inl, inr, refl, Bool, true, false, Option, none, some, List, [], ◌∷◌, arith, by_cases,
  Option-cases,
}
use ops_incident_core.Settings.{Settings}
use ops_incident_core.Db.{Database, IndexJob, SourceSync, find_row}
use ops_incident_core.Worker.IndexJob.Row.{IndexOutcome, indexed, threw, cut_off}
use ops_incident_core.Worker.IndexJob.Handler.{
  is_open, is_attempted, log, count_job, update_sync, after_attempt, execute_row,
  execute_index_document_job,
}
use ops_incident_core.Sync.Lifecycle.Rows.{Evolves, Carries, Carries-refl, Carries-update_row}

count_job-Evolves :
    (chunks : ℕ) (errors : List ℕ) (sync : SourceSync) → Evolves sync (count_job chunks errors sync)
unfolding count_job
count_job-Evolves chunks errors sync = ground arith

update_sync-Carries :
    (chunks : ℕ) (errors : List ℕ) (sync_id : Option ℕ) (job : IndexJob) (db : Database)
    → job.sync_id ≡ sync_id
    → Carries db.syncs (update_sync chunks errors job db).syncs
unfolding update_sync
update_sync-Carries chunks errors none job db h = rw (h, update_sync) (Carries-refl db.syncs)
update_sync-Carries chunks errors (some k) job db h =
    elim (Option-cases (find_row SourceSync.id k db.syncs)) [
      | inl e ↦ rw (h, update_sync, e) (Carries-refl db.syncs)
      | inr (sync, e) ↦
          rw (h, update_sync, e)
            (Carries-update_row k (count_job chunks errors) db.syncs {r = sync} e
              (count_job-Evolves chunks errors sync))
    ]

after_attempt-Carries :
    (outcome : IndexOutcome) (job : IndexJob) (db : Database)
    → Carries db.syncs (after_attempt outcome job db).syncs
unfolding after_attempt log
after_attempt-Carries (indexed chunks []) job db = update_sync-Carries chunks [] _ job db refl
after_attempt-Carries (indexed chunks (e ∷ es)) job db =
    update_sync-Carries chunks (e ∷ es) _ job db refl
after_attempt-Carries (threw x) job db =
    by_cases (λ d. Carries db.syncs (Database.syncs d)) (is_open job.status) _ _
      (λ _. Carries-refl db.syncs) (λ _. Carries-refl db.syncs)
after_attempt-Carries cut_off job db = Carries-refl db.syncs

execute_row-Carries :
    (settings : Settings) (now : ℕ) (outcome : IndexOutcome) (job : IndexJob) (db : Database)
    → Carries db.syncs (execute_row settings now outcome job db).0.syncs
unfolding execute_row
execute_row-Carries settings now outcome job db =
    by_cases (λ d. Carries db.syncs (Database.syncs d)) (is_attempted settings job) _ _
      (λ _. after_attempt-Carries outcome _ _) (λ _. Carries-refl db.syncs)

pub execute_index_document_job-Carries :
    (settings : Settings) (now : ℕ) (locked : Bool) (outcome : IndexOutcome) (k : ℕ) (db : Database)
    → Carries db.syncs (execute_index_document_job settings now locked outcome k db).0.syncs
unfolding execute_index_document_job
execute_index_document_job-Carries settings now true outcome k db = Carries-refl db.syncs
execute_index_document_job-Carries settings now false outcome k db =
    elim (Option-cases (find_row IndexJob.id k db.index_jobs)) [
      | inl e ↦ rw (e, execute_index_document_job) (Carries-refl db.syncs)
      | inr (job, e) ↦
          rw (e, execute_index_document_job) (execute_row-Carries settings now outcome job db)
    ]
