-- ===== src/Sync/Settling/Deliveries.antt =====
-- Deliveries one after another, each of a job whose document is indexed, with or without errors.
use ops_incident_core.Prelude.{
  ℕ, ◌≡◌, ◌⊎◌, inl, inr, refl, true, false, ◌&&◌, some, none, List, [], ◌∷◌, arith, not, Option,
  by_cases, Option-cases, is_some, subst, sym, ◌∙◌,
}
use ops_incident_core.Settings.{Settings}
use ops_incident_core.Db.{
  Database, IndexJob, Source, SourceSync, find_row, update_row, find_row-key, find_row-update_row,
}
use ops_incident_core.Worker.IndexJob.Row.{IndexOutcome, indexed, threw, cut_off, run_index_job}
use ops_incident_core.Worker.IndexJob.Handler.{
  is_open, is_attempted, has_open_jobs, has_failed_jobs, settle, settle_source, update_sync, log,
  after_attempt, execute_row, execute_index_document_job,
}
use ops_incident_core.Worker.IndexJob.Sync.{
  execute_row-index_jobs, execute_found, execute_missing, run_index_job_home,
}
use ops_incident_core.Sync.Settling.Tables.{IsSettled, settle-id, update_row-settle}

-- A delivery, with what the indexer returns for its document.
pub record Delivery : Type 0 where
  pub now : ℕ
  pub index_job_id : ℕ
  pub chunks_created : ℕ
  pub errors : List ℕ

unfoldable pub deliver_indexed : Settings → Delivery → Database → Database
deliver_indexed settings d db =
    (execute_index_document_job settings d.now false (indexed d.chunks_created d.errors)
      d.index_job_id db).0

unfoldable pub deliver_all : Settings → List Delivery → Database → Database
deliver_all settings [] db = db
deliver_all settings (d ∷ ds) db = deliver_all settings ds (deliver_indexed settings d db)

-- The row after a delivery is not open: an open one that is attempted ends, another one stays.
pub run_index_job_closes :
    (settings : Settings) (now chunks : ℕ) (errors : List ℕ) (job : IndexJob)
    → (is_open job.status ≡ true → is_attempted settings job ≡ true)
    → is_open (run_index_job settings now (indexed chunks errors) job).0.status ≡ false
unfolding run_index_job is_attempted
run_index_job_closes settings now chunks [] job h = ground arith
run_index_job_closes settings now chunks (e ∷ es) job h = ground arith

pub run_index_job-id :
    (settings : Settings) (now : ℕ) (outcome : IndexOutcome) (job : IndexJob)
    → (run_index_job settings now outcome job).0.id ≡ job.id
unfolding run_index_job
run_index_job-id settings now (indexed chunks []) job = ground arith
run_index_job-id settings now (indexed chunks (e ∷ es)) job = ground arith
run_index_job-id settings now (threw x) job = ground arith
run_index_job-id settings now cut_off job = ground arith

-- What a delivery may do to a source: nothing, or settle it.
abbrev pub Moves : ℕ → List Source → List Source → Type 0
Moves q sources sources' =
    (s : Source)
    → find_row Source.id q sources ≡ some s
    → (s' : Source) × (find_row Source.id q sources' ≡ some s') × ((s' ≡ s) ⊎ IsSettled s')

Moves-refl : (q : ℕ) (sources : List Source) → Moves q sources sources
Moves-refl q sources s e = (s, e, inl refl)

settle_source-Moves :
    (q : ℕ) (jobs : List IndexJob) (sync : SourceSync) (k : ℕ) (sources : List Source)
    → Moves q sources (settle_source jobs sync k sources)
unfolding settle_source
settle_source-Moves q jobs sync k sources =
    by_cases (Moves q sources) (is_some sync.finished_at && not (has_open_jobs sync.id jobs)) _ _
      (λ _ s e. update_row-settle q k (has_failed_jobs sync.id jobs) sources {s = s} e)
      (λ _. Moves-refl q sources)

update_sync-Moves :
    (q chunks : ℕ) (errors : List ℕ) (sync_id : Option ℕ) (job : IndexJob) (db : Database)
    → job.sync_id ≡ sync_id
    → Moves q db.sources (update_sync chunks errors job db).sources
unfolding update_sync
update_sync-Moves q chunks errors none job db h = rw (h, update_sync) (Moves-refl q db.sources)
update_sync-Moves q chunks errors (some k) job db h =
    elim (Option-cases (find_row SourceSync.id k db.syncs)) [
      | inl e ↦ rw (h, update_sync, e) (Moves-refl q db.sources)
      | inr (sync, e) ↦
          rw (h, update_sync, e) (settle_source-Moves q db.index_jobs sync job.source_id db.sources)
    ]

after_attempt-Moves :
    (q chunks : ℕ) (errors : List ℕ) (job : IndexJob) (db : Database)
    → Moves q db.sources (after_attempt (indexed chunks errors) job db).sources
unfolding after_attempt log
after_attempt-Moves q chunks [] job db = update_sync-Moves q chunks [] _ job db refl
after_attempt-Moves q chunks (e ∷ es) job db = update_sync-Moves q chunks (e ∷ es) _ job db refl

execute_row-Moves :
    (settings : Settings) (now q chunks : ℕ) (errors : List ℕ) (job : IndexJob) (db : Database)
    → Moves q db.sources (execute_row settings now (indexed chunks errors) job db).0.sources
unfolding execute_row
execute_row-Moves settings now q chunks errors job db =
    by_cases (λ d. Moves q db.sources (Database.sources d)) (is_attempted settings job) _ _
      (λ _. after_attempt-Moves q chunks errors _ _) (λ _. Moves-refl q db.sources)

pub deliver_indexed-Moves :
    (settings : Settings) (q : ℕ) (d : Delivery) (db : Database)
    → Moves q db.sources (deliver_indexed settings d db).sources
unfolding deliver_indexed
deliver_indexed-Moves settings q d db =
    let outcome = indexed d.chunks_created d.errors in
    elim (Option-cases (find_row IndexJob.id d.index_job_id db.index_jobs)) [
      | inl e ↦
          subst (λ p. Moves q db.sources (Database.sources p.0))
            (sym (execute_missing settings d.now outcome d.index_job_id db e))
            (Moves-refl q db.sources)
      | inr (job, e) ↦
          subst (λ p. Moves q db.sources (Database.sources p.0))
            (sym (execute_found settings d.now outcome d.index_job_id db e))
            (execute_row-Moves settings d.now q d.chunks_created d.errors job db)
    ]

-- The delivery that ends the last open job of a finished sync settles its source.
update_sync_settles :
    (chunks : ℕ) (errors : List ℕ) (n q : ℕ) (job : IndexJob) (db : Database) {sync : SourceSync}
    {s : Source}
    → job.sync_id ≡ some n
    → job.source_id ≡ q
    → find_row SourceSync.id n db.syncs ≡ some sync
    → is_some sync.finished_at ≡ true
    → has_open_jobs n db.index_jobs ≡ false
    → find_row Source.id q db.sources ≡ some s
    → find_row Source.id q (update_sync chunks errors job db).sources
      ≡ some (settle (has_failed_jobs n db.index_jobs) s)
unfolding update_sync settle_source
update_sync_settles chunks errors n q job db {sync} {s} m y e f o es =
    let key = find_row-key SourceSync.id n db.syncs e in
    rw (m, update_sync, e)
      (rw (y, f, key, o)
        (find_row-update_row Source.id q (settle (has_failed_jobs n db.index_jobs)) db.sources
          {r = s} (settle-id _ s ∙ find_row-key Source.id q db.sources es) es))

after_attempt_settles :
    (chunks : ℕ) (errors : List ℕ) (n q : ℕ) (job : IndexJob) (db : Database) {sync : SourceSync}
    {s : Source}
    → job.sync_id ≡ some n
    → job.source_id ≡ q
    → find_row SourceSync.id n db.syncs ≡ some sync
    → is_some sync.finished_at ≡ true
    → has_open_jobs n db.index_jobs ≡ false
    → find_row Source.id q db.sources ≡ some s
    → find_row Source.id q (after_attempt (indexed chunks errors) job db).sources
      ≡ some (settle (has_failed_jobs n db.index_jobs) s)
unfolding after_attempt log
after_attempt_settles chunks [] n q job db {sync} {s} =
    update_sync_settles chunks [] n q job db {sync = sync} {s = s}
after_attempt_settles chunks (e ∷ es) n q job db {sync} {s} =
    update_sync_settles chunks (e ∷ es) n q job db {sync = sync} {s = s}

pub execute_row_settles :
    (settings : Settings) (now chunks : ℕ) (errors : List ℕ) (n q : ℕ) (job : IndexJob)
    (db : Database) {sync : SourceSync} {s : Source}
    → job.sync_id ≡ some n
    → job.source_id ≡ q
    → is_attempted settings job ≡ true
    → find_row SourceSync.id n db.syncs ≡ some sync
    → is_some sync.finished_at ≡ true
    → find_row Source.id q db.sources ≡ some s
    → let db' = (execute_row settings now (indexed chunks errors) job db).0 in
      has_open_jobs n db'.index_jobs ≡ false
      → find_row Source.id q db'.sources ≡ some (settle (has_failed_jobs n db'.index_jobs) s)
unfolding execute_row
execute_row_settles settings now chunks errors n q job db {sync} {s} m y a e f es o =
    let outcome = indexed chunks errors in
    let job' = (run_index_job settings now outcome job).0 in
    let db' = record db { index_jobs = update_row IndexJob.id job.id (λ _. job') db.index_jobs } in
    let (same_sync, same_source) = run_index_job_home settings now outcome job in
    rw (execute_row-index_jobs settings now outcome job db) (
      rw (a, execute_row)
        (after_attempt_settles chunks errors n q job' db' {sync = sync} {s = s} (same_sync ∙ m)
          (same_source ∙ y) e f (rw (execute_row-index_jobs settings now outcome job db) at o) es))
