-- ===== src/Sync/Settling/Progress.antt =====
-- A source whose sync is finished leaves `indexing` when its jobs are delivered.
use ops_incident_core.Prelude.{
  ℕ, ◌≡◌, inl, inr, refl, true, false, ◌&&◌, some, none, List, [], ◌∷◌, arith, All, map, Option,
  Bool-cases, Option-cases, is_some, subst, sym, ap, ◌∙◌,
}
use ops_incident_core.Settings.{Settings}
use ops_incident_core.Db.{
  Database, IndexJob, Source, SourceSync, find_row, update_row, find_row-key, find_row-All,
}
use ops_incident_core.Worker.IndexJob.Row.{indexed, run_index_job}
use ops_incident_core.Worker.IndexJob.Handler.{
  in_sync, is_open, is_attempted, has_open_jobs, has_failed_jobs, settle,
}
use ops_incident_core.Worker.IndexJob.Sync.{
  execute_row-index_jobs, execute_found, execute_missing, run_index_job_home,
}
use ops_incident_core.Sync.Lifecycle.Delivering.{execute_index_document_job-Carries}
use ops_incident_core.Sync.Settling.Tables.{
  IsSettled, settle-IsSettled, has_open_jobs-update_row, IsDue, HasUniqueIds, IsDue-missing,
  IsDue-update_row, HasUniqueIds-update_row, none_due,
}
use ops_incident_core.Sync.Settling.Deliveries.{
  Delivery, deliver_indexed, deliver_all, run_index_job_closes, run_index_job-id,
  deliver_indexed-Moves, execute_row_settles,
}

in_sync_lem : (n : ℕ) (o : Option ℕ) → in_sync n o ≡ true → o ≡ some n
in_sync_lem n none h = cc
in_sync_lem n (some j) h = ground arith

-- The delivery that ends the last open job of a finished sync settles its source: in error when a
-- job of the sync has failed and ready otherwise, whatever the status of the sync is.
pub deliver_indexed_settles :
    (settings : Settings) (d : Delivery) (n : ℕ) (db : Database) {job : IndexJob}
    {sync : SourceSync} {s : Source}
    → find_row IndexJob.id d.index_job_id db.index_jobs ≡ some job
    → job.sync_id ≡ some n
    → is_attempted settings job ≡ true
    → find_row SourceSync.id n db.syncs ≡ some sync
    → is_some sync.finished_at ≡ true
    → find_row Source.id job.source_id db.sources ≡ some s
    → let db' = deliver_indexed settings d db in
      has_open_jobs n db'.index_jobs ≡ false
      → find_row Source.id job.source_id db'.sources
        ≡ some (settle (has_failed_jobs n db'.index_jobs) s)
unfolding deliver_indexed
deliver_indexed_settles settings d n db {job} {sync} {s} ej m a e f es =
    subst
      (λ p.
        has_open_jobs n (Database.index_jobs p.0) ≡ false
        → find_row Source.id job.source_id (Database.sources p.0)
          ≡ some (settle (has_failed_jobs n (Database.index_jobs p.0)) s))
      (sym (execute_found settings d.now (indexed d.chunks_created d.errors) d.index_job_id db ej))
      (execute_row_settles settings d.now d.chunks_created d.errors n job.source_id job db
        {sync = sync} {s = s} m refl a e f es)

-- The table of jobs after a delivery.
deliver_indexed-missing :
    (settings : Settings) (d : Delivery) (db : Database)
    → find_row IndexJob.id d.index_job_id db.index_jobs ≡ none
    → (deliver_indexed settings d db).index_jobs ≡ db.index_jobs
unfolding deliver_indexed
deliver_indexed-missing settings d db e =
    ap (λ p. Database.index_jobs p.0)
      (execute_missing settings d.now (indexed d.chunks_created d.errors) d.index_job_id db e)

deliver_indexed-found :
    (settings : Settings) (d : Delivery) (db : Database) {job : IndexJob}
    → find_row IndexJob.id d.index_job_id db.index_jobs ≡ some job
    → (deliver_indexed settings d db).index_jobs
      ≡ update_row IndexJob.id d.index_job_id
          (λ _. (run_index_job settings d.now (indexed d.chunks_created d.errors) job).0)
          db.index_jobs
unfolding deliver_indexed
deliver_indexed-found settings d db {job} e =
    let outcome = indexed d.chunks_created d.errors in
    let key = find_row-key IndexJob.id d.index_job_id db.index_jobs e in
    ap (λ p. Database.index_jobs p.0) (execute_found settings d.now outcome d.index_job_id db e)
    ∙ execute_row-index_jobs settings d.now outcome job db
    ∙ ap
        (λ k.
          update_row IndexJob.id k (λ _. (run_index_job settings d.now outcome job).0)
            db.index_jobs)
        key

-- What is kept from one delivery to the next while a job of the sync is open.
record IsWaiting (settings : Settings) (n q : ℕ) (ds : List Delivery) (db : Database) : Type 0 where
  sync : SourceSync
  source : Source
  sync_found : find_row SourceSync.id n db.syncs ≡ some sync
  sync_finished : is_some sync.finished_at ≡ true
  source_found : find_row Source.id q db.sources ≡ some source
  unique : HasUniqueIds db.index_jobs
  due : All (IsDue settings n q (map Delivery.index_job_id ds)) db.index_jobs

IsWaiting-tables :
    (settings : Settings) (n q : ℕ) (d : Delivery) (ds : List Delivery) (db : Database)
    → IsWaiting settings n q (d ∷ ds) db
    → HasUniqueIds (deliver_indexed settings d db).index_jobs
      × All
          (IsDue settings n q (map Delivery.index_job_id ds))
          (deliver_indexed settings d db).index_jobs
IsWaiting-tables settings n q d ds db w =
    let k = d.index_job_id in
    let ks = map Delivery.index_job_id ds in
    elim (Option-cases (find_row IndexJob.id k db.index_jobs)) [
      | inl e ↦
          rw (deliver_indexed-missing settings d db e)
            (w.unique, IsDue-missing settings n q k ks db.index_jobs e w.due)
      | inr (job, e) ↦
          let outcome = indexed d.chunks_created d.errors in
          let job' = (run_index_job settings d.now outcome job).0 in
          let (same_sync, same_source) = run_index_job_home settings d.now outcome job in
          let due =
            find_row-All IndexJob.id (IsDue settings n q (k ∷ ks)) k db.index_jobs w.due e in
          let key : job'.id ≡ k =
            run_index_job-id settings d.now outcome job
            ∙ find_row-key IndexJob.id k db.index_jobs e in
          rw (deliver_indexed-found settings d db {job = job} e) (
            HasUniqueIds-update_row k db.index_jobs job' key w.unique,
            IsDue-update_row settings n q k ks db.index_jobs job job' e key
                (λ m.
                  run_index_job_closes settings d.now d.chunks_created d.errors job
                    (λ o. ((due (rw (← same_sync) m)).1 o).0))
                same_sync same_source w.unique w.due,
          )
    ]

IsWaiting-next :
    (settings : Settings) (n q : ℕ) (d : Delivery) (ds : List Delivery) (db : Database)
    → IsWaiting settings n q (d ∷ ds) db
    → IsWaiting settings n q ds (deliver_indexed settings d db)
unfolding deliver_indexed
IsWaiting-next settings n q d ds db w =
    let outcome = indexed d.chunks_created d.errors in
    let (t, found, v) =
      execute_index_document_job-Carries settings d.now false outcome d.index_job_id db n w.sync
        w.sync_found in
    let (s, found', _) = deliver_indexed-Moves settings q d db w.source w.source_found in
    let (unique, due) = IsWaiting-tables settings n q d ds db w in
    record {
      sync = t;
      source = s;
      sync_found = found;
      sync_finished = rw ((v.kept w.sync_finished).0) w.sync_finished;
      source_found = found';
      unique = unique;
      due = due;
    }

-- A delivery after which no job is open any more has ended the last one.
last_delivery :
    (settings : Settings) (n q : ℕ) (d : Delivery) (ds : List Delivery) (db : Database)
    → IsWaiting settings n q (d ∷ ds) db
    → has_open_jobs n db.index_jobs ≡ true
    → has_open_jobs n (deliver_indexed settings d db).index_jobs ≡ false
    → (s : Source) × (find_row Source.id q (deliver_indexed settings d db).sources ≡ some s)
      × IsSettled s
last_delivery settings n q d ds db w o c =
    let k = d.index_job_id in
    elim (Option-cases (find_row IndexJob.id k db.index_jobs)) [
      | inl e ↦ absurd (cc (rw (deliver_indexed-missing settings d db e) at c, o))
      | inr (job, e) ↦
          let outcome = indexed d.chunks_created d.errors in
          let job' = (run_index_job settings d.now outcome job).0 in
          let (same_sync, _) = run_index_job_home settings d.now outcome job in
          let due =
            find_row-All IndexJob.id (IsDue settings n q (k ∷ map Delivery.index_job_id ds)) k
              db.index_jobs w.due e in
          elim (Bool-cases (in_sync n job.sync_id && is_open job.status)) [
            | inl t ↦
                let m : in_sync n job.sync_id ≡ true = ground arith in
                let u : is_open job.status ≡ true = ground arith in
                let home = (due m).0 in
                (
                  settle (has_failed_jobs n (deliver_indexed settings d db).index_jobs) w.source,
                  subst
                      (λ x.
                        find_row Source.id x (deliver_indexed settings d db).sources
                        ≡ some (
                            settle (has_failed_jobs n (deliver_indexed settings d db).index_jobs)
                              w.source))
                      home
                      (deliver_indexed_settles settings d n db {job = job} {sync = w.sync}
                        {s = w.source} e (in_sync_lem n job.sync_id m) ((due m).1 u).0 w.sync_found
                        w.sync_finished (rw home w.source_found) c),
                  settle-IsSettled _ w.source,
                )
            | inr f ↦
                let closed : in_sync n job'.sync_id ≡ true → is_open job'.status ≡ false = λ m.
                  run_index_job_closes settings d.now d.chunks_created d.errors job
                    (λ v. ((due (rw (← same_sync) m)).1 v).0) in
                let same : has_open_jobs n (deliver_indexed settings d db).index_jobs
                    ≡ has_open_jobs n db.index_jobs =
                  ap (has_open_jobs n) (deliver_indexed-found settings d db {job = job} e)
                  ∙ has_open_jobs-update_row n k db.index_jobs job job' e (ground arith) in
                absurd (cc (same, o, c))
          ]
    ]

deliver_all-IsSettled :
    (settings : Settings) (q : ℕ) (ds : List Delivery) (db : Database) (s : Source)
    → find_row Source.id q db.sources ≡ some s
    → IsSettled s
    → (s' : Source) × (find_row Source.id q (deliver_all settings ds db).sources ≡ some s')
      × IsSettled s'
unfolding deliver_all
deliver_all-IsSettled settings q [] db s e h = (s, e, h)
deliver_all-IsSettled settings q (d ∷ ds) db s e h =
    let (s', e', moved) = deliver_indexed-Moves settings q d db s e in
    deliver_all-IsSettled settings q ds (deliver_indexed settings d db) s' e'
      (elim moved [ inl same ↦ rw same h | inr settled ↦ settled ])

deliver_all_from :
    (settings : Settings) (n q : ℕ) (ds : List Delivery) (db : Database)
    → IsWaiting settings n q ds db
    → has_open_jobs n db.index_jobs ≡ true
    → (s : Source) × (find_row Source.id q (deliver_all settings ds db).sources ≡ some s)
      × IsSettled s
unfolding deliver_all
deliver_all_from settings n q [] db w o = absurd (cc (none_due settings n q db.index_jobs w.due, o))
deliver_all_from settings n q (d ∷ ds) db w o =
    elim (Bool-cases (has_open_jobs n (deliver_indexed settings d db).index_jobs)) [
      | inl t ↦
          deliver_all_from settings n q ds (deliver_indexed settings d db)
            (IsWaiting-next settings n q d ds db w) t
      | inr f ↦
          let (s, e, settled) = last_delivery settings n q d ds db w o f in
          deliver_all-IsSettled settings q ds (deliver_indexed settings d db) s e settled
    ]

-- A finished sync with open jobs does not leave its source in `indexing`: once every open job of
-- it has been delivered, among any other deliveries and in any order, the source is ready or in
-- error. The documents are indexed, with or without errors, each open job has an attempt left and
-- the current version, and the jobs have different identifiers.
pub deliver_all_settles :
    (settings : Settings) (n q : ℕ) (ds : List Delivery) (db : Database) {sync : SourceSync}
    {source : Source}
    → find_row SourceSync.id n db.syncs ≡ some sync
    → is_some sync.finished_at ≡ true
    → find_row Source.id q db.sources ≡ some source
    → HasUniqueIds db.index_jobs
    → All (IsDue settings n q (map Delivery.index_job_id ds)) db.index_jobs
    → has_open_jobs n db.index_jobs ≡ true
    → (s : Source) × (find_row Source.id q (deliver_all settings ds db).sources ≡ some s)
      × IsSettled s
deliver_all_settles settings n q ds db {sync} {source} ey f es u d =
    deliver_all_from settings n q ds db (record {
      sync = sync;
      source = source;
      sync_found = ey;
      sync_finished = f;
      source_found = es;
      unique = u;
      due = d;
    })
