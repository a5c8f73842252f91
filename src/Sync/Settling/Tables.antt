-- ===== src/Sync/Settling/Tables.antt =====
-- One delivery, seen from the tables of jobs and of sources.
use ops_incident_core.Prelude.{
  ℕ, ◌≡◌, ◌⊎◌, inl, inr, refl, Bool, true, false, ◌&&◌, some, none, List, [], ◌∷◌, arith, any, All,
  Bool-cases, ◌==◌, ==_iff, sym, ap, ◌∙◌,
}
use ops_incident_core.Settings.{Settings}
use ops_incident_core.Db.{IndexJob, Source, SourceStatus, find_row, update_row, update_row-All}
use ops_incident_core.Worker.IndexJob.Handler.{
  in_sync, is_open, is_attempted, has_open_jobs, settle,
}

abbrev pub IsSettled : Source → Type 0
IsSettled s = (s.status ≡ SourceStatus.ready) ⊎ (s.status ≡ SourceStatus.error)

pub settle-IsSettled : (b : Bool) (s : Source) → IsSettled (settle b s)
unfolding settle
settle-IsSettled true s = inr refl
settle-IsSettled false s = inl refl

pub settle-id : (b : Bool) (s : Source) → (settle b s).id ≡ s.id
unfolding settle
settle-id true s = refl
settle-id false s = refl

-- Settling one source leaves every other one as it is.
pub update_row-settle :
    (q k : ℕ) (b : Bool) (sources : List Source) {s : Source}
    → find_row Source.id q sources ≡ some s
    → (s' : Source) × (find_row Source.id q (update_row Source.id k (settle b) sources) ≡ some s')
      × ((s' ≡ s) ⊎ IsSettled s')
update_row-settle q k b [] e = cc
update_row-settle q k b (x ∷ xs) {s} e = elim (Bool-cases (x.id == q)) [
  | inl t ↦ elim (Bool-cases (x.id == k)) [
    | inl u ↦ (settle b x, rw (u, settle-id b x, t) refl, inr (settle-IsSettled b x))
    | inr v ↦ (s, rw (v, t) (rw t at e), inl refl)
  ]
  | inr f ↦ elim (Bool-cases (x.id == k)) [
    | inl u ↦ (s, rw (u, settle-id b x, f) (rw f at e), inl refl)
    | inr v ↦ rw (v, f) (update_row-settle q k b xs {s = s} (rw f at e))
  ]
]

-- A job that counts as open neither before nor after its row is replaced.
pub has_open_jobs-update_row :
    (n k : ℕ) (jobs : List IndexJob) (job job' : IndexJob)
    → find_row IndexJob.id k jobs ≡ some job
    → (in_sync n job.sync_id && is_open job.status)
      ≡ (in_sync n job'.sync_id && is_open job'.status)
    → has_open_jobs n (update_row IndexJob.id k (λ _. job') jobs) ≡ has_open_jobs n jobs
unfolding has_open_jobs
has_open_jobs-update_row n k [] job job' e h = cc
has_open_jobs-update_row n k (x ∷ xs) job job' e h = elim (Bool-cases (x.id == k)) [
  | inl t ↦ let same : x ≡ job = cc (rw t at e) in rw (t, same, h) refl
  | inr f ↦ rw (f, has_open_jobs-update_row n k xs job job' (rw f at e) h) refl
]

-- No two rows have the same key.
abbrev pub HasUniqueIds : List IndexJob → Type 0
HasUniqueIds [] = Unit
HasUniqueIds (j ∷ js) = All (λ i. (i.id == j.id) ≡ false) js × HasUniqueIds js

pub HasUniqueIds-update_row :
    (k : ℕ) (js : List IndexJob) (job' : IndexJob)
    → job'.id ≡ k
    → HasUniqueIds js
    → HasUniqueIds (update_row IndexJob.id k (λ _. job') js)
HasUniqueIds-update_row k [] job' i u = tt
HasUniqueIds-update_row k (x ∷ xs) job' i u = elim (Bool-cases (x.id == k)) [
  | inl t ↦ rw (t, i, ← (==_iff x.id k).0 t) u
  | inr f ↦ rw f (
    update_row-All IndexJob.id (λ j. (j.id == x.id) ≡ false) k (λ _. job') xs (λ _ _. ground arith)
        u.0,
    HasUniqueIds-update_row k xs job' i u.1,
  )
]

module _ (settings : Settings) (n q : ℕ) where
  -- A job of the sync belongs to the source, and while it is open, it has an attempt left and is
  -- among those that are still delivered.
  abbrev pub IsDue : List ℕ → IndexJob → Type 0
  IsDue ks j =
      in_sync n j.sync_id ≡ true
      → (j.source_id ≡ q)
        × (is_open j.status ≡ true
            → (is_attempted settings j ≡ true) × (any (λ k. k == j.id) ks ≡ true))

  IsDue-skip :
      (k : ℕ) (ks : List ℕ) (j : IndexJob) → (j.id == k) ≡ false → IsDue (k ∷ ks) j → IsDue ks j
  IsDue-skip k ks j f d i = ground arith

  IsDue-skip-All :
      (k : ℕ) (ks : List ℕ) (js : List IndexJob)
      → All (λ j. (j.id == k) ≡ false) js
      → All (IsDue (k ∷ ks)) js
      → All (IsDue ks) js
  IsDue-skip-All k ks [] h d = tt
  IsDue-skip-All k ks (j ∷ js) h d = (IsDue-skip k ks j h.0 d.0, IsDue-skip-All k ks js h.1 d.1)

  other_ids :
      (k : ℕ) (js : List IndexJob)
      → find_row IndexJob.id k js ≡ none
      → All (λ j. (j.id == k) ≡ false) js
  other_ids k [] e = tt
  other_ids k (j ∷ js) e = elim (Bool-cases (j.id == k)) [
    | inl t ↦ absurd (cc (rw t at e))
    | inr f ↦ (f, other_ids k js (rw f at e))
  ]

  -- The delivery of a job that is not in the table, and of one whose row is replaced.
  pub IsDue-missing :
      (k : ℕ) (ks : List ℕ) (js : List IndexJob)
      → find_row IndexJob.id k js ≡ none
      → All (IsDue (k ∷ ks)) js
      → All (IsDue ks) js
  IsDue-missing k ks js e d = IsDue-skip-All k ks js (other_ids k js e) d

  pub IsDue-update_row :
      (k : ℕ) (ks : List ℕ) (js : List IndexJob) (job job' : IndexJob)
      → find_row IndexJob.id k js ≡ some job
      → job'.id ≡ k
      → (in_sync n job'.sync_id ≡ true → is_open job'.status ≡ false)
      → job'.sync_id ≡ job.sync_id
      → job'.source_id ≡ job.source_id
      → HasUniqueIds js
      → All (IsDue (k ∷ ks)) js
      → All (IsDue ks) (update_row IndexJob.id k (λ _. job') js)
  IsDue-update_row k ks [] job job' e i o y s u d = cc
  IsDue-update_row k ks (x ∷ xs) job job' e i o y s u d = elim (Bool-cases (x.id == k)) [
    | inl t ↦
        let same : x ≡ job = cc (rw t at e) in
        let key : x.id ≡ k = (==_iff x.id k).0 t in
        rw t (
          (λ m. (
            s ∙ ap IndexJob.source_id (sym same) ∙ (d.0 (rw (ap IndexJob.sync_id same, ← y) m)).0,
            λ p. absurd (cc (o m, p)),
          )),
          IsDue-skip-All k ks xs (rw (← key) u.0) d.1,
        )
    | inr f ↦
        rw f
          (IsDue-skip k ks x f d.0, IsDue-update_row k ks xs job job' (rw f at e) i o y s u.1 d.1)
  ]

  pub none_due : (js : List IndexJob) → All (IsDue []) js → has_open_jobs n js ≡ false
  unfolding has_open_jobs
  none_due [] d = refl
  none_due (j ∷ js) d = ground (arith, none_due js)
