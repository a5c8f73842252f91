-- ===== src/Sync/Lifecycle/Phases.antt =====
-- What the API promises of a sync, with the counters left out: it is open, and is closed once.
use ops_incident_core.Prelude.{
  ℕ, ◌≡◌, ◌≢◌, refl, Option, none, some, List, is_some, true, false, ◌⊎◌, [], ◌∷◌, inl, inr,
}
use ops_incident_core.Settings.{Settings}
use ops_incident_core.Db.{SourceSync, SyncStatus, find_row}
use ops_incident_core.Api.Store.{Store}
use ops_incident_core.Ingestion.Documents.{NormalizedDocument}
use ops_incident_core.Sync.Diagnostics.{BatchIngestResult}
use ops_incident_core.Sync.Lifecycle.Rows.{Evolves}
use ops_incident_core.Sync.Lifecycle.Actions.{Action, act, act-Carries, run}

pub data Phase : Type 0 where
  unfinished : Phase
  finished : (status : SyncStatus) → (at : ℕ) → Phase

-- The abstract machine.
infix 40 ◌⟶◌ ◌⟶*◌
pub data ◌⟶◌ : Phase → Phase → Type 0 where
  stay : {p : Phase} → p ⟶ p
  close :
      {status : SyncStatus} {at : ℕ} → status ≢ SyncStatus.running → unfinished ⟶ finished status at

pub data ◌⟶*◌ : Phase → Phase → Type 0 where
  here : {p : Phase} → p ⟶* p
  then : {p q r : Phase} → p ⟶ q → q ⟶* r → p ⟶* r

-- The phase that a row is in.
abbrev phase_of : Option ℕ → SyncStatus → Phase
phase_of none status = unfinished
phase_of (some t) status = finished status t

unfoldable pub phase : SourceSync → Phase
phase sync = phase_of sync.finished_at sync.status

phase_step :
    (f g : Option ℕ) (a b : SyncStatus)
    → (is_some f ≡ true → (g ≡ f) × (b ≡ a))
    → (is_some f ≡ false → ((g ≡ f) × (b ≡ a)) ⊎ ((is_some g ≡ true) × (b ≢ SyncStatus.running)))
    → phase_of f a ⟶ phase_of g b
phase_step (some t) g a b kept closed = let (e, e') = kept refl in rw (e, e') stay
phase_step none none a b kept closed = stay
phase_step none (some t) a b kept closed = elim (closed refl) [
  | inl same ↦ cc (same.0)
  | inr now ↦ close (now.1)
]

Evolves-⟶ : (s t : SourceSync) → Evolves s t → phase s ⟶ phase t
unfolding phase
Evolves-⟶ s t v = phase_step s.finished_at t.finished_at s.status t.status v.kept v.closed

-- A closed phase is the last one.
⟶*-finished : {p q : Phase} {status : SyncStatus} {at : ℕ} → p ≡ finished status at → p ⟶* q → q ≡ p
⟶*-finished e here = refl
⟶*-finished e (then stay r) = ⟶*-finished e r
⟶*-finished e (then (close n) r) = cc

module _ (settings : Settings) (indexer : List NormalizedDocument → BatchIngestResult) where
  run-phase :
      (actions : List Action) (store : Store) (k : ℕ) (s : SourceSync)
      → find_row SourceSync.id k store.database.syncs ≡ some s
      → (t : SourceSync) × (find_row SourceSync.id k
            (run settings indexer actions store).database.syncs
          ≡ some t)
        × (phase s ⟶* phase t)
  unfolding run
  run-phase [] store k s e = (s, e, here)
  run-phase (action ∷ actions) store k s e =
      let (t, e', v) = act-Carries settings indexer action store k s e in
      let (u, e'', path) = run-phase actions (act settings indexer action store) k t e' in
      (u, e'', then (Evolves-⟶ s t v) path)

  -- The routes and the worker's handler implement the machine of two phases: along any sequence
  -- of requests and deliveries the row of a sync is found, and its phase makes steps of the
  -- machine only; once it is finished it makes no more.
  pub run_refines :
      (actions : List Action) (store : Store) (k : ℕ) (s : SourceSync)
      → find_row SourceSync.id k store.database.syncs ≡ some s
      → (t : SourceSync) × (find_row SourceSync.id k
            (run settings indexer actions store).database.syncs
          ≡ some t)
        × (phase s ⟶* phase t)
        × ((status : SyncStatus) (at : ℕ) → phase s ≡ finished status at → phase t ≡ phase s)
  run_refines actions store k s e =
      let (t, e', path) = run-phase actions store k s e in
      (t, e', path, λ status at f. ⟶*-finished f path)
