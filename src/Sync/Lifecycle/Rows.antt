-- ===== src/Sync/Lifecycle/Rows.antt =====
-- How a row of `source_syncs` may change, and tables whose rows all change in this way.
use ops_incident_core.Prelude.{
  ℕ, ◌≤◌, ◌≡◌, ◌≢◌, ◌⊎◌, inl, inr, refl, subst, some, List, [], ◌∷◌, ◌++◌, arith, Bool-cases, ◌==◌,
  is_some, true, false,
}
use ops_incident_core.Db.{SourceSync, SyncStatus, find_row, update_row}

-- A finished row keeps its status and time, an open one stays as it is or is closed with another
-- status than `running`, and no counter falls.
pub record Evolves (s t : SourceSync) : Type 0 where
  pub same_id : t.id ≡ s.id
  pub same_source : t.source_id ≡ s.source_id
  pub same_start : t.started_at ≡ s.started_at
  pub received : s.documents_received ≤ t.documents_received
  pub chunks : s.chunks_created ≤ t.chunks_created
  pub errors : s.parser_errors ≤ t.parser_errors
  pub kept : is_some s.finished_at ≡ true → (t.finished_at ≡ s.finished_at) × (t.status ≡ s.status)
  pub closed :
      is_some s.finished_at ≡ false
      → ((t.finished_at ≡ s.finished_at) × (t.status ≡ s.status))
        ⊎ ((is_some t.finished_at ≡ true) × (t.status ≢ SyncStatus.running))

pub Evolves-refl : (s : SourceSync) → Evolves s s
Evolves-refl s = ground arith

pub Evolves-trans : (s t u : SourceSync) → Evolves s t → Evolves t u → Evolves s u
Evolves-trans s t u h g = ground arith

-- Every row of the first table is in the second one, as it has evolved.
abbrev pub Carries : List SourceSync → List SourceSync → Type 0
Carries rows rows' =
    (k : ℕ) (s : SourceSync)
    → find_row SourceSync.id k rows ≡ some s
    → (t : SourceSync) × (find_row SourceSync.id k rows' ≡ some t) × Evolves s t

pub Carries-refl : (rows : List SourceSync) → Carries rows rows
Carries-refl rows k s e = (s, e, Evolves-refl s)

pub Carries-trans :
    (rows rows' rows'' : List SourceSync)
    → Carries rows rows'
    → Carries rows' rows''
    → Carries rows rows''
Carries-trans rows rows' rows'' h g k s e =
    let (t, e', v) = h k s e in let (u, e'', w) = g k t e' in (u, e'', Evolves-trans s t u v w)

pub Carries-append : (rows new : List SourceSync) → Carries rows (rows ++ new)
Carries-append [] new k s e = cc
Carries-append (r ∷ rows) new k s e = elim (Bool-cases (r.id == k)) [
  | inl t ↦ (s, rw (t) (rw t at e), Evolves-refl s)
  | inr f ↦ rw f (Carries-append rows new k s (rw f at e))
]

-- The first row, where it is the one that changes, and where it is not.
update_head :
    (f : SourceSync → SourceSync) (x : SourceSync) (rows : List SourceSync)
    → Evolves x (f x)
    → Carries (x ∷ rows) (f x ∷ rows)
update_head f x rows v k s e = elim (Bool-cases (x.id == k)) [
  | inl t ↦
      let same : x ≡ s = cc (rw t at e) in
      (f x, rw (v.same_id, t) refl, subst (λ z. Evolves z (f x)) same v)
  | inr g ↦ (s, rw (v.same_id, g) (rw g at e), Evolves-refl s)
]

update_tail :
    (x : SourceSync) (rows rows' : List SourceSync)
    → Carries rows rows'
    → Carries (x ∷ rows) (x ∷ rows')
update_tail x rows rows' h k s e = elim (Bool-cases (x.id == k)) [
  | inl t ↦ (s, rw t (rw t at e), Evolves-refl s)
  | inr g ↦ rw g (h k s (rw g at e))
]

pub Carries-update_row :
    (j : ℕ) (f : SourceSync → SourceSync) (rows : List SourceSync) {r : SourceSync}
    → find_row SourceSync.id j rows ≡ some r
    → Evolves r (f r)
    → Carries rows (update_row SourceSync.id j f rows)
Carries-update_row j f [] e v = λ k s e'. cc
Carries-update_row j f (x ∷ rows) {r} e v = elim (Bool-cases (x.id == j)) [
  | inl t ↦
      let same : r ≡ x = cc (rw t at e) in
      rw t (update_head f x rows (subst (λ z. Evolves z (f z)) same v))
  | inr g ↦ rw g (update_tail x rows _ (Carries-update_row j f rows {r = r} (rw g at e) v))
]
