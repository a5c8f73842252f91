-- ===== src/Api/Access/Granted.antt =====
-- A check that has passed passes again, and writes nothing.
use ops_incident_core.Prelude.{
  ℕ, ◌≡◌, inl, inr, refl, some, List, arith, Option-cases, by_cases, ◌==◌, subst, ◌∙◌, ap,
}
use ops_incident_core.Db.{Source, SourceSync, find_row}
use ops_incident_core.Security.Roles.{
  ProjectRole, granted, require_project_role, require_project_role_lem,
}
use ops_incident_core.Api.Response.{ok}
use ops_incident_core.Api.Store.{Store}
use ops_incident_core.Api.Access.{authorize, require_sync}

abbrev IsAdmin : Store → ℕ → ℕ → Type 0
IsAdmin store project_id user_id =
    (r : ProjectRole) × (require_project_role store.members project_id user_id ProjectRole.admin
        store.denials
      ≡ (granted r, store.denials))

-- A role that is granted leaves no audit row, so that it is granted again.
authorize_found :
    (user_id source_id : ℕ) (store : Store) {source s : Source}
    → find_row Source.id source_id store.database.sources ≡ some s
    → (authorize user_id source_id store).1 ≡ ok source
    → ((authorize user_id source_id store).0 ≡ store)
      × (s ≡ source)
      × IsAdmin store s.project_id user_id
unfolding authorize
authorize_found user_id source_id store {source} {s} e h =
    elim (require_project_role_lem store.members s.project_id user_id ProjectRole.admin
      store.denials) [
        | inl (r, _, _, a, d) ↦
            (rw (e, authorize, d) refl, cc (rw (e, authorize, a) at h), (r, ground arith))
        | inr (_, a, d) ↦ absurd (cc (rw (e, authorize, a) at h))
      ]

pub authorize_ok :
    (user_id source_id : ℕ) (store : Store) {source : Source}
    → (authorize user_id source_id store).1 ≡ ok source
    → ((authorize user_id source_id store).0 ≡ store)
      × (find_row Source.id source_id store.database.sources ≡ some source)
      × IsAdmin store source.project_id user_id
unfolding authorize
authorize_ok user_id source_id store {source} h =
    elim (Option-cases (find_row Source.id source_id store.database.sources)) [
      | inl e ↦ absurd (cc (rw (e, authorize) at h))
      | inr (s, e) ↦
          let (same, is, admin) =
            authorize_found user_id source_id store {source = source} {s = s} e h in
          (same, e ∙ ap some is, subst (λ x. IsAdmin store (Source.project_id x) user_id) is admin)
    ]

pub authorize_again :
    (user_id source_id : ℕ) (store store' : Store) {source source' : Source}
    → (authorize user_id source_id store).1 ≡ ok source
    → store'.members ≡ store.members
    → store'.denials ≡ store.denials
    → find_row Source.id source_id store'.database.sources ≡ some source'
    → source'.project_id ≡ source.project_id
    → authorize user_id source_id store' ≡ (store', ok source')
unfolding authorize
authorize_again user_id source_id store store' {source} {source'} h m d e p =
    let (_, _, (r, er)) = authorize_ok user_id source_id store {source = source} h in
    let again : require_project_role store'.members source'.project_id user_id ProjectRole.admin
          store'.denials
        ≡ (granted r, store'.denials) =
      rw (p, m, d) er in
    rw (e, authorize, again) refl

pub require_sync_again :
    (k source_id : ℕ) (syncs : List SourceSync) {sync : SourceSync}
    → find_row SourceSync.id k syncs ≡ some sync
    → sync.source_id ≡ source_id
    → require_sync k source_id syncs ≡ ok sync
unfolding require_sync
require_sync_again k source_id syncs {sync} e h =
    rw (e, require_sync)
      (by_cases (λ r. r ≡ ok sync) (sync.source_id == source_id) _ _ (λ t. refl)
        (λ f. absurd (ground arith)))
