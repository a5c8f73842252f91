-- ===== src/Security/Roles.antt =====
-- Project roles: incidentops/security/permission_policy.py and rbac.py.
use ops_incident_core.Prelude.{
  ℕ, ◌≤◌, ◌<◌, Option-cases, Bool-cases, leb→le, ◌≡◌, ◌⊎◌, inl, inr, Bool, ◌&&◌, Option, none, some,
  List, [], ◌∷◌, ◌++◌, arith, if◌then◌else◌, ◌==◌, leb,
}

-- `ProjectRole`
pub data ProjectRole : Type 0 where
  viewer investigator approver admin : ProjectRole

-- `ROLE_ORDER`
unfoldable pub role_order : ProjectRole → ℕ
role_order viewer = 0
role_order investigator = 1
role_order approver = 2
role_order admin = 3

unfoldable pub role_allows : ProjectRole → ProjectRole → Bool
unfolding role_order
role_allows actual minimum = leb (role_order minimum) (role_order actual)

-- A row of `project_members`.
pub record ProjectMember : Type 0 where
  pub project_id : ℕ
  pub user_id : ℕ
  pub role : ProjectRole

unfoldable pub get_project_role : ℕ → ℕ → List ProjectMember → Option ProjectRole
get_project_role project_id user_id [] = none
get_project_role project_id user_id (m ∷ ms) =
    if m.project_id == project_id && m.user_id == user_id
    then some m.role
    else get_project_role project_id user_id ms

-- The audit row of a denial: the role that was required and the one that was held.
pub record Denial : Type 0 where
  pub project_id : ℕ
  pub user_id : ℕ
  pub required_role : ProjectRole
  pub actual_role : Option ProjectRole

-- The arguments of `record_permission_denied`.
abbrev pub denial : ℕ → ℕ → ProjectRole → Option ProjectRole → Denial
denial project_id user_id minimum actual = record {
  project_id = project_id;
  user_id = user_id;
  required_role = minimum;
  actual_role = actual;
}

-- The role, or the HTTP error 403.
pub data Access : Type 0 where
  granted : ProjectRole → Access
  forbidden : Access

unfoldable pub require_project_role :
    List ProjectMember → ℕ → ℕ → ProjectRole → List Denial → Access × List Denial
require_project_role members project_id user_id minimum denials =
    elim (get_project_role project_id user_id members) [
      | none ↦ (forbidden, denials ++ denial project_id user_id minimum none ∷ [])
      | some actual ↦
          if role_allows actual minimum
          then (granted actual, denials)
          else (forbidden, denials ++ denial project_id user_id minimum (some actual) ∷ [])
    ]

-- A request passes exactly when the member's role allows the minimum, and then nothing is
-- written; every refusal leaves exactly one audit row, with the role that was held.
pub require_project_role_lem :
    (members : List ProjectMember) (project_id user_id : ℕ) (minimum : ProjectRole)
    (denials : List Denial)
    → let (access, denials') = require_project_role members project_id user_id minimum denials in
      let held = get_project_role project_id user_id members in
      ((r : ProjectRole) × (held ≡ some r)
        × (role_order minimum ≤ role_order r)
        × (access ≡ granted r)
        × (denials' ≡ denials))
      ⊎ (((r : ProjectRole) → held ≡ some r → role_order r < role_order minimum)
          × (access ≡ forbidden)
          × (denials' ≡ denials ++ denial project_id user_id minimum held ∷ []))
unfolding require_project_role role_allows
require_project_role_lem members project_id user_id minimum denials =
    elim (Option-cases (get_project_role project_id user_id members)) [
      | inl e ↦ inr ((λ r h. cc), rw (e, require_project_role), rw (e, require_project_role))
      | inr (actual, e) ↦ elim (Bool-cases (leb (role_order minimum) (role_order actual))) [
        | inl t ↦ inl (
          actual,
          e,
          leb→le _ _ t,
          rw (e, require_project_role, role_allows, t),
          rw (e, require_project_role, role_allows, t),
        )
        | inr f ↦ inr (
          (λ r h. ground arith),
          rw (e, require_project_role, role_allows, f),
          rw (e, require_project_role, role_allows, f),
        )
      ]
    ]
