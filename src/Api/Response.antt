-- ===== src/Api/Response.antt =====
-- A handler ends with a value or with an `HTTPException`.
use ops_incident_core.Prelude.{◌≡◌, refl, Bool, true, false}

pub data HttpError : Type 0 where
  bad_request unauthorized forbidden not_found conflict too_large too_many_requests : HttpError

pub data Response {κ} (X : Type κ) : Type κ where
  ok : X → Response X
  err : HttpError → Response X

-- `if not test: raise HTTPException(...)`
abbrev pub guard : Bool → HttpError → Response (Unit {0})
guard passed error = elim passed [ true ↦ ok tt | false ↦ err error ]

-- What follows a check sees its value, or is not reached.
module _ {ℓ κ} {X : Type ℓ} {Y : Type κ} where
  infixl 5 ◌>>=◌
  abbrev pub ◌>>=◌ : Response X → (X → Response Y) → Response Y
  r >>= next = elim r [ ok x ↦ next x | err error ↦ err error ]

  -- Where a chain has a value, so has its first step.
  pub chain_ok :
      (r : Response X) (next : X → Response Y) {y : Y}
      → (r >>= next) ≡ ok y
      → (x : X) × (r ≡ ok x) × (next x ≡ ok y)
  chain_ok (ok x) next e = (x, refl, e)
  chain_ok (err error) next e = cc

infixl 5 ◌>>◌
abbrev pub ◌>>◌ {κ} : {Y : Type κ} → Response (Unit {0}) → Response Y → Response Y
check >> rest = check >>= λ passed. rest
