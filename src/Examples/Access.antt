-- ===== src/Examples/Access.antt =====
-- Members, requests, configurations and logins.
use ops_incident_core.Prelude.{
  ℕ, ◌+◌, ◌≤◌, ◌<◌, ◌≡◌, ◌⊎◌, ◌↔◌, refl, Bool, true, false, ◌&&◌, none, some, List, [], ◌∷◌, ◌++◌,
  arith, length, select, if◌then◌else◌, ltb, ◌==◌,
}
use ops_incident_core.Prelude.Text.{
  Text, codes, lower, lower_char, replace_char, contains, starts_with, text_eq,
}
use ops_incident_core.Security.Roles.{
  ProjectRole, viewer, investigator, approver, role_order, ProjectMember, get_project_role, denial,
  granted, forbidden, require_project_role, require_project_role_lem,
}
use ops_incident_core.Security.RateLimit.{run, check, expire}
use ops_incident_core.Security.RateLimit.Window.{in_window, run_window_bound}
use ops_incident_core.Security.SourceConfig.{
  Fields, field, end, text, SecretPattern, find_source_config_secret_violations,
  credential_like_key, key, walk_fields, looks_like_secret, is_credential_key, normalize_key,
}
use ops_incident_core.Security.SourceConfig.Sound.{
  FieldsAreClean, find_source_config_secret_violations_iff,
}
use ops_incident_core.Security.Login.{
  legacy_sha256, Hashing, HashingLaws, User, verify_password, may_log_in, authenticate_user,
  hash_password, needs_rehash, Claims, Decoded, claims, expired, invalid, Jwt, JwtLaws,
  AuthSettings, signed_in, token_expired, invalid_token, create_access_token, get_current_user,
}
use ops_incident_core.Security.Login.Properties.{
  authenticate_user_lem, get_current_user-create_access_token,
}

abbrev members : List ProjectMember
members =
    record { project_id = 1; user_id = 2; role = viewer }
    ∷ record { project_id = 1; user_id = 3; role = approver }
    ∷ []

require_project_role_lem_example :
    let (access, denials') = require_project_role members 1 2 investigator [] in
    let held = get_project_role 1 2 members in
    ((r : ProjectRole) × (held ≡ some r)
      × (role_order investigator ≤ role_order r)
      × (access ≡ granted r)
      × (denials' ≡ []))
    ⊎ (((r : ProjectRole) → held ≡ some r → role_order r < role_order investigator)
        × (access ≡ forbidden)
        × (denials' ≡ [] ++ denial 1 2 investigator held ∷ []))
require_project_role_lem_example = require_project_role_lem members 1 2 investigator []

abbrev request_times : List ℕ
request_times = 1 ∷ 2 ∷ 3 ∷ 12 ∷ []

run_window_bound_example : length (select (in_window 10 12) (run 2 10 request_times []).1) ≤ 2
run_window_bound_example = run_window_bound 2 10 request_times (ground arith) 12

-- The third request is refused, and the fourth finds room again.
admits : (run 2 10 request_times []).1 ≡ 1 ∷ 2 ∷ 12 ∷ []
unfolding run check expire
admits = refl

abbrev never : SecretPattern → Text → Bool
never pattern value = false

abbrev config : Fields
config = field (codes "url") (text (codes "https")) (field (codes "API-Key") (text (codes "x")) end)

find_source_config_secret_violations_iff_example :
    (find_source_config_secret_violations never config ≡ []) ↔ FieldsAreClean never config
find_source_config_secret_violations_iff_example =
    find_source_config_secret_violations_iff never config

reports_key :
    find_source_config_secret_violations never config
    ≡ credential_like_key (key (codes "API-Key") ∷ []) ∷ []
unfolding find_source_config_secret_violations walk_fields is_credential_key normalize_key lower
    lower_char replace_char contains starts_with text_eq looks_like_secret
reports_key = refl

-- Hashing that keeps the password as its own digest.
abbrev plain : Hashing
plain = record {
  hashpw = λ rounds password. password;
  checkpw = λ password rounds digest. password == digest;
  sha256 = λ password. password;
}

plain-HashingLaws : HashingLaws plain
plain-HashingLaws = record { checkpw-hashpw = λ rounds password. ground arith }

abbrev user : User
user = record {
  id = 3;
  email = 30;
  password_hash = legacy_sha256 77;
  is_active = true;
  disabled_at = none;
  failed_login_count = 2;
  last_login_at = none;
  token_version = 1;
}

authenticate_user_lem_example :
    let (user', ok) = authenticate_user plain false 100 78 user in
    let verified = verify_password plain 78 user.password_hash true in
    (ok ≡ (may_log_in plain user && verified))
    × (may_log_in plain user ≡ false → user' ≡ user)
    × (may_log_in plain user ≡ true
        → verified ≡ false
        → user' ≡ record user { failed_login_count = user.failed_login_count + 1 })
    × (ok ≡ true → (user'.failed_login_count ≡ 0) × (user'.last_login_at ≡ some 100))
authenticate_user_lem_example = authenticate_user_lem plain false 100 78 user

logs_in : (authenticate_user plain false 100 77 user).1 ≡ true
unfolding authenticate_user verify_password may_log_in hash_password needs_rehash
logs_in = refl

abbrev auth_settings : AuthSettings
auth_settings = record {
  access_token_expire_minutes = 15;
  jwt_issuer = 1;
  jwt_audience = 2;
  jwt_secret = 5;
}

-- A token that carries its claims and the secret that it was signed with.
abbrev Token : Type 0
Token = Claims × ℕ

abbrev decode_plain : Token → ℕ → ℕ → ℕ → ℕ → Decoded
decode_plain token secret issuer audience now =
    if token.1 == secret && token.0.iss == issuer && token.0.aud == audience
    then if ltb now token.0.iat
      then invalid
      else if ltb now token.0.exp
      then claims token.0
      else expired
    else invalid

abbrev jwt : Jwt Token
jwt = record { encode = λ c secret. (c, secret); decode = decode_plain }

jwt-JwtLaws : JwtLaws jwt
jwt-JwtLaws = record {
  decode-encode = λ (c : Claims) (secret now : ℕ) (i : c.iat ≤ now) (h : now < c.exp). ground arith;
  decode-encode_expired =
      λ (c : Claims) (secret now : ℕ) (i : c.iat ≤ now) (h : ¬ (now < c.exp)). ground arith;
  decode-encode_early = λ (c : Claims) (secret now : ℕ) (h : now < c.iat). ground arith;
}

get_current_user-create_access_token_example :
    let (token, seconds) = create_access_token jwt auth_settings user 100 in
    let session = get_current_user jwt auth_settings token 500 (user ∷ []) in
    (100 ≤ 500 → 500 < 100 + seconds → session ≡ signed_in user)
    × (100 ≤ 500 → ¬ (500 < 100 + seconds) → session ≡ token_expired)
    × (500 < 100 → session ≡ invalid_token)
get_current_user-create_access_token_example =
    get_current_user-create_access_token jwt jwt-JwtLaws auth_settings user 100 500 (user ∷ []) refl
      refl refl (ground arith)
