-- ===== src/Security/Login/Properties.antt =====
-- Logins and sessions.
use native.Mathlib.Decide.{dec_lt}
use ops_incident_core.Prelude.{
  ℕ, ◌+◌, ◌≡◌, ◌≤◌, ◌<◌, ◌≢◌, Bool, true, false, not, ◌&&◌, none, some, List, arith,
}
use ops_incident_core.Db.{find_row}
use ops_incident_core.Security.Login.{
  Hashing, HashingLaws, User, verify_password, may_log_in, authenticate_user, Jwt, JwtLaws,
  AuthSettings, access_claims, signed_in, token_expired, invalid_token, create_access_token,
  get_current_user,
}

-- A login succeeds exactly for an active row that is not disabled and a password that verifies;
-- a wrong password on such a row raises its count of failures by one, and any other refusal
-- leaves the row as it was.
pub authenticate_user_lem :
    (hashing : Hashing) (is_production_like : Bool) (now password : ℕ) (user : User)
    → let (user', ok) = authenticate_user hashing is_production_like now password user in
      let verified = verify_password hashing password user.password_hash (not is_production_like) in
      (ok ≡ (may_log_in hashing user && verified))
      × (may_log_in hashing user ≡ false → user' ≡ user)
      × (may_log_in hashing user ≡ true
          → verified ≡ false
          → user' ≡ record user { failed_login_count = user.failed_login_count + 1 })
      × (ok ≡ true → (user'.failed_login_count ≡ 0) × (user'.last_login_at ≡ some now))
unfolding authenticate_user
authenticate_user_lem hashing is_production_like now password user = ground arith

-- A password that has logged in logs in again, also where the first login replaced a legacy hash;
-- in production no legacy hash lets anyone in.
pub authenticate_user_again :
    (hashing : Hashing) (laws : HashingLaws hashing) (is_production_like : Bool)
    (now later password : ℕ) (user : User)
    → let (user', ok) = authenticate_user hashing is_production_like now password user in
      ok ≡ true → (authenticate_user hashing is_production_like later password user').1 ≡ true
unfolding authenticate_user
authenticate_user_again hashing laws is_production_like now later password user h =
    ground (arith, laws.checkpw-hashpw 12 password)

-- A token is good for its user from the time at which it was issued until it expires, and it is
-- refused as invalid before and as expired afterwards. The user's row is active, not disabled, and
-- has a token version.
pub get_current_user-create_access_token :
    {Token : Type 0} (jwt : Jwt Token) (laws : JwtLaws jwt) (settings : AuthSettings) (user : User)
    (now later : ℕ) (users : List User)
    → find_row User.id user.id users ≡ some user
    → user.is_active ≡ true
    → user.disabled_at ≡ none
    → user.token_version ≢ 0
    → let (token, seconds) = create_access_token jwt settings user now in
      let session = get_current_user jwt settings token later users in
      (now ≤ later → later < now + seconds → session ≡ signed_in user)
      × (now ≤ later → ¬ (later < now + seconds) → session ≡ token_expired)
      × (later < now → session ≡ invalid_token)
unfolding create_access_token get_current_user
get_current_user-create_access_token jwt laws settings user now later users found active enabled v =
    let c = access_claims jwt settings user now in
    (
      λ i h. ground (arith, laws.decode-encode c settings.jwt_secret later i h),
      λ i h. ground (arith, laws.decode-encode_expired c settings.jwt_secret later i h),
      λ h. ground (arith, laws.decode-encode_early c settings.jwt_secret later h),
    )

-- Revocation: once the row's token version has moved on, a token made before signs nobody in,
-- expired or not.
pub get_current_user_revoked :
    {Token : Type 0} (jwt : Jwt Token) (laws : JwtLaws jwt) (settings : AuthSettings)
    (user user' : User) (now later : ℕ) (users : List User)
    → find_row User.id user.id users ≡ some user'
    → (user'.token_version ≢ user.token_version) × (user'.token_version ≢ 0)
    → let (token, seconds) = create_access_token jwt settings user now in
      (s : User) → get_current_user jwt settings token later users ≢ signed_in s
unfolding create_access_token get_current_user
get_current_user_revoked jwt laws settings user user' now later users found moved s =
    let c = access_claims jwt settings user now in
    elim (dec_lt later c.iat) [
      | yes e ↦ ground (arith, laws.decode-encode_early c settings.jwt_secret later e)
      | no i ↦
          let issued : c.iat ≤ later = omega (arith, i) in
          elim (dec_lt later c.exp) [
            | yes h ↦ ground (arith, laws.decode-encode c settings.jwt_secret later issued h)
            | no h ↦ ground (arith, laws.decode-encode_expired c settings.jwt_secret later issued h)
          ]
    ]
