-- ===== src/Security/Login.antt =====
-- Passwords, logins and access tokens: incidentops/security/passwords.py, auth.py, and
-- `get_current_user` of apps/api/deps.py. bcrypt, SHA-256 and the JWT library are parameters.
pub mod Properties
use ops_incident_core.Prelude.{
  ℕ, ◌+◌, ◌*◌, ◌≡◌, ◌<◌, ◌≤◌, ◌≢◌, Bool, true, false, not, ◌&&◌, ◌||◌, Option, none, some, List, [],
  ◌∷◌, if◌then◌else◌, ltb, leb, ◌==◌, is_some,
}
use ops_incident_core.Db.{find_row}

-- A stored hash: a bcrypt hash with its cost, 64 hexadecimal digits, or any other text.
pub data StoredHash : Type 0 where
  bcrypt : (rounds : ℕ) → (digest : ℕ) → StoredHash
  legacy_sha256 : (digest : ℕ) → StoredHash
  malformed : StoredHash

-- `bcrypt.hashpw`, `bcrypt.checkpw` and `hashlib.sha256`; passwords are numbers.
pub record Hashing : Type 0 where
  pub hashpw : (rounds : ℕ) → (password : ℕ) → ℕ
  pub checkpw : (password : ℕ) → (rounds : ℕ) → (digest : ℕ) → Bool
  pub sha256 : (password : ℕ) → ℕ

-- What bcrypt documents: a password passes against its own hash.
pub record HashingLaws (h : Hashing) : Type 0 where
  pub checkpw-hashpw :
      (rounds password : ℕ)
      → Hashing.checkpw h password rounds (Hashing.hashpw h rounds password) ≡ true

pub record User : Type 0 where
  pub id : ℕ
  pub email : ℕ
  pub password_hash : StoredHash
  pub is_active : Bool
  pub disabled_at : Option ℕ
  pub failed_login_count : ℕ
  pub last_login_at : Option ℕ
  pub token_version : ℕ

module _ (hashing : Hashing) where
  open hashing use {hashpw, checkpw, sha256}

  unfoldable pub hash_password : ℕ → StoredHash
  hash_password password = bcrypt 12 (hashpw 12 password)

  unfoldable pub verify_password : ℕ → StoredHash → Bool → Bool
  verify_password password (bcrypt rounds digest) allow_legacy = checkpw password rounds digest
  verify_password password (legacy_sha256 digest) allow_legacy =
      allow_legacy && sha256 password == digest
  verify_password password malformed allow_legacy = false

  unfoldable pub needs_rehash : StoredHash → Bool
  needs_rehash (bcrypt rounds digest) = ltb rounds 12
  needs_rehash _ = true

  -- The rows that a login may use.
  unfoldable pub may_log_in : User → Bool
  may_log_in user = user.is_active && not (is_some user.disabled_at)

  -- `authenticate_user` on the row that the email finds: the row afterwards, and whether the
  -- login succeeds.
  unfoldable pub authenticate_user : Bool → ℕ → ℕ → User → User × Bool
  unfolding hash_password verify_password needs_rehash may_log_in
  authenticate_user is_production_like now password user =
      let allow_legacy = not is_production_like in
      if not (may_log_in user)
      then (user, false)
      else if not (verify_password password user.password_hash allow_legacy)
      then (record user { failed_login_count = user.failed_login_count + 1 }, false)
      else (
        record user {
          password_hash =
              if allow_legacy && needs_rehash user.password_hash
              then hash_password password
              else user.password_hash;
          failed_login_count = 0;
          last_login_at = some now;
        },
        true,
      )

-- The claims of a token, and its type.
pub record Claims : Type 0 where
  pub sub : ℕ
  pub is_access : Bool
  pub iat : ℕ
  pub exp : ℕ
  pub iss : ℕ
  pub aud : ℕ
  pub token_version : ℕ

-- `jwt.decode`: the claims, or one of the two errors.
pub data Decoded : Type 0 where
  claims : Claims → Decoded
  expired invalid : Decoded

-- `jwt.encode` and `jwt.decode` with the secret, at a time, for an issuer and an audience.
pub record Jwt (Token : Type 0) : Type 0 where
  pub encode : Claims → (secret : ℕ) → Token
  pub decode : Token → (secret issuer audience now : ℕ) → Decoded

-- What the library documents: a token decodes, with its secret, issuer and audience, to its claims
-- from the time at which it was issued until it expires, and as expired from then on. Before the
-- time of issue it is refused.
pub record JwtLaws {Token : Type 0} (jwt : Jwt Token) : Type 0 where
  pub decode-encode :
      (c : Claims) (secret now : ℕ)
      → c.iat ≤ now
      → now < c.exp
      → Jwt.decode jwt (Jwt.encode jwt c secret) secret c.iss c.aud now ≡ claims c
  pub decode-encode_expired :
      (c : Claims) (secret now : ℕ)
      → c.iat ≤ now
      → ¬ (now < c.exp)
      → Jwt.decode jwt (Jwt.encode jwt c secret) secret c.iss c.aud now ≡ expired
  pub decode-encode_early :
      (c : Claims) (secret now : ℕ)
      → now < c.iat
      → Jwt.decode jwt (Jwt.encode jwt c secret) secret c.iss c.aud now ≡ invalid

pub record AuthSettings : Type 0 where
  pub access_token_expire_minutes : ℕ
  pub jwt_issuer : ℕ
  pub jwt_audience : ℕ
  pub jwt_secret : ℕ

-- The user, or the detail of the HTTP error 401.
pub data Session : Type 0 where
  signed_in : User → Session
  token_expired invalid_token invalid_token_type : Session
  user_not_found user_disabled token_revoked : Session

module _ {Token : Type 0} (jwt : Jwt Token) (settings : AuthSettings) where
  open jwt use {encode, decode}

  -- The payload that `create_access_token` signs.
  abbrev pub access_claims : User → ℕ → Claims
  access_claims user now = record {
    sub = user.id;
    is_access = true;
    iat = now;
    exp = now + settings.access_token_expire_minutes * 60;
    iss = settings.jwt_issuer;
    aud = settings.jwt_audience;
    token_version = user.token_version;
  }

  unfoldable pub create_access_token : User → ℕ → Token × ℕ
  create_access_token user now = (
    encode (access_claims user now) settings.jwt_secret,
    settings.access_token_expire_minutes * 60,
  )

  -- `int(user.token_version or 1)`
  abbrev pub version_or_one : ℕ → ℕ
  version_or_one v = if v == 0 then 1 else v

  unfoldable pub check_user : Claims → Option User → Session
  check_user c none = user_not_found
  check_user c (some user) =
      if not user.is_active || is_some user.disabled_at
      then user_disabled
      else if not (c.token_version == version_or_one user.token_version)
      then token_revoked
      else signed_in user

  -- `decode_token` and then `get_current_user`, for a bearer token.
  unfoldable pub get_current_user : Token → ℕ → List User → Session
  unfolding check_user
  get_current_user token now users =
      elim (decode token settings.jwt_secret settings.jwt_issuer settings.jwt_audience now) [
        | expired ↦ token_expired
        | invalid ↦ invalid_token
        | claims c ↦
            if c.is_access then check_user c (find_row User.id c.sub users) else invalid_token_type
      ]
