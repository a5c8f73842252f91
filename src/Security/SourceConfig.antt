-- ===== src/Security/SourceConfig.antt =====
-- The screening of source configurations: incidentops/security/source_config.py. The regular
-- expressions for secret values are run by an engine that is a parameter, `search`.
pub mod Sound
use ops_incident_core.Prelude.{
  ℕ, ◌+◌, Bool, true, false, not, ◌&&◌, List, [], ◌∷◌, ◌++◌, map, any, if◌then◌else◌, length,
}
use ops_incident_core.Prelude.Text.{Text, codes, lower, contains, replace_char, text_eq}

-- A JSON value of the configuration; what is neither an object, an array nor a string is a scalar.
mutual
  pub data Value : Type 0 where
    scalar : Value
    text : Text → Value
    array : Items → Value
    object : Fields → Value

  pub data Items : Type 0 where
    nil : Items
    cons : Value → Items → Items

  pub data Fields : Type 0 where
    end : Fields
    field : Text → Value → Fields → Fields

-- `_SECRET_VALUE_PATTERNS`, by what each recognises.
pub data SecretPattern : Type 0 where
  openai_key github_token github_pat aws_access_key : SecretPattern
  private_key_block bearer_token json_web_token : SecretPattern

abbrev pub secret_value_patterns : List SecretPattern
secret_value_patterns =
    openai_key ∷ github_token ∷ github_pat ∷ aws_access_key ∷ private_key_block ∷ bearer_token
    ∷ json_web_token ∷ []

-- `DISALLOWED_CONFIG_KEY_TOKENS`
abbrev pub disallowed_config_key_tokens : List Text
disallowed_config_key_tokens = map codes (
    "password" ∷ "passwd" ∷ "secret" ∷ "token" ∷ "api_key" ∷ "apikey" ∷ "private_key"
    ∷ "client_secret" ∷ "access_key" ∷ "refresh_token" ∷ "bearer" ∷ "credential" ∷ [])

unfoldable pub normalize_key : Text → Text
unfolding lower replace_char
normalize_key key = replace_char b'-' b'_' (lower key)

-- The key looks like a credential, and is not the one allowed name, `credentials_ref`.
unfoldable pub is_credential_key : Text → Bool
unfolding normalize_key contains text_eq
is_credential_key key =
    not (text_eq (normalize_key key) (codes "credentials_ref"))
    && any (contains (normalize_key key)) disallowed_config_key_tokens

-- A step of a path: a key, or an index.
pub data Step : Type 0 where
  key : Text → Step
  index : ℕ → Step

-- What is reported: a key by its path, or a value by the path to it.
pub data Violation : Type 0 where
  credential_like_key secret_like_value : List Step → Violation

module _ (search : SecretPattern → Text → Bool) where
  unfoldable pub looks_like_secret : Text → Bool
  looks_like_secret value = any (λ pattern. search pattern value) secret_value_patterns

  -- `_walk_config`; the list that it appends to is what it returns. The value under a
  -- credential-like key is not walked.
  unfoldable mutual
    pub walk_config : List Step → Value → List Violation
    walk_config path scalar = []
    walk_config path (text value) =
        if looks_like_secret value then secret_like_value path ∷ [] else []
    walk_config path (array items) = walk_items path 0 items
    walk_config path (object fields) = walk_fields path fields

    pub walk_items : List Step → ℕ → Items → List Violation
    walk_items path i nil = []
    walk_items path i (cons v items) =
        walk_config (path ++ index i ∷ []) v ++ walk_items path (i + 1) items

    pub walk_fields : List Step → Fields → List Violation
    walk_fields path end = []
    walk_fields path (field k v fields) =
        let below = walk_config (path ++ key k ∷ []) v in
        (if is_credential_key k then credential_like_key (path ++ key k ∷ []) ∷ [] else below)
        ++ walk_fields path fields

  unfoldable pub find_source_config_secret_violations : Fields → List Violation
  unfolding walk_fields
  find_source_config_secret_violations config = walk_fields [] config
