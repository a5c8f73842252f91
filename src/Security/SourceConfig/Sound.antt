-- ===== src/Security/SourceConfig/Sound.antt =====
-- What an accepted configuration is free of.
use ops_incident_core.Prelude.{ℕ, ◌+◌, ◌≡◌, ◌↔◌, Bool, false, List, [], ◌∷◌, ◌++◌, arith}
use ops_incident_core.Prelude.Text.{Text}
use ops_incident_core.Security.SourceConfig.{
  Value, Items, Fields, scalar, text, array, object, nil, cons, end, field, SecretPattern, Step,
  key, index, Violation, looks_like_secret, is_credential_key, walk_config, walk_items, walk_fields,
  find_source_config_secret_violations,
}

module _ (search : SecretPattern → Text → Bool) where
  -- No text at any depth looks like a secret, and no key at any depth looks like a credential.
  abbrev mutual
    pub IsClean : Value → Type 0
    IsClean scalar = Unit
    IsClean (text value) = looks_like_secret search value ≡ false
    IsClean (array items) = ItemsAreClean items
    IsClean (object fields) = FieldsAreClean fields

    pub ItemsAreClean : Items → Type 0
    ItemsAreClean nil = Unit
    ItemsAreClean (cons v items) = IsClean v × ItemsAreClean items

    pub FieldsAreClean : Fields → Type 0
    FieldsAreClean end = Unit
    FieldsAreClean (field k v fields) =
        (is_credential_key k ≡ false) × IsClean v × FieldsAreClean fields

  append_nil_iff : (xs ys : List Violation) → (xs ++ ys ≡ []) ↔ ((xs ≡ []) × (ys ≡ []))
  append_nil_iff [] ys = ground arith
  append_nil_iff (x ∷ xs) ys = ground arith

  mutual
    unfolding walk_config

    walk_config_iff : (v : Value) (path : List Step) → (walk_config search path v ≡ []) ↔ IsClean v
    walk_config_iff scalar path = ground arith
    walk_config_iff (text value) path = ground arith
    walk_config_iff (array items) path = walk_items_iff items path 0
    walk_config_iff (object fields) path = walk_fields_iff fields path

    walk_items_iff :
        (items : Items) (path : List Step) (i : ℕ)
        → (walk_items search path i items ≡ []) ↔ ItemsAreClean items
    walk_items_iff nil path i = ground arith
    walk_items_iff (cons v items) path i = ground (
      arith,
      append_nil_iff (walk_config search (path ++ index i ∷ []) v)
          (walk_items search path (i + 1) items),
      walk_config_iff v (path ++ index i ∷ []),
      walk_items_iff items path (i + 1),
    )

    walk_fields_iff :
        (fields : Fields) (path : List Step)
        → (walk_fields search path fields ≡ []) ↔ FieldsAreClean fields
    walk_fields_iff end path = ground arith
    walk_fields_iff (field k v fields) path = ground (
      arith,
      append_nil_iff (walk_config search (path ++ key k ∷ []) v) (walk_fields search path fields),
      walk_config_iff v (path ++ key k ∷ []),
      walk_fields_iff fields path,
    )

-- A configuration passes exactly when no text in it, at any depth, matches a pattern for secrets,
-- and no key in it, at any depth, looks like a credential.
pub find_source_config_secret_violations_iff :
    (search : SecretPattern → Text → Bool) (config : Fields)
    → (find_source_config_secret_violations search config ≡ []) ↔ FieldsAreClean search config
unfolding find_source_config_secret_violations
find_source_config_secret_violations_iff search config = walk_fields_iff search config []
