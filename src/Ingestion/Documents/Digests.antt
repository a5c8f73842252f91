-- ===== src/Ingestion/Documents/Digests.antt =====
-- A normalised content hash is a lower-case digest without a prefix, and is left as it is.
use ops_incident_core.Prelude.{
  ℕ, zero, suc, ◌≡◌, inl, inr, refl, true, false, [], ◌∷◌, arith, All, all, Bool-cases, length-map,
  drop,
}
use ops_incident_core.Prelude.Text.{Text, codes, lower, lower_char, starts_with}
use ops_incident_core.Retrieval.Words.{is_space, strip}
use ops_incident_core.Ingestion.Documents.{
  is_hex, is_digest, is_sha256, remove_prefix, normalize_content_hash,
}
use ops_incident_core.Ingestion.Documents.Stripping.{strip_solid}

lower_char_again : (c : ℕ) → lower_char (lower_char c) ≡ lower_char c
unfolding lower_char
lower_char_again c = ground arith

pub lower_again : (t : Text) → lower (lower t) ≡ lower t
unfolding lower
lower_again [] = refl
lower_again (c ∷ cs) = rw (lower_char_again c, lower_again cs) refl

pub lower_char-is_space : (c : ℕ) → is_space (lower_char c) ≡ is_space c
unfolding lower_char
lower_char-is_space c = ground arith

hex_lower : (c : ℕ) → is_hex c ≡ true → is_hex (lower_char c) ≡ true
unfolding lower_char
hex_lower c h = ground arith

hex_solid : (c : ℕ) → is_hex c ≡ true → is_space c ≡ false
hex_solid c h = ground arith

all_hex_lower : (t : Text) → all is_hex t ≡ true → all is_hex (lower t) ≡ true
unfolding lower
all_hex_lower [] h = refl
all_hex_lower (c ∷ cs) h = ground (arith, hex_lower c, all_hex_lower cs)

all_hex_solid : (t : Text) → all is_hex t ≡ true → All (λ c. is_space c ≡ false) t
all_hex_solid [] h = tt
all_hex_solid (c ∷ cs) h = (hex_solid c (ground arith), all_hex_solid cs (ground arith))

-- A digest in lower case.
abbrev pub IsNormalDigest : Text → Type 0
IsNormalDigest t = (is_digest t ≡ true) × (lower t ≡ t)

is_digest-lower : (t : Text) → is_digest t ≡ true → IsNormalDigest (lower t)
unfolding is_digest lower
is_digest-lower t h = (ground (arith, length-map t lower_char, all_hex_lower t), lower_again t)

digest_hex : (t : Text) → is_digest t ≡ true → all is_hex t ≡ true
unfolding is_digest
digest_hex t h = ground arith

-- No digest starts with the prefix.
digest_bare : (t : Text) → is_digest t ≡ true → starts_with t (codes "sha256:") ≡ false
unfolding is_digest starts_with
digest_bare [] h = ground arith
digest_bare (c ∷ cs) h = ground arith

starts_with-lower :
    (t p : Text)
    → All (λ c. lower_char c ≡ c) p
    → starts_with t p ≡ true
    → starts_with (lower t) p ≡ true
unfolding starts_with lower
starts_with-lower t [] low h = refl
starts_with-lower [] (c ∷ cs) low h = cc
starts_with-lower (d ∷ ds) (c ∷ cs) low h =
    let same : d ≡ c = ground arith in
    rw (same, low.0) (ground (arith, starts_with-lower ds cs low.1))

drop-lower : (n : ℕ) (t : Text) → drop n (lower t) ≡ lower (drop n t)
unfolding lower
drop-lower zero t = refl
drop-lower (suc n) [] = refl
drop-lower (suc n) (c ∷ cs) = drop-lower n cs

prefix_low : All (λ c. lower_char c ≡ c) (codes "sha256:")
unfolding lower_char
prefix_low = (refl, (refl, (refl, (refl, (refl, (refl, (refl, tt)))))))

pub normalize_content_hash_lem :
    (content_hash : Text)
    → is_sha256 (strip content_hash) ≡ true
    → IsNormalDigest (normalize_content_hash content_hash)
unfolding is_sha256 normalize_content_hash remove_prefix
normalize_content_hash_lem content_hash h =
    let t = strip content_hash in
    elim (Bool-cases (is_digest t)) [
      | inl d ↦ let (good, low) = is_digest-lower t d in rw (digest_bare (lower t) good) (good, low)
      | inr f ↦
          let prefixed = starts_with-lower t (codes "sha256:") prefix_low (ground arith) in
          rw (prefixed, drop-lower 7 t) (is_digest-lower (drop 7 t) (ground arith))
    ]

-- Normalised again, and accepted again.
pub digest_again :
    (t : Text) → IsNormalDigest t → (is_sha256 (strip t) ≡ true) × (normalize_content_hash t ≡ t)
unfolding is_sha256 normalize_content_hash remove_prefix
digest_again t (d, low) =
    let solid : strip t ≡ t = strip_solid t (all_hex_solid t (digest_hex t d)) in
    (rw (solid, d) refl, rw (solid, low, digest_bare t d) refl)
