-- ===== src/Health.antt =====
-- internal/health/metadata.go: the metadata of a container against the current configuration.
use myminivault.Prelude.{
  Bool, not, ◌&&◌, ◌||◌, ◌==◌, Option, none, some, if◌then◌else◌, Bytes, bytes_eq,
}
use myminivault.Prelude.Int.{ℤ, pos, eqb_ℤ}
use myminivault.Container.{Metadata, algorithm_aes_256_gcm, kdf_argon2id, kdf_scrypt}

pub record CryptoConfig : Type 0 where
  pub scrypt_n : ℤ
  pub scrypt_r : ℤ
  pub scrypt_p : ℤ
  pub key_size : ℤ
  pub salt_size : ℤ

-- The texts of `MetadataCompatibilityIssue`, with what they print.
pub data Issue : Type 0 where
  unexpected_algorithm unexpected_kdf : Bytes → Issue
  incomplete_argon2id deprecated_scrypt : Issue
  scrypt_n_differs scrypt_r_differs scrypt_p_differs key_size_differs salt_size_differs :
      ℤ → ℤ → Issue

-- `x != 0 && x != y`
abbrev is_other : ℤ → ℤ → Bool
is_other x y = not (eqb_ℤ x (pos 0)) && not (eqb_ℤ x y)

unfoldable pub parameter_issue : Metadata → CryptoConfig → Option Issue
parameter_issue meta cfg =
    if is_other meta.scrypt_n cfg.scrypt_n
    then some (scrypt_n_differs meta.scrypt_n cfg.scrypt_n)
    else if is_other meta.scrypt_r cfg.scrypt_r
    then some (scrypt_r_differs meta.scrypt_r cfg.scrypt_r)
    else if is_other meta.scrypt_p cfg.scrypt_p
    then some (scrypt_p_differs meta.scrypt_p cfg.scrypt_p)
    else if is_other meta.key_size cfg.key_size
    then some (key_size_differs meta.key_size cfg.key_size)
    else if not (eqb_ℤ meta.salt_size cfg.salt_size)
    then some (salt_size_differs meta.salt_size cfg.salt_size)
    else none

-- `none` is the empty text.
unfoldable pub metadata_compatibility_issue : Metadata → CryptoConfig → Option Issue
metadata_compatibility_issue meta cfg =
    if not (bytes_eq meta.algorithm algorithm_aes_256_gcm)
    then some (unexpected_algorithm meta.algorithm)
    else if bytes_eq meta.kdf kdf_argon2id
    then (if meta.argon2_memory_kib == 0
          || meta.argon2_time == 0
          || meta.argon2_threads == 0
          || eqb_ℤ meta.key_size (pos 0)
        then some incomplete_argon2id
        else parameter_issue meta cfg)
    else if bytes_eq meta.kdf kdf_scrypt
    then some deprecated_scrypt
    else some (unexpected_kdf meta.kdf)
