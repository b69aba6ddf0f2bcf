-- ===== src/Storage/Profile.antt =====
-- The metadata that a save writes for a KDF profile, and the profile that it encrypts with:
-- `containerMetadata`, `highEntropyContainerMetadata` and `kdfConfigFromMetadata` of
-- internal/storage/storage.go.
use myminivault.Prelude.{ℕ, ◌++◌, if◌then◌else◌, codes, bytes_eq}
use myminivault.Prelude.Int.{pos}
use myminivault.Container.{
  Metadata, default_metadata, kdf_scrypt, kdf_argon2id, kdf_hkdf_sha256, kind_name,
  kind_recovery_vault,
}
use myminivault.Crypto.{ScryptConfig, KdfConfig, hkdf_sha256_config}
use myminivault.Crypto.KdfPolicy.{scrypt_profile, argon2id_profile}
use myminivault.Config.{to_uint32}

unfoldable pub container_metadata : ℕ → KdfConfig → Metadata
container_metadata salt_size kdf =
    let meta = default_metadata salt_size in
    if bytes_eq kdf.name kdf_scrypt
    then record meta {
      kdf = kdf_scrypt;
      scrypt_n = kdf.scrypt.n;
      scrypt_r = kdf.scrypt.r;
      scrypt_p = kdf.scrypt.p;
      argon2_memory_kib = 0;
      argon2_time = 0;
      argon2_threads = 0;
      key_size = kdf.scrypt.key_size;
    }
    else if bytes_eq kdf.name kdf_argon2id
    then record meta {
      kdf = kdf_argon2id;
      argon2_memory_kib = kdf.argon2id.memory_kib;
      argon2_time = kdf.argon2id.time;
      argon2_threads = kdf.argon2id.threads;
      key_size = pos kdf.argon2id.key_size;
    }
    else meta

unfoldable pub high_entropy_container_metadata : ℕ → Metadata
high_entropy_container_metadata salt_size =
    let meta = default_metadata salt_size in
    record meta {
      kdf = kdf_hkdf_sha256;
      scrypt_n = pos 0;
      scrypt_r = pos 0;
      scrypt_p = pos 0;
      argon2_memory_kib = 0;
      argon2_time = 0;
      argon2_threads = 0;
      key_size = pos 32;
    }

unfoldable pub kdf_config_from_metadata : Metadata → ScryptConfig → KdfConfig
kdf_config_from_metadata meta fallback =
    if bytes_eq meta.kdf kdf_argon2id
    then argon2id_profile (record {
      memory_kib = meta.argon2_memory_kib;
      time = meta.argon2_time;
      threads = meta.argon2_threads;
      key_size = to_uint32 meta.key_size;
    })
    else if bytes_eq meta.kdf kdf_hkdf_sha256
    then hkdf_sha256_config (codes "myminivault:" ++ kind_name kind_recovery_vault)
        (to_uint32 meta.key_size)
    else scrypt_profile fallback
