-- ===== src/Token/Profile.antt =====
-- The shared token vault is opened with the profile that it was saved with.
use myminivault.Prelude.{ℕ, ◌≡◌, refl, Bytes, bytes_eq, ok, [], ◌⊎◌, inl, inr}
use myminivault.Container.{
  normalize_metadata, default_metadata, kdf_hkdf_sha256, kind_shared_token_vault,
}
use myminivault.Container.RoundTrip.{contents}
use myminivault.Crypto.{ScryptConfig, KdfConfig, hkdf_sha256_config}
use myminivault.Crypto.KdfPolicy.{
  kdf_config_for_metadata, kdf_config_for_container, hkdf_for, checked_uint32,
}
use myminivault.Token.{
  shared_vault_kdf_config, token_container_metadata, token_kdf_config_from_metadata,
}

-- Under a profile without a name or of HKDF a save derives its key with the profile of
-- `SharedVaultKDFConfig`, and the reader takes the same profile from the metadata.
pub shared_vault_kdf_config-reopened :
    (n : ℕ) (kdf : KdfConfig) (salt ciphertext aad : Bytes) (fallback : ScryptConfig)
    → (kdf.name ≡ []) ⊎ (kdf.name ≡ kdf_hkdf_sha256)
    → let meta = token_container_metadata n kdf in
      (token_kdf_config_from_metadata meta fallback ≡ shared_vault_kdf_config)
      × (kdf_config_for_container
            (contents kind_shared_token_vault salt ciphertext aad (normalize_metadata meta n))
            fallback
          ≡ ok shared_vault_kdf_config)
unfolding token_container_metadata token_kdf_config_from_metadata shared_vault_kdf_config
    normalize_metadata default_metadata bytes_eq kdf_config_for_container kdf_config_for_metadata
    hkdf_for checked_uint32 hkdf_sha256_config
shared_vault_kdf_config-reopened n kdf salt ciphertext aad fallback (inl e) = rw e (refl, refl)
shared_vault_kdf_config-reopened n kdf salt ciphertext aad fallback (inr e) = rw e (refl, refl)
