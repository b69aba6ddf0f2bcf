-- ===== src/Recovery/RoundTrip.antt =====
-- The snapshot that a save seals is opened by the recovery key.
use myminivault.Prelude.{
  ℕ, ◌≡◌, refl, true, [], ◌∷◌, some, arith, Bytes, bytes_eq, bytes_eq_refl, length, ok,
}
use myminivault.Model.{ExtendedVault, RecoveryData}
use myminivault.Container.{
  Metadata, Parsed, normalize_metadata, default_metadata, wrap, parse, kind_recovery_vault,
}
use myminivault.Container.RoundTrip.{contents}
use myminivault.Sensitive.{
  sum_size, prefix_checksum, strip_checksum, strip_checksum-prefix_checksum,
}
use myminivault.Crypto.{
  ScryptConfig, KdfConfig, Opens, gcm_nonce_size, derive_key_with_config, decrypt_with_aad,
  hkdf_sha256_config,
}
use myminivault.Crypto.KdfPolicy.{
  kdf_config_for_metadata, kdf_config_for_container, hkdf_for, checked_uint32,
}
use myminivault.Storage.Profile.{high_entropy_container_metadata, kdf_config_from_metadata}
use myminivault.Storage.Codec.{Library, Options, marshal_with_checksum, seal, encode_recovery}
use myminivault.Storage.RoundTrip.{seal_parts}
use myminivault.Storage.Sealed.{ReadsBack, sealed_opens}
use myminivault.Recovery.Open.{decrypt_parsed_vault, decrypt_vault_bytes, validate_key_bytes}

-- The reader takes the profile that the snapshot was sealed with from its metadata.
high_entropy-reopened :
    (n : ℕ) (salt ciphertext aad : Bytes) (scrypt fallback : ScryptConfig)
    → let meta = high_entropy_container_metadata n in
      kdf_config_for_container
        (contents kind_recovery_vault salt ciphertext aad (normalize_metadata meta n))
        fallback
      ≡ ok (kdf_config_from_metadata meta scrypt)
unfolding high_entropy_container_metadata kdf_config_from_metadata normalize_metadata
    default_metadata bytes_eq kdf_config_for_container kdf_config_for_metadata hkdf_for
    checked_uint32 hkdf_sha256_config
high_entropy-reopened n salt ciphertext aad scrypt fallback = refl

module _ (lib : Library) (opts : Options) where
  abbrev meta : Metadata
  meta = high_entropy_container_metadata opts.salt_size

  pub encode_recovery_parts :
      (vault : ExtendedVault) (recovery_key salt nonce payload data' : Bytes)
      → lib.marshal_vault vault ≡ some payload
      → encode_recovery lib vault recovery_key salt nonce opts ≡ ok data'
      → (ciphertext : Bytes) × (seal lib kind_recovery_vault meta opts.scrypt recovery_key salt
            nonce
            (prefix_checksum lib.sha256 payload)
          ≡ ok ciphertext)
        × (wrap lib.marshal_metadata kind_recovery_vault salt ciphertext (meta ∷ []) ≡ ok data')
  unfolding encode_recovery marshal_with_checksum
  encode_recovery_parts vault recovery_key salt nonce payload data' e h = ground arith

  decrypt_steps :
      (recovery_key key decrypted payload : Bytes) (parsed : Parsed) (fallback : ScryptConfig)
      (kdf : KdfConfig) (vault : ExtendedVault) (recovery_data : RecoveryData)
      → parsed.kind ≡ kind_recovery_vault
      → kdf_config_for_container parsed fallback ≡ ok kdf
      → derive_key_with_config lib.primitives recovery_key parsed.salt kdf ≡ ok key
      → decrypt_with_aad lib.primitives parsed.ciphertext key parsed.associated_data ≡ ok decrypted
      → strip_checksum lib.sha256 decrypted ≡ ok payload
      → lib.unmarshal_vault payload ≡ some vault
      → vault.recovery ≡ some recovery_data
      → validate_key_bytes lib.sha256 recovery_data recovery_key ≡ true
      → decrypt_parsed_vault lib parsed recovery_key fallback ≡ ok vault
  unfolding decrypt_parsed_vault decrypt_vault_bytes
  decrypt_steps recovery_key key decrypted payload parsed fallback kdf vault recovery_data h₁ h₂ h₃
        h₄ h₅ h₆ h₇ h₈ =
      ground arith

  -- A snapshot that is sealed under a recovery key and wrapped is parsed and opened again by that
  -- key, whatever scrypt profile the reader falls back to. This needs a vault that holds the hash of
  -- the key, an authenticated cipher that opens what it seals, 32-byte sums, a salt and a nonce of
  -- the configured lengths, and an encoding/json that reads back the vault and the metadata that it
  -- wrote.
  pub decrypt_parsed_vault-encode_recovery :
      (opens : Opens lib.primitives) (size : (b : Bytes) → length (lib.sha256 b) ≡ sum_size)
      (vault : ExtendedVault) (recovery_data : RecoveryData)
      (recovery_key salt nonce payload meta_text data' : Bytes) (c : ℕ) (fallback : ScryptConfig)
      → vault.recovery ≡ some recovery_data
      → recovery_data.recovery_key_hash ≡ lib.sha256 recovery_key
      → length salt ≡ opts.salt_size
      → length nonce ≡ gcm_nonce_size
      → ReadsBack lib opens kind_recovery_vault opts.salt_size meta meta_text
      → lib.marshal_vault vault ≡ some (c ∷ payload)
      → lib.unmarshal_vault (c ∷ payload) ≡ some vault
      → encode_recovery lib vault recovery_key salt nonce opts ≡ ok data'
      → (parsed : Parsed) × (parse lib.unmarshal_metadata data' opts.salt_size ≡ ok parsed)
        × (decrypt_parsed_vault lib parsed recovery_key fallback ≡ ok vault)
  unfolding validate_key_bytes
  decrypt_parsed_vault-encode_recovery opens size vault recovery_data recovery_key salt nonce
        payload meta_text data' c fallback has hash ls ln back mv uv h =
      let (ciphertext, sealed, wrapped) =
        encode_recovery_parts vault recovery_key salt nonce (c ∷ payload) data' mv h in
      let (key, aad, derived, made, encrypted) =
        seal_parts lib kind_recovery_vault meta opts.scrypt recovery_key salt nonce
          (prefix_checksum lib.sha256 (c ∷ payload)) ciphertext sealed in
      let (read, decrypted) =
        sealed_opens lib opens kind_recovery_vault opts.salt_size meta meta_text salt nonce
          (prefix_checksum lib.sha256 (c ∷ payload)) key aad ciphertext data' ls ln back made
          encrypted wrapped in
      let parsed =
        contents kind_recovery_vault salt ciphertext aad (normalize_metadata meta opts.salt_size) in
      (
        parsed,
        read,
        decrypt_steps recovery_key key (prefix_checksum lib.sha256 (c ∷ payload)) (c ∷ payload)
            parsed fallback (kdf_config_from_metadata meta opts.scrypt) vault recovery_data refl
            (high_entropy-reopened opts.salt_size salt ciphertext aad opts.scrypt fallback) derived
            decrypted (strip_checksum-prefix_checksum lib.sha256 size (c ∷ payload)) uv has
            (rw hash (bytes_eq_refl (lib.sha256 recovery_key))),
      )
