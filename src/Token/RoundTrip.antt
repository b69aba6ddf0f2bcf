-- ===== src/Token/RoundTrip.antt =====
-- The shared vault that a save writes is read back under the same token master key.
use myminivault.Prelude.{
  ℕ, ◌≡◌, [], ◌∷◌, some, arith, Bytes, length, ok, ◌⊎◌, refl, map_err, >>=-eq-ok, map_err-eq-ok,
}
use myminivault.Model.{ExtendedVault}
use myminivault.Container.{
  Metadata, Parsed, kdf_hkdf_sha256, normalize_metadata, associated_data, wrap, parse,
  kind_shared_token_vault,
}
use myminivault.Container.RoundTrip.{contents}
use myminivault.Sensitive.{
  sum_size, prefix_checksum, strip_checksum, strip_checksum-prefix_checksum,
}
use myminivault.Crypto.{
  KdfConfig, Opens, gcm_nonce_size, derive_key_with_config, encrypt_with_aad, decrypt_with_aad,
}
use myminivault.Crypto.KdfPolicy.{kdf_config_for_container}
use myminivault.Storage.Codec.{Library, container, crypto}
use myminivault.Storage.Sealed.{ReadsBack, sealed_opens}
use myminivault.Token.{
  TokenOptions, shared_vault_kdf_config, token_container_metadata, token_kdf_config_from_metadata,
  encode_shared, load_encrypted_vault,
}
use myminivault.Token.Profile.{shared_vault_kdf_config-reopened}

module _ (lib : Library) (opts : TokenOptions) where
  abbrev meta : Metadata
  meta = token_container_metadata opts.salt_size opts.kdf

  -- A save, taken apart.
  encode_shared_parts :
      (vault : ExtendedVault) (token_key salt nonce payload data' : Bytes)
      → lib.marshal_vault vault ≡ some payload
      → encode_shared lib vault token_key salt nonce opts ≡ ok data'
      → (key aad ciphertext : Bytes) × (derive_key_with_config lib.primitives token_key salt
            (token_kdf_config_from_metadata meta opts.scrypt)
          ≡ ok key)
        × (associated_data lib.marshal_metadata kind_shared_token_vault salt (meta ∷ []) ≡ ok aad)
        × (encrypt_with_aad lib.primitives nonce (prefix_checksum lib.sha256 payload) key aad
            ≡ ok ciphertext)
        × (wrap lib.marshal_metadata kind_shared_token_vault salt ciphertext (meta ∷ []) ≡ ok data')
  unfolding encode_shared
  encode_shared_parts vault token_key salt nonce payload data' e h =
      let (key, e₂, h₂) =
        >>=-eq-ok
          (map_err crypto (
            derive_key_with_config lib.primitives token_key salt
              (token_kdf_config_from_metadata meta opts.scrypt)))
          _ (rw e at h) in
      let (aad, e₃, h₃) = >>=-eq-ok _ _ h₂ in
      let (ciphertext, e₄, h₄) = >>=-eq-ok _ _ h₃ in
      (
        key,
        aad,
        ciphertext,
        map_err-eq-ok crypto _ e₂,
        map_err-eq-ok container _ e₃,
        map_err-eq-ok crypto _ e₄,
        map_err-eq-ok container _ h₄,
      )

  load_steps :
      (data' token_key key decrypted payload : Bytes) (parsed : Parsed) (kdf : KdfConfig)
      (vault : ExtendedVault)
      → parse lib.unmarshal_metadata data' opts.salt_size ≡ ok parsed
      → parsed.kind ≡ kind_shared_token_vault
      → kdf_config_for_container parsed opts.scrypt ≡ ok kdf
      → derive_key_with_config lib.primitives token_key parsed.salt kdf ≡ ok key
      → decrypt_with_aad lib.primitives parsed.ciphertext key parsed.associated_data ≡ ok decrypted
      → strip_checksum lib.sha256 decrypted ≡ ok payload
      → lib.unmarshal_vault payload ≡ some vault
      → load_encrypted_vault lib data' token_key opts ≡ ok vault
  unfolding load_encrypted_vault
  load_steps data' token_key key decrypted payload parsed kdf vault h₁ h₂ h₃ h₄ h₅ h₆ h₇ =
      ground arith

  -- A shared vault that is sealed and wrapped under the token master key is opened again by that key.
  -- This needs options that name HKDF or no KDF, an authenticated cipher that opens what it seals,
  -- 32-byte sums, a salt and a nonce of the configured lengths, and an encoding/json that reads back
  -- the vault and the metadata that it wrote.
  pub load_encrypted_vault-encode_shared :
      (opens : Opens lib.primitives) (size : (b : Bytes) → length (lib.sha256 b) ≡ sum_size)
      (vault : ExtendedVault) (token_key salt nonce payload meta_text data' : Bytes) (c : ℕ)
      → (opts.kdf.name ≡ []) ⊎ (opts.kdf.name ≡ kdf_hkdf_sha256)
      → length salt ≡ opts.salt_size
      → length nonce ≡ gcm_nonce_size
      → ReadsBack lib opens kind_shared_token_vault opts.salt_size meta meta_text
      → lib.marshal_vault vault ≡ some (c ∷ payload)
      → lib.unmarshal_vault (c ∷ payload) ≡ some vault
      → encode_shared lib vault token_key salt nonce opts ≡ ok data'
      → load_encrypted_vault lib data' token_key opts ≡ ok vault
  load_encrypted_vault-encode_shared opens size vault token_key salt nonce payload meta_text data' c
        named ls ln back mv uv h =
      let (key, aad, ciphertext, derived, made, encrypted, wrapped) =
        encode_shared_parts vault token_key salt nonce (c ∷ payload) data' mv h in
      let (parsed, decrypted) =
        sealed_opens lib opens kind_shared_token_vault opts.salt_size meta meta_text salt nonce
          (prefix_checksum lib.sha256 (c ∷ payload)) key aad ciphertext data' ls ln back made
          encrypted wrapped in
      let (profile, reopened) =
        shared_vault_kdf_config-reopened opts.salt_size opts.kdf salt ciphertext aad opts.scrypt
          named in
      load_steps data' token_key key (prefix_checksum lib.sha256 (c ∷ payload)) (c ∷ payload)
        (contents kind_shared_token_vault salt ciphertext aad
          (normalize_metadata meta opts.salt_size))
        shared_vault_kdf_config vault parsed refl reopened (rw profile at derived) decrypted
        (strip_checksum-prefix_checksum lib.sha256 size (c ∷ payload)) uv
