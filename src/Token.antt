-- ===== src/Token.antt =====
-- internal/token/token.go: the encrypted form of the shared token vault, and the tests on a token.
-- Token.Save has the file of the shared vault; the registry and the key file are not modelled.
pub mod Profile
pub mod RoundTrip
pub mod Save
pub mod Signed
pub mod Pattern
pub mod Execute
use myminivault.Prelude.{
  join_with, ℕ, Bool, true, false, not, ◌&&◌, ◌||◌, ◌==◌, ◌++◌, ◌%◌, ◌/◌, if◌then◌else◌, List, [],
  ◌∷◌, Option, none, some, Bytes, codes, bytes_eq, is_empty, length, Result, ok, err, ◌>>=◌, ◌>>◌,
  fail_if, map_err,
}
use myminivault.Prelude.Int.{ℤ, pos, leb_ℤ, eqb_ℤ}
use myminivault.Model.{AccessToken, ExtendedVault, Time, after}
use myminivault.Container.{
  Metadata, default_metadata, kdf_scrypt, kdf_argon2id, kdf_hkdf_sha256, kind_name,
  kind_shared_token_vault, associated_data, wrap, parse,
}
use myminivault.Sensitive.{prefix_checksum, strip_checksum}
use myminivault.Crypto.{
  ScryptConfig, KdfConfig, hkdf_sha256_config, derive_key_with_config, encrypt_with_aad,
  decrypt_with_aad,
}
use myminivault.Crypto.KdfPolicy.{scrypt_profile, argon2id_profile, kdf_config_for_container}
use myminivault.Config.{to_uint32}
use myminivault.Storage.Codec.{
  Library, CodecError, container, policy, crypto, checksum, unexpected_kind, marshal_failed,
  bad_payload,
}

abbrev shared_info : Bytes
shared_info = codes "myminivault:" ++ kind_name kind_shared_token_vault

unfoldable pub shared_vault_kdf_config : KdfConfig
shared_vault_kdf_config = hkdf_sha256_config shared_info 32

-- `containerMetadata`
unfoldable pub token_container_metadata : ℕ → KdfConfig → Metadata
token_container_metadata salt_size kdf =
    let meta = default_metadata salt_size in
    if bytes_eq kdf.name kdf_scrypt
    then record meta {
      kdf = kdf_scrypt;
      scrypt_n = kdf.scrypt.n;
      scrypt_r = kdf.scrypt.r;
      scrypt_p = kdf.scrypt.p;
      argon2_memory_kib = 0;
      argon2_time = 0;
      argon2_threads = 0;
      key_size = kdf.scrypt.key_size;
    }
    else if bytes_eq kdf.name kdf_argon2id
    then record meta {
      kdf = kdf_argon2id;
      argon2_memory_kib = kdf.argon2id.memory_kib;
      argon2_time = kdf.argon2id.time;
      argon2_threads = kdf.argon2id.threads;
      key_size = pos kdf.argon2id.key_size;
    }
    else if bytes_eq kdf.name kdf_hkdf_sha256 || is_empty kdf.name
    then record meta {
      kdf = kdf_hkdf_sha256;
      scrypt_n = pos 0;
      scrypt_r = pos 0;
      scrypt_p = pos 0;
      argon2_memory_kib = 0;
      argon2_time = 0;
      argon2_threads = 0;
      key_size = pos 32;
    }
    else meta

-- `kdfConfigFromMetadata`
unfoldable pub token_kdf_config_from_metadata : Metadata → ScryptConfig → KdfConfig
token_kdf_config_from_metadata meta fallback =
    if bytes_eq meta.kdf kdf_argon2id
    then argon2id_profile (record {
      memory_kib = meta.argon2_memory_kib;
      time = meta.argon2_time;
      threads = meta.argon2_threads;
      key_size = to_uint32 meta.key_size;
    })
    else if bytes_eq meta.kdf kdf_hkdf_sha256
    then hkdf_sha256_config shared_info (to_uint32 meta.key_size)
    else scrypt_profile fallback

-- The fields of `Options` that concern the encrypted form.
pub record TokenOptions : Type 0 where
  pub salt_size : ℕ
  pub scrypt : ScryptConfig
  pub kdf : KdfConfig

module _ (lib : Library) where
  -- `SaveEncryptedVault` up to the bytes that `SaveVaultFileAtomic` writes.
  unfoldable pub encode_shared :
      ExtendedVault → Bytes → Bytes → Bytes → TokenOptions → Result CodecError Bytes
  encode_shared vault token_key salt nonce opts =
      let meta = token_container_metadata opts.salt_size opts.kdf in
      do
        payload ← elim (lib.marshal_vault vault) [ none ↦ err marshal_failed | some text ↦ ok text ]
        key ← map_err crypto (
            derive_key_with_config lib.primitives token_key salt
              (token_kdf_config_from_metadata meta opts.scrypt))
        aad ←
            map_err container
              (associated_data lib.marshal_metadata kind_shared_token_vault salt (meta ∷ []))
        ciphertext ←
            map_err crypto
              (encrypt_with_aad lib.primitives nonce (prefix_checksum lib.sha256 payload) key aad)
        map_err container
            (wrap lib.marshal_metadata kind_shared_token_vault salt ciphertext (meta ∷ []))

  -- `LoadEncryptedVault` from the bytes of the file, with the master key at hand.
  unfoldable pub load_encrypted_vault :
      Bytes → Bytes → TokenOptions → Result CodecError ExtendedVault
  load_encrypted_vault data' token_key opts = do
    parsed ← map_err container (parse lib.unmarshal_metadata data' opts.salt_size)
    fail_if (not parsed.legacy && not (parsed.kind == kind_shared_token_vault)) unexpected_kind
    kdf ← map_err policy (kdf_config_for_container parsed opts.scrypt)
    key ← map_err crypto (derive_key_with_config lib.primitives token_key parsed.salt kdf)
    decrypted ←
        map_err crypto
          (decrypt_with_aad lib.primitives parsed.ciphertext key parsed.associated_data)
    payload ← map_err checksum (strip_checksum lib.sha256 decrypted)
    elim (lib.unmarshal_vault payload) [ none ↦ err bad_payload | some vault ↦ ok vault ]

unfoldable pub add_base64_padding : Bytes → Bytes
add_base64_padding s =
    if length s % 4 == 2 then s ++ codes "==" else if length s % 4 == 3 then s ++ codes "=" else s

unfoldable pub contains : List Bytes → Bytes → Bool
contains [] item = false
contains (s ∷ slice) item = bytes_eq s item || contains slice item

-- `unix` is the `Unix` method of a time.
unfoldable pub token_claims_match : (Time → ℤ) → AccessToken → Bytes → ℤ → List Bytes → ℤ → Bool
token_claims_match unix token key_pattern expires_unix permissions max_uses =
    bytes_eq token.key_pattern key_pattern
    && eqb_ℤ (unix token.expires_at) expires_unix
    && bytes_eq (join_with b',' token.permissions) (join_with b',' permissions)
    && eqb_ℤ token.max_uses max_uses

unfoldable pub is_expired_or_used_up : AccessToken → Time → Bool
is_expired_or_used_up token now =
    after now token.expires_at || leb_ℤ token.max_uses token.usage_count
