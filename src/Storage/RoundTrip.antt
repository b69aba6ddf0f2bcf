-- ===== src/Storage/RoundTrip.antt =====
-- What a save encrypts, a load with the same password decrypts to the same vault.
use myminivault.Prelude.{
  ℕ, ◌≡◌, ◌≢◌, refl, ap, ◌∙◌, [], ◌∷◌, some, arith, Bytes, Dict, length, ok, >>=-eq-ok,
  map_err-eq-ok,
}
use myminivault.Model.{ExtendedVault, Time}
use myminivault.Container.{
  Metadata, Parsed, empty_metadata, normalize_metadata, associated_data, wrap, parse,
  kind_main_vault,
}
use myminivault.Container.RoundTrip.{contents, parse-wrap}
use myminivault.Sensitive.{
  sum_size, prefix_checksum, strip_checksum_allow_legacy_json,
  strip_checksum_allow_legacy_json-prefix_checksum,
}
use myminivault.Crypto.{
  ScryptConfig, KdfConfig, Opens, gcm_nonce_size, derive_key_with_config, encrypt_with_aad,
  decrypt_with_aad, decrypt_with_aad-encrypt_with_aad,
}
use myminivault.Crypto.KdfPolicy.{kdf_config_for_container}
use myminivault.Storage.Profile.{container_metadata, kdf_config_from_metadata}
use myminivault.Storage.Codec.{
  Library, Options, container, crypto, parse_vault_payload, load_bytes_from_data,
  marshal_with_checksum, seal, encode_main,
}

module _ (lib : Library) where
  pub seal_parts :
      (kind : ℕ) (meta : Metadata) (scrypt : ScryptConfig)
      (secret salt nonce text ciphertext : Bytes)
      → seal lib kind meta scrypt secret salt nonce text ≡ ok ciphertext
      → (key aad : Bytes) × (derive_key_with_config lib.primitives secret salt
            (kdf_config_from_metadata meta scrypt)
          ≡ ok key)
        × (associated_data lib.marshal_metadata kind salt (meta ∷ []) ≡ ok aad)
        × (encrypt_with_aad lib.primitives nonce text key aad ≡ ok ciphertext)
  unfolding seal
  seal_parts kind meta scrypt secret salt nonce text ciphertext h =
      let (key, e₁, h₁) = >>=-eq-ok _ _ h in
      let (aad, e₂, h₂) = >>=-eq-ok _ _ h₁ in
      (key, aad, map_err-eq-ok crypto _ e₁, map_err-eq-ok container _ e₂, map_err-eq-ok crypto _ h₂)

  encode_main_parts :
      (vault : ExtendedVault) (password salt nonce payload data' : Bytes) (opts : Options)
      → lib.marshal_vault vault ≡ some payload
      → encode_main lib vault password salt nonce opts ≡ ok data'
      → (ciphertext : Bytes) × (seal lib kind_main_vault
            (container_metadata opts.salt_size opts.kdf)
            opts.scrypt
            password
            salt
            nonce
            (prefix_checksum lib.sha256 payload)
          ≡ ok ciphertext)
        × (wrap lib.marshal_metadata kind_main_vault salt ciphertext
              (container_metadata opts.salt_size opts.kdf ∷ [])
            ≡ ok data')
  unfolding encode_main marshal_with_checksum
  encode_main_parts vault password salt nonce payload data' opts e h = ground arith

  -- A load, from the result of each of its steps.
  load_steps :
      (data' password key decrypted payload : Bytes) (opts : Options) (now : Time) (parsed : Parsed)
      (kdf : KdfConfig) (vault : ExtendedVault)
      → parse lib.unmarshal_metadata data' opts.salt_size ≡ ok parsed
      → parsed.kind ≡ kind_main_vault
      → kdf_config_for_container parsed opts.scrypt ≡ ok kdf
      → derive_key_with_config lib.primitives password parsed.salt kdf ≡ ok key
      → decrypt_with_aad lib.primitives parsed.ciphertext key parsed.associated_data ≡ ok decrypted
      → strip_checksum_allow_legacy_json lib.sha256 lib.json_valid decrypted ≡ ok payload
      → parse_vault_payload lib payload opts.version now ≡ ok vault
      → load_bytes_from_data lib data' password opts now ≡ ok (vault, parsed.salt)
  unfolding load_bytes_from_data
  load_steps data' password key decrypted payload opts now parsed kdf vault h₁ h₂ h₃ h₄ h₅ h₆ h₇ =
      ground arith

module _ (lib : Library) (opens : Opens lib.primitives)
    (size : (b : Bytes) → length (lib.sha256 b) ≡ sum_size) (opts : Options) (vault : ExtendedVault)
    (m : Dict Bytes) (has_contents : vault.contents ≡ some m) (c : ℕ)
    (payload meta_text : Bytes) where
  -- The metadata that is written, normalised.
  abbrev pub stored_metadata : Metadata
  stored_metadata = normalize_metadata (container_metadata opts.salt_size opts.kdf) opts.salt_size

  parse_vault_payload-marshalled :
      (now : Time)
      → lib.unmarshal_vault (c ∷ payload) ≡ some vault
      → parse_vault_payload lib (c ∷ payload) opts.version now ≡ ok vault
  unfolding parse_vault_payload
  parse_vault_payload-marshalled now e = ground (arith, has_contents)

  -- A vault that is sealed and wrapped as the main vault is opened again, with its salt, by the same
  -- password. This needs an authenticated cipher that opens what it seals, 32-byte sums, an
  -- encoding/json that reads back the vault and the metadata that it wrote, a salt and a nonce of
  -- the configured lengths, and a KDF profile that the reader's policy takes from the metadata.
  pub load_bytes_from_data-encode_main :
      (password salt nonce data' : Bytes) (now : Time)
      → length salt ≡ opts.salt_size
      → length nonce ≡ gcm_nonce_size
      → lib.marshal_vault vault ≡ some (c ∷ payload)
      → lib.unmarshal_vault (c ∷ payload) ≡ some vault
      → lib.marshal_metadata stored_metadata ≡ some meta_text
      → meta_text ≢ []
      → lib.unmarshal_metadata meta_text empty_metadata ≡ some stored_metadata
      → ((ciphertext aad : Bytes)
          → kdf_config_for_container
              (contents kind_main_vault salt ciphertext aad stored_metadata)
              opts.scrypt
            ≡ ok
                (kdf_config_from_metadata (container_metadata opts.salt_size opts.kdf) opts.scrypt))
      → encode_main lib vault password salt nonce opts ≡ ok data'
      → load_bytes_from_data lib data' password opts now ≡ ok (vault, salt)
  load_bytes_from_data-encode_main password salt nonce data' now ls ln mv uv mm mn um agrees h =
      let (ciphertext, sealed, wrapped) =
        encode_main_parts lib vault password salt nonce (c ∷ payload) data' opts mv h in
      let (key, aad, derived, made, encrypted) =
        seal_parts lib kind_main_vault (container_metadata opts.salt_size opts.kdf) opts.scrypt
          password salt nonce (prefix_checksum lib.sha256 (c ∷ payload)) ciphertext sealed in
      let (aad', made', whole, parsed) =
        parse-wrap lib.marshal_metadata lib.unmarshal_metadata kind_main_vault salt ciphertext
          (container_metadata opts.salt_size opts.kdf ∷ []) meta_text data' (rw ls mm) mn (rw ls um)
          wrapped in
      let same : aad' ≡ aad = cc (made, made') in
      load_steps lib data' password key (prefix_checksum lib.sha256 (c ∷ payload)) (c ∷ payload)
        opts now (contents kind_main_vault salt ciphertext aad stored_metadata)
        (kdf_config_from_metadata (container_metadata opts.salt_size opts.kdf) opts.scrypt) vault
        ((rw ls at parsed)
          ∙ ap (λ a. ok (contents kind_main_vault salt ciphertext a stored_metadata)) same)
        refl (agrees ciphertext aad) derived
        (decrypt_with_aad-encrypt_with_aad lib.primitives opens nonce
          (prefix_checksum lib.sha256 (c ∷ payload)) key aad ciphertext ln encrypted)
        (strip_checksum_allow_legacy_json-prefix_checksum lib.sha256 size lib.json_valid c payload)
        (parse_vault_payload-marshalled now uv)
