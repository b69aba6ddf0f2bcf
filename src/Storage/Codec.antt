-- ===== src/Storage/Codec.antt =====
-- The encrypted form of the main vault: `LoadBytesFromData`, `parseVaultPayload` and the sealing
-- steps of `SaveBytes` in internal/storage/storage.go.
use myminivault.Prelude.{
  ℕ, Bool, not, ◌&&◌, Option, none, some, if◌then◌else◌, ◌==◌, Bytes, Dict, is_some, is_empty,
  Result, ok, err, ◌>>=◌, ◌>>◌, fail_if, map_err, [], ◌∷◌,
}
use myminivault.Model.{ExtendedVault, Time, new_vault}
use myminivault.Container
use myminivault.Container.{
  Metadata, Parsed, associated_data, wrap, parse, kind_main_vault, kind_recovery_vault,
}
use myminivault.Sensitive.{ChecksumError, prefix_checksum, strip_checksum_allow_legacy_json}
use myminivault.Crypto.{
  ScryptConfig, KdfConfig, Primitives, CryptoError, derive_key_with_config, encrypt_with_aad,
  decrypt_with_aad,
}
use myminivault.Crypto.KdfPolicy.{PolicyError, kdf_config_for_container}
use myminivault.Storage.Profile.{
  container_metadata, high_entropy_container_metadata, kdf_config_from_metadata,
}

-- What the Go libraries provide: the ciphers, SHA-256 and encoding/json for the container metadata,
-- the vault, and the `map[string]string` of old vaults (which may decode to a nil map).
pub record Library : Type 0 where
  pub primitives : Primitives
  pub sha256 : Bytes → Bytes
  pub json_valid : Bytes → Bool
  pub marshal_metadata : Metadata → Option Bytes
  pub unmarshal_metadata : Bytes → Metadata → Option Metadata
  pub marshal_vault : ExtendedVault → Option Bytes
  pub unmarshal_vault : Bytes → Option ExtendedVault
  pub unmarshal_legacy : Bytes → Option (Option (Dict Bytes))

-- The fields of `Options` that concern the encrypted form.
pub record Options : Type 0 where
  pub salt_size : ℕ
  pub version : Bytes
  pub scrypt : ScryptConfig
  pub kdf : KdfConfig

pub data CodecError : Type 0 where
  container : Container.Error → CodecError
  policy : PolicyError → CodecError
  crypto : CryptoError → CodecError
  checksum : ChecksumError → CodecError
  unexpected_kind marshal_failed bad_payload : CodecError

module _ (lib : Library) where
  -- The result of `parseLegacyPayload`, made a vault by `legacyVault`.
  abbrev parse_legacy_payload : Bytes → Bytes → Time → Option ExtendedVault
  parse_legacy_payload payload version now = elim (lib.unmarshal_legacy payload) [
    | none ↦ none
    | some legacy ↦ some (new_vault legacy version now)
  ]

  -- `if vault.Data == nil { vault.Data = make(map[string]string) }`
  abbrev with_contents : ExtendedVault → ExtendedVault
  with_contents vault = elim vault.contents [
    | none ↦ record vault { contents = some [] }
    | some m ↦ vault
  ]

  abbrev or_bad_payload : Option ExtendedVault → Result CodecError ExtendedVault
  or_bad_payload none = err bad_payload
  or_bad_payload (some vault) = ok vault

  unfoldable pub parse_vault_payload : Bytes → Bytes → Time → Result CodecError ExtendedVault
  parse_vault_payload payload version now =
      let legacy = parse_legacy_payload payload version now in
      elim (lib.unmarshal_vault payload) [
        | none ↦ or_bad_payload legacy
        | some vault ↦
            if not (is_some vault.contents) && is_empty vault.metadata.version && is_some legacy
            then or_bad_payload legacy
            else ok (with_contents vault)
      ]

  -- `LoadBytesFromData`
  unfoldable pub load_bytes_from_data :
      Bytes → Bytes → Options → Time → Result CodecError (ExtendedVault × Bytes)
  load_bytes_from_data data' password opts now = do
    parsed ← map_err container (parse lib.unmarshal_metadata data' opts.salt_size)
    fail_if (not parsed.legacy && not (parsed.kind == kind_main_vault)) unexpected_kind
    kdf ← map_err policy (kdf_config_for_container parsed opts.scrypt)
    key ← map_err crypto (derive_key_with_config lib.primitives password parsed.salt kdf)
    decrypted ←
        map_err crypto
          (decrypt_with_aad lib.primitives parsed.ciphertext key parsed.associated_data)
    payload ←
        map_err checksum (strip_checksum_allow_legacy_json lib.sha256 lib.json_valid decrypted)
    vault ← parse_vault_payload payload opts.version now
    ok (vault, parsed.salt)

  -- `marshalWithChecksum`
  unfoldable pub marshal_with_checksum : ExtendedVault → Result CodecError Bytes
  marshal_with_checksum vault = elim (lib.marshal_vault vault) [
    | none ↦ err marshal_failed
    | some payload ↦ ok (prefix_checksum lib.sha256 payload)
  ]

  -- Key, associated data and ciphertext for one container, as both halves of `SaveBytes` make them.
  unfoldable pub seal :
      ℕ → Metadata → ScryptConfig → Bytes → Bytes → Bytes → Bytes → Result CodecError Bytes
  seal kind meta scrypt secret salt nonce text = do
    key ←
        map_err crypto
          (derive_key_with_config lib.primitives secret salt (kdf_config_from_metadata meta scrypt))
    aad ← map_err container (associated_data lib.marshal_metadata kind salt (meta ∷ []))
    map_err crypto (encrypt_with_aad lib.primitives nonce text key aad)

  -- The main half of `SaveBytes` up to the bytes that `SaveFileAtomic` writes.
  unfoldable pub encode_main :
      ExtendedVault → Bytes → Bytes → Bytes → Options → Result CodecError Bytes
  encode_main vault password salt nonce opts =
      let meta = container_metadata opts.salt_size opts.kdf in
      do
        text ← marshal_with_checksum vault
        ciphertext ← seal kind_main_vault meta opts.scrypt password salt nonce text
        map_err container (wrap lib.marshal_metadata kind_main_vault salt ciphertext (meta ∷ []))

  -- The recovery half, under a fresh salt and a key that is used as it is.
  unfoldable pub encode_recovery :
      ExtendedVault → Bytes → Bytes → Bytes → Options → Result CodecError Bytes
  encode_recovery vault recovery_key salt nonce opts =
      let meta = high_entropy_container_metadata opts.salt_size in
      do
        text ← marshal_with_checksum vault
        ciphertext ← seal kind_recovery_vault meta opts.scrypt recovery_key salt nonce text
        map_err container
            (wrap lib.marshal_metadata kind_recovery_vault salt ciphertext (meta ∷ []))
