-- ===== src/Recovery/Open.antt =====
-- `ValidateKeyBytes` and `DecryptParsedVault` of internal/recovery/recovery.go.
use myminivault.Prelude.{
  ◌≡◌, arith, Bool, true, not, ◌&&◌, ◌==◌, none, some, Bytes, bytes_eq, bytes_eq_iff, ◌||◌, Result,
  ok, err, ◌>>=◌, ◌>>◌, fail_if, map_err, >>=-eq-ok, Option-cases, inl, inr,
}
use myminivault.Container.{Parsed, kind_recovery_vault}
use myminivault.Crypto.{ScryptConfig, KdfConfig, derive_key_with_config, decrypt_with_aad}
use myminivault.Crypto.KdfPolicy.{kdf_config_for_container}
use myminivault.Model.{RecoveryData, ExtendedVault}
use myminivault.Sensitive.{strip_checksum}
use myminivault.Storage.Codec.{
  Library, CodecError, policy, crypto, checksum, unexpected_kind, bad_payload,
}

-- `HashKeyBytes` and `ValidateKeyBytes`
unfoldable pub validate_key_bytes : (Bytes → Bytes) → RecoveryData → Bytes → Bool
validate_key_bytes sha256 recovery_data key = bytes_eq recovery_data.recovery_key_hash (sha256 key)

pub data RecoveryError : Type 0 where
  codec : CodecError → RecoveryError
  key_not_valid : RecoveryError

module _ (lib : Library) where
  unfoldable pub decrypt_vault_bytes :
      Bytes → Bytes → Bytes → KdfConfig → Bytes → Result RecoveryError ExtendedVault
  decrypt_vault_bytes salt encrypted recovery_key kdf aad = do
    key ←
        map_err (λ e. codec (crypto e))
          (derive_key_with_config lib.primitives recovery_key salt kdf)
    decrypted ← map_err (λ e. codec (crypto e)) (decrypt_with_aad lib.primitives encrypted key aad)
    payload ← map_err (λ e. codec (checksum e)) (strip_checksum lib.sha256 decrypted)
    vault ← elim (lib.unmarshal_vault payload) [ none ↦ err (codec bad_payload) | some v ↦ ok v ]
    elim vault.recovery [
      | none ↦ err key_not_valid
      | some recovery_data ↦
          fail_if (not (validate_key_bytes lib.sha256 recovery_data recovery_key)) key_not_valid
          >> ok vault
    ]

  unfoldable pub decrypt_parsed_vault :
      Parsed → Bytes → ScryptConfig → Result RecoveryError ExtendedVault
  decrypt_parsed_vault parsed recovery_key fallback = do
    fail_if (not parsed.legacy && not (parsed.kind == kind_recovery_vault)) (codec unexpected_kind)
    kdf ← map_err (λ e. codec (policy e)) (kdf_config_for_container parsed fallback)
    decrypt_vault_bytes parsed.salt parsed.ciphertext recovery_key kdf parsed.associated_data

  -- The check of the key at the end.
  check_key-valid :
      (vault opened : ExtendedVault) (recovery_key : Bytes)
      → elim vault.recovery [
        | none ↦ err key_not_valid
        | some recovery_data ↦
            fail_if (not (validate_key_bytes lib.sha256 recovery_data recovery_key)) key_not_valid
            >> ok vault
      ]
        ≡ ok opened
      → (recovery_data : RecoveryData) × (opened.recovery ≡ some recovery_data)
        × (validate_key_bytes lib.sha256 recovery_data recovery_key ≡ true)
  check_key-valid vault opened recovery_key h = elim (Option-cases vault.recovery) [
    | inl n ↦ ground arith
    | inr (recovery_data, r) ↦ (recovery_data, ground arith, ground arith)
  ]

  -- A recovery snapshot is opened only from a container of its kind, or a legacy one, and only with the
  -- key whose hash the snapshot itself holds.
  pub decrypt_parsed_vault-valid :
      (parsed : Parsed) (recovery_key : Bytes) (fallback : ScryptConfig) (opened : ExtendedVault)
      → decrypt_parsed_vault parsed recovery_key fallback ≡ ok opened
      → ((parsed.legacy || parsed.kind == kind_recovery_vault) ≡ true)
        × ((recovery_data : RecoveryData) × (opened.recovery ≡ some recovery_data)
            × (recovery_data.recovery_key_hash ≡ lib.sha256 recovery_key))
  unfolding decrypt_parsed_vault decrypt_vault_bytes validate_key_bytes
  decrypt_parsed_vault-valid parsed recovery_key fallback opened h =
      let (_, of_kind, h1) =
        >>=-eq-ok
          (fail_if (not parsed.legacy && not (parsed.kind == kind_recovery_vault))
            (codec unexpected_kind))
          _ h in
      let (kdf, _, h2) =
        >>=-eq-ok (map_err (λ e. codec (policy e)) (kdf_config_for_container parsed fallback)) _
          h1 in
      let (key, _, h3) =
        >>=-eq-ok
          (map_err (λ e. codec (crypto e))
            (derive_key_with_config lib.primitives recovery_key parsed.salt kdf))
          _ h2 in
      let (decrypted, _, h4) =
        >>=-eq-ok
          (map_err (λ e. codec (crypto e))
            (decrypt_with_aad lib.primitives parsed.ciphertext key parsed.associated_data))
          _ h3 in
      let (payload, _, h5) =
        >>=-eq-ok (map_err (λ e. codec (checksum e)) (strip_checksum lib.sha256 decrypted)) _ h4 in
      let (vault, _, h6) =
        >>=-eq-ok
          (elim (lib.unmarshal_vault payload) [ none ↦ err (codec bad_payload) | some v ↦ ok v ]) _
          h5 in
      let (recovery_data, r, valid) = check_key-valid vault opened recovery_key h6 in
      (
        ground arith,
        (
          recovery_data,
          r,
          (bytes_eq_iff recovery_data.recovery_key_hash (lib.sha256 recovery_key)).0 valid,
        ),
      )
