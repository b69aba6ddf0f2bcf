-- ===== src/Doctor/Recovery.antt =====
-- What `doctor` says of a recovery snapshot that a save of this version wrote.
use myminivault.Prelude.{◌≡◌, ◌≢◌, refl, [], ◌∷◌, some, Bytes, bytes_eq, length, ok}
use myminivault.Model.{ExtendedVault}
use myminivault.Container.{
  Parsed, parse, empty_metadata, normalize_metadata, default_metadata, kind_recovery_vault,
  kdf_hkdf_sha256,
}
use myminivault.Container.RoundTrip.{contents, parse-wrap}
use myminivault.Storage.Profile.{high_entropy_container_metadata}
use myminivault.Storage.Codec.{Library, Options, encode_recovery}
use myminivault.Recovery.RoundTrip.{encode_recovery_parts}
use myminivault.Health.{CryptoConfig, unexpected_kdf, metadata_compatibility_issue}
use myminivault.Doctor.{Opened, parsed_as, check, warn, incompatible, check_recovery_compatibility}

high_entropy-incompatible :
    (cfg : CryptoConfig) (main : Opened) (salt ciphertext aad : Bytes) (opts : Options)
    → let meta = high_entropy_container_metadata opts.salt_size in
      check_recovery_compatibility cfg main (
        parsed_as (
          contents kind_recovery_vault salt ciphertext aad
            (normalize_metadata meta opts.salt_size)))
      ≡ check warn (incompatible (unexpected_kdf kdf_hkdf_sha256))
unfolding check_recovery_compatibility metadata_compatibility_issue high_entropy_container_metadata
    normalize_metadata default_metadata bytes_eq
high_entropy-incompatible cfg main salt ciphertext aad opts = refl

-- Whatever the configuration and the main vault are, `doctor` warns of an unexpected KDF in every
-- snapshot that a save writes, which is HKDF; given that encoding/json reads back the metadata.
pub check_recovery_compatibility-warns :
    (lib : Library) (opts : Options) (cfg : CryptoConfig) (main : Opened) (vault : ExtendedVault)
    (recovery_key salt nonce payload meta_text data' : Bytes)
    → let meta =
        normalize_metadata (high_entropy_container_metadata opts.salt_size) opts.salt_size in
      length salt ≡ opts.salt_size
      → lib.marshal_metadata meta ≡ some meta_text
      → meta_text ≢ []
      → lib.unmarshal_metadata meta_text empty_metadata ≡ some meta
      → lib.marshal_vault vault ≡ some payload
      → encode_recovery lib vault recovery_key salt nonce opts ≡ ok data'
      → (snapshot : Parsed) × (parse lib.unmarshal_metadata data' opts.salt_size ≡ ok snapshot)
        × (check_recovery_compatibility cfg main (parsed_as snapshot)
            ≡ check warn (incompatible (unexpected_kdf kdf_hkdf_sha256)))
check_recovery_compatibility-warns lib opts cfg main vault recovery_key salt nonce payload meta_text
      data' ls mm mn um mv h =
    let meta = high_entropy_container_metadata opts.salt_size in
    let (ciphertext, sealed, wrapped) =
      encode_recovery_parts lib opts vault recovery_key salt nonce payload data' mv h in
    let (aad, made, whole, parsed) =
      parse-wrap lib.marshal_metadata lib.unmarshal_metadata kind_recovery_vault salt ciphertext
        (meta ∷ []) meta_text data' (rw ls mm) mn (rw ls um) wrapped in
    (
      contents kind_recovery_vault salt ciphertext aad (normalize_metadata meta opts.salt_size),
      (rw ls at parsed),
      high_entropy-incompatible cfg main salt ciphertext aad opts,
    )
