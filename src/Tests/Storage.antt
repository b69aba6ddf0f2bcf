-- ===== src/Tests/Storage.antt =====
-- A vault that is sealed and opened with a cipher that does not hide anything.
use myminivault.Prelude.{
  ℕ, arith, ◌++◌, ◌≡◌, refl, none, some, ok, [], ◌∷◌, Bytes, codes, bytes_eq, Dict, true,
}
use myminivault.Model.{ExtendedVault, new_vault}
use myminivault.Container.{
  Metadata, default_metadata, normalize_metadata, associated_data, wrap, is_unknown, kind_name,
}
use myminivault.Sensitive.{prefix_checksum}
use myminivault.Crypto.{no_scrypt, encrypt_with_aad, derive_key_with_config, aes_key_size}
use myminivault.Crypto.KdfPolicy.{
  kdf_config_for_container, kdf_config_for_metadata, argon2id_for, validate_argon2id_config,
  checked_uint32,
}
use myminivault.Config.{default_config, kdf_config}
use myminivault.Storage.Profile.{container_metadata, kdf_config_from_metadata}
use myminivault.Storage.Codec.{
  Library, Options, load_bytes_from_data, marshal_with_checksum, seal, encode_main,
}
use myminivault.Storage.RoundTrip.{load_bytes_from_data-encode_main}
use myminivault.Tests.Crypto.{plain, plain-Opens}

abbrev contents : Dict Bytes
contents = (codes "API", codes "secret") ∷ []

abbrev pub vault : ExtendedVault
vault = new_vault (some contents) (codes "1.0") 7

abbrev meta : Metadata
meta = normalize_metadata (container_metadata 4 (kdf_config default_config)) 4

abbrev pub library : Library
library = record {
  primitives = plain;
  sha256 = λ b. codes "0123456789abcdef0123456789abcdef";
  json_valid = λ b. true;
  marshal_metadata = λ m. some (codes "{}");
  unmarshal_metadata = λ b m. some meta;
  marshal_vault = λ v. some (codes "{}");
  unmarshal_vault = λ b. some vault;
  unmarshal_legacy = λ b. none;
}

abbrev pub options : Options
options = record {
  salt_size = 4;
  version = codes "1.0";
  scrypt = no_scrypt;
  kdf = kdf_config default_config;
}

abbrev pub sealed_text : Bytes
sealed_text = codes "nonce-nonce-0123456789abcdef0123456789abcdef{}"

-- The file of the vault with a salt of four bytes.
abbrev pub vault_file : Bytes → Bytes
vault_file salt = codes "MYMV" ++ (2 ∷ 1 ∷ 0 ∷ 2 ∷ codes "{}" ++ salt ++ sealed_text)

pub vault_file-opens :
    (a b c d : ℕ)
    → let salt = a ∷ b ∷ c ∷ d ∷ [] in
      load_bytes_from_data library (vault_file salt) (codes "password") options 9 ≡ ok (vault, salt)
unfolding encode_main marshal_with_checksum seal prefix_checksum associated_data wrap is_unknown
    kind_name bytes_eq default_metadata normalize_metadata container_metadata kdf_config
    kdf_config_from_metadata encrypt_with_aad derive_key_with_config aes_key_size
    kdf_config_for_container kdf_config_for_metadata argon2id_for validate_argon2id_config
    checked_uint32
vault_file-opens a b c d =
    load_bytes_from_data-encode_main library plain-Opens (λ x. refl) options vault contents refl 123
      (codes "}") (codes "{}") (codes "password") (a ∷ b ∷ c ∷ d ∷ []) (codes "nonce-nonce-")
      (vault_file (a ∷ b ∷ c ∷ d ∷ [])) 9 refl refl refl refl refl (ground arith) refl (λ x y. refl)
      refl

load_bytes_from_data-encode_main_example :
    load_bytes_from_data library (vault_file (codes "salt")) (codes "password") options 9
    ≡ ok (vault, codes "salt")
unfolding encode_main marshal_with_checksum seal prefix_checksum associated_data wrap is_unknown
    kind_name bytes_eq default_metadata normalize_metadata container_metadata kdf_config
    kdf_config_from_metadata encrypt_with_aad derive_key_with_config aes_key_size
    kdf_config_for_container kdf_config_for_metadata argon2id_for validate_argon2id_config
    checked_uint32
load_bytes_from_data-encode_main_example =
    load_bytes_from_data-encode_main library plain-Opens (λ b. refl) options vault contents refl 123
      (codes "}") (codes "{}") (codes "password") (codes "salt") (codes "nonce-nonce-")
      (vault_file (codes "salt")) 9 refl refl refl refl refl (ground arith) refl (λ c a. refl) refl
