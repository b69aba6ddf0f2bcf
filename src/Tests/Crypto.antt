-- ===== src/Tests/Crypto.antt =====
-- A cipher that does not hide anything, and the default configuration.
use myminivault.Prelude.{◌≡◌, refl, some, [], Bytes, codes, bytes_eq, arith}
use myminivault.Container.{Parsed, normalize_metadata, default_metadata, kind_main_vault}
use myminivault.Container.RoundTrip.{contents}
use myminivault.Crypto.{Primitives, Opens, KdfConfig, no_scrypt, no_argon2id, no_hkdf}
use myminivault.Crypto.KdfPolicy.{
  and_pred, kdf_config_for_container, kdf_config_for_metadata, argon2id_for,
  validate_argon2id_config, checked_uint32,
}
use myminivault.Crypto.Bounds.{IsSafe, kdf_config_for_container-IsSafe}
use myminivault.Config.{
  default_config, validate, validate_kdf, is_power_of_two, kdf_config, scrypt_config,
}
use myminivault.Config.Saved.{reopened, validate-reopened}
use myminivault.Storage.Profile.{container_metadata, kdf_config_from_metadata}

abbrev key : Bytes
key = codes "0123456789abcdef0123456789abcdef"

abbrev pub plain : Primitives
plain = record {
  scrypt_key = λ p s c. some key;
  argon2_id_key = λ p s c. key;
  hkdf_read = λ p s c. some key;
  gcm_seal = λ k n t a. t;
  gcm_open = λ k n t a. some t;
}

pub plain-Opens : Opens plain
plain-Opens k n t a = refl

abbrev sealed : Bytes
sealed = codes "nonce-nonce-text"

abbrev opened : Parsed
opened = contents kind_main_vault (codes "salt") (codes "text") [] (default_metadata 4)

abbrev profile : KdfConfig
profile = kdf_config default_config

kdf_config_for_container-IsSafe_example : IsSafe opened profile
unfolding kdf_config_for_container kdf_config_for_metadata argon2id_for validate_argon2id_config
    checked_uint32 default_metadata kdf_config bytes_eq
kdf_config_for_container-IsSafe_example =
    kdf_config_for_container-IsSafe opened no_scrypt profile refl refl (omega arith)

validate-reopened_example :
    let meta = container_metadata 4 (kdf_config default_config) in
    (kdf_config_from_metadata meta (scrypt_config default_config) ≡ kdf_config default_config)
    × (kdf_config_for_container
          (contents kind_main_vault (codes "salt") (codes "text") [] (normalize_metadata meta 4))
          no_scrypt
        ≡ reopened default_config)
unfolding validate validate_kdf is_power_of_two and_pred bytes_eq
validate-reopened_example =
    validate-reopened default_config refl 4 kind_main_vault (codes "salt") (codes "text") []
      no_scrypt

abbrev unnamed : KdfConfig
unnamed = record { name = []; scrypt = no_scrypt; argon2id = no_argon2id; hkdf = no_hkdf }
