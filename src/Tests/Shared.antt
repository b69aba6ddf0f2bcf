-- ===== src/Tests/Shared.antt =====
-- A shared token vault that is sealed, saved and read again.
use myminivault.Prelude.{
  ◌≡◌, ◌++◌, refl, none, some, ok, inr, [], ◌∷◌, Bytes, codes, bytes_eq, arith,
}
use myminivault.Files
use myminivault.Files.{
  Files, World, file, calm, done, stopped, primary, backup, temp, exists, not_exist,
}
use myminivault.Files.Hoare.{Post}
use myminivault.Container.{
  Metadata, wrap, associated_data, is_unknown, kind_name, kind_shared_token_vault, default_metadata,
  normalize_metadata,
}
use myminivault.Crypto.{
  no_scrypt, encrypt_with_aad, derive_key_with_config, aes_key_size, hkdf_sha256_config,
}
use myminivault.Sensitive.{prefix_checksum}
use myminivault.Storage.Codec.{Library}
use myminivault.Storage.Save.Undo.{IsInstalled, IsSafe}
use myminivault.Token.{
  TokenOptions, token_container_metadata, token_kdf_config_from_metadata, shared_vault_kdf_config,
  encode_shared, load_encrypted_vault,
}
use myminivault.Token.RoundTrip.{load_encrypted_vault-encode_shared}
use myminivault.Token.Save.{save_vault_file_atomic, read_shared}
use myminivault.Token.Save.Crash.{save_vault_file_atomic-IsSafe}
use myminivault.Token.Save.Blocked.{save_vault_file_atomic-blocked}
use myminivault.Tests.Crypto.{plain-Opens}
use myminivault.Tests.Storage.{library, vault, sealed_text}

abbrev options : TokenOptions
options = record { salt_size = 4; scrypt = no_scrypt; kdf = shared_vault_kdf_config }

abbrev meta : Metadata
meta = normalize_metadata (token_container_metadata 4 options.kdf) 4

abbrev reader : Library
reader = record library { unmarshal_metadata = λ b m. some meta }

abbrev shared_file : Bytes
shared_file = codes "MYMV" ++ (2 ∷ 3 ∷ 0 ∷ 2 ∷ codes "{}" ++ codes "salt" ++ sealed_text)

encoded :
    encode_shared reader vault (codes "key") (codes "salt") (codes "nonce-nonce-") options
    ≡ ok shared_file
unfolding encode_shared token_container_metadata token_kdf_config_from_metadata
    shared_vault_kdf_config hkdf_sha256_config wrap associated_data is_unknown kind_name bytes_eq
    default_metadata normalize_metadata encrypt_with_aad derive_key_with_config aes_key_size
    prefix_checksum
encoded = refl

load_encrypted_vault-encode_shared_example :
    load_encrypted_vault reader shared_file (codes "key") options ≡ ok vault
unfolding shared_vault_kdf_config hkdf_sha256_config
load_encrypted_vault-encode_shared_example =
    load_encrypted_vault-encode_shared reader options plain-Opens (λ b. refl) vault (codes "key")
      (codes "salt") (codes "nonce-nonce-") (codes "}") (codes "{}") shared_file 123 (inr refl) refl
      refl (refl, (λ e. ground arith), refl) refl refl encoded

abbrev only_primary : Files
only_primary primary = some (file (codes "old"))
only_primary _ = none

-- The process stops in the twelfth call.
abbrev interrupted : World
interrupted = record {
  files = only_primary;
  schedule =
      done ∷ done ∷ done ∷ done ∷ done ∷ done ∷ done ∷ done ∷ done ∷ done ∷ done ∷ stopped 0 ∷ [];
}

wrapped :
    wrap reader.marshal_metadata kind_shared_token_vault
      (codes "salt")
      sealed_text
      (token_container_metadata 4 options.kdf ∷ [])
    ≡ ok shared_file
unfolding token_container_metadata shared_vault_kdf_config hkdf_sha256_config wrap associated_data
    is_unknown kind_name bytes_eq default_metadata normalize_metadata
wrapped = refl

save_vault_file_atomic-IsSafe_example :
    let run =
      save_vault_file_atomic reader.marshal_metadata
        (codes "salt")
        sealed_text
        (token_container_metadata 4 options.kdf ∷ [])
        interrupted in
    Post
      (λ _. IsInstalled (codes "old") shared_file)
      (IsSafe (codes "old") shared_file)
      (IsSafe (codes "old") shared_file)
      run.0
      run.1.files
save_vault_file_atomic-IsSafe_example =
    save_vault_file_atomic-IsSafe reader.marshal_metadata (codes "salt") sealed_text
      (token_container_metadata 4 options.kdf ∷ []) (codes "old") shared_file interrupted wrapped
      refl

abbrev between_renames : Files
between_renames backup = some (file (codes "old"))
between_renames temp = some (file (codes "new"))
between_renames _ = none

save_vault_file_atomic-blocked_example :
    (read_shared (calm between_renames) ≡ (Files.err not_exist, calm between_renames))
    × (save_vault_file_atomic reader.marshal_metadata
          (codes "salt")
          sealed_text
          []
          (calm between_renames)
        ≡ (Files.err exists, calm between_renames))
save_vault_file_atomic-blocked_example =
    save_vault_file_atomic-blocked reader.marshal_metadata (codes "salt") sealed_text []
      between_renames (codes "old") (codes "new") refl refl refl
