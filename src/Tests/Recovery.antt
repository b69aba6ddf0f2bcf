-- ===== src/Tests/Recovery.antt =====
-- A write of the trusted state that stops, and a recovery key.
use myminivault.Prelude.{
  ◌≡◌, ◌==◌, ◌||◌, refl, none, some, ok, true, [], ◌∷◌, Bytes, codes, bytes_eq,
}
use myminivault.Model.{RecoveryData, ExtendedVault, new_vault}
use myminivault.Prelude.Int.{pos}
use myminivault.Files.{Files, World, file, done, stopped, recovery, state, state_temp}
use myminivault.Files.Hoare.{Post}
use myminivault.Files.Temp.Replace.{IsNew, IsWhole}
use myminivault.Container.{Parsed, kind_recovery_vault, default_metadata, normalize_metadata}
use myminivault.Container.RoundTrip.{contents}
use myminivault.Crypto.{decrypt_with_aad, derive_key_with_config, aes_key_size}
use myminivault.Crypto.KdfPolicy.{
  kdf_config_for_container, kdf_config_for_metadata, argon2id_for, validate_argon2id_config,
  checked_uint32,
}
use myminivault.Config.{default_config, kdf_config}
use myminivault.Sensitive.{strip_checksum}
use myminivault.Storage.Profile.{container_metadata}
use myminivault.Storage.Codec.{Library}
use myminivault.Recovery.Open.{
  decrypt_parsed_vault, decrypt_vault_bytes, validate_key_bytes, decrypt_parsed_vault-valid,
}
use myminivault.Rollback.Write.{write_atomic}
use myminivault.Rollback.Write.Whole
use myminivault.Rollback.Write.Whole.{write_atomic-IsWhole}
use myminivault.Tests.Storage.{library, options, sealed_text}

abbrev old_files : Files
old_files recovery = some (file (codes "old"))
old_files state = some (file (codes "{1}"))
old_files state_temp = some (file (codes "{"))
old_files _ = none

-- The process stops in the sixth call.
abbrev interrupted : World
interrupted = record {
  files = old_files;
  schedule = done ∷ done ∷ done ∷ done ∷ done ∷ stopped 3 ∷ [];
}

write_atomic-IsWhole_example :
    let run = write_atomic (codes "{2}") interrupted in
    Post
      (λ _. IsNew state_temp state Whole.apart (some (file (codes "{1}"))) (codes "{2}"))
      (IsWhole state_temp state Whole.apart (some (file (codes "{1}"))) (codes "{2}"))
      (IsWhole state_temp state Whole.apart (some (file (codes "{1}"))) (codes "{2}"))
      run.0
      run.1.files
write_atomic-IsWhole_example =
    write_atomic-IsWhole (some (file (codes "{1}"))) (codes "{2}") interrupted refl

abbrev hash : Bytes
hash = codes "0123456789abcdef0123456789abcdef"

abbrev recoverable : ExtendedVault
recoverable = record (new_vault (some []) (codes "1.0") 7) {
  recovery = some (record {
    recovery_key_hash = hash;
    created_at = 1;
    last_used = 0;
    use_count = pos 0;
    snapshot_vault_id = [];
    snapshot_revision = pos 0;
    snapshot_at = 0;
  });
}

abbrev reader : Library
reader = record library { unmarshal_vault = λ b. some recoverable }

abbrev parsed : Parsed
parsed =
    contents kind_recovery_vault (codes "salt") sealed_text []
      (normalize_metadata (container_metadata 4 (kdf_config default_config)) 4)

opened : decrypt_parsed_vault reader parsed (codes "key") options.scrypt ≡ ok recoverable
unfolding decrypt_parsed_vault decrypt_vault_bytes validate_key_bytes decrypt_with_aad
    derive_key_with_config aes_key_size kdf_config_for_container kdf_config_for_metadata
    argon2id_for validate_argon2id_config checked_uint32 strip_checksum bytes_eq default_metadata
    normalize_metadata container_metadata kdf_config
opened = refl

decrypt_parsed_vault-valid_example :
    ((parsed.legacy || parsed.kind == kind_recovery_vault) ≡ true)
    × ((recovery_data : RecoveryData) × (recoverable.recovery ≡ some recovery_data)
        × (recovery_data.recovery_key_hash ≡ reader.sha256 (codes "key")))
decrypt_parsed_vault-valid_example =
    decrypt_parsed_vault-valid reader parsed (codes "key") options.scrypt recoverable opened
