-- ===== src/Tests/Backup.antt =====
-- Backups of a small directory, and a restore.
use myminivault.Prelude.{
  ◌≡◌, ◌≤◌, ◌⊎◌, ◌&&◌, refl, arith, [], ◌∷◌, none, some, ok, true, false, Bytes, codes, bytes_eq,
  cut_prefix, lookup, insert, erase, if◌then◌else◌, is_some, err,
}
use myminivault.Commands.Export.{bytes_le, insert_key, sort_strings, keys}
use myminivault.Commands.Space.{trim_front, trim_space}
use myminivault.Model.{ExtendedVault}
use myminivault.Prelude.Int.{pos}
use myminivault.Container.{
  parse, parse_headered, parse_version_2, byte_at, is_unknown, default_metadata, normalize_metadata,
}
use myminivault.Sensitive.{strip_checksum, strip_checksum_allow_legacy_json}
use myminivault.Crypto.{decrypt_with_aad, derive_key_with_config, aes_key_size}
use myminivault.Crypto.KdfPolicy.{
  kdf_config_for_container, kdf_config_for_metadata, argon2id_for, validate_argon2id_config,
  checked_uint32,
}
use myminivault.Config.{kdf_config}
use myminivault.Storage.Profile.{container_metadata}
use myminivault.Storage.Codec.{Library, load_bytes_from_data, parse_vault_payload}
use myminivault.Rollback
use myminivault.Rollback.{check_with_mode, save_state, State}
use myminivault.Backup.{
  Calls, Directory, has_suffix, is_backup, keep, write_file_exclusive, copy_file, remove_files,
  sorted_backups, prune_timestamped_backups, backup_name, create_timestamped_backup,
  pre_restore_name, Vaults, RestoreSetting, restored, handle_restore_command, read_backup,
  restore_confirmed, confirm_restore, create_pre_restore_backup, replace_vault_with_backup_data,
}
use myminivault.Backup.Count.{count}
use myminivault.Backup.Created.{
  AreDistinct, create_timestamped_backup-IsBounded, create_timestamped_backup-done,
}
use myminivault.Backup.Lost.{is_pre_restore, create_timestamped_backup-lost}
use myminivault.Backup.Restored.{handle_restore_command-restored}
use myminivault.Tests.Storage.{library, options, vault, vault_file}

abbrev all_calls : Calls
all_calls = record {
  can_read = λ j. true;
  can_write = λ j. true;
  can_remove = λ j. true;
  can_rename = true;
  can_settle = true;
}

abbrev crowded : Directory
crowded =
    (codes "v", codes "now") ∷ (codes "v.1.bak", codes "one") ∷ (codes "v.2.bak", codes "two") ∷ []

abbrev pruned : Directory
pruned =
    (codes "v", codes "now") ∷ (codes "v.2.bak", codes "two") ∷ (codes "v.3.bak", codes "now") ∷ []

runs : create_timestamped_backup all_calls 2 (codes "v") (codes "3") crowded ≡ ok pruned
unfolding create_timestamped_backup copy_file write_file_exclusive prune_timestamped_backups
    sorted_backups remove_files backup_name is_backup has_suffix keep sort_strings insert_key
    bytes_le keys bytes_eq cut_prefix lookup insert erase
runs = refl

create_timestamped_backup-IsBounded_example :
    (data' : Bytes) × (lookup (codes "v") crowded ≡ some data')
    × (count (is_backup (codes "v")) (keys pruned) ≤ 2)
    × ((j : Bytes) → is_backup (codes "v") j ≡ false → lookup j pruned ≡ lookup j crowded)
    × ((j : Bytes)
        → (lookup j pruned ≡ none)
          ⊎ (lookup j pruned ≡ (
              if bytes_eq (backup_name (codes "v") (codes "3")) j
              then some data'
              else lookup j crowded)))
create_timestamped_backup-IsBounded_example =
    create_timestamped_backup-IsBounded all_calls 2 (codes "v") (codes "3") crowded pruned runs

single : Directory
single = (codes "v", codes "now") ∷ []

single-AreDistinct : AreDistinct (keys single)
unfolding single keys
single-AreDistinct k = ground arith

vault_there : lookup (codes "v") single ≡ some (codes "now")
unfolding single lookup bytes_eq
vault_there = refl

name_free : lookup (backup_name (codes "v") (codes "3")) single ≡ none
unfolding single lookup bytes_eq backup_name
name_free = refl

create_timestamped_backup-done_example :
    (files' : Directory) × (create_timestamped_backup all_calls 2 (codes "v") (codes "3") single
      ≡ ok files')
create_timestamped_backup-done_example =
    create_timestamped_backup-done all_calls 2 (codes "v") (codes "3") (codes "now") single refl
      refl (λ k. refl) single-AreDistinct vault_there name_free

abbrev restored_once : Directory
restored_once = (codes "v", codes "now") ∷ (codes "v.pre-restore-1.bak", codes "old") ∷ []

abbrev lost : Directory
lost = restored_once

loses : create_timestamped_backup all_calls 1 (codes "v") (codes "3") restored_once ≡ ok lost
unfolding create_timestamped_backup copy_file write_file_exclusive prune_timestamped_backups
    sorted_backups remove_files backup_name is_backup has_suffix keep sort_strings insert_key
    bytes_le keys bytes_eq cut_prefix lookup insert erase
loses = refl

one_copy : 1 ≤ count (is_pre_restore (codes "v")) (keys restored_once)
unfolding is_pre_restore is_backup has_suffix keys bytes_eq cut_prefix
one_copy = omega arith

create_timestamped_backup-lost_example : lookup (backup_name (codes "v") (b'3' ∷ [])) lost ≡ none
create_timestamped_backup-lost_example =
    create_timestamped_backup-lost all_calls 1 b'3' (codes "v") [] restored_once lost (omega arith)
      one_copy loses

abbrev backed_up : ExtendedVault
backed_up = record vault {
  metadata = record vault.metadata { vault_id = codes "id"; revision = pos 3 };
}

abbrev reader : Library
reader = record library { unmarshal_vault = λ b. some backed_up }

abbrev setting : RestoreSetting
setting = record {
  vault_file = codes "v";
  args = codes "b" ∷ [];
  password = codes "password";
  options = options;
  now = 5;
  stamp = codes "9";
  to_lower = λ b. b;
  line = codes "yes";
  state_ok = true;
  calls = all_calls;
}

abbrev before : Vaults
before = record {
  files = (codes "v", codes "now") ∷ (codes "b", vault_file (codes "salt")) ∷ [];
  trusted = err Rollback.not_exist;
}

abbrev after_restore : Vaults
after_restore = record {
  files =
      (codes "v", vault_file (codes "salt"))
      ∷ (codes "b", vault_file (codes "salt"))
      ∷ (codes "v.pre-restore-9.bak", codes "now")
      ∷ [];
  trusted = ok (record { vault_id = codes "id"; highest_revision = pos 3; updated_at = 5 });
}

restores : handle_restore_command reader setting before ≡ (after_restore, restored)
unfolding handle_restore_command read_backup restore_confirmed confirm_restore
    create_pre_restore_backup replace_vault_with_backup_data copy_file write_file_exclusive
    pre_restore_name save_state bytes_eq lookup insert erase trim_space trim_front
    load_bytes_from_data parse parse_headered parse_version_2 byte_at
    strip_checksum_allow_legacy_json strip_checksum parse_vault_payload kdf_config_for_container
    kdf_config_for_metadata argon2id_for validate_argon2id_config checked_uint32 decrypt_with_aad
    derive_key_with_config aes_key_size default_metadata normalize_metadata container_metadata
    kdf_config is_unknown
restores = refl

handle_restore_command-restored_example :
    (path salt backup_data : Bytes) × ((candidate : ExtendedVault) × (codes "b" ∷ [] ≡ path ∷ [])
      × (lookup path before.files ≡ some backup_data)
      × (load_bytes_from_data reader backup_data (codes "password") options 5
          ≡ ok (candidate, salt))
      × ((j : Bytes)
          → lookup j after_restore.files ≡ (
              if bytes_eq (codes "v") j
              then some backup_data
              else if bytes_eq (pre_restore_name (codes "v") (codes "9")) j
                  && is_some (lookup (codes "v") before.files)
              then lookup (codes "v") before.files
              else lookup j before.files))
      × ((check_with_mode after_restore.trusted candidate.metadata (codes "strict")).status
          ≡ Rollback.all_right))
handle_restore_command-restored_example =
    handle_restore_command-restored reader setting before after_restore (codes "strict") restores
