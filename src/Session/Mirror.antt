-- ===== src/Session/Mirror.antt =====
-- cmd/vault/sync.go: the import of the shared vault and its mirror of the main vault.
pub mod Stable
use myminivault.Prelude.{
  Bool, true, false, ◌&&◌, ◌||◌, List, [], ◌∷◌, Option, none, some, ltb, Bytes, codes, bytes_eq,
  if◌then◌else◌, entries, Result, ok, err,
}
use myminivault.Model.{TokenManager, ExtendedVault, Time}
use myminivault.Storage.Codec.{CodecError}
use myminivault.Sync.{
  ImportResult, PreviewResult, no_changes, import_shared_vault, preview_shared_vault,
  copy_vault_data,
}

-- The file of the shared vault: missing, refused by `os.Stat`, refused by `LoadEncryptedVault`, or
-- with this vault in it.
pub data SharedFile : Type 0 where
  missing stat_failed : SharedFile
  unreadable : CodecError → SharedFile
  readable : ExtendedVault → SharedFile

pub data SyncError : Type 0 where
  cannot_stat cannot_save unsupported_option : SyncError
  cannot_load : CodecError → SyncError

-- `syncTokensDryRunRequested`, on `os.Args`.
unfoldable pub sync_tokens_dry_run_requested : List Bytes → Bool
sync_tokens_dry_run_requested (program ∷ command ∷ option ∷ []) =
    bytes_eq command (codes "sync-tokens") && bytes_eq option (codes "--dry-run")
sync_tokens_dry_run_requested _ = false

-- `previewSharedVaultToMainVault`: what is printed, `none` where there is no shared vault.
unfoldable pub preview_shared_vault_to_main_vault :
    ExtendedVault → SharedFile → Result SyncError (Option PreviewResult)
preview_shared_vault_to_main_vault main missing = ok none
preview_shared_vault_to_main_vault main stat_failed = err cannot_stat
preview_shared_vault_to_main_vault main (unreadable e) = err (cannot_load e)
preview_shared_vault_to_main_vault main (readable shared) =
    ok (some (preview_shared_vault main shared))

-- `importSharedVaultToMainVault`
unfoldable pub import_shared_vault_to_main_vault :
    ExtendedVault → SharedFile → Time → Result SyncError (ExtendedVault × ImportResult)
import_shared_vault_to_main_vault main missing now = ok (main, no_changes)
import_shared_vault_to_main_vault main stat_failed now = ok (main, no_changes)
import_shared_vault_to_main_vault main (unreadable e) now = err (cannot_load e)
import_shared_vault_to_main_vault main (readable shared) now =
    ok (import_shared_vault main shared now)

unfoldable pub has_imported_token_changes : ImportResult → Bool
has_imported_token_changes result = ltb 0 result.imported || ltb 0 result.deleted

-- `syncSharedVaultToMainVault`, on `os.Args`.
unfoldable pub sync_shared_vault_to_main_vault :
    List Bytes → ExtendedVault → SharedFile → Time → Result SyncError ExtendedVault
sync_shared_vault_to_main_vault args main shared now =
    if sync_tokens_dry_run_requested args
    then elim (preview_shared_vault_to_main_vault main shared) [ ok _ ↦ ok main | err e ↦ err e ]
    else elim args [
      | _ ∷ _ ∷ _ ∷ _ ↦ err unsupported_option
      | _ ↦ elim (import_shared_vault_to_main_vault main shared now) [
        | ok (main', _) ↦ ok main'
        | err e ↦ err e
      ]
    ]

-- The shared vault that `syncMainVaultToSharedVault` saves, from the tokens of the one before.
unfoldable pub mirrored : ExtendedVault → Option TokenManager → ExtendedVault
mirrored vault existing = record {
  contents = some (copy_vault_data (entries vault.contents));
  recovery = none;
  token_manager = elim vault.token_manager [ none ↦ existing | some manager ↦ some manager ];
  sync = vault.sync;
  metadata = vault.metadata;
}

abbrev save_shared : Bool → ExtendedVault → Result SyncError SharedFile
save_shared save_ok shared = if save_ok then ok (readable shared) else err cannot_save

-- `syncMainVaultToSharedVault`: the shared file afterwards; it stays where there is an error.
unfoldable pub sync_main_vault_to_shared_vault :
    Bool → ExtendedVault → SharedFile → Result SyncError SharedFile
sync_main_vault_to_shared_vault save_ok vault missing = elim vault.token_manager [
  | none ↦ ok missing
  | some manager ↦ save_shared save_ok (mirrored vault none)
]
sync_main_vault_to_shared_vault save_ok vault stat_failed = err cannot_stat
sync_main_vault_to_shared_vault save_ok vault (unreadable e) = err (cannot_load e)
sync_main_vault_to_shared_vault save_ok vault (readable existing) =
    save_shared save_ok (mirrored vault existing.token_manager)
