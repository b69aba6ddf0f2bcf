-- ===== src/Session/Execute.antt =====
-- cmd/vault/main.go: `executePasswordCommand`, with `handleSetupRecovery` of cmd/vault/recovery_cli.go.
-- The copies that `backup` makes are in Backup, and the secrets of the files in Session.Recovery.
use myminivault.Prelude.{
  Option, ◌&&◌, not, is_some, or_else, Bool, true, false, [], ◌∷◌, none, some, Bytes, codes,
  bytes_eq, is_empty, if◌then◌else◌, entries, Result, ok, err, map,
}
use myminivault.Model.{ExtendedVault}
use myminivault.Prelude.Int.{pos}
use myminivault.Commands.Export.{keys}
use myminivault.Commands.Space.{trim_space}
use myminivault.Recovery.Open.{validate_key_bytes}
use myminivault.Commands.Policy.{is_one_of}
use myminivault.Sync.{
  mark_key_updated_at, mark_key_deleted_at, mark_keys_updated, mark_all_keys_deleted,
}
use myminivault.Session.Mirror.{
  SharedFile, SyncError, sync_tokens_dry_run_requested, sync_shared_vault_to_main_vault,
}
use myminivault.Session.Tokens.{
  nil_map, nil_registry, cleanup_expired_tokens, handle_create_token, handle_revoke_token,
}
use myminivault.Session.Handlers.{
  handle_set_command, deleted_key, handle_delete_command, handle_clear_command,
  handle_import_command,
}
use myminivault.Session.State.{
  Setting, Outcome, nothing, save_imported, panicked, refused, save_printed, save_with_key,
  save_vault,
}

module _ (s : Setting) where
  unfoldable pub dry_run : Bool
  dry_run = sync_tokens_dry_run_requested (s.program ∷ s.command ∷ s.args)

  unfoldable pub execute_set : ExtendedVault → SharedFile → ExtendedVault × SharedFile × Outcome
  execute_set vault shared =
      let (contents, updated) = handle_set_command s.args s.stdin vault.contents in
      elim updated [
        | none ↦ (record vault { contents = contents }, shared, save_imported)
        | some key ↦ (
          mark_key_updated_at (record vault { contents = contents }) key (s.clock key),
          shared,
          save_vault true,
        )
      ]

  unfoldable pub execute_delete : ExtendedVault → SharedFile → ExtendedVault × SharedFile × Outcome
  execute_delete vault shared =
      let vault' = record vault { contents = handle_delete_command s.args vault.contents } in
      elim (deleted_key s.args vault.contents) [
        | none ↦ (vault', shared, save_vault true)
        | some key ↦ (mark_key_deleted_at vault' key (s.clock key), shared, save_vault true)
      ]

  unfoldable pub execute_clear : ExtendedVault → SharedFile → ExtendedVault × SharedFile × Outcome
  execute_clear vault shared =
      let deleted_keys = map (λ key. (key, s.clock key)) (keys (entries vault.contents)) in
      let vault' = record vault {
        contents = handle_clear_command s.to_lower s.confirm vault.contents;
      } in
      if is_empty (entries vault'.contents)
      then (mark_all_keys_deleted vault' deleted_keys, shared, save_vault true)
      else (vault', shared, save_vault true)

  unfoldable pub execute_import : ExtendedVault → SharedFile → ExtendedVault × SharedFile × Outcome
  execute_import vault shared = elim (handle_import_command s.args s.content vault.contents) [
    | none ↦ (vault, shared, panicked)
    | some (contents, imported) ↦ (
      mark_keys_updated (record vault { contents = contents })
          (map (λ key. (key, s.clock key)) imported),
      shared,
      save_vault true,
    )
  ]

  abbrev pub or_before : SharedFile → Result SyncError SharedFile → SharedFile
  or_before shared (ok shared') = shared'
  or_before shared (err e) = shared

  unfoldable pub execute_tokens : ExtendedVault → SharedFile → ExtendedVault × SharedFile × Outcome
  execute_tokens vault shared =
      if bytes_eq s.command (codes "create-token")
      then (let (vault', shared', end) =
            handle_create_token s.creation s.tokens s.creation_files s.args s.new_token_id
              s.new_secret s.now vault shared in
          (
            vault',
            shared',
            elim end [ nil_map ↦ panicked | nil_registry ↦ panicked | _ ↦ save_vault false ],
          ))
      else if bytes_eq s.command (codes "revoke-token")
      then elim s.args [
        | [] ↦ (vault, shared, save_vault false)
        | token_id ∷ _ ↦
            let (vault', synced) = handle_revoke_token s.shared_ok token_id vault shared in
            (vault', or_before shared synced, save_vault false)
      ]
      else (let (vault', synced) = cleanup_expired_tokens s.shared_ok s.now vault shared in
          (vault', or_before shared synced, save_vault false))

  unfoldable pub execute_sync : ExtendedVault → SharedFile → ExtendedVault × SharedFile × Outcome
  execute_sync vault shared =
      let outcome = if dry_run then nothing else save_vault false in
      elim (sync_shared_vault_to_main_vault (s.program ∷ s.command ∷ s.args) vault shared s.now) [
        | err e ↦ (vault, shared, outcome)
        | ok vault' ↦ (vault', shared, outcome)
      ]

  -- `handleSetupRecovery`: the vault in memory, and whether the session has the new key.
  unfoldable pub handle_setup_recovery : ExtendedVault → ExtendedVault × Bool
  handle_setup_recovery vault =
      let confirmed = bytes_eq (trim_space (s.to_lower s.confirm)) (codes "yes") in
      if is_some vault.recovery && not confirmed then (vault, false) else elim s.new_key [
        | none ↦ (vault, false)
        | some recovery_key ↦
            if bytes_eq (trim_space (or_else s.lines [])) recovery_key
            then (
              record vault {
                recovery = some (record {
                  recovery_key_hash = s.sha256 recovery_key;
                  created_at = s.now;
                  last_used = 0;
                  use_count = pos 0;
                  snapshot_vault_id = [];
                  snapshot_revision = pos 0;
                  snapshot_at = 0;
                });
              },
              true,
            )
            else (vault, false)
      ]

  unfoldable pub execute_setup : ExtendedVault → SharedFile → ExtendedVault × SharedFile × Outcome
  execute_setup vault shared =
      let (vault', has_key) = handle_setup_recovery vault in
      (vault', shared, if has_key then save_with_key else save_vault false)

  -- `handleRefreshRecovery` up to its save.
  unfoldable pub refresh_outcome : ExtendedVault → Outcome
  refresh_outcome vault = elim vault.recovery [
    | none ↦ refused
    | some recovery_data ↦ elim s.lines [
      | none ↦ refused
      | some recovery_key ↦
          if validate_key_bytes s.sha256 recovery_data recovery_key then save_with_key else refused
    ]
  ]

  -- `handleChangePassword` up to its save; all its errors are only printed.
  unfoldable pub change_outcome : Option Bytes × Option Bytes → Outcome
  change_outcome (some password, some again) =
      if is_empty password
      then nothing
      else if bytes_eq password again
      then save_printed
      else nothing
  change_outcome _ = nothing

  -- The commands that change none of these files themselves.
  abbrev pub reads_only : Bytes → Bool
  reads_only command = is_one_of command (
      codes "get"
      ∷ codes "export"
      ∷ codes "copy"
      ∷ codes "list"
      ∷ codes "search"
      ∷ codes "stats"
      ∷ codes "backup"
      ∷ codes "test-recovery"
      ∷ codes "list-tokens"
      ∷ codes "token-info"
      ∷ codes "security-audit"
      ∷ [])

  -- `executePasswordCommand`: the vault in memory, the shared file, and what is left to do.
  unfoldable pub execute_password_command :
      ExtendedVault → SharedFile → ExtendedVault × SharedFile × Outcome
  execute_password_command vault shared =
      if bytes_eq s.command (codes "set")
      then execute_set vault shared
      else if reads_only s.command
      then (vault, shared, save_imported)
      else if bytes_eq s.command (codes "delete")
      then execute_delete vault shared
      else if bytes_eq s.command (codes "clear")
      then execute_clear vault shared
      else if bytes_eq s.command (codes "import")
      then execute_import vault shared
      else if is_one_of s.command
          (codes "create-token" ∷ codes "revoke-token" ∷ codes "cleanup-tokens" ∷ [])
      then execute_tokens vault shared
      else if bytes_eq s.command (codes "sync-tokens")
      then execute_sync vault shared
      else if bytes_eq s.command (codes "setup-recovery")
      then execute_setup vault shared
      else if bytes_eq s.command (codes "change-password")
      then (vault, shared, change_outcome s.passwords)
      else if bytes_eq s.command (codes "refresh-recovery")
      then (vault, shared, refresh_outcome vault)
      else (vault, shared, nothing)
