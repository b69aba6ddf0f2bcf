-- ===== src/Session/Run.antt =====
-- cmd/vault/main.go and storage_bridge.go: a command under the master password, from the vault that was
-- loaded to the files that it leaves. What is printed is not modelled.
pub mod Blocked
pub mod Unchanged
pub mod Written
use myminivault.Prelude.{
  Bool, true, false, not, ◌&&◌, ◌||◌, List, [], ◌∷◌, Option, none, some, Bytes, codes, bytes_eq,
  is_empty, if◌then◌else◌, entries, Result, ok, err, ◌>>=◌, map, ltb, ◌++◌,
}
use myminivault.Prelude.Int.{inc64}
use myminivault.Model.{ExtendedVault, RecoveryData, Time}
use myminivault.Rollback
use myminivault.Rollback.{
  State, StateError, all_right, fail, prepare_next_revision, check_with_mode, save_state,
}
use myminivault.Commands.Export.{keys}
use myminivault.Commands.Policy.{is_one_of, should_log_access, should_mirror_main_vault_to_shared}
use myminivault.Sync.{
  ImportResult, no_changes, mark_key_updated_at, mark_key_deleted_at, mark_keys_updated,
  mark_all_keys_deleted,
}
use myminivault.Session.Mirror.{
  SharedFile, SyncError, sync_tokens_dry_run_requested, import_shared_vault_to_main_vault,
  has_imported_token_changes, sync_shared_vault_to_main_vault, sync_main_vault_to_shared_vault,
}
use myminivault.Session.Tokens.{
  CreationLibrary, CreationFiles, nil_map, nil_registry, cleanup_expired_tokens,
  handle_create_token, handle_revoke_token,
}
use myminivault.Token.Signed.{TokenLibrary}
use myminivault.Session.Handlers.{
  handle_set_command, deleted_key, handle_delete_command, handle_clear_command,
  handle_import_command,
}
use myminivault.Session.State.{
  World, Setting, RunError, Outcome, known_state, mark_recovery_snapshot_revision,
  save_extended_vault_bytes, rollback_failed, state_failed, save_failed, panic, recovery_failed,
  nothing, save_imported, panicked, refused, save_printed, save_with_key, save_vault,
}
use myminivault.Session.Execute.{
  dry_run, execute_set, execute_delete, execute_clear, execute_import, or_before, execute_tokens,
  execute_sync, reads_only, execute_password_command,
}

module _ (s : Setting) where
  -- `enforceRollbackState`: whether the vault is refused.
  unfoldable pub enforce_rollback_state : World → Bool
  enforce_rollback_state world =
      if bytes_eq s.rollback_mode (codes "block")
      then elim (check_with_mode world.trusted world.stored.metadata (codes "block")).status [
        | fail ↦ true
        | _ ↦ false
      ]
      else false

  -- `importTokenChangesBeforePasswordCommand`
  unfoldable pub import_before : ExtendedVault → SharedFile → ExtendedVault × ImportResult
  import_before vault shared =
      if dry_run s
      then (vault, no_changes)
      else elim (import_shared_vault_to_main_vault vault shared s.now) [
        | err e ↦ (vault, no_changes)
        | ok imported ↦ imported
      ]

  -- The cleanup before the command; its error is only logged.
  unfoldable pub cleanup_before : ExtendedVault → SharedFile → ExtendedVault × SharedFile
  cleanup_before vault shared =
      if dry_run s
      then (vault, shared)
      else (let (vault', synced) = cleanup_expired_tokens s.shared_ok s.now vault shared in
          (vault', elim synced [ ok left ↦ left | err e ↦ shared ]))

  -- `logAccess`, as it is called behind `ShouldLogAccess`; its error is dropped.
  unfoldable pub log_access : World → World
  log_access world =
      if should_log_access s.command && s.audit_log && s.log_ok
      then record world { log = world.log ++ s.command ∷ [] }
      else world

  -- `recordPasswordCommandAccess`: the vault in memory, and the files.
  unfoldable pub record_password_command_access : ExtendedVault → World → ExtendedVault × World
  record_password_command_access vault world = (
    record vault {
      metadata = record vault.metadata {
        last_access = s.now;
        access_count = inc64 vault.metadata.access_count;
      };
    },
    log_access world,
  )

  -- The mirror after a save; its error is only logged.
  unfoldable pub mirror_after : ExtendedVault → World → World
  mirror_after vault world = record world {
    shared =
        or_before s world.shared (sync_main_vault_to_shared_vault s.shared_ok vault world.shared);
  }

  -- What `runPasswordCommandBytes` does after the command.
  unfoldable pub finish : Bool → ExtendedVault → World → Outcome → World × Option RunError
  finish changed vault world nothing = (world, none)
  finish changed vault world panicked = (world, some panic)
  finish changed vault world refused = (world, some recovery_failed)
  finish changed vault world save_printed = ((save_extended_vault_bytes s vault world).0, none)
  finish changed vault world save_with_key =
      save_extended_vault_bytes (record s { will_refresh = true }) vault world
  finish changed vault world save_imported =
      if changed then save_extended_vault_bytes s vault world else (world, none)
  finish changed vault world (save_vault mirror) =
      let (world', error) = save_extended_vault_bytes s vault world in
      elim error [
        | some e ↦ (world', some e)
        | none ↦ (
          if mirror && should_mirror_main_vault_to_shared s.command
              then mirror_after world'.stored world'
              else world',
          none,
        )
      ]

  -- `rollback-accept`
  unfoldable pub accept_rollback_state : World → World × Option RunError
  accept_rollback_state world = elim (save_state world.stored.metadata s.now) [
    | err e ↦ (world, some state_failed)
    | ok state ↦ if s.state_ok then (record world { trusted = ok state }, none) else (
      record world { trusted = if s.state_left then ok state else world.trusted },
      some state_failed,
    )
  ]

  -- `runPasswordCommandBytes`, from a main vault that opens.
  unfoldable pub run_password_command_bytes : World → World × Option RunError
  run_password_command_bytes world =
      if bytes_eq s.command (codes "rollback-accept")
      then accept_rollback_state world
      else if enforce_rollback_state world
      then (world, some rollback_failed)
      else (let (imported, result) = import_before world.stored world.shared in
          let (cleaned, shared) = cleanup_before imported world.shared in
          let (recorded, logged) = record_password_command_access cleaned world in
          let (vault, shared', outcome) = execute_password_command s recorded shared in
          finish (has_imported_token_changes result) vault (record logged { shared = shared' })
            outcome)
