-- ===== src/Session/Run/Unchanged.antt =====
-- A dry run of the sync changes the audit log at most.
use myminivault.Prelude.{
  ap, ◌∙◌, ◌≡◌, refl, Bool, true, false, [], ◌∷◌, ◌++◌, ◌&&◌, codes, bytes_eq, some, none,
  if◌then◌else◌, arith, Bool-cases, ◌⊎◌, Result-cases, inl, inr, ok, err,
}
use myminivault.Commands.Policy.{is_one_of, should_log_access}
use myminivault.Model.{ExtendedVault}
use myminivault.Session.Mirror.{
  SharedFile, SyncError, preview_shared_vault_to_main_vault, sync_tokens_dry_run_requested,
  sync_shared_vault_to_main_vault,
}
use myminivault.Session.State.{World, Setting, rollback_failed, nothing}
use myminivault.Session.Execute.{dry_run, execute_password_command, execute_sync}
use myminivault.Session.Run.{
  enforce_rollback_state, run_password_command_bytes, import_before, cleanup_before, log_access,
  record_password_command_access, finish,
}

module _ (s : Setting) (c : s.command ≡ codes "sync-tokens")
    (a : s.args ≡ codes "--dry-run" ∷ []) where
  is_dry_run : dry_run s ≡ true
  unfolding dry_run sync_tokens_dry_run_requested bytes_eq
  is_dry_run =
      ap (λ args. sync_tokens_dry_run_requested (s.program ∷ s.command ∷ args)) a
      ∙ ap (λ name. sync_tokens_dry_run_requested (s.program ∷ name ∷ codes "--dry-run" ∷ [])) c

  not_accept : bytes_eq s.command (codes "rollback-accept") ≡ false
  unfolding bytes_eq
  not_accept = ap (λ name. bytes_eq name (codes "rollback-accept")) c

  previewed :
      (vault : ExtendedVault) (shared : SharedFile)
      → sync_shared_vault_to_main_vault (s.program ∷ s.command ∷ s.args) vault shared s.now
          ≡ ok vault
        ⊎ ((e : SyncError) × (sync_shared_vault_to_main_vault
                (s.program ∷ s.command ∷ s.args)
                vault
                shared
                s.now
              ≡ err e))
  unfolding sync_shared_vault_to_main_vault dry_run
  previewed vault shared = elim (Result-cases (preview_shared_vault_to_main_vault vault shared)) [
    | inl (e, f) ↦ inr (e, rw (is_dry_run, f) refl)
    | inr (r, f) ↦ inl (rw (is_dry_run, f) refl)
  ]

  execute_sync-dry_run :
      (vault : ExtendedVault) (shared : SharedFile)
      → execute_sync s vault shared ≡ (vault, shared, nothing)
  unfolding execute_sync
  execute_sync-dry_run vault shared = elim (previewed vault shared) [
    | inl f ↦ ground (arith, is_dry_run)
    | inr (e, f) ↦ ground (arith, is_dry_run)
  ]

  executes_sync :
      (vault : ExtendedVault) (shared : SharedFile)
      → execute_password_command s vault shared ≡ execute_sync s vault shared
  unfolding execute_password_command is_one_of bytes_eq
  executes_sync vault shared = rw c refl

  finish-nothing :
      (changed : Bool) (vault : ExtendedVault) (world : World)
      → finish s changed vault world nothing ≡ (world, none)
  unfolding finish
  finish-nothing changed vault world = refl

  -- The log and the other files after the access is recorded.
  logs_sync :
      (vault : ExtendedVault) (world : World)
      → (record_password_command_access s vault world).1 ≡ record world {
        log = if s.audit_log && s.log_ok then world.log ++ codes "sync-tokens" ∷ [] else world.log;
      }
  unfolding record_password_command_access log_access should_log_access is_one_of bytes_eq
  logs_sync vault world =
      rw c (elim (Bool-cases (s.audit_log && s.log_ok)) [ inl e ↦ rw e refl | inr e ↦ rw e refl ])

  -- A dry run of `sync-tokens` that the rollback check refuses changes no file and ends in an error. Any
  -- other ends without an error and leaves the main vault, the shared vault and the trusted state as
  -- they are; it adds one entry to the audit log, if that is on and can be written.
  pub run_password_command_bytes-dry_run :
      (world : World)
      → run_password_command_bytes s world ≡ (
          if enforce_rollback_state s world then (world, some rollback_failed) else (
            record world {
              log =
                  if s.audit_log && s.log_ok
                  then world.log ++ codes "sync-tokens" ∷ []
                  else world.log;
            },
            none,
          ))
  unfolding run_password_command_bytes import_before cleanup_before finish
  run_password_command_bytes-dry_run world = elim (Bool-cases (enforce_rollback_state s world)) [
    | inl r ↦ rw (not_accept, r) refl
    | inr r ↦
        rw
          (
            not_accept,
            r,
            is_dry_run,
            executes_sync (record_password_command_access s world.stored world).0 world.shared,
            execute_sync-dry_run (record_password_command_access s world.stored world).0
                world.shared,
            logs_sync world.stored world,
          )
          refl
  ]
