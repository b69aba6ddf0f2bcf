-- ===== src/Session/State.antt =====
-- cmd/vault/main.go and storage_bridge.go: what a command under the master password works on, and
-- `saveExtendedVaultBytes`.
use myminivault.Prelude.{Bool, List, Option, none, some, Bytes, if◌then◌else◌, Result, ok, err}
use myminivault.Model.{ExtendedVault, Time}
use myminivault.Rollback.{State, StateError, prepare_next_revision, save_state}
use myminivault.Session.Mirror.{SharedFile}
use myminivault.Session.Tokens.{CreationLibrary, CreationFiles}
use myminivault.Token.Signed.{TokenLibrary}

-- The files that a command reads and leaves: the main vault, the shared one, the trusted state and the
-- commands that the audit log names.
pub record World : Type 0 where
  pub stored : ExtendedVault
  pub shared : SharedFile
  pub trusted : Result StateError State
  pub log : List Bytes

-- What a command meets: the arguments from the command on, the rest of `os.Args` in front of them in
-- `program`, the inputs, the clock, random values and the outcomes of the writes. `will_refresh` is
-- `recoverySnapshotWillRefresh`; `save_left` and `state_left` are whether a write that fails does so
-- after the new file is in place; `lines` are what is typed to `setup-recovery` and
-- `refresh-recovery`, and `passwords` what is typed to `change-password`.
pub record Setting : Type 0 where
  pub program : Bytes
  pub command : Bytes
  pub args : List Bytes
  pub stdin : Option Bytes
  pub confirm : Bytes
  pub content : Option Bytes
  pub rollback_mode : Bytes
  pub now : Time
  pub clock : Bytes → Time
  pub new_id : Option Bytes
  pub new_token_id : Bytes
  pub new_secret : Bytes
  pub to_lower : Bytes → Bytes
  pub creation : CreationLibrary
  pub tokens : TokenLibrary
  pub creation_files : CreationFiles
  pub will_refresh : Bool
  pub save_ok : Bool
  pub save_left : Bool
  pub state_ok : Bool
  pub state_left : Bool
  pub shared_ok : Bool
  pub audit_log : Bool
  pub log_ok : Bool
  pub sha256 : Bytes → Bytes
  pub new_key : Option Bytes
  pub lines : Option Bytes
  pub passwords : Option Bytes × Option Bytes

pub data RunError : Type 0 where
  rollback_failed state_failed save_failed panic recovery_failed : RunError

-- What is left to do after a command: `nothing`, the save of imported changes, a save whose error is
-- only printed, one with the new recovery key in the session, or the save and the mirror of the
-- command's own.
pub data Outcome : Type 0 where
  nothing save_imported panicked refused save_printed save_with_key : Outcome
  save_vault : Bool → Outcome

abbrev pub known_state : Result StateError State → Option State
known_state (ok state) = some state
known_state (err _) = none

-- `markRecoverySnapshotRevision`
unfoldable pub mark_recovery_snapshot_revision : Bool → Time → ExtendedVault → ExtendedVault
mark_recovery_snapshot_revision will_refresh now vault = elim vault.recovery [
  | none ↦ vault
  | some recovery ↦
      if will_refresh
      then record vault {
        recovery = some (record recovery {
          snapshot_vault_id = vault.metadata.vault_id;
          snapshot_revision = vault.metadata.revision;
          snapshot_at = now;
        });
      }
      else vault
]

module _ (s : Setting) where
  -- `saveExtendedVaultBytes`: the files afterwards, and its error.
  unfoldable pub save_extended_vault_bytes : ExtendedVault → World → World × Option RunError
  save_extended_vault_bytes vault world =
      elim (prepare_next_revision s.new_id vault.metadata (known_state world.trusted)) [
        | err e ↦ (world, some state_failed)
        | ok metadata ↦
            let vault' =
              mark_recovery_snapshot_revision s.will_refresh s.now
                (record vault { metadata = metadata }) in
            if s.save_ok
            then elim (save_state metadata s.now) [
              | err e ↦ (record world { stored = vault' }, some state_failed)
              | ok state ↦
                  if s.state_ok
                  then (record world { stored = vault'; trusted = ok state }, none)
                  else (
                    record world {
                      stored = vault';
                      trusted = if s.state_left then ok state else world.trusted;
                    },
                    some state_failed,
                  )
            ]
            else (
              record world { stored = if s.save_left then vault' else world.stored },
              some save_failed,
            )
      ]
