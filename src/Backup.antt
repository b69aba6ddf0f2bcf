-- ===== src/Backup.antt =====
-- The copies of the vault file: `createTimestampedBackup` and `pruneTimestampedBackups` of
-- cmd/vault/commands.go, and `restore` of cmd/vault/restore_cli.go. The directory is its regular
-- files by name, and Calls says which calls on them are carried out. Backup.Replace and Backup.Kept
-- are about a restore that may stop at any call.
pub mod Count
pub mod Pruning
pub mod Created
pub mod Ordered
pub mod Lost
pub mod Placed
pub mod Restored
pub mod Replace
pub mod Kept
use myminivault.Prelude.{
  ℕ, ◌-◌, Bool, true, false, not, ◌&&◌, List, [], ◌∷◌, ◌++◌, Option, none, some, if◌then◌else◌,
  is_some, Bytes, codes, bytes_eq, cut_prefix, length, take, leb, Dict, lookup, insert, erase,
  Result, ok, err, ◌>>=◌, ◌>>◌, fail_if, map_err,
}
use myminivault.Model.{ExtendedVault, Time}
use myminivault.Container
use myminivault.Container.{parse}
use myminivault.Commands.Export.{sort_strings, keys}
use myminivault.Commands.Space.{trim_space}
use myminivault.Storage.Codec.{Library, Options, CodecError, load_bytes_from_data}
use myminivault.Rollback.{State, StateError, save_state}

abbrev pub Directory : Type 0
Directory = Dict Bytes

-- Which calls are carried out: the reads of a file that is there, the write, sync and close of a new
-- file, the removals, and of a replacement the rename and what follows it.
pub record Calls : Type 0 where
  pub can_read : Bytes → Bool
  pub can_write : Bytes → Bool
  pub can_remove : Bytes → Bool
  pub can_rename : Bool
  pub can_settle : Bool

pub data BackupError : Type 0 where
  failed_call : BackupError
  not_exist exists missing_vault usage : BackupError
  unreadable_backup unreadable_container : BackupError
  not_decrypted : CodecError → BackupError
  state_not_saved : Option StateError → BackupError

unfoldable pub has_suffix : Bytes → Bytes → Bool
has_suffix suffix [] = bytes_eq suffix []
has_suffix suffix (c ∷ s) =
    let rest = has_suffix suffix s in if bytes_eq suffix (c ∷ s) then true else rest

-- `filepath.Glob(vaultFile + ".*.bak")`, for a path of the vault without wildcards: the star is any
-- text, and no name holds a separator.
unfoldable pub is_backup : Bytes → Bytes → Bool
is_backup vault_file name = elim (cut_prefix name (vault_file ++ codes ".")) [
  | none ↦ false
  | some rest ↦ has_suffix (codes ".bak") rest
]

unfoldable pub keep {ℓ} : {A : Type ℓ} → (A → Bool) → List A → List A
keep p [] = []
keep p (x ∷ xs) = let rest = keep p xs in if p x then x ∷ rest else rest

-- `writeFileExclusive`; a file whose write fails is removed again.
unfoldable pub write_file_exclusive :
    Calls → Bytes → Bytes → Directory → Result BackupError Directory
write_file_exclusive calls name data' files =
    if is_some (lookup name files)
    then err exists
    else if calls.can_write name
    then ok (insert name data' files)
    else err failed_call

-- `copyFile`
unfoldable pub copy_file : Calls → Bytes → Bytes → Directory → Result BackupError Directory
copy_file calls src dst files = elim (lookup src files) [
  | none ↦ err not_exist
  | some data' ↦
      if calls.can_read src then write_file_exclusive calls dst data' files else err failed_call
]

-- The loop over `os.Remove`, which stops at the first error.
unfoldable pub remove_files : Calls → List Bytes → Directory → Result BackupError Directory
remove_files calls [] files = ok files
remove_files calls (name ∷ names) files =
    let rest = remove_files calls names (erase name files) in
    elim (lookup name files) [
      | none ↦ err not_exist
      | some data' ↦ if calls.can_remove name then rest else err failed_call
    ]

-- `sort.Strings(filepath.Glob(...))`
unfoldable pub sorted_backups : Bytes → Directory → List Bytes
sorted_backups vault_file files = sort_strings (keep (is_backup vault_file) (keys files))

unfoldable pub prune_timestamped_backups :
    Calls → ℕ → Bytes → Directory → Result BackupError Directory
prune_timestamped_backups calls max_backups vault_file files =
    let backups = sorted_backups vault_file files in
    if leb (length backups) max_backups
    then ok files
    else remove_files calls (take (length backups - max_backups) backups) files

-- `fmt.Sprintf("%s.%s.bak", vaultFile, timestamp)`
unfoldable pub backup_name : Bytes → Bytes → Bytes
backup_name vault_file stamp = vault_file ++ (codes "." ++ (stamp ++ codes ".bak"))

-- `stamp` is the time of the backup as it is formatted.
unfoldable pub create_timestamped_backup :
    Calls → ℕ → Bytes → Bytes → Directory → Result BackupError Directory
create_timestamped_backup calls max_backups vault_file stamp files = do
  fail_if (if is_some (lookup vault_file files) then false else true) missing_vault
  copied ← copy_file calls vault_file (backup_name vault_file stamp) files
  prune_timestamped_backups calls max_backups vault_file copied

-- `confirmRestore` on the line that was read.
unfoldable pub confirm_restore : (Bytes → Bytes) → Bytes → Bool
confirm_restore to_lower line = bytes_eq (trim_space (to_lower line)) (codes "yes")

unfoldable pub pre_restore_name : Bytes → Bytes → Bytes
pre_restore_name vault_file stamp = vault_file ++ (codes ".pre-restore-" ++ (stamp ++ codes ".bak"))

unfoldable pub create_pre_restore_backup :
    Calls → Bytes → Bytes → Directory → Result BackupError Directory
create_pre_restore_backup calls vault_file stamp files =
    if is_some (lookup vault_file files)
    then copy_file calls vault_file (pre_restore_name vault_file stamp) files
    else ok files

-- `replaceVaultWithBackupData`: the files afterwards, and its error. The rename takes the temporary file
-- away; after a failed one it is removed.
unfoldable pub replace_vault_with_backup_data :
    Calls → Bytes → Bytes → Directory → Directory × Option BackupError
replace_vault_with_backup_data calls vault_file backup_data files =
    let temp = vault_file ++ codes ".restore.tmp" in
    elim (write_file_exclusive calls temp backup_data files) [
      | err e ↦ (files, some e)
      | ok staged ↦
          if calls.can_rename
          then (
            insert vault_file backup_data (erase temp staged),
            if calls.can_settle then none else some failed_call,
          )
          else (erase temp staged, some failed_call)
    ]

-- The files and the trusted state that `restore` works on, and how it ends: cancelled, restored, or
-- an error with what was changed before it.
pub record Vaults : Type 0 where
  pub files : Directory
  pub trusted : Result StateError State

pub data RestoreEnd : Type 0 where
  cancelled restored : RestoreEnd
  failed : BackupError → RestoreEnd

-- What `restore` meets: `args` is `os.Args` from the argument on, `line` what is typed to confirm,
-- `state_ok` whether the state can be written.
pub record RestoreSetting : Type 0 where
  pub vault_file : Bytes
  pub args : List Bytes
  pub password : Bytes
  pub options : Options
  pub now : Time
  pub stamp : Bytes
  pub to_lower : Bytes → Bytes
  pub line : Bytes
  pub state_ok : Bool
  pub calls : Calls

module _ (lib : Library) (s : RestoreSetting) where
  -- The part before the preview: the bytes of the backup and the vault in them.
  unfoldable pub read_backup : Directory → Result BackupError (Bytes × ExtendedVault)
  read_backup files = elim s.args [
    | [] ↦ err usage
    | path ∷ more ↦ elim more [
      | [] ↦ elim (lookup path files) [
        | none ↦ err unreadable_backup
        | some backup_data ↦ do
          fail_if (not (s.calls.can_read path)) unreadable_backup
          opened ←
              map_err (λ e. not_decrypted e)
                (load_bytes_from_data lib backup_data s.password s.options s.now)
          parsed ←
              map_err (λ e. unreadable_container)
                (parse lib.unmarshal_metadata backup_data s.options.salt_size)
          ok (backup_data, opened.0)
      ]
      | x ∷ rest ↦ err usage
    ]
  ]

  -- From the confirmed restore on.
  unfoldable pub restore_confirmed : Bytes → ExtendedVault → Vaults → Vaults × RestoreEnd
  restore_confirmed backup_data candidate vaults =
      elim (create_pre_restore_backup s.calls s.vault_file s.stamp vaults.files) [
        | err e ↦ (vaults, failed e)
        | ok kept ↦
            let (replaced, problem) =
              replace_vault_with_backup_data s.calls s.vault_file backup_data kept in
            elim problem [
              | some e ↦ (record vaults { files = replaced }, failed e)
              | none ↦ elim (save_state candidate.metadata s.now) [
                | err e ↦ (record vaults { files = replaced }, failed (state_not_saved (some e)))
                | ok state ↦
                    if s.state_ok
                    then (record { files = replaced; trusted = ok state }, restored)
                    else (record vaults { files = replaced }, failed (state_not_saved none))
              ]
            ]
      ]

  -- `handleRestoreCommand`
  unfoldable pub handle_restore_command : Vaults → Vaults × RestoreEnd
  handle_restore_command vaults = elim (read_backup vaults.files) [
    | err e ↦ (vaults, failed e)
    | ok (backup_data, candidate) ↦
        if confirm_restore s.to_lower s.line
        then restore_confirmed backup_data candidate vaults
        else (vaults, cancelled)
  ]
