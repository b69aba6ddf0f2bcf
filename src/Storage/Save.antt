-- ===== src/Storage/Save.antt =====
-- `SaveFileAtomic` of internal/storage/storage.go on the calls of Files. `stamp` is the line with
-- the time that goes into the transaction marker.
pub mod Undo
pub mod Crash
pub mod Calm
use myminivault.Prelude.{Option, Bool, true, false, Bytes, List, Result, ok, err, if◌then◌else◌}
use myminivault.Container
use myminivault.Container.{Metadata, wrap, kind_main_vault}
use myminivault.Files.{
  Io, ◌>>=◌, ◌>>◌, pure, raise, ignore, on_error, primary, backup, temp, transaction, bad_container,
  Name, reject_symlink_or_missing, create_exclusive, write, sync_file, close_file, sync_parent_dir,
  stat_exists, rename, chmod, remove,
}

-- `WriteFileCreateExclusiveChecked`: the file is closed also where the write fails.
unfoldable pub write_create_exclusive : Name → Bytes → Io (Unit {0})
write_create_exclusive n data' = do
  create_exclusive n
  on_error (write n data') (ignore close_file)
  close_file

-- `f.Close(); fileOps.remove(tempFile)`
unfoldable pub abandon_open_temp : Io (Unit {0})
abandon_open_temp = do ignore close_file; ignore (remove temp)

-- `_ = fileOps.rename(vaultFile+".bak", vaultFile)`, if there was a vault before.
unfoldable pub restore_backup : Bool → Io (Unit {0})
restore_backup had_primary = if had_primary then ignore (rename backup primary) else pure tt

unfoldable pub undo_rename : Bool → Io (Unit {0})
undo_rename had_primary = do restore_backup had_primary; ignore (remove temp)

-- The branch in which the old vault becomes the backup.
unfoldable pub keep_backup : Bool → Io (Unit {0})
keep_backup false = pure tt
keep_backup true = do
  on_error (rename primary backup) (ignore (remove temp))
  on_error sync_parent_dir (undo_rename true)
  on_error (chmod backup) (undo_rename true)

unfoldable pub wrapped_or_fail : Result Container.Error Bytes → Io Bytes
wrapped_or_fail (ok data') = pure data'
wrapped_or_fail (err e) = raise bad_container

unfoldable pub install_over : Bool → Io (Unit {0})
install_over had_primary = do
  keep_backup had_primary
  on_error (rename temp primary) (undo_rename had_primary)
  on_error sync_parent_dir (undo_rename had_primary)
  chmod primary

-- From the test for a vault to the mode of the new one.
unfoldable pub install : Io (Unit {0})
install = do
  had_primary ← on_error (stat_exists primary) (ignore (remove temp))
  install_over had_primary

-- The part that runs while the transaction is active.
unfoldable pub replace_primary : Result Container.Error Bytes → Io (Unit {0})
replace_primary wrapped = do
  create_exclusive temp
  data' ← on_error (wrapped_or_fail wrapped) abandon_open_temp
  on_error (write temp data') abandon_open_temp
  on_error sync_file abandon_open_temp
  on_error close_file (ignore (remove temp))
  install

-- The deferred function, for every return with an error before the transaction ends.
unfoldable pub abort_transaction : Io (Unit {0})
abort_transaction = do ignore (remove transaction); ignore sync_parent_dir

-- `SaveFileAtomic`, from the bytes of `container.Wrap`.
unfoldable pub save_wrapped : Bytes → Result Container.Error Bytes → Io (Unit {0})
save_wrapped stamp wrapped = do
  reject_symlink_or_missing primary
  reject_symlink_or_missing backup
  reject_symlink_or_missing temp
  reject_symlink_or_missing transaction
  write_create_exclusive transaction stamp
  on_error sync_parent_dir (ignore (remove transaction))
  on_error (replace_primary wrapped) abort_transaction
  remove transaction
  sync_parent_dir

unfoldable pub save_file_atomic :
    (Metadata → Option Bytes) → Bytes → Bytes → Bytes → List Metadata → Io (Unit {0})
save_file_atomic marshal stamp salt data' metadata =
    save_wrapped stamp (wrap marshal kind_main_vault salt data' metadata)
