-- ===== src/Token/Save.antt =====
-- `SaveVaultFileAtomic` of internal/token/token.go on the calls of Files: `primary` is the shared token
-- vault, `backup` its .bak and `temp` its .tmp.
pub mod Crash
pub mod Blocked
use myminivault.Prelude.{Option, none, some, Bool, true, false, Bytes, List, if◌then◌else◌}
use myminivault.Container.{Metadata, wrap, kind_shared_token_vault}
use myminivault.Files.{
  Io, ◌>>=◌, ◌>>◌, pure, raise, ignore, on_error, call, unchanged, Name, Node, directory, Exit, ok,
  io, primary, backup, temp, reject_symlink, read_exit, reject_symlink_or_missing, sync_parent_dir,
  rename, chmod, remove,
}
use myminivault.Files.Temp.{fill_temp}
use myminivault.Storage.Save.{undo_rename, keep_backup, wrapped_or_fail}

-- What `os.Stat` finds.
pub data Found : Type 0 where
  nothing a_directory a_file : Found

abbrev pub found_exit : Option Node → Exit Found
found_exit none = ok nothing
found_exit (some directory) = ok a_directory
found_exit (some _) = ok a_file

unfoldable pub stat_found : Name → Io Found
unfolding call
stat_found n = call (λ fs. (found_exit (fs n), fs)) unchanged

-- The cleanup after the last `os.Chmod`.
unfoldable pub undo_install : Bool → Io (Unit {0})
undo_install had_primary =
    if had_primary then (do ignore (remove primary); ignore (rename backup primary)) else pure tt

unfoldable pub install_shared : Bool → Io (Unit {0})
install_shared had_primary = do
  on_error (rename temp primary) (undo_rename had_primary)
  on_error sync_parent_dir (undo_rename had_primary)
  on_error (chmod primary) (undo_install had_primary)

unfoldable pub replace_shared : Found → Io (Unit {0})
replace_shared nothing = install_shared false
replace_shared a_directory = do ignore (remove temp); raise io
replace_shared a_file = do keep_backup true; install_shared true

unfoldable pub save_vault_file_atomic :
    (Metadata → Option Bytes) → Bytes → Bytes → List Metadata → Io (Unit {0})
save_vault_file_atomic marshal salt data' metadata = do
  reject_symlink_or_missing primary
  reject_symlink_or_missing backup
  reject_symlink_or_missing temp
  fill_temp temp (wrapped_or_fail (wrap marshal kind_shared_token_vault salt data' metadata))
  found ← on_error (stat_found primary) (ignore (remove temp))
  replace_shared found

-- `RejectSymlink` and `os.ReadFile`, as `LoadEncryptedVault` calls them.
unfoldable pub read_shared : Io Bytes
unfolding call
read_shared = do reject_symlink primary; call (λ fs. (read_exit (fs primary), fs)) unchanged
