-- ===== src/Storage/Load.antt =====
-- `LoadBytes`, `LoadFileBytes` and `recoverInterruptedSave` of internal/storage/storage.go on the
-- calls of Files. An error of the codec is `bad_container`.
pub mod Recovery
pub mod Marker
use myminivault.Prelude.{Bool, true, false, Bytes, Option, none, some, List, [], Result}
use myminivault.Model.{ExtendedVault, Time, new_vault}
use myminivault.Storage.Codec.{Library, Options, CodecError, load_bytes_from_data}
use myminivault.Files.{
  Io, World, Exit, FileError, ◌>>=◌, ◌>>◌, pure, raise, ignore, Name, primary, backup, temp,
  transaction, not_exist, exists, is_symlink, io, bad_container, read_checked, stat_exists, rename,
  chmod, remove, sync_parent_dir,
}
use myminivault.Files
use myminivault.Prelude

-- A call whose error is looked at by the caller.
unfoldable pub attempt_exit : {A : Type 0} → Exit A → Exit (Result FileError A)
attempt_exit (Files.ok a) = Files.ok (Prelude.ok a)
attempt_exit (Files.err e) = Files.ok (Prelude.err e)
attempt_exit Files.crashed = Files.crashed

unfoldable pub attempt : {A : Type 0} → Io A → Io (Result FileError A)
attempt m w = let (r, w') = m w in (attempt_exit r, w')

-- `cleanupInterruptedSaveMarker`
unfoldable pub cleanup_interrupted_save_marker : Io (Unit {0})
cleanup_interrupted_save_marker = do ignore (remove transaction); ignore (remove temp)

module _ (lib : Library) (password : Bytes) (opts : Options) (now : Time) where
  unfoldable pub decoded : Result CodecError (ExtendedVault × Bytes) → Io (ExtendedVault × Bytes)
  decoded (Prelude.ok opened) = pure opened
  decoded (Prelude.err e) = raise bad_container

  unfoldable pub load_file_bytes : Name → Io (ExtendedVault × Bytes)
  load_file_bytes n = do
    data' ← read_checked n
    decoded (load_bytes_from_data lib data' password opts now)

  -- The empty vault of a first start, with the salt that `Random` gives.
  abbrev pub first_vault : Bytes → ExtendedVault × Bytes
  first_vault random_salt = (new_vault (some []) opts.version now, random_salt)

  -- What follows the backup in `recoverInterruptedSave`.
  unfoldable pub restore_from :
      Bytes
      → FileError
      → Result FileError (ExtendedVault × Bytes)
      → Io (Option (ExtendedVault × Bytes))
  restore_from random_salt primary_err (Prelude.ok opened) = do
    rename backup primary
    sync_parent_dir
    ignore (chmod primary)
    cleanup_interrupted_save_marker
    pure (some opened)
  restore_from random_salt not_exist (Prelude.err e) = do
    cleanup_interrupted_save_marker
    pure (some (first_vault random_salt))
  restore_from random_salt primary_err (Prelude.err e) = raise primary_err

  unfoldable pub recover_if : Bytes → FileError → Bool → Io (Option (ExtendedVault × Bytes))
  recover_if random_salt primary_err false = pure none
  recover_if random_salt primary_err true = do
    opened ← attempt (load_file_bytes backup)
    restore_from random_salt primary_err opened

  -- `recoverInterruptedSave`; `none` is its last result `false`.
  unfoldable pub recover_interrupted_save : Bytes → FileError → Io (Option (ExtendedVault × Bytes))
  recover_interrupted_save random_salt primary_err = do
    interrupted ← stat_exists transaction
    recover_if random_salt primary_err interrupted

  -- The fallback of `LoadBytes` where the vault is missing.
  unfoldable pub or_first :
      Bytes → Result FileError (ExtendedVault × Bytes) → Io (ExtendedVault × Bytes)
  or_first random_salt (Prelude.ok opened) = pure opened
  or_first random_salt (Prelude.err e) = pure (first_vault random_salt)

  unfoldable pub fall_back : Bytes → FileError → Io (ExtendedVault × Bytes)
  fall_back random_salt not_exist = do
    opened ← attempt (load_file_bytes backup)
    or_first random_salt opened
  fall_back random_salt primary_err = raise primary_err

  unfoldable pub unless_recovered :
      Bytes → FileError → Option (ExtendedVault × Bytes) → Io (ExtendedVault × Bytes)
  unless_recovered random_salt primary_err (some opened) = pure opened
  unless_recovered random_salt primary_err none = fall_back random_salt primary_err

  unfoldable pub after_primary :
      Bytes → Result FileError (ExtendedVault × Bytes) → Io (ExtendedVault × Bytes)
  after_primary random_salt (Prelude.ok opened) = do cleanup_interrupted_save_marker; pure opened
  after_primary random_salt (Prelude.err primary_err) = do
    recovered ← recover_interrupted_save random_salt primary_err
    unless_recovered random_salt primary_err recovered

  -- `LoadBytes`
  unfoldable pub load_bytes : Bytes → Io (ExtendedVault × Bytes)
  load_bytes random_salt = do
    opened ← attempt (load_file_bytes primary)
    after_primary random_salt opened
