-- ===== src/Storage/Load/Recovery.antt =====
-- What a load finds after an interrupted save.
use myminivault.Prelude.{
  true, false, ◌≡◌, refl, ◌∙◌, Bytes, Option, none, some, List, [], ◌⊎◌, inl, inr, arith,
}
use myminivault.Prelude
use myminivault.Files
use myminivault.Model.{ExtendedVault, Time}
use myminivault.Container.{Metadata, wrap, kind_main_vault}
use myminivault.Storage.Codec.{Library, Options, load_bytes_from_data}
use myminivault.Storage.Save.{save_file_atomic}
use myminivault.Storage.Save.Undo.{IsSafe, IsSaved}
use myminivault.Storage.Save.Crash.{save_file_atomic-IsSafe}
use myminivault.Storage.Load.{
  attempt, attempt_exit, decoded, load_file_bytes, load_bytes, after_primary,
  cleanup_interrupted_save_marker, recover_interrupted_save, recover_if, restore_from,
  unless_recovered, fall_back, or_first,
}
use myminivault.Files.Hoare.{Post}
use myminivault.Files.{
  FileError, calm, after_exit, Node, update, drop_error, exists_exit, stat_exit, Files, World, Exit,
  Io, ◌>>=◌, ◌>>◌, file, pure, ignore, call, Name, primary, backup, temp, transaction, read_checked,
  reject_symlink, reject_symlink_or_missing, remove, stat_exists, rename, is_refused, chmod,
  sync_parent_dir, name_eq, read_exit, lstat_exit,
}

module _ (n : Name) (fs : Files) (content : Bytes) (p : fs n ≡ some (file content)) where
  reject_symlink-found : reject_symlink n (calm fs) ≡ (Files.ok tt, calm fs)
  unfolding reject_symlink call
  reject_symlink-found = rw p refl

  reject_symlink_or_missing-found : reject_symlink_or_missing n (calm fs) ≡ (Files.ok tt, calm fs)
  unfolding reject_symlink_or_missing
  reject_symlink_or_missing-found = rw reject_symlink-found refl

  pub read_checked-found : read_checked n (calm fs) ≡ (Files.ok content, calm fs)
  unfolding read_checked ◌>>◌ call
  read_checked-found = rw reject_symlink-found (rw reject_symlink_or_missing-found (rw p refl))

reject_symlink-missing :
    (n : Name) (fs : Files)
    → fs n ≡ none
    → reject_symlink n (calm fs) ≡ (Files.err Files.not_exist, calm fs)
unfolding reject_symlink call
reject_symlink-missing n fs p = rw p refl

read_checked-missing :
    (n : Name) (fs : Files)
    → fs n ≡ none
    → read_checked n (calm fs) ≡ (Files.err Files.not_exist, calm fs)
unfolding read_checked ◌>>◌
read_checked-missing n fs p = rw (reject_symlink-missing n fs p) refl

Post-IsSafe :
    (old new : Bytes) (r : Exit (Unit {0})) (fs : Files)
    → Post (λ _. IsSaved old new) (IsSafe old new) (IsSafe old new) r fs
    → IsSafe old new fs
Post-IsSafe old new (Files.ok a) fs h = inr (inr h.0)
Post-IsSafe old new (Files.err e) fs h = h
Post-IsSafe old new Files.crashed fs h = h

drop_exists : (entry : Option Node) → drop_error (exists_exit entry) ≡ Files.ok tt
drop_exists none = refl
drop_exists (some x) = refl

ignore-remove-calm :
    (n : Name) (fs : Files) → ignore (remove n) (calm fs) ≡ (Files.ok tt, calm (update fs n none))
unfolding ignore remove call
ignore-remove-calm n fs = rw (drop_exists (fs n)) refl

ignore-chmod-calm : (n : Name) (fs : Files) → ignore (chmod n) (calm fs) ≡ (Files.ok tt, calm fs)
unfolding ignore chmod call
ignore-chmod-calm n fs = rw (drop_exists (fs n)) refl

-- The files after the backup is put in place and the marker is cleared.
abbrev pub restored_files : Bytes → Files → Files
restored_files content fs =
    update (update (update (update fs backup none) primary (some (file content))) transaction none)
      temp none

cleanup-calm :
    (fs : Files)
    → cleanup_interrupted_save_marker (calm fs)
      ≡ (Files.ok tt, calm (update (update fs transaction none) temp none))
unfolding cleanup_interrupted_save_marker ◌>>◌
cleanup-calm fs =
    rw (ignore-remove-calm transaction fs) (ignore-remove-calm temp (update fs transaction none))

module _ (lib : Library) (password : Bytes) (opts : Options) (now : Time)
    (random_salt : Bytes) where
  load_file_bytes-found :
      (n : Name) (fs : Files) (content : Bytes) (opened : ExtendedVault × Bytes)
      → fs n ≡ some (file content)
      → load_bytes_from_data lib content password opts now ≡ Prelude.ok opened
      → load_file_bytes lib password opts now n (calm fs) ≡ (Files.ok opened, calm fs)
  unfolding load_file_bytes decoded pure ◌>>=◌
  load_file_bytes-found n fs content opened p h = rw (read_checked-found n fs content p) (rw h refl)

  load_file_bytes-missing :
      (n : Name) (fs : Files)
      → fs n ≡ none
      → load_file_bytes lib password opts now n (calm fs) ≡ (Files.err Files.not_exist, calm fs)
  unfolding load_file_bytes ◌>>=◌
  load_file_bytes-missing n fs p = rw (read_checked-missing n fs p) refl

  -- A vault that is in place and opens is what a load returns.
  load_bytes-found :
      (fs : Files) (content : Bytes) (opened : ExtendedVault × Bytes)
      → fs primary ≡ some (file content)
      → load_bytes_from_data lib content password opts now ≡ Prelude.ok opened
      → (load_bytes lib password opts now random_salt (calm fs)).0 ≡ Files.ok opened
  unfolding load_bytes attempt attempt_exit after_primary pure ◌>>=◌ ◌>>◌
  load_bytes-found fs content opened p h =
      rw (load_file_bytes-found primary fs content opened p h) (rw (cleanup-calm fs) refl)

  -- The backup, with no marker beside it.
  fall_back-found :
      (fs : Files) (content : Bytes) (opened : ExtendedVault × Bytes)
      → fs backup ≡ some (file content)
      → load_bytes_from_data lib content password opts now ≡ Prelude.ok opened
      → (fall_back lib password opts now random_salt Files.not_exist (calm fs)).0 ≡ Files.ok opened
  unfolding fall_back attempt attempt_exit or_first pure ◌>>=◌
  fall_back-found fs content opened b h =
      rw (load_file_bytes-found backup fs content opened b h) refl

  -- The backup, with a marker: it is put in place, and the marker and the temporary file go.
  pub recover_if-found :
      (fs : Files) (content : Bytes) (opened : ExtendedVault × Bytes) (primary_err : FileError)
      → fs backup ≡ some (file content)
      → is_refused (file content) (fs primary) ≡ false
      → load_bytes_from_data lib content password opts now ≡ Prelude.ok opened
      → recover_if lib password opts now random_salt primary_err true (calm fs)
        ≡ (Files.ok (some opened), calm (restored_files content fs))
  unfolding recover_if restore_from attempt attempt_exit pure rename sync_parent_dir call ◌>>=◌ ◌>>◌
  recover_if-found fs content opened primary_err b r h =
      rw (load_file_bytes-found backup fs content opened b h) (
        rw (b, r)
          (rw
            (ignore-chmod-calm primary
              (update (update fs backup none) primary (some (file content))))
            (rw (cleanup-calm (update (update fs backup none) primary (some (file content))))
              refl)))

  load_bytes-moved :
      (fs : Files) (content : Bytes) (opened : ExtendedVault × Bytes)
      → fs primary ≡ none
      → fs backup ≡ some (file content)
      → load_bytes_from_data lib content password opts now ≡ Prelude.ok opened
      → (load_bytes lib password opts now random_salt (calm fs)).0 ≡ Files.ok opened
  unfolding load_bytes attempt attempt_exit after_primary recover_interrupted_save stat_exists call
      pure unless_recovered recover_if ◌>>=◌
  load_bytes-moved fs content opened p b h =
      rw (load_file_bytes-missing primary fs p) (by_marker (fs transaction))
    where
      by_marker :
          (marker : Option Node)
          → let found =
              after_exit
                (stat_exit marker)
                (recover_if lib password opts now random_salt Files.not_exist)
                (calm fs) in
            (after_exit found.0
              (unless_recovered lib password opts now random_salt Files.not_exist)
              found.1).0
            ≡ Files.ok opened
      by_marker none = fall_back-found fs content opened b h
      by_marker (some x) =
          rw (recover_if-found fs content opened Files.not_exist b (rw p refl) h) refl

  -- A load under the same password, with every call carried out, after a save over an existing
  -- vault under any schedule of failures and stops: it returns the old vault or the new one, if both
  -- open under the password.
  pub load_bytes-save_file_atomic :
      (marshal : Metadata → Option Bytes) (stamp salt ciphertext : Bytes) (metadata : List Metadata)
      → (old new : Bytes) (old_vault new_vault : ExtendedVault × Bytes) (w : World)
      → wrap marshal kind_main_vault salt ciphertext metadata ≡ Prelude.ok new
      → w.files primary ≡ some (file old)
      → load_bytes_from_data lib old password opts now ≡ Prelude.ok old_vault
      → load_bytes_from_data lib new password opts now ≡ Prelude.ok new_vault
      → let left = (save_file_atomic marshal stamp salt ciphertext metadata w).1.files in
        let loaded = (load_bytes lib password opts now random_salt (calm left)).0 in
        (loaded ≡ Files.ok old_vault) ⊎ (loaded ≡ Files.ok new_vault)
  load_bytes-save_file_atomic marshal stamp salt ciphertext metadata old new old_vault new_vault w e
        p h k =
      let run = save_file_atomic marshal stamp salt ciphertext metadata w in
      from_safe run.1.files (
        Post-IsSafe old new run.0 run.1.files
          (save_file_atomic-IsSafe marshal stamp salt ciphertext metadata old new w e p))
    where
      from_safe :
          (fs : Files)
          → IsSafe old new fs
          → let loaded = (load_bytes lib password opts now random_salt (calm fs)).0 in
            (loaded ≡ Files.ok old_vault) ⊎ (loaded ≡ Files.ok new_vault)
      from_safe fs (inl q) = inl (load_bytes-found fs old old_vault q h)
      from_safe fs (inr (inl q)) = inl (load_bytes-moved fs old old_vault q.0 q.1 h)
      from_safe fs (inr (inr q)) = inr (load_bytes-found fs new new_vault q.0 k)
