-- ===== src/Token/Save/Crash.antt =====
-- What an interrupted save of the shared token vault leaves, for every schedule of failures and for a
-- stop at every call.
use myminivault.Prelude.{◌≡◌, refl, true, Option, none, some, Bytes, List, ok, inl, inr}
use myminivault.Container.{Metadata, wrap, kind_shared_token_vault}
use myminivault.Files.{
  Name, primary, backup, temp, Files, World, file, unchanged, exists_exit, update, name_eq,
  reject_symlink_or_missing, pure, remove,
}
use myminivault.Files.Hoare.{
  Runs, Post, Runs-call, Runs-bind, Runs-then, Runs-on_error, Runs-ignore, Runs-weaken,
}
use myminivault.Files.Calls.{Runs-sync_parent_dir, Runs-chmod, Runs-reject_symlink_or_missing}
use myminivault.Files.Temp.{fill_temp}
use myminivault.Files.Temp.Fill
use myminivault.Storage.Save.{wrapped_or_fail}
use myminivault.Storage.Save.Undo.{
  IsOld, IsSafe, IsWritten, IsMovedWritten, HasBackup, IsInstalled, IsOld-IsSafe, loosely,
  Runs-drop_temp, Runs-restore, Runs-undo_rename, Runs-keep_backup, Runs-move_in, Runs-or_undo,
  new_back,
}
use myminivault.Token.Save.{
  Found, nothing, a_directory, a_file, found_exit, stat_found, undo_install, install_shared,
  replace_shared, save_vault_file_atomic,
}

module _ (old new : Bytes) where
  abbrev C : Files → Type 0
  C = IsSafe old new

  installed : (fs : Files) → IsInstalled old new fs → C fs
  installed fs p = inr (inr p.0)

  Runs-take_out :
      Runs C (IsInstalled old new) (remove primary) (λ _. HasBackup old new) (HasBackup old new)
  unfolding remove name_eq
  Runs-take_out =
      Runs-call C (λ fs. (exists_exit (fs primary), update fs primary none)) unchanged
        (λ fs p. removed fs p) (λ k fs p. (inr p.0, inr (inr p.0)))
    where
      removed :
          (fs : Files)
          → IsInstalled old new fs
          → Post
              (λ _. HasBackup old new)
              (HasBackup old new)
              C
              (exists_exit (fs primary))
              (update fs primary none)
      removed fs p = rw p.0.0 (inl (refl, p.0.1))

  -- The installed vault is removed, and the old one put back.
  Runs-undo_install : Runs C (IsInstalled old new) (undo_install true) (λ _. C) C
  unfolding undo_install
  Runs-undo_install =
      Runs-then C (Runs-ignore C (HasBackup old new) C Runs-take_out)
        (Runs-ignore C C C (Runs-restore old new))

  Runs-install_shared :
      Runs C (IsMovedWritten old new) (install_shared true) (λ _. IsInstalled old new) C
  unfolding install_shared
  Runs-install_shared =
      Runs-then C
        (Runs-on_error C (λ _. IsInstalled old new) (Runs-move_in old new)
          (Runs-undo_rename old new))
        (Runs-then C
          (Runs-or_undo old new (new_back old new)
            (Runs-sync_parent_dir C (IsInstalled old new) installed))
          (Runs-on_error C (λ _. IsInstalled old new)
            (Runs-chmod C (IsInstalled old new) installed primary) Runs-undo_install))

  Runs-stat_found :
      Runs C
        (IsWritten old new)
        (stat_found primary)
        (λ found fs. IsWritten old new fs × (found ≡ a_file))
        C
  unfolding stat_found
  Runs-stat_found =
      Runs-call C (λ fs. (found_exit (fs primary), fs)) unchanged (λ fs p. at_file fs p)
        (λ k fs p. (inl p.0, inl p.0))
    where
      at_file :
          (fs : Files)
          → IsWritten old new fs
          → Post
              (λ found f. IsWritten old new f × (found ≡ a_file))
              C
              C
              (found_exit (fs primary))
              fs
      at_file fs (p, t) = rw p ((p, t), refl)

  Runs-replace_shared :
      (found : Found)
      → Runs C
          (λ fs. IsWritten old new fs × (found ≡ a_file))
          (replace_shared found)
          (λ _. IsInstalled old new)
          C
  unfolding replace_shared
  Runs-replace_shared nothing = record { at = λ w p. cc (p.1) }
  Runs-replace_shared a_directory = record { at = λ w p. cc (p.1) }
  Runs-replace_shared a_file =
      Runs-then C (Runs-weaken C (λ f p. p.0) (λ a f q. q) (λ f e. e) (Runs-keep_backup old new))
        Runs-install_shared

  -- The bytes come from `container.Wrap`.
  Runs-fill : Runs C (IsOld old new) (fill_temp temp (pure new)) (λ _. IsWritten old new) C
  unfolding pure name_eq
  Runs-fill =
      Fill.Runs-fill_temp C (IsOld old new) (IsOld-IsSafe old new) temp (λ fs entry p. p)
        (λ fs entry p. p) new (pure new) (record { at = λ w p. (p, refl) })

  Runs-save :
      (marshal : Metadata → Option Bytes) (salt ciphertext : Bytes) (metadata : List Metadata)
      → wrap marshal kind_shared_token_vault salt ciphertext metadata ≡ ok new
      → Runs C
          (IsOld old new)
          (save_vault_file_atomic marshal salt ciphertext metadata)
          (λ _. IsInstalled old new)
          C
  unfolding save_vault_file_atomic wrapped_or_fail
  Runs-save marshal salt ciphertext metadata e =
      let check : (n : Name)
          → Runs C (IsOld old new) (reject_symlink_or_missing n) (λ _. IsOld old new) C =
        λ n.
          loosely old new (IsOld-IsSafe old new)
            (Runs-reject_symlink_or_missing C (IsOld old new) (IsOld-IsSafe old new) n) in
      rw e (
        Runs-then C (check primary) (
          Runs-then C (check backup) (
            Runs-then C (check temp) (
              Runs-then C Runs-fill (
                Runs-bind C
                  (Runs-on_error C (λ found fs. IsWritten old new fs × (found ≡ a_file))
                    Runs-stat_found (Runs-drop_temp old new))
                  Runs-replace_shared)))))

-- However the calls of a save over an existing shared vault fail, and wherever the process stops: the
-- old vault is in place, or it is whole as the backup while the vault is missing or is the whole new
-- one. Where the save returns without an error, the new vault is in place, the old one is the backup,
-- and no temporary file is left.
pub save_vault_file_atomic-IsSafe :
    (marshal : Metadata → Option Bytes) (salt ciphertext : Bytes) (metadata : List Metadata)
    (old new : Bytes) (w : World)
    → wrap marshal kind_shared_token_vault salt ciphertext metadata ≡ ok new
    → w.files primary ≡ some (file old)
    → let run = save_vault_file_atomic marshal salt ciphertext metadata w in
      Post (λ _. IsInstalled old new) (IsSafe old new) (IsSafe old new) run.0 run.1.files
save_vault_file_atomic-IsSafe marshal salt ciphertext metadata old new w e p =
    (Runs-save old new marshal salt ciphertext metadata e).at w p
