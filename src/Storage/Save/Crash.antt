-- ===== src/Storage/Save/Crash.antt =====
-- What an interrupted save leaves, for every schedule of failures and for a stop at every call.
use myminivault.Prelude.{
  ◌≢◌, ◌≡◌, refl, Bool, true, false, Option, none, some, Bytes, List, ok, inl, inr, arith,
}
use myminivault.Container.{Metadata, wrap, kind_main_vault}
use myminivault.Files.{
  Name, primary, backup, temp, transaction, Files, World, Node, file, unchanged, update, stat_exit,
  name_eq, reject_symlink_or_missing, pure, remove, stat_exists, close_file, sync_parent_dir, ◌>>◌,
  write,
}
use myminivault.Files.Hoare.{
  Runs, Post, Runs-call, Runs-bind, Runs-then, Runs-on_error, Runs-ignore, Runs-weaken,
}
use myminivault.Files.Calls.{
  Runs-sync_file, Runs-close_file, Runs-sync_parent_dir, Runs-chmod, Runs-reject_symlink_or_missing,
  Runs-create_exclusive, Runs-write, Runs-remove,
}
use myminivault.Storage.Save.{
  write_create_exclusive, wrapped_or_fail, install_over, install, replace_primary, save_wrapped,
  save_file_atomic,
}
use myminivault.Storage.Save.Undo.{
  IsOld, IsSafe, IsSaved, IsWritten, IsInstalled, IsOld-IsSafe, loosely, Runs-drop_temp,
  Runs-drop_transaction, Runs-abandon_open_temp, Runs-abort_transaction, Runs-undo_rename,
  Runs-move_in, Runs-or_undo, new_back, Runs-keep_backup,
}

false_not_true : false ≢ true
false_not_true h = ground arith

module _ (old new : Bytes) where
  abbrev C : Files → Type 0
  C = IsSafe old new

  -- The test for a vault finds the old one.
  Runs-stat :
      Runs C
        (IsWritten old new)
        (stat_exists primary)
        (λ had fs. IsWritten old new fs × (had ≡ true))
        C
  unfolding stat_exists
  Runs-stat =
      Runs-call C (λ fs. (stat_exit (fs primary), fs)) unchanged (λ fs p. found fs p)
        (λ k fs p. (inl p.0, inl p.0))
    where
      found :
          (fs : Files)
          → IsWritten old new fs
          → Post (λ had f. (IsWritten old new) f × (had ≡ true)) C C (stat_exit (fs primary)) fs
      found fs (p, t) = rw p ((p, t), refl)

  Runs-install_over :
      (had : Bool)
      → Runs C
          (λ fs. IsWritten old new fs × (had ≡ true))
          (install_over had)
          (λ _. (IsInstalled old new))
          C
  unfolding install_over
  Runs-install_over false = record { at = λ w p. absurd (false_not_true p.1) }
  Runs-install_over true =
      let safe : (fs : Files) → IsInstalled old new fs → C fs = λ fs p. inr (inr p.0) in
      Runs-then C (Runs-weaken C (λ f p. p.0) (λ a f q. q) (λ f e. e) (Runs-keep_backup old new)) (
        Runs-then C
          (Runs-on_error C (λ _. (IsInstalled old new)) (Runs-move_in old new)
            (Runs-undo_rename old new))
          (Runs-then C
            ((Runs-or_undo old new) (new_back old new)
              (Runs-sync_parent_dir C (IsInstalled old new) safe))
            ((loosely old new) safe (Runs-chmod C (IsInstalled old new) safe primary))))

  Runs-install : Runs C (IsWritten old new) install (λ _. (IsInstalled old new)) C
  unfolding install
  Runs-install =
      Runs-bind C
        (Runs-on_error C (λ had fs. IsWritten old new fs × (had ≡ true)) Runs-stat
          (Runs-drop_temp old new))
        Runs-install_over

  Runs-write_temp :
      (data' : Bytes)
      → Runs C
          (λ fs. IsOld old new fs × (data' ≡ new))
          (write temp data')
          (λ _. (IsWritten old new))
          C
  unfolding name_eq
  Runs-write_temp data' = record { at = λ w p. (written p.1).at w p.0 }
    where
      written : data' ≡ new → Runs C (IsOld old new) (write temp data') (λ _. (IsWritten old new)) C
      written e =
          Runs-weaken C (λ f p. p) (λ a f q. (q.0, rw (← e) q.1)) (IsOld-IsSafe old new)
            (Runs-write C (IsOld old new) (IsOld-IsSafe old new) temp (λ fs entry p. p) data')

  Runs-replace_primary :
      Runs C (IsOld old new) (replace_primary (ok new)) (λ _. (IsInstalled old new)) C
  unfolding replace_primary wrapped_or_fail pure name_eq
  Runs-replace_primary =
      let written : (fs : Files) → IsWritten old new fs → C fs = λ fs p. inl p.0 in
      Runs-then C
        ((loosely old new) (IsOld-IsSafe old new)
          (Runs-create_exclusive C (IsOld old new) (IsOld-IsSafe old new) temp (λ fs entry p. p)))
        (Runs-bind C
          (Runs-on_error C (λ data' fs. IsOld old new fs × (data' ≡ new))
            (record { at = λ w p. (p, refl) }) (Runs-abandon_open_temp old new))
          (λ data'.
            Runs-then C
              (Runs-on_error C (λ _. (IsWritten old new)) (Runs-write_temp data')
                (Runs-abandon_open_temp old new))
              (Runs-then C
                (Runs-on_error C (λ _. (IsWritten old new))
                  ((loosely old new) written (Runs-sync_file C (IsWritten old new) written))
                  (Runs-abandon_open_temp old new))
                (Runs-then C
                  (Runs-on_error C (λ _. (IsWritten old new))
                    ((loosely old new) written (Runs-close_file C (IsWritten old new) written))
                    (Runs-drop_temp old new))
                  Runs-install))))

  -- The marker is written beside the old vault.
  Runs-marker :
      (stamp : Bytes)
      → Runs C (IsOld old new) (write_create_exclusive transaction stamp) (λ _. (IsOld old new)) C
  unfolding write_create_exclusive name_eq
  Runs-marker stamp =
      let stable : (fs : Files) (entry : Option Node)
          → IsOld old new fs
          → (IsOld old new) (update fs transaction entry) =
        λ fs entry p. p in
      let close : Runs C (IsOld old new) close_file (λ _. (IsOld old new)) (IsOld old new) =
        Runs-close_file C (IsOld old new) (IsOld-IsSafe old new) in
      Runs-then C
        ((loosely old new) (IsOld-IsSafe old new)
          (Runs-create_exclusive C (IsOld old new) (IsOld-IsSafe old new) transaction stable))
        (Runs-then C
          (Runs-on_error C (λ _. (IsOld old new))
            (Runs-weaken C (λ f p. p) (λ a f q. q.0) (λ f e. e)
              (Runs-write C (IsOld old new) (IsOld-IsSafe old new) transaction stable stamp))
            (Runs-weaken C (λ f p. p) (λ a f q. inl q) (λ f e. e)
              (Runs-ignore C (IsOld old new) C close)))
          ((loosely old new) (IsOld-IsSafe old new) close))

  Runs-end_transaction :
      Runs C
        (IsInstalled old new)
        (remove transaction >> sync_parent_dir)
        (λ _. (IsSaved old new))
        C
  unfolding name_eq
  Runs-end_transaction =
      let installed : (fs : Files) → IsInstalled old new fs → C fs = λ fs p. inr (inr p.0) in
      let ended : Files → Type 0 = λ fs. IsInstalled old new fs × (fs transaction ≡ none) in
      Runs-then C
        ((loosely old new) installed
          (Runs-remove C (IsInstalled old new) installed transaction (λ fs entry p. p)))
        (Runs-weaken C (λ f p. p) (λ a f q. (q.0.0, q.0.1, q.1)) (λ f e. inr (inr e.0.0))
          (Runs-sync_parent_dir C ended (λ fs p. inr (inr p.0.0))))

  Runs-save_wrapped :
      (stamp : Bytes)
      → Runs C (IsOld old new) (save_wrapped stamp (ok new)) (λ _. (IsSaved old new)) C
  unfolding save_wrapped write_create_exclusive name_eq
  Runs-save_wrapped stamp =
      let check : (n : Name)
          → Runs C (IsOld old new) (reject_symlink_or_missing n) (λ _. (IsOld old new)) C =
        λ n.
          (loosely old new) (IsOld-IsSafe old new)
            (Runs-reject_symlink_or_missing C (IsOld old new) (IsOld-IsSafe old new) n) in
      let sync : Runs C (IsOld old new) sync_parent_dir (λ _. (IsOld old new)) C =
        (loosely old new) (IsOld-IsSafe old new)
          (Runs-sync_parent_dir C (IsOld old new) (IsOld-IsSafe old new)) in
      let safe : (fs : Files) → IsInstalled old new fs → C fs = λ fs p. inr (inr p.0) in
      Runs-then C (check primary) (
        Runs-then C (check backup) (
          Runs-then C (check temp) (
            Runs-then C (check transaction) (
              Runs-then C (Runs-marker stamp) (
                Runs-then C
                  (Runs-on_error C (λ _. (IsOld old new)) sync (Runs-drop_transaction old new))
                  (Runs-then C
                    (Runs-on_error C (λ _. (IsInstalled old new)) Runs-replace_primary
                      (Runs-abort_transaction old new))
                    Runs-end_transaction))))))

-- However the calls of a save over an existing vault fail, and wherever the process stops: the old
-- vault is in place, or it is whole as the backup while the vault is missing or is the whole new
-- one. Where the save returns without an error, the new vault is in place, the old one is the
-- backup, and neither a temporary file nor a transaction marker is left.
pub save_file_atomic-IsSafe :
    (marshal : Metadata → Option Bytes) (stamp salt ciphertext : Bytes) (metadata : List Metadata)
    → (old new : Bytes) (w : World) → wrap marshal kind_main_vault salt ciphertext metadata ≡ ok new
    → w.files primary ≡ some (file old)
    → let run = save_file_atomic marshal stamp salt ciphertext metadata w in
      Post (λ _. IsSaved old new) (IsSafe old new) (IsSafe old new) run.0 run.1.files
unfolding save_file_atomic
save_file_atomic-IsSafe marshal stamp salt ciphertext metadata old new w e p =
    rw e ((Runs-save_wrapped old new stamp).at w p)
