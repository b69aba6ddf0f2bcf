-- ===== src/Storage/Save/Undo.antt =====
-- The files between the calls of a save over a vault, and the calls that keep the old vault or put it
-- back.
use myminivault.Prelude.{◌≡◌, refl, true, Option, none, some, Bytes, inl, inr, ◌⊎◌}
use myminivault.Files.{
  Name, primary, backup, temp, transaction, Files, Io, Node, file, update, name_eq, ignore,
  on_error, remove, rename,
}
use myminivault.Files.Hoare.{Runs, Runs-then, Runs-on_error, Runs-ignore, Runs-weaken}
use myminivault.Files.Calls.{
  Runs-rename, Runs-close_file, Runs-sync_parent_dir, Runs-chmod, Runs-remove,
}
use myminivault.Storage.Save.{
  abandon_open_temp, restore_backup, undo_rename, keep_backup, abort_transaction,
}

module _ (old new : Bytes) where
  -- The old vault is in place.
  abbrev pub IsOld : Files → Type 0
  IsOld fs = fs primary ≡ some (file old)

  -- The old vault is the backup, and no vault is in place.
  abbrev pub IsMoved : Files → Type 0
  IsMoved fs = (fs primary ≡ none) × (fs backup ≡ some (file old))

  -- The new vault is in place, whole, and the old one is the backup.
  abbrev pub IsNew : Files → Type 0
  IsNew fs = (fs primary ≡ some (file new)) × (fs backup ≡ some (file old))

  abbrev pub IsSafe : Files → Type 0
  IsSafe fs = IsOld fs ⊎ IsMoved fs ⊎ IsNew fs

  -- The new vault is installed and nothing is left behind.
  abbrev pub IsSaved : Files → Type 0
  IsSaved fs = IsNew fs × (fs temp ≡ none) × (fs transaction ≡ none)

  abbrev pub IsWritten : Files → Type 0
  IsWritten fs = IsOld fs × (fs temp ≡ some (file new))

  abbrev pub IsMovedWritten : Files → Type 0
  IsMovedWritten fs = IsMoved fs × (fs temp ≡ some (file new))

  abbrev pub HasBackup : Files → Type 0
  HasBackup fs = IsMoved fs ⊎ IsNew fs

  abbrev pub IsInstalled : Files → Type 0
  IsInstalled fs = IsNew fs × (fs temp ≡ none)

  pub IsOld-IsSafe : (fs : Files) → IsOld fs → IsSafe fs
  IsOld-IsSafe fs h = inl h

  pub HasBackup-IsSafe : (fs : Files) → HasBackup fs → IsSafe fs
  HasBackup-IsSafe fs h = inr h

  -- Errors that leave the files safe.
  pub loosely :
      {A : Type 0} {P : Files → Type 0} {m : Io A} {Q : A → Files → Type 0}
      → ((fs : Files) → P fs → IsSafe fs)
      → Runs IsSafe P m Q P
      → Runs IsSafe P m Q IsSafe
  loosely safe h = Runs-weaken IsSafe (λ f p. p) (λ a f q. q) safe h

  pub Runs-drop :
      (n : Name)
      → ((fs : Files) (entry : Option Node) → IsSafe fs → IsSafe (update fs n entry))
      → Runs IsSafe IsSafe (ignore (remove n)) (λ _. IsSafe) IsSafe
  Runs-drop n stable = Runs-ignore IsSafe IsSafe IsSafe (
      Runs-weaken IsSafe (λ f p. p) (λ a f q. q.0) (λ f e. e)
        (Runs-remove IsSafe IsSafe (λ fs p. p) n stable))

  pub Runs-drop_temp : Runs IsSafe IsSafe (ignore (remove temp)) (λ _. IsSafe) IsSafe
  unfolding name_eq
  Runs-drop_temp = Runs-drop temp (λ fs entry p. p)

  pub Runs-drop_transaction : Runs IsSafe IsSafe (ignore (remove transaction)) (λ _. IsSafe) IsSafe
  unfolding name_eq
  Runs-drop_transaction = Runs-drop transaction (λ fs entry p. p)

  pub Runs-abandon_open_temp : Runs IsSafe IsSafe abandon_open_temp (λ _. IsSafe) IsSafe
  unfolding abandon_open_temp
  Runs-abandon_open_temp =
      Runs-then IsSafe
        (Runs-ignore IsSafe IsSafe IsSafe (Runs-close_file IsSafe IsSafe (λ fs p. p)))
        Runs-drop_temp

  pub Runs-abort_transaction : Runs IsSafe IsSafe abort_transaction (λ _. IsSafe) IsSafe
  unfolding abort_transaction
  Runs-abort_transaction =
      Runs-then IsSafe Runs-drop_transaction
        (Runs-ignore IsSafe IsSafe IsSafe (Runs-sync_parent_dir IsSafe IsSafe (λ fs p. p)))

  pub Runs-restore : Runs IsSafe HasBackup (rename backup primary) (λ _. IsSafe) IsSafe
  unfolding name_eq
  Runs-restore =
      Runs-rename IsSafe HasBackup IsSafe IsSafe backup primary old (λ fs p. at_backup fs p)
        (λ fs p. inl refl) HasBackup-IsSafe HasBackup-IsSafe
    where
      at_backup : (fs : Files) → HasBackup fs → fs backup ≡ some (file old)
      at_backup fs (inl p) = p.1
      at_backup fs (inr p) = p.1

  pub Runs-undo_rename : Runs IsSafe HasBackup (undo_rename true) (λ _. IsSafe) IsSafe
  unfolding undo_rename restore_backup
  Runs-undo_rename = Runs-then IsSafe (Runs-ignore IsSafe IsSafe IsSafe Runs-restore) Runs-drop_temp

  pub Runs-move_away : Runs IsSafe IsWritten (rename primary backup) (λ _. IsMovedWritten) IsSafe
  unfolding name_eq
  Runs-move_away =
      let safe : (fs : Files) → IsWritten fs → IsSafe fs = λ fs p. inl p.0 in
      Runs-rename IsSafe IsWritten IsMovedWritten IsSafe primary backup old (λ fs p. p.0)
        (λ fs p. ((refl, refl), p.1)) safe safe

  pub Runs-move_in : Runs IsSafe IsMovedWritten (rename temp primary) (λ _. IsInstalled) HasBackup
  unfolding name_eq
  Runs-move_in =
      Runs-rename IsSafe IsMovedWritten IsInstalled HasBackup temp primary new (λ fs p. p.1)
        (λ fs p. ((refl, p.0.1), refl)) (λ fs p. inl p.0) (λ fs p. inr (inl p.0))

  -- A call that changes no file, with a cleanup behind it.
  pub Runs-or_undo :
      {P : Files → Type 0} {m : Io (Unit {0})}
      → ((fs : Files) → P fs → HasBackup fs)
      → Runs IsSafe P m (λ _. P) P
      → Runs IsSafe P (on_error m (undo_rename true)) (λ _. P) IsSafe
  Runs-or_undo {P} back h =
      Runs-on_error IsSafe (λ _. P) (Runs-weaken IsSafe (λ f p. p) (λ a f q. q) back h)
        Runs-undo_rename

  pub moved_back : (fs : Files) → IsMovedWritten fs → HasBackup fs
  moved_back fs p = inl p.0

  pub new_back : (fs : Files) → IsInstalled fs → HasBackup fs
  new_back fs p = inr p.0

  pub Runs-keep_backup : Runs IsSafe IsWritten (keep_backup true) (λ _. IsMovedWritten) IsSafe
  unfolding keep_backup
  Runs-keep_backup =
      let safe : (fs : Files) → IsMovedWritten fs → IsSafe fs = λ fs p. inr (inl p.0) in
      Runs-then IsSafe (Runs-on_error IsSafe (λ _. IsMovedWritten) Runs-move_away Runs-drop_temp) (
        Runs-then IsSafe (Runs-or_undo moved_back (Runs-sync_parent_dir IsSafe IsMovedWritten safe))
          (Runs-or_undo moved_back (Runs-chmod IsSafe IsMovedWritten safe backup)))
