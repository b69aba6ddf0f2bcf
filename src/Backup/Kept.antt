-- ===== src/Backup/Kept.antt =====
-- A confirmed `restore` of cmd/vault/restore_cli.go on the calls of Files: the copy of the vault from
-- before, the replacement of the vault, and the write of the trusted state.
use myminivault.Prelude.{◌≡◌, ◌≢◌, ◌⊎◌, inl, inr, refl, true, false, Bool, Bytes, some, arith}
use myminivault.Files.{
  Name, file, Files, World, Io, ◌>>=◌, ◌>>◌, pure, call, unchanged, name_eq, read_exit, stat_exit,
  stat_exists, reject_symlink_or_missing, primary, restore_temp, pre_restore, state, state_temp,
}
use myminivault.Files.Hoare.{
  Post, Runs, Runs-bind, Runs-then, Runs-call, Runs-on_error, Runs-weaken, Runs-stops,
}
use myminivault.Files.Calls.{
  Runs-rename, Runs-sync_parent_dir, Runs-chmod, Runs-reject_symlink_or_missing,
}
use myminivault.Files.Temp.{fill_temp, move_in}
use myminivault.Files.Temp.Fill
use myminivault.Rollback.Write.{write_atomic}
use myminivault.Backup.Replace.{replace_vault_file}

-- `ReadFileChecked`
unfoldable pub read_file_checked : Name → Io Bytes
unfolding call
read_file_checked n = do reject_symlink_or_missing n; call (λ fs. (read_exit (fs n), fs)) unchanged

-- `copyFile(vaultFile, backupPath)`
unfoldable pub copy_primary : Bool → Io (Unit {0})
copy_primary false = pure tt
copy_primary true = do content ← read_file_checked primary; fill_temp pre_restore (pure content)

-- `createPreRestoreBackup`
unfoldable pub keep_current : Io (Unit {0})
keep_current = do had ← stat_exists primary; copy_primary had

-- `handleRestoreCommand` from the confirmation on; `state_text` is what `SaveState` writes.
unfoldable pub restore_files : Bytes → Bytes → Io (Unit {0})
restore_files backup_data state_text = do
  keep_current
  replace_vault_file backup_data
  write_atomic state_text

false_not_true : false ≢ true
false_not_true h = ground arith

module _ (old new : Bytes) where
  -- The vault from before is in its place.
  abbrev pub IsOld : Files → Type 0
  IsOld fs = fs primary ≡ some (file old)

  abbrev pub IsCopied : Files → Type 0
  IsCopied fs = IsOld fs × (fs pre_restore ≡ some (file old))

  -- The backup is in place, and the vault from before under the name of the copy.
  abbrev pub IsRestored : Files → Type 0
  IsRestored fs = (fs primary ≡ some (file new)) × (fs pre_restore ≡ some (file old))

  abbrev pub IsKept : Files → Type 0
  IsKept fs = IsOld fs ⊎ IsRestored fs

  old_kept : (fs : Files) → IsOld fs → IsKept fs
  old_kept fs p = inl p

  copied_kept : (fs : Files) → IsCopied fs → IsKept fs
  copied_kept fs p = inl p.0

  restored_kept : (fs : Files) → IsRestored fs → IsKept fs
  restored_kept fs p = inr p

  Runs-stat : Runs IsOld IsOld (stat_exists primary) (λ had fs. IsOld fs × (had ≡ true)) IsOld
  unfolding stat_exists
  Runs-stat =
      Runs-call IsOld (λ fs. (stat_exit (fs primary), fs)) unchanged (λ fs p. rw p (p, refl))
        (λ k fs p. (p, p))

  Runs-read :
      Runs IsOld IsOld (read_file_checked primary) (λ content fs. IsOld fs × (content ≡ old)) IsOld
  unfolding read_file_checked
  Runs-read = Runs-then IsOld (Runs-reject_symlink_or_missing IsOld IsOld (λ fs p. p) primary) (
      Runs-call IsOld (λ fs. (read_exit (fs primary), fs)) unchanged (λ fs p. rw p (p, refl))
        (λ k fs p. (p, p)))

  Runs-fill_copy :
      (content : Bytes)
      → Runs IsOld
          (λ fs. IsOld fs × (content ≡ old))
          (fill_temp pre_restore (pure content))
          (λ _. IsCopied)
          IsOld
  unfolding pure name_eq
  Runs-fill_copy content = record { at = λ w p. (filled p.1).at w p.0 }
    where
      filled :
          content ≡ old
          → Runs IsOld IsOld (fill_temp pre_restore (pure content)) (λ _. IsCopied) IsOld
      filled e =
          Fill.Runs-fill_temp IsOld IsOld (λ fs p. p) pre_restore (λ fs entry p. p)
            (λ fs entry p. p) old (pure content) (record { at = λ w p. (p, e) })

  Runs-copy_primary :
      (had : Bool)
      → Runs IsOld (λ fs. IsOld fs × (had ≡ true)) (copy_primary had) (λ _. IsCopied) IsOld
  unfolding copy_primary
  Runs-copy_primary false = record { at = λ w p. absurd (false_not_true p.1) }
  Runs-copy_primary true =
      Runs-weaken IsOld (λ f p. p.0) (λ a f q. q) (λ f e. e)
        (Runs-bind IsOld Runs-read Runs-fill_copy)

  Runs-keep_current : Runs IsKept IsOld keep_current (λ _. IsCopied) IsKept
  unfolding keep_current
  Runs-keep_current = Runs-stops old_kept (
      Runs-weaken IsOld (λ f p. p) (λ a f q. q) old_kept
        (Runs-bind IsOld Runs-stat Runs-copy_primary))

  -- What follows in place keeps the files.
  settled :
      {m : Io (Unit {0})}
      → Runs IsKept IsRestored m (λ _. IsRestored) IsRestored
      → Runs IsKept IsRestored m (λ _. IsRestored) IsKept
  settled h = Runs-weaken IsKept (λ f p. p) (λ a f q. q) restored_kept h

  Runs-replace : Runs IsKept IsCopied (replace_vault_file new) (λ _. IsRestored) IsKept
  unfolding replace_vault_file move_in pure name_eq
  Runs-replace =
      Runs-then IsKept
        (Fill.Runs-fill_temp IsKept IsCopied copied_kept restore_temp (λ fs entry p. p)
          (λ fs entry p. p) new (pure new) (record { at = λ w p. (p, refl) }))
        (Runs-then IsKept
          (Runs-on_error IsKept (λ _. IsRestored)
            (Runs-rename IsKept (λ fs. IsCopied fs × (fs restore_temp ≡ some (file new))) IsRestored
              IsKept restore_temp primary new (λ fs p. p.1) (λ fs p. (refl, p.0.1))
              (λ fs p. inl p.0.0) (λ fs p. inl p.0.0))
            (Fill.Runs-drop_temp IsKept IsCopied copied_kept restore_temp (λ fs entry p. p)
              (λ fs entry p. p) new))
          (Runs-then IsKept (settled (Runs-sync_parent_dir IsKept IsRestored restored_kept))
            (settled (Runs-chmod IsKept IsRestored restored_kept primary))))

  Runs-state : (text : Bytes) → Runs IsKept IsRestored (write_atomic text) (λ _. IsRestored) IsKept
  unfolding write_atomic move_in pure name_eq
  Runs-state text =
      let check : (n : Name)
          → Runs IsKept IsRestored (reject_symlink_or_missing n) (λ _. IsRestored) IsKept =
        λ n. settled (Runs-reject_symlink_or_missing IsKept IsRestored restored_kept n) in
      Runs-then IsKept (check state) (
        Runs-then IsKept (check state_temp) (
          Runs-then IsKept
            (Fill.Runs-fill_temp IsKept IsRestored restored_kept state_temp (λ fs entry p. p)
              (λ fs entry p. p) text (pure text) (record { at = λ w p. (p, refl) }))
            (Runs-then IsKept
              (Runs-on_error IsKept (λ _. IsRestored)
                (Runs-rename IsKept (λ fs. IsRestored fs × (fs state_temp ≡ some (file text)))
                  IsRestored IsKept state_temp state text (λ fs p. p.1) (λ fs p. p.0)
                  (λ fs p. inr p.0) (λ fs p. inr p.0))
                (Fill.Runs-drop_temp IsKept IsRestored restored_kept state_temp (λ fs entry p. p)
                  (λ fs entry p. p) text))
              (Runs-then IsKept (settled (Runs-chmod IsKept IsRestored restored_kept state))
                (settled (Runs-sync_parent_dir IsKept IsRestored restored_kept))))))

  Runs-restore_files :
      (text : Bytes) → Runs IsKept IsOld (restore_files new text) (λ _. IsRestored) IsKept
  unfolding restore_files
  Runs-restore_files text =
      Runs-then IsKept Runs-keep_current (Runs-then IsKept Runs-replace (Runs-state text))

-- However the calls of a confirmed restore over an existing vault fail, from the copy of the vault to the
-- write of the trusted state, and wherever the process stops: the vault from before is in its place, or
-- the whole backup is and the vault from before is whole under the name of the copy. Where they return
-- without an error it is the latter.
pub restore_files-IsKept :
    (old new text : Bytes) (w : World)
    → w.files primary ≡ some (file old)
    → let run = restore_files new text w in
      Post (λ _. IsRestored old new) (IsKept old new) (IsKept old new) run.0 run.1.files
restore_files-IsKept old new text w h = (Runs-restore_files old new text).at w h
