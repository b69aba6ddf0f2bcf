-- ===== src/Backup/Replace.antt =====
-- `replaceVaultWithBackupData` of cmd/vault/restore_cli.go on the calls of Files, for every schedule.
use myminivault.Prelude.{◌≡◌, refl, false, Bytes, Option}
use myminivault.Files.{
  Node, Io, World, ◌>>◌, pure, name_eq, primary, restore_temp, sync_parent_dir, chmod,
}
use myminivault.Files.Hoare.{Post, Runs, Runs-then}
use myminivault.Files.Temp.{fill_temp, move_in}
use myminivault.Files.Temp.Replace.{
  IsOld, IsNew, IsWhole, Runs-fill_temp, Runs-move_in, Runs-sync-IsNew, Runs-chmod-IsNew,
}

-- With the calls of `writeFileExclusive`.
unfoldable pub replace_vault_file : Bytes → Io (Unit {0})
replace_vault_file backup_data = do
  fill_temp restore_temp (pure backup_data)
  move_in restore_temp primary
  sync_parent_dir
  chmod primary

pub apart : name_eq restore_temp primary ≡ false
unfolding name_eq
apart = refl

Runs-replace :
    (old : Option Node) (new : Bytes)
    → Runs
        (IsWhole restore_temp primary apart old new)
        (IsOld restore_temp primary apart old new)
        (replace_vault_file new)
        (λ _. IsNew restore_temp primary apart old new)
        (IsWhole restore_temp primary apart old new)
unfolding replace_vault_file pure
Runs-replace old new =
    let C = IsWhole restore_temp primary apart old new in
    Runs-then C
      (Runs-fill_temp restore_temp primary apart old new (pure new)
        (record { at = λ w p. (p, refl) }))
      (Runs-then C (Runs-move_in restore_temp primary apart old new) (
        Runs-then C (Runs-sync-IsNew restore_temp primary apart old new)
          (Runs-chmod-IsNew restore_temp primary apart old new primary)))

-- However the calls of a restore fail while it replaces the vault, and wherever the process stops, the
-- vault file is what it was or the whole backup; where they return without an error it is the backup.
pub replace_vault_file-IsWhole :
    (old : Option Node) (new : Bytes) (w : World)
    → w.files primary ≡ old
    → let run = replace_vault_file new w in
      Post
        (λ _. IsNew restore_temp primary apart old new)
        (IsWhole restore_temp primary apart old new)
        (IsWhole restore_temp primary apart old new)
        run.0
        run.1.files
replace_vault_file-IsWhole old new w h = (Runs-replace old new).at w h
