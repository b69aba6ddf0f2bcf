-- ===== src/Backup/Placed.antt =====
-- The files after the steps of a restore.
use myminivault.Prelude.{
  ◌≡◌, ◌&&◌, ◌++◌, none, some, Option-cases, arith, if◌then◌else◌, Bytes, codes, bytes_eq,
  bytes_eq_iff, lookup, insert, erase, lookup-insert, lookup-erase, ok, inl, inr, is_some,
}
use myminivault.Backup.{
  Calls, Directory, write_file_exclusive, copy_file, pre_restore_name, create_pre_restore_backup,
  replace_vault_with_backup_data,
}

-- The names that a restore writes besides the vault.
abbrev pub temp_name : Bytes → Bytes
temp_name vault_file = vault_file ++ codes ".restore.tmp"

pub lookup-replace :
    (calls : Calls) (vault_file backup_data j : Bytes) (files files' : Directory)
    → replace_vault_with_backup_data calls vault_file backup_data files ≡ (files', none)
    → (lookup (temp_name vault_file) files ≡ none)
      × (lookup j files' ≡ (if bytes_eq vault_file j then some backup_data else lookup j files))
unfolding replace_vault_with_backup_data write_file_exclusive
lookup-replace calls vault_file backup_data j files files' h =
    let temp = temp_name vault_file in
    elim (Option-cases (lookup temp files)) [
      | inr (data', e) ↦ ground arith
      | inl e ↦
          let done : files'
              ≡ insert vault_file backup_data (erase temp (insert temp backup_data files)) =
            ground arith in
          (
            e,
            rw done (
                ground (
                  arith,
                  lookup-insert vault_file j backup_data
                      (erase temp (insert temp backup_data files)),
                  lookup-erase temp j (insert temp backup_data files),
                  lookup-insert temp j backup_data files,
                  bytes_eq_iff temp j,
                )),
          )
    ]

-- The copy of the vault before, where there is one.
pub lookup-pre_restore :
    (calls : Calls) (vault_file stamp j : Bytes) (files files' : Directory)
    → create_pre_restore_backup calls vault_file stamp files ≡ ok files'
    → lookup j files' ≡ (
        if bytes_eq (pre_restore_name vault_file stamp) j && is_some (lookup vault_file files)
        then lookup vault_file files
        else lookup j files)
unfolding create_pre_restore_backup copy_file write_file_exclusive
lookup-pre_restore calls vault_file stamp j files files' h =
    elim (Option-cases (lookup vault_file files)) [
      | inl n ↦ ground arith
      | inr (data', e) ↦
          let pre = pre_restore_name vault_file stamp in
          let done : files' ≡ insert pre data' files = ground arith in
          rw done (ground (arith, lookup-insert pre j data' files))
    ]
