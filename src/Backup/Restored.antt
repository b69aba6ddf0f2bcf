-- ===== src/Backup/Restored.antt =====
-- How `restore` ends, and what it leaves.
use myminivault.Prelude.{
  ◌≡◌, refl, ◌∙◌, true, ◌&&◌, List, [], ◌∷◌, some, Option-cases, arith, if◌then◌else◌, Bytes,
  bytes_eq, bytes_eq_refl, lookup, ok, inl, inr, is_some, Result-cases, none,
}
use myminivault.Model.{ExtendedVault, VaultMetadata, Time}
use myminivault.Container.{parse}
use myminivault.Storage.Codec.{Library, load_bytes_from_data}
use myminivault.Rollback.{State, save_state, check_with_mode, all_right, incomplete_metadata}
use myminivault.Backup.{
  Directory, Vaults, RestoreSetting, restored, failed, state_not_saved, pre_restore_name,
  create_pre_restore_backup, replace_vault_with_backup_data, confirm_restore, read_backup,
  restore_confirmed, handle_restore_command,
}
use myminivault.Backup.Placed.{lookup-replace, lookup-pre_restore}

-- A state that was saved for a vault accepts it.
save_state-all_right :
    (meta : VaultMetadata) (now : Time) (state : State) (mode : Bytes)
    → save_state meta now ≡ ok state
    → (check_with_mode (ok state) meta mode).status ≡ all_right
unfolding save_state check_with_mode
save_state-all_right meta now state mode h = ground (arith, bytes_eq_refl meta.vault_id)

module _ (lib : Library) (s : RestoreSetting) where
  read_backup_parts :
      (files : Directory) (backup_data : Bytes) (candidate : ExtendedVault)
      → read_backup lib s files ≡ ok (backup_data, candidate)
      → (path salt : Bytes) × (s.args ≡ path ∷ [])
        × (lookup path files ≡ some backup_data)
        × (load_bytes_from_data lib backup_data s.password s.options s.now ≡ ok (candidate, salt))
  unfolding read_backup
  read_backup_parts files backup_data candidate h = split s.args refl
    where
      split :
          (args : List Bytes)
          → s.args ≡ args
          → (path salt : Bytes) × (s.args ≡ path ∷ [])
            × (lookup path files ≡ some backup_data)
            × (load_bytes_from_data lib backup_data s.password s.options s.now
                ≡ ok (candidate, salt))
      split [] e = ground (arith, e)
      split (path ∷ x ∷ more) e = ground (arith, e)
      split (path ∷ []) e = elim (Option-cases (lookup path files)) [
        | inl n ↦ ground (arith, e, n)
        | inr (data', found) ↦
            elim (Result-cases (load_bytes_from_data lib data' s.password s.options s.now)) [
              | inl (problem, l) ↦ ground (arith, e, found, l)
              | inr ((vault, salt), l) ↦
                  elim (Result-cases (parse lib.unmarshal_metadata data' s.options.salt_size)) [
                    | inl (problem, q) ↦ ground (arith, e, found, l, q)
                    | inr (parsed, q) ↦ (
                      path,
                      salt,
                      e,
                      ground (arith, e, found, l, q),
                      ground (arith, e, found, l, q),
                    )
                  ]
            ]
      ]

  restored_parts :
      (backup_data : Bytes) (candidate : ExtendedVault) (vaults vaults' : Vaults)
      → restore_confirmed lib s backup_data candidate vaults ≡ (vaults', restored)
      → (kept : Directory) × ((state : State) × (create_pre_restore_backup s.calls s.vault_file
              s.stamp vaults.files
            ≡ ok kept)
          × (replace_vault_with_backup_data s.calls s.vault_file backup_data kept
              ≡ (vaults'.files, none))
          × (save_state candidate.metadata s.now ≡ ok state)
          × (vaults'.trusted ≡ ok state))
  unfolding restore_confirmed
  restored_parts backup_data candidate vaults vaults' h =
      elim (Result-cases (create_pre_restore_backup s.calls s.vault_file s.stamp vaults.files)) [
        | inl (e, no_copy) ↦ ground arith
        | inr (kept, copied) ↦
            elim (Option-cases
              (replace_vault_with_backup_data s.calls s.vault_file backup_data kept).1) [
                | inr (e, not_replaced) ↦ ground arith
                | inl done ↦ elim (Result-cases (save_state candidate.metadata s.now)) [
                  | inl (e, not_saved) ↦ ground arith
                  | inr (state, saved) ↦ (kept, (state, copied, ground arith, saved, ground arith))
                ]
              ]
      ]

  -- Where a restore ends with success, its argument names a backup that opens under the password; the
  -- vault file is that backup, the vault from before stands under the name of the copy, every other
  -- file is as it was, and the trusted state accepts the restored vault in every mode.
  pub handle_restore_command-restored :
      (vaults vaults' : Vaults) (mode : Bytes)
      → handle_restore_command lib s vaults ≡ (vaults', restored)
      → (path salt backup_data : Bytes) × ((candidate : ExtendedVault) × (s.args ≡ path ∷ [])
          × (lookup path vaults.files ≡ some backup_data)
          × (load_bytes_from_data lib backup_data s.password s.options s.now ≡ ok (candidate, salt))
          × ((j : Bytes)
              → lookup j vaults'.files ≡ (
                  if bytes_eq s.vault_file j
                  then some backup_data
                  else if bytes_eq (pre_restore_name s.vault_file s.stamp) j
                      && is_some (lookup s.vault_file vaults.files)
                  then lookup s.vault_file vaults.files
                  else lookup j vaults.files))
          × ((check_with_mode vaults'.trusted candidate.metadata mode).status ≡ all_right))
  unfolding handle_restore_command
  handle_restore_command-restored vaults vaults' mode h =
      elim (Result-cases (read_backup lib s vaults.files)) [
        | inl (e, unread) ↦ ground arith
        | inr ((backup_data, candidate), opened) ↦
            let confirmed : restore_confirmed lib s backup_data candidate vaults
                ≡ (vaults', restored) =
              ground arith in
            let (path, salt, one, there, loads) =
              read_backup_parts vaults.files backup_data candidate opened in
            let (kept, (state, copied, replaced, saved, trusted)) =
              restored_parts backup_data candidate vaults vaults' confirmed in
            (
              path,
              salt,
              backup_data,
              (
                candidate,
                one,
                there,
                loads,
                λ j.
                    (lookup-replace s.calls s.vault_file backup_data j kept vaults'.files
                      replaced).1
                    ∙ rw (
                        lookup-pre_restore s.calls s.vault_file s.stamp j vaults.files kept copied),
                rw trusted (save_state-all_right candidate.metadata s.now state mode saved),
              ),
            )
      ]

  -- A backup without a vault id, as those of old versions are, replaces the vault where the files can
  -- be written, and then ends in an error; the trusted state stays that of the vault before.
  pub handle_restore_command-legacy :
      (vaults : Vaults) (kept replaced : Directory) (backup_data : Bytes)
      (candidate : ExtendedVault)
      → read_backup lib s vaults.files ≡ ok (backup_data, candidate)
      → confirm_restore s.to_lower s.line ≡ true
      → create_pre_restore_backup s.calls s.vault_file s.stamp vaults.files ≡ ok kept
      → replace_vault_with_backup_data s.calls s.vault_file backup_data kept ≡ (replaced, none)
      → candidate.metadata.vault_id ≡ []
      → let run = handle_restore_command lib s vaults in
        (run.1 ≡ failed (state_not_saved (some incomplete_metadata)))
        × (lookup s.vault_file run.0.files ≡ some backup_data)
        × (run.0.trusted ≡ vaults.trusted)
  unfolding handle_restore_command restore_confirmed save_state
  handle_restore_command-legacy vaults kept replaced backup_data candidate opened confirmed c r
        no_id =
      (
        ground arith,
        ground (
          arith,
          (lookup-replace s.calls s.vault_file backup_data s.vault_file kept replaced r).1,
          bytes_eq_refl s.vault_file,
        ),
        ground arith,
      )
