-- ===== src/Session/Recovery/Behind.antt =====
-- A save in a session without the recovery key.
use myminivault.Prelude.{
  ◌≡◌, false, [], some, arith, Bytes, bytes_eq_refl, is_empty, inl, inr, ok, Result-cases,
}
use myminivault.Prelude.Int.{pos, ◌<ℤ◌, ◌≤ℤ◌, max_int64}
use myminivault.Model.{ExtendedVault, RecoveryData, VaultMetadata}
use myminivault.Rollback.{prepare_next_revision, save_state}
use myminivault.Rollback.Detection.{HasRoom, prepare_next_revision-IsFresh}
use myminivault.Session.State.{known_state, mark_recovery_snapshot_revision}
use myminivault.Session.Recovery.{
  Holder, Writes, save_trusted, save_both, save_vault, recovery_revision_freshness, behind_by,
}

saved_without_key :
    (s : Writes) (vault : ExtendedVault) (password : Bytes) (h h' : Holder)
    → h.current_key ≡ []
    → save_vault s vault password h ≡ (ok tt, h')
    → (meta : VaultMetadata) × (prepare_next_revision s.new_id vault.metadata
          (known_state h.trusted)
        ≡ ok meta)
      × (h'.main.vault ≡ record vault { metadata = meta })
      × (h'.snapshot ≡ h.snapshot)
unfolding save_vault save_both save_trusted mark_recovery_snapshot_revision
saved_without_key s vault password h h' key e =
    elim (Result-cases (prepare_next_revision s.new_id vault.metadata (known_state h.trusted))) [
      | inl (x, p) ↦ ground arith
      | inr (meta, p) ↦ elim (Result-cases (save_state meta s.now)) [
        | inl (x, q) ↦ ground arith
        | inr (state, q) ↦ (meta, p, ground arith, ground arith)
      ]
    ]

-- After a save without the recovery key in the session, which ends without an error, the snapshot is as
-- it was, and `stats` says that it is behind: from the revision that the vault records for it, which is
-- not above the vault's, to a new one above both. This needs a vault with an identity and revisions
-- below the largest `int64`.
pub save_vault-behind :
    (s : Writes) (vault : ExtendedVault) (r : RecoveryData) (password : Bytes) (h h' : Holder)
    → h.current_key ≡ []
    → vault.recovery ≡ some r
    → is_empty vault.metadata.vault_id ≡ false
    → r.snapshot_vault_id ≡ vault.metadata.vault_id
    → pos 1 ≤ℤ r.snapshot_revision
    → r.snapshot_revision ≤ℤ vault.metadata.revision
    → vault.metadata.revision <ℤ pos max_int64
    → HasRoom (known_state h.trusted)
    → save_vault s vault password h ≡ (ok tt, h')
    → (h'.snapshot ≡ h.snapshot)
      × (recovery_revision_freshness h'.main.vault
          ≡ behind_by r.snapshot_revision h'.main.vault.metadata.revision)
      × (vault.metadata.revision <ℤ h'.main.vault.metadata.revision)
unfolding recovery_revision_freshness
save_vault-behind s vault r password h h' key has id same low le room room' e =
    let (meta, p, main, kept) = saved_without_key s vault password h h' key e in
    let (_, _, above) =
      prepare_next_revision-IsFresh s.new_id vault.metadata meta (known_state h.trusted) room room'
        p in
    let (same_id, higher) = above id (omega (arith, low, le)) in
    (kept, rw main (ground (arith, has, bytes_eq_refl vault.metadata.vault_id)), rw main higher)
