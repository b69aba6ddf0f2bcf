-- ===== src/Session/Recovery/Fresh.antt =====
-- What a save does to the recovery snapshot, and what `stats` says of it.
use myminivault.Prelude.{
  ◌≡◌, refl, true, false, some, Option-cases, Bool-cases, arith, Bytes, bytes_eq_refl, is_empty,
  inl, inr, ok, Result-cases,
}
use myminivault.Model.{ExtendedVault, RecoveryData, VaultMetadata}
use myminivault.Rollback.{State, prepare_next_revision, save_state}
use myminivault.Recovery.Open.{validate_key_bytes}
use myminivault.Session.State.{known_state, mark_recovery_snapshot_revision}
use myminivault.Session.Recovery.{
  Holder, Writes, save_trusted, save_both, save_vault, handle_refresh_recovery, open_with_key,
  recovery_revision_freshness, current_at,
}

-- The recovery data as a save under the key records it.
abbrev pub recorded : Writes → VaultMetadata → RecoveryData → RecoveryData
recorded s meta r = record r {
  snapshot_vault_id = meta.vault_id;
  snapshot_revision = meta.revision;
  snapshot_at = s.now;
}

-- The files after a save with the key.
abbrev pub stored :
    Writes → ExtendedVault → Bytes → Bytes → VaultMetadata → State → RecoveryData → Holder
stored s vault password key meta state r =
    let saved = record vault { metadata = meta; recovery = some (recorded s meta r) } in
    record {
      main = record { vault = saved; secret = password };
      snapshot = some (record { vault = saved; secret = key });
      trusted = ok state;
      current_key = key;
    }

-- A save that ends without an error, with the key in the session.
pub saved_with_key :
    (s : Writes) (vault : ExtendedVault) (r : RecoveryData) (password : Bytes) (h h' : Holder)
    → vault.recovery ≡ some r
    → is_empty h.current_key ≡ false
    → save_vault s vault password h ≡ (ok tt, h')
    → (meta : VaultMetadata) × ((state : State) × (prepare_next_revision s.new_id vault.metadata
            (known_state h.trusted)
          ≡ ok meta)
        × (save_state meta s.now ≡ ok state)
        × (h' ≡ stored s vault password h.current_key meta state r))
unfolding save_vault save_both save_trusted mark_recovery_snapshot_revision
saved_with_key s vault r password h h' has key e =
    elim (Result-cases (prepare_next_revision s.new_id vault.metadata (known_state h.trusted))) [
      | inl (x, p) ↦ ground arith
      | inr (meta, p) ↦ elim (Result-cases (save_state meta s.now)) [
        | inl (x, q) ↦ ground arith
        | inr (state, q) ↦ (meta, (state, p, q, ground arith))
      ]
    ]

-- The freshness of what such a save stores.
pub current_after :
    (vault : ExtendedVault) (s : Writes) (meta : VaultMetadata) (state : State) (r : RecoveryData)
    → save_state meta s.now ≡ ok state
    → recovery_revision_freshness
        (record vault { metadata = meta; recovery = some (recorded s meta r) })
      ≡ current_at meta.revision
unfolding recovery_revision_freshness save_state
current_after vault s meta state r h = ground (arith, bytes_eq_refl meta.vault_id)

pub recorded-valid :
    (sha256 : Bytes → Bytes) (s : Writes) (meta : VaultMetadata) (r : RecoveryData) (key : Bytes)
    → validate_key_bytes sha256 r key ≡ true
    → validate_key_bytes sha256 (recorded s meta r) key ≡ true
unfolding validate_key_bytes
recorded-valid sha256 s meta r key h = h

pub opens :
    (sha256 : Bytes → Bytes) (s : Writes) (h : Holder) (key : Bytes) (r : RecoveryData)
    (vault : ExtendedVault)
    → h.snapshot ≡ some (record { vault = vault; secret = key })
    → vault.recovery ≡ some r
    → validate_key_bytes sha256 r key ≡ true
    → open_with_key sha256 s h key ≡ ok (vault, r)
unfolding open_with_key
opens sha256 s h key r vault there has valid = ground (arith, bytes_eq_refl key)

-- What holds of the files after a save with the key.
pub stored_current :
    (sha256 : Bytes → Bytes) (s : Writes) (vault : ExtendedVault) (password key : Bytes)
    (meta : VaultMetadata) (state : State) (r : RecoveryData) (h' : Holder)
    → save_state meta s.now ≡ ok state
    → validate_key_bytes sha256 r key ≡ true
    → h' ≡ stored s vault password key meta state r
    → (h'.snapshot ≡ some (record { vault = h'.main.vault; secret = key }))
      × (recovery_revision_freshness h'.main.vault ≡ current_at h'.main.vault.metadata.revision)
      × ((r' : RecoveryData) × (open_with_key sha256 s h' key ≡ ok (h'.main.vault, r')))
stored_current sha256 s vault password key meta state r h' q valid done = rw done (
  refl,
  current_after vault s meta state r q,
  (
    recorded s meta r,
    opens sha256 s (stored s vault password key meta state r) key (recorded s meta r)
        (record vault { metadata = meta; recovery = some (recorded s meta r) }) refl refl
        (recorded-valid sha256 s meta r key valid),
  ),
)

-- After a refresh that ends without an error the snapshot holds the vault that is stored, `stats` calls
-- it current at the stored revision, and the key that was typed opens it.
pub handle_refresh_recovery-current :
    (sha256 : Bytes → Bytes) (s : Writes) (vault : ExtendedVault) (password key : Bytes)
    (h h' : Holder)
    → is_empty key ≡ false
    → handle_refresh_recovery sha256 s vault password (some key) h ≡ (ok tt, h')
    → (h'.snapshot ≡ some (record { vault = h'.main.vault; secret = key }))
      × (recovery_revision_freshness h'.main.vault ≡ current_at h'.main.vault.metadata.revision)
      × ((r : RecoveryData) × (open_with_key sha256 s h' key ≡ ok (h'.main.vault, r)))
unfolding handle_refresh_recovery
handle_refresh_recovery-current sha256 s vault password key h h' given e =
    elim (Option-cases vault.recovery) [
      | inl n ↦ ground (arith, n)
      | inr (r, has) ↦ elim (Bool-cases (validate_key_bytes sha256 r key)) [
        | inr bad ↦ ground (arith, has)
        | inl valid ↦
            let saved : save_vault s vault password (record h { current_key = key }) ≡ (ok tt, h') =
              ground (arith, has) in
            let (meta, (state, _, q, done)) =
              saved_with_key s vault r password (record h { current_key = key }) h' has given
                saved in
            stored_current sha256 s vault password key meta state r h' q valid done
      ]
    ]
