-- ===== src/Tests/Snapshot.antt =====
-- A recovery snapshot that is sealed and opened, and saves with and without the recovery key.
use myminivault.Prelude.{
  ◌≡◌, ◌∷◌, ◌++◌, [], refl, none, some, ok, true, false, Bytes, codes, bytes_eq, arith, is_empty,
}
use myminivault.Prelude.Int.{pos, inc64, ◌<ℤ◌}
use myminivault.Model.{ExtendedVault, RecoveryData}
use myminivault.Container.{
  Metadata, Parsed, wrap, parse, associated_data, is_unknown, kind_name, default_metadata,
  normalize_metadata,
}
use myminivault.Crypto.{
  no_scrypt, encrypt_with_aad, derive_key_with_config, aes_key_size, hkdf_sha256_config,
}
use myminivault.Sensitive.{prefix_checksum}
use myminivault.Storage.Codec.{Library, marshal_with_checksum, seal, encode_recovery}
use myminivault.Storage.Profile.{high_entropy_container_metadata, kdf_config_from_metadata}
use myminivault.Recovery.Open.{decrypt_parsed_vault, validate_key_bytes}
use myminivault.Recovery.RoundTrip.{decrypt_parsed_vault-encode_recovery}
use myminivault.Rollback.{prepare_next_revision, ensure_metadata, trusts_at_least, save_state}
use myminivault.Session.State.{mark_recovery_snapshot_revision}
use myminivault.Session.Recovery.{
  Holder, Writes, save_trusted, save_both, save_vault, handle_refresh_recovery, new_password,
  open_with_key, recover_master_password, recovery_revision_freshness, current_at, behind_by,
}
use myminivault.Session.Recovery.Fresh.{handle_refresh_recovery-current}
use myminivault.Session.Recovery.Recovered.{recover_master_password-stored}
use myminivault.Session.Recovery.Behind.{save_vault-behind}
use myminivault.Tests.Crypto.{plain-Opens}
use myminivault.Tests.Storage.{library, options, vault, sealed_text}

abbrev hash : Bytes
hash = codes "0123456789abcdef0123456789abcdef"

abbrev recovery_data : RecoveryData
recovery_data = record {
  recovery_key_hash = hash;
  created_at = 1;
  last_used = 0;
  use_count = pos 0;
  snapshot_vault_id = codes "id";
  snapshot_revision = pos 3;
  snapshot_at = 2;
}

abbrev recoverable : ExtendedVault
recoverable = record vault {
  metadata = record vault.metadata { vault_id = codes "id"; revision = pos 3 };
  recovery = some recovery_data;
}

abbrev meta : Metadata
meta = normalize_metadata (high_entropy_container_metadata 4) 4

abbrev reader : Library
reader = record library {
  unmarshal_metadata = λ b m. some meta;
  unmarshal_vault = λ b. some recoverable;
}

abbrev snapshot_file : Bytes
snapshot_file = codes "MYMV" ++ (2 ∷ 2 ∷ 0 ∷ 2 ∷ codes "{}" ++ codes "salt" ++ sealed_text)

encoded :
    encode_recovery reader recoverable (codes "key") (codes "salt") (codes "nonce-nonce-") options
    ≡ ok snapshot_file
unfolding encode_recovery marshal_with_checksum seal high_entropy_container_metadata
    kdf_config_from_metadata hkdf_sha256_config wrap associated_data is_unknown kind_name bytes_eq
    default_metadata normalize_metadata encrypt_with_aad derive_key_with_config aes_key_size
    prefix_checksum
encoded = refl

decrypt_parsed_vault-encode_recovery_example :
    (parsed : Parsed) × (parse reader.unmarshal_metadata snapshot_file 4 ≡ ok parsed)
    × (decrypt_parsed_vault reader parsed (codes "key") no_scrypt ≡ ok recoverable)
decrypt_parsed_vault-encode_recovery_example =
    decrypt_parsed_vault-encode_recovery reader options plain-Opens (λ b. refl) recoverable
      recovery_data (codes "key") (codes "salt") (codes "nonce-nonce-") (codes "}") (codes "{}")
      snapshot_file 123 no_scrypt refl refl refl refl (refl, (λ e. ground arith), refl) refl refl
      encoded

abbrev writes : Writes
writes = record {
  new_id = none;
  now = 9;
  snapshot_ok = true;
  snapshot_left = false;
  main_ok = true;
  main_left = false;
  state_ok = true;
  state_left = false;
}

abbrev before : Holder
before = record {
  main = record { vault = recoverable; secret = codes "password" };
  snapshot = some (record { vault = recoverable; secret = codes "key" });
  trusted = ok (record { vault_id = codes "id"; highest_revision = pos 3; updated_at = 5 });
  current_key = [];
}

abbrev fresh : ExtendedVault
fresh = record recoverable {
  metadata = record recoverable.metadata { revision = pos 4 };
  recovery = some (record recovery_data { snapshot_revision = pos 4; snapshot_at = 9 });
}

abbrev refreshed : Holder
refreshed = record {
  main = record { vault = fresh; secret = codes "password" };
  snapshot = some (record { vault = fresh; secret = codes "key" });
  trusted = ok (record { vault_id = codes "id"; highest_revision = pos 4; updated_at = 9 });
  current_key = codes "key";
}

refreshes :
    handle_refresh_recovery library.sha256 writes recoverable
      (codes "password")
      (some (codes "key"))
      before
    ≡ (ok tt, refreshed)
unfolding handle_refresh_recovery save_vault save_both save_trusted save_state prepare_next_revision
    ensure_metadata trusts_at_least inc64 mark_recovery_snapshot_revision validate_key_bytes
    bytes_eq
refreshes = refl

handle_refresh_recovery-current_example :
    (refreshed.snapshot ≡ some (record { vault = fresh; secret = codes "key" }))
    × (recovery_revision_freshness fresh ≡ current_at (pos 4))
    × ((r : RecoveryData) × (open_with_key library.sha256 writes refreshed (codes "key")
          ≡ ok (fresh, r)))
handle_refresh_recovery-current_example =
    handle_refresh_recovery-current library.sha256 writes recoverable (codes "password")
      (codes "key") before refreshed refl refreshes

abbrev used_once : ExtendedVault
used_once = record fresh {
  recovery = some (record recovery_data {
    last_used = 9;
    use_count = pos 1;
    snapshot_revision = pos 4;
    snapshot_at = 9;
  });
}

abbrev recovered : Holder
recovered = record {
  main = record { vault = used_once; secret = codes "new" };
  snapshot = some (record { vault = used_once; secret = codes "key" });
  trusted = ok (record { vault_id = codes "id"; highest_revision = pos 4; updated_at = 9 });
  current_key = [];
}

recovers :
    recover_master_password library.sha256 writes
      (codes "key")
      (some (codes "new"))
      (some (codes "new"))
      before
    ≡ (ok tt, recovered)
unfolding recover_master_password new_password open_with_key save_vault save_both save_trusted
    save_state prepare_next_revision ensure_metadata trusts_at_least inc64
    mark_recovery_snapshot_revision validate_key_bytes bytes_eq
recovers = refl

recover_master_password-stored_example :
    (old : ExtendedVault) × ((r r' : RecoveryData) × (password : Bytes) × (open_with_key
          library.sha256 writes before
          (codes "key")
        ≡ ok (old, r))
      × (some (codes "new") ≡ some password)
      × (some (codes "new") ≡ some password)
      × (is_empty password ≡ false)
      × (recovered.main.secret ≡ password)
      × (recovered.main.vault.contents ≡ old.contents)
      × (recovered.main.vault.recovery ≡ some r')
      × (r'.use_count ≡ inc64 r.use_count)
      × (open_with_key library.sha256 writes recovered (codes "key")
          ≡ ok (recovered.main.vault, r'))
      × (recovered.current_key ≡ []))
recover_master_password-stored_example =
    recover_master_password-stored library.sha256 writes (codes "key") (some (codes "new"))
      (some (codes "new")) before recovered refl recovers

abbrev behind : ExtendedVault
behind = record recoverable { metadata = record recoverable.metadata { revision = pos 4 } }

abbrev after_save : Holder
after_save = record before {
  main = record { vault = behind; secret = codes "password" };
  trusted = ok (record { vault_id = codes "id"; highest_revision = pos 4; updated_at = 9 });
}

saves : save_vault writes recoverable (codes "password") before ≡ (ok tt, after_save)
unfolding save_vault save_both save_trusted save_state prepare_next_revision ensure_metadata
    trusts_at_least inc64 mark_recovery_snapshot_revision bytes_eq
saves = refl

save_vault-behind_example :
    (after_save.snapshot ≡ before.snapshot)
    × (recovery_revision_freshness behind ≡ behind_by (pos 3) (pos 4))
    × (pos 3 <ℤ pos 4)
save_vault-behind_example =
    save_vault-behind writes recoverable recovery_data (codes "password") before after_save refl
      refl refl refl (omega arith) (omega arith) (omega arith) (omega arith) saves
