-- ===== src/Model.antt =====
-- internal/model/model.go: the encrypted vault payload. A pointer is an option, a map may be nil,
-- and a `time.Time` is a number of nanoseconds whose zero is the zero time.
use myminivault.Prelude.{ℕ, Bool, List, [], Option, none, ltb, ◌==◌, Bytes, Dict}
use myminivault.Prelude.Int.{ℤ, pos}

abbrev pub Time : Type 0
Time = ℕ

-- `t.IsZero()`
abbrev pub is_zero : Time → Bool
is_zero t = t == 0

-- `t.After(u)`
abbrev pub after : Time → Time → Bool
after t u = ltb u t

pub record RecoveryData : Type 0 where
  pub recovery_key_hash : Bytes
  pub created_at : Time
  pub last_used : Time
  pub use_count : ℤ
  pub snapshot_vault_id : Bytes
  pub snapshot_revision : ℤ
  pub snapshot_at : Time

pub record AccessToken : Type 0 where
  pub token_id : Bytes
  pub key_pattern : Bytes
  pub expires_at : Time
  pub permissions : List Bytes
  pub usage_count : ℤ
  pub max_uses : ℤ
  pub created_at : Time

pub record TokenManager : Type 0 where
  pub tokens : Option (Dict AccessToken)
  pub secret_key : Bytes

pub record SyncMetadata : Type 0 where
  pub updated_at : Option (Dict Time)
  pub deleted_at : Option (Dict Time)

pub record VaultMetadata : Type 0 where
  pub version : Bytes
  pub created_at : Time
  pub last_access : Time
  pub access_count : ℤ
  pub vault_id : Bytes
  pub revision : ℤ

pub record ExtendedVault : Type 0 where
  pub contents : Option (Dict Bytes)
  pub recovery : Option RecoveryData
  pub token_manager : Option TokenManager
  pub sync : Option SyncMetadata
  pub metadata : VaultMetadata

pub record TokenRegistry : Type 0 where
  pub vault_path : Bytes
  pub shared_vault_path : Bytes
  pub tokens : Option (Dict Bytes)

-- `&ExtendedVault{Data: data, Metadata: VaultMetadata{Version: version, CreatedAt: now}}`
abbrev pub new_vault : Option (Dict Bytes) → Bytes → Time → ExtendedVault
new_vault data' version now = record {
  contents = data';
  recovery = none;
  token_manager = none;
  sync = none;
  metadata = record {
    version = version;
    created_at = now;
    last_access = 0;
    access_count = pos 0;
    vault_id = [];
    revision = pos 0;
  };
}
