-- ===== src/Session/Recovery.antt =====
-- cmd/vault/recovery_cli.go, recovery_freshness.go and storage_bridge.go: the commands on the recovery key
-- and the password, on the vaults that the files hold.
pub mod Fresh
pub mod Recovered
pub mod Behind
use myminivault.Prelude.{
  ℕ, Bool, true, false, not, ◌&&◌, ◌||◌, Option, none, some, if◌then◌else◌, Bytes, codes, bytes_eq,
  is_empty, [], is_some, Result, ok, err,
}
use myminivault.Prelude.Int.{ℤ, pos, ltb_ℤ, leb_ℤ, inc64}
use myminivault.Model.{ExtendedVault, RecoveryData, Time}
use myminivault.Rollback.{State, StateError, prepare_next_revision, save_state}
use myminivault.Recovery.Open.{validate_key_bytes}
use myminivault.Commands.Space.{trim_space}
use myminivault.Session.State.{known_state, mark_recovery_snapshot_revision}

-- A vault and the secret that its file opens under: a password, or a recovery key.
pub record Sealed : Type 0 where
  pub vault : ExtendedVault
  pub secret : Bytes

-- The vault file, the snapshot file, the trusted state, and `currentRecoveryKeyBytes`.
pub record Holder : Type 0 where
  pub main : Sealed
  pub snapshot : Option Sealed
  pub trusted : Result StateError State
  pub current_key : Bytes

-- What a save meets: a random vault id, the clock, which writes succeed, and which of
-- those that fail do so after the new file is in place.
pub record Writes : Type 0 where
  pub new_id : Option Bytes
  pub now : Time
  pub snapshot_ok : Bool
  pub snapshot_left : Bool
  pub main_ok : Bool
  pub main_left : Bool
  pub state_ok : Bool
  pub state_left : Bool

pub data SessionError : Type 0 where
  state_failed save_failed no_recovery invalid_key not_opened empty_password : SessionError
  passwords_differ read_failed : SessionError

-- The last step of `saveExtendedVaultBytes`.
unfoldable pub save_trusted :
    Writes → ExtendedVault → Holder → Result SessionError (Unit {0}) × Holder
save_trusted s vault h = elim (save_state vault.metadata s.now) [
  | err e ↦ (err state_failed, h)
  | ok state ↦
      if s.state_ok
      then (ok tt, record h { trusted = ok state })
      else (err state_failed, record h { trusted = if s.state_left then ok state else h.trusted })
]

-- `SaveBytes`: the snapshot first, where the vault has a recovery key and the session too.
unfoldable pub save_both :
    Writes → ExtendedVault → Bytes → Holder → Result SessionError (Unit {0}) × Holder
save_both s vault password h =
    let refresh = is_some vault.recovery && not (is_empty h.current_key) in
    let kept =
      if refresh
      then record h { snapshot = some (record { vault = vault; secret = h.current_key }) }
      else h in
    let sealed : Sealed = record { vault = vault; secret = password } in
    if refresh && not s.snapshot_ok
    then (err save_failed, if s.snapshot_left then kept else h)
    else if s.main_ok
    then save_trusted s vault (record kept { main = sealed })
    else (err save_failed, record kept { main = if s.main_left then sealed else kept.main })

-- `saveExtendedVaultBytes`
unfoldable pub save_vault :
    Writes → ExtendedVault → Bytes → Holder → Result SessionError (Unit {0}) × Holder
save_vault s vault password h =
    elim (prepare_next_revision s.new_id vault.metadata (known_state h.trusted)) [
      | err e ↦ (err state_failed, h)
      | ok metadata ↦
          save_both s
            (mark_recovery_snapshot_revision (not (is_empty h.current_key)) s.now
              (record vault { metadata = metadata }))
            password h
    ]

module _ (sha256 : Bytes → Bytes) (s : Writes) where
  -- `handleRefreshRecovery`, with the key that was typed, `none` where it cannot be read.
  unfoldable pub handle_refresh_recovery :
      ExtendedVault → Bytes → Option Bytes → Holder → Result SessionError (Unit {0}) × Holder
  handle_refresh_recovery vault password typed h = elim vault.recovery [
    | none ↦ (err no_recovery, h)
    | some recovery_data ↦ elim typed [
      | none ↦ (err read_failed, h)
      | some key ↦
          if validate_key_bytes sha256 recovery_data key
          then save_vault s vault password (record h { current_key = key })
          else (err invalid_key, h)
    ]
  ]

  -- The two prompts for a new password.
  unfoldable pub new_password : Option Bytes → Option Bytes → Result SessionError Bytes
  new_password none confirm = err read_failed
  new_password (some password) confirm =
      if is_empty password then err empty_password else elim confirm [
        | none ↦ err read_failed
        | some again ↦ if bytes_eq password again then ok password else err passwords_differ
      ]

  -- `handleChangePassword`
  unfoldable pub handle_change_password :
      ExtendedVault → Option Bytes → Option Bytes → Holder → Result SessionError (Unit {0}) × Holder
  handle_change_password vault typed confirm h = elim (new_password typed confirm) [
    | err e ↦ (err e, h)
    | ok password ↦ save_vault s vault password h
  ]

  -- `DecryptParsedVault` on the snapshot, which opens only under its own secret and holds the hash of
  -- it. Where there is no snapshot the vault file is tried, which is refused for its kind; a legacy
  -- vault file is not modelled.
  unfoldable pub open_with_key : Holder → Bytes → Result SessionError (ExtendedVault × RecoveryData)
  open_with_key h key = elim h.snapshot [
    | none ↦ err not_opened
    | some snapshot ↦
        if bytes_eq snapshot.secret key
        then elim snapshot.vault.recovery [
          | none ↦ err invalid_key
          | some recovery_data ↦
              if validate_key_bytes sha256 recovery_data key
              then ok (snapshot.vault, recovery_data)
              else err invalid_key
        ]
        else err not_opened
  ]

  -- `recoverMasterPassword`; the key is cleared when it returns.
  unfoldable pub recover_master_password :
      Bytes → Option Bytes → Option Bytes → Holder → Result SessionError (Unit {0}) × Holder
  recover_master_password key typed confirm h = elim (open_with_key h key) [
    | err e ↦ (err e, record h { current_key = [] })
    | ok (vault, recovery_data) ↦ elim (new_password typed confirm) [
      | err e ↦ (err e, record h { current_key = [] })
      | ok password ↦
          let used = record vault {
            recovery = some (record recovery_data {
              last_used = s.now;
              use_count = inc64 recovery_data.use_count;
            });
          } in
          let (end, h') = save_vault s used password (record h { current_key = key }) in
          (end, record h' { current_key = [] })
    ]
  ]

-- The answers of `recoveryRevisionFreshness`, with what they print.
pub data Freshness : Type 0 where
  not_configured legacy_metadata no_snapshot_metadata : Freshness
  vault_id_mismatch : Bytes → Bytes → Freshness
  current_at : ℤ → Freshness
  behind_by : ℤ → ℤ → Freshness

unfoldable pub recovery_revision_freshness : ExtendedVault → Freshness
recovery_revision_freshness vault = elim vault.recovery [
  | none ↦ not_configured
  | some r ↦
      if is_empty vault.metadata.vault_id || ltb_ℤ vault.metadata.revision (pos 1)
      then legacy_metadata
      else if is_empty r.snapshot_vault_id || ltb_ℤ r.snapshot_revision (pos 1)
      then no_snapshot_metadata
      else if not (bytes_eq r.snapshot_vault_id vault.metadata.vault_id)
      then vault_id_mismatch r.snapshot_vault_id vault.metadata.vault_id
      else if leb_ℤ vault.metadata.revision r.snapshot_revision
      then current_at r.snapshot_revision
      else behind_by r.snapshot_revision vault.metadata.revision
]
