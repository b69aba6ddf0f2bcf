-- ===== src/Doctor.antt =====
-- cmd/vault/doctor_cli.go: the checks of `doctor`, on what `os.Lstat`, `os.Stat` and the readers of the
-- files answer. A `Detail` stands for the text that is printed.
pub mod Recovery
pub mod Summary
use myminivault.Prelude.{
  ℕ, suc, ◌%◌, Bool, true, false, not, ◌&&◌, ◌||◌, ◌==◌, List, [], ◌∷◌, ◌++◌, map, Option, none,
  some, if◌then◌else◌, ltb, Bytes, codes, bytes_eq, is_empty, length, Result, ok, err,
}
use myminivault.Prelude.Int.{ℤ, pos}
use myminivault.Model.{Time, after}
use myminivault.Container.{Parsed, version_2, kind_main_vault, kind_recovery_vault}
use myminivault.Config.{Config, ConfigError}
use myminivault.Health.{CryptoConfig, Issue, metadata_compatibility_issue}
use myminivault.Rollback.{State, StateError, not_exist}

pub data Status : Type 0 where
  all_right warn fail : Status

pub data Detail : Type 0 where
  not_present inspect_failed link a_directory mode_is mode_unsafe : Detail
  lock_present no_backups : Detail
  backup_link : Bytes → Detail
  unsafe_backups : List Bytes → Detail
  backups_found : ℕ → Detail
  not_configured main_missing no_snapshot snapshot_older snapshot_current : Detail
  unreadable_snapshot legacy_snapshot older_snapshot matches_config shares_salt : Detail
  unexpected_kind : ℕ → Detail
  incompatible : Issue → Detail
  no_shared_vault shared_newer shared_not_newer : Detail
  state_missing state_unreadable state_known : Detail
  defaults_used config_valid : Detail
  config_invalid : ConfigError → Detail
  key_in_file key_in_keychain keychain_not_implemented keychain_unavailable : Detail

pub record Check : Type 0 where
  pub status : Status
  pub detail : Detail

abbrev pub check : Status → Detail → Check
check status detail = record { status = status; detail = detail }

-- `os.FileInfo`: what it is, the permission bits, and the time of the last change.
pub record Info : Type 0 where
  pub is_link : Bool
  pub is_dir : Bool
  pub perm : ℕ
  pub mod_time : Time

-- An answer of `os.Lstat` or `os.Stat`.
pub data Answer : Type 0 where
  missing failing : Answer
  found : Info → Answer

-- `mode & 0077 != 0`: the six low bits.
abbrev pub is_open : Info → Bool
is_open info = not (info.perm % 64 == 0)

unfoldable pub check_file_mode : Bool → Answer → Check
check_file_mode required missing =
    if required then check fail inspect_failed else check all_right not_present
check_file_mode required failing = check fail inspect_failed
check_file_mode required (found info) =
    if info.is_link
    then check fail link
    else if info.is_dir
    then check fail a_directory
    else if is_open info
    then check warn mode_unsafe
    else check all_right mode_is

unfoldable pub check_lock_file_health : Answer → Check
check_lock_file_health missing = check all_right not_present
check_lock_file_health failing = check fail inspect_failed
check_lock_file_health (found info) =
    if info.is_link
    then check fail link
    else if info.is_dir
    then check fail a_directory
    else if is_open info
    then check warn mode_unsafe
    else check warn lock_present

-- The loop over the sorted backups: the first that cannot be inspected or is a link, or the unsafe
-- ones.
unfoldable pub unsafe_among : List (Bytes × Answer) → Result Detail (List Bytes)
unsafe_among [] = ok []
unsafe_among ((name, missing) ∷ rest) = err inspect_failed
unsafe_among ((name, failing) ∷ rest) = err inspect_failed
unsafe_among ((name, found info) ∷ rest) =
    let others = unsafe_among rest in
    if info.is_link then err (backup_link name) else elim others [
      | err e ↦ err e
      | ok names ↦ ok (if is_open info then name ∷ names else names)
    ]

unfoldable pub check_backup_health : List (Bytes × Answer) → Check
check_backup_health [] = check warn no_backups
check_backup_health (b ∷ backups) = elim (unsafe_among (b ∷ backups)) [
  | err e ↦ check fail e
  | ok [] ↦ check all_right (backups_found (length (b ∷ backups)))
  | ok (name ∷ names) ↦ check warn (unsafe_backups (name ∷ names))
]

-- `RejectSymlink` with a missing file allowed.
abbrev is_rejected : Answer → Bool
is_rejected missing = false
is_rejected failing = true
is_rejected (found info) = info.is_link

-- From the answers of `os.Stat` on the vault and on the snapshot.
unfoldable pub recovery_freshness_of : Answer → Answer → Check
recovery_freshness_of missing missing = check all_right not_configured
recovery_freshness_of missing snapshot = check warn main_missing
recovery_freshness_of failing snapshot = check fail inspect_failed
recovery_freshness_of (found main) missing = check warn no_snapshot
recovery_freshness_of (found main) failing = check fail inspect_failed
recovery_freshness_of (found main) (found snapshot) =
    if ltb snapshot.mod_time main.mod_time
    then check warn snapshot_older
    else check all_right snapshot_current

unfoldable pub check_recovery_freshness : Answer → Answer → Check
check_recovery_freshness main snapshot =
    if is_rejected main || is_rejected snapshot
    then check fail inspect_failed
    else recovery_freshness_of main snapshot

unfoldable pub shared_freshness_of : Answer → Answer → Check
shared_freshness_of main missing = check all_right no_shared_vault
shared_freshness_of main failing = check fail inspect_failed
shared_freshness_of missing (found shared) = check warn main_missing
shared_freshness_of failing (found shared) = check fail inspect_failed
shared_freshness_of (found main) (found shared) =
    if after shared.mod_time main.mod_time
    then check warn shared_newer
    else check all_right shared_not_newer

unfoldable pub check_shared_vault_freshness : Answer → Answer → Check
check_shared_vault_freshness main shared =
    if is_rejected main || is_rejected shared
    then check fail inspect_failed
    else shared_freshness_of main shared

-- What `container.ReadFile` returns.
pub data Opened : Type 0 where
  absent unreadable : Opened
  parsed_as : Parsed → Opened

-- `recoveryUsesMainVaultSalt`
unfoldable pub recovery_uses_main_vault_salt : Opened → Bytes → Bool
recovery_uses_main_vault_salt absent salt = false
recovery_uses_main_vault_salt unreadable salt = false
recovery_uses_main_vault_salt (parsed_as main) salt =
    if not main.legacy && not (main.kind == kind_main_vault) then false else bytes_eq main.salt salt

unfoldable pub check_recovery_compatibility : CryptoConfig → Opened → Opened → Check
check_recovery_compatibility cfg main absent = check all_right not_configured
check_recovery_compatibility cfg main unreadable = check fail unreadable_snapshot
check_recovery_compatibility cfg main (parsed_as snapshot) =
    if snapshot.legacy
    then check warn legacy_snapshot
    else if not (snapshot.kind == kind_recovery_vault)
    then check fail (unexpected_kind snapshot.kind)
    else if ltb snapshot.version version_2
    then check warn older_snapshot
    else elim (metadata_compatibility_issue snapshot.metadata cfg) [
      | some issue ↦ check warn (incompatible issue)
      | none ↦
          if recovery_uses_main_vault_salt main snapshot.salt
          then check all_right shares_salt
          else check all_right matches_config
    ]

unfoldable pub check_rollback_state_health : Result StateError State → Answer → Check
check_rollback_state_health (err not_exist) file = check warn state_missing
check_rollback_state_health (err _) file = check warn state_unreadable
check_rollback_state_health (ok state) file =
    let mode = check_file_mode false file in
    elim mode.status [ all_right ↦ check all_right state_known | _ ↦ mode ]

-- `stat` is the answer of `os.Stat`, `loaded` what `LoadFile` returns.
unfoldable pub check_config_health : Answer → Result ConfigError Config → Answer → Check
check_config_health missing loaded file = check all_right defaults_used
check_config_health stat (err e) file = check fail (config_invalid e)
check_config_health stat (ok cfg) file =
    let mode = check_file_mode false file in
    elim mode.status [ all_right ↦ check all_right config_valid | _ ↦ mode ]

-- `available` and `is_mac` say what `keychain.Detect` found.
unfoldable pub check_token_key_storage_health : Bytes → Bool → Bool → Check
check_token_key_storage_health storage available is_mac =
    if bytes_eq storage (codes "file")
    then check all_right key_in_file
    else if bytes_eq storage (codes "keychain")
    then (if available && is_mac
        then check all_right key_in_keychain
        else if available
        then check fail keychain_not_implemented
        else check fail keychain_unavailable)
    else if available && is_mac
    then check all_right key_in_keychain
    else check all_right key_in_file

-- The counts of `handleDoctorCommand`, and its last line.
pub data Verdict : Type 0 where
  healthy usable_with_warnings attention_required : Verdict

abbrev pub is_fail : Status → Bool
is_fail fail = true
is_fail _ = false

abbrev pub is_warn : Status → Bool
is_warn warn = true
is_warn _ = false

unfoldable pub failures : List Check → ℕ
failures [] = 0
failures (c ∷ checks) = if is_fail c.status then suc (failures checks) else failures checks

unfoldable pub warnings : List Check → ℕ
warnings [] = 0
warnings (c ∷ checks) = if is_warn c.status then suc (warnings checks) else warnings checks

unfoldable pub verdict : List Check → Verdict
verdict checks =
    if ltb 0 (failures checks)
    then attention_required
    else if ltb 0 (warnings checks)
    then usable_with_warnings
    else healthy
