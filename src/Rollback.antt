-- ===== src/Rollback.antt =====
-- internal/rollback/rollback.go: revision numbers and the trusted state that detects the replay of
-- an old vault file. File access and encoding/json are inputs of the functions.
pub mod Detection
pub mod Write
use myminivault.Prelude.{
  ℕ, Bool, true, false, ◌&&◌, ◌||◌, not, Option, none, some, if◌then◌else◌, Bytes, codes, bytes_eq,
  is_empty, Result, ok, err, ◌>>=◌, ◌>>◌, fail_if,
}
use myminivault.Prelude.Int.{ℤ, pos, ltb_ℤ, leb_ℤ, eqb_ℤ, inc64}
use myminivault.Model.{VaultMetadata, Time}

pub record State : Type 0 where
  pub vault_id : Bytes
  pub highest_revision : ℤ
  pub updated_at : Time

pub data Status : Type 0 where
  all_right warn fail : Status

-- The texts of `Detail`, with what they print.
pub data Detail : Type 0 where
  legacy_vault legacy_revision unreadable : Detail
  state_missing : ℤ → Detail
  id_mismatch : Bytes → Bytes → Detail
  possible_rollback revision_fine : ℤ → ℤ → Detail

pub record CheckResult : Type 0 where
  pub status : Status
  pub detail : Detail
  pub state : Option State

pub data StateError : Type 0 where
  not_exist read_failed bad_json missing_vault_id invalid_highest_revision : StateError
  random_failed incomplete_metadata : StateError

-- `id` is the result of `randomID`, `none` where the random source fails.
unfoldable pub ensure_metadata : Option Bytes → VaultMetadata → Result StateError VaultMetadata
ensure_metadata id meta =
    let one = pos 1 in
    let revision' = if ltb_ℤ meta.revision one then one else meta.revision in
    if is_empty meta.vault_id
    then elim id [
      | none ↦ err random_failed
      | some new ↦ ok (record meta { vault_id = new; revision = revision' })
    ]
    else ok (record meta { revision = revision' })

-- `state != nil && state.VaultID == id && state.HighestRevision >= revision`
unfoldable pub trusts_at_least : Option State → Bytes → ℤ → Bool
trusts_at_least none id revision = false
trusts_at_least (some state) id revision =
    bytes_eq state.vault_id id && leb_ℤ revision state.highest_revision

-- `state.HighestRevision + 1`, where there is a state.
abbrev pub above : Option State → ℤ → ℤ
above none d = d
above (some state) d = inc64 state.highest_revision

unfoldable pub prepare_next_revision :
    Option Bytes → VaultMetadata → Option State → Result StateError VaultMetadata
unfolding trusts_at_least
prepare_next_revision id meta state =
    let legacy = is_empty meta.vault_id || ltb_ℤ meta.revision (pos 1) in
    do
      ensured ← ensure_metadata id meta
      let next = if legacy then ensured.revision else inc64 ensured.revision
      let next' = if trusts_at_least state ensured.vault_id next then above state next else next
      ok (record ensured { revision = next' })

abbrev rollback_check_result : Bytes → Detail → Option State → CheckResult
rollback_check_result mode detail state = record {
  status = if bytes_eq mode (codes "block") then fail else warn;
  detail = detail;
  state = state;
}

-- `meta.VaultID == "" || meta.Revision == 0`
abbrev is_legacy : VaultMetadata → Bool
is_legacy meta = is_empty meta.vault_id || eqb_ℤ meta.revision (pos 0)

-- `CheckWithMode` on what `LoadState` returned.
unfoldable pub check_with_mode : Result StateError State → VaultMetadata → Bytes → CheckResult
check_with_mode (err not_exist) meta mode =
    if is_legacy meta
    then record { status = all_right; detail = legacy_vault; state = none }
    else rollback_check_result mode (state_missing meta.revision) none
check_with_mode (err _) meta mode = rollback_check_result mode unreadable none
check_with_mode (ok state) meta mode =
    if is_legacy meta
    then rollback_check_result mode legacy_revision (some state)
    else if not (bytes_eq state.vault_id meta.vault_id)
    then rollback_check_result mode (id_mismatch state.vault_id meta.vault_id) (some state)
    else if ltb_ℤ meta.revision state.highest_revision
    then rollback_check_result mode (possible_rollback meta.revision state.highest_revision)
        (some state)
    else record {
      status = all_right;
      detail = revision_fine meta.revision state.highest_revision;
      state = some state;
    }

-- `LoadState` on the bytes of the file, with `json.Unmarshal` as a parameter.
unfoldable pub load_state :
    (Bytes → Option State) → Result StateError Bytes → Result StateError State
load_state unmarshal content = do
  text ← content
  state ← elim (unmarshal text) [ none ↦ err bad_json | some s ↦ ok s ]
  fail_if (is_empty state.vault_id) missing_vault_id
  fail_if (ltb_ℤ state.highest_revision (pos 1)) invalid_highest_revision
  ok state

-- `SaveState` up to the value that is written.
unfoldable pub save_state : VaultMetadata → Time → Result StateError State
save_state meta now = do
  fail_if (is_empty meta.vault_id || ltb_ℤ meta.revision (pos 1)) incomplete_metadata
  ok (record { vault_id = meta.vault_id; highest_revision = meta.revision; updated_at = now })

-- The revisions in `saveExtendedVaultBytes` of cmd/vault/storage_bridge.go, where `SaveBytes` and
-- the file of the state succeed. The marks on the recovery snapshot are in Session.State.
unfoldable pub save_revision :
    Option Bytes
    → Time
    → VaultMetadata × Option State
    → Result StateError (VaultMetadata × Option State)
save_revision id now (meta, state) = do
  meta' ← prepare_next_revision id meta state
  state' ← save_state meta' now
  ok (meta', some state')
