-- ===== src/Sync.antt =====
-- internal/sync/sync.go: the timestamped merge of the shared token vault into the main vault. The
-- `range` loops over maps run in the order of the association list, which is arbitrary.
pub mod Marks
pub mod Merge
pub mod Preview
use myminivault.Prelude.{
  ℕ, ◌+◌, Bool, true, false, not, ◌&&◌, ◌||◌, none, some, List, [], ◌∷◌, ◌++◌, if◌then◌else◌, Bytes,
  bytes_eq, Dict, lookup, insert, erase, entries, or_else, is_some, is_empty,
}
use myminivault.Model.{ExtendedVault, Time, is_zero, after}
use myminivault.Commands.Export.{sort_strings}

pub record ImportResult : Type 0 where
  pub imported : ℕ
  pub deleted : ℕ
  pub skipped_conflicts : ℕ
  pub legacy_decisions : ℕ

abbrev pub no_changes : ImportResult
no_changes = record { imported = 0; deleted = 0; skipped_conflicts = 0; legacy_decisions = 0 }

pub record PreviewResult : Type 0 where
  pub import_keys : List Bytes
  pub delete_keys : List Bytes
  pub conflict_keys : List Bytes
  pub legacy_decision_keys : List Bytes

-- The maps of the sync metadata, nil or not.
abbrev pub sync_updated : ExtendedVault → Dict Time
sync_updated vault = elim vault.sync [ none ↦ [] | some s ↦ entries s.updated_at ]

abbrev pub sync_deleted : ExtendedVault → Dict Time
sync_deleted vault = elim vault.sync [ none ↦ [] | some s ↦ entries s.deleted_at ]

-- `UpdatedAt` and `DeletedAt`: the zero time where nothing is recorded.
unfoldable pub updated_at : ExtendedVault → Bytes → Time
updated_at vault key = or_else (lookup key (sync_updated vault)) 0

unfoldable pub deleted_at : ExtendedVault → Bytes → Time
deleted_at vault key = or_else (lookup key (sync_deleted vault)) 0

-- `EnsureMetadata`: both maps are there.
unfoldable pub ensure_metadata : ExtendedVault → ExtendedVault
ensure_metadata vault = record vault {
  sync =
      some
        (record { updated_at = some (sync_updated vault); deleted_at = some (sync_deleted vault) });
}

unfoldable pub mark_key_updated_at : ExtendedVault → Bytes → Time → ExtendedVault
mark_key_updated_at vault key at = record vault {
  sync = some (record {
    updated_at = some (insert key at (sync_updated (ensure_metadata vault)));
    deleted_at = some (erase key (sync_deleted (ensure_metadata vault)));
  });
}

unfoldable pub mark_key_deleted_at : ExtendedVault → Bytes → Time → ExtendedVault
mark_key_deleted_at vault key at = record vault {
  sync = some (record {
    updated_at = some (erase key (sync_updated (ensure_metadata vault)));
    deleted_at = some (insert key at (sync_deleted (ensure_metadata vault)));
  });
}

-- `MarkKeysUpdated` and `MarkAllKeysDeleted`; the clock is read once for each key.
unfoldable pub mark_keys_updated : ExtendedVault → List (Bytes × Time) → ExtendedVault
mark_keys_updated vault [] = vault
mark_keys_updated vault ((key, now) ∷ keys) =
    mark_keys_updated (mark_key_updated_at vault key now) keys

unfoldable pub mark_all_keys_deleted : ExtendedVault → List (Bytes × Time) → ExtendedVault
mark_all_keys_deleted vault [] = vault
mark_all_keys_deleted vault ((key, now) ∷ keys) =
    mark_all_keys_deleted (mark_key_deleted_at vault key now) keys

-- `vault.Data[key]`, which is "" where there is no such key.
abbrev pub value_at : ExtendedVault → Bytes → Bytes
value_at vault key = or_else (lookup key (entries vault.contents)) []

unfoldable pub should_import_shared_value : ExtendedVault → ExtendedVault → Bytes → Bool
should_import_shared_value main shared key =
    let shared_updated_at = updated_at shared key in
    let main_updated_at = updated_at main key in
    if bytes_eq (value_at main key) (value_at shared key)
    then false
    else if is_zero shared_updated_at || is_zero main_updated_at
    then true
    else after shared_updated_at main_updated_at

unfoldable pub uses_legacy_import_decision : ExtendedVault → ExtendedVault → Bytes → Bool
uses_legacy_import_decision main shared key =
    if is_zero (updated_at shared key)
    then true
    else if is_some (lookup key (entries main.contents))
    then is_zero (updated_at main key)
    else false

abbrev pub count_if : Bool → ℕ → ℕ
count_if b n = if b then n + 1 else n

-- The body of the loop of `ImportSharedVault` over the shared values.
unfoldable pub import_value :
    Time
    → ExtendedVault
    → Bytes
    → Bytes
    → ExtendedVault × ImportResult
    → ExtendedVault × ImportResult
import_value now shared key value (main, result) =
    if should_import_shared_value main shared key
    then (
      mark_key_updated_at
          (record main { contents = some (insert key value (entries main.contents)) }) key now,
      record result {
        imported = result.imported + 1;
        legacy_decisions =
            count_if (uses_legacy_import_decision main shared key) result.legacy_decisions;
      },
    )
    else (
      main,
      record result {
        skipped_conflicts =
            count_if (not (bytes_eq (value_at main key) value)) result.skipped_conflicts;
      },
    )

unfoldable pub import_values :
    Time → ExtendedVault → Dict Bytes → ExtendedVault × ImportResult → ExtendedVault × ImportResult
import_values now shared [] acc = acc
import_values now shared ((key, value) ∷ rest) acc =
    import_values now shared rest (import_value now shared key value acc)

-- The tests of `ImportSharedVault` on a deletion that the shared vault records.
unfoldable pub deletes : ExtendedVault → Bytes → Time → Bool
deletes main key shared_deleted_at =
    not (is_zero shared_deleted_at)
    && (is_zero (updated_at main key) || after shared_deleted_at (updated_at main key))
    && is_some (lookup key (entries main.contents))

-- The body of the loop over the recorded deletions.
unfoldable pub import_deletion :
    Time → Bytes → Time → ExtendedVault × ImportResult → ExtendedVault × ImportResult
import_deletion now key shared_deleted_at (main, result) =
    if deletes main key shared_deleted_at
    then (
      mark_key_deleted_at (record main { contents = some (erase key (entries main.contents)) }) key
          now,
      record result {
        deleted = result.deleted + 1;
        legacy_decisions = count_if (is_zero (updated_at main key)) result.legacy_decisions;
      },
    )
    else (main, result)

unfoldable pub import_deletions :
    Time → Dict Time → ExtendedVault × ImportResult → ExtendedVault × ImportResult
import_deletions now [] acc = acc
import_deletions now ((key, at) ∷ rest) acc =
    import_deletions now rest (import_deletion now key at acc)

-- `ImportSharedVault` on two vaults that are not nil.
unfoldable pub import_shared_vault :
    ExtendedVault → ExtendedVault → Time → ExtendedVault × ImportResult
import_shared_vault main shared now =
    let start = record main { contents = some (entries main.contents) } in
    import_deletions now (sync_deleted shared)
      (import_values now shared (entries shared.contents) (start, no_changes))

-- `CopyVaultData`: a new map with the same entries.
unfoldable pub copy_vault_data : Dict Bytes → Dict Bytes
copy_vault_data [] = []
copy_vault_data ((key, value) ∷ contents) = insert key value (copy_vault_data contents)

abbrev pub add_if : Bool → Bytes → List Bytes → List Bytes
add_if b key keys = if b then keys ++ key ∷ [] else keys

-- The bodies of the two loops of `PreviewSharedVault`.
unfoldable pub preview_value :
    ExtendedVault → ExtendedVault → Bytes → Bytes → PreviewResult → PreviewResult
preview_value main shared key value result =
    let takes = should_import_shared_value main shared key in
    record result {
      import_keys = add_if takes key result.import_keys;
      conflict_keys =
          add_if (not takes && not (bytes_eq (value_at main key) value)) key result.conflict_keys;
      legacy_decision_keys =
          add_if (takes && uses_legacy_import_decision main shared key) key
            result.legacy_decision_keys;
    }

unfoldable pub preview_values :
    ExtendedVault → ExtendedVault → Dict Bytes → PreviewResult → PreviewResult
preview_values main shared [] result = result
preview_values main shared ((key, value) ∷ rest) result =
    preview_values main shared rest (preview_value main shared key value result)

-- The copy of these tests in `PreviewSharedVault`.
unfoldable pub preview_deletes : ExtendedVault → Bytes → Time → Bool
preview_deletes main key shared_deleted_at =
    not (is_zero shared_deleted_at)
    && (is_zero (updated_at main key) || after shared_deleted_at (updated_at main key))
    && is_some (lookup key (entries main.contents))

unfoldable pub preview_deletion : ExtendedVault → Bytes → Time → PreviewResult → PreviewResult
preview_deletion main key at result =
    let takes = preview_deletes main key at in
    record result {
      delete_keys = add_if takes key result.delete_keys;
      legacy_decision_keys =
          add_if (takes && is_zero (updated_at main key)) key result.legacy_decision_keys;
    }

unfoldable pub preview_deletions : ExtendedVault → Dict Time → PreviewResult → PreviewResult
preview_deletions main [] result = result
preview_deletions main ((key, at) ∷ rest) result =
    preview_deletions main rest (preview_deletion main key at result)

abbrev pub no_keys : PreviewResult
no_keys = record {
  import_keys = [];
  delete_keys = [];
  conflict_keys = [];
  legacy_decision_keys = [];
}

-- `PreviewSharedVault` on two vaults that are not nil.
unfoldable pub preview_shared_vault : ExtendedVault → ExtendedVault → PreviewResult
preview_shared_vault main shared =
    let found =
      preview_deletions main (sync_deleted shared)
        (preview_values main shared (entries shared.contents) no_keys) in
    record {
      import_keys = sort_strings found.import_keys;
      delete_keys = sort_strings found.delete_keys;
      conflict_keys = sort_strings found.conflict_keys;
      legacy_decision_keys = sort_strings found.legacy_decision_keys;
    }

-- `HasChanges`
unfoldable pub has_changes : PreviewResult → Bool
has_changes result =
    not (is_empty result.import_keys)
    || not (is_empty result.delete_keys)
    || not (is_empty result.conflict_keys)
