-- ===== src/Tests/Sync.antt =====
-- A merge that takes a value and a deletion, and one that changes nothing.
use myminivault.Prelude.{
  ◌≡◌, refl, none, some, if◌then◌else◌, [], ◌∷◌, Bytes, codes, bytes_eq, Dict, lookup, entries,
}
use myminivault.Model.{ExtendedVault, Time, new_vault}
use myminivault.Sync.{
  sync_deleted, import_shared_vault, preview_shared_vault, preview_value, preview_values,
  preview_deletion, preview_deletions, has_changes, should_import_shared_value, updated_at,
  preview_deletes,
}
use myminivault.Commands.Export.{sort_strings}
use myminivault.Sync.Merge.{taken_away, merged_time, merged_value, import_shared_vault-merged}
use myminivault.Sync.Preview.{import_shared_vault-unchanged}

abbrev with_times : Dict Bytes → Dict Time → Dict Time → ExtendedVault
with_times contents updated deleted = record (new_vault (some contents) (codes "1.0") 1) {
  sync = some (record { updated_at = some updated; deleted_at = some deleted });
}

abbrev main : ExtendedVault
main =
    with_times ((codes "API", codes "old") ∷ (codes "TOKEN", codes "t") ∷ [])
      ((codes "API", 5) ∷ (codes "TOKEN", 4) ∷ []) []

abbrev shared : ExtendedVault
shared =
    with_times ((codes "API", codes "new") ∷ []) ((codes "API", 8) ∷ []) ((codes "TOKEN", 9) ∷ [])

import_shared_vault-merged_example :
    lookup (codes "TOKEN") (entries (import_shared_vault main shared 10).0.contents) ≡ (
      if taken_away
        (merged_time 10 main shared (codes "TOKEN"))
        (lookup (codes "TOKEN") (sync_deleted shared))
      then none
      else merged_value main shared (codes "TOKEN"))
unfolding lookup bytes_eq
import_shared_vault-merged_example =
    import_shared_vault-merged main shared 10 (codes "TOKEN") (refl, tt) (refl, tt)

abbrev behind : ExtendedVault
behind =
    with_times ((codes "API", codes "old") ∷ []) ((codes "API", 3) ∷ []) ((codes "TOKEN", 2) ∷ [])

import_shared_vault-unchanged_example :
    lookup (codes "API") (entries (import_shared_vault main behind 10).0.contents)
    ≡ lookup (codes "API") (entries main.contents)
unfolding lookup bytes_eq has_changes preview_shared_vault preview_value preview_values
    preview_deletion preview_deletions should_import_shared_value updated_at preview_deletes
    sort_strings
import_shared_vault-unchanged_example =
    import_shared_vault-unchanged main behind 10 (codes "API") (refl, tt) (refl, tt) refl
