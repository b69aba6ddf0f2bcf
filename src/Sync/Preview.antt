-- ===== src/Sync/Preview.antt =====
-- What the preview of a merge says of the merge.
use myminivault.Prelude.{
  inl, inr, Bool-cases, Bool, true, false, ◌≡◌, refl, sym, ◌∙◌, ap, Option, none, some, List, [],
  ◌∷◌, if◌then◌else◌, Bytes, bytes_eq, bytes_eq_iff, Dict, lookup, entries, is_empty, arith, ◌&&◌,
  ◌||◌,
}
use myminivault.Model.{ExtendedVault, Time}
use myminivault.Commands.Sorting.{has, has-sort_strings}
use myminivault.Sync.{
  PreviewResult, updated_at, sync_deleted, should_import_shared_value, preview_deletes,
  preview_value, preview_deletion, preview_values, preview_deletions, preview_shared_vault, no_keys,
  has_changes, add_if, import_shared_vault,
}
use myminivault.Sync.Marks.{Distinct}
use myminivault.Sync.Merge.{brings, should_import-is_new, taken_away, import_shared_vault-merged}

has-add_if :
    (b : Bool) (k j : Bytes) (ks : List Bytes)
    → has j (add_if b k ks) ≡ (has j ks || (b && bytes_eq k j))
has-add_if false k j ks = ground arith
has-add_if true k j [] = ground arith
has-add_if true k j (i ∷ ks) = ground (arith, has-add_if true k j ks)

has-is_empty : (j : Bytes) (ks : List Bytes) → is_empty ks ≡ true → has j ks ≡ false
has-is_empty j [] h = refl
has-is_empty j (k ∷ ks) h = ground arith

module _ (main shared : ExtendedVault) (j : Bytes) where
  ap_should :
      (k : Bytes)
      → bytes_eq k j ≡ true
      → should_import_shared_value main shared k ≡ should_import_shared_value main shared j
  ap_should k e = ap (λ x. should_import_shared_value main shared x) ((bytes_eq_iff k j).0 e)

  import_keys-preview_values :
      (l : Dict Bytes) (r : PreviewResult)
      → has j (preview_values main shared l r).import_keys
        ≡ (has j r.import_keys || brings main shared l j)
  unfolding preview_value preview_values lookup
  import_keys-preview_values [] r = ground arith
  import_keys-preview_values ((k, v) ∷ l) r = ground (
    arith,
    import_keys-preview_values l (preview_value main shared k v r),
    has-add_if (should_import_shared_value main shared k) k j r.import_keys,
    bytes_eq_iff k j,
    ap_should k,
    should_import-is_new main shared j,
  )

  delete_keys-preview_values :
      (l : Dict Bytes) (r : PreviewResult)
      → (preview_values main shared l r).delete_keys ≡ r.delete_keys
  unfolding preview_value preview_values
  delete_keys-preview_values [] r = refl
  delete_keys-preview_values ((k, v) ∷ l) r =
      delete_keys-preview_values l (preview_value main shared k v r)

  import_keys-preview_deletions :
      (l : Dict Time) (r : PreviewResult) → (preview_deletions main l r).import_keys ≡ r.import_keys
  unfolding preview_deletion preview_deletions
  import_keys-preview_deletions [] r = refl
  import_keys-preview_deletions ((k, t) ∷ l) r =
      import_keys-preview_deletions l (preview_deletion main k t r)

  abbrev deleted_at_key : Option Time → Bool
  deleted_at_key none = false
  deleted_at_key (some t) = preview_deletes main j t

  delete_keys-preview_deletions :
      (l : Dict Time) (r : PreviewResult)
      → Distinct l
      → has j (preview_deletions main l r).delete_keys
        ≡ (has j r.delete_keys || deleted_at_key (lookup j l))
  unfolding preview_deletion preview_deletions lookup
  delete_keys-preview_deletions [] r d = ground arith
  delete_keys-preview_deletions ((k, t) ∷ l) r d =
      let rest = delete_keys-preview_deletions l (preview_deletion main k t r) d.1 in
      let added = has-add_if (preview_deletes main k t) k j r.delete_keys in
      elim (Bool-cases (bytes_eq k j)) [
        | inl e ↦
            let same = (bytes_eq_iff k j).0 e in
            let once = ap (λ x. lookup x l) same in
            let decided = ap (λ x. preview_deletes main x t) same in
            ground (arith, e, rest, added, d.0, once, decided)
        | inr e ↦ ground (arith, e, rest, added)
      ]

  import_keys-preview_shared_vault :
      has j (preview_shared_vault main shared).import_keys
      ≡ brings main shared (entries shared.contents) j
  unfolding preview_shared_vault
  import_keys-preview_shared_vault =
      let found = preview_values main shared (entries shared.contents) no_keys in
      has-sort_strings j (preview_deletions main (sync_deleted shared) found).import_keys
      ∙ ap (has j) (import_keys-preview_deletions (sync_deleted shared) found)
      ∙ import_keys-preview_values (entries shared.contents) no_keys

  delete_keys-preview_shared_vault :
      Distinct (sync_deleted shared)
      → has j (preview_shared_vault main shared).delete_keys
        ≡ deleted_at_key (lookup j (sync_deleted shared))
  unfolding preview_shared_vault
  delete_keys-preview_shared_vault d =
      let found = preview_values main shared (entries shared.contents) no_keys in
      has-sort_strings j (preview_deletions main (sync_deleted shared) found).delete_keys
      ∙ delete_keys-preview_deletions (sync_deleted shared) found d
      ∙ ap (λ ks. has j ks || deleted_at_key (lookup j (sync_deleted shared)))
          (delete_keys-preview_values (entries shared.contents) no_keys)

  -- A deletion that the preview does not list leaves the value.
  kept :
      (mark : Option Time)
      → deleted_at_key mark ≡ false
      → (if taken_away (updated_at main j) mark then none else lookup j (entries main.contents))
        ≡ lookup j (entries main.contents)
  unfolding preview_deletes
  kept none h = refl
  kept (some t) h = ground (arith, h)

-- Where the preview of an import reports no changes, the import leaves every key with its value. No
-- map has a key twice.
pub import_shared_vault-unchanged :
    (main shared : ExtendedVault) (now : Time) (j : Bytes)
    → Distinct (entries shared.contents)
    → Distinct (sync_deleted shared)
    → has_changes (preview_shared_vault main shared) ≡ false
    → lookup j (entries (import_shared_vault main shared now).0.contents)
      ≡ lookup j (entries main.contents)
unfolding has_changes
import_shared_vault-unchanged main shared now j d e h =
    let preview = preview_shared_vault main shared in
    let not_brought : brings main shared (entries shared.contents) j ≡ false =
      sym (import_keys-preview_shared_vault main shared j)
      ∙ has-is_empty j preview.import_keys (ground (arith, h)) in
    let not_deleted : deleted_at_key main shared j (lookup j (sync_deleted shared)) ≡ false =
      sym (delete_keys-preview_shared_vault main shared j e)
      ∙ has-is_empty j preview.delete_keys (ground (arith, h)) in
    import_shared_vault-merged main shared now j d e
    ∙ rw not_brought (kept main shared j (lookup j (sync_deleted shared)) not_deleted)
