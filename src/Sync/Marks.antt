-- ===== src/Sync/Marks.antt =====
-- What one step of `ImportSharedVault` in internal/sync/sync.go does to one key.
use myminivault.Prelude.{
  false, ◌≡◌, refl, Option, none, some, [], ◌∷◌, if◌then◌else◌, Bytes, bytes_eq, Dict, lookup,
  insert, erase, lookup-insert, lookup-erase, entries, is_some, arith, ◌&&◌,
}
use myminivault.Model.{ExtendedVault, Time}
use myminivault.Sync.{
  ImportResult, updated_at, mark_key_updated_at, mark_key_deleted_at, ensure_metadata, sync_updated,
  should_import_shared_value, import_value, import_deletion, deletes,
}

-- The update time after a key is marked updated, or deleted.
pub updated_at-mark_key_updated_at :
    (vault : ExtendedVault) (k j : Bytes) (t : Time)
    → updated_at (mark_key_updated_at vault k t) j
      ≡ (if bytes_eq k j then t else updated_at vault j)
unfolding updated_at mark_key_updated_at ensure_metadata
updated_at-mark_key_updated_at vault k j t =
    ground (arith, lookup-insert k j t (sync_updated vault))

pub updated_at-mark_key_deleted_at :
    (vault : ExtendedVault) (k j : Bytes) (t : Time)
    → updated_at (mark_key_deleted_at vault k t) j
      ≡ (if bytes_eq k j then 0 else updated_at vault j)
unfolding updated_at mark_key_deleted_at ensure_metadata
updated_at-mark_key_deleted_at vault k j t = ground (arith, lookup-erase k j (sync_updated vault))

-- What the merge reads of the main vault at one key.
pub record Agree (a b : ExtendedVault) (j : Bytes) : Type 0 where
  pub value : lookup j (entries a.contents) ≡ lookup j (entries b.contents)
  pub time : updated_at a j ≡ updated_at b j

pub should_import-Agree :
    (a b shared : ExtendedVault) (j : Bytes)
    → Agree a b j
    → should_import_shared_value a shared j ≡ should_import_shared_value b shared j
unfolding should_import_shared_value
should_import-Agree a b shared j h = ground (arith, h.value, h.time)

-- The keys of an association list, each once.
abbrev pub Distinct {ℓ} : {V : Type ℓ} → Dict V → Type 0
Distinct [] = Unit
Distinct ((k, v) ∷ m) = (is_some (lookup k m) ≡ false) × Distinct m

-- The time at a key after a value is stored under `k`.
updated_at-stored :
    (main : ExtendedVault) (contents : Option (Dict Bytes)) (j : Bytes)
    → updated_at (record main { contents = contents }) j ≡ updated_at main j
unfolding updated_at
updated_at-stored main contents j = refl

module _ (now : Time) (shared main : ExtendedVault) (r : ImportResult) (k j v : Bytes) where
  abbrev stored : ExtendedVault
  stored = record main { contents = some (insert k v (entries main.contents)) }

  pub contents-import_value :
      lookup j (entries (import_value now shared k v (main, r)).0.contents) ≡ (
        if should_import_shared_value main shared k && bytes_eq k j
        then some v
        else lookup j (entries main.contents))
  unfolding import_value mark_key_updated_at
  contents-import_value = ground (arith, lookup-insert k j v (entries main.contents))

  pub updated_at-import_value : updated_at (import_value now shared k v (main, r)).0 j ≡ (
      if should_import_shared_value main shared k && bytes_eq k j then now else updated_at main j)
  unfolding import_value
  updated_at-import_value = ground (
    arith,
    updated_at-mark_key_updated_at stored k j now,
    updated_at-stored main (some (insert k v (entries main.contents))) j,
  )

module _ (now : Time) (main : ExtendedVault) (r : ImportResult) (k j : Bytes) (t : Time) where
  abbrev erased : ExtendedVault
  erased = record main { contents = some (erase k (entries main.contents)) }

  pub contents-import_deletion :
      lookup j (entries (import_deletion now k t (main, r)).0.contents)
      ≡ (if deletes main k t && bytes_eq k j then none else lookup j (entries main.contents))
  unfolding import_deletion mark_key_deleted_at
  contents-import_deletion = ground (arith, lookup-erase k j (entries main.contents))

  pub updated_at-import_deletion :
      updated_at (import_deletion now k t (main, r)).0 j
      ≡ (if deletes main k t && bytes_eq k j then 0 else updated_at main j)
  unfolding import_deletion
  updated_at-import_deletion = ground (
    arith,
    updated_at-mark_key_deleted_at erased k j now,
    updated_at-stored main (some (erase k (entries main.contents))) j,
  )
