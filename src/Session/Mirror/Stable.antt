-- ===== src/Session/Mirror/Stable.antt =====
-- The mirror of the main vault brings nothing back into it, and takes the place of the tokens.
use myminivault.Prelude.{
  ap, ◌≡◌, refl, ◌∙◌, Bool, false, [], ◌∷◌, Option, none, some, arith, Bytes, bytes_eq,
  bytes_eq_iff, bytes_eq_refl, All, All-lookup, Dict, lookup, lookup-insert, insert, entries, ok,
  Bool-cases, Option-cases, inl, inr, or_else,
}
use myminivault.Model.{TokenManager, ExtendedVault, Time}
use myminivault.Sync.{copy_vault_data, sync_deleted, import_shared_vault}
use myminivault.Sync.Marks.{Distinct}
use myminivault.Sync.Merge.{is_new, import_shared_vault-merged}
use myminivault.Session.Mirror.{
  SharedFile, missing, stat_failed, unreadable, readable, mirrored, sync_main_vault_to_shared_vault,
}

lookup-copy_vault_data :
    (j : Bytes) (contents : Dict Bytes) → lookup j (copy_vault_data contents) ≡ lookup j contents
unfolding copy_vault_data lookup
lookup-copy_vault_data j [] = refl
lookup-copy_vault_data j ((k, v) ∷ contents) =
    lookup-insert k j v (copy_vault_data contents) ∙ rw (lookup-copy_vault_data j contents) refl

Distinct-insert : (k v : Bytes) (m : Dict Bytes) → Distinct m → Distinct (insert k v m)
unfolding insert lookup
Distinct-insert k v [] d = (refl, tt)
Distinct-insert k v ((j, w) ∷ m) d = elim (Bool-cases (bytes_eq j k)) [
  | inl e ↦ rw (e, ← (bytes_eq_iff j k).0 e) d
  | inr e ↦ rw e (
    ground (arith, lookup-insert k j v m, bytes_eq_iff j k, bytes_eq_iff k j, d.0),
    Distinct-insert k v m d.1,
  )
]

copy_vault_data-Distinct : (contents : Dict Bytes) → Distinct (copy_vault_data contents)
unfolding copy_vault_data
copy_vault_data-Distinct [] = tt
copy_vault_data-Distinct ((k, v) ∷ contents) =
    Distinct-insert k v (copy_vault_data contents) (copy_vault_data-Distinct contents)

-- A vault that has the same values brings none of them.
same_values :
    (main shared : ExtendedVault) (j : Bytes)
    → lookup j (entries shared.contents) ≡ lookup j (entries main.contents)
    → is_new main shared j ≡ false
same_values main shared j e =
    rw (e, bytes_eq_refl (or_else (lookup j (entries main.contents)) [])) refl

-- A deletion is recorded only of a key that is not there.
abbrev pub IsSettled : ExtendedVault → Type 0
IsSettled vault = All (λ e. lookup e.0 (entries vault.contents) ≡ none) (sync_deleted vault)

merged-mirrored :
    (main : ExtendedVault) (existing : Option TokenManager) (now : Time) (j : Bytes)
    → Distinct (sync_deleted main)
    → IsSettled main
    → lookup j (entries (import_shared_vault main (mirrored main existing) now).0.contents)
      ≡ lookup j (entries main.contents)
unfolding mirrored
merged-mirrored main existing now j d settled =
    let shared = mirrored main existing in
    let same = lookup-copy_vault_data j (entries main.contents) in
    let merged =
      import_shared_vault-merged main shared now j
        (copy_vault_data-Distinct (entries main.contents)) d in
    let calm = same_values main shared j same in
    elim (Option-cases (lookup j (sync_deleted main))) [
      | inl n ↦ merged ∙ rw (n, calm) (ground arith)
      | inr (at, e) ↦
          let absent = All-lookup _ j at (sync_deleted main) settled e in
          merged ∙ rw (e, calm, absent) (ground arith)
    ]

-- The mirror that is saved, by the file before.
saved_mirror :
    (save_ok : Bool) (main shared : ExtendedVault) (file : SharedFile)
    → sync_main_vault_to_shared_vault save_ok main file ≡ ok (readable shared)
    → (existing : Option TokenManager) × (shared ≡ mirrored main existing)
unfolding sync_main_vault_to_shared_vault
saved_mirror save_ok main shared missing h = (none, ground arith)
saved_mirror save_ok main shared stat_failed h = ground arith
saved_mirror save_ok main shared (unreadable e) h = ground arith
saved_mirror save_ok main shared (readable existing) h = (existing.token_manager, ground arith)

-- The vault that a mirror saves has the values of the main vault, and the next import of it changes no
-- value of the main vault, where no key is recorded twice as deleted and none that is there.
pub sync_main_vault_to_shared_vault-stable :
    (save_ok : Bool) (main shared : ExtendedVault) (file : SharedFile) (now : Time) (j : Bytes)
    → Distinct (sync_deleted main)
    → IsSettled main
    → sync_main_vault_to_shared_vault save_ok main file ≡ ok (readable shared)
    → (lookup j (entries shared.contents) ≡ lookup j (entries main.contents))
      × (lookup j (entries (import_shared_vault main shared now).0.contents)
          ≡ lookup j (entries main.contents))
unfolding mirrored
sync_main_vault_to_shared_vault-stable save_ok main shared file now j d settled h =
    let (existing, e) = saved_mirror save_ok main shared file h in
    (
      ap (λ v. lookup j (entries v.contents)) e ∙ lookup-copy_vault_data j (entries main.contents),
      ap (λ v. lookup j (entries (import_shared_vault main v now).0.contents)) e
          ∙ merged-mirrored main existing now j d settled,
    )

-- A mirror of a main vault with tokens puts these in the place of the shared ones, uses counted there
-- included.
pub sync_main_vault_to_shared_vault-tokens :
    (save_ok : Bool) (main shared : ExtendedVault) (file : SharedFile) (manager : TokenManager)
    → main.token_manager ≡ some manager
    → sync_main_vault_to_shared_vault save_ok main file ≡ ok (readable shared)
    → shared.token_manager ≡ some manager
unfolding mirrored
sync_main_vault_to_shared_vault-tokens save_ok main shared file manager m h =
    let (existing, e) = saved_mirror save_ok main shared file h in
    ap (λ v. v.token_manager) e ∙ rw m refl

-- A mirror of a main vault with tokens saves a shared vault.
pub sync_main_vault_to_shared_vault-readable :
    (save_ok : Bool) (main : ExtendedVault) (file file' : SharedFile) (manager : TokenManager)
    → main.token_manager ≡ some manager
    → sync_main_vault_to_shared_vault save_ok main file ≡ ok file'
    → (shared : ExtendedVault) × (file' ≡ readable shared)
unfolding sync_main_vault_to_shared_vault
sync_main_vault_to_shared_vault-readable save_ok main missing file' manager m h =
    (mirrored main none, ground arith)
sync_main_vault_to_shared_vault-readable save_ok main stat_failed file' manager m h = ground arith
sync_main_vault_to_shared_vault-readable save_ok main (unreadable e) file' manager m h =
    ground arith
sync_main_vault_to_shared_vault-readable save_ok main (readable existing) file' manager m h =
    (mirrored main existing.token_manager, ground arith)
