-- ===== src/Backup/Created.antt =====
-- A backup of the vault file: what it leaves, and that it succeeds.
use myminivault.Prelude.{
  ℕ, ◌-◌, ◌≤◌, ◌≡◌, refl, sym, ap, ◌∙◌, ◌⊎◌, Bool, true, false, ◌&&◌, List, [], ◌∷◌, ◌++◌, none,
  some, Option-cases, arith, if◌then◌else◌, Bytes, codes, bytes_eq, bytes_eq_refl, bytes_eq_iff,
  cut_prefix, cut-prefix_append, length, take, drop, take-append-drop, Dict, lookup, insert, erase,
  lookup-insert, lookup-erase, ok, Bool-cases, inl, inr, is_some,
}
use mathlib.Core.List.{append_assoc}
use myminivault.Commands.Export.{keys}
use myminivault.Commands.Sorting.{has, has-keys, has-sort_strings}
use myminivault.Backup.{
  Calls, Directory, has_suffix, is_backup, keep, write_file_exclusive, copy_file, remove_files,
  sorted_backups, prune_timestamped_backups, backup_name, create_timestamped_backup,
}
use myminivault.Backup.Count.{count, count-append, count-has}
use myminivault.Backup.Pruning.{
  has-take, count-sorted, removed, prune_removes, lookup-remove_files, prune-IsBounded,
}

has_suffix-append : (s suffix : Bytes) → has_suffix suffix (s ++ suffix) ≡ true
unfolding has_suffix
has_suffix-append [] [] = bytes_eq_refl []
has_suffix-append [] (c ∷ suffix) = ground (arith, bytes_eq_refl (c ∷ suffix))
has_suffix-append (c ∷ s) suffix = ground (arith, has_suffix-append s suffix)

pub name-IsBackup :
    (vault_file stamp : Bytes) → is_backup vault_file (backup_name vault_file stamp) ≡ true
unfolding is_backup backup_name
name-IsBackup vault_file stamp =
    let rest = stamp ++ codes ".bak" in
    let found : cut_prefix (vault_file ++ (codes "." ++ rest)) (vault_file ++ codes ".")
        ≡ some rest =
      ap (λ t. cut_prefix t (vault_file ++ codes "."))
        (sym (append_assoc vault_file (codes ".") rest))
      ∙ cut-prefix_append (vault_file ++ codes ".") rest in
    ground (arith, found, has_suffix-append stamp (codes ".bak"))

pub has-keep_of :
    (q : Bytes → Bool) (j : Bytes) (ks : List Bytes)
    → q j ≡ true
    → has j ks ≡ true
    → has j (keep q ks) ≡ true
unfolding keep
has-keep_of q j [] e h = ground arith
has-keep_of q j (k ∷ ks) e h = ground (arith, has-keep_of q j ks, bytes_eq_iff k j)

-- A backup that succeeds, taken apart: the copy and the pruning.
pub created_parts :
    (calls : Calls) (max_backups : ℕ) (vault_file stamp : Bytes) (files files' : Directory)
    → create_timestamped_backup calls max_backups vault_file stamp files ≡ ok files'
    → (data' : Bytes) × (lookup vault_file files ≡ some data')
      × (lookup (backup_name vault_file stamp) files ≡ none)
      × (prune_timestamped_backups calls max_backups vault_file
            (insert (backup_name vault_file stamp) data' files)
          ≡ ok files')
unfolding create_timestamped_backup copy_file write_file_exclusive
created_parts calls max_backups vault_file stamp files files' h =
    elim (Option-cases (lookup vault_file files)) [
      | inl n ↦ ground arith
      | inr (data', e) ↦ (data', e, ground arith, ground arith)
    ]

-- After a backup that succeeds at most `max_backups` backups are left. Every file that is no backup of
-- this vault is as it was, and each backup that is left has its content, the new one that of the
-- vault.
pub create_timestamped_backup-IsBounded :
    (calls : Calls) (max_backups : ℕ) (vault_file stamp : Bytes) (files files' : Directory)
    → create_timestamped_backup calls max_backups vault_file stamp files ≡ ok files'
    → (data' : Bytes) × (lookup vault_file files ≡ some data')
      × (count (is_backup vault_file) (keys files') ≤ max_backups)
      × ((j : Bytes) → is_backup vault_file j ≡ false → lookup j files' ≡ lookup j files)
      × ((j : Bytes)
          → (lookup j files' ≡ none)
            ⊎ (lookup j files' ≡ (
                if bytes_eq (backup_name vault_file stamp) j then some data' else lookup j files)))
create_timestamped_backup-IsBounded calls max_backups vault_file stamp files files' h =
    let (data', at_vault, _, pruned) =
      created_parts calls max_backups vault_file stamp files files' h in
    let name = backup_name vault_file stamp in
    let copied = insert name data' files in
    let (few, others) = prune-IsBounded calls max_backups vault_file copied files' pruned in
    let names = removed max_backups (sorted_backups vault_file copied) in
    (
      data',
      at_vault,
      few,
      λ j e. ground (
        arith,
        others j,
        lookup-insert name j data' files,
        bytes_eq_iff name j,
        name-IsBackup vault_file stamp,
      ),
      λ j. elim (Bool-cases (has j names)) [
        | inl e ↦ inl (
            lookup-remove_files calls j names copied files'
              (prune_removes calls max_backups vault_file copied files' pruned)
            ∙ rw e)
        | inr e ↦ inr (
            lookup-remove_files calls j names copied files'
              (prune_removes calls max_backups vault_file copied files' pruned)
            ∙ rw e (lookup-insert name j data' files))
      ],
    )

-- No name stands twice in the list.
abbrev pub AreDistinct : List Bytes → Type 0
AreDistinct ks = (k : Bytes) → count (λ j. bytes_eq j k) ks ≤ 1

remove_files-done :
    (calls : Calls) (names : List Bytes) (files : Directory)
    → ((k : Bytes) → calls.can_remove k ≡ true)
    → AreDistinct names
    → ((k : Bytes) → has k names ≡ true → is_some (lookup k files) ≡ true)
    → (files' : Directory) × (remove_files calls names files ≡ ok files')
unfolding remove_files
remove_files-done calls [] files can distinct there = (files, refl)
remove_files-done calls (name ∷ names) files can distinct there =
    let rest : (files' : Directory) × (remove_files calls names (erase name files) ≡ ok files') =
      remove_files-done calls names (erase name files) can (λ k. ground (arith, distinct k))
        (λ k e.
          ground (arith, there k, lookup-erase name k files, distinct k, count-has k names)) in
    (rest.0, ground (arith, can name, there name, bytes_eq_refl name, rest.1))

count-and : (p q : Bytes → Bool) (ks : List Bytes) → count (λ k. q k && p k) ks ≤ count p ks
count-and p q [] = omega arith
count-and p q (k ∷ ks) = ground (arith, count-and p q ks)

count-insert_new {ℓ} :
    {V : Type ℓ} (p : Bytes → Bool) (k : Bytes) (v : V) (m : Dict V)
    → lookup k m ≡ none
    → count p (keys (insert k v m)) ≡ count p (k ∷ keys m)
unfolding insert keys lookup
count-insert_new p k v [] h = refl
count-insert_new p k v ((j, w) ∷ m) h = ground (arith, count-insert_new p k v m)

count-absent {ℓ} :
    {V : Type ℓ} (k : Bytes) (m : Dict V)
    → lookup k m ≡ none
    → count (λ j. bytes_eq j k) (keys m) ≡ 0
unfolding keys lookup
count-absent k [] h = refl
count-absent k ((j, w) ∷ m) h = ground (arith, count-absent k m)

count-removed :
    (p : Bytes → Bool) (max : ℕ) (backups : List Bytes)
    → count p (removed max backups) ≤ count p backups
count-removed p max backups =
    let n = length backups - max in
    ground (
      arith,
      ap (count p) (take-append-drop n backups),
      count-append p (take n backups) (drop n backups),
    )

has-removed :
    (k : Bytes) (max : ℕ) (backups : List Bytes)
    → has k (removed max backups) ≡ true
    → has k backups ≡ true
has-removed k max backups h = ground (arith, has-take k (length backups - max) backups)

has-keep-has :
    (q : Bytes → Bool) (j : Bytes) (ks : List Bytes) → has j (keep q ks) ≡ true → has j ks ≡ true
unfolding keep
has-keep-has q j [] h = ground arith
has-keep-has q j (k ∷ ks) h = ground (arith, has-keep-has q j ks)

sorted_there :
    (vault_file : Bytes) (files : Directory) (k : Bytes)
    → has k (sorted_backups vault_file files) ≡ true
    → is_some (lookup k files) ≡ true
unfolding sorted_backups
sorted_there vault_file files k h = ground (
  arith,
  has-sort_strings k (keep (is_backup vault_file) (keys files)),
  has-keep-has (is_backup vault_file) k (keys files),
  has-keys k files,
)

prune_of :
    (calls : Calls) (max_backups : ℕ) (vault_file : Bytes) (files files' : Directory)
    → remove_files calls (removed max_backups (sorted_backups vault_file files)) files ≡ ok files'
    → prune_timestamped_backups calls max_backups vault_file files ≡ ok files'
unfolding prune_timestamped_backups remove_files
prune_of calls max_backups vault_file files files' h = ground arith

prune-done :
    (calls : Calls) (max_backups : ℕ) (vault_file : Bytes) (files : Directory)
    → ((k : Bytes) → calls.can_remove k ≡ true)
    → AreDistinct (keys files)
    → (files' : Directory) × (prune_timestamped_backups calls max_backups vault_file files
        ≡ ok files')
prune-done calls max_backups vault_file files can distinct =
    let backups = sorted_backups vault_file files in
    let names = removed max_backups backups in
    let (files', done) =
      remove_files-done calls names files can
        (λ k. omega (
          arith,
          distinct k,
          count-removed (λ j. bytes_eq j k) max_backups backups,
          count-sorted (λ j. bytes_eq j k) vault_file files,
          count-and (λ j. bytes_eq j k) (is_backup vault_file) (keys files),
        ))
        (λ k e. sorted_there vault_file files k (has-removed k max_backups backups e)) in
    (files', prune_of calls max_backups vault_file files files' done)

-- A backup succeeds where the vault is there and can be read, no file has the name of the backup and one
-- can be written there, every file can be removed, and no name stands twice in the directory.
pub create_timestamped_backup-done :
    (calls : Calls) (max_backups : ℕ) (vault_file stamp data' : Bytes) (files : Directory)
    → calls.can_read vault_file ≡ true
    → calls.can_write (backup_name vault_file stamp) ≡ true
    → ((k : Bytes) → calls.can_remove k ≡ true)
    → AreDistinct (keys files)
    → lookup vault_file files ≡ some data'
    → lookup (backup_name vault_file stamp) files ≡ none
    → (files' : Directory) × (create_timestamped_backup calls max_backups vault_file stamp files
        ≡ ok files')
unfolding create_timestamped_backup copy_file write_file_exclusive
create_timestamped_backup-done calls max_backups vault_file stamp data' files can_read can_write can
      distinct there free =
    let name = backup_name vault_file stamp in
    let (files', done) = prune-done calls max_backups vault_file (insert name data' files) can (λ k.
      ground (
        arith,
        distinct k,
        count-insert_new (λ j. bytes_eq j k) name data' files,
        count-absent name files,
        bytes_eq_iff name k,
      )) in
    (files', ground arith)
