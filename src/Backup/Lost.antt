-- ===== src/Backup/Lost.antt =====
-- A backup that is made beside `max_backups` copies of `restore` is pruned at once.
use myminivault.Prelude.{
  ℕ, ◌-◌, ◌≤◌, ◌<◌, ◌≡◌, ap, ◌∙◌, Bool, true, false, ◌&&◌, List, [], ◌∷◌, ◌++◌, none, some,
  Option-cases, arith, leb, Bytes, codes, bytes_eq_refl, bytes_eq_iff, cut_prefix, length, take,
  drop, take-append-drop, length-drop, Dict, lookup, insert, lookup-insert, ok, Bool-cases, inl,
  inr, is_some,
}
use mathlib.Core.List.{append_assoc}
use myminivault.Commands.Export.{bytes_le, keys}
use myminivault.Commands.Sorting.{has, has-sort_strings, has-keys}
use myminivault.Backup.{
  Calls, Directory, is_backup, keep, sorted_backups, backup_name, create_timestamped_backup,
}
use myminivault.Backup.Count.{count, count-append, count_ext}
use myminivault.Backup.Pruning.{
  has-append, count-sorted, removed, prune_removes, lookup-remove_files,
}
use myminivault.Backup.Created.{name-IsBackup, has-keep_of, created_parts}
use myminivault.Backup.Ordered.{
  bytes_le_total, bytes_le-append, IsSorted, sort_strings-IsSorted, front-below, count-lt,
  count-none,
}

-- A copy that `restore` made of the vault before.
unfoldable pub is_pre_restore : Bytes → Bytes → Bool
is_pre_restore vault_file name =
    is_backup vault_file name && is_some (cut_prefix name (vault_file ++ codes ".pre-restore-"))

cut_prefix-eq-some : (s p r : Bytes) → cut_prefix s p ≡ some r → s ≡ p ++ r
unfolding cut_prefix
cut_prefix-eq-some s [] r h = cc
cut_prefix-eq-some [] (p ∷ ps) r h = cc
cut_prefix-eq-some (c ∷ s) (p ∷ ps) r h = ground (arith, cut_prefix-eq-some s ps r)

-- Every such copy sorts above a backup whose stamp begins with a digit.
pre_restore_above :
    (vault_file name stamp : Bytes) (d : ℕ)
    → d < b'p'
    → is_pre_restore vault_file name ≡ true
    → bytes_le name (backup_name vault_file (d ∷ stamp)) ≡ false
unfolding is_pre_restore backup_name
pre_restore_above vault_file name stamp d low h =
    elim (Option-cases (cut_prefix name (vault_file ++ codes ".pre-restore-"))) [
      | inl n ↦ ground (arith, n)
      | inr (rest, e) ↦ rw (cut_prefix-eq-some name (vault_file ++ codes ".pre-restore-") rest e) (
          rw (append_assoc vault_file (codes ".pre-restore-") rest) (
            bytes_le-append vault_file (codes ".pre-restore-" ++ rest)
              (codes "." ++ ((d ∷ stamp) ++ codes ".bak"))
            ∙ (unfold bytes_le in ground arith)))
    ]

count-insert {ℓ} :
    {V : Type ℓ} (p : Bytes → Bool) (k : Bytes) (v : V) (m : Dict V)
    → count p (keys m) ≤ count p (keys (insert k v m))
unfolding insert keys
count-insert p k v [] = omega arith
count-insert p k v ((j, w) ∷ m) = ground (arith, count-insert p k v m, bytes_eq_iff j k)

-- Of names in order, one below `max` names that pass a test is removed.
removed_below :
    (p : Bytes → Bool) (max : ℕ) (k : Bytes) (backups : List Bytes)
    → IsSorted backups
    → has k backups ≡ true
    → p k ≡ false
    → ((j : Bytes) → bytes_le j k ≡ true → p j ≡ false)
    → max ≤ count p backups
    → has k (removed max backups) ≡ true
removed_below p max k backups s h n above enough =
    let longer : leb (length backups) max ≡ false = ground (arith, count-lt p k backups h n) in
    let more : max < length backups = ground (arith, count-lt p k backups h n) in
    let front = take (length backups - max) backups in
    let rest = drop (length backups - max) backups in
    let whole : front ++ rest ≡ backups = take-append-drop (length backups - max) backups in
    rw longer (elim (Bool-cases (has k front)) [
      | inl e ↦ e
      | inr e ↦ absurd (
          let in_rest : has k rest ≡ true =
            ground (arith, ap (has k) whole, has-append k front rest) in
          let below = front-below front rest k (rw whole s) in_rest in
          omega (
            arith,
            ap (count p) whole,
            count-append p front rest,
            count-none p (λ j. bytes_le j k) front above below,
            count-lt p k rest in_rest n,
            length-drop (length backups - max) backups,
            more,
          ))
    ])

bytes_le_refl : (x : Bytes) → bytes_le x x ≡ true
bytes_le_refl x = elim (Bool-cases (bytes_le x x)) [ inl e ↦ e | inr e ↦ bytes_le_total x x e ]

pre_twice :
    (vault_file k : Bytes)
    → (is_backup vault_file k && is_pre_restore vault_file k) ≡ is_pre_restore vault_file k
unfolding is_pre_restore
pre_twice vault_file k = ground arith

sorted : (vault_file : Bytes) (files : Directory) → IsSorted (sorted_backups vault_file files)
unfolding sorted_backups
sorted vault_file files = sort_strings-IsSorted (keep (is_backup vault_file) (keys files))

-- The new backup is among those that are sorted.
listed :
    (vault_file stamp data' : Bytes) (files : Directory)
    → let name = backup_name vault_file stamp in
      has name (sorted_backups vault_file (insert name data' files)) ≡ true
unfolding sorted_backups
listed vault_file stamp data' files =
    let name = backup_name vault_file stamp in
    let copied = insert name data' files in
    has-sort_strings name (keep (is_backup vault_file) (keys copied))
    ∙ has-keep_of (is_backup vault_file) name (keys copied) (name-IsBackup vault_file stamp) (
        ground
          (arith, has-keys name copied, lookup-insert name name data' files, bytes_eq_refl name))

-- A backup that is made while at least `max_backups` copies of `restore` are in the directory is
-- removed by the pruning that follows: the command succeeds, and its backup is not there. The time in
-- its name begins with a byte below `p`, as a digit is.
pub create_timestamped_backup-lost :
    (calls : Calls) (max_backups d : ℕ) (vault_file stamp : Bytes) (files files' : Directory)
    → d < b'p'
    → max_backups ≤ count (is_pre_restore vault_file) (keys files)
    → create_timestamped_backup calls max_backups vault_file (d ∷ stamp) files ≡ ok files'
    → lookup (backup_name vault_file (d ∷ stamp)) files' ≡ none
create_timestamped_backup-lost calls max_backups d vault_file stamp files files' low enough h =
    let (data', _, _, pruned) =
      created_parts calls max_backups vault_file (d ∷ stamp) files files' h in
    let name = backup_name vault_file (d ∷ stamp) in
    let copied = insert name data' files in
    let pre = is_pre_restore vault_file in
    let backups = sorted_backups vault_file copied in
    let above : (j : Bytes) → bytes_le j name ≡ true → pre j ≡ false =
      λ j e. ground (arith, pre_restore_above vault_file j stamp d low) in
    let gone : has name (removed max_backups backups) ≡ true =
      removed_below pre max_backups name backups (sorted vault_file copied)
        (listed vault_file (d ∷ stamp) data' files) (above name (bytes_le_refl name)) above
        (omega (
          arith,
          enough,
          count-insert pre name data' files,
          count-sorted pre vault_file copied,
          count_ext (λ k. is_backup vault_file k && pre k) pre (λ k. pre_twice vault_file k)
              (keys copied),
        )) in
    lookup-remove_files calls name (removed max_backups backups) copied files'
      (prune_removes calls max_backups vault_file copied files' pruned)
    ∙ rw gone
