-- ===== src/Backup/Pruning.antt =====
-- What a pruning of the backups leaves: at most `max_backups` of them, and all that is no backup.
use myminivault.Prelude.{
  ℕ, ◌-◌, ◌≤◌, ◌<◌, ◌≡◌, refl, sym, ap, ◌∙◌, Bool, true, false, ◌&&◌, ◌||◌, not, List, [], ◌∷◌,
  ◌++◌, none, arith, if◌then◌else◌, leb, Bytes, bytes_eq, bytes_eq_iff, length, take, drop,
  take-append-drop, length-drop, lookup, erase, lookup-erase, ok, Bool-cases, inl, inr,
}
use myminivault.Commands.Export.{keys}
use myminivault.Commands.Sorting.{has, has-sort_strings}
use myminivault.Backup.{
  Calls, Directory, is_backup, keep, remove_files, sorted_backups, prune_timestamped_backups,
}
use myminivault.Backup.Count.{
  count, count-append, count-le, count-sort_strings, count-keep, count-erase, count-not-has,
  count_ext, count_all, bytes_eq_comm,
}

remove_files_step :
    (calls : Calls) (name : Bytes) (names : List Bytes) (files files' : Directory)
    → remove_files calls (name ∷ names) files ≡ ok files'
    → remove_files calls names (erase name files) ≡ ok files'
unfolding remove_files
remove_files_step calls name names files files' h = ground arith

count-remove_files :
    (calls : Calls) (p : Bytes → Bool) (names : List Bytes) (files files' : Directory)
    → remove_files calls names files ≡ ok files'
    → count p (keys files') ≡ count (λ k. not (has k names) && p k) (keys files)
count-remove_files calls p [] files files' h = unfold remove_files in ground arith
count-remove_files calls p (name ∷ names) files files' h =
    count-remove_files calls p names (erase name files) files'
      (remove_files_step calls name names files files' h)
    ∙ count-erase (λ k. not (has k names) && p k) name files
    ∙ count_ext (λ k. not (bytes_eq k name) && (not (has k names) && p k))
        (λ k. not (has k (name ∷ names)) && p k) (λ k. ground (arith, bytes_eq_comm k name))
        (keys files)

pub lookup-remove_files :
    (calls : Calls) (j : Bytes) (names : List Bytes) (files files' : Directory)
    → remove_files calls names files ≡ ok files'
    → lookup j files' ≡ (if has j names then none else lookup j files)
lookup-remove_files calls j [] files files' h = unfold remove_files in ground arith
lookup-remove_files calls j (name ∷ names) files files' h = ground (
  arith,
  lookup-remove_files calls j names (erase name files) files'
      (remove_files_step calls name names files files' h),
  lookup-erase name j files,
)

pub has-keep :
    (q : Bytes → Bool) (j : Bytes) (ks : List Bytes) → has j (keep q ks) ≡ true → q j ≡ true
unfolding keep
has-keep q j [] h = ground arith
has-keep q j (k ∷ ks) h = ground (arith, has-keep q j ks, bytes_eq_iff k j)

pub has-append : (j : Bytes) (xs ys : List Bytes) → has j (xs ++ ys) ≡ (has j xs || has j ys)
has-append j [] ys = refl
has-append j (x ∷ xs) ys = ground (arith, has-append j xs ys)

pub has-take : (j : Bytes) (n : ℕ) (ks : List Bytes) → has j (take n ks) ≡ true → has j ks ≡ true
has-take j n ks h =
    let split : has j (take n ks ++ drop n ks) ≡ has j ks = ap (has j) (take-append-drop n ks) in
    ground (arith, split, has-append j (take n ks) (drop n ks))

-- Only backups are among the names that are sorted.
sorted-IsBackup :
    (vault_file j : Bytes) (files : Directory)
    → has j (sorted_backups vault_file files) ≡ true
    → is_backup vault_file j ≡ true
unfolding sorted_backups
sorted-IsBackup vault_file j files h =
    has-keep (is_backup vault_file) j (keys files)
      (sym (has-sort_strings j (keep (is_backup vault_file) (keys files))) ∙ h)

-- Sorting and filtering keep the count of the backups that pass a test.
pub count-sorted :
    (p : Bytes → Bool) (vault_file : Bytes) (files : Directory)
    → count p (sorted_backups vault_file files)
      ≡ count (λ k. is_backup vault_file k && p k) (keys files)
unfolding sorted_backups
count-sorted p vault_file files =
    count-sort_strings p (keep (is_backup vault_file) (keys files))
    ∙ count-keep p (is_backup vault_file) (keys files)

length-sorted :
    (vault_file : Bytes) (files : Directory)
    → length (sorted_backups vault_file files) ≡ count (is_backup vault_file) (keys files)
length-sorted vault_file files =
    sym (count_all (sorted_backups vault_file files))
    ∙ count-sorted (λ k. true) vault_file files
    ∙ count_ext (λ k. is_backup vault_file k && true) (is_backup vault_file) (λ k. ground arith)
        (keys files)

-- What a pruning removes: all but the last `max_backups` names in sorted order.
abbrev pub removed : ℕ → List Bytes → List Bytes
removed max_backups backups =
    if leb (length backups) max_backups then [] else take (length backups - max_backups) backups

pub prune_removes :
    (calls : Calls) (max_backups : ℕ) (vault_file : Bytes) (files files' : Directory)
    → prune_timestamped_backups calls max_backups vault_file files ≡ ok files'
    → remove_files calls (removed max_backups (sorted_backups vault_file files)) files ≡ ok files'
unfolding prune_timestamped_backups remove_files
prune_removes calls max_backups vault_file files files' h = ground arith

count-kept :
    (max_backups : ℕ) (backups : List Bytes)
    → count (λ k. not (has k (removed max_backups backups))) backups ≤ max_backups
count-kept max_backups backups = elim (Bool-cases (leb (length backups) max_backups)) [
  | inl few ↦ rw few (ground (arith, count-le (λ k. true) backups, count_all backups))
  | inr many ↦
      let n = length backups - max_backups in
      let p : Bytes → Bool = λ k. not (has k (take n backups)) in
      let split : count p (take n backups ++ drop n backups) ≡ count p backups =
        ap (count p) (take-append-drop n backups) in
      let longer : max_backups < length backups = ground arith in
      rw many (
        omega (
          arith,
          split,
          longer,
          count-append p (take n backups) (drop n backups),
          count-not-has (take n backups) (take n backups) (λ k e. e),
          count-le p (drop n backups),
          length-drop n backups,
        ))
]

-- A pruning that succeeds leaves every file that is no backup of this vault, and at most
-- `max_backups` backups.
pub prune-IsBounded :
    (calls : Calls) (max_backups : ℕ) (vault_file : Bytes) (files files' : Directory)
    → prune_timestamped_backups calls max_backups vault_file files ≡ ok files'
    → (count (is_backup vault_file) (keys files') ≤ max_backups)
      × ((j : Bytes) → is_backup vault_file j ≡ false → lookup j files' ≡ lookup j files)
prune-IsBounded calls max_backups vault_file files files' h =
    let backups = sorted_backups vault_file files in
    let names = removed max_backups backups in
    let done = prune_removes calls max_backups vault_file files files' h in
    (
      omega (
        arith,
        count-remove_files calls (is_backup vault_file) names files files' done,
        count_ext (λ k. not (has k names) && is_backup vault_file k)
            (λ k. is_backup vault_file k && not (has k names)) (λ k. ground arith) (keys files),
        count-sorted (λ k. not (has k names)) vault_file files,
        count-kept max_backups backups,
      ),
      λ j e. lookup-remove_files calls j names files files' done ∙ kept j e,
    )
  where
    removed-IsBackup :
        (j : Bytes)
        → has j (removed max_backups (sorted_backups vault_file files)) ≡ true
        → is_backup vault_file j ≡ true
    removed-IsBackup j e = sorted-IsBackup vault_file j files (
        ground (
          arith,
          has-take j (length (sorted_backups vault_file files) - max_backups)
              (sorted_backups vault_file files),
        ))

    kept :
        (j : Bytes)
        → is_backup vault_file j ≡ false
        → (if has j (removed max_backups (sorted_backups vault_file files))
            then none
            else lookup j files)
          ≡ lookup j files
    kept j e = ground (arith, removed-IsBackup j)
