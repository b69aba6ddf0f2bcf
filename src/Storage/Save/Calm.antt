-- ===== src/Storage/Save/Calm.antt =====
-- A save that nothing disturbs.
use myminivault.Prelude.{
  Bool, true, false, ◌⊎◌, inl, inr, sym, ◌∙◌, ◌≡◌, ◌≢◌, refl, Bytes, Option, none, some, List, [],
  arith, ok,
}
use myminivault.Container.{Metadata, wrap, kind_main_vault}
use myminivault.Files
use myminivault.Files.{
  calm, Name, Node, Files, World, Exit, primary, backup, temp, transaction, file, symlink,
  directory, update, lstat_exit, allow_missing_exit, stat_exit, name_eq, call, reject_symlink,
  reject_symlink_or_missing, create_exclusive, write, sync_file, close_file, sync_parent_dir,
  stat_exists, rename, is_refused, chmod, remove, pure, on_error, ◌>>=◌, ◌>>◌,
}
use myminivault.Storage.Save.{
  write_create_exclusive, keep_backup, wrapped_or_fail, install_over, install, replace_primary,
  save_wrapped, save_file_atomic,
}

-- A file, or nothing.
abbrev pub IsVault : Option Node → Type 0
IsVault entry = (entry ≡ none) ⊎ ((content : Bytes) × (entry ≡ some (file content)))

-- No file is left from an interrupted save, and the backup is a file or missing.
pub record IsClean (fs : Files) : Type 0 where
  pub no_temp : fs temp ≡ none
  pub no_transaction : fs transaction ≡ none
  pub backup_file : IsVault (fs backup)

none_not_some : {x : Node} → none ≢ some x
none_not_some h = ground arith

file_not_symlink : {b : Bytes} → some (file b) ≢ some symlink
file_not_symlink h = ground arith

not_symlink : {entry : Option Node} → IsVault entry → entry ≢ some symlink
not_symlink (inl p) e = none_not_some (sym p ∙ e)
not_symlink (inr (b, p)) e = file_not_symlink (sym p ∙ e)

-- A rename of a file onto a file or nothing is not refused.
not_refused : (b : Bytes) {entry : Option Node} → IsVault entry → is_refused (file b) entry ≡ false
not_refused b (inl p) = rw p refl
not_refused b (inr (b', p)) = rw p refl

allowed :
    (entry : Option Node)
    → entry ≢ some symlink
    → allow_missing_exit (lstat_exit entry) ≡ Files.ok tt
allowed none h = refl
allowed (some symlink) h = absurd (h refl)
allowed (some directory) h = refl
allowed (some (file b)) h = refl

reject-calm :
    (n : Name) (fs : Files)
    → fs n ≢ some symlink
    → reject_symlink_or_missing n (calm fs) ≡ (Files.ok tt, calm fs)
unfolding reject_symlink_or_missing reject_symlink call
reject-calm n fs h = rw (allowed (fs n) h) refl

create-calm :
    (n : Name) (fs : Files)
    → fs n ≡ none
    → create_exclusive n (calm fs) ≡ (Files.ok tt, calm (update fs n (some (file []))))
unfolding create_exclusive call ◌>>◌
create-calm n fs h = rw (reject-calm n fs (λ e. none_not_some (sym h ∙ e))) (rw h refl)

-- The files after a new file is written.
abbrev with_file : Name → Bytes → Files → Files
with_file n data' fs = update (update fs n (some (file []))) n (some (file data'))

marker-calm :
    (n : Name) (data' : Bytes) (fs : Files)
    → fs n ≡ none
    → write_create_exclusive n data' (calm fs) ≡ (Files.ok tt, calm (with_file n data' fs))
unfolding write_create_exclusive write close_file on_error call ◌>>◌
marker-calm n data' fs h = rw (create-calm n fs h) refl

stat-calm :
    (fs : Files) {had : Bool}
    → stat_exit (fs primary) ≡ Files.ok had
    → stat_exists primary (calm fs) ≡ (Files.ok had, calm fs)
unfolding stat_exists call
stat-calm fs h = rw h refl

abbrev moved : Name → Name → Node → Files → Files
moved from to entry fs = update (update fs from none) to (some entry)

rename-calm :
    (from to : Name) (fs : Files) {b : Bytes}
    → fs from ≡ some (file b)
    → IsVault (fs to)
    → rename from to (calm fs) ≡ (Files.ok tt, calm (moved from to (file b) fs))
unfolding rename call
rename-calm from to fs {b} h v = rw h (rw (not_refused b v) refl)

chmod-calm :
    (n : Name) (fs : Files) {entry : Node}
    → fs n ≡ some entry
    → chmod n (calm fs) ≡ (Files.ok tt, calm fs)
unfolding chmod call
chmod-calm n fs h = rw h refl

keep_backup-calm :
    (fs : Files) {b : Bytes}
    → fs primary ≡ some (file b)
    → IsVault (fs backup)
    → keep_backup true (calm fs) ≡ (Files.ok tt, calm (moved primary backup (file b) fs))
unfolding keep_backup on_error sync_parent_dir call name_eq ◌>>◌
keep_backup-calm fs {b} h v =
    rw (rename-calm primary backup fs h v)
      (rw (chmod-calm backup (moved primary backup (file b) fs) refl) refl)

install_over-calm :
    (had : Bool) (fs gs : Files) {b : Bytes}
    → keep_backup had (calm fs) ≡ (Files.ok tt, calm gs)
    → gs temp ≡ some (file b)
    → gs primary ≡ none
    → install_over had (calm fs) ≡ (Files.ok tt, calm (moved temp primary (file b) gs))
unfolding install_over on_error sync_parent_dir call name_eq ◌>>◌
install_over-calm had fs gs {b} h t q = rw h (
    rw (rename-calm temp primary gs t (inl q))
      (rw (chmod-calm primary (moved temp primary (file b) gs) refl) refl))

install-calm :
    (had : Bool) (fs gs : Files) {b : Bytes}
    → stat_exit (fs primary) ≡ Files.ok had
    → keep_backup had (calm fs) ≡ (Files.ok tt, calm gs)
    → gs temp ≡ some (file b)
    → gs primary ≡ none
    → install (calm fs) ≡ (Files.ok tt, calm (moved temp primary (file b) gs))
unfolding install on_error ◌>>=◌
install-calm had fs gs s h t q = rw (stat-calm fs s) (install_over-calm had fs gs h t q)

replace_primary-calm :
    (had : Bool) (fs gs : Files) (new : Bytes)
    → fs temp ≡ none
    → stat_exit (fs primary) ≡ Files.ok had
    → keep_backup had (calm (with_file temp new fs)) ≡ (Files.ok tt, calm gs)
    → gs temp ≡ some (file new)
    → gs primary ≡ none
    → replace_primary (ok new) (calm fs) ≡ (Files.ok tt, calm (moved temp primary (file new) gs))
unfolding replace_primary wrapped_or_fail write sync_file close_file pure on_error call name_eq
    ◌>>=◌ ◌>>◌
replace_primary-calm had fs gs new t s h u q =
    rw (create-calm temp fs t) (install-calm had (with_file temp new fs) gs s h u q)

module _ (fs : Files) (c : IsClean fs) (stamp new : Bytes) where
  abbrev marked : Files
  marked = with_file transaction stamp fs

  abbrev written : Files
  written = with_file temp new marked

  save_wrapped-calm :
      (had : Bool) (gs : Files)
      → fs primary ≢ some symlink
      → stat_exit (fs primary) ≡ Files.ok had
      → keep_backup had (calm written) ≡ (Files.ok tt, calm gs)
      → gs temp ≡ some (file new)
      → gs primary ≡ none
      → gs transaction ≡ some (file stamp)
      → save_wrapped stamp (ok new) (calm fs)
        ≡ (Files.ok tt, calm (update (moved temp primary (file new) gs) transaction none))
  unfolding save_wrapped on_error sync_parent_dir remove call name_eq ◌>>◌
  save_wrapped-calm had gs q s h u n v = rw (reject-calm primary fs q) (
      rw (reject-calm backup fs (not_symlink c.backup_file)) (
        rw (reject-calm temp fs (λ e. none_not_some (sym c.no_temp ∙ e))) (
          rw (reject-calm transaction fs (λ e. none_not_some (sym c.no_transaction ∙ e))) (
            rw (marker-calm transaction stamp fs c.no_transaction)
              (rw (replace_primary-calm had marked gs new c.no_temp s h u n) (rw v refl))))))

  -- By whether there is a vault.
  save_wrapped-IsInstalled :
      IsVault (fs primary)
      → let run = save_wrapped stamp (ok new) (calm fs) in
        (run.0 ≡ Files.ok tt) × (run.1.files primary ≡ some (file new))
  unfolding name_eq keep_backup pure
  save_wrapped-IsInstalled (inl p) =
      rw
        (save_wrapped-calm false written (λ e. none_not_some (sym p ∙ e)) (rw p refl) refl refl p
          refl)
        (refl, refl)
  save_wrapped-IsInstalled (inr (old, p)) =
      rw
        (save_wrapped-calm true (moved primary backup (file old) written)
          (λ e. file_not_symlink (sym p ∙ e)) (rw p refl) (keep_backup-calm written p c.backup_file)
          refl refl refl)
        (refl, refl)

-- A save in which every call is carried out, of a payload that Wrap takes, with or without a vault,
-- returns without an error and leaves the new vault in place, where the vault and the backup are files or missing and nothing is
-- left of an interrupted save.
pub save_file_atomic-done :
    (marshal : Metadata → Option Bytes) (stamp salt ciphertext : Bytes) (metadata : List Metadata)
    → (fs : Files) (new : Bytes) → IsClean fs
    → IsVault (fs primary)
    → wrap marshal kind_main_vault salt ciphertext metadata ≡ ok new
    → let run = save_file_atomic marshal stamp salt ciphertext metadata (calm fs) in
      (run.0 ≡ Files.ok tt) × (run.1.files primary ≡ some (file new))
unfolding save_file_atomic
save_file_atomic-done marshal stamp salt ciphertext metadata fs new c v e =
    rw e (save_wrapped-IsInstalled fs c stamp new v)
