-- ===== src/Files/Calls.antt =====
-- The rules for the single calls: those that leave every file as it is, and those that change one
-- name.
use myminivault.Prelude.{[], Bool, true, false, ℕ, ◌≡◌, Option, none, some, Bytes, take, refl}
use myminivault.Files.{
  name_eq, primary, backup, temp, transaction, recovery, recovery_temp, state, state_temp,
  restore_temp, pre_restore, symlink, directory, not_exist, exists, is_symlink, io, bad_container,
  lstat_exit, allow_missing_exit, create_exit, exists_exit, Name, Node, file, Files, update,
  rename_exit, rename_unless, is_refused, Exit, ok, err, crashed, unchanged, reject_symlink,
  reject_symlink_or_missing, create_exclusive, write, sync_file, close_file, sync_parent_dir, chmod,
  remove, rename,
}
use myminivault.Files.Hoare.{Post, Runs, Runs-call, Runs-then}

pub update_same : (n : Name) (fs : Files) (entry : Option Node) → update fs n entry n ≡ entry
unfolding name_eq
update_same primary fs entry = refl
update_same backup fs entry = refl
update_same temp fs entry = refl
update_same transaction fs entry = refl
update_same recovery fs entry = refl
update_same recovery_temp fs entry = refl
update_same state fs entry = refl
update_same state_temp fs entry = refl
update_same restore_temp fs entry = refl
update_same pre_restore fs entry = refl

-- The calls that leave every name and content as it is.
module _ (C P : Files → Type 0) (safe : (fs : Files) → P fs → C fs) where
  keeps : (n : ℕ) (fs : Files) → P fs → P fs × C fs
  keeps n fs p = (p, safe fs p)

  pub Runs-sync_file : Runs C P sync_file (λ _. P) P
  unfolding sync_file
  Runs-sync_file = Runs-call C (λ fs. (ok tt, fs)) unchanged (λ fs p. p) keeps

  pub Runs-close_file : Runs C P close_file (λ _. P) P
  unfolding close_file
  Runs-close_file = Runs-call C (λ fs. (ok tt, fs)) unchanged (λ fs p. p) keeps

  pub Runs-sync_parent_dir : Runs C P sync_parent_dir (λ _. P) P
  unfolding sync_parent_dir
  Runs-sync_parent_dir = Runs-call C (λ fs. (ok tt, fs)) unchanged (λ fs p. p) keeps

  pub Runs-chmod : (n : Name) → Runs C P (chmod n) (λ _. P) P
  unfolding chmod
  Runs-chmod n =
      Runs-call C (λ fs. (exists_exit (fs n), fs)) unchanged (λ fs p. by_node (fs n) fs p) keeps
    where
      by_node : (entry : Option Node) (fs : Files) → P fs → Post (λ _. P) P C (exists_exit entry) fs
      by_node none fs p = p
      by_node (some x) fs p = p

  pub Runs-reject_symlink : (n : Name) → Runs C P (reject_symlink n) (λ _. P) P
  unfolding reject_symlink
  Runs-reject_symlink n =
      Runs-call C (λ fs. (lstat_exit (fs n), fs)) unchanged (λ fs p. by_node (fs n) fs p) keeps
    where
      by_node : (entry : Option Node) (fs : Files) → P fs → Post (λ _. P) P C (lstat_exit entry) fs
      by_node none fs p = p
      by_node (some symlink) fs p = p
      by_node (some directory) fs p = p
      by_node (some (file b)) fs p = p

  allow_missing :
      (r : Exit (Unit {0})) (fs : Files)
      → Post (λ _. P) P C r fs
      → Post (λ _. P) P C (allow_missing_exit r) fs
  allow_missing (ok a) fs p = p
  allow_missing crashed fs p = p
  allow_missing (err not_exist) fs p = p
  allow_missing (err exists) fs p = p
  allow_missing (err is_symlink) fs p = p
  allow_missing (err io) fs p = p
  allow_missing (err bad_container) fs p = p

  pub Runs-reject_symlink_or_missing :
      (n : Name) → Runs C P (reject_symlink_or_missing n) (λ _. P) P
  unfolding reject_symlink_or_missing
  Runs-reject_symlink_or_missing n = record {
    at = λ w p.
        allow_missing (reject_symlink n w).0 (reject_symlink n w).1.files
          ((Runs-reject_symlink n).at w p);
  }

  -- The calls on one name, where `P` does not speak of that name.
  module _ (n : Name)
      (stable : (fs : Files) (entry : Option Node) → P fs → P (update fs n entry)) where
    changes :
        (entry : Option Node) (fs : Files) → P fs → P (update fs n entry) × C (update fs n entry)
    changes entry fs p = (stable fs entry p, safe (update fs n entry) (stable fs entry p))

    pub Runs-create_exclusive : Runs C P (create_exclusive n) (λ _. P) P
    unfolding create_exclusive
    Runs-create_exclusive =
        Runs-then C (Runs-reject_symlink_or_missing n) (
          Runs-call C (λ fs. create_exit (fs n) n fs) unchanged (λ fs p. by_node (fs n) fs p) keeps)
      where
        by_node :
            (entry : Option Node) (fs : Files)
            → P fs
            → Post (λ _. P) P C (create_exit entry n fs).0 (create_exit entry n fs).1
        by_node none fs p = stable fs (some (file [])) p
        by_node (some x) fs p = p

    pub Runs-write :
        (data' : Bytes) → Runs C P (write n data') (λ _ fs. P fs × (fs n ≡ some (file data'))) P
    unfolding write
    Runs-write data' =
        Runs-call C (λ fs. (ok tt, update fs n (some (file data'))))
          (λ k fs. update fs n (some (file (take k data'))))
          (λ fs p. (stable fs (some (file data')) p, update_same n fs (some (file data'))))
          (λ k fs p. changes (some (file (take k data'))) fs p)

    pub Runs-remove : Runs C P (remove n) (λ _ fs. P fs × (fs n ≡ none)) P
    unfolding remove
    Runs-remove =
        Runs-call C (λ fs. (exists_exit (fs n), update fs n none)) unchanged
          (λ fs p. by_node (fs n) fs p) keeps
      where
        by_node :
            (entry : Option Node) (fs : Files)
            → P fs
            → Post (λ _ f. P f × (f n ≡ none)) P C (exists_exit entry) (update fs n none)
        by_node none fs p = stable fs none p
        by_node (some x) fs p = (stable fs none p, update_same n fs none)

-- The rename of a file: onto its target, or refused.
pub Runs-rename :
    (C P Q E : Files → Type 0) (from to : Name) (b : Bytes)
    → ((fs : Files) → P fs → fs from ≡ some (file b))
    → ((fs : Files) → P fs → Q (update (update fs from none) to (some (file b))))
    → ((fs : Files) → P fs → E fs)
    → ((fs : Files) → P fs → C fs)
    → Runs C P (rename from to) (λ _. Q) E
unfolding rename
Runs-rename C P Q E from to b at moved failed safe =
    Runs-call C (λ fs. rename_exit (fs from) from to fs) unchanged (λ fs p. renamed fs p)
      (λ n fs p. (failed fs p, safe fs p))
  where
    onto :
        (fs : Files) (refused : Bool)
        → P fs
        → let r = rename_unless refused (file b) from to fs in Post (λ _. Q) E C r.0 r.1
    onto fs true p = failed fs p
    onto fs false p = moved fs p

    renamed :
        (fs : Files) → P fs → let r = rename_exit (fs from) from to fs in Post (λ _. Q) E C r.0 r.1
    renamed fs p = rw (at fs p) (onto fs (is_refused (file b) (fs to)) p)
