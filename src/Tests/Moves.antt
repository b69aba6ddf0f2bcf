-- ===== src/Tests/Moves.antt =====
-- Moves of a file to the runtime home that stop or fail, and a wait for the lock.
use myminivault.Prelude.{
  ℕ, ◌≡◌, ◌+◌, ◌*◌, ◌==◌, refl, true, false, none, some, [], ◌∷◌, codes, take, arith, if◌then◌else◌,
}
use myminivault.Files
use myminivault.Files.{Files, World, file, calm, done, stopped, name_eq, state, recovery, primary}
use myminivault.Files.Hoare.{Post}
use myminivault.Files.Move.{move_runtime_file, migrate_file}
use myminivault.Files.Move.Kept.{IsKept, IsMoved, move_runtime_file-IsKept}
use myminivault.Files.Move.Truncated.{fails_writing, migrate_file-truncated}
use myminivault.Backup.Kept.{IsOld, IsRestored, restore_files, restore_files-IsKept}
use myminivault.Backup.Kept
use myminivault.Lock.{Flock, acquired, busy, with_file_timeout, delay_or_default}
use myminivault.Lock.Ended.{Ended, with_file_timeout-Ended}

-- `state` stands for the file of the old version, and `recovery` for its new place.
abbrev old_home : Files
old_home state = some (file (codes "old"))
old_home _ = none

-- The process stops while the copy is written, after one byte.
abbrev interrupted : World
interrupted = record {
  files = old_home;
  schedule = done ∷ done ∷ done ∷ done ∷ done ∷ done ∷ stopped 1 ∷ [];
}

apart : name_eq recovery state ≡ false
unfolding name_eq
apart = refl

apart' : name_eq state recovery ≡ false
unfolding name_eq
apart' = refl

move_runtime_file-IsKept_example :
    let run = move_runtime_file false state recovery interrupted in
    Post
      (λ _. IsMoved state recovery apart apart' (codes "old"))
      (IsKept state recovery apart apart' (codes "old"))
      (IsKept state recovery apart apart' (codes "old"))
      run.0
      run.1.files
move_runtime_file-IsKept_example =
    move_runtime_file-IsKept false state recovery apart apart' (codes "old") interrupted refl

migrate_file-truncated_example :
    let left = (migrate_file false state recovery (fails_writing 1 old_home)).1.files in
    (left recovery ≡ some (file (take 1 (codes "old"))))
    × (migrate_file false state recovery (calm left) ≡ (Files.ok tt, calm left))
    × (migrate_file true state recovery (calm left) ≡ (Files.ok tt, calm left))
migrate_file-truncated_example =
    migrate_file-truncated state recovery apart 1 old_home (codes "old") refl refl

-- The process stops while the backup is written beside the vault, after one byte.
abbrev old_vault : Files
old_vault primary = some (file (codes "old"))
old_vault _ = none

abbrev restoring : World
restoring = record {
  files = old_vault;
  schedule = done ∷ done ∷ done ∷ done ∷ done ∷ done ∷ done ∷ done ∷ done ∷ done ∷ stopped 1 ∷ [];
}

restore_files-IsKept_example :
    let run = restore_files (codes "new") (codes "{}") restoring in
    Post
      (λ _. IsRestored (codes "old") (codes "new"))
      (Kept.IsKept (codes "old") (codes "new"))
      (Kept.IsKept (codes "old") (codes "new"))
      run.0
      run.1.files
restore_files-IsKept_example =
    restore_files-IsKept (codes "old") (codes "new") (codes "{}") restoring refl

-- The lock is busy once, and the clock goes on by ten at each attempt.
abbrev attempts : ℕ → Flock
attempts i = if i == 0 then busy else acquired

abbrev clock : ℕ → ℕ
clock i = 100 + 10 * i

with_file_timeout-Ended_example :
    Ended attempts clock 30
      (delay_or_default 10)
      (100 + 30)
      0
      (with_file_timeout attempts clock 100 30 10 (30 + 1))
unfolding delay_or_default
with_file_timeout-Ended_example =
    with_file_timeout-Ended attempts clock 30 10 100 (omega arith) (λ k. ground arith)
