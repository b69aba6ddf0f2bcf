-- ===== src/Files/Move/Truncated.antt =====
-- What a copy to the runtime home that fails half-way leaves behind.
use myminivault.Prelude.{ℕ, ◌≡◌, refl, Bool, true, false, Bytes, take, [], ◌∷◌, none, some}
use myminivault.Files.{
  Name, file, Files, World, ok, calm, done, failed, name_eq, update, call, reject_symlink,
  reject_symlink_or_missing, create_exclusive, write, close_file, ◌>>◌, ◌>>=◌, on_error, ignore,
  raise,
}
use myminivault.Files.Calls.{update_same}
use myminivault.Files.Move.{copy_across, try_rename, move_runtime_file, migrate_file}

-- The write of the copy is the ninth call; it fails after `n` bytes.
abbrev pub fails_writing : ℕ → Files → World
fails_writing n fs = record {
  files = fs;
  schedule = done ∷ done ∷ done ∷ done ∷ done ∷ done ∷ done ∷ done ∷ failed n ∷ [];
}

module _ (src dst : Name) (apart : name_eq dst src ≡ false) where
  pub passed_over :
      (same : Bool) (fs : Files) (old left : Bytes)
      → fs src ≡ some (file old)
      → fs dst ≡ some (file left)
      → migrate_file same src dst (calm fs) ≡ (ok tt, calm fs)
  unfolding migrate_file reject_symlink call
  passed_over same fs old left s d = rw (s, d) refl

  half_copied :
      (n : ℕ) (fs : Files) (old : Bytes)
      → fs src ≡ some (file old)
      → fs dst ≡ none
      → let left = (migrate_file false src dst (fails_writing n fs)).1.files in
        (left src ≡ some (file old)) × (left dst ≡ some (file (take n old)))
  unfolding migrate_file move_runtime_file try_rename copy_across create_exclusive write
      reject_symlink reject_symlink_or_missing call ◌>>◌ ◌>>=◌ on_error ignore close_file raise
  half_copied n fs old s d =
      rw (s, d)
        (rw (s, d, move_runtime_file)
          (rw (s, copy_across)
            (rw (s, ◌>>=◌)
              (rw (d, ◌>>◌)
                (rw d (
                  rw apart s,
                  update_same dst (update fs dst (some (file []))) (some (file (take n old))),
                ))))))

-- Between file systems a move whose copy fails after `n` bytes leaves the truncated copy at the new place,
-- where every later start takes it for the file in use: it passes the old file over and changes nothing.
pub migrate_file-truncated :
    (src dst : Name) (apart : name_eq dst src ≡ false) (n : ℕ) (fs : Files) (old : Bytes)
    → fs src ≡ some (file old)
    → fs dst ≡ none
    → let left = (migrate_file false src dst (fails_writing n fs)).1.files in
      (left dst ≡ some (file (take n old)))
      × (migrate_file false src dst (calm left) ≡ (ok tt, calm left))
      × (migrate_file true src dst (calm left) ≡ (ok tt, calm left))
migrate_file-truncated src dst apart n fs old s d =
    let left = (migrate_file false src dst (fails_writing n fs)).1.files in
    let (at_src, at_dst) = half_copied src dst apart n fs old s d in
    (
      at_dst,
      passed_over src dst apart false left old (take n old) at_src at_dst,
      passed_over src dst apart true left old (take n old) at_src at_dst,
    )
