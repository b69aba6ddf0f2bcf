-- ===== src/Files/Move/Kept.antt =====
-- However the calls of a move fail and wherever the process stops, the file is not lost.
use myminivault.Prelude.{◌≡◌, refl, ◌⊎◌, inl, inr, Bool, true, false, Bytes, Option, none, some}
use myminivault.Files.{
  Name, Node, file, Files, World, Io, Exit, ok, err, crashed, ◌>>◌, update, unchanged, call,
  name_eq, read_exit, create_exclusive, write, close_file, sync_parent_dir, raise, ignore,
}
use myminivault.Files.Hoare.{
  Post, Runs, Runs-bind, Runs-then, Runs-on_error, Runs-ignore, Runs-weaken, Runs-call,
}
use myminivault.Files.Calls.{
  Runs-rename, update_same, Runs-sync_file, Runs-close_file, Runs-sync_parent_dir,
  Runs-reject_symlink, Runs-reject_symlink_or_missing, Runs-create_exclusive, Runs-write,
  Runs-remove,
}
use myminivault.Files.Move.{copy_across, after_rename, rename_within, try_rename, move_runtime_file}

module _ (src dst : Name) (apart : name_eq dst src ≡ false) (apart' : name_eq src dst ≡ false)
    (old : Bytes) where
  abbrev pub IsThere : Files → Type 0
  IsThere fs = fs src ≡ some (file old)

  abbrev pub IsCopied : Files → Type 0
  IsCopied fs = fs dst ≡ some (file old)

  abbrev pub IsKept : Files → Type 0
  IsKept fs = IsThere fs ⊎ IsCopied fs

  abbrev pub IsMoved : Files → Type 0
  IsMoved fs = IsCopied fs × (fs src ≡ none)

  there : (fs : Files) → IsThere fs → IsKept fs
  there fs p = inl p

  copied : (fs : Files) → IsCopied fs → IsKept fs
  copied fs p = inr p

  moved : (fs : Files) → IsMoved fs → IsKept fs
  moved fs p = inr p.0

  kept : (fs : Files) (entry : Option Node) → IsThere fs → IsThere (update fs dst entry)
  kept fs entry p = rw apart p

  kept_copy : (fs : Files) (entry : Option Node) → IsCopied fs → IsCopied (update fs src entry)
  kept_copy fs entry p = rw apart' p

  loosely :
      {A : Type 0} {P : Files → Type 0} {m : Io A} {Q : A → Files → Type 0}
      → ((fs : Files) → P fs → IsKept fs)
      → Runs IsKept P m Q P
      → Runs IsKept P m Q IsKept
  loosely below h = Runs-weaken IsKept (λ f p. p) (λ a f q. q) below h

  Runs-read :
      Runs IsKept IsThere
        (call (λ fs. (read_exit (fs src), fs)) unchanged)
        (λ content fs. IsThere fs × (content ≡ old))
        IsKept
  Runs-read =
      Runs-call IsKept (λ fs. (read_exit (fs src), fs)) unchanged (λ fs p. found fs p)
        (λ k fs p. (inl p, inl p))
    where
      found :
          (fs : Files)
          → IsThere fs
          → Post (λ content f. IsThere f × (content ≡ old)) IsKept IsKept (read_exit (fs src)) fs
      found fs p = rw p (p, refl)

  Runs-write_copy :
      (content : Bytes)
      → Runs IsKept
          (λ fs. IsThere fs × (content ≡ old))
          (write dst content)
          (λ _ fs. IsThere fs × IsCopied fs)
          IsKept
  Runs-write_copy content = record { at = λ w p. (written p.1).at w p.0 }
    where
      written :
          content ≡ old
          → Runs IsKept IsThere (write dst content) (λ _ fs. IsThere fs × IsCopied fs) IsKept
      written e =
          Runs-weaken IsKept (λ f p. p) (λ a f q. (q.0, rw (← e) q.1)) there
            (Runs-write IsKept IsThere there dst kept content)

  Runs-close : Runs IsKept IsKept (ignore close_file) (λ _. IsKept) IsKept
  Runs-close = Runs-ignore IsKept IsKept IsKept (Runs-close_file IsKept IsKept (λ fs p. p))

  Runs-copy_across : Runs IsKept IsThere (copy_across src dst) (λ _. IsMoved) IsKept
  unfolding copy_across
  Runs-copy_across =
      Runs-then IsKept (loosely there (Runs-reject_symlink_or_missing IsKept IsThere there src)) (
        Runs-bind IsKept Runs-read (λ content. Runs-then IsKept (Runs-create_with content) (
          Runs-then IsKept
            (Runs-on_error IsKept (λ _. IsCopied)
              (Runs-weaken IsKept (λ f p. p) (λ a f q. q.1) (λ f e. e) (Runs-write_copy content))
              Runs-close)
            (Runs-then IsKept
              (Runs-on_error IsKept (λ _. IsCopied)
                (loosely copied (Runs-sync_file IsKept IsCopied copied)) Runs-close)
              (Runs-then IsKept (loosely copied (Runs-close_file IsKept IsCopied copied)) (
                Runs-then IsKept (loosely copied (Runs-sync_parent_dir IsKept IsCopied copied)) (
                  Runs-then IsKept
                    (loosely copied (Runs-remove IsKept IsCopied copied src kept_copy))
                    (loosely moved (Runs-sync_parent_dir IsKept IsMoved moved)))))))))
    where
      Runs-create_with :
          (content : Bytes)
          → Runs IsKept
              (λ fs. IsThere fs × (content ≡ old))
              (create_exclusive dst)
              (λ _ fs. IsThere fs × (content ≡ old))
              IsKept
      Runs-create_with content =
          loosely (λ fs p. inl p.0)
            (Runs-create_exclusive IsKept (λ fs. IsThere fs × (content ≡ old)) (λ fs p. inl p.0) dst
              (λ fs entry p. (kept fs entry p.0, p.1)))

  Runs-rename_within :
      (same : Bool) → Runs IsKept IsThere (rename_within same src dst) (λ _. IsMoved) IsThere
  unfolding rename_within raise
  Runs-rename_within false = record { at = λ w p. p }
  Runs-rename_within true =
      Runs-rename IsKept IsThere IsMoved IsThere src dst old (λ fs p. p)
        (λ fs p. (
          update_same dst (update fs src none) (some (file old)),
          rw apart (update_same src fs none),
        ))
        (λ fs p. p) there

  after_rename_exit :
      (r : Exit (Unit {0})) (w : World)
      → Post (λ _. IsMoved) IsThere IsKept r w.files
      → let run = after_rename r (sync_parent_dir >> sync_parent_dir) (copy_across src dst) w in
        Post (λ _. IsMoved) IsKept IsKept run.0 run.1.files
  after_rename_exit (ok a) w p =
      let sync = loosely moved (Runs-sync_parent_dir IsKept IsMoved moved) in
      (Runs-then IsKept sync sync).at w p
  after_rename_exit (err e) w p = Runs-copy_across.at w p
  after_rename_exit crashed w p = p

  Runs-try_rename :
      (same : Bool)
      → Runs IsKept IsThere (try_rename same src dst (copy_across src dst)) (λ _. IsMoved) IsKept
  unfolding try_rename
  Runs-try_rename same = record {
    at = λ w p.
        after_rename_exit (rename_within same src dst w).0 (rename_within same src dst w).1
          ((Runs-rename_within same).at w p);
  }

  Runs-move_runtime_file :
      (same : Bool) → Runs IsKept IsThere (move_runtime_file same src dst) (λ _. IsMoved) IsKept
  unfolding move_runtime_file
  Runs-move_runtime_file same =
      Runs-then IsKept (loosely there (Runs-reject_symlink IsKept IsThere there src)) (
        Runs-then IsKept (loosely there (Runs-reject_symlink_or_missing IsKept IsThere there dst))
          (Runs-try_rename same))

-- However the calls of a move from an old directory to the runtime home fail, between file systems or
-- on one, and wherever the process stops: the file is whole at its old or at its new place. Where the
-- move returns without an error it is at the new place alone.
pub move_runtime_file-IsKept :
    (same : Bool) (src dst : Name) (apart : name_eq dst src ≡ false)
    (apart' : name_eq src dst ≡ false) (old : Bytes) (w : World)
    → w.files src ≡ some (file old)
    → let run = move_runtime_file same src dst w in
      Post
        (λ _. IsMoved src dst apart apart' old)
        (IsKept src dst apart apart' old)
        (IsKept src dst apart apart' old)
        run.0
        run.1.files
move_runtime_file-IsKept same src dst apart apart' old w h =
    (Runs-move_runtime_file src dst apart apart' old same).at w h
