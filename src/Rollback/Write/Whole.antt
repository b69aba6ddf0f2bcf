-- ===== src/Rollback/Write/Whole.antt =====
-- However a write of the trusted state ends, the file is what it was or the whole new one; and what a
-- stopped write leaves behind blocks the next one.
use myminivault.Prelude.{◌≡◌, ◌∙◌, refl, false, Option, Bytes, some}
use myminivault.Files
use myminivault.Files.{
  Name, Io, FileError, Node, World, Files, file, state, state_temp, name_eq, exists, pure, calm,
  reject_symlink, reject_symlink_or_missing, create_exclusive, call, ◌>>◌, ◌>>=◌,
}
use myminivault.Files.Hoare.{Post, Runs, Runs-then}
use myminivault.Files.Temp.{fill_temp}
use myminivault.Files.Temp.Blocked.{then_ok, then_err, check_file, fill_blocked}
use myminivault.Files.Temp.Replace.{
  IsNew, IsOld, IsWhole, Runs-check, Runs-fill_temp, Runs-move_in, Runs-sync-IsNew,
  Runs-chmod-IsNew,
}
use myminivault.Rollback.Write.{write_atomic}

pub apart : name_eq state_temp state ≡ false
unfolding name_eq
apart = refl

module _ (old : Option Node) (new : Bytes) where
  Runs-given :
      Runs
        (IsWhole state_temp state apart old new)
        (IsOld state_temp state apart old new)
        (pure new)
        (λ data' fs. IsOld state_temp state apart old new fs × (data' ≡ new))
        (IsWhole state_temp state apart old new)
  unfolding pure
  Runs-given = record { at = λ w p. (p, refl) }

  Runs-write_atomic :
      Runs
        (IsWhole state_temp state apart old new)
        (IsOld state_temp state apart old new)
        (write_atomic new)
        (λ _. IsNew state_temp state apart old new)
        (IsWhole state_temp state apart old new)
  unfolding write_atomic
  Runs-write_atomic =
      let C = IsWhole state_temp state apart old new in
      Runs-then C (Runs-check state_temp state apart old new state) (
        Runs-then C (Runs-check state_temp state apart old new state_temp) (
          Runs-then C (Runs-fill_temp state_temp state apart old new (pure new) Runs-given) (
            Runs-then C (Runs-move_in state_temp state apart old new) (
              Runs-then C (Runs-chmod-IsNew state_temp state apart old new state)
                (Runs-sync-IsNew state_temp state apart old new)))))

-- However the calls of a write of the trusted state fail, and wherever the process stops, the file is
-- what it was or the whole new one; where the write returns without an error it is the new one.
pub write_atomic-IsWhole :
    (old : Option Node) (new : Bytes) (w : World)
    → w.files state ≡ old
    → let run = write_atomic new w in
      Post
        (λ _. IsNew state_temp state apart old new)
        (IsWhole state_temp state apart old new)
        (IsWhole state_temp state apart old new)
        run.0
        run.1.files
write_atomic-IsWhole old new w h = (Runs-write_atomic old new).at w h

-- A temporary file that a stopped write left behind makes every later write fail, which changes nothing.
pub write_atomic-blocked :
    (fs : Files) (old left new : Bytes)
    → fs state ≡ some (file old)
    → fs state_temp ≡ some (file left)
    → write_atomic new (calm fs) ≡ (Files.err exists, calm fs)
unfolding write_atomic
write_atomic-blocked fs old left new h k =
    then_ok (reject_symlink_or_missing state) _ (calm fs) (calm fs) (check_file state fs old h)
    ∙ then_ok (reject_symlink_or_missing state_temp) _ (calm fs) (calm fs)
        (check_file state_temp fs left k)
    ∙ then_err (fill_temp state_temp (pure new)) _ (calm fs) (calm fs) exists
        (fill_blocked state_temp fs left (pure new) k)
