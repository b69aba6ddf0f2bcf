-- ===== src/Files/Temp/Blocked.antt =====
-- A temporary file that is there already blocks the next write beside it.
use myminivault.Prelude.{◌≡◌, ◌∙◌, refl, Bytes, none, some}
use myminivault.Files
use myminivault.Files.{
  Name, Io, FileError, World, Files, file, exists, calm, reject_symlink, reject_symlink_or_missing,
  create_exclusive, call, ◌>>◌, ◌>>=◌,
}
use myminivault.Files.Temp.{fill_temp}

pub then_ok : (m k : Io (Unit {0})) (w w' : World) → m w ≡ (Files.ok tt, w') → (m >> k) w ≡ k w'
unfolding ◌>>◌
then_ok m k w w' h = rw h refl

pub then_err :
    (m k : Io (Unit {0})) (w w' : World) (e : FileError)
    → m w ≡ (Files.err e, w')
    → (m >> k) w ≡ (Files.err e, w')
unfolding ◌>>◌
then_err m k w w' e h = rw h refl

pub check_file :
    (n : Name) (fs : Files) (content : Bytes)
    → fs n ≡ some (file content)
    → reject_symlink_or_missing n (calm fs) ≡ (Files.ok tt, calm fs)
unfolding reject_symlink_or_missing reject_symlink call
check_file n fs content h = rw h refl

pub check_missing :
    (n : Name) (fs : Files)
    → fs n ≡ none
    → reject_symlink_or_missing n (calm fs) ≡ (Files.ok tt, calm fs)
unfolding reject_symlink_or_missing reject_symlink call
check_missing n fs h = rw h refl

create_blocked :
    (n : Name) (fs : Files) (content : Bytes)
    → fs n ≡ some (file content)
    → create_exclusive n (calm fs) ≡ (Files.err exists, calm fs)
unfolding create_exclusive call
create_blocked n fs content h =
    then_ok (reject_symlink_or_missing n) _ (calm fs) (calm fs) (check_file n fs content h)
    ∙ rw h refl

pub fill_blocked :
    (n : Name) (fs : Files) (content : Bytes) (source : Io Bytes)
    → fs n ≡ some (file content)
    → fill_temp n source (calm fs) ≡ (Files.err exists, calm fs)
unfolding fill_temp
fill_blocked n fs content source h =
    then_err (create_exclusive n) _ (calm fs) (calm fs) exists (create_blocked n fs content h)
