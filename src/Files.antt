-- ===== src/Files.antt =====
-- The runtime files of one vault and the system calls of `fileOps` and internal/paths/paths.go on
-- them. Every call takes its outcome from a schedule: it is carried out, it fails without effect, or
-- the process stops at it. Only the process is lost, not what it wrote: power loss and the
-- durability that `Sync` adds are not modelled. Modes other than those set here are not modelled.
pub mod Hoare
pub mod Calls
pub mod Temp
pub mod Move
use myminivault.Prelude.{
  ℕ, Bool, true, false, ◌&&◌, Option, none, some, List, [], ◌∷◌, if◌then◌else◌, Bytes, take,
  is_some,
}

-- `vaultFile` and the names that are made from it: .bak, .tmp, .transaction, .recovery and
-- .recovery.tmp; the file of the rollback state, and its .tmp; .restore.tmp and the copy that a
-- restore makes. `primary`, `backup` and `temp` also stand for the shared token vault
-- and its .bak and .tmp, where a run is about that file.
pub data Name : Type 0 where
  primary backup temp transaction recovery recovery_temp state state_temp restore_temp : Name
  pre_restore : Name

unfoldable pub name_eq : Name → Name → Bool
name_eq primary primary = true
name_eq backup backup = true
name_eq temp temp = true
name_eq transaction transaction = true
name_eq recovery recovery = true
name_eq recovery_temp recovery_temp = true
name_eq state state = true
name_eq state_temp state_temp = true
name_eq restore_temp restore_temp = true
name_eq pre_restore pre_restore = true
name_eq _ _ = false

pub data Node : Type 0 where
  file : Bytes → Node
  symlink directory : Node

abbrev pub Files : Type 0
Files = Name → Option Node

abbrev pub update : Files → Name → Option Node → Files
update fs n entry = λ m. if name_eq n m then entry else fs m

-- What becomes of the next call. A write that fails or stops has written so many bytes.
pub data Outcome : Type 0 where
  done : Outcome
  failed : ℕ → Outcome
  stopped : ℕ → Outcome

pub data FileError : Type 0 where
  not_exist exists is_symlink io bad_container : FileError

pub data Exit (A : Type 0) : Type 0 where
  ok : A → Exit A
  err : FileError → Exit A
  crashed : Exit A

pub record World : Type 0 where
  pub files : Files
  pub schedule : List Outcome

abbrev pub Io : Type 0 → Type 0
Io A = World → Exit A × World

-- Every call is carried out.
abbrev pub calm : Files → World
calm fs = record { files = fs; schedule = [] }

infixl 5 ◌>>=◌ ◌>>◌
abbrev pub after_exit : {A B : Type 0} → Exit A → (A → Io B) → Io B
after_exit (ok a) f w = f a w
after_exit (err e) f w = (err e, w)
after_exit crashed f w = (crashed, w)

unfoldable pub ◌>>=◌ : {A B : Type 0} → Io A → (A → Io B) → Io B
◌>>=◌ m f w = let (r, w') = m w in after_exit r f w'

unfoldable pub ◌>>◌ : {B : Type 0} → Io (Unit {0}) → Io B → Io B
◌>>◌ m k w = let (r, w') = m w in after_exit r (λ _. k) w'

unfoldable pub pure : {A : Type 0} → A → Io A
pure a w = (ok a, w)

unfoldable pub raise : {A : Type 0} → FileError → Io A
raise e w = (err e, w)

-- `_ = call()`: the error is dropped.
abbrev pub drop_error : Exit (Unit {0}) → Exit (Unit {0})
drop_error (err e) = ok tt
drop_error (ok a) = ok tt
drop_error crashed = crashed

unfoldable pub ignore : Io (Unit {0}) → Io (Unit {0})
ignore m w = let (r, w') = m w in (drop_error r, w')

-- `if err := call(); err != nil { cleanup; return err }`
abbrev pub after_error : {A : Type 0} → Exit A → Io (Unit {0}) → Io A
after_error (ok a) cleanup w = (ok a, w)
after_error crashed cleanup w = (crashed, w)
after_error (err e) cleanup w =
    let (r, w') = cleanup w in (elim r [ crashed ↦ crashed | _ ↦ err e ], w')

unfoldable pub on_error : {A : Type 0} → Io A → Io (Unit {0}) → Io A
on_error m cleanup w = let (r, w') = m w in after_error r cleanup w'

-- The outcome of the next call; a schedule that has ended lets every call be carried out.
abbrev pub next_outcome : List Outcome → Outcome
next_outcome [] = done
next_outcome (o ∷ rest) = o

abbrev rest_of : List Outcome → List Outcome
rest_of [] = []
rest_of (o ∷ rest) = rest

abbrev pub by_outcome :
    {A : Type 0} → Outcome → (Files → Exit A × Files) → (ℕ → Files → Files) → Files → Exit A × Files
by_outcome done effect partial fs = effect fs
by_outcome (failed n) effect partial fs = (err io, partial n fs)
by_outcome (stopped n) effect partial fs = (crashed, partial n fs)

-- One system call: its effect when it is carried out, and what it leaves when it is not.
unfoldable pub call : {A : Type 0} → (Files → Exit A × Files) → (ℕ → Files → Files) → Io A
call effect partial w =
    let (r, fs) = by_outcome (next_outcome w.schedule) effect partial w.files in
    (r, record { files = fs; schedule = rest_of w.schedule })

abbrev pub unchanged : ℕ → Files → Files
unchanged n fs = fs

-- `RejectSymlink`: `os.Lstat` and the test of the mode.
abbrev pub lstat_exit : Option Node → Exit (Unit {0})
lstat_exit none = err not_exist
lstat_exit (some symlink) = err is_symlink
lstat_exit (some _) = ok tt

unfoldable pub reject_symlink : Name → Io (Unit {0})
unfolding call
reject_symlink n = call (λ fs. (lstat_exit (fs n), fs)) unchanged

-- `err != nil && !os.IsNotExist(err)`
abbrev pub allow_missing_exit : Exit (Unit {0}) → Exit (Unit {0})
allow_missing_exit (err not_exist) = ok tt
allow_missing_exit r = r

unfoldable pub reject_symlink_or_missing : Name → Io (Unit {0})
reject_symlink_or_missing n w = let (r, w') = reject_symlink n w in (allow_missing_exit r, w')

abbrev pub create_exit : Option Node → Name → Files → Exit (Unit {0}) × Files
create_exit none n fs = (ok tt, update fs n (some (file [])))
create_exit (some _) n fs = (err exists, fs)

-- `OpenFileCreateExclusiveChecked` and `OpenFileChecked` with O_CREATE|O_EXCL|O_WRONLY.
unfoldable pub create_exclusive : Name → Io (Unit {0})
create_exclusive n = reject_symlink_or_missing n >> call (λ fs. create_exit (fs n) n fs) unchanged

-- `f.Write(data)` on a file that was just created: a part of the bytes if it does not finish.
unfoldable pub write : Name → Bytes → Io (Unit {0})
unfolding call
write n data' =
    call (λ fs. (ok tt, update fs n (some (file data'))))
      (λ k fs. update fs n (some (file (take k data'))))

-- `f.Sync()`, `f.Close()` and `SyncParentDir` change no name and no content.
unfoldable pub sync_file : Io (Unit {0})
unfolding call
sync_file = call (λ fs. (ok tt, fs)) unchanged

unfoldable pub close_file : Io (Unit {0})
unfolding call
close_file = call (λ fs. (ok tt, fs)) unchanged

unfoldable pub sync_parent_dir : Io (Unit {0})
unfolding call
sync_parent_dir = call (λ fs. (ok tt, fs)) unchanged

-- `stat`, as the test whether the file is there.
abbrev pub stat_exit : Option Node → Exit Bool
stat_exit none = ok false
stat_exit (some _) = ok true

unfoldable pub stat_exists : Name → Io Bool
unfolding call
stat_exists n = call (λ fs. (stat_exit (fs n), fs)) unchanged

-- `os.Rename` refuses a target that is a directory, and a directory onto anything else.
abbrev pub is_refused : Node → Option Node → Bool
is_refused entry (some directory) = true
is_refused directory (some _) = true
is_refused entry _ = false

abbrev pub rename_unless : Bool → Node → Name → Name → Files → Exit (Unit {0}) × Files
rename_unless true entry from to fs = (err io, fs)
rename_unless false entry from to fs = (ok tt, update (update fs from none) to (some entry))

abbrev pub rename_exit : Option Node → Name → Name → Files → Exit (Unit {0}) × Files
rename_exit none from to fs = (err not_exist, fs)
rename_exit (some entry) from to fs = rename_unless (is_refused entry (fs to)) entry from to fs

unfoldable pub rename : Name → Name → Io (Unit {0})
unfolding call
rename from to = call (λ fs. rename_exit (fs from) from to fs) unchanged

abbrev pub exists_exit : Option Node → Exit (Unit {0})
exists_exit none = err not_exist
exists_exit (some _) = ok tt

-- `chmod(n, 0600)`; modes are not part of a entry.
unfoldable pub chmod : Name → Io (Unit {0})
unfolding call
chmod n = call (λ fs. (exists_exit (fs n), fs)) unchanged

unfoldable pub remove : Name → Io (Unit {0})
unfolding call
remove n = call (λ fs. (exists_exit (fs n), update fs n none)) unchanged

abbrev pub read_exit : Option Node → Exit Bytes
read_exit none = err not_exist
read_exit (some (file content)) = ok content
read_exit (some symlink) = err is_symlink
read_exit (some directory) = err io

-- `RejectSymlink` and then `ReadFileChecked`, as the loaders call them.
unfoldable pub read_checked : Name → Io Bytes
read_checked n = do
  reject_symlink n
  reject_symlink_or_missing n
  call (λ fs. (read_exit (fs n), fs)) unchanged
