-- ===== src/Files/Move.antt =====
-- `moveRuntimeFile` of cmd/vault/config_cli.go: a file from the directory of an old version goes to the
-- runtime home. `renames` is whether `os.Rename` can move between the two directories.
pub mod Kept
pub mod Truncated
use myminivault.Prelude.{Bytes, Bool, true, false, none}
use myminivault.Files.{
  Name, Io, Exit, ok, err, crashed, io, not_exist, ◌>>=◌, ◌>>◌, raise, ignore, on_error, call,
  unchanged, update, read_exit, reject_symlink, reject_symlink_or_missing, create_exclusive, write,
  sync_file, close_file, sync_parent_dir, rename, remove, World,
}

-- The copy where the rename fails. The source is read while the copy is written; it is one call here.
unfoldable pub copy_across : Name → Name → Io (Unit {0})
unfolding call
copy_across src dst = do
  reject_symlink_or_missing src
  content ← call (λ fs. (read_exit (fs src), fs)) unchanged
  create_exclusive dst
  on_error (write dst content) (ignore close_file)
  on_error sync_file (ignore close_file)
  close_file
  sync_parent_dir
  remove src
  sync_parent_dir

-- `if err := os.Rename(src, dst); err == nil`
abbrev pub after_rename : Exit (Unit {0}) → Io (Unit {0}) → Io (Unit {0}) → Io (Unit {0})
after_rename (ok a) done otherwise w = done w
after_rename (err e) done otherwise w = otherwise w
after_rename crashed done otherwise w = (crashed, w)

-- Between file systems `os.Rename` fails.
unfoldable pub rename_within : Bool → Name → Name → Io (Unit {0})
rename_within true src dst = rename src dst
rename_within false src dst = raise io

unfoldable pub try_rename : Bool → Name → Name → Io (Unit {0}) → Io (Unit {0})
unfolding rename_within
try_rename same src dst otherwise w =
    let (r, w') = rename_within same src dst w in
    after_rename r (sync_parent_dir >> sync_parent_dir) otherwise w'

unfoldable pub move_runtime_file : Bool → Name → Name → Io (Unit {0})
move_runtime_file same src dst = do
  reject_symlink src
  reject_symlink_or_missing dst
  try_rename same src dst (copy_across src dst)

-- One round of the loop of `migrateLegacyRuntimeFiles`: a file that is missing or a link is passed over,
-- and so is one whose place is taken, with a warning.
abbrev pub if_free : Exit (Unit {0}) → Io (Unit {0}) → Io (Unit {0})
if_free (ok a) move w = (ok tt, w)
if_free (err not_exist) move w = move w
if_free (err e) move w = (err e, w)
if_free crashed move w = (crashed, w)

abbrev pub if_there : Exit (Unit {0}) → Io (Unit {0}) → Io (Unit {0})
if_there (ok a) more w = more w
if_there (err e) more w = (ok tt, w)
if_there crashed more w = (crashed, w)

unfoldable pub place_free : Name → Io (Unit {0}) → Io (Unit {0})
place_free dst move w = let (r, w') = reject_symlink dst w in if_free r move w'

unfoldable pub migrate_file : Bool → Name → Name → Io (Unit {0})
unfolding place_free
migrate_file same src dst w =
    let (r, w') = reject_symlink src w in
    if_there r (place_free dst (move_runtime_file same src dst)) w'
