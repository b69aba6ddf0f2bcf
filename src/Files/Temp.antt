-- ===== src/Files/Temp.antt =====
-- A file that is written beside its target and renamed into place, as `SaveFile` of
-- internal/recovery/recovery.go and `writeAtomic` of internal/rollback/rollback.go do.
pub mod Blocked
pub mod Fill
pub mod Replace
use myminivault.Prelude.{Bytes}
use myminivault.Files.{
  Name, Io, ◌>>=◌, ◌>>◌, ignore, on_error, create_exclusive, write, sync_file, close_file, remove,
  rename,
}

-- Close and remove, each without looking at its error.
unfoldable pub abandon : Name → Io (Unit {0})
abandon n = do ignore close_file; ignore (remove n)

-- From the creation of the temporary file to its close; `source` gives the bytes.
unfoldable pub fill_temp : Name → Io Bytes → Io (Unit {0})
fill_temp n source = do
  create_exclusive n
  data' ← on_error source (abandon n)
  on_error (write n data') (abandon n)
  on_error sync_file (abandon n)
  on_error close_file (ignore (remove n))

unfoldable pub move_in : Name → Name → Io (Unit {0})
move_in beside target = on_error (rename beside target) (ignore (remove beside))
