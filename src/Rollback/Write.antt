-- ===== src/Rollback/Write.antt =====
-- `writeAtomic` of internal/rollback/rollback.go, which writes the trusted state.
pub mod Whole
use myminivault.Prelude.{Bytes}
use myminivault.Files.{
  Io, ◌>>◌, pure, state, state_temp, reject_symlink_or_missing, sync_parent_dir, chmod,
}
use myminivault.Files.Temp.{fill_temp, move_in}

unfoldable pub write_atomic : Bytes → Io (Unit {0})
write_atomic data' = do
  reject_symlink_or_missing state
  reject_symlink_or_missing state_temp
  fill_temp state_temp (pure data')
  move_in state_temp state
  chmod state
  sync_parent_dir
