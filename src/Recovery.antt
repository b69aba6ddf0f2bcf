-- ===== src/Recovery.antt =====
-- internal/recovery/recovery.go: the recovery key, the snapshot that it opens, and `SaveFile`.
pub mod Saved
pub mod Keys
pub mod Open
pub mod RoundTrip
use myminivault.Prelude.{Option, [], ◌∷◌, Bytes, List, join_with}
use myminivault.Container.{Metadata, wrap, kind_recovery_vault}
use myminivault.Files.{
  Io, ◌>>◌, ignore, on_error, recovery, recovery_temp, reject_symlink_or_missing, sync_parent_dir,
  chmod, remove,
}
use myminivault.Files.Temp.{fill_temp, move_in}
use myminivault.Storage.Save.{wrapped_or_fail}

-- The groups of `GroupKey`, five bytes each but the last.
unfoldable pub key_groups : Bytes → List Bytes
key_groups [] = []
key_groups (a ∷ b ∷ c ∷ d ∷ e ∷ f ∷ encoded) = (a ∷ b ∷ c ∷ d ∷ e ∷ []) ∷ key_groups (f ∷ encoded)
key_groups encoded = encoded ∷ []

unfoldable pub group_key : Bytes → Bytes
group_key encoded = join_with b'-' (key_groups encoded)

-- `SaveFile`
unfoldable pub save_file : (Metadata → Option Bytes) → Bytes → Bytes → List Metadata → Io (Unit {0})
save_file marshal salt recovery_ciphertext metadata = do
  reject_symlink_or_missing recovery
  reject_symlink_or_missing recovery_temp
  fill_temp recovery_temp
      (wrapped_or_fail (wrap marshal kind_recovery_vault salt recovery_ciphertext metadata))
  move_in recovery_temp recovery
  on_error sync_parent_dir (ignore (remove recovery_temp))
  chmod recovery
