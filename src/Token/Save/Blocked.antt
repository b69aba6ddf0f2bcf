-- ===== src/Token/Save/Blocked.antt =====
-- What a save of the shared token vault that stopped between its two renames leaves behind.
use myminivault.Prelude.{◌≡◌, ◌∙◌, refl, Option, Bytes, List, none, some}
use myminivault.Container.{Metadata}
use myminivault.Files
use myminivault.Files.{
  Files, file, primary, backup, temp, exists, not_exist, calm, call, reject_symlink,
  reject_symlink_or_missing, ◌>>◌,
}
use myminivault.Files.Temp.{fill_temp}
use myminivault.Files.Temp.Blocked.{then_ok, then_err, check_file, check_missing, fill_blocked}
use myminivault.Token.Save.{save_vault_file_atomic, read_shared}

read_shared-missing :
    (fs : Files) → fs primary ≡ none → read_shared (calm fs) ≡ (Files.err not_exist, calm fs)
unfolding read_shared reject_symlink call ◌>>◌
read_shared-missing fs p = rw p refl

-- Where the process stopped between the two renames, the shared vault is missing though the old one is
-- the backup and the new one the temporary file. A read finds no shared vault, and every later save
-- fails because the temporary file is there, and changes nothing.
pub save_vault_file_atomic-blocked :
    (marshal : Metadata → Option Bytes) (salt ciphertext : Bytes) (metadata : List Metadata)
    (fs : Files) (old left : Bytes)
    → fs primary ≡ none
    → fs backup ≡ some (file old)
    → fs temp ≡ some (file left)
    → (read_shared (calm fs) ≡ (Files.err not_exist, calm fs))
      × (save_vault_file_atomic marshal salt ciphertext metadata (calm fs)
          ≡ (Files.err exists, calm fs))
unfolding save_vault_file_atomic
save_vault_file_atomic-blocked marshal salt ciphertext metadata fs old left p b t = (
  read_shared-missing fs p,
  then_ok (reject_symlink_or_missing primary) _ (calm fs) (calm fs) (check_missing primary fs p)
      ∙ then_ok (reject_symlink_or_missing backup) _ (calm fs) (calm fs)
          (check_file backup fs old b)
      ∙ then_ok (reject_symlink_or_missing temp) _ (calm fs) (calm fs) (check_file temp fs left t)
      ∙ then_err (fill_temp temp _) _ (calm fs) (calm fs) exists (fill_blocked temp fs left _ t),
)
