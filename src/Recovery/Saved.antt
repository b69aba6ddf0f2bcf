-- ===== src/Recovery/Saved.antt =====
-- However a save of the recovery file ends, the file is what it was or the whole new one.
use myminivault.Prelude.{◌≡◌, refl, Option, Bytes, List, ok, false}
use myminivault.Container.{Metadata, wrap, kind_recovery_vault}
use myminivault.Files.{Node, World, recovery, recovery_temp, name_eq, pure}
use myminivault.Files.Hoare.{Post, Runs, Runs-then, Runs-on_error}
use myminivault.Files.Temp.Replace.{
  IsNew, IsOld, IsWhole, Runs-check, Runs-fill_temp, Runs-move_in, Runs-sync-IsNew,
  Runs-chmod-IsNew, Runs-drop_temp,
}
use myminivault.Storage.Save.{wrapped_or_fail}
use myminivault.Recovery.{save_file}

pub apart : name_eq recovery_temp recovery ≡ false
unfolding name_eq
apart = refl

module _ (old : Option Node) (new : Bytes) where
  Runs-wrapped :
      Runs
        (IsWhole recovery_temp recovery apart old new)
        (IsOld recovery_temp recovery apart old new)
        (wrapped_or_fail (ok new))
        (λ data' fs. IsOld recovery_temp recovery apart old new fs × (data' ≡ new))
        (IsWhole recovery_temp recovery apart old new)
  unfolding wrapped_or_fail pure
  Runs-wrapped = record { at = λ w p. (p, refl) }

  Runs-save_wrapped :
      (marshal : Metadata → Option Bytes) (salt ciphertext : Bytes) (metadata : List Metadata)
      → wrap marshal kind_recovery_vault salt ciphertext metadata ≡ ok new
      → Runs
          (IsWhole recovery_temp recovery apart old new)
          (IsOld recovery_temp recovery apart old new)
          (save_file marshal salt ciphertext metadata)
          (λ _. IsNew recovery_temp recovery apart old new)
          (IsWhole recovery_temp recovery apart old new)
  unfolding save_file
  Runs-save_wrapped marshal salt ciphertext metadata e =
      let C = IsWhole recovery_temp recovery apart old new in
      Runs-then C (Runs-check recovery_temp recovery apart old new recovery) (
        Runs-then C (Runs-check recovery_temp recovery apart old new recovery_temp) (
          Runs-then C (Runs-fill_temp recovery_temp recovery apart old new _ (rw e Runs-wrapped)) (
            Runs-then C (Runs-move_in recovery_temp recovery apart old new) (
              Runs-then C
                (Runs-on_error C (λ _. IsNew recovery_temp recovery apart old new)
                  (Runs-sync-IsNew recovery_temp recovery apart old new)
                  (Runs-drop_temp recovery_temp recovery apart old new))
                (Runs-chmod-IsNew recovery_temp recovery apart old new recovery)))))

-- However the calls of a save of the recovery file fail, and wherever the process stops, the file is
-- what it was or the whole new one; where the save returns without an error it is the new one.
pub save_file-IsWhole :
    (marshal : Metadata → Option Bytes) (salt ciphertext : Bytes) (metadata : List Metadata)
    (old : Option Node) (new : Bytes) (w : World)
    → wrap marshal kind_recovery_vault salt ciphertext metadata ≡ ok new
    → w.files recovery ≡ old
    → let run = save_file marshal salt ciphertext metadata w in
      Post
        (λ _. IsNew recovery_temp recovery apart old new)
        (IsWhole recovery_temp recovery apart old new)
        (IsWhole recovery_temp recovery apart old new)
        run.0
        run.1.files
save_file-IsWhole marshal salt ciphertext metadata old new w e h =
    (Runs-save_wrapped old new marshal salt ciphertext metadata e).at w h
