-- ===== src/Files/Temp/Replace.antt =====
-- For every schedule: the target is what it was, or the whole new file.
use myminivault.Prelude.{◌≡◌, false, Bytes, Option, none, some, ◌⊎◌, inl, inr}
use myminivault.Files.{
  Name, Node, file, Files, Io, update, name_eq, ignore, remove, reject_symlink_or_missing,
  sync_parent_dir, chmod,
}
use myminivault.Files.Hoare.{Runs, Runs-on_error}
use myminivault.Files.Calls.{
  Runs-rename, update_same, Runs-sync_parent_dir, Runs-chmod, Runs-reject_symlink_or_missing,
}
use myminivault.Files.Temp.{fill_temp, move_in}
use myminivault.Files.Temp.Fill

module _ (beside target : Name) (apart : name_eq beside target ≡ false) (old : Option Node)
    (new : Bytes) where
  abbrev pub IsOld : Files → Type 0
  IsOld fs = fs target ≡ old

  abbrev pub IsNew : Files → Type 0
  IsNew fs = fs target ≡ some (file new)

  abbrev pub IsWhole : Files → Type 0
  IsWhole fs = IsOld fs ⊎ IsNew fs

  abbrev pub IsWritten : Files → Type 0
  IsWritten fs = IsOld fs × (fs beside ≡ some (file new))

  kept : (fs : Files) (entry : Option Node) → IsOld fs → IsOld (update fs beside entry)
  kept fs entry p = rw apart p

  whole : (fs : Files) (entry : Option Node) → IsWhole fs → IsWhole (update fs beside entry)
  whole fs entry p = rw apart p

  old_whole : (fs : Files) → IsOld fs → IsWhole fs
  old_whole fs p = inl p

  abbrev written_whole : (fs : Files) → IsWritten fs → IsWhole fs
  written_whole fs p = inl p.0

  pub loosely :
      {A : Type 0} {P : Files → Type 0} {m : Io A} {Q : A → Files → Type 0}
      → ((fs : Files) → P fs → IsWhole fs)
      → Runs IsWhole P m Q P
      → Runs IsWhole P m Q IsWhole
  loosely safe h = Fill.loosely IsWhole IsOld old_whole beside kept whole new safe h

  pub Runs-drop_temp : Runs IsWhole IsWhole (ignore (remove beside)) (λ _. IsWhole) IsWhole
  Runs-drop_temp = Fill.Runs-drop_temp IsWhole IsOld old_whole beside kept whole new

  -- The temporary file is filled with what the source gives.
  pub Runs-fill_temp :
      (source : Io Bytes)
      → Runs IsWhole IsOld source (λ data' fs. IsOld fs × (data' ≡ new)) IsWhole
      → Runs IsWhole IsOld (fill_temp beside source) (λ _. IsWritten) IsWhole
  Runs-fill_temp source h =
      Fill.Runs-fill_temp IsWhole IsOld old_whole beside kept whole new source h

  -- The filled file is renamed into place.
  pub Runs-move_in : Runs IsWhole IsWritten (move_in beside target) (λ _. IsNew) IsWhole
  unfolding move_in
  Runs-move_in =
      Runs-on_error IsWhole (λ _. IsNew)
        (Runs-rename IsWhole IsWritten IsNew IsWhole beside target new (λ fs p. p.1)
          (λ fs p. update_same target (update fs beside none) (some (file new))) (λ fs p. inl p.0)
          (λ fs p. inl p.0))
        Runs-drop_temp

  -- The checks on both names in front of a save.
  pub Runs-check :
      (n : Name) → Runs IsWhole IsOld (reject_symlink_or_missing n) (λ _. IsOld) IsWhole
  Runs-check n = loosely old_whole (Runs-reject_symlink_or_missing IsWhole IsOld old_whole n)

  -- What follows the rename changes no file.
  pub Runs-sync-IsNew : Runs IsWhole IsNew sync_parent_dir (λ _. IsNew) IsWhole
  Runs-sync-IsNew = loosely (λ fs p. inr p) (Runs-sync_parent_dir IsWhole IsNew (λ fs p. inr p))

  pub Runs-chmod-IsNew : (n : Name) → Runs IsWhole IsNew (chmod n) (λ _. IsNew) IsWhole
  Runs-chmod-IsNew n = loosely (λ fs p. inr p) (Runs-chmod IsWhole IsNew (λ fs p. inr p) n)
