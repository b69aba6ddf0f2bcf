-- ===== src/Storage/Load/Marker.antt =====
-- A vault that does not open, beside the marker of an interrupted save.
use myminivault.Prelude.{◌≡◌, refl, Bytes, none, some}
use myminivault.Prelude
use myminivault.Files
use myminivault.Model.{ExtendedVault, Time}
use myminivault.Storage.Codec.{Library, Options, CodecError, load_bytes_from_data}
use myminivault.Storage.Load.{
  attempt, attempt_exit, decoded, load_file_bytes, load_bytes, after_primary,
  recover_interrupted_save, unless_recovered,
}
use myminivault.Storage.Load.Recovery.{read_checked-found, recover_if-found}
use myminivault.Files.{
  calm, Files, Node, file, Name, primary, backup, transaction, name_eq, stat_exists, call, pure,
  raise, ◌>>=◌,
}

module _ (lib : Library) (password : Bytes) (opts : Options) (now : Time)
    (random_salt : Bytes) where
  load_file_bytes-refused :
      (n : Name) (fs : Files) (content : Bytes) (e : CodecError)
      → fs n ≡ some (file content)
      → load_bytes_from_data lib content password opts now ≡ Prelude.err e
      → load_file_bytes lib password opts now n (calm fs) ≡ (Files.err Files.bad_container, calm fs)
  unfolding load_file_bytes decoded raise ◌>>=◌
  load_file_bytes-refused n fs content e p h = rw (read_checked-found n fs content p) (rw h refl)

  -- Where the marker of an interrupted save is there, the vault does not open under the password and
  -- the backup does, a load in which every call is carried out returns the backup, and the vault is
  -- overwritten by it: the backup, the marker and what was in place are gone.
  pub load_bytes-overwritten :
      (fs : Files) (current kept : Bytes) (e : CodecError) (opened : ExtendedVault × Bytes)
      (marker : Node)
      → fs primary ≡ some (file current)
      → fs backup ≡ some (file kept)
      → fs transaction ≡ some marker
      → load_bytes_from_data lib current password opts now ≡ Prelude.err e
      → load_bytes_from_data lib kept password opts now ≡ Prelude.ok opened
      → let run = load_bytes lib password opts now random_salt (calm fs) in
        (run.0 ≡ Files.ok opened)
        × (run.1.files primary ≡ some (file kept))
        × (run.1.files backup ≡ none)
        × (run.1.files transaction ≡ none)
  unfolding load_bytes attempt attempt_exit after_primary recover_interrupted_save stat_exists call
      pure unless_recovered name_eq ◌>>=◌
  load_bytes-overwritten fs current kept e opened marker p b t refused h =
      rw (load_file_bytes-refused primary fs current e p refused) (
        rw t (
          rw
            (recover_if-found lib password opts now random_salt fs kept opened Files.bad_container b
              (rw p refl) h)
            (refl, refl, refl, refl)))
