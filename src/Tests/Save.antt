-- ===== src/Tests/Save.antt =====
-- A save over a vault whose process stops in the middle, and the load that follows.
use myminivault.Prelude.{◌≡◌, ◌⊎◌, refl, inl, inr, none, some, ok, [], ◌∷◌, codes, bytes_eq}
use myminivault.Files
use myminivault.Files.{
  calm, Name, primary, backup, temp, transaction, recovery, recovery_temp, Node, Files, World, file,
  done, failed, stopped,
}
use myminivault.Files.Hoare.{Post}
use myminivault.Container.{
  wrap, associated_data, is_unknown, kind_name, kind_main_vault, default_metadata,
  normalize_metadata,
}
use myminivault.Storage.Profile.{container_metadata}
use myminivault.Config.{default_config, kdf_config}
use myminivault.Storage.Save.{save_file_atomic}
use myminivault.Storage.Save.Undo.{IsSafe, IsSaved}
use myminivault.Storage.Save.Crash.{save_file_atomic-IsSafe}
use myminivault.Storage.Save.Calm.{IsClean, save_file_atomic-done}
use myminivault.Storage.Load.{load_bytes}
use myminivault.Storage.Load.Recovery.{load_bytes-save_file_atomic}
use myminivault.Container.{parse, parse_legacy, legacy_too_short}
use myminivault.Storage.Codec.{load_bytes_from_data, container}
use myminivault.Storage.Load.Marker.{load_bytes-overwritten}
use myminivault.Tests.Storage.{library, options, vault, vault_file, sealed_text, vault_file-opens}

abbrev only_primary : Files
only_primary primary = some (file (vault_file (codes "old.")))
only_primary _ = none

-- The process stops at the rename of the new vault.
abbrev interrupted : World
interrupted = record {
  files = only_primary;
  schedule =
      done
      ∷ done
      ∷ done
      ∷ done
      ∷ done
      ∷ done
      ∷ done
      ∷ done
      ∷ done
      ∷ done
      ∷ done
      ∷ done
      ∷ done
      ∷ done
      ∷ done
      ∷ done
      ∷ done
      ∷ done
      ∷ stopped 0
      ∷ [];
}

wrapped :
    wrap library.marshal_metadata kind_main_vault
      (codes "new.")
      sealed_text
      (container_metadata 4 (kdf_config default_config) ∷ [])
    ≡ ok (vault_file (codes "new."))
unfolding wrap associated_data is_unknown kind_name bytes_eq default_metadata normalize_metadata
    container_metadata kdf_config
wrapped = refl

save_file_atomic-IsSafe_example :
    let run =
      save_file_atomic library.marshal_metadata
        (codes "now")
        (codes "new.")
        sealed_text
        (container_metadata 4 (kdf_config default_config) ∷ [])
        interrupted in
    let old = vault_file (codes "old.") in
    let new = vault_file (codes "new.") in
    Post (λ _. IsSaved old new) (IsSafe old new) (IsSafe old new) run.0 run.1.files
save_file_atomic-IsSafe_example =
    save_file_atomic-IsSafe library.marshal_metadata (codes "now") (codes "new.") sealed_text
      (container_metadata 4 (kdf_config default_config) ∷ []) (vault_file (codes "old."))
      (vault_file (codes "new.")) interrupted wrapped refl

only_primary-IsClean : IsClean only_primary
only_primary-IsClean = record { no_temp = refl; no_transaction = refl; backup_file = inl refl }

save_file_atomic-done_example :
    let run =
      save_file_atomic library.marshal_metadata
        (codes "now")
        (codes "new.")
        sealed_text
        (container_metadata 4 (kdf_config default_config) ∷ [])
        (calm only_primary) in
    (run.0 ≡ Files.ok tt) × (run.1.files primary ≡ some (file (vault_file (codes "new."))))
save_file_atomic-done_example =
    save_file_atomic-done library.marshal_metadata (codes "now") (codes "new.") sealed_text
      (container_metadata 4 (kdf_config default_config) ∷ []) only_primary
      (vault_file (codes "new.")) only_primary-IsClean (inr (vault_file (codes "old."), refl))
      wrapped

load_bytes-save_file_atomic_example :
    let left =
      (save_file_atomic library.marshal_metadata
        (codes "now")
        (codes "new.")
        sealed_text
        (container_metadata 4 (kdf_config default_config) ∷ [])
        interrupted).1.files in
    let loaded = (load_bytes library (codes "password") options 9 (codes "rand") (calm left)).0 in
    (loaded ≡ Files.ok (vault, codes "old.")) ⊎ (loaded ≡ Files.ok (vault, codes "new."))
load_bytes-save_file_atomic_example =
    load_bytes-save_file_atomic library (codes "password") options 9 (codes "rand")
      library.marshal_metadata (codes "now") (codes "new.") sealed_text
      (container_metadata 4 (kdf_config default_config) ∷ []) (vault_file (codes "old."))
      (vault_file (codes "new.")) (vault, codes "old.") (vault, codes "new.") interrupted wrapped
      refl (vault_file-opens 111 108 100 46) (vault_file-opens 110 101 119 46)

-- A vault that does not open, a backup that does, and the marker.
abbrev marked : Files
marked primary = some (file (codes "x"))
marked backup = some (file (vault_file (codes "old.")))
marked transaction = some (file (codes "now"))
marked _ = none

load_bytes-overwritten_example :
    let run = load_bytes library (codes "password") options 9 (codes "rand") (calm marked) in
    (run.0 ≡ Files.ok (vault, codes "old."))
    × (run.1.files primary ≡ some (file (vault_file (codes "old."))))
    × (run.1.files backup ≡ none)
    × (run.1.files transaction ≡ none)
unfolding load_bytes_from_data parse parse_legacy bytes_eq
load_bytes-overwritten_example =
    load_bytes-overwritten library (codes "password") options 9 (codes "rand") marked (codes "x")
      (vault_file (codes "old.")) (container legacy_too_short) (vault, codes "old.")
      (file (codes "now")) refl refl refl refl (vault_file-opens 111 108 100 46)
