-- ===== src/Session/Run/Written.antt =====
-- What `set` leaves in the file of the main vault.
use myminivault.Prelude.{
  ap, ◌≢◌, ◌∙◌, ◌≡◌, refl, sym, Bool, true, false, [], ◌∷◌, is_some, Bytes, codes, bytes_eq, some,
  none, Dict, insert, lookup, lookup-insert, entries, if◌then◌else◌, arith, Bool-cases,
  Option-cases, Result-cases, inl, inr, ok,
}
use myminivault.Model.{ExtendedVault, Time}
use myminivault.Rollback.{prepare_next_revision, save_state}
use myminivault.Commands.Import.{validate_key}
use myminivault.Sync.{
  mark_key_updated_at, import_shared_vault, import_values, import_deletions, import_value,
  import_deletion, no_changes, sync_deleted, mark_key_deleted_at, ImportResult,
}
use myminivault.Session.Mirror.{
  SharedFile, missing, stat_failed, unreadable, readable, import_shared_vault_to_main_vault,
  has_imported_token_changes,
}
use myminivault.Session.Tokens.{cleanup_expired_tokens}
use myminivault.Session.Handlers.{handle_set_command, set_value}
use myminivault.Session.State.{
  World, Setting, save_vault, known_state, mark_recovery_snapshot_revision,
  save_extended_vault_bytes,
}
use myminivault.Session.Execute.{execute_set, execute_password_command}
use myminivault.Session.Run.{
  enforce_rollback_state, run_password_command_bytes, import_before, cleanup_before,
  record_password_command_access, mirror_after, finish,
}

contents-mark_recovery :
    (will_refresh : Bool) (now : Time) (vault : ExtendedVault)
    → (mark_recovery_snapshot_revision will_refresh now vault).contents ≡ vault.contents
unfolding mark_recovery_snapshot_revision
contents-mark_recovery will_refresh now vault = ground arith

-- The map of values is there, and stays there in an import.
abbrev is_made : ExtendedVault → Bool
is_made vault = is_some vault.contents

made_import_values :
    (now : Time) (shared : ExtendedVault) (rest : Dict Bytes) (acc : ExtendedVault × ImportResult)
    → is_made acc.0 ≡ true
    → is_made (import_values now shared rest acc).0 ≡ true
unfolding import_values import_value mark_key_updated_at
made_import_values now shared [] acc h = h
made_import_values now shared ((k, v) ∷ rest) acc h =
    made_import_values now shared rest (import_value now shared k v acc) (ground arith)

made_import_deletions :
    (now : Time) (rest : Dict Time) (acc : ExtendedVault × ImportResult)
    → is_made acc.0 ≡ true
    → is_made (import_deletions now rest acc).0 ≡ true
unfolding import_deletions import_deletion mark_key_deleted_at
made_import_deletions now [] acc h = h
made_import_deletions now ((k, t) ∷ rest) acc h =
    made_import_deletions now rest (import_deletion now k t acc) (ground arith)

made_import :
    (main shared : ExtendedVault) (now : Time)
    → is_made (import_shared_vault main shared now).0 ≡ true
unfolding import_shared_vault
made_import main shared now =
    let start = record main { contents = some (entries main.contents) } in
    made_import_deletions now (sync_deleted shared)
      (import_values now shared (entries shared.contents) (start, no_changes))
      (made_import_values now shared (entries shared.contents) (start, no_changes) refl)

made_import_to_main :
    (main main' : ExtendedVault) (file : SharedFile) (now : Time) (r : ImportResult)
    → is_made main ≡ true
    → import_shared_vault_to_main_vault main file now ≡ ok (main', r)
    → is_made main' ≡ true
unfolding import_shared_vault_to_main_vault
made_import_to_main main main' missing now r h e = ground arith
made_import_to_main main main' stat_failed now r h e = ground arith
made_import_to_main main main' (unreadable x) now r h e = ground arith
made_import_to_main main main' (readable shared) now r h e =
    ground (arith, made_import main shared now)

module _ (s : Setting) where
  -- A save without an error stores the values of the vault.
  contents-save :
      (vault : ExtendedVault) (world world' : World)
      → save_extended_vault_bytes s vault world ≡ (world', none)
      → world'.stored.contents ≡ vault.contents
  unfolding save_extended_vault_bytes
  contents-save vault world world' h =
      elim (Result-cases
        (prepare_next_revision s.new_id vault.metadata (known_state world.trusted))) [
          | inl (e, p) ↦ ground arith
          | inr (metadata, p) ↦
              let marked =
                contents-mark_recovery s.will_refresh s.now
                  (record vault { metadata = metadata }) in
              elim (Result-cases (save_state metadata s.now)) [
                | inl (e, q) ↦ ground arith
                | inr (state, q) ↦ ground arith
              ]
        ]

  contents-finish :
      (changed mirror : Bool) (vault : ExtendedVault) (world world' : World)
      → finish s changed vault world (save_vault mirror) ≡ (world', none)
      → world'.stored.contents ≡ vault.contents
  unfolding finish mirror_after
  contents-finish changed mirror vault world world' h =
      let saved = (save_extended_vault_bytes s vault world).0 in
      elim (Option-cases (save_extended_vault_bytes s vault world).1) [
        | inr (e, f) ↦ ground arith
        | inl f ↦
            let same : world'.stored ≡ saved.stored = ground arith in
            ap (λ v. v.contents) same ∙ contents-save vault world saved (ap (λ o. (saved, o)) f)
      ]

  contents-cleanup_before :
      (vault : ExtendedVault) (shared : SharedFile)
      → (cleanup_before s vault shared).0.contents ≡ vault.contents
  unfolding cleanup_before cleanup_expired_tokens
  contents-cleanup_before vault shared = ground arith

  made_import_before :
      (vault : ExtendedVault) (shared : SharedFile)
      → is_made vault ≡ true
      → is_made (import_before s vault shared).0 ≡ true
  unfolding import_before
  made_import_before vault shared h =
      elim (Result-cases (import_shared_vault_to_main_vault vault shared s.now)) [
        | inl (e, f) ↦ ground arith
        | inr ((vault', r), f) ↦ ground (arith, made_import_to_main vault vault' shared s.now r h f)
      ]

  -- The vault and what is left to do, after the handler.
  execute_set-done :
      (vault : ExtendedVault) (shared : SharedFile) (key arg v : Bytes) (values : Dict Bytes)
      → s.args ≡ key ∷ arg ∷ []
      → set_value arg s.stdin ≡ some v
      → validate_key key ≡ ok tt
      → vault.contents ≡ some values
      → execute_set s vault shared ≡ (
        mark_key_updated_at
            (record vault { contents = some (insert key v values) })
            key
            (s.clock key),
        shared,
        save_vault true,
      )
  unfolding execute_set handle_set_command
  execute_set-done vault shared key arg v values a given valid c =
      let handled : handle_set_command s.args s.stdin vault.contents
          ≡ (some (insert key v values), some key) =
        ap (λ args. handle_set_command args s.stdin vault.contents) a
        ∙ ap (handle_set_command (key ∷ arg ∷ []) s.stdin) c
        ∙ ground arith in
      ground (arith, handled)

  executes_set :
      (vault : ExtendedVault) (shared : SharedFile)
      → s.command ≡ codes "set"
      → execute_password_command s vault shared ≡ execute_set s vault shared
  unfolding execute_password_command bytes_eq
  executes_set vault shared c =
      let named : bytes_eq s.command (codes "set") ≡ true =
        ap (λ name. bytes_eq name (codes "set")) c in
      rw named refl

  -- The vault that the command itself works on, and the shared file then.
  abbrev prepared : World → ExtendedVault × SharedFile
  prepared world =
      let (cleaned, shared) =
        cleanup_before s (import_before s world.stored world.shared).0 world.shared in
      ((record_password_command_access s cleaned world).0, shared)

  -- The files with the new entry of the audit log.
  abbrev logged : World → World
  logged world =
      let (cleaned, shared) =
        cleanup_before s (import_before s world.stored world.shared).0 world.shared in
      (record_password_command_access s cleaned world).1

  runs_set :
      (world : World)
      → s.command ≡ codes "set"
      → enforce_rollback_state s world ≡ false
      → run_password_command_bytes s world ≡ (
          let (vault, shared, outcome) = execute_set s (prepared world).0 (prepared world).1 in
          finish s
            (has_imported_token_changes (import_before s world.stored world.shared).1)
            vault
            (record (logged world) { shared = shared })
            outcome)
  unfolding run_password_command_bytes bytes_eq
  runs_set world c r =
      let other : bytes_eq s.command (codes "rollback-accept") ≡ false =
        ap (λ name. bytes_eq name (codes "rollback-accept")) c in
      rw (other, r, executes_set (prepared world).0 (prepared world).1 c) refl

  refused_set :
      (world world' : World)
      → s.command ≡ codes "set"
      → enforce_rollback_state s world ≡ true
      → run_password_command_bytes s world ≢ (world', none)
  unfolding run_password_command_bytes bytes_eq
  refused_set world world' c r h =
      let other : bytes_eq s.command (codes "rollback-accept") ≡ false =
        ap (λ name. bytes_eq name (codes "rollback-accept")) c in
      ground arith

  contents-prepared :
      (world : World)
      → (prepared world).0.contents ≡ (import_before s world.stored world.shared).0.contents
  unfolding record_password_command_access
  contents-prepared world =
      contents-cleanup_before (import_before s world.stored world.shared).0 world.shared

  -- After a `set` of a valid key that ends without an error, with the value as an argument or read from
  -- stdin, the stored vault has the value at the key, and at every other key what it had after the
  -- import of the shared vault. This needs a stored vault with a map of values.
  pub run_password_command_bytes-set :
      (world world' : World) (key arg v j : Bytes) (values : Dict Bytes)
      → s.command ≡ codes "set"
      → s.args ≡ key ∷ arg ∷ []
      → set_value arg s.stdin ≡ some v
      → validate_key key ≡ ok tt
      → world.stored.contents ≡ some values
      → run_password_command_bytes s world ≡ (world', none)
      → lookup j (entries world'.stored.contents) ≡ (
          if bytes_eq key j
          then some v
          else lookup j (entries (import_before s world.stored world.shared).0.contents))
  unfolding mark_key_updated_at
  run_password_command_bytes-set world world' key arg v j values c a given valid some_values h =
      elim (Bool-cases (enforce_rollback_state s world)) [
        | inl r ↦ absurd (refused_set world world' c r h)
        | inr r ↦
            let imported = (import_before s world.stored world.shared).0 in
            elim (Option-cases imported.contents) [
              | inl n ↦ ground (arith, made_import_before world.stored world.shared)
              | inr (values', e) ↦
                  let done =
                    execute_set-done (prepared world).0 (prepared world).1 key arg v values' a given
                      valid (contents-prepared world ∙ e) in
                  let finished = contents-finish _ true _ _ world' (
                    sym (
                      ap
                        (λ x.
                          finish s
                            (has_imported_token_changes
                              (import_before s world.stored world.shared).1)
                            x.0 (record (logged world) { shared = x.1 }) x.2)
                        done)
                    ∙ sym (runs_set world c r)
                    ∙ h) in
                  ap (λ o. lookup j (entries o)) finished
                  ∙ lookup-insert key j v values'
                  ∙ rw e refl
            ]
      ]
