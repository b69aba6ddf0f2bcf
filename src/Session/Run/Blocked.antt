-- ===== src/Session/Run/Blocked.antt =====
-- An older copy of the vault, under the mode that blocks.
use myminivault.Prelude.{
  ◌≡◌, refl, true, false, codes, Bytes, bytes_eq, none, some, Option, ok, arith, Result-cases, inl,
  inr,
}
use myminivault.Prelude.Int.{pos, ◌<ℤ◌, max_int64}
use myminivault.Model.{VaultMetadata, Time}
use myminivault.Rollback.{State, all_right, fail, check_with_mode, save_revision, save_state}
use myminivault.Rollback.Detection.{
  IsTrusted, Saves, rollback_detected, check_at_state, save_state-IsTrusted,
}
use myminivault.Session.State.{World, Setting, rollback_failed}
use myminivault.Session.Run.{
  enforce_rollback_state, accept_rollback_state, run_password_command_bytes,
}

-- `s` with the command that accepts the vault.
abbrev pub accepting : Setting → Setting
accepting s = record s { command = codes "rollback-accept" }

-- `world` with other metadata in the stored vault.
abbrev pub with_metadata : VaultMetadata → World → World
with_metadata meta world = record world { stored = record world.stored { metadata = meta } }

refuses :
    (s : Setting) (world : World)
    → s.rollback_mode ≡ codes "block"
    → (check_with_mode world.trusted world.stored.metadata (codes "block")).status ≡ fail
    → enforce_rollback_state s world ≡ true
unfolding enforce_rollback_state bytes_eq
refuses s world m f = rw (m, f) refl

lets_through :
    (s : Setting) (world : World)
    → (check_with_mode world.trusted world.stored.metadata (codes "block")).status ≡ all_right
    → enforce_rollback_state s world ≡ false
unfolding enforce_rollback_state
lets_through s world f = ground (arith, f)

blocked :
    (s : Setting) (world : World)
    → bytes_eq s.command (codes "rollback-accept") ≡ false
    → enforce_rollback_state s world ≡ true
    → run_password_command_bytes s world ≡ (world, some rollback_failed)
unfolding run_password_command_bytes
blocked s world c r = rw (c, r) refl

accepts :
    (s : Setting) (world world' : World)
    → run_password_command_bytes (accepting s) world ≡ (world', none)
    → (state : State) × (save_state world.stored.metadata s.now ≡ ok state)
      × (world' ≡ record world { trusted = ok state })
unfolding run_password_command_bytes accept_rollback_state bytes_eq
accepts s world world' h = elim (Result-cases (save_state world.stored.metadata s.now)) [
  | inl (e, f) ↦ ground arith
  | inr (state, f) ↦ (state, f, ground arith)
]

-- A copy of the vault from before one or more saves stands in its place, and the trusted state is that of
-- the last save. Under the mode that blocks, every command but the one that accepts it ends in an error
-- and changes no file. The vault of the last save is not refused, and neither is the copy once it
-- was accepted without an error. The vault was saved before and is below the largest revision.
pub run_password_command_bytes-rolled_back :
    (s : Setting) (world : World) (old : VaultMetadata) (state : State) {meta : VaultMetadata}
    {trusted : Option State} (id : Option Bytes) (now : Time) (meta' : VaultMetadata)
    (state' : State)
    → IsTrusted old state
    → Saves (old, some state) (meta, trusted)
    → meta.revision <ℤ pos max_int64
    → save_revision id now (meta, trusted) ≡ ok (meta', some state')
    → s.rollback_mode ≡ codes "block"
    → bytes_eq s.command (codes "rollback-accept") ≡ false
    → world.stored.metadata ≡ old
    → world.trusted ≡ ok state'
    → (run_password_command_bytes s world ≡ (world, some rollback_failed))
      × (enforce_rollback_state s (with_metadata meta' world) ≡ false)
      × ((world' : World)
          → run_password_command_bytes (accepting s) world ≡ (world', none)
          → enforce_rollback_state s world' ≡ false)
unfolding bytes_eq
run_password_command_bytes-rolled_back s world old state id now meta' state' t run room h m c at_old
      at_state =
    let (current, older) =
      rollback_detected old state id now meta' state' (codes "block") t run room h in
    (
      blocked s world c (refuses s world m (rw (at_old, at_state, older) refl)),
      lets_through s (with_metadata meta' world) (rw at_state current),
      λ world' done.
          let (accepted, saved, same) = accepts s world world' done in
          rw same (
            lets_through s (record world { trusted = ok accepted })
              (check_at_state world.stored.metadata accepted (codes "block")
                (save_state-IsTrusted world.stored.metadata s.now accepted saved))),
    )
