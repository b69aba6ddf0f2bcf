-- ===== src/Rollback/Detection.antt =====
-- After a save, every older copy of the vault is reported.
use myminivault.Prelude.{
  zero, suc, ◌≡◌, refl, sym, subst, ◌∙◌, false, Option, none, some, arith, Bytes, bytes_eq,
  bytes_eq_iff, is_empty, codes, ok, ◌>>=◌, >>=-eq-ok, if◌then◌else◌,
}
use myminivault.Prelude.Int.{ℤ, pos, negsuc, inc64, ◌≤ℤ◌, ◌<ℤ◌, max_int64}
use myminivault.Model.{VaultMetadata, Time}
use myminivault.Rollback.{
  State, all_right, warn, fail, possible_rollback, ensure_metadata, prepare_next_revision,
  check_with_mode, save_state, save_revision,
}

inc64_lt : (n : ℤ) → n <ℤ pos max_int64 → n <ℤ inc64 n
unfolding inc64
inc64_lt (pos n) h = ground arith
inc64_lt (negsuc zero) h = omega arith
inc64_lt (negsuc (suc n)) h = omega arith

-- The state of a vault that has been saved.
pub record IsTrusted (meta : VaultMetadata) (state : State) : Type 0 where
  pub has_id : is_empty meta.vault_id ≡ false
  pub same_id : state.vault_id ≡ meta.vault_id
  pub positive : pos 1 ≤ℤ meta.revision
  pub at_revision : state.highest_revision ≡ meta.revision

-- The trusted revision is not the largest `int64`.
abbrev pub HasRoom : Option State → Type 0
HasRoom none = Unit
HasRoom (some s) = s.highest_revision <ℤ pos max_int64

-- The state speaks of the vault `id` and trusts only revisions below `revision`.
abbrev pub IsBelow : Option State → Bytes → ℤ → Type 0
IsBelow none id revision = Unit
IsBelow (some s) id revision = s.vault_id ≡ id → s.highest_revision <ℤ revision

-- The next revision of a vault is at least one and above every revision that the trusted state has
-- for this vault; a vault that has an identity and a revision keeps the first and passes the second.
-- This holds as long as neither number is the largest `int64`.
pub prepare_next_revision-IsFresh :
    (id : Option Bytes) (meta meta' : VaultMetadata) (state : Option State)
    → meta.revision <ℤ pos max_int64
    → HasRoom state
    → prepare_next_revision id meta state ≡ ok meta'
    → (pos 1 ≤ℤ meta'.revision)
      × IsBelow state meta'.vault_id meta'.revision
      × (is_empty meta.vault_id ≡ false
          → pos 1 ≤ℤ meta.revision
          → (meta'.vault_id ≡ meta.vault_id) × (meta.revision <ℤ meta'.revision))
unfolding prepare_next_revision ensure_metadata
prepare_next_revision-IsFresh id meta meta' none m room h =
    (ground (arith, inc64_lt meta.revision m), tt, λ i p. ground (arith, inc64_lt meta.revision m))
prepare_next_revision-IsFresh id meta meta' (some s) m room h = (
  ground (arith, inc64_lt meta.revision m, inc64_lt s.highest_revision room),
  λ same. ground (
    arith,
    bytes_eq_iff s.vault_id meta'.vault_id,
    inc64_lt meta.revision m,
    inc64_lt s.highest_revision room,
  ),
  λ i p. ground (arith, inc64_lt meta.revision m, inc64_lt s.highest_revision room),
)

-- A run of saves of one vault, each below the largest revision.
pub data Saves (start : VaultMetadata × Option State) : VaultMetadata × Option State → Type 0 where
  here : Saves start start
  next :
      {meta : VaultMetadata} {state : Option State} {after_save : VaultMetadata × Option State}
      → Saves start (meta, state)
      → (id : Option Bytes) (now : Time) → meta.revision <ℤ pos max_int64
      → save_revision id now (meta, state) ≡ ok after_save
      → Saves start after_save

-- The vault and the state after a run: trusted, and not behind `start`.
abbrev Follows : VaultMetadata → VaultMetadata × Option State → Type 0
Follows start (meta, none) = ⊥
Follows start (meta, some state) =
    IsTrusted meta state × (meta.vault_id ≡ start.vault_id) × (start.revision ≤ℤ meta.revision)

pub save_state-IsTrusted :
    (meta : VaultMetadata) (now : Time) (state : State)
    → save_state meta now ≡ ok state
    → IsTrusted meta state
unfolding save_state
save_state-IsTrusted meta now state h = ground arith

save_revision_parts :
    (id : Option Bytes) (now : Time) (meta meta' : VaultMetadata) (state state' : Option State)
    → save_revision id now (meta, state) ≡ ok (meta', state')
    → (s : State) × (prepare_next_revision id meta state ≡ ok meta')
      × (save_state meta' now ≡ ok s)
      × (state' ≡ some s)
unfolding save_revision
save_revision_parts id now meta meta' state state' h =
    let (prepared, e₁, h₁) =
      >>=-eq-ok (prepare_next_revision id meta state)
        (λ m. save_state m now >>= λ s. ok (m, some s)) h in
    let (s, e₂, h₂) = >>=-eq-ok (save_state prepared now) (λ s. ok (prepared, some s)) h₁ in
    let same : prepared ≡ meta' = ground arith in (s, rw same at e₁, rw same at e₂, ground arith)

-- One save from a trusted vault.
save_revision-step :
    (id : Option Bytes) (now : Time) (meta meta' : VaultMetadata) (state state' : State)
    → IsTrusted meta state
    → meta.revision <ℤ pos max_int64
    → prepare_next_revision id meta (some state) ≡ ok meta'
    → save_state meta' now ≡ ok state'
    → IsTrusted meta' state' × (meta'.vault_id ≡ meta.vault_id) × (meta.revision <ℤ meta'.revision)
save_revision-step id now meta meta' state state' t m p s =
    let (low, below, kept) =
      prepare_next_revision-IsFresh id meta meta' (some state) m
        (subst (λ r. r <ℤ pos max_int64) (sym t.at_revision) m) p in
    let (id_kept, grown) = kept t.has_id t.positive in
    (save_state-IsTrusted meta' now state' s, id_kept, grown)

-- Every run of saves from a trusted vault ends in a trusted vault.
Saves-Follows :
    (meta : VaultMetadata) (state : State) {end : VaultMetadata × Option State}
    → IsTrusted meta state
    → Saves (meta, some state) end
    → Follows meta end
Saves-Follows meta state t here = (t, refl, omega arith)
Saves-Follows meta state t (next {meta = m} {state = none} run id now room h) =
    absurd (Saves-Follows meta state t run)
Saves-Follows meta state t
      (next {meta = m} {state = some s} {after_save = (m', s')} run id now room h) =
    let (trusted, same, grown) = Saves-Follows meta state t run in
    let (saved, prepared, stored, e) = save_revision_parts id now m m' (some s) s' h in
    let (trusted', same', grown') =
      save_revision-step id now m m' s saved trusted room prepared stored in
    subst (λ o. Follows meta (m', o)) (sym e) (trusted', same' ∙ same, omega arith)

pub check_at_state :
    (meta : VaultMetadata) (state : State) (mode : Bytes)
    → IsTrusted meta state
    → (check_with_mode (ok state) meta mode).status ≡ all_right
unfolding check_with_mode
check_at_state meta state mode t = ground (
  arith,
  bytes_eq_iff state.vault_id meta.vault_id,
  t.has_id,
  t.same_id,
  t.positive,
  t.at_revision,
)

check_older :
    (old meta : VaultMetadata) (state : State) (mode : Bytes)
    → IsTrusted meta state
    → is_empty old.vault_id ≡ false
    → meta.vault_id ≡ old.vault_id
    → pos 1 ≤ℤ old.revision
    → old.revision <ℤ meta.revision
    → check_with_mode (ok state) old mode ≡ record {
      status = if bytes_eq mode (codes "block") then fail else warn;
      detail = possible_rollback old.revision meta.revision;
      state = some state;
    }
unfolding check_with_mode
check_older old meta state mode t i same low less =
    ground (arith, bytes_eq_iff state.vault_id old.vault_id, t.same_id, t.at_revision)

-- After one or more saves of a vault that had been saved before, the check of the current vault is
-- fine, and the check of any older copy reports a possible rollback with both revisions: a failure
-- in block mode and a warning in every other. This holds below the largest revision.
pub rollback_detected :
    (old : VaultMetadata) (state : State) {meta : VaultMetadata} {trusted : Option State}
    → (id : Option Bytes) (now : Time) (meta' : VaultMetadata) (state' : State) (mode : Bytes)
    → IsTrusted old state
    → Saves (old, some state) (meta, trusted)
    → meta.revision <ℤ pos max_int64
    → save_revision id now (meta, trusted) ≡ ok (meta', some state')
    → ((check_with_mode (ok state') meta' mode).status ≡ all_right)
      × (check_with_mode (ok state') old mode ≡ record {
        status = if bytes_eq mode (codes "block") then fail else warn;
        detail = possible_rollback old.revision meta'.revision;
        state = some state';
      })
rollback_detected old state {trusted = none} id now meta' state' mode t run room h =
    absurd (Saves-Follows old state t run)
rollback_detected old state {meta} {trusted = some s} id now meta' state' mode t run room h =
    let (at_meta, same, grown) = Saves-Follows old state t run in
    let (saved, prepared, stored, e) =
      save_revision_parts id now meta meta' (some s) (some state') h in
    let (trusted', same', grown') =
      save_revision-step id now meta meta' s saved at_meta room prepared stored in
    let current : IsTrusted meta' state' = subst (λ x. IsTrusted meta' x) (cc) trusted' in
    (
      check_at_state meta' state' mode current,
      check_older old meta' state' mode current t.has_id (same' ∙ same) t.positive (omega arith),
    )
