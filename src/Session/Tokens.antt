-- ===== src/Session/Tokens.antt =====
-- cmd/vault/token_manage_cli.go: making, revoking and cleaning up tokens.
pub mod Creation
pub mod Cleanup
use myminivault.Prelude.{
  ℕ, ◌*◌, ◌^◌, Bool, true, false, not, ◌&&◌, ◌||◌, List, [], ◌∷◌, Option, none, some, Bytes, codes,
  bytes_eq, is_empty, contains_text, cut_prefix, split_on, map, length, take, leb, ltb,
  if◌then◌else◌, Dict, lookup, insert, erase, entries, Result, ok, err, ◌>>=◌, ◌>>◌, fail_if,
  map_err, is_some, ◌+◌,
}
use myminivault.Prelude.Int.{ℤ, pos, leb_ℤ, ltb_ℤ, pos_part}
use myminivault.Model.{AccessToken, TokenManager, TokenRegistry, ExtendedVault, Time, after}
use myminivault.Commands.Space.{trim_space}
use myminivault.Token.Signed.{TokenLibrary, create_short_signed_token_v2}
use myminivault.Session.Mirror.{SharedFile, SyncError, sync_main_vault_to_shared_vault}

-- A duration is a number of nanoseconds.
pub record TokenCreationOptions : Type 0 where
  pub key_pattern : Bytes
  pub duration : ℤ
  pub permissions : List Bytes
  pub max_uses : ℤ

pub data CreationError : Type 0 where
  bad_max_uses missing_options colon_in_pattern bad_duration duration_not_positive : CreationError
  duration_too_long max_uses_not_positive invalid_permission : CreationError

-- `time.ParseDuration` and `strconv.Atoi`.
pub record CreationLibrary : Type 0 where
  pub parse_duration : Bytes → Option ℤ
  pub atoi : Bytes → Option ℤ

-- What the loop over the arguments has read.
pub record CreationText : Type 0 where
  pub keys : Bytes
  pub duration_text : Bytes
  pub permissions_text : Bytes
  pub uses : ℤ

abbrev pub no_text : CreationText
no_text = record { keys = []; duration_text = []; permissions_text = []; uses = pos 100 }

-- 24 hours.
abbrev pub max_duration : ℕ
max_duration = 86400 * 10 ^ 9

unfoldable pub is_permission : Bytes → Bool
is_permission permission = bytes_eq permission (codes "read") || bytes_eq permission (codes "write")

unfoldable pub all_permissions : List Bytes → Bool
all_permissions [] = true
all_permissions (permission ∷ permissions) = is_permission permission && all_permissions permissions

module _ (lib : CreationLibrary) where
  unfoldable pub read_creation_arg : CreationText → Bytes → Result CreationError CreationText
  read_creation_arg text arg = elim (cut_prefix arg (codes "--keys=")) [
    | some keys ↦ ok (record text { keys = keys })
    | none ↦ elim (cut_prefix arg (codes "--duration=")) [
      | some duration_text ↦ ok (record text { duration_text = duration_text })
      | none ↦ elim (cut_prefix arg (codes "--permissions=")) [
        | some permissions_text ↦ ok (record text { permissions_text = permissions_text })
        | none ↦ elim (cut_prefix arg (codes "--max-uses=")) [
          | none ↦ ok text
          | some uses_text ↦ elim (lib.atoi uses_text) [
            | none ↦ err bad_max_uses
            | some uses ↦ ok (record text { uses = uses })
          ]
        ]
      ]
    ]
  ]

  unfoldable pub read_creation_args : CreationText → List Bytes → Result CreationError CreationText
  read_creation_args text [] = ok text
  read_creation_args text (arg ∷ args) =
      read_creation_arg text arg >>= λ next. read_creation_args next args

  -- The tests after the loop.
  unfoldable pub check_creation : CreationText → Result CreationError TokenCreationOptions
  check_creation text = do
    fail_if (is_empty text.keys || is_empty text.duration_text) missing_options
    fail_if (contains_text text.keys (codes ":")) colon_in_pattern
    duration ← elim (lib.parse_duration text.duration_text) [
      | none ↦ err bad_duration
      | some d ↦ ok d
    ]
    fail_if (leb_ℤ duration (pos 0)) duration_not_positive
    fail_if (ltb_ℤ (pos max_duration) duration) duration_too_long
    fail_if (leb_ℤ text.uses (pos 0)) max_uses_not_positive
    let permissions =
        if is_empty text.permissions_text
        then codes "read" ∷ []
        else map trim_space (split_on b',' text.permissions_text)
    fail_if (not (all_permissions permissions)) invalid_permission
    ok (record {
      key_pattern = text.keys;
      duration = duration;
      permissions = permissions;
      max_uses = text.uses;
    })

  unfoldable pub parse_token_creation_options :
      List Bytes → Result CreationError TokenCreationOptions
  parse_token_creation_options args = read_creation_args no_text args >>= check_creation

-- The token of these options. A time is a number of nanoseconds, and the duration is positive.
unfoldable pub new_token : Bytes → TokenCreationOptions → Time → AccessToken
new_token token_id options now = record {
  token_id = token_id;
  key_pattern = options.key_pattern;
  expires_at = now + pos_part options.duration;
  permissions = options.permissions;
  usage_count = pos 0;
  max_uses = options.max_uses;
  created_at = now;
}

-- The token manager, made with this secret where there is none.
unfoldable pub with_manager : Option TokenManager → Bytes → TokenManager
with_manager none secret = record { tokens = some []; secret_key = secret }
with_manager (some manager) secret = manager

unfoldable pub add_token : TokenManager → AccessToken → TokenManager
add_token manager token = record manager {
  tokens = some (insert token.token_id token (entries manager.tokens));
}

-- The outcomes of the files: `LoadTokenRegistry` and `SaveTokenRegistry`, the save of the shared
-- vault, and the master key.
pub record CreationFiles : Type 0 where
  pub save_ok : Bool
  pub registry : Option TokenRegistry
  pub save_registry_ok : Bool
  pub master_key : Option Bytes

-- How `handleCreateToken` ends; the registry that cannot be loaded is a nil pointer, and so is a map
-- that is written.
pub data CreationEnd : Type 0 where
  bad_options : CreationError → CreationEnd
  no_arguments nil_map nil_registry registry_not_saved no_key : CreationEnd
  not_synced : SyncError → CreationEnd
  created : Bytes → CreationEnd

-- `handleCreateToken`: the vault in memory, the shared file, and how it ends.
module _ (lib : CreationLibrary) (tokens : TokenLibrary) (files : CreationFiles) where
  -- From the registry on.
  unfoldable pub register_token : AccessToken → CreationEnd
  register_token token = elim files.registry [
    | none ↦ nil_registry
    | some registry ↦ elim registry.tokens [
      | none ↦ nil_map
      | some registered ↦
          if files.save_registry_ok
          then elim files.master_key [
            | none ↦ no_key
            | some key ↦ created (create_short_signed_token_v2 tokens token key)
          ]
          else registry_not_saved
    ]
  ]

  unfoldable pub add_and_sync :
      ExtendedVault
      → SharedFile
      → TokenManager
      → AccessToken
      → ExtendedVault × SharedFile × CreationEnd
  add_and_sync vault shared manager token =
      let vault' = record vault { token_manager = some (add_token manager token) } in
      elim (sync_main_vault_to_shared_vault files.save_ok vault' shared) [
        | err e ↦ (vault', shared, not_synced e)
        | ok shared' ↦ (vault', shared', register_token token)
      ]

  unfoldable pub handle_create_token :
      List Bytes
      → Bytes
      → Bytes
      → Time
      → ExtendedVault
      → SharedFile
      → ExtendedVault × SharedFile × CreationEnd
  handle_create_token [] token_id secret now vault shared = (vault, shared, no_arguments)
  handle_create_token (arg ∷ args) token_id secret now vault shared =
      elim (parse_token_creation_options lib (arg ∷ args)) [
        | err e ↦ (vault, shared, bad_options e)
        | ok options ↦
            let manager = with_manager vault.token_manager secret in
            elim manager.tokens [
              | none ↦ (record vault { token_manager = some manager }, shared, nil_map)
              | some _ ↦ add_and_sync vault shared manager (new_token token_id options now)
            ]
      ]

-- `handleRevokeToken`: the vault in memory and the shared file, or the error of the mirror.
unfoldable pub handle_revoke_token :
    Bool → Bytes → ExtendedVault → SharedFile → ExtendedVault × Result SyncError SharedFile
handle_revoke_token save_ok token_id vault shared = elim vault.token_manager [
  | none ↦ (vault, ok shared)
  | some manager ↦
      if is_some (lookup token_id (entries manager.tokens))
      then (let vault' = record vault {
        token_manager =
            some (record manager { tokens = some (erase token_id (entries manager.tokens)) });
      } in
          (vault', sync_main_vault_to_shared_vault save_ok vault' shared))
      else (vault, ok shared)
]

-- The tokens that the loop of `cleanupExpiredTokens` leaves.
unfoldable pub live_tokens : Time → Dict AccessToken → Dict AccessToken
live_tokens now [] = []
live_tokens now ((token_id, token) ∷ tokens) =
    let rest = live_tokens now tokens in
    if after now token.expires_at || leb_ℤ token.max_uses token.usage_count
    then rest
    else (token_id, token) ∷ rest

-- `cleanupExpiredTokens`
unfoldable pub cleanup_expired_tokens :
    Bool → Time → ExtendedVault → SharedFile → ExtendedVault × Result SyncError SharedFile
cleanup_expired_tokens save_ok now vault shared = elim vault.token_manager [
  | none ↦ (vault, ok shared)
  | some manager ↦
      let live = live_tokens now (entries manager.tokens) in
      if ltb (length live) (length (entries manager.tokens))
      then (let vault' = record vault {
        token_manager = some (record manager { tokens = some live });
      } in
          (vault', sync_main_vault_to_shared_vault save_ok vault' shared))
      else (vault, ok shared)
]

unfoldable pub short_token_id : Bytes → Bytes
short_token_id token_id = if leb (length token_id) 8 then token_id else take 8 token_id
