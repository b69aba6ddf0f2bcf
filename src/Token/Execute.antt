-- ===== src/Token/Execute.antt =====
-- cmd/vault/token_execute_cli.go: the commands that a token may run on the shared vault.
pub mod Request
pub mod Counting
pub mod Confined
pub mod Limits
use myminivault.Prelude.{
  Bool, true, false, not, ◌&&◌, ◌||◌, List, [], ◌∷◌, map, Option, none, some, Bytes, codes,
  bytes_eq, contains_text, if◌then◌else◌, Dict, lookup, insert, entries, Result, ok, err, ◌>>=◌,
  ◌>>◌, fail_if, map_err,
}
use myminivault.Prelude.Int.{inc64}
use myminivault.Model.{AccessToken, TokenManager, ExtendedVault, Time}
use myminivault.Commands.Import.{KeyError, validate_key}
use myminivault.Commands.Export.{bytes_le, sort_strings}
use myminivault.Sync.{mark_key_updated_at}
use myminivault.Storage.Codec.{CodecError}
use myminivault.Token.{contains}
use myminivault.Token.Signed.{TokenLibrary, TokenError, parse_and_validate_production_token}
use myminivault.Token.Pattern.{match_key_pattern}

-- The errors of a token command; `nil_map` stands for the panic of a write to a nil map.
pub data UseError : Type 0 where
  usage no_show no_read_permission no_write_permission : UseError
  pattern_error key_not_allowed key_not_found : UseError
  invalid_key : KeyError → UseError
  no_manager token_not_found save_failed nil_map not_allowed : UseError

-- The errors of `executeWithToken`.
pub data RunError : Type 0 where
  validation_failed : TokenError → RunError
  use_failed : UseError → RunError

-- What a successful command prints.
pub data Shown : Type 0 where
  value : Bytes → Bytes → Shown
  was_set : Bytes → Shown
  listed : Bytes → List Bytes → Shown
  found : Bytes → Dict Bytes → Shown

-- `regexp.MatchString` and `strings.ToLower`.
pub record UseLibrary : Type 0 where
  pub match_string : Bytes → Bytes → Option Bool
  pub to_lower : Bytes → Bytes

pub record TokenCommand : Type 0 where
  pub command : Bytes
  pub command_args : List Bytes
  pub json_output : Bool
  pub show_output : Bool

abbrev pub use_token_once : AccessToken → AccessToken
use_token_once token = record token { usage_count = inc64 token.usage_count }

-- `saveSuccessfulTokenUse`: the vault that is written to the shared file, where `save_ok` says that
-- `SaveEncryptedVault` succeeds.
unfoldable pub save_successful_token_use :
    Bool → ExtendedVault → Bytes → Result UseError ExtendedVault
save_successful_token_use save_ok vault token_id = elim vault.token_manager [
  | none ↦ err no_manager
  | some manager ↦ elim (lookup token_id (entries manager.tokens)) [
    | none ↦ err token_not_found
    | some token ↦
        if save_ok
        then ok (record vault {
          token_manager = some (record manager {
            tokens = some (insert token_id (use_token_once token) (entries manager.tokens));
          });
        })
        else err save_failed
  ]
]

-- The keys that the pattern of the token allows; a pattern that does not compile allows none.
abbrev pub allows : UseLibrary → AccessToken → Bytes → Bool
allows lib token key = elim (match_key_pattern lib.match_string token.key_pattern key) [
  | some matched ↦ matched
  | none ↦ false
]

abbrev pub check_pattern : UseLibrary → AccessToken → Bytes → Result UseError (Unit {0})
check_pattern lib token key = elim (match_key_pattern lib.match_string token.key_pattern key) [
  | none ↦ err pattern_error
  | some matched ↦ fail_if (not matched) key_not_allowed
]

unfoldable pub insert_result : Bytes → Bytes → Dict Bytes → Dict Bytes
insert_result key v [] = (key, v) ∷ []
insert_result key v ((k, w) ∷ results) =
    if bytes_le key k then (key, v) ∷ (k, w) ∷ results else (k, w) ∷ insert_result key v results

-- The loops of the two commands over the vault.
module _ (lib : UseLibrary) where
  unfoldable pub allowed_keys : AccessToken → Dict Bytes → List Bytes
  allowed_keys token [] = []
  allowed_keys token ((key, v) ∷ contents) =
      let rest = allowed_keys token contents in if allows lib token key then key ∷ rest else rest

  unfoldable pub search_results : AccessToken → Bytes → Dict Bytes → Dict Bytes
  search_results token search_pattern [] = []
  search_results token search_pattern ((key, v) ∷ contents) =
      let rest = search_results token search_pattern contents in
      if allows lib token key && contains_text (lib.to_lower key) search_pattern
      then insert_result key v rest
      else rest

module _ (lib : UseLibrary) (save_ok : Bool) where
  unfoldable pub execute_token_get :
      ExtendedVault → AccessToken → Bytes → Bool → Bool → Result UseError (Shown × ExtendedVault)
  execute_token_get vault token key json_output show_output = do
    fail_if (not json_output && not show_output) no_show
    fail_if (not (contains token.permissions (codes "read"))) no_read_permission
    check_pattern lib token key
    elim (lookup key (entries vault.contents)) [
      | none ↦ err key_not_found
      | some v ↦ save_successful_token_use save_ok vault token.token_id >>= λ saved.
          ok (value key v, saved)
    ]

  unfoldable pub execute_token_set :
      Time → ExtendedVault → AccessToken → Bytes → Bytes → Result UseError (Shown × ExtendedVault)
  execute_token_set now vault token key v = do
    fail_if (not (contains token.permissions (codes "write"))) no_write_permission
    check_pattern lib token key
    map_err invalid_key (validate_key key)
    contents ← elim vault.contents [ none ↦ err nil_map | some contents ↦ ok contents ]
    saved ←
        save_successful_token_use save_ok
          (mark_key_updated_at (record vault { contents = some (insert key v contents) }) key now)
          token.token_id
    ok (was_set key, saved)

  unfoldable pub execute_token_list :
      ExtendedVault → AccessToken → Result UseError (Shown × ExtendedVault)
  execute_token_list vault token = do
    fail_if (not (contains token.permissions (codes "read"))) no_read_permission
    saved ← save_successful_token_use save_ok vault token.token_id
    ok (
      listed token.key_pattern (sort_strings (allowed_keys lib token (entries vault.contents))),
      saved,
    )

  unfoldable pub execute_token_search :
      ExtendedVault → AccessToken → Bytes → Bool → Bool → Result UseError (Shown × ExtendedVault)
  execute_token_search vault token pattern json_output show_output = do
    fail_if (not json_output && not show_output) no_show
    fail_if (not (contains token.permissions (codes "read"))) no_read_permission
    saved ← save_successful_token_use save_ok vault token.token_id
    ok (
      found pattern (search_results lib token (lib.to_lower pattern) (entries vault.contents)),
      saved,
    )

  -- The `switch` of `executeWithToken`, on a token that was accepted.
  unfoldable pub execute_with_token :
      Time → ExtendedVault → AccessToken → TokenCommand → Result UseError (Shown × ExtendedVault)
  execute_with_token now vault token request =
      if bytes_eq request.command (codes "get")
      then elim request.command_args [
        | [] ↦ err usage
        | key ∷ _ ↦ execute_token_get vault token key request.json_output request.show_output
      ]
      else if bytes_eq request.command (codes "set")
      then elim request.command_args [
        | key ∷ v ∷ _ ↦ execute_token_set now vault token key v
        | _ ↦ err usage
      ]
      else if bytes_eq request.command (codes "list")
      then execute_token_list vault token
      else if bytes_eq request.command (codes "search")
      then elim request.command_args [
        | [] ↦ err usage
        | pattern ∷ _ ↦
            execute_token_search vault token pattern request.json_output request.show_output
      ]
      else err not_allowed

-- `executeWithToken` on a request that was parsed: the result of `LoadEncryptedVault` goes in, and
-- the vault that is saved comes out.
unfoldable pub use_token :
    TokenLibrary
    → UseLibrary
    → Bool
    → Time
    → Option Bytes
    → Result CodecError ExtendedVault
    → Bytes
    → TokenCommand
    → Result RunError (Shown × ExtendedVault)
use_token tokens lib save_ok now master_key loaded token_str request = do
  (token, vault) ←
      map_err validation_failed
        (parse_and_validate_production_token tokens token_str master_key loaded now)
  map_err use_failed (execute_with_token lib save_ok now vault token request)
