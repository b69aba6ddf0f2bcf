-- ===== src/Tests/Session.antt =====
-- Commands under the master password on a small vault, its mirror and its tokens.
use myminivault.Prelude.{
  ℕ, ◌≡◌, refl, ap, true, false, if◌then◌else◌, List, [], ◌∷◌, none, some, arith, Bytes, codes,
  bytes_eq, lookup, insert, erase, entries, ok, split_on, join_with, ◌++◌, contains_any, cut_prefix,
  contains_text,
}
use myminivault.Prelude.Int.{pos}
use myminivault.Model.{AccessToken, TokenManager, ExtendedVault, new_vault}
use myminivault.Token.{add_base64_padding, is_expired_or_used_up}
use myminivault.Token.Signed.{
  Fields, claims_text, signature_text, trim_padding, create_short_signed_token_v2, decoded_token,
  token_fields, parse_and_validate_production_token,
}
use myminivault.Token.Signed.Accepted.{parse_and_validate-created}
use myminivault.Prelude.Int.{inc64}
use myminivault.Commands.Policy.{is_one_of, should_mirror_main_vault_to_shared, should_log_access}
use myminivault.Sync.{
  mark_key_updated_at, import_deletion, deletes, uses_legacy_import_decision, import_values,
  import_value, import_deletions, should_import_shared_value, updated_at, import_shared_vault,
}
use myminivault.Rollback.{
  check_with_mode, prepare_next_revision, ensure_metadata, trusts_at_least, save_state,
}
use myminivault.Session.Mirror.{
  sync_tokens_dry_run_requested, import_shared_vault_to_main_vault, missing, readable, mirrored,
  sync_main_vault_to_shared_vault,
}
use myminivault.Session.Mirror.Stable.{sync_main_vault_to_shared_vault-stable}
use myminivault.Session.Tokens.{
  CreationLibrary, CreationFiles, TokenCreationOptions, created, parse_token_creation_options,
  read_creation_args, read_creation_arg, check_creation, new_token, handle_create_token,
  add_and_sync, register_token, with_manager, add_token, handle_revoke_token,
  cleanup_expired_tokens, live_tokens, all_permissions, is_permission,
}
use myminivault.Session.Tokens.Creation.{handle_create_token-accepted}
use myminivault.Session.Tokens.Cleanup.{handle_revoke_token-refused}
use myminivault.Session.State.{World, Setting, rollback_failed, save_extended_vault_bytes}
use myminivault.Session.Execute.{dry_run, execute_password_command, execute_set}
use myminivault.Session.Run.{
  mirror_after, log_access, record_password_command_access, enforce_rollback_state, import_before,
  cleanup_before, finish, run_password_command_bytes,
}
use myminivault.Session.Handlers.{handle_set_command, set_value}
use myminivault.Commands.Import.{validate_key, trim_byte}
use myminivault.Session.Run.Blocked.{
  accepting, with_metadata, run_password_command_bytes-rolled_back,
}
use myminivault.Session.Run.Unchanged.{run_password_command_bytes-dry_run}
use myminivault.Session.Run.Written.{run_password_command_bytes-set}
use myminivault.Token.Execute.Request.{read_value_from_stdin}
use myminivault.Rollback.{save_revision}
use myminivault.Rollback.Detection.{here}
use myminivault.Tests.Rollback.{saved, state, saved_again, state_again, saved-IsTrusted}
use myminivault.Tests.Token.{
  toy, reader, manager, shared, encode-IsBase64, decode-encode, std_encode-Lacks, format-Lacks,
}

-- A token manager in which no token has been used.
abbrev fresh : TokenManager
fresh = record manager { tokens = some ((codes "t1", record reader { usage_count = pos 0 }) ∷ []) }

abbrev main : ExtendedVault
main = record (new_vault (some ((codes "API_KEY", codes "v") ∷ [])) (codes "1.0") 1) {
  token_manager = some fresh;
  sync = some (record { updated_at = some []; deleted_at = some ((codes "OLD", 5) ∷ []) });
}

abbrev mirror : ExtendedVault
mirror = mirrored main (some manager)

mirrored_main : sync_main_vault_to_shared_vault true main (readable shared) ≡ ok (readable mirror)
unfolding sync_main_vault_to_shared_vault
mirrored_main = refl

sync_main_vault_to_shared_vault-stable_example :
    (lookup (codes "API_KEY") (entries mirror.contents)
      ≡ lookup (codes "API_KEY") (entries main.contents))
    × (lookup (codes "API_KEY") (entries (import_shared_vault main mirror 9).0.contents)
        ≡ lookup (codes "API_KEY") (entries main.contents))
unfolding lookup bytes_eq
sync_main_vault_to_shared_vault-stable_example =
    sync_main_vault_to_shared_vault-stable true main mirror (readable shared) 9 (codes "API_KEY")
      (refl, tt) (refl, tt) mirrored_main

abbrev creation : CreationLibrary
creation = record { parse_duration = λ s. some (pos 3600); atoi = λ s. none }

abbrev options : TokenCreationOptions
options = record {
  key_pattern = codes "API_*";
  duration = pos 3600;
  permissions = codes "read" ∷ [];
  max_uses = pos 100;
}

abbrev creation_args : List Bytes
creation_args = codes "--keys=API_*" ∷ codes "--duration=1h" ∷ []

parsed : parse_token_creation_options creation creation_args ≡ ok options
unfolding parse_token_creation_options read_creation_args read_creation_arg check_creation
    cut_prefix contains_text all_permissions is_permission bytes_eq
parsed = refl

abbrev creation_files : CreationFiles
creation_files = record {
  save_ok = true;
  registry = some (record { vault_path = []; shared_vault_path = []; tokens = some [] });
  save_registry_ok = true;
  master_key = some (codes "k");
}

abbrev new_main : ExtendedVault
new_main = record main { token_manager = some (add_token fresh (new_token (codes "t2") options 7)) }

abbrev printed : Bytes
printed = create_short_signed_token_v2 toy (new_token (codes "t2") options 7) (codes "k")

made :
    handle_create_token creation toy creation_files creation_args (codes "t2") [] 7 main missing
    ≡ (new_main, readable (mirrored new_main none), created printed)
unfolding handle_create_token add_and_sync register_token with_manager
    sync_main_vault_to_shared_vault parse_token_creation_options read_creation_args
    read_creation_arg check_creation cut_prefix contains_text all_permissions is_permission bytes_eq
made = refl

handle_create_token-accepted_example :
    (key : Bytes) × (saved : ExtendedVault) × (creation_files.master_key ≡ some key)
    × (readable (mirrored new_main none) ≡ readable saved)
    × (parse_and_validate_production_token toy printed (some key) (ok saved) 8
        ≡ ok (new_token (codes "t2") options 7, saved))
unfolding new_token
handle_create_token-accepted_example =
    handle_create_token-accepted creation toy creation_files creation_args options (codes "t2") [] 7
      8 main new_main missing (readable (mirrored new_main none)) printed parsed made refl
      encode-IsBase64 (λ t. ap (λ s. some s) (decode-encode t)) std_encode-Lacks format-Lacks refl
      refl (omega arith)

-- Two tokens, of which the second is revoked.
abbrev second : AccessToken
second = new_token (codes "t2") options 7

abbrev pair : TokenManager
pair = add_token manager second

abbrev left : TokenManager
left = record pair { tokens = some (erase (codes "t2") (entries pair.tokens)) }

abbrev two : ExtendedVault
two = record main { token_manager = some pair }

abbrev without : ExtendedVault
without = record two { token_manager = some left }

abbrev saved_without : ExtendedVault
saved_without = mirrored without none

abbrev token_text : Bytes
token_text = create_short_signed_token_v2 toy reader (codes "k")

revoked : handle_revoke_token true (codes "t2") two missing ≡ (without, ok (readable saved_without))
unfolding handle_revoke_token sync_main_vault_to_shared_vault add_token new_token lookup insert
    erase bytes_eq
revoked = refl

still_accepted :
    parse_and_validate_production_token toy token_text (some (codes "k")) (ok saved_without) 20
    ≡ ok (reader, saved_without)
unfolding lookup bytes_eq is_expired_or_used_up mirrored add_token new_token insert erase
still_accepted =
    parse_and_validate-created toy reader (codes "k") saved_without left (pos 1) 20 encode-IsBase64
      (λ t. ap (λ s. some s) (decode-encode t)) std_encode-Lacks format-Lacks refl refl
      (omega arith) (omega arith) (omega arith) refl refl refl

abbrev payload : Bytes
payload = claims_text toy (codes "v2" ∷ []) reader

abbrev text : Bytes
text = payload ++ b':' ∷ signature_text toy (codes "k") payload

abbrev fields : Fields
fields = record {
  versioned = true;
  token_id = codes "t1";
  key_pattern = codes "API_*";
  expires = toy.format_int (pos 50);
  permissions = codes "read,write";
  max_uses = toy.format_int (pos 3);
  signature = signature_text toy (codes "k") payload;
  payload = payload;
}

decoded : decoded_token toy token_text ≡ ok text
unfolding decoded_token create_short_signed_token_v2 trim_padding trim_byte add_base64_padding
    claims_text join_with
decoded = refl

fields_read : token_fields (split_on b':' text) ≡ ok fields
unfolding token_fields split_on claims_text join_with bytes_eq
fields_read = refl

handle_revoke_token-refused_example : bytes_eq (codes "t1") (codes "t2") ≡ false
unfolding lookup bytes_eq add_token new_token insert
handle_revoke_token-refused_example =
    handle_revoke_token-refused toy true (codes "t2") two without saved_without missing pair
      token_text text (some (codes "k")) 20 fields reader refl refl revoked decoded fields_read
      still_accepted

abbrev setting : Bytes → List Bytes → Setting
setting command args = record {
  program = codes "vault";
  command = command;
  args = args;
  stdin = none;
  confirm = [];
  content = none;
  rollback_mode = codes "block";
  now = 9;
  clock = λ key. 9;
  new_id = some (codes "id");
  new_token_id = codes "t3";
  new_secret = [];
  to_lower = λ s. s;
  creation = creation;
  tokens = toy;
  creation_files = creation_files;
  will_refresh = false;
  save_ok = true;
  save_left = false;
  state_ok = true;
  state_left = false;
  shared_ok = true;
  audit_log = true;
  log_ok = true;
  sha256 = λ b. b;
  new_key = none;
  lines = none;
  passwords = (none, none);
}

-- The third revision is stored; the trusted state has the given one.
abbrev world : ℕ → World
world trusted = record {
  stored = record main {
    metadata = record main.metadata { vault_id = codes "id"; revision = pos 3 };
  };
  shared = readable shared;
  trusted = ok (record { vault_id = codes "id"; highest_revision = pos trusted; updated_at = 8 });
  log = [];
}

-- A vault of revision 3 stands in the place of that of revision 4.
abbrev rolled_back : World
rolled_back = record (world 4) {
  stored = record main { metadata = saved };
  trusted = ok state_again;
}

run_password_command_bytes-rolled_back_example :
    (run_password_command_bytes (setting (codes "list") []) rolled_back
      ≡ (rolled_back, some rollback_failed))
    × (enforce_rollback_state (setting (codes "list") []) (with_metadata saved_again rolled_back)
        ≡ false)
    × ((world' : World)
        → run_password_command_bytes (accepting (setting (codes "list") [])) rolled_back
          ≡ (world', none)
        → enforce_rollback_state (setting (codes "list") []) world' ≡ false)
unfolding save_revision prepare_next_revision ensure_metadata trusts_at_least save_state inc64
    bytes_eq
run_password_command_bytes-rolled_back_example =
    run_password_command_bytes-rolled_back (setting (codes "list") []) rolled_back saved state none
      9 saved_again state_again saved-IsTrusted here (omega arith) refl refl refl refl refl

abbrev dry_setting : Setting
dry_setting = setting (codes "sync-tokens") (codes "--dry-run" ∷ [])

run_password_command_bytes-dry_run_example : run_password_command_bytes dry_setting (world 3) ≡ (
    if enforce_rollback_state dry_setting (world 3)
    then (world 3, some rollback_failed)
    else (record (world 3) { log = codes "sync-tokens" ∷ [] }, none))
run_password_command_bytes-dry_run_example =
    run_password_command_bytes-dry_run dry_setting refl refl (world 3)

abbrev set_setting : Setting
set_setting = record (setting (codes "set") (codes "DB" ∷ codes "--stdin" ∷ [])) {
  stdin = some (codes "w");
}

abbrev after_set : World
after_set = (run_password_command_bytes set_setting (world 3)).0

set_done : (run_password_command_bytes set_setting (world 3)).1 ≡ none
unfolding run_password_command_bytes enforce_rollback_state check_with_mode bytes_eq import_before
    dry_run cleanup_before execute_password_command execute_set handle_set_command set_value
    validate_key finish save_extended_vault_bytes prepare_next_revision ensure_metadata
    trusts_at_least save_state contains_any sync_tokens_dry_run_requested
    import_shared_vault_to_main_vault import_shared_vault import_values import_value
    import_deletions should_import_shared_value updated_at lookup cleanup_expired_tokens live_tokens
    record_password_command_access log_access should_log_access read_value_from_stdin
    mark_key_updated_at insert import_deletion deletes erase mirror_after
    sync_main_vault_to_shared_vault is_one_of should_mirror_main_vault_to_shared
    uses_legacy_import_decision inc64
set_done = refl

run_password_command_bytes-set_example : lookup (codes "DB") (entries after_set.stored.contents) ≡ (
    if bytes_eq (codes "DB") (codes "DB")
    then some (codes "w")
    else lookup
        (codes "DB")
        (entries (import_before set_setting (world 3).stored (world 3).shared).0.contents))
unfolding bytes_eq validate_key contains_any set_value read_value_from_stdin
run_password_command_bytes-set_example =
    run_password_command_bytes-set set_setting (world 3) after_set (codes "DB") (codes "--stdin")
      (codes "w") (codes "DB") (entries main.contents) refl refl refl refl refl
      (ap (λ e. (after_set, e)) set_done)
