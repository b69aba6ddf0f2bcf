-- ===== src/Session/Tokens/Creation.antt =====
-- The policy of `parseTokenCreationOptions`, and that a token that is made is accepted.
use myminivault.Prelude.{
  ◌+◌, ◌≡◌, ◌∙◌, refl, ap, subst, true, false, List, [], ◌∷◌, some, arith, All, Lacks, Bytes, codes,
  bytes_eq, bytes_eq_iff, bytes_eq_refl, is_empty, contains_text, cut_prefix, lookup, lookup-insert,
  insert, entries, ok, >>=-eq-ok, Bool-cases, Option-cases, inl, inr,
}
use myminivault.Prelude.Int.{ℤ, pos, leb_ℤ, ◌≤ℤ◌, ◌<ℤ◌, pos_part}
use myminivault.Model.{AccessToken, TokenManager, ExtendedVault, Time, after}
use myminivault.Token.{is_expired_or_used_up}
use myminivault.Token.Signed.{
  TokenLibrary, create_short_signed_token_v2, parse_and_validate_production_token,
}
use myminivault.Token.Signed.Accepted.{IsBase64, parse_and_validate-created}
use myminivault.Session.Mirror.Stable.{
  sync_main_vault_to_shared_vault-readable, sync_main_vault_to_shared_vault-tokens,
}
use myminivault.Session.Mirror.{SharedFile, readable, sync_main_vault_to_shared_vault}
use myminivault.Session.Tokens.{
  CreationLibrary, CreationText, TokenCreationOptions, CreationFiles, created, max_duration,
  is_permission, all_permissions, read_creation_args, no_text, check_creation,
  parse_token_creation_options, new_token, add_token, with_manager, register_token, add_and_sync,
  handle_create_token,
}

-- The policy of a token.
abbrev pub IsPermitted : TokenCreationOptions → Type 0
IsPermitted options =
    (is_empty options.key_pattern ≡ false)
    × (contains_text options.key_pattern (codes ":") ≡ false)
    × (pos 0 <ℤ options.duration)
    × (options.duration ≤ℤ pos max_duration)
    × (pos 0 <ℤ options.max_uses)
    × (all_permissions options.permissions ≡ true)

check_creation-IsPermitted :
    (lib : CreationLibrary) (text : CreationText) (options : TokenCreationOptions)
    → check_creation lib text ≡ ok options
    → IsPermitted options
unfolding check_creation
check_creation-IsPermitted lib text options h =
    elim (Option-cases (lib.parse_duration text.duration_text)) [
      | inl n ↦ ground arith
      | inr (d, e) ↦
          (ground arith, ground arith, ground arith, ground arith, ground arith, ground arith)
    ]

-- Options that are accepted keep the policy: a pattern without a colon, more than no time and at most a
-- day, at least one use, and no permission but to read and to write.
pub parse_token_creation_options-IsPermitted :
    (lib : CreationLibrary) (args : List Bytes) (options : TokenCreationOptions)
    → parse_token_creation_options lib args ≡ ok options
    → IsPermitted options
unfolding parse_token_creation_options
parse_token_creation_options-IsPermitted lib args options h =
    let (text, _, checked) =
      >>=-eq-ok (read_creation_args lib no_text args) (check_creation lib) h in
    check_creation-IsPermitted lib text options checked

contains_colon-Lacks : (s : Bytes) → contains_text s (codes ":") ≡ false → Lacks b':' s
unfolding contains_text cut_prefix
contains_colon-Lacks [] h = tt
contains_colon-Lacks (c ∷ s) h = (ground arith, contains_colon-Lacks s (ground arith))

is_permission-Lacks : (s : Bytes) → is_permission s ≡ true → Lacks b':' s
unfolding is_permission
is_permission-Lacks s h = elim (Bool-cases (bytes_eq s (codes "read"))) [
  | inl e ↦ rw ((bytes_eq_iff s (codes "read")).0 e) (omega arith)
  | inr e ↦ rw ((bytes_eq_iff s (codes "write")).0 (ground arith)) (omega arith)
]

all_permissions-Lack :
    (permissions : List Bytes) → all_permissions permissions ≡ true → All (Lacks b':') permissions
unfolding all_permissions
all_permissions-Lack [] h = tt
all_permissions-Lack (s ∷ permissions) h =
    (is_permission-Lacks s (ground arith), all_permissions-Lack permissions (ground arith))

module _ (lib : CreationLibrary) (tokens : TokenLibrary) (files : CreationFiles) where
  register_token-created :
      (token : AccessToken) (text : Bytes)
      → register_token lib tokens files token ≡ created text
      → (key : Bytes) × (files.master_key ≡ some key)
        × (create_short_signed_token_v2 tokens token key ≡ text)
  unfolding register_token
  register_token-created token text h = elim (Option-cases files.master_key) [
    | inl n ↦ ground arith
    | inr (key, e) ↦ (key, e, ground arith)
  ]

  -- What a creation that succeeds has saved.
  add_and_sync-created :
      (vault vault' : ExtendedVault) (shared shared' : SharedFile) (manager : TokenManager)
      (token : AccessToken) (text : Bytes)
      → add_and_sync lib tokens files vault shared manager token ≡ (vault', shared', created text)
      → (register_token lib tokens files token ≡ created text)
        × (sync_main_vault_to_shared_vault files.save_ok
              (record vault { token_manager = some (add_token manager token) })
              shared
            ≡ ok shared')
  unfolding add_and_sync
  add_and_sync-created vault vault' shared shared' manager token text h =
      (ground arith, ground arith)

  handle_create_token-created :
      (args : List Bytes) (options : TokenCreationOptions) (token_id secret : Bytes) (now : Time)
      (vault vault' : ExtendedVault) (shared shared' : SharedFile) (text : Bytes)
      → parse_token_creation_options lib args ≡ ok options
      → handle_create_token lib tokens files args token_id secret now vault shared
        ≡ (vault', shared', created text)
      → add_and_sync lib tokens files vault shared
          (with_manager vault.token_manager secret)
          (new_token token_id options now)
        ≡ (vault', shared', created text)
  unfolding handle_create_token
  handle_create_token-created [] options token_id secret now vault vault' shared shared' text p h =
      ground arith
  handle_create_token-created (arg ∷ args) options token_id secret now vault vault' shared shared'
        text p h =
      elim (Option-cases (with_manager vault.token_manager secret).tokens) [
        | inl n ↦ ground arith
        | inr (m, e) ↦ ground arith
      ]

  -- The token that a creation prints is accepted with the shared vault that the creation saved, until
  -- it expires, if base64 and numbers are read back and its name holds no colon.
  pub handle_create_token-accepted :
      (args : List Bytes) (options : TokenCreationOptions) (token_id secret : Bytes)
      (now later : Time) (vault vault' : ExtendedVault) (shared shared' : SharedFile) (text : Bytes)
      → parse_token_creation_options lib args ≡ ok options
      → handle_create_token lib tokens files args token_id secret now vault shared
        ≡ (vault', shared', created text)
      → after later (now + pos_part options.duration) ≡ false
      → ((t : Bytes) → IsBase64 (tokens.url_encode t))
      → ((t : Bytes) → tokens.url_decode (tokens.url_encode t) ≡ some t)
      → ((t : Bytes) → Lacks b':' (tokens.std_encode t))
      → ((i : ℤ) → Lacks b':' (tokens.format_int i))
      → let token = new_token token_id options now in
        tokens.parse_int64 (tokens.format_int (tokens.unix token.expires_at))
          ≡ some (tokens.unix token.expires_at)
        → tokens.atoi (tokens.format_int token.max_uses) ≡ some token.max_uses
        → Lacks b':' token_id
        → (key : Bytes) × (saved : ExtendedVault) × (files.master_key ≡ some key)
          × (shared' ≡ readable saved)
          × (parse_and_validate_production_token tokens text (some key) (ok saved) later
              ≡ ok (token, saved))
  unfolding new_token add_token is_expired_or_used_up
  handle_create_token-accepted args options token_id secret now later vault vault' shared shared'
        text p h usable padded decodes sig number expires most named =
      let token = new_token token_id options now in
      let manager = with_manager vault.token_manager secret in
      let (_, colon, _, _, uses, perms) =
        parse_token_creation_options-IsPermitted lib args options p in
      let (registered, synced) =
        add_and_sync-created vault vault' shared shared' manager token text (
          handle_create_token-created args options token_id secret now vault vault' shared shared'
            text p h) in
      let (key, k, signed) = register_token-created token text registered in
      let vault'' = record vault { token_manager = some (add_token manager token) } in
      let (saved, r) =
        sync_main_vault_to_shared_vault-readable files.save_ok vault'' shared shared'
          (add_token manager token) refl synced in
      let managed =
        sync_main_vault_to_shared_vault-tokens files.save_ok vault'' saved shared
          (add_token manager token) refl (synced ∙ ap (λ f. ok f) r) in
      let found : lookup token_id (insert token_id token (entries manager.tokens)) ≡ some token =
        lookup-insert token_id token_id token (entries manager.tokens)
        ∙ rw (bytes_eq_refl token_id) refl in
      let fresh : leb_ℤ options.max_uses (pos 0) ≡ false = ground arith in
      (
        key,
        saved,
        k,
        r,
        subst
            (λ t.
              parse_and_validate_production_token tokens t (some key) (ok saved) later
              ≡ ok (token, saved))
            signed
            (parse_and_validate-created tokens token key saved (add_token manager token) (pos 0)
              later padded decodes sig number expires most named
              (contains_colon-Lacks options.key_pattern colon)
              (all_permissions-Lack options.permissions perms) managed found
              (rw (usable, fresh) refl)),
      )
