-- ===== src/Token/Execute/Counting.antt =====
-- Every token command that succeeds is counted once.
use myminivault.Prelude.{
  subst, List, Result, err, ◌≡◌, ◌⊎◌, Dict, refl, Bool, true, some, [], ◌∷◌, arith, Bytes, codes,
  bytes_eq, lookup, insert, entries, ok, Bool-cases, Option-cases, inl, inr,
}
use myminivault.Model.{AccessToken, TokenManager, ExtendedVault, Time}
use myminivault.Sync.{mark_key_updated_at}
use myminivault.Token.{contains}
use myminivault.Token.Execute.{
  UseError, usage, UseLibrary, TokenCommand, Shown, allows, use_token_once,
  save_successful_token_use, execute_token_get, execute_token_set, execute_token_list,
  execute_token_search, execute_with_token,
}

-- The tokens after one use of the token of this name.
abbrev pub counted : Bytes → AccessToken → TokenManager → TokenManager
counted token_id token manager = record manager {
  tokens = some (insert token_id (use_token_once token) (entries manager.tokens));
}

-- The token was there, and the tokens after the command differ in its count alone.
abbrev pub IsCounted : Bytes → ExtendedVault → ExtendedVault → Type 0
IsCounted token_id vault saved =
    (manager : TokenManager) × (token : AccessToken) × (vault.token_manager ≡ some manager)
    × (lookup token_id (entries manager.tokens) ≡ some token)
    × (saved.token_manager ≡ some (counted token_id token manager))

-- What the save writes besides is the vault itself.
pub save_successful_token_use-IsCounted :
    (save_ok : Bool) (vault saved : ExtendedVault) (token_id : Bytes)
    → save_successful_token_use save_ok vault token_id ≡ ok saved
    → IsCounted token_id vault saved
      × (saved ≡ record vault { token_manager = saved.token_manager })
unfolding save_successful_token_use
save_successful_token_use-IsCounted save_ok vault saved token_id h =
    elim (Option-cases vault.token_manager) [
      | inl n ↦ ground arith
      | inr (manager, m) ↦ elim (Option-cases (lookup token_id (entries manager.tokens))) [
        | inl n ↦ ground arith
        | inr (token, t) ↦ ((manager, token, m, t, ground arith), ground arith)
      ]
    ]

module _ (lib : UseLibrary) (save_ok : Bool) where
  -- What a successful command has saved: the vault as it was, or with the value that `set` writes.
  abbrev pub IsSaved : Time → ExtendedVault → AccessToken → ExtendedVault → Type 0
  IsSaved now vault token saved =
      (prepared : ExtendedVault) × ((prepared ≡ vault)
        ⊎ ((key v : Bytes) × (contents : Dict Bytes) × (contains token.permissions (codes "write")
              ≡ true)
            × (allows lib token key ≡ true)
            × (vault.contents ≡ some contents)
            × (prepared
                ≡ mark_key_updated_at (record vault { contents = some (insert key v contents) }) key
                    now)))
      × (save_successful_token_use save_ok prepared token.token_id ≡ ok saved)

  execute_token_get-IsSaved :
      (now : Time) (vault : ExtendedVault) (token : AccessToken) (key : Bytes)
      (json_output show_output : Bool) (shown : Shown) (saved : ExtendedVault)
      → execute_token_get lib save_ok vault token key json_output show_output ≡ ok (shown, saved)
      → IsSaved now vault token saved
  unfolding execute_token_get
  execute_token_get-IsSaved now vault token key json_output show_output shown saved h =
      (vault, inl refl, ground arith)

  execute_token_list-IsSaved :
      (now : Time) (vault : ExtendedVault) (token : AccessToken) (shown : Shown)
      (saved : ExtendedVault)
      → execute_token_list lib save_ok vault token ≡ ok (shown, saved)
      → IsSaved now vault token saved
  unfolding execute_token_list
  execute_token_list-IsSaved now vault token shown saved h = (vault, inl refl, ground arith)

  execute_token_search-IsSaved :
      (now : Time) (vault : ExtendedVault) (token : AccessToken) (pattern : Bytes)
      (json_output show_output : Bool) (shown : Shown) (saved : ExtendedVault)
      → execute_token_search lib save_ok vault token pattern json_output show_output
        ≡ ok (shown, saved)
      → IsSaved now vault token saved
  unfolding execute_token_search
  execute_token_search-IsSaved now vault token pattern json_output show_output shown saved h =
      (vault, inl refl, ground arith)

  execute_token_set-IsSaved :
      (now : Time) (vault : ExtendedVault) (token : AccessToken) (key v : Bytes) (shown : Shown)
      (saved : ExtendedVault)
      → execute_token_set lib save_ok now vault token key v ≡ ok (shown, saved)
      → IsSaved now vault token saved
  unfolding execute_token_set
  execute_token_set-IsSaved now vault token key v shown saved h =
      elim (Option-cases vault.contents) [
        | inl n ↦ ground arith
        | inr (contents, c) ↦ (
          mark_key_updated_at (record vault { contents = some (insert key v contents) }) key now,
          inr (key, v, contents, ground arith, ground arith, c, refl),
          ground arith,
        )
      ]

  -- A command that succeeds is one of the four.
  abbrev pub IsDispatched :
      Time → ExtendedVault → AccessToken → TokenCommand → Shown × ExtendedVault → Type 0
  IsDispatched now vault token request r =
      ((key : Bytes) × (execute_token_get lib save_ok vault token key request.json_output
            request.show_output
          ≡ ok r))
      ⊎ ((key v : Bytes) × (execute_token_set lib save_ok now vault token key v ≡ ok r))
      ⊎ (execute_token_list lib save_ok vault token ≡ ok r)
      ⊎ ((pattern : Bytes) × (execute_token_search lib save_ok vault token pattern
              request.json_output request.show_output
            ≡ ok r))

  -- A handler of one argument.
  with_one :
      (run : Bytes → Result UseError (Shown × ExtendedVault)) (args : List Bytes)
      (r : Shown × ExtendedVault)
      → elim args [ [] ↦ err usage | key ∷ _ ↦ run key ] ≡ ok r
      → (key : Bytes) × (run key ≡ ok r)
  with_one run [] r h = cc
  with_one run (key ∷ args) r h = (key, h)

  with_two :
      (run : Bytes → Bytes → Result UseError (Shown × ExtendedVault)) (args : List Bytes)
      (r : Shown × ExtendedVault)
      → elim args [ key ∷ v ∷ _ ↦ run key v | _ ↦ err usage ] ≡ ok r
      → (key v : Bytes) × (run key v ≡ ok r)
  with_two run [] r h = cc
  with_two run (key ∷ []) r h = cc
  with_two run (key ∷ v ∷ args) r h = (key, v, h)

  pub execute_with_token-IsDispatched :
      (now : Time) (vault : ExtendedVault) (token : AccessToken) (request : TokenCommand)
      (r : Shown × ExtendedVault)
      → execute_with_token lib save_ok now vault token request ≡ ok r
      → IsDispatched now vault token request r
  unfolding execute_with_token
  execute_with_token-IsDispatched now vault token request r h =
      elim (Bool-cases (bytes_eq request.command (codes "get"))) [
        | inl g ↦ inl (with_one _ request.command_args r (ground arith))
        | inr g ↦ elim (Bool-cases (bytes_eq request.command (codes "set"))) [
          | inl s ↦ inr (inl (with_two _ request.command_args r (ground arith)))
          | inr s ↦ elim (Bool-cases (bytes_eq request.command (codes "list"))) [
            | inl l ↦ inr (inr (inl (ground arith)))
            | inr l ↦ elim (Bool-cases (bytes_eq request.command (codes "search"))) [
              | inl e ↦ inr (inr (inr (with_one _ request.command_args r (ground arith))))
              | inr e ↦ ground arith
            ]
          ]
        ]
      ]

  pub execute_with_token-IsSaved :
      (now : Time) (vault : ExtendedVault) (token : AccessToken) (request : TokenCommand)
      (shown : Shown) (saved : ExtendedVault)
      → execute_with_token lib save_ok now vault token request ≡ ok (shown, saved)
      → IsSaved now vault token saved
  execute_with_token-IsSaved now vault token request shown saved h =
      elim (execute_with_token-IsDispatched now vault token request (shown, saved) h) [
        | inl (key, e) ↦ execute_token_get-IsSaved now vault token key _ _ shown saved e
        | inr (inl (key, v, e)) ↦ execute_token_set-IsSaved now vault token key v shown saved e
        | inr (inr (inl e)) ↦ execute_token_list-IsSaved now vault token shown saved e
        | inr (inr (inr (pattern, e))) ↦
            execute_token_search-IsSaved now vault token pattern _ _ shown saved e
      ]

  -- A command that succeeds adds one to the uses of its token in the vault that it saves, and
  -- changes nothing else of the tokens.
  pub execute_with_token-IsCounted :
      (now : Time) (vault : ExtendedVault) (token : AccessToken) (request : TokenCommand)
      (shown : Shown) (saved : ExtendedVault)
      → execute_with_token lib save_ok now vault token request ≡ ok (shown, saved)
      → IsCounted token.token_id vault saved
  unfolding mark_key_updated_at
  execute_with_token-IsCounted now vault token request shown saved h =
      let (prepared, same, e) = execute_with_token-IsSaved now vault token request shown saved h in
      elim same [
        | inl p ↦
            subst (λ v. IsCounted token.token_id v saved) p
              (save_successful_token_use-IsCounted save_ok prepared saved token.token_id e).0
        | inr (key, v, contents, _, _, _, p) ↦
            (save_successful_token_use-IsCounted save_ok
              (mark_key_updated_at (record vault { contents = some (insert key v contents) }) key
                now)
              saved token.token_id
              (subst (λ p. save_successful_token_use save_ok p token.token_id ≡ ok saved) p e)).0
      ]
