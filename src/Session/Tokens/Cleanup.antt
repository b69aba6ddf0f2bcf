-- ===== src/Session/Tokens/Cleanup.antt =====
-- What a cleanup leaves, and that a revoked token is refused.
use myminivault.Prelude.{
  ◌≡◌, refl, ◌∙◌, ap, subst, sym, Bool, true, false, [], ◌∷◌, Option, none, some, arith, Bytes,
  bytes_eq, bytes_eq_iff, is_some, ltb, length, Dict, lookup, lookup-erase, erase, entries, ok,
  if◌then◌else◌, split_on, Bool-cases, Option-cases, inl, inr, ◌≤◌,
}
use myminivault.Model.{AccessToken, TokenManager, ExtendedVault, Time}
use myminivault.Sync.Marks.{Distinct}
use myminivault.Token.{is_expired_or_used_up}
use myminivault.Token.Signed.{
  TokenLibrary, Fields, decoded_token, token_fields, parse_and_validate_production_token,
}
use myminivault.Token.Signed.Checked.{parse_and_validate-checked}
use myminivault.Session.Mirror.{SharedFile, readable}
use myminivault.Session.Mirror.Stable.{sync_main_vault_to_shared_vault-tokens}
use myminivault.Session.Tokens.{live_tokens, cleanup_expired_tokens, handle_revoke_token}

-- The token, if it may still be used.
abbrev pub still_live : Time → Option AccessToken → Option AccessToken
still_live now none = none
still_live now (some token) = if is_expired_or_used_up token now then none else some token

absent-live_tokens :
    (now : Time) (j : Bytes) (tokens : Dict AccessToken)
    → is_some (lookup j tokens) ≡ false
    → lookup j (live_tokens now tokens) ≡ none
unfolding live_tokens lookup
absent-live_tokens now j [] h = refl
absent-live_tokens now j ((k, t) ∷ tokens) h = ground (arith, absent-live_tokens now j tokens)

lookup-live_tokens :
    (now : Time) (j : Bytes) (tokens : Dict AccessToken)
    → Distinct tokens
    → lookup j (live_tokens now tokens) ≡ still_live now (lookup j tokens)
unfolding live_tokens lookup is_expired_or_used_up
lookup-live_tokens now j [] d = refl
lookup-live_tokens now j ((k, t) ∷ tokens) d = ground (
  arith,
  lookup-live_tokens now j tokens d.1,
  absent-live_tokens now k tokens d.0,
  bytes_eq_iff k j,
)

-- The tokens of the vault in memory.
abbrev pub tokens_in : Option TokenManager → Dict AccessToken
tokens_in none = []
tokens_in (some manager) = entries manager.tokens

abbrev pub tokens_of : ExtendedVault → Dict AccessToken
tokens_of vault = tokens_in vault.token_manager

length-live_tokens_le :
    (now : Time) (tokens : Dict AccessToken) → length (live_tokens now tokens) ≤ length tokens
unfolding live_tokens
length-live_tokens_le now [] = omega arith
length-live_tokens_le now ((k, t) ∷ tokens) = ground (arith, length-live_tokens_le now tokens)

-- A cleanup that removes nothing finds nothing to remove.
calm-live_tokens :
    (now : Time) (tokens : Dict AccessToken)
    → ltb (length (live_tokens now tokens)) (length tokens) ≡ false
    → live_tokens now tokens ≡ tokens
unfolding live_tokens
calm-live_tokens now [] h = refl
calm-live_tokens now ((k, t) ∷ tokens) h =
    ground (arith, calm-live_tokens now tokens, length-live_tokens_le now tokens)

-- After a cleanup, whether its mirror succeeds or not, the vault in memory has exactly the tokens that are
-- neither expired nor used up, and its values are untouched, where no token is listed twice.
pub cleanup_expired_tokens-live :
    (save_ok : Bool) (now : Time) (vault : ExtendedVault) (shared : SharedFile) (j : Bytes)
    → Distinct (tokens_of vault)
    → let vault' = (cleanup_expired_tokens save_ok now vault shared).0 in
      (lookup j (tokens_of vault') ≡ still_live now (lookup j (tokens_of vault)))
      × (vault'.contents ≡ vault.contents)
unfolding cleanup_expired_tokens lookup
cleanup_expired_tokens-live save_ok now vault shared j d = elim (Option-cases vault.token_manager) [
  | inl n ↦ rw n (refl, refl)
  | inr (manager, m) ↦
      let live = live_tokens now (entries manager.tokens) in
      let left =
        lookup-live_tokens now j (entries manager.tokens)
          (subst (λ o. Distinct (tokens_in o)) m d) in
      elim (Bool-cases (ltb (length live) (length (entries manager.tokens)))) [
        | inl b ↦ (rw (m, b) left, rw (m, b) refl)
        | inr b ↦ (
          rw (m, b) (ap (lookup j) (sym (calm-live_tokens now (entries manager.tokens) b)) ∙ left),
          rw (m, b) refl,
        )
      ]
]

-- After a revocation that was mirrored, no token text that names the token is accepted.
pub handle_revoke_token-refused :
    (tokens : TokenLibrary) (save_ok : Bool) (token_id : Bytes) (vault vault' saved : ExtendedVault)
    (shared : SharedFile) (manager : TokenManager) (token_str text : Bytes)
    (master_key : Option Bytes) (now : Time) (fields : Fields) (token : AccessToken)
    → vault.token_manager ≡ some manager
    → is_some (lookup token_id (entries manager.tokens)) ≡ true
    → handle_revoke_token save_ok token_id vault shared ≡ (vault', ok (readable saved))
    → decoded_token tokens token_str ≡ ok text
    → token_fields (split_on b':' text) ≡ ok fields
    → parse_and_validate_production_token tokens token_str master_key (ok saved) now
      ≡ ok (token, saved)
    → bytes_eq fields.token_id token_id ≡ false
unfolding handle_revoke_token
handle_revoke_token-refused tokens save_ok token_id vault vault' saved shared manager token_str text
      master_key now fields token m registered revoked t f accepted =
    let left = record manager { tokens = some (erase token_id (entries manager.tokens)) } in
    let managed =
      sync_main_vault_to_shared_vault-tokens save_ok (record vault { token_manager = some left })
        saved shared left refl (ground arith) in
    let (_, fields', manager', _, t', f', _, m', (found, _, _, _), _, _) =
      parse_and_validate-checked tokens token_str master_key (ok saved) now token saved accepted in
    ground (
      arith,
      lookup-erase token_id fields.token_id (entries manager.tokens),
      bytes_eq_iff token_id fields.token_id,
      bytes_eq_iff fields.token_id token_id,
    )
