-- ===== src/Token/Execute/Limits.antt =====
-- The shared vault over a sequence of token commands: a token is used no more often than it allows.
use myminivault.Prelude.{
  ℕ, ◌+◌, ◌≤◌, ◌≡◌, ◌∙◌, refl, ap, subst, sym, true, false, some, none, List, [], ◌∷◌, Option,
  arith, All, All-insert, All-lookup, Bytes, bytes_eq, bytes_eq_iff, bytes_eq_refl, ◌<◌, Dict,
  lookup, lookup-insert, insert, entries, ok, if◌then◌else◌, Bool-cases, inl, inr,
}
use myminivault.Prelude.Int.{ℤ, pos, inc64, leb_ℤ, ◌≤ℤ◌, max_int64, inc64_pos}
use myminivault.Model.{AccessToken, ExtendedVault, Time}
use myminivault.Token.Signed.{TokenLibrary, parse_and_validate_production_token}
use myminivault.Token.Signed.Checked.{parse_and_validate-checked}
use myminivault.Token.Execute.{
  UseLibrary, TokenCommand, Shown, use_token_once, execute_with_token, use_token,
}
use myminivault.Token.Execute.Counting.{execute_with_token-IsCounted}

-- The tokens of the shared vault.
abbrev pub tokens_of : ExtendedVault → Dict AccessToken
tokens_of vault = elim vault.token_manager [ none ↦ [] | some manager ↦ entries manager.tokens ]

-- Every token stands under its own name and within its limit.
abbrev pub IsWithinLimits : ExtendedVault → Type 0
IsWithinLimits vault =
    All (λ e. (e.1.token_id ≡ e.0) × (e.1.usage_count ≤ℤ e.1.max_uses)) (tokens_of vault)

inc64-IsBounded : (u m : ℤ) → leb_ℤ m u ≡ false → inc64 u ≤ℤ m
unfolding inc64
inc64-IsBounded u m h = ground arith

one_more :
    (dict : Dict AccessToken) (used_id token_id : Bytes) (used token : AccessToken) (k m : ℕ)
    → used_id ≡ token_id
    → lookup used_id dict ≡ some used
    → lookup token_id dict ≡ some (record token { usage_count = pos k })
    → token.max_uses ≡ pos m
    → leb_ℤ used.max_uses used.usage_count ≡ false
    → m ≤ max_int64
    → (k + 1 ≤ m)
      × (lookup token_id (insert used_id (use_token_once used) dict)
          ≡ some (record token { usage_count = pos (k + 1) }))
one_more dict used_id token_id used token k m e here there l below b =
    let same : used ≡ record token { usage_count = pos k } = ground arith in
    let counted : used.usage_count ≡ pos k = ap (λ t. t.usage_count) same in
    let limit : used.max_uses ≡ pos m = ap (λ t. t.max_uses) same ∙ l in
    let below' : k < m = ground arith in
    (
      omega (arith, below'),
      lookup-insert used_id token_id (use_token_once used) dict
          ∙ rw (e, bytes_eq_refl token_id, same, inc64_pos k (omega arith)) refl,
    )

-- How often the token is among those used.
abbrev pub uses_of : Bytes → List Bytes → ℕ
uses_of token_id [] = 0
uses_of token_id (k ∷ used) =
    let rest = uses_of token_id used in if bytes_eq k token_id then rest + 1 else rest

module _ (tokens : TokenLibrary) (lib : UseLibrary) where
  -- The shared vault after successful commands, with the names of the tokens that were used, the
  -- last one first.
  pub data Uses : ExtendedVault → List Bytes → ExtendedVault → Type 0 where
    start : (vault : ExtendedVault) → Uses vault [] vault
    use_next :
        {first vault saved : ExtendedVault} {used : List Bytes} (token_str : Bytes)
        (master_key : Option Bytes) (now : Time) (request : TokenCommand) (token : AccessToken)
        (shown : Shown)
        → Uses first used vault
        → parse_and_validate_production_token tokens token_str master_key (ok vault) now
          ≡ ok (token, vault)
        → use_token tokens lib true now master_key (ok vault) token_str request ≡ ok (shown, saved)
        → Uses first (token.token_id ∷ used) saved

  executed :
      (vault saved : ExtendedVault) (token_str : Bytes) (master_key : Option Bytes) (now : Time)
      (request : TokenCommand) (token : AccessToken) (shown : Shown)
      → parse_and_validate_production_token tokens token_str master_key (ok vault) now
        ≡ ok (token, vault)
      → use_token tokens lib true now master_key (ok vault) token_str request ≡ ok (shown, saved)
      → execute_with_token lib true now vault token request ≡ ok (shown, saved)
  unfolding use_token
  executed vault saved token_str master_key now request token shown p h = ground arith

  -- One use: the token is there with its count below its limit, and it is counted.
  next_uses :
      (vault saved : ExtendedVault) (token_str : Bytes) (master_key : Option Bytes) (now : Time)
      (request : TokenCommand) (token : AccessToken) (shown : Shown)
      → IsWithinLimits vault
      → parse_and_validate_production_token tokens token_str master_key (ok vault) now
        ≡ ok (token, vault)
      → use_token tokens lib true now master_key (ok vault) token_str request ≡ ok (shown, saved)
      → (lookup token.token_id (tokens_of vault) ≡ some token)
        × (leb_ℤ token.max_uses token.usage_count ≡ false)
        × (tokens_of saved ≡ insert token.token_id (use_token_once token) (tokens_of vault))
  next_uses vault saved token_str master_key now request token shown within p h =
      let (_, fields, manager, _, _, _, _, m, (found, _, below, _), _, _) =
        parse_and_validate-checked tokens token_str master_key (ok vault) now token vault p in
      let same : tokens_of vault ≡ entries manager.tokens = rw m refl in
      let found_here : lookup fields.token_id (tokens_of vault) ≡ some token =
        ap (lookup fields.token_id) same ∙ found in
      let (named, _) = All-lookup _ fields.token_id token (tokens_of vault) within found_here in
      let found_named : lookup token.token_id (tokens_of vault) ≡ some token =
        subst (λ k. lookup k (tokens_of vault) ≡ some token) (sym named) found_here in
      let (manager', token', m', found', after) =
        execute_with_token-IsCounted lib true now vault token request shown saved
          (executed vault saved token_str master_key now request token shown p h) in
      let same' : tokens_of vault ≡ entries manager'.tokens = rw m' refl in
      let same_token : token' ≡ token = ground arith in
      (
        found_named,
        below,
        rw (after, same_token) (ap (insert token.token_id (use_token_once token)) (sym same')),
      )

  -- Whatever successful commands follow each other, no token is used above its limit.
  pub Uses-IsWithinLimits :
      (first last : ExtendedVault) (used : List Bytes)
      → Uses first used last
      → IsWithinLimits first
      → IsWithinLimits last
  Uses-IsWithinLimits _ _ _ (start first) within = within
  Uses-IsWithinLimits first last _
        (use_next {vault = vault} {used = used} token_str master_key now request token shown before
          p h)
        within =
      let ih = Uses-IsWithinLimits first vault used before within in
      let (found, below, after) =
        next_uses vault last token_str master_key now request token shown ih p h in
      rw after (
        All-insert _ token.token_id (use_token_once token) (tokens_of vault) ih
          (refl, inc64-IsBounded token.usage_count token.max_uses below))

  -- Whatever successful commands follow each other, a token that has been used n of its at most m
  -- times is used k times more only if n + k is at most m, and its count says so.
  pub Uses-IsCounted :
      (first last : ExtendedVault) (used : List Bytes) (token_id : Bytes) (token : AccessToken)
      (n m : ℕ)
      → Uses first used last
      → IsWithinLimits first
      → lookup token_id (tokens_of first) ≡ some token
      → token.usage_count ≡ pos n
      → token.max_uses ≡ pos m
      → m ≤ max_int64
      → (n + uses_of token_id used ≤ m)
        × (lookup token_id (tokens_of last)
            ≡ some (record token { usage_count = pos (n + uses_of token_id used) }))
  Uses-IsCounted _ _ _ token_id token n m (start first) within found c l b =
      let (_, below) = All-lookup _ token_id token (tokens_of first) within found in
      let none_yet : pos n ≡ pos (n + 0) = ap pos (omega arith) in
      (ground arith, found ∙ ap (λ u. some (record token { usage_count = u })) (c ∙ none_yet))
  Uses-IsCounted first last _ token_id token n m
        (use_next {vault = vault} {used = used} token_str master_key now request other shown before
          p h)
        within found c l b =
      let ih = Uses-IsWithinLimits first vault used before within in
      let (found', below, after) =
        next_uses vault last token_str master_key now request other shown ih p h in
      let (bound, now_found) =
        Uses-IsCounted first vault used token_id token n m before within found c l b in
      elim (Bool-cases (bytes_eq other.token_id token_id)) [
        | inl e ↦
            let (bound', counted) =
              one_more (tokens_of vault) other.token_id token_id other token
                (n + uses_of token_id used) m ((bytes_eq_iff other.token_id token_id).0 e) found'
                now_found l below b in
            (
              rw e (omega (arith, bound')),
              rw (after, e)
                  (counted ∙ ap (λ k. some (record token { usage_count = pos k })) (omega arith)),
            )
        | inr e ↦ (
          rw e bound,
          rw (after, e)
              (lookup-insert other.token_id token_id (use_token_once other) (tokens_of vault)
                ∙ rw e now_found),
        )
      ]
