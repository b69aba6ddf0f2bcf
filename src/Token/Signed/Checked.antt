-- ===== src/Token/Signed/Checked.antt =====
-- What `ParseAndValidateProductionToken` guarantees of a token that it accepts.
use myminivault.Prelude.{
  ◌≡◌, true, false, some, Option, Bytes, arith, Result, ok, >>=-eq-ok, map_err-eq-ok, lookup,
  entries, split_on, bytes_eq_iff, if◌then◌else◌, ◌∙◌, ap, none, Bool-cases, inl, inr, map_err,
}
use myminivault.Prelude.Int.{ℤ, leb_ℤ}
use myminivault.Model.{AccessToken, TokenManager, ExtendedVault, Time, after}
use myminivault.Storage.Codec.{CodecError}
use myminivault.Token.{token_claims_match, is_expired_or_used_up}
use myminivault.Token.Signed.{
  TokenLibrary, TokenError, Fields, check_usable, check_registered, check_master_signature,
  valid_token_signature, parse_and_validate_production_token, decoded_token, token_fields, or_error,
}

or_error-eq-ok :
    {A : Type 0} (e : TokenError) (o : Option A) {a : A} → or_error e o ≡ ok a → o ≡ some a
or_error-eq-ok e o h = ground arith

-- The key that a token is signed with: the master key from version 2 on, and the secret key of the
-- shared vault before.
abbrev pub signing_key : Fields → Option Bytes → TokenManager → Option Bytes
signing_key fields master_key manager =
    if fields.versioned then master_key else some manager.secret_key

module _ (lib : TokenLibrary) where
  -- Registered under its name, in time, below its limit, and with the pattern of the text.
  abbrev pub IsRegistered : Fields → TokenManager → AccessToken → Time → Type 0
  IsRegistered fields manager token now =
      (lookup fields.token_id (entries manager.tokens) ≡ some token)
      × (after now token.expires_at ≡ false)
      × (leb_ℤ token.max_uses token.usage_count ≡ false)
      × (fields.key_pattern ≡ token.key_pattern)

  -- The facts that the tests against the shared vault leave.
  abbrev Facts : Fields → ExtendedVault → ExtendedVault → TokenManager → AccessToken → Time → Type 0
  Facts fields loaded vault manager token now =
      (loaded ≡ vault)
      × (vault.token_manager ≡ some manager)
      × IsRegistered fields manager token now
      × ((fields.versioned ≡ false)
          → valid_token_signature lib fields.payload fields.signature manager.secret_key ≡ true)

  check_registered-checked :
      (fields : Fields) (expires_unix max_uses : ℤ) (loaded vault : ExtendedVault)
      (token : AccessToken) (now : Time)
      → check_registered lib fields expires_unix max_uses loaded now ≡ ok (token, vault)
      → (manager : TokenManager) × Facts fields loaded vault manager token now
  unfolding check_registered check_usable is_expired_or_used_up token_claims_match
  check_registered-checked fields expires_unix max_uses loaded vault token now h =
      let (manager, m, rest) = >>=-eq-ok (or_error _ loaded.token_manager) _ h in
      let (stored, s, more) =
        >>=-eq-ok (or_error _ (lookup fields.token_id (entries manager.tokens))) _ rest in
      let found = or_error-eq-ok _ (lookup fields.token_id (entries manager.tokens)) s in
      let manages = or_error-eq-ok _ loaded.token_manager m in
      let pattern = bytes_eq_iff stored.key_pattern fields.key_pattern in (manager, ground arith)

  check_master_signature-checked :
      (fields : Fields) (master_key : Option Bytes) (manager : TokenManager)
      → check_master_signature lib fields master_key ≡ ok tt
      → ((fields.versioned ≡ false)
          → valid_token_signature lib fields.payload fields.signature manager.secret_key ≡ true)
      → (key : Bytes) × (signing_key fields master_key manager ≡ some key)
        × (valid_token_signature lib fields.payload fields.signature key ≡ true)
  unfolding check_master_signature
  check_master_signature-checked fields none manager h k =
      (manager.secret_key, ground arith, ground arith)
  check_master_signature-checked fields (some key) manager h k =
      elim (Bool-cases fields.versioned) [
        | inl v ↦ (key, ground arith, ground arith)
        | inr v ↦ (manager.secret_key, ground arith, ground arith)
      ]

  -- A token that is accepted is registered in the shared vault that was loaded, in time, below
  -- its limit of uses and with the pattern of its text, and the text is signed with the master key or,
  -- in the version before, with the secret key of the shared vault.
  pub parse_and_validate-checked :
      (token_str : Bytes) (master_key : Option Bytes) (loaded : Result CodecError ExtendedVault)
      (now : Time) (token : AccessToken) (vault : ExtendedVault)
      → parse_and_validate_production_token lib token_str master_key loaded now ≡ ok (token, vault)
      → (text : Bytes) × (fields : Fields) × (manager : TokenManager) × (key : Bytes)
        × (decoded_token lib token_str ≡ ok text)
        × (token_fields (split_on b':' text) ≡ ok fields)
        × (loaded ≡ ok vault)
        × (vault.token_manager ≡ some manager)
        × IsRegistered fields manager token now
        × (signing_key fields master_key manager ≡ some key)
        × (valid_token_signature lib fields.payload fields.signature key ≡ true)
  unfolding parse_and_validate_production_token
  parse_and_validate-checked token_str master_key loaded now token vault h =
      let (text, t, h1) = >>=-eq-ok (decoded_token lib token_str) _ h in
      let (fields, f, h2) = >>=-eq-ok (token_fields (split_on b':' text)) _ h1 in
      let (expires_unix, e, h3) = >>=-eq-ok (or_error _ (lib.parse_int64 fields.expires)) _ h2 in
      let (max_uses, m, h4) = >>=-eq-ok (or_error _ (lib.atoi fields.max_uses)) _ h3 in
      let (_, master, h5) = >>=-eq-ok (check_master_signature lib fields master_key) _ h4 in
      let (opened, l, h6) = >>=-eq-ok (map_err _ loaded) _ h5 in
      let (manager, facts) =
        check_registered-checked fields expires_unix max_uses opened vault token now h6 in
      let (same, managed, registered, unversioned) = facts in
      let (key, k, signed) =
        check_master_signature-checked fields master_key manager master unversioned in
      (
        text,
        fields,
        manager,
        key,
        t,
        f,
        map_err-eq-ok _ loaded l ∙ ap (λ v. ok v) same,
        managed,
        registered,
        k,
        signed,
      )
