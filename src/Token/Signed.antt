-- ===== src/Token/Signed.antt =====
-- Signed tokens: `CreateShortSignedToken`, `CreateShortSignedTokenV2`, `validTokenSignature` and
-- `ParseAndValidateProductionToken` of internal/token/token.go.
pub mod Accepted
pub mod Checked
use myminivault.Prelude.{
  ℕ, Bool, true, false, not, ◌&&◌, ◌||◌, ◌==◌, ◌++◌, if◌then◌else◌, List, [], ◌∷◌, Option, none,
  some, Bytes, codes, bytes_eq, reverse, Dict, lookup, entries, join_with, split_on, Result, ok,
  err, ◌>>=◌, ◌>>◌, fail_if, map_err,
}
use myminivault.Prelude.Int.{ℤ}
use myminivault.Model.{AccessToken, TokenManager, ExtendedVault, Time, after}
use myminivault.Commands.Import.{trim_byte}
use myminivault.Storage.Codec.{CodecError}
use myminivault.Token.{add_base64_padding, token_claims_match, is_expired_or_used_up}

-- What the Go libraries provide: HMAC-SHA-256 by key and text, encoding/base64, `%d`, `ParseInt` to
-- 64 bits, `Atoi`, and the `Unix` method of a time. A decoder answers `none` for its error.
pub record TokenLibrary : Type 0 where
  pub hmac_sha256 : Bytes → Bytes → Bytes
  pub std_encode : Bytes → Bytes
  pub std_decode : Bytes → Option Bytes
  pub url_encode : Bytes → Bytes
  pub url_decode : Bytes → Option Bytes
  pub format_int : ℤ → Bytes
  pub parse_int64 : Bytes → Option ℤ
  pub atoi : Bytes → Option ℤ
  pub unix : Time → ℤ

pub data TokenError : Type 0 where
  invalid_format malformed invalid_expiration invalid_max_uses no_master_key forged : TokenError
  cannot_load : CodecError → TokenError
  no_token_manager revoked expired used_up claims_mismatch : TokenError

abbrev pub or_error {ℓ} : {A : Type ℓ} → TokenError → Option A → Result TokenError A
or_error e none = err e
or_error e (some a) = ok a

-- `strings.TrimRight(s, "=")`
unfoldable pub trim_padding : Bytes → Bytes
trim_padding s = reverse (trim_byte b'=' (reverse s))

-- The fields of the decoded text.
pub record Fields : Type 0 where
  pub versioned : Bool
  pub token_id : Bytes
  pub key_pattern : Bytes
  pub expires : Bytes
  pub permissions : Bytes
  pub max_uses : Bytes
  pub signature : Bytes
  pub payload : Bytes

-- Six fields, or seven of which the first is `v2`.
unfoldable pub token_fields : List Bytes → Result TokenError Fields
token_fields (a ∷ b ∷ c ∷ d ∷ e ∷ f ∷ []) = ok (record {
  versioned = false;
  token_id = a;
  key_pattern = b;
  expires = c;
  permissions = d;
  max_uses = e;
  signature = f;
  payload = join_with b':' (a ∷ b ∷ c ∷ d ∷ e ∷ []);
})
token_fields (v ∷ a ∷ b ∷ c ∷ d ∷ e ∷ f ∷ []) =
    if bytes_eq v (codes "v2")
    then ok (record {
      versioned = true;
      token_id = a;
      key_pattern = b;
      expires = c;
      permissions = d;
      max_uses = e;
      signature = f;
      payload = join_with b':' (v ∷ a ∷ b ∷ c ∷ d ∷ e ∷ []);
    })
    else err malformed
token_fields _ = err malformed

module _ (lib : TokenLibrary) where
  -- The text that is signed, with the version in front of it or not.
  unfoldable pub claims_text : List Bytes → AccessToken → Bytes
  claims_text version token = join_with b':' (
      version
      ++ token.token_id
        ∷ token.key_pattern
        ∷ lib.format_int (lib.unix token.expires_at)
        ∷ join_with b',' token.permissions
        ∷ lib.format_int token.max_uses
        ∷ [])

  abbrev pub signature_text : Bytes → Bytes → Bytes
  signature_text key payload = lib.std_encode (lib.hmac_sha256 key payload)

  abbrev signed_text : Bytes → Bytes → Bytes
  signed_text key payload =
      trim_padding (lib.url_encode (payload ++ b':' ∷ signature_text key payload))

  unfoldable pub create_short_signed_token : AccessToken → Bytes → Bytes
  create_short_signed_token token secret_key = signed_text secret_key (claims_text [] token)

  unfoldable pub create_short_signed_token_v2 : AccessToken → Bytes → Bytes
  create_short_signed_token_v2 token token_master_key =
      signed_text token_master_key (claims_text (codes "v2" ∷ []) token)

  unfoldable pub valid_token_signature : Bytes → Bytes → Bytes → Bool
  valid_token_signature payload provided secret_key =
      bytes_eq provided (signature_text secret_key payload)

  unfoldable pub decoded_token : Bytes → Result TokenError Bytes
  decoded_token token_str =
      let padded = add_base64_padding token_str in
      elim (lib.url_decode padded) [
        | some text ↦ ok text
        | none ↦ or_error invalid_format (lib.std_decode padded)
      ]

  -- The test of the signature under the master key, for tokens of version 2.
  unfoldable pub check_master_signature : Fields → Option Bytes → Result TokenError (Unit {0})
  check_master_signature fields master_key =
      if fields.versioned
      then elim master_key [
        | none ↦ err no_master_key
        | some key ↦
            fail_if (not (valid_token_signature fields.payload fields.signature key)) forged
      ]
      else ok tt

  unfoldable pub check_usable : AccessToken → Time → Result TokenError (Unit {0})
  check_usable token now =
      if is_expired_or_used_up token now
      then (if after now token.expires_at then err expired else err used_up)
      else ok tt

  -- The tests against the shared vault.
  unfoldable pub check_registered :
      Fields → ℤ → ℤ → ExtendedVault → Time → Result TokenError (AccessToken × ExtendedVault)
  check_registered fields expires_unix max_uses vault now = do
    manager ← or_error no_token_manager vault.token_manager
    stored ← or_error revoked (lookup fields.token_id (entries manager.tokens))
    check_usable stored now
    fail_if
        (not (
          token_claims_match lib.unix stored fields.key_pattern expires_unix
            (split_on b',' fields.permissions) max_uses))
        claims_mismatch
    fail_if
        (not fields.versioned
          && not (valid_token_signature fields.payload fields.signature manager.secret_key))
        forged
    ok (stored, vault)

  -- `ParseAndValidateProductionToken`, from the master key, `none` where it cannot be had, and the
  -- result of `LoadEncryptedVault`.
  unfoldable pub parse_and_validate_production_token :
      Bytes
      → Option Bytes
      → Result CodecError ExtendedVault
      → Time
      → Result TokenError (AccessToken × ExtendedVault)
  parse_and_validate_production_token token_str master_key loaded now = do
    text ← decoded_token token_str
    fields ← token_fields (split_on b':' text)
    expires_unix ← or_error invalid_expiration (lib.parse_int64 fields.expires)
    max_uses ← or_error invalid_max_uses (lib.atoi fields.max_uses)
    check_master_signature fields master_key
    vault ← map_err cannot_load loaded
    check_registered fields expires_unix max_uses vault now
