-- ===== src/Token/Signed/Accepted.antt =====
-- What `CreateShortSignedTokenV2` makes is accepted by `ParseAndValidateProductionToken`.
use mathlib.Core.List.{append-nil, reverse-append, reverse-reverse, reverse-cons}
use myminivault.Prelude.{
  ℕ, zero, suc, ◌+◌, ◌%◌, ◌≤◌, ◌≡◌, ◌≢◌, ◌∙◌, refl, ap, sym, true, false, ◌++◌, [], ◌∷◌, List, some,
  Bytes, codes, bytes_eq, bytes_eq_refl, arith, All, All-append, Lacks, length, reverse, join_with,
  split_on-join_with, join_with-split_on, Lacks-join_with, join_with-concat, lookup, entries, ok,
}
use myminivault.Prelude.Int.{ℤ}
use myminivault.Model.{AccessToken, TokenManager, ExtendedVault, Time}
use myminivault.Commands.Import.{trim_byte}
use myminivault.Token.{add_base64_padding, token_claims_match, is_expired_or_used_up}
use myminivault.Token.Signed.{
  TokenLibrary, Fields, token_fields, claims_text, signature_text, trim_padding,
  create_short_signed_token_v2, valid_token_signature, decoded_token, check_master_signature,
  check_usable, check_registered, parse_and_validate_production_token,
}

abbrev pub padding : ℕ → Bytes
padding zero = []
padding (suc n) = b'=' ∷ padding n

-- A text of base64: a multiple of four bytes, at most the last two of them padding.
abbrev pub IsBase64 : Bytes → Type 0
IsBase64 s =
    (raw : Bytes) × (n : ℕ) × Lacks b'=' raw
    × (n ≤ 2)
    × ((length raw + n) % 4 ≡ 0)
    × (s ≡ raw ++ padding n)

trim_byte-calm : (c : ℕ) (s : Bytes) → Lacks c s → trim_byte c s ≡ s
unfolding trim_byte
trim_byte-calm c [] h = refl
trim_byte-calm c (a ∷ s) h = ground (arith, h.0)

trim_byte-padding : (n : ℕ) (s : Bytes) → Lacks b'=' s → trim_byte b'=' (padding n ++ s) ≡ s
unfolding trim_byte
trim_byte-padding zero s h = trim_byte-calm b'=' s h
trim_byte-padding (suc n) s h = trim_byte-padding n s h

padding-suc : (n : ℕ) → padding n ++ b'=' ∷ [] ≡ b'=' ∷ padding n
padding-suc zero = refl
padding-suc (suc n) = ap (λ s. b'=' ∷ s) (padding-suc n)

reverse-padding : (n : ℕ) → reverse (padding n) ≡ padding n
reverse-padding zero = refl
reverse-padding (suc n) =
    reverse-cons b'=' (padding n) ∙ ap (λ s. s ++ b'=' ∷ []) (reverse-padding n) ∙ padding-suc n

reverse-Lacks : (c : ℕ) (s : Bytes) → Lacks c s → Lacks c (reverse s)
reverse-Lacks c [] h = tt
reverse-Lacks c (a ∷ s) h =
    rw (reverse-cons a s)
      (All-append (λ x. x ≢ c) (reverse s) (a ∷ []) (reverse-Lacks c s h.1) (h.0, tt))

trim_padding-padding :
    (n : ℕ) (raw : Bytes) → Lacks b'=' raw → trim_padding (raw ++ padding n) ≡ raw
unfolding trim_padding
trim_padding-padding n raw h =
    rw
      (
        reverse-append raw (padding n),
        reverse-padding n,
        trim_byte-padding n (reverse raw) (reverse-Lacks b'=' raw h),
      )
      (reverse-reverse raw)

-- The padding that was trimmed is added again.
add_base64_padding-trim_padding : (s : Bytes) → IsBase64 s → add_base64_padding (trim_padding s) ≡ s
unfolding add_base64_padding
add_base64_padding-trim_padding s (raw, zero, h, le, m, e) =
    rw (e, trim_padding-padding 0 raw h, append-nil raw) (ground arith)
add_base64_padding-trim_padding s (raw, suc zero, h, le, m, e) =
    rw (e, trim_padding-padding 1 raw h) (ground arith)
add_base64_padding-trim_padding s (raw, suc (suc zero), h, le, m, e) =
    rw (e, trim_padding-padding 2 raw h) (ground arith)
add_base64_padding-trim_padding s (raw, suc (suc (suc n)), h, le, m, e) = ground arith

module _ (lib : TokenLibrary) (token : AccessToken) where
  abbrev fields_of : List Bytes
  fields_of =
      codes "v2"
      ∷ token.token_id
      ∷ token.key_pattern
      ∷ lib.format_int (lib.unix token.expires_at)
      ∷ join_with b',' token.permissions
      ∷ lib.format_int token.max_uses
      ∷ []

  decoded_token-trimmed :
      (text : Bytes)
      → IsBase64 (lib.url_encode text)
      → lib.url_decode (lib.url_encode text) ≡ some text
      → decoded_token lib (trim_padding (lib.url_encode text)) ≡ ok text
  unfolding decoded_token
  decoded_token-trimmed text h e =
      ground (arith, add_base64_padding-trim_padding (lib.url_encode text) h, e)

  -- The signed text is one more field.
  signed_fields :
      (signature : Bytes)
      → claims_text lib (codes "v2" ∷ []) token ++ b':' ∷ signature
        ≡ join_with b':' (fields_of ++ signature ∷ [])
  unfolding claims_text
  signed_fields signature = sym (join_with-concat b':' (codes "v2") _ signature)

  fields_of-Lack :
      Lacks b':' token.token_id
      → Lacks b':' token.key_pattern
      → All (Lacks b':') token.permissions
      → ((i : ℤ) → Lacks b':' (lib.format_int i))
      → (signature : Bytes) → Lacks b':' signature
      → All (Lacks b':') (fields_of ++ signature ∷ [])
  fields_of-Lack id pattern perms number signature sig = (
    ((omega arith), (omega arith, tt)),
    (
      id,
      (
        pattern,
        (
          number (lib.unix token.expires_at),
          (
            Lacks-join_with b':' b',' (omega arith) token.permissions perms,
            (number token.max_uses, (sig, tt)),
          ),
        ),
      ),
    ),
  )

  -- The fields of the token, as they are read back.
  abbrev read_fields : Bytes → Fields
  read_fields signature = record {
    versioned = true;
    token_id = token.token_id;
    key_pattern = token.key_pattern;
    expires = lib.format_int (lib.unix token.expires_at);
    permissions = join_with b',' token.permissions;
    max_uses = lib.format_int token.max_uses;
    signature = signature;
    payload = claims_text lib (codes "v2" ∷ []) token;
  }

  token_fields-read :
      (signature : Bytes) → token_fields (fields_of ++ signature ∷ []) ≡ ok (read_fields signature)
  unfolding token_fields claims_text bytes_eq
  token_fields-read signature = refl

  master_signature :
      (key : Bytes)
      → check_master_signature lib
          (read_fields (signature_text lib key (claims_text lib (codes "v2" ∷ []) token)))
          (some key)
        ≡ ok tt
  unfolding check_master_signature valid_token_signature
  master_signature key =
      rw (bytes_eq_refl (signature_text lib key (claims_text lib (codes "v2" ∷ []) token))) refl

  check_registered-accepts :
      (fields : Fields) (vault : ExtendedVault) (manager : TokenManager) (uses : ℤ) (now : Time)
      → fields.versioned ≡ true
      → fields.token_id ≡ token.token_id
      → fields.key_pattern ≡ token.key_pattern
      → fields.permissions ≡ join_with b',' token.permissions
      → vault.token_manager ≡ some manager
      → let stored = record token { usage_count = uses } in
        lookup token.token_id (entries manager.tokens) ≡ some stored
        → is_expired_or_used_up stored now ≡ false
        → check_registered lib fields (lib.unix token.expires_at) token.max_uses vault now
          ≡ ok (stored, vault)
  unfolding check_registered check_usable token_claims_match
  check_registered-accepts fields vault manager uses now v i k q e found u =
      rw
        (
          v,
          i,
          k,
          q,
          e,
          found,
          u,
          join_with-split_on b',' (join_with b',' token.permissions),
          bytes_eq_refl token.key_pattern,
          bytes_eq_refl (join_with b',' token.permissions),
        )
        (ground arith)

  -- A token of version 2 is accepted while the shared vault has it, it is not expired and not used
  -- up. The name, the pattern and the permissions hold no colon; the numbers and the texts of
  -- base64 are read back, and hold no colon either.
  pub parse_and_validate-created :
      (key : Bytes) (vault : ExtendedVault) (manager : TokenManager) (uses : ℤ) (now : Time)
      → ((t : Bytes) → IsBase64 (lib.url_encode t))
      → ((t : Bytes) → lib.url_decode (lib.url_encode t) ≡ some t)
      → ((t : Bytes) → Lacks b':' (lib.std_encode t))
      → ((i : ℤ) → Lacks b':' (lib.format_int i))
      → lib.parse_int64 (lib.format_int (lib.unix token.expires_at))
        ≡ some (lib.unix token.expires_at)
      → lib.atoi (lib.format_int token.max_uses) ≡ some token.max_uses
      → Lacks b':' token.token_id
      → Lacks b':' token.key_pattern
      → All (Lacks b':') token.permissions
      → vault.token_manager ≡ some manager
      → let stored = record token { usage_count = uses } in
        lookup token.token_id (entries manager.tokens) ≡ some stored
        → is_expired_or_used_up stored now ≡ false
        → parse_and_validate_production_token lib
            (create_short_signed_token_v2 lib token key)
            (some key)
            (ok vault)
            now
          ≡ ok (stored, vault)
  unfolding parse_and_validate_production_token create_short_signed_token_v2
  parse_and_validate-created key vault manager uses now padded decodes sig number expires most id
        pattern perms e found usable =
      let payload = claims_text lib (codes "v2" ∷ []) token in
      let signature = signature_text lib key payload in
      rw
        (
          decoded_token-trimmed (payload ++ b':' ∷ signature) (padded _) (decodes _),
          signed_fields signature,
          split_on-join_with b':' (codes "v2") _
              (fields_of-Lack id pattern perms number signature (sig _)).0
              (fields_of-Lack id pattern perms number signature (sig _)).1,
          token_fields-read signature,
          expires,
          most,
          master_signature key,
        )
        (check_registered-accepts (read_fields signature) vault manager uses now refl refl refl refl
          e found usable)
