-- ===== src/Container.antt =====
-- internal/container/container.go: the cleartext container around every encrypted runtime file.
-- The JSON text of the metadata is a parameter: `Marshal` and `Unmarshal` of encoding/json.
pub mod Laws
pub mod Layout
pub mod RoundTrip
use myminivault.Prelude.{
  ℕ, ◌+◌, ◌*◌, ◌/◌, ◌%◌, Bool, true, false, not, ◌&&◌, ◌||◌, List, [], ◌∷◌, ◌++◌, Option, none,
  some, ltb, leb, ◌==◌, if◌then◌else◌, Bytes, codes, bytes_eq, length, take, drop, is_empty, Result,
  ok, err, ◌>>=◌, ◌>>◌, fail_if,
}
use myminivault.Prelude.Int.{ℤ, pos, eqb_ℤ}

abbrev pub version_2 : ℕ
version_2 = 2

abbrev pub version_1 : ℕ
version_1 = 1

abbrev pub kind_main_vault : ℕ
kind_main_vault = 1

abbrev pub kind_recovery_vault : ℕ
kind_recovery_vault = 2

abbrev pub kind_shared_token_vault : ℕ
kind_shared_token_vault = 3

abbrev pub magic : Bytes
magic = codes "MYMV"

abbrev pub header_size : ℕ
header_size = 8

abbrev pub algorithm_aes_256_gcm : Bytes
algorithm_aes_256_gcm = codes "AES-256-GCM"

abbrev pub kdf_argon2id : Bytes
kdf_argon2id = codes "argon2id"

abbrev pub kdf_scrypt : Bytes
kdf_scrypt = codes "scrypt"

abbrev pub kdf_hkdf_sha256 : Bytes
kdf_hkdf_sha256 = codes "hkdf-sha256"

abbrev pub payload_checksum_json : Bytes
payload_checksum_json = codes "sha256-prefix-json"

abbrev pub ciphertext_nonce_prefixed : Bytes
ciphertext_nonce_prefixed = codes "nonce-prefixed"

-- The `int` fields are signed; the argon2 ones are `uint32`, `uint32` and `uint8`.
pub record Metadata : Type 0 where
  pub algorithm : Bytes
  pub kdf : Bytes
  pub scrypt_n : ℤ
  pub scrypt_r : ℤ
  pub scrypt_p : ℤ
  pub argon2_memory_kib : ℕ
  pub argon2_time : ℕ
  pub argon2_threads : ℕ
  pub key_size : ℤ
  pub salt_size : ℤ
  pub nonce_size : ℤ
  pub payload : Bytes
  pub ciphertext_layout : Bytes

-- `Metadata{}`
abbrev pub empty_metadata : Metadata
empty_metadata = record {
  algorithm = [];
  kdf = [];
  scrypt_n = pos 0;
  scrypt_r = pos 0;
  scrypt_p = pos 0;
  argon2_memory_kib = 0;
  argon2_time = 0;
  argon2_threads = 0;
  key_size = pos 0;
  salt_size = pos 0;
  nonce_size = pos 0;
  payload = [];
  ciphertext_layout = [];
}

-- A nil `AssociatedData` is the empty one.
pub record Parsed : Type 0 where
  pub salt : Bytes
  pub ciphertext : Bytes
  pub associated_data : Bytes
  pub version : ℕ
  pub kind : ℕ
  pub legacy : Bool
  pub metadata : Metadata

pub data Error : Type 0 where
  unknown_kind unsupported_version : ℕ → Error
  marshal_failed metadata_too_large too_short invalid_metadata legacy_too_short : Error

unfoldable pub default_metadata : ℕ → Metadata
default_metadata salt_size = record {
  algorithm = algorithm_aes_256_gcm;
  kdf = kdf_argon2id;
  scrypt_n = pos 0;
  scrypt_r = pos 0;
  scrypt_p = pos 0;
  argon2_memory_kib = 64 * 1024;
  argon2_time = 3;
  argon2_threads = 1;
  key_size = pos 32;
  salt_size = pos salt_size;
  nonce_size = pos 12;
  payload = payload_checksum_json;
  ciphertext_layout = ciphertext_nonce_prefixed;
}

-- `if v == "" { v = d }` and `if n == 0 { n = d }`.
abbrev pub text_or : Bytes → Bytes → Bytes
text_or v d = if is_empty v then d else v

abbrev pub number_or : ℕ → ℕ → ℕ
number_or n d = if n == 0 then d else n

abbrev pub int_or : ℤ → ℤ → ℤ
int_or n d = if eqb_ℤ n (pos 0) then d else n

unfoldable pub normalize_metadata : Metadata → ℕ → Metadata
unfolding default_metadata
normalize_metadata meta salt_size =
    let defaults = default_metadata salt_size in
    let kdf' = text_or meta.kdf defaults.kdf in
    let argon2 = bytes_eq kdf' kdf_argon2id in
    record meta {
      algorithm = text_or meta.algorithm defaults.algorithm;
      kdf = kdf';
      argon2_memory_kib =
          if argon2
          then number_or meta.argon2_memory_kib defaults.argon2_memory_kib
          else meta.argon2_memory_kib;
      argon2_time =
          if argon2 then number_or meta.argon2_time defaults.argon2_time else meta.argon2_time;
      argon2_threads =
          if argon2
          then number_or meta.argon2_threads defaults.argon2_threads
          else meta.argon2_threads;
      key_size = int_or meta.key_size defaults.key_size;
      salt_size = pos salt_size;
      nonce_size = int_or meta.nonce_size defaults.nonce_size;
      payload = text_or meta.payload defaults.payload;
      ciphertext_layout = text_or meta.ciphertext_layout defaults.ciphertext_layout;
    }

unfoldable pub kind_name : ℕ → Bytes
kind_name kind =
    if kind == kind_main_vault
    then codes "main-vault"
    else if kind == kind_recovery_vault
    then codes "recovery-vault"
    else if kind == kind_shared_token_vault
    then codes "shared-token-vault"
    else codes "unknown"

-- `KindName(kind) == "unknown"`
unfoldable pub is_unknown : ℕ → Bool
unfolding kind_name bytes_eq
is_unknown kind = bytes_eq (kind_name kind) (codes "unknown")

-- `data[i]`; every use is behind a check of the length.
unfoldable pub byte_at : Bytes → ℕ → ℕ
byte_at data' i = elim (drop i data') [ [] ↦ 0 | c ∷ s ↦ c ]

-- A variadic `metadata ...Metadata`: the first one given, or the defaults.
abbrev pub first_metadata : List Metadata → ℕ → Metadata
first_metadata [] salt_size = default_metadata salt_size
first_metadata (meta ∷ rest) salt_size = meta

-- The eight bytes of the header. The length of the metadata is big-endian.
abbrev pub header : ℕ → ℕ → Bytes
header kind meta_len = magic ++ (version_2 ∷ kind ∷ (meta_len / 256) ∷ (meta_len % 256) ∷ [])

module _ (marshal : Metadata → Option Bytes) where
  abbrev marshalled : Metadata → Result Error Bytes
  marshalled meta = elim (marshal meta) [ none ↦ err marshal_failed | some text ↦ ok text ]

  unfoldable pub associated_data : ℕ → Bytes → List Metadata → Result Error Bytes
  associated_data kind salt metadata = do
    fail_if (is_unknown kind) (unknown_kind kind)
    text ← marshalled (normalize_metadata (first_metadata metadata (length salt)) (length salt))
    fail_if (ltb 0xffff (length text)) metadata_too_large
    ok (header kind (length text) ++ (text ++ salt))

  unfoldable pub wrap : ℕ → Bytes → Bytes → List Metadata → Result Error Bytes
  wrap kind salt ciphertext metadata = do
    fail_if (is_unknown kind) (unknown_kind kind)
    aad ← associated_data kind salt metadata
    ok (aad ++ ciphertext)

-- `json.Unmarshal` stores into the value that it is given.
module _ (unmarshal : Bytes → Metadata → Option Metadata) where
  abbrev unmarshalled : Bytes → Result Error Metadata
  unmarshalled [] = ok empty_metadata
  unmarshalled (c ∷ text) = elim (unmarshal (c ∷ text) empty_metadata) [
    | none ↦ err invalid_metadata
    | some meta ↦ ok meta
  ]

  -- What follows a known header: the metadata ends at `offset`.
  abbrev sliced : Bytes → ℕ → ℕ → Metadata → Bytes → Parsed
  sliced data' salt_size offset meta aad = record {
    salt = take salt_size (drop offset data');
    ciphertext = drop salt_size (drop offset data');
    associated_data = aad;
    version = byte_at data' 4;
    kind = byte_at data' 5;
    legacy = false;
    metadata = normalize_metadata meta salt_size;
  }

  unfoldable pub parse_version_2 : Bytes → ℕ → Result Error Parsed
  parse_version_2 data' salt_size =
      let meta_len = byte_at data' 6 * 256 + byte_at data' 7 in
      let offset = header_size + meta_len in
      do
        fail_if (ltb (length data') (offset + salt_size)) too_short
        meta ← unmarshalled (take meta_len (drop header_size data'))
        ok (
            sliced data' salt_size offset (normalize_metadata meta salt_size)
              (take (offset + salt_size) data'))

  unfoldable pub parse_headered : Bytes → ℕ → Result Error Parsed
  parse_headered data' salt_size =
      let version = byte_at data' 4 in
      let kind = byte_at data' 5 in
      do
        fail_if (ltb (length data') (header_size + salt_size)) too_short
        fail_if (not (version == version_2) && not (version == version_1))
            (unsupported_version version)
        fail_if (is_unknown kind) (unknown_kind kind)
        if version == version_2
            then parse_version_2 data' salt_size
            else ok (sliced data' salt_size header_size (default_metadata salt_size) [])

  unfoldable pub parse_legacy : Bytes → ℕ → Result Error Parsed
  parse_legacy data' salt_size = do
    fail_if (ltb (length data') salt_size) legacy_too_short
    ok (record {
      salt = take salt_size data';
      ciphertext = drop salt_size data';
      associated_data = [];
      version = 0;
      kind = 0;
      legacy = true;
      metadata = empty_metadata;
    })

  unfoldable pub parse : Bytes → ℕ → Result Error Parsed
  parse data' salt_size =
      if leb (length magic) (length data') && bytes_eq (take (length magic) data') magic
      then parse_headered data' salt_size
      else parse_legacy data' salt_size
