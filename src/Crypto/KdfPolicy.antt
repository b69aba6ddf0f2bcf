-- ===== src/Crypto/KdfPolicy.antt =====
-- internal/crypto/kdf_policy.go: which KDF parameters a container may ask for.
use Prim.Native.Nat.{bit_and}
use myminivault.Prelude.{
  ℕ, ◌-◌, ◌*◌, ◌^◌, Bool, not, ◌||◌, ◌&&◌, ◌++◌, ltb, ◌==◌, if◌then◌else◌, codes, bytes_eq, Result,
  ok, err, ◌>>=◌, ◌>>◌, fail_if,
}
use myminivault.Prelude.Int.{ℤ, pos, pos_part, ltb_ℤ, leb_ℤ, eqb_ℤ}
use myminivault.Container.{
  Metadata, Parsed, version_2, kind_name, algorithm_aes_256_gcm, payload_checksum_json,
  ciphertext_nonce_prefixed, kdf_scrypt, kdf_argon2id, kdf_hkdf_sha256,
}
use myminivault.Crypto.{
  ScryptConfig, Argon2idConfig, KdfConfig, no_scrypt, no_argon2id, no_hkdf, hkdf_sha256_config,
}

pub data PolicyError : Type 0 where
  unsupported_algorithm unsupported_payload unsupported_layout unsupported_nonce_size : PolicyError
  unsupported_container_kdf incomplete_scrypt_metadata : PolicyError
  invalid_scrypt_n scrypt_n_exceeds scrypt_r_range scrypt_p_range scrypt_key_size_range :
      PolicyError
  argon2_memory_range argon2_time_range argon2_threads_range argon2_key_size_range : PolicyError
  hkdf_key_size_range outside_uint32 not_scrypt : PolicyError

abbrev pub max_scrypt_n : ℕ
max_scrypt_n = 2 ^ 20

abbrev pub max_scrypt_r : ℕ
max_scrypt_r = 8

abbrev pub max_scrypt_p : ℕ
max_scrypt_p = 16

abbrev pub max_scrypt_key_size : ℕ
max_scrypt_key_size = 32

abbrev pub min_argon2_memory_kib : ℕ
min_argon2_memory_kib = 19 * 1024

abbrev pub max_argon2_memory_kib : ℕ
max_argon2_memory_kib = 256 * 1024

abbrev pub max_argon2_time : ℕ
max_argon2_time = 8

abbrev pub max_argon2_threads : ℕ
max_argon2_threads = 8

abbrev pub max_argon2_key_size : ℕ
max_argon2_key_size = 32

-- `x <= 0 || x > max`
abbrev pub outside : ℤ → ℕ → Bool
outside x max' = leb_ℤ x (pos 0) || ltb_ℤ (pos max') x

-- `x & (x - 1)`, for an `x` that the test before it has found positive.
unfoldable pub and_pred : ℤ → ℕ
and_pred x = bit_and (pos_part x) (pos_part x - 1)

unfoldable pub validate_scrypt_config : ScryptConfig → Result PolicyError (Unit {0})
validate_scrypt_config cfg = do
  fail_if (leb_ℤ cfg.n (pos 1) || not (and_pred cfg.n == 0)) invalid_scrypt_n
  fail_if (ltb_ℤ (pos max_scrypt_n) cfg.n) scrypt_n_exceeds
  fail_if (outside cfg.r max_scrypt_r) scrypt_r_range
  fail_if (outside cfg.p max_scrypt_p) scrypt_p_range
  fail_if (outside cfg.key_size max_scrypt_key_size) scrypt_key_size_range
  ok tt

unfoldable pub validate_argon2id_config : Argon2idConfig → Result PolicyError (Unit {0})
validate_argon2id_config cfg = do
  fail_if (ltb cfg.memory_kib min_argon2_memory_kib || ltb max_argon2_memory_kib cfg.memory_kib)
      argon2_memory_range
  fail_if (cfg.time == 0 || ltb max_argon2_time cfg.time) argon2_time_range
  fail_if (cfg.threads == 0 || ltb max_argon2_threads cfg.threads) argon2_threads_range
  fail_if (cfg.key_size == 0 || ltb max_argon2_key_size cfg.key_size) argon2_key_size_range
  ok tt

unfoldable pub checked_uint32 : ℤ → Result PolicyError ℕ
checked_uint32 value = do
  fail_if (ltb_ℤ value (pos 0) || ltb_ℤ (pos (2 ^ 32 - 1)) value) outside_uint32
  ok (pos_part value)

-- `x != 0`
abbrev nonzero : ℤ → Bool
nonzero x = not (eqb_ℤ x (pos 0))

unfoldable pub scrypt_config_from_metadata :
    Metadata → ScryptConfig → Result PolicyError ScryptConfig
scrypt_config_from_metadata meta fallback =
    let given =
      nonzero meta.scrypt_n
      || nonzero meta.scrypt_r
      || nonzero meta.scrypt_p
      || nonzero meta.key_size in
    let complete =
      nonzero meta.scrypt_n
      && nonzero meta.scrypt_r
      && nonzero meta.scrypt_p
      && nonzero meta.key_size in
    do
      fail_if (given && not complete) incomplete_scrypt_metadata
      let cfg : ScryptConfig =
          if given
          then record {
            n = meta.scrypt_n;
            r = meta.scrypt_r;
            p = meta.scrypt_p;
            key_size = meta.key_size;
          }
          else fallback
      validate_scrypt_config cfg
      ok cfg

abbrev pub scrypt_profile : ScryptConfig → KdfConfig
scrypt_profile cfg = record {
  name = kdf_scrypt;
  scrypt = cfg;
  argon2id = no_argon2id;
  hkdf = no_hkdf;
}

abbrev pub argon2id_profile : Argon2idConfig → KdfConfig
argon2id_profile cfg = record {
  name = kdf_argon2id;
  scrypt = no_scrypt;
  argon2id = cfg;
  hkdf = no_hkdf;
}

-- The three cases of the `switch meta.KDF` of `KDFConfigForContainer`.
unfoldable pub scrypt_for : Metadata → ScryptConfig → Result PolicyError KdfConfig
scrypt_for meta fallback = do
  cfg ← scrypt_config_from_metadata meta fallback
  ok (scrypt_profile cfg)

unfoldable pub argon2id_for : Metadata → Result PolicyError KdfConfig
argon2id_for meta = do
  key_size ← checked_uint32 meta.key_size
  let cfg : Argon2idConfig = record {
    memory_kib = meta.argon2_memory_kib;
    time = meta.argon2_time;
    threads = meta.argon2_threads;
    key_size = key_size;
  }
  validate_argon2id_config cfg
  ok (argon2id_profile cfg)

unfoldable pub hkdf_for : Metadata → ℕ → Result PolicyError KdfConfig
hkdf_for meta kind = do
  fail_if (outside meta.key_size max_argon2_key_size) hkdf_key_size_range
  key_size ← checked_uint32 meta.key_size
  ok (hkdf_sha256_config (codes "myminivault:" ++ kind_name kind) key_size)

unfoldable pub kdf_config_for_metadata : Metadata → ℕ → ScryptConfig → Result PolicyError KdfConfig
kdf_config_for_metadata meta kind fallback =
    if bytes_eq meta.kdf kdf_scrypt
    then scrypt_for meta fallback
    else if bytes_eq meta.kdf kdf_argon2id
    then argon2id_for meta
    else if bytes_eq meta.kdf kdf_hkdf_sha256
    then hkdf_for meta kind
    else err unsupported_container_kdf

unfoldable pub kdf_config_for_container : Parsed → ScryptConfig → Result PolicyError KdfConfig
kdf_config_for_container parsed fallback =
    let meta = parsed.metadata in
    if parsed.legacy || ltb parsed.version version_2 then ok (scrypt_profile fallback) else do
      fail_if (not (bytes_eq meta.algorithm algorithm_aes_256_gcm)) unsupported_algorithm
      fail_if (not (bytes_eq meta.payload payload_checksum_json)) unsupported_payload
      fail_if (not (bytes_eq meta.ciphertext_layout ciphertext_nonce_prefixed)) unsupported_layout
      fail_if (not (eqb_ℤ meta.nonce_size (pos 12))) unsupported_nonce_size
      kdf_config_for_metadata meta parsed.kind fallback

unfoldable pub scrypt_config_for_container : Parsed → ScryptConfig → Result PolicyError ScryptConfig
scrypt_config_for_container parsed fallback = do
  kdf ← kdf_config_for_container parsed fallback
  fail_if (not (bytes_eq kdf.name kdf_scrypt)) not_scrypt
  ok kdf.scrypt
