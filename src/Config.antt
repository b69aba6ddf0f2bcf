-- ===== src/Config.antt =====
-- internal/config/config.go: the settings, their validation, and the KDF profiles made of them.
pub mod Saved
use Prim.Native.Nat.{bit_and}
use myminivault.Prelude.{
  ℕ, ◌-◌, ◌*◌, Bool, true, false, not, ◌||◌, ◌&&◌, ◌++◌, ltb, ◌==◌, if◌then◌else◌, Bytes, codes,
  bytes_eq, Result, ok, err, ◌>>=◌, ◌>>◌, fail_if, ◌%◌, ◌^◌, ◌+◌, Option, none, some,
}
use myminivault.Prelude.Int.{ℤ, pos, negsuc, pos_part, ltb_ℤ, leb_ℤ, eqb_ℤ}
use myminivault.Container.{kdf_scrypt, kdf_argon2id}
use myminivault.Crypto.{ScryptConfig, Argon2idConfig, KdfConfig, no_scrypt, no_argon2id, no_hkdf}
use myminivault.Crypto.KdfPolicy.{and_pred}

-- The argon2 fields are `uint32`, `uint32` and `uint8`.
pub record Config : Type 0 where
  pub scrypt_n : ℤ
  pub scrypt_r : ℤ
  pub scrypt_p : ℤ
  pub key_size : ℤ
  pub kdf : Bytes
  pub argon2_memory_kib : ℕ
  pub argon2_time : ℕ
  pub argon2_threads : ℕ
  pub max_backups : ℤ
  pub audit_log : Bool
  pub token_key_storage : Bytes
  pub rollback_mode : Bytes

abbrev pub default_config : Config
default_config = record {
  scrypt_n = pos 32768;
  scrypt_r = pos 8;
  scrypt_p = pos 1;
  key_size = pos 32;
  kdf = kdf_argon2id;
  argon2_memory_kib = 64 * 1024;
  argon2_time = 3;
  argon2_threads = 1;
  max_backups = pos 5;
  audit_log = true;
  token_key_storage = codes "auto";
  rollback_mode = codes "warn";
}

pub data ConfigError : Type 0 where
  scrypt_n_invalid scrypt_r_invalid scrypt_p_invalid key_size_invalid : ConfigError
  argon2_memory_invalid argon2_time_invalid argon2_threads_invalid kdf_invalid : ConfigError
  max_backups_invalid token_key_storage_invalid rollback_mode_invalid : ConfigError
  stat_failed read_failed malformed_json : ConfigError

-- `value > 0 && value&(value-1) == 0`
unfoldable pub is_power_of_two : ℤ → Bool
is_power_of_two value = ltb_ℤ (pos 0) value && and_pred value == 0

-- `x < low || x > high`
abbrev beyond : ℤ → ℕ → ℕ → Bool
beyond x low high = ltb_ℤ x (pos low) || ltb_ℤ (pos high) x

-- `switch s { case a, b, c: default: return err }`
abbrev is_none_of : Bytes → Bytes → Bytes → Bytes → Bool
is_none_of s a b c = not (bytes_eq s a || bytes_eq s b || bytes_eq s c)

-- The `switch cfg.KDF` of `Validate`.
unfoldable pub validate_kdf : Config → Result ConfigError (Unit {0})
validate_kdf cfg =
    if bytes_eq cfg.kdf kdf_argon2id
    then (do
      fail_if (ltb cfg.argon2_memory_kib (19 * 1024) || ltb (256 * 1024) cfg.argon2_memory_kib)
          argon2_memory_invalid
      fail_if (ltb cfg.argon2_time 1 || ltb 8 cfg.argon2_time) argon2_time_invalid
      fail_if (ltb cfg.argon2_threads 1 || ltb 8 cfg.argon2_threads) argon2_threads_invalid
      ok tt)
    else if bytes_eq cfg.kdf kdf_scrypt
    then ok tt
    else err kdf_invalid

unfoldable pub validate : Config → Result ConfigError (Unit {0})
validate cfg = do
  fail_if (beyond cfg.scrypt_n 32768 1048576 || not (is_power_of_two cfg.scrypt_n)) scrypt_n_invalid
  fail_if (beyond cfg.scrypt_r 1 16) scrypt_r_invalid
  fail_if (beyond cfg.scrypt_p 1 8) scrypt_p_invalid
  fail_if
      (not (eqb_ℤ cfg.key_size (pos 16))
        && not (eqb_ℤ cfg.key_size (pos 24))
        && not (eqb_ℤ cfg.key_size (pos 32)))
      key_size_invalid
  validate_kdf cfg
  fail_if (beyond cfg.max_backups 1 100) max_backups_invalid
  fail_if (is_none_of cfg.token_key_storage (codes "auto") (codes "file") (codes "keychain"))
      token_key_storage_invalid
  fail_if (is_none_of cfg.rollback_mode (codes "off") (codes "warn") (codes "block"))
      rollback_mode_invalid
  ok tt

-- How `os.Stat` and `os.ReadFile` answer for the config file.
pub data FileAnswer : Type 0 where
  missing unreadable stat_error : FileAnswer
  text : Bytes → FileAnswer

-- `LoadFile`; `unmarshal` is `json.Unmarshal` into the defaults.
unfoldable pub load_file : (Bytes → Config → Option Config) → FileAnswer → Result ConfigError Config
load_file unmarshal missing = ok default_config
load_file unmarshal stat_error = err stat_failed
load_file unmarshal unreadable = err read_failed
load_file unmarshal (text content) = elim (unmarshal content default_config) [
  | none ↦ err malformed_json
  | some cfg ↦ validate cfg >>= λ _. ok cfg
]

unfoldable pub scrypt_config : Config → ScryptConfig
scrypt_config cfg = record {
  n = cfg.scrypt_n;
  r = cfg.scrypt_r;
  p = cfg.scrypt_p;
  key_size = cfg.key_size;
}

-- `uint32(value)` of an `int`.
abbrev pub to_uint32 : ℤ → ℕ
to_uint32 (pos n) = n % 2 ^ 32
to_uint32 (negsuc n) = (2 ^ 32 - 1) - n % 2 ^ 32

unfoldable pub kdf_config : Config → KdfConfig
kdf_config cfg =
    if bytes_eq cfg.kdf kdf_scrypt
    then record {
      name = kdf_scrypt;
      scrypt = scrypt_config cfg;
      argon2id = no_argon2id;
      hkdf = no_hkdf;
    }
    else record {
      name = kdf_argon2id;
      scrypt = no_scrypt;
      argon2id = record {
        memory_kib = cfg.argon2_memory_kib;
        time = cfg.argon2_time;
        threads = cfg.argon2_threads;
        key_size = to_uint32 cfg.key_size;
      };
      hkdf = no_hkdf;
    }
