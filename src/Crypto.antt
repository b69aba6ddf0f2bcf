-- ===== src/Crypto.antt =====
-- internal/crypto/crypto.go: key derivation and AES-GCM with the nonce before the ciphertext. The
-- primitives of the Go libraries are parameters.
pub mod KdfPolicy
pub mod Bounds
use myminivault.Prelude.{
  ℕ, ◌≡◌, refl, Bool, true, false, not, ◌||◌, List, [], ◌∷◌, ◌++◌, Option, none, some, ltb, ◌==◌,
  if◌then◌else◌, Bytes, codes, bytes_eq, length, take, drop, take-append_of_length,
  drop-append_of_length, length-append, Result, ok, err, ◌>>=◌, ◌>>◌, fail_if, arith,
}
use myminivault.Prelude.Int.{ℤ, pos}

pub record ScryptConfig : Type 0 where
  pub n : ℤ
  pub r : ℤ
  pub p : ℤ
  pub key_size : ℤ

-- `uint32`, `uint32`, `uint8` and `uint32`.
pub record Argon2idConfig : Type 0 where
  pub memory_kib : ℕ
  pub time : ℕ
  pub threads : ℕ
  pub key_size : ℕ

pub record HkdfConfig : Type 0 where
  pub info : Bytes
  pub key_size : ℕ

pub record KdfConfig : Type 0 where
  pub name : Bytes
  pub scrypt : ScryptConfig
  pub argon2id : Argon2idConfig
  pub hkdf : HkdfConfig

-- The zero values of the three parts.
abbrev pub no_scrypt : ScryptConfig
no_scrypt = record { n = pos 0; r = pos 0; p = pos 0; key_size = pos 0 }

abbrev pub no_argon2id : Argon2idConfig
no_argon2id = record { memory_kib = 0; time = 0; threads = 0; key_size = 0 }

abbrev pub no_hkdf : HkdfConfig
no_hkdf = record { info = []; key_size = 0 }

-- `HKDFSHA256Config`
unfoldable pub hkdf_sha256_config : Bytes → ℕ → KdfConfig
hkdf_sha256_config info key_size = record {
  name = codes "hkdf-sha256";
  scrypt = no_scrypt;
  argon2id = no_argon2id;
  hkdf = record { info = info; key_size = key_size };
}

pub data CryptoError : Type 0 where
  bad_scrypt_parameters hkdf_read_failed unsupported_kdf bad_aes_key ciphertext_too_short :
      CryptoError
  authentication_failed : CryptoError

-- What golang.org/x/crypto and crypto/cipher provide: password, salt and parameters to a key, and
-- AES-GCM sealing and opening by key, nonce, text and associated data.
pub record Primitives : Type 0 where
  pub scrypt_key : Bytes → Bytes → ScryptConfig → Option Bytes
  pub argon2_id_key : Bytes → Bytes → Argon2idConfig → Bytes
  pub hkdf_read : Bytes → Bytes → HkdfConfig → Option Bytes
  pub gcm_seal : Bytes → Bytes → Bytes → Bytes → Bytes
  pub gcm_open : Bytes → Bytes → Bytes → Bytes → Option Bytes

abbrev pub or_fail {ℓ} : {A : Type ℓ} → CryptoError → Option A → Result CryptoError A
or_fail e none = err e
or_fail e (some a) = ok a

-- `aes.NewCipher` takes keys of 16, 24 or 32 bytes.
unfoldable pub aes_key_size : ℕ → Bool
aes_key_size n = n == 16 || n == 24 || n == 32

abbrev pub gcm_nonce_size : ℕ
gcm_nonce_size = 12

module _ (prim : Primitives) where
  unfoldable pub derive_key : Bytes → Bytes → ScryptConfig → Result CryptoError Bytes
  derive_key password salt cfg = or_fail bad_scrypt_parameters (prim.scrypt_key password salt cfg)

  unfoldable pub derive_key_with_config : Bytes → Bytes → KdfConfig → Result CryptoError Bytes
  unfolding derive_key
  derive_key_with_config password salt cfg =
      if bytes_eq cfg.name (codes "scrypt")
      then derive_key password salt cfg.scrypt
      else if bytes_eq cfg.name (codes "argon2id")
      then ok (prim.argon2_id_key password salt cfg.argon2id)
      else if bytes_eq cfg.name (codes "hkdf-sha256")
      then or_fail hkdf_read_failed (prim.hkdf_read password salt cfg.hkdf)
      else err unsupported_kdf

  -- The nonce comes from `Random`.
  unfoldable pub encrypt_with_aad : Bytes → Bytes → Bytes → Bytes → Result CryptoError Bytes
  encrypt_with_aad nonce data' key aad = do
    fail_if (not (aes_key_size (length key))) bad_aes_key
    ok (nonce ++ prim.gcm_seal key nonce data' aad)

  unfoldable pub decrypt_with_aad : Bytes → Bytes → Bytes → Result CryptoError Bytes
  decrypt_with_aad ciphertext key aad = do
    fail_if (not (aes_key_size (length key))) bad_aes_key
    fail_if (ltb (length ciphertext) gcm_nonce_size) ciphertext_too_short
    or_fail authentication_failed
        (prim.gcm_open key (take gcm_nonce_size ciphertext) (drop gcm_nonce_size ciphertext) aad)

-- The law of an authenticated cipher: what is sealed opens under the same key, nonce and data.
abbrev pub Opens : Primitives → Type 0
Opens prim =
    (key nonce data' aad : Bytes)
    → prim.gcm_open key nonce (prim.gcm_seal key nonce data' aad) aad ≡ some data'

-- Decryption returns what was encrypted, under the same key and associated data.
pub decrypt_with_aad-encrypt_with_aad :
    (prim : Primitives) (opens : Opens prim)
    → (nonce data' key aad ciphertext : Bytes) → length nonce ≡ gcm_nonce_size
    → encrypt_with_aad prim nonce data' key aad ≡ ok ciphertext
    → decrypt_with_aad prim ciphertext key aad ≡ ok data'
unfolding decrypt_with_aad encrypt_with_aad
decrypt_with_aad-encrypt_with_aad prim opens nonce data' key aad ciphertext h e = ground (
  arith,
  opens key nonce data' aad,
  length-append {0} nonce (prim.gcm_seal key nonce data' aad),
  take-append_of_length gcm_nonce_size nonce (prim.gcm_seal key nonce data' aad) h,
  drop-append_of_length gcm_nonce_size nonce (prim.gcm_seal key nonce data' aad) h,
)
