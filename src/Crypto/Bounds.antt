-- ===== src/Crypto/Bounds.antt =====
-- The KDF parameters that `KDFConfigForContainer` accepts lie in the ranges of the policy.
use myminivault.Prelude.{
  ℕ, ap, if◌then◌else◌, err, bytes_eq, ◌^◌, ◌≤◌, ◌≡◌, ◌⊎◌, inl, inr, Bool, true, false, ok, arith,
  ◌++◌, codes,
}
use myminivault.Prelude.Int.{ℤ, pos, negsuc, ◌≤ℤ◌}
use myminivault.Prelude.Bits.{and_pred_iff}
use myminivault.Container.{Parsed, version_2, kdf_scrypt, kdf_argon2id, kdf_hkdf_sha256, kind_name}
use myminivault.Crypto.{ScryptConfig, Argon2idConfig, KdfConfig, hkdf_sha256_config}
use myminivault.Crypto.KdfPolicy.{
  and_pred, validate_scrypt_config, validate_argon2id_config, checked_uint32, scrypt_for,
  argon2id_for, hkdf_for, unsupported_container_kdf, scrypt_config_from_metadata,
  kdf_config_for_metadata, kdf_config_for_container, max_scrypt_n,
}

pub record IsSafeScrypt (cfg : ScryptConfig) : Type 0 where
  pub exponent : ℕ
  pub power : cfg.n ≡ pos (2 ^ exponent)
  pub n_range : (pos 2 ≤ℤ cfg.n) × (cfg.n ≤ℤ pos max_scrypt_n)
  pub r_range : (pos 1 ≤ℤ cfg.r) × (cfg.r ≤ℤ pos 8)
  pub p_range : (pos 1 ≤ℤ cfg.p) × (cfg.p ≤ℤ pos 16)
  pub key_range : (pos 1 ≤ℤ cfg.key_size) × (cfg.key_size ≤ℤ pos 32)

pub record IsSafeArgon2id (cfg : Argon2idConfig) : Type 0 where
  pub memory_range : (19456 ≤ cfg.memory_kib) × (cfg.memory_kib ≤ 262144)
  pub time_range : (1 ≤ cfg.time) × (cfg.time ≤ 8)
  pub threads_range : (1 ≤ cfg.threads) × (cfg.threads ≤ 8)
  pub key_range : (1 ≤ cfg.key_size) × (cfg.key_size ≤ 32)

-- The ranges that the tests of `validateScryptConfig` leave.
scrypt_ranges :
    (cfg : ScryptConfig)
    → validate_scrypt_config cfg ≡ ok tt
    → (pos 2 ≤ℤ cfg.n)
      × (and_pred cfg.n ≡ 0)
      × (cfg.n ≤ℤ pos max_scrypt_n)
      × (pos 1 ≤ℤ cfg.r)
      × (cfg.r ≤ℤ pos 8)
      × (pos 1 ≤ℤ cfg.p)
      × (cfg.p ≤ℤ pos 16)
      × (pos 1 ≤ℤ cfg.key_size)
      × (cfg.key_size ≤ℤ pos 32)
unfolding validate_scrypt_config
scrypt_ranges cfg h = ground arith

validate_argon2id_config-IsSafe :
    (cfg : Argon2idConfig) → validate_argon2id_config cfg ≡ ok tt → IsSafeArgon2id cfg
unfolding validate_argon2id_config
validate_argon2id_config-IsSafe cfg h = ground arith

and_pred-power : (n : ℤ) → pos 2 ≤ℤ n → and_pred n ≡ 0 → (k : ℕ) × (n ≡ pos (2 ^ k))
unfolding and_pred
and_pred-power (pos n) h e = let (k, p) = (and_pred_iff n (omega arith)).0 e in (k, ap pos p)
and_pred-power (negsuc n) h e = absurd (omega arith)

validate_scrypt_config-IsSafe :
    (cfg : ScryptConfig) → validate_scrypt_config cfg ≡ ok tt → IsSafeScrypt cfg
validate_scrypt_config-IsSafe cfg h =
    let (low, bits, high, r₁, r₂, p₁, p₂, k₁, k₂) = scrypt_ranges cfg h in
    let (k, p) = and_pred-power cfg.n low bits in
    record {
      exponent = k;
      power = p;
      n_range = (low, high);
      r_range = (r₁, r₂);
      p_range = (p₁, p₂);
      key_range = (k₁, k₂);
    }

-- A profile that the policy allows, by its name.
abbrev pub IsSafe : Parsed → KdfConfig → Type 0
IsSafe parsed cfg =
    ((cfg.name ≡ kdf_scrypt) × IsSafeScrypt cfg.scrypt)
    ⊎ ((cfg.name ≡ kdf_argon2id) × IsSafeArgon2id cfg.argon2id)
    ⊎ ((cfg.name ≡ kdf_hkdf_sha256)
        × (cfg.hkdf.info ≡ codes "myminivault:" ++ kind_name parsed.kind)
        × (1 ≤ cfg.hkdf.key_size)
        × (cfg.hkdf.key_size ≤ 32))

module _ (parsed : Parsed) (fallback : ScryptConfig) (cfg : KdfConfig) where
  scrypt_for_parts :
      scrypt_for parsed.metadata fallback ≡ ok cfg
      → (cfg.name ≡ kdf_scrypt) × (validate_scrypt_config cfg.scrypt ≡ ok tt)
  unfolding scrypt_for scrypt_config_from_metadata
  scrypt_for_parts h = ground arith

  argon2id_for_parts :
      argon2id_for parsed.metadata ≡ ok cfg
      → (cfg.name ≡ kdf_argon2id) × (validate_argon2id_config cfg.argon2id ≡ ok tt)
  unfolding argon2id_for
  argon2id_for_parts h = ground arith

  hkdf_for_parts :
      hkdf_for parsed.metadata parsed.kind ≡ ok cfg
      → (cfg.name ≡ kdf_hkdf_sha256)
        × (cfg.hkdf.info ≡ codes "myminivault:" ++ kind_name parsed.kind)
        × (1 ≤ cfg.hkdf.key_size)
        × (cfg.hkdf.key_size ≤ 32)
  unfolding hkdf_for checked_uint32 hkdf_sha256_config
  hkdf_for_parts h = ground arith

  scrypt_for-IsSafe : scrypt_for parsed.metadata fallback ≡ ok cfg → IsSafe parsed cfg
  scrypt_for-IsSafe h =
      let (name, valid) = scrypt_for_parts h in
      inl (name, validate_scrypt_config-IsSafe cfg.scrypt valid)

  argon2id_for-IsSafe : argon2id_for parsed.metadata ≡ ok cfg → IsSafe parsed cfg
  argon2id_for-IsSafe h =
      let (name, valid) = argon2id_for_parts h in
      inr (inl (name, validate_argon2id_config-IsSafe cfg.argon2id valid))

  -- Each case of the `switch`, by the test that leads to it.
  kdf_config_for_metadata-IsSafe :
      (a b c : Bool)
      → (if a
          then scrypt_for parsed.metadata fallback
          else if b
          then argon2id_for parsed.metadata
          else if c
          then hkdf_for parsed.metadata parsed.kind
          else err unsupported_container_kdf)
        ≡ ok cfg
      → IsSafe parsed cfg
  kdf_config_for_metadata-IsSafe true b c h = scrypt_for-IsSafe h
  kdf_config_for_metadata-IsSafe false true c h = argon2id_for-IsSafe h
  kdf_config_for_metadata-IsSafe false false true h = inr (inr (hkdf_for_parts h))
  kdf_config_for_metadata-IsSafe false false false h = cc

  accepted :
      kdf_config_for_container parsed fallback ≡ ok cfg
      → parsed.legacy ≡ false
      → version_2 ≤ parsed.version
      → kdf_config_for_metadata parsed.metadata parsed.kind fallback ≡ ok cfg
  unfolding kdf_config_for_container
  accepted h modern v = ground arith

  -- Whatever the metadata of a container of version 2 or later says, a KDF profile that is accepted
  -- from it is scrypt with a power of two between 2 and 2^20 and bounded r, p and key size, or
  -- argon2id with memory between 19 and 256 MiB and bounded time, threads and key size, or HKDF with
  -- a key of 1 to 32 bytes that is bound to the kind of the container.
  pub kdf_config_for_container-IsSafe :
      kdf_config_for_container parsed fallback ≡ ok cfg
      → parsed.legacy ≡ false
      → version_2 ≤ parsed.version
      → IsSafe parsed cfg
  unfolding kdf_config_for_metadata
  kdf_config_for_container-IsSafe h modern v =
      kdf_config_for_metadata-IsSafe (bytes_eq parsed.metadata.kdf kdf_scrypt)
        (bytes_eq parsed.metadata.kdf kdf_argon2id) (bytes_eq parsed.metadata.kdf kdf_hkdf_sha256)
        (accepted h modern v)
