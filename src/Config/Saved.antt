-- ===== src/Config/Saved.antt =====
-- A vault that is saved under a validated configuration can be opened again, as far as the KDF
-- policy of the reader goes.
use myminivault.Container.RoundTrip.{contents}
use myminivault.Prelude.{
  ℕ, Result, refl, ◌&&◌, ◌*◌, ◌%◌, ◌^◌, ◌∙◌, ap, Bytes, bytes_eq_sound, ◌≤◌, ◌≡◌, ◌⊎◌, inl, inr,
  true, false, ok, err, arith, if◌then◌else◌, bytes_eq,
}
use myminivault.Prelude.Int.{ℤ, pos, negsuc, ltb_ℤ, ◌≤ℤ◌}
use myminivault.Container.{
  Metadata, default_metadata, normalize_metadata, int_or, number_or, kdf_scrypt, kdf_argon2id,
}
use myminivault.Crypto.{ScryptConfig, KdfConfig}
use myminivault.Crypto.KdfPolicy.{
  scrypt_profile, and_pred, validate_scrypt_config, validate_argon2id_config, checked_uint32,
  scrypt_config_from_metadata, scrypt_for, argon2id_for, PolicyError, scrypt_r_range,
  kdf_config_for_metadata, kdf_config_for_container,
}
use myminivault.Config.{
  to_uint32, Config, is_power_of_two, validate_kdf, validate, scrypt_config, kdf_config,
}
use myminivault.Storage.Profile.{container_metadata, kdf_config_from_metadata}

-- What the tests of `Validate` leave.
record IsUsable (cfg : Config) : Type 0 where
  n_low : pos 32768 ≤ℤ cfg.scrypt_n
  n_high : cfg.scrypt_n ≤ℤ pos 1048576
  n_bits : and_pred cfg.scrypt_n ≡ 0
  r_low : pos 1 ≤ℤ cfg.scrypt_r
  r_high : cfg.scrypt_r ≤ℤ pos 16
  p_low : pos 1 ≤ℤ cfg.scrypt_p
  p_high : cfg.scrypt_p ≤ℤ pos 8
  key_low : pos 16 ≤ℤ cfg.key_size
  key_high : cfg.key_size ≤ℤ pos 32
  kdf_valid : validate_kdf cfg ≡ ok tt

validate-IsUsable : (cfg : Config) → validate cfg ≡ ok tt → IsUsable cfg
unfolding validate is_power_of_two
validate-IsUsable cfg h = ground arith

-- The policy on scrypt parameters that are all given.
validate_scrypt_config-IsUsable :
    (cfg : Config)
    → IsUsable cfg
    → validate_scrypt_config (scrypt_config cfg)
      ≡ (if ltb_ℤ (pos 8) cfg.scrypt_r then err scrypt_r_range else ok tt)
unfolding validate_scrypt_config scrypt_config
validate_scrypt_config-IsUsable cfg u = ground (arith, u.n_bits)

-- The metadata that a save under scrypt writes, after it is read back.
abbrev scrypt_metadata : ℕ → Config → Metadata
scrypt_metadata n cfg =
    let meta = default_metadata n in
    record meta {
      kdf = kdf_scrypt;
      scrypt_n = cfg.scrypt_n;
      scrypt_r = cfg.scrypt_r;
      scrypt_p = cfg.scrypt_p;
      argon2_memory_kib = 0;
      argon2_time = 0;
      argon2_threads = 0;
      key_size = cfg.key_size;
    }

-- The metadata that a save under argon2id writes, after it is read back.
abbrev argon2id_metadata : ℕ → Config → Metadata
argon2id_metadata n cfg =
    let meta = default_metadata n in
    record meta {
      kdf = kdf_argon2id;
      argon2_memory_kib = cfg.argon2_memory_kib;
      argon2_time = cfg.argon2_time;
      argon2_threads = cfg.argon2_threads;
      key_size = cfg.key_size;
    }

not_scrypt : (k : Bytes) → bytes_eq k kdf_argon2id ≡ true → bytes_eq k kdf_scrypt ≡ false
unfolding bytes_eq
not_scrypt k e = rw (bytes_eq_sound k kdf_argon2id e)

keep_number : (x d : ℕ) → 1 ≤ x → number_or x d ≡ x
keep_number x d h = ground arith

small_fits : (k : ℤ) → pos 0 ≤ℤ k → k ≤ℤ pos 32 → pos (to_uint32 k) ≡ k
small_fits (pos k) l h = ap pos (omega arith)
small_fits (negsuc k) l h = absurd (omega arith)

uint32_small : (k : ℤ) → to_uint32 k % 2 ^ 32 ≡ to_uint32 k
uint32_small (pos k) = omega arith
uint32_small (negsuc k) = omega arith

kdf_config-scrypt :
    (cfg : Config)
    → bytes_eq cfg.kdf kdf_scrypt ≡ true
    → kdf_config cfg ≡ scrypt_profile (scrypt_config cfg)
unfolding kdf_config
kdf_config-scrypt cfg e = rw e

module _ (n : ℕ) (cfg : Config) (u : IsUsable cfg) where
  keep_key_size : int_or cfg.key_size (pos 32) ≡ cfg.key_size
  keep_key_size = ground (arith, u.key_low)

  normalize-scrypt :
      bytes_eq cfg.kdf kdf_scrypt ≡ true
      → normalize_metadata (container_metadata n (kdf_config cfg)) n ≡ scrypt_metadata n cfg
  unfolding normalize_metadata container_metadata kdf_config scrypt_config bytes_eq
  normalize-scrypt e = rw e (rw keep_key_size)

  argon2id_parts :
      bytes_eq cfg.kdf kdf_argon2id ≡ true
      → (19456 ≤ cfg.argon2_memory_kib)
        × (cfg.argon2_memory_kib ≤ 262144)
        × (1 ≤ cfg.argon2_time)
        × (cfg.argon2_time ≤ 8)
        × (1 ≤ cfg.argon2_threads)
        × (cfg.argon2_threads ≤ 8)
  unfolding validate_kdf
  argon2id_parts e = ground (arith, u.kdf_valid)

  key_size_fits : pos (to_uint32 cfg.key_size) ≡ cfg.key_size
  key_size_fits = small_fits cfg.key_size (omega (arith, u.key_low)) u.key_high

  keep_uint32 : int_or (pos (to_uint32 cfg.key_size)) (pos 32) ≡ cfg.key_size
  keep_uint32 = ap (λ k. int_or k (pos 32)) key_size_fits ∙ keep_key_size

  normalize-argon2id :
      bytes_eq cfg.kdf kdf_argon2id ≡ true
      → normalize_metadata (container_metadata n (kdf_config cfg)) n ≡ argon2id_metadata n cfg
  unfolding normalize_metadata container_metadata kdf_config bytes_eq
  normalize-argon2id e =
      let (m, _, t, _, c, _) = argon2id_parts e in
      rw (not_scrypt cfg.kdf e) (
        rw (
          keep_number cfg.argon2_memory_kib (64 * 1024) (omega arith),
          keep_number cfg.argon2_time 3 t,
          keep_number cfg.argon2_threads 1 c,
          keep_uint32,
        ))

  -- What the policy answers for a container that was saved under scrypt.
  policy-scrypt :
      (kind : ℕ) (salt ciphertext aad : Bytes) (fallback : ScryptConfig)
      → kdf_config_for_container
          (contents kind salt ciphertext aad (scrypt_metadata n cfg))
          fallback
        ≡ (if ltb_ℤ (pos 8) cfg.scrypt_r
            then err scrypt_r_range
            else ok (scrypt_profile (scrypt_config cfg)))
  unfolding kdf_config_for_container kdf_config_for_metadata scrypt_for scrypt_config_from_metadata
      scrypt_config default_metadata bytes_eq
  policy-scrypt kind salt ciphertext aad fallback =
      ground (arith, u.n_low, u.r_low, u.p_low, u.key_low, validate_scrypt_config-IsUsable cfg u)

  policy-argon2id :
      (kind : ℕ) (salt ciphertext aad : Bytes) (fallback : ScryptConfig)
      → bytes_eq cfg.kdf kdf_argon2id ≡ true
      → kdf_config_for_container
          (contents kind salt ciphertext aad (argon2id_metadata n cfg))
          fallback
        ≡ ok (kdf_config cfg)
  unfolding kdf_config_for_container kdf_config_for_metadata argon2id_for validate_argon2id_config
      checked_uint32 kdf_config default_metadata bytes_eq
  policy-argon2id kind salt ciphertext aad fallback e =
      ground (arith, argon2id_parts e, u.key_low, u.key_high, not_scrypt cfg.kdf e, key_size_fits)

  -- The profile that a save derives its key with is the configured one.
  save_profile :
      (bytes_eq cfg.kdf kdf_scrypt ≡ true) ⊎ (bytes_eq cfg.kdf kdf_argon2id ≡ true)
      → kdf_config_from_metadata (container_metadata n (kdf_config cfg)) (scrypt_config cfg)
        ≡ kdf_config cfg
  unfolding kdf_config_from_metadata container_metadata kdf_config scrypt_config bytes_eq
  save_profile (inl e) = rw e refl
  save_profile (inr e) = rw (not_scrypt cfg.kdf e) (rw (uint32_small cfg.key_size))

known_kdf :
    (cfg : Config)
    → validate_kdf cfg ≡ ok tt
    → (bytes_eq cfg.kdf kdf_scrypt ≡ true) ⊎ (bytes_eq cfg.kdf kdf_argon2id ≡ true)
unfolding validate_kdf
known_kdf cfg h = ground arith

-- The answer of the policy to a container saved under `cfg`.
abbrev pub reopened : Config → Result PolicyError KdfConfig
reopened cfg =
    if bytes_eq cfg.kdf kdf_scrypt && ltb_ℤ (pos 8) cfg.scrypt_r
    then err scrypt_r_range
    else ok (kdf_config cfg)

-- A save under a configuration that `Validate` accepts derives its key with the configured profile,
-- and the reader takes exactly that profile from the metadata of the container, except that a
-- scrypt profile with r above 8 is refused: such a vault is saved and cannot be opened again.
pub validate-reopened :
    (cfg : Config)
    → validate cfg ≡ ok tt
    → (n kind : ℕ) (salt ciphertext aad : Bytes) (fallback : ScryptConfig)
    → let meta = container_metadata n (kdf_config cfg) in
      (kdf_config_from_metadata meta (scrypt_config cfg) ≡ kdf_config cfg)
      × (kdf_config_for_container
            (contents kind salt ciphertext aad (normalize_metadata meta n))
            fallback
          ≡ reopened cfg)
validate-reopened cfg h n kind salt ciphertext aad fallback =
    let u = validate-IsUsable cfg h in
    elim (known_kdf cfg u.kdf_valid) [
      | inl e ↦ (
        save_profile n cfg u (inl e),
        rw (normalize-scrypt n cfg u e) (
            rw (e, kdf_config-scrypt cfg e)
              (policy-scrypt n cfg u kind salt ciphertext aad fallback)),
      )
      | inr e ↦ (
        save_profile n cfg u (inr e),
        rw (normalize-argon2id n cfg u e) (
            rw (not_scrypt cfg.kdf e)
              (policy-argon2id n cfg u kind salt ciphertext aad fallback e)),
      )
    ]
