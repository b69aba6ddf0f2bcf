-- ===== src/Sensitive.antt =====
-- internal/sensitive/sensitive.go: the checksum before an encrypted payload. SHA-256 (`Sum256`) and
-- `json.Valid` are parameters; that a sum has 32 bytes is the one law of them that is used.
use myminivault.Prelude.{
  ℕ, ◌≡◌, Bool, not, [], ◌∷◌, ◌++◌, map, leb, if◌then◌else◌, Bytes, bytes_eq, bytes_eq_refl, length,
  length-append, take, drop, is_empty, take-append-drop, bytes_eq_iff, take-append_of_length,
  drop-append_of_length, Result, ok, err, ◌>>◌, fail_if, arith, ◌+◌,
}

-- `shortErr` and `mismatchErr`, which each caller words for itself.
pub data ChecksumError : Type 0 where
  short mismatch : ChecksumError

abbrev pub sum_size : ℕ
sum_size = 32

-- `Wipe`
unfoldable pub wipe : Bytes → Bytes
wipe data' = map (λ b. 0) data'

module _ (sha256 : Bytes → Bytes) where
  unfoldable pub prefix_checksum : Bytes → Bytes
  prefix_checksum payload = sha256 payload ++ payload

  unfoldable pub strip_checksum : Bytes → Result ChecksumError Bytes
  strip_checksum data' = do
    fail_if (leb (length data') sum_size) short
    let payload = drop sum_size data'
    fail_if (not (bytes_eq (take sum_size data') (sha256 payload))) mismatch
    ok payload

  -- The error branch of `StripChecksumAllowLegacyJSON`.
  abbrev or_legacy :
      (Bytes → Bool) → Bytes → Result ChecksumError Bytes → Result ChecksumError Bytes
  or_legacy valid data' (ok payload) = ok payload
  or_legacy valid data' (err short) = err short
  or_legacy valid data' (err mismatch) = if valid data' then ok data' else err mismatch

  unfoldable pub strip_checksum_allow_legacy_json :
      (Bytes → Bool) → Bytes → Result ChecksumError Bytes
  strip_checksum_allow_legacy_json valid data' =
      if leb (length data') sum_size then ok data' else or_legacy valid data' (strip_checksum data')

parts :
    (sha256 : Bytes → Bytes) (data' payload : Bytes)
    → strip_checksum sha256 data' ≡ ok payload
    → (take sum_size data' ≡ sha256 (drop sum_size data')) × (drop sum_size data' ≡ payload)
unfolding strip_checksum
parts sha256 data' payload h =
    ground (arith, bytes_eq_iff (take sum_size data') (sha256 (drop sum_size data')))

module _ (sha256 : Bytes → Bytes) (size : (b : Bytes) → length (sha256 b) ≡ sum_size) where
  -- What `PrefixChecksum` writes `StripChecksum` reads back, if the payload is not empty; the sum of
  -- an empty payload alone is refused as too short.
  pub strip_checksum-prefix_checksum :
      (payload : Bytes)
      → strip_checksum sha256 (prefix_checksum sha256 payload)
        ≡ (if is_empty payload then err short else ok payload)
  unfolding strip_checksum prefix_checksum
  strip_checksum-prefix_checksum [] = ground (arith, size [], length-append {0} (sha256 []) [])
  strip_checksum-prefix_checksum (c ∷ p) = ground (
    arith,
    size (c ∷ p),
    length-append {0} (sha256 (c ∷ p)) (c ∷ p),
    take-append_of_length sum_size (sha256 (c ∷ p)) (c ∷ p) (size (c ∷ p)),
    drop-append_of_length sum_size (sha256 (c ∷ p)) (c ∷ p) (size (c ∷ p)),
    bytes_eq_refl (sha256 (c ∷ p)),
  )

  length-prefix_checksum :
      (payload : Bytes) → length (prefix_checksum sha256 payload) ≡ sum_size + length payload
  unfolding prefix_checksum
  length-prefix_checksum payload =
      omega (arith, length-append {0} (sha256 payload) payload, size payload)

  -- The reader that also accepts old payloads takes a checksummed payload to the same bytes.
  pub strip_checksum_allow_legacy_json-prefix_checksum :
      (valid : Bytes → Bool) (c : ℕ) (payload : Bytes)
      → strip_checksum_allow_legacy_json sha256 valid (prefix_checksum sha256 (c ∷ payload))
        ≡ ok (c ∷ payload)
  unfolding strip_checksum_allow_legacy_json
  strip_checksum_allow_legacy_json-prefix_checksum valid c payload =
      rw strip_checksum-prefix_checksum (ground (arith, length-prefix_checksum (c ∷ payload)))

-- What is accepted with a checksum is its own writing: no other bytes read as this payload.
pub prefix_checksum-strip_checksum :
    (sha256 : Bytes → Bytes) (data' payload : Bytes)
    → strip_checksum sha256 data' ≡ ok payload
    → prefix_checksum sha256 payload ≡ data'
unfolding prefix_checksum
prefix_checksum-strip_checksum sha256 data' payload h =
    let (sum, rest) = parts sha256 data' payload h in
    rw (← rest) (rw (← sum) (take-append-drop sum_size data'))
