-- ===== src/Container/RoundTrip.antt =====
-- `Parse` reads back what `Wrap` writes.
use mathlib.Core.List.{append_assoc}
use myminivault.Prelude.{
  ℕ, ◌+◌, ◌*◌, ◌/◌, ◌%◌, ◌≡◌, ◌≢◌, ◌≤◌, ◌∙◌, refl, ap, false, true, List, [], ◌∷◌, ◌++◌, Option,
  some, ltb, leb, suc, arith, Bytes, length, length-append, take, drop, take-append_of_length,
  drop-append_of_length, ok, bytes_eq,
}
use myminivault.Container.{
  Metadata, empty_metadata, normalize_metadata, first_metadata, Parsed, header, header_size,
  version_2, is_unknown, byte_at, associated_data, wrap, unmarshalled, parse_version_2,
  parse_headered, parse,
}
use myminivault.Container.Laws.{normalize_metadata_idem}

-- A container of version 2 with these parts.
abbrev pub contents : ℕ → Bytes → Bytes → Bytes → Metadata → Parsed
contents kind salt ciphertext aad meta = record {
  salt = salt;
  ciphertext = ciphertext;
  associated_data = aad;
  version = version_2;
  kind = kind;
  legacy = false;
  metadata = meta;
}

big_endian : (n : ℕ) → n / 256 * 256 + n % 256 ≡ n
big_endian n = omega arith

-- The slices of a written container.
module _ (kind : ℕ) (text salt ciphertext : Bytes) where
  abbrev aad : Bytes
  aad = header kind (length text) ++ (text ++ salt)

  drop-payload : drop (header_size + length text) (aad ++ ciphertext) ≡ salt ++ ciphertext
  drop-payload =
      ap (drop (header_size + length text)) (simp append_assoc)
      ∙ drop-append_of_length (header_size + length text) (header kind (length text) ++ text)
          (salt ++ ciphertext) (omega arith)

  take-salt : take (length salt) (drop (header_size + length text) (aad ++ ciphertext)) ≡ salt
  take-salt = rw drop-payload (take-append_of_length (length salt) salt ciphertext refl)

  drop-salt : drop (length salt) (drop (header_size + length text) (aad ++ ciphertext)) ≡ ciphertext
  drop-salt = rw drop-payload (drop-append_of_length (length salt) salt ciphertext refl)

  take-text : take (length text) (drop header_size (aad ++ ciphertext)) ≡ text
  take-text =
      ap (take (length text)) (append_assoc text salt ciphertext)
      ∙ take-append_of_length (length text) text (salt ++ ciphertext) refl

  take-aad : take (header_size + length text + length salt) (aad ++ ciphertext) ≡ aad
  take-aad =
      take-append_of_length (header_size + length text + length salt) aad ciphertext
        (omega (arith, length-append {0} text salt))

  long_enough :
      (k : ℕ)
      → k ≤ header_size + length text + length salt
      → ltb (length (aad ++ ciphertext)) k ≡ false
  long_enough k h =
      ground (arith, length-append {0} (text ++ salt) ciphertext, length-append {0} text salt)

magic_fits : (n : ℕ) → leb 4 (suc (suc (suc (suc (suc (suc (suc (suc n)))))))) ≡ true
magic_fits n = ground arith

module _ (unmarshal : Bytes → Metadata → Option Metadata) where
  -- The reader of version 2, from what each slice of the data holds.
  parse_version_2_slices :
      (data' salt ciphertext aad text : Bytes) (n meta_len : ℕ) (meta : Metadata)
      → byte_at data' 6 * 256 + byte_at data' 7 ≡ meta_len
      → ltb (length data') (header_size + meta_len + n) ≡ false
      → take meta_len (drop header_size data') ≡ text
      → unmarshalled unmarshal text ≡ ok meta
      → take n (drop (header_size + meta_len) data') ≡ salt
      → drop n (drop (header_size + meta_len) data') ≡ ciphertext
      → take (header_size + meta_len + n) data' ≡ aad
      → byte_at data' 4 ≡ version_2
      → parse_version_2 unmarshal data' n
        ≡ ok (contents (byte_at data' 5) salt ciphertext aad (normalize_metadata meta n))
  unfolding parse_version_2
  parse_version_2_slices data' salt ciphertext aad text n meta_len meta h₁ h₂ h₃ h₄ h₅ h₆ h₇ h₈ =
      rw (h₁, h₂, h₃, h₄, h₅, h₆, h₇, h₈, normalize_metadata_idem)

  parse_version_2-contents :
      (kind : ℕ) (text salt ciphertext : Bytes) (meta : Metadata)
      → unmarshalled unmarshal text ≡ ok meta
      → parse_version_2 unmarshal (aad kind text salt ciphertext ++ ciphertext) (length salt)
        ≡ ok (
            contents kind salt ciphertext
              (aad kind text salt ciphertext)
              (normalize_metadata meta (length salt)))
  unfolding byte_at
  parse_version_2-contents kind text salt ciphertext meta h =
      parse_version_2_slices (aad kind text salt ciphertext ++ ciphertext) salt ciphertext
        (aad kind text salt ciphertext) text (length salt) (length text) meta
        (big_endian (length text))
        (long_enough kind text salt ciphertext (header_size + length text + length salt)
          (omega arith))
        (take-text kind text salt ciphertext) h (take-salt kind text salt ciphertext)
        (drop-salt kind text salt ciphertext) (take-aad kind text salt ciphertext) refl

  unmarshalled_text :
      (text : Bytes) (meta : Metadata)
      → text ≢ []
      → unmarshal text empty_metadata ≡ some meta
      → unmarshalled unmarshal text ≡ ok meta
  unmarshalled_text [] meta hn hu = absurd (hn refl)
  unmarshalled_text (c ∷ text) meta hn hu = rw (hu, unmarshalled)

  parse-contents :
      (kind : ℕ) (text salt ciphertext : Bytes) (meta : Metadata)
      → is_unknown kind ≡ false
      → unmarshalled unmarshal text ≡ ok meta
      → parse unmarshal (aad kind text salt ciphertext ++ ciphertext) (length salt)
        ≡ ok (
            contents kind salt ciphertext
              (aad kind text salt ciphertext)
              (normalize_metadata meta (length salt)))
  unfolding parse parse_headered byte_at bytes_eq
  parse-contents kind text salt ciphertext meta known h =
      rw (long_enough kind text salt ciphertext (header_size + length salt) (omega arith)) (
        rw (magic_fits (length (text ++ salt ++ ciphertext)))
          (rw known (parse_version_2-contents kind text salt ciphertext meta h)))

module _ (marshal : Metadata → Option Bytes) (unmarshal : Bytes → Metadata → Option Metadata)
    (kind : ℕ) (salt ciphertext : Bytes) (metadata : List Metadata) where
  abbrev pub written : Metadata
  written = normalize_metadata (first_metadata metadata (length salt)) (length salt)

  wrap_parts :
      (text data' : Bytes)
      → marshal written ≡ some text
      → wrap marshal kind salt ciphertext metadata ≡ ok data'
      → (is_unknown kind ≡ false)
        × (associated_data marshal kind salt metadata ≡ ok (aad kind text salt ciphertext))
        × (data' ≡ aad kind text salt ciphertext ++ ciphertext)
  unfolding wrap associated_data
  wrap_parts text data' hm hw = ground arith

  -- If encoding/json reads back the metadata that it wrote, then what `Wrap` writes `Parse` splits
  -- into the same salt, ciphertext, kind and normalised metadata, with the bytes of
  -- `AssociatedData` as associated data, and these bytes are all that stands before the ciphertext.
  pub parse-wrap :
      (text data' : Bytes)
      → marshal written ≡ some text
      → text ≢ []
      → unmarshal text empty_metadata ≡ some written
      → wrap marshal kind salt ciphertext metadata ≡ ok data'
      → (a : Bytes) × (associated_data marshal kind salt metadata ≡ ok a)
        × (data' ≡ a ++ ciphertext)
        × (parse unmarshal data' (length salt) ≡ ok (contents kind salt ciphertext a written))
  parse-wrap text data' hm hn hu hw =
      let (known, made, whole) = wrap_parts text data' hm hw in
      (
        aad kind text salt ciphertext,
        made,
        whole,
        rw whole (
            parse-contents unmarshal kind text salt ciphertext written known
              (unmarshalled_text unmarshal text written hn hu)
            ∙ ap (λ m. ok (contents kind salt ciphertext (aad kind text salt ciphertext) m))
                (normalize_metadata_idem (first_metadata metadata (length salt)) (length salt))),
      )
