-- ===== src/Container/Layout.antt =====
-- Where `Parse` cuts a container of version 2.
use myminivault.Prelude.{
  zero, suc, ℕ, false, ◌≡◌, refl, sym, ◌∙◌, ap, Option, [], ◌∷◌, ◌++◌, Bytes, drop,
  take-append-drop, ok, arith, ◌+◌, ◌*◌,
}
use myminivault.Container.{
  Metadata, Parsed, header_size, version_2, byte_at, parse, parse_headered, parse_version_2,
  parse_legacy,
}

drop-nil : (n : ℕ) → drop {A = ℕ} n [] ≡ []
drop-nil zero = refl
drop-nil (suc n) = refl

drop-drop : (m n : ℕ) (s : Bytes) → drop n (drop m s) ≡ drop (m + n) s
drop-drop zero n s = ap (λ k. drop k s) (omega arith)
drop-drop (suc m) n [] = drop-nil n ∙ sym (drop-nil (suc m + n))
drop-drop (suc m) n (c ∷ s) =
    let moved : suc (m + n) ≡ suc m + n = omega arith in
    drop-drop m n s ∙ ap (λ k. drop k (c ∷ s)) moved

module _ (unmarshal : Bytes → Metadata → Option Metadata) where
  parse_version_2-layout :
      (data' : Bytes) (n : ℕ) (parsed : Parsed)
      → parse_version_2 unmarshal data' n ≡ ok parsed
      → parsed.associated_data ++ parsed.ciphertext ≡ data'
  unfolding parse_version_2
  parse_version_2-layout data' n parsed h =
      let offset = header_size + (byte_at data' 6 * 256 + byte_at data' 7) in
      ground (arith, drop-drop offset n data', take-append-drop (offset + n) data')

  -- A file that `Parse` accepts as a container of version 2 is its associated data and then its
  -- ciphertext: every byte before the ciphertext is authenticated.
  pub parse-layout :
      (data' : Bytes) (n : ℕ) (parsed : Parsed)
      → parse unmarshal data' n ≡ ok parsed
      → parsed.legacy ≡ false
      → parsed.version ≡ version_2
      → parsed.associated_data ++ parsed.ciphertext ≡ data'
  unfolding parse parse_headered parse_legacy
  parse-layout data' n parsed h l v = ground (arith, parse_version_2-layout data' n parsed)
