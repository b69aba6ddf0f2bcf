-- ===== src/Storage/Sealed.antt =====
-- What a save seals and wraps in a container, a reader with the same key splits and decrypts again.
use myminivault.Prelude.{ℕ, ◌≡◌, ◌≢◌, ap, ◌∙◌, [], ◌∷◌, some, Bytes, length, ok}
use myminivault.Container.{
  Metadata, empty_metadata, normalize_metadata, associated_data, wrap, parse,
}
use myminivault.Container.RoundTrip.{contents, parse-wrap}
use myminivault.Crypto.{
  Opens, gcm_nonce_size, encrypt_with_aad, decrypt_with_aad, decrypt_with_aad-encrypt_with_aad,
}
use myminivault.Storage.Codec.{Library}

module _ (lib : Library) (opens : Opens lib.primitives) (kind n : ℕ) (meta : Metadata)
    (meta_text : Bytes) where
  -- The metadata as they are written, and encoding/json that reads them back.
  abbrev pub ReadsBack : Type 0
  ReadsBack =
      (lib.marshal_metadata (normalize_metadata meta n) ≡ some meta_text)
      × (meta_text ≢ [])
      × (lib.unmarshal_metadata meta_text empty_metadata ≡ some (normalize_metadata meta n))

  pub sealed_opens :
      (salt nonce text key aad ciphertext data' : Bytes)
      → length salt ≡ n
      → length nonce ≡ gcm_nonce_size
      → ReadsBack
      → associated_data lib.marshal_metadata kind salt (meta ∷ []) ≡ ok aad
      → encrypt_with_aad lib.primitives nonce text key aad ≡ ok ciphertext
      → wrap lib.marshal_metadata kind salt ciphertext (meta ∷ []) ≡ ok data'
      → (parse lib.unmarshal_metadata data' n
          ≡ ok (contents kind salt ciphertext aad (normalize_metadata meta n)))
        × (decrypt_with_aad lib.primitives ciphertext key aad ≡ ok text)
  sealed_opens salt nonce text key aad ciphertext data' ls ln (mm, mn, um) made encrypted wrapped =
      let (aad', made', whole, parsed) =
        parse-wrap lib.marshal_metadata lib.unmarshal_metadata kind salt ciphertext (meta ∷ [])
          meta_text data' (rw ls mm) mn (rw ls um) wrapped in
      let same : aad' ≡ aad = cc (made, made') in
      (
        (rw ls at parsed)
            ∙ ap (λ a. ok (contents kind salt ciphertext a (normalize_metadata meta n))) same,
        decrypt_with_aad-encrypt_with_aad lib.primitives opens nonce text key aad ciphertext ln
            encrypted,
      )
