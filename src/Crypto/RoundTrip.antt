-- ===== src/Crypto/RoundTrip.antt =====
-- What is sealed is opened again.
use peanut_pos.Base.{◌<◌, ◌≡◌, refl, false, subst, some, Option-cases, inl, inr, ◌++◌, leb, arith}
use peanut_pos.Base.Lists.{length, take, drop, take-append, drop-append, length-append}
use peanut_pos.Base.Api.{ok}
use peanut_pos.Crypto.{
  Bytes, Ciphers, nonce_length, key_length, encrypt_with_key, decrypt_with_key, encrypt_tenant_dek,
  decrypt_tenant_dek,
}

-- What AES-256-GCM promises: a ciphertext is opened with the key and the nonce that it was made with,
-- and is longer than its text by the tag.
pub record IsAead (lib : Ciphers) : Type 0 where
  pub opens :
      (key nonce text sealed : Bytes)
      → lib.encrypt key nonce text ≡ some sealed
      → lib.decrypt key nonce sealed ≡ some text
  pub tagged :
      (key nonce text sealed : Bytes)
      → lib.encrypt key nonce text ≡ some sealed
      → length text < length sealed

module _ (lib : Ciphers) (aead : IsAead lib) where
  pub decrypt-encrypt_with_key :
      (key nonce text blob : Bytes)
      → length nonce ≡ nonce_length
      → encrypt_with_key lib key nonce text ≡ ok blob
      → decrypt_with_key lib key blob ≡ ok text
  unfolding encrypt_with_key decrypt_with_key
  decrypt-encrypt_with_key key nonce text blob size made =
      elim (Option-cases (lib.encrypt key nonce text)) [
        | inl e ↦ absurd (ground arith)
        | inr (sealed, e) ↦
            let whole : nonce ++ sealed ≡ blob = ground arith in
            let first_part : take nonce_length blob ≡ nonce =
              subst (λ b. take nonce_length b ≡ nonce) whole
                (subst (λ n. take n (nonce ++ sealed) ≡ nonce) size (take-append nonce sealed)) in
            let rest : drop nonce_length blob ≡ sealed =
              subst (λ b. drop nonce_length b ≡ sealed) whole
                (subst (λ n. drop n (nonce ++ sealed) ≡ sealed) size (drop-append nonce sealed)) in
            let long : leb (length blob) nonce_length ≡ false =
              subst (λ b. leb (length b) nonce_length ≡ false) whole
                (ground (arith, length-append nonce sealed, aead.tagged key nonce text sealed e)) in
            rw (long, first_part, rest, aead.opens key nonce text sealed e) refl
      ]

  -- A tenant's data key of 32 bytes that is sealed with the master key and a nonce of 12 bytes is
  -- opened with the master key as it was, and so is a field with its data key.
  pub decrypt-encrypt_tenant_dek :
      (master nonce dek blob : Bytes)
      → length nonce ≡ nonce_length
      → length dek ≡ key_length
      → encrypt_tenant_dek lib master nonce dek ≡ ok blob
      → decrypt_tenant_dek lib master blob ≡ ok dek
  unfolding encrypt_tenant_dek decrypt_tenant_dek
  decrypt-encrypt_tenant_dek master nonce dek blob size whole made =
      rw (decrypt-encrypt_with_key master nonce dek blob size made, decrypt_tenant_dek)
        (ground arith)
