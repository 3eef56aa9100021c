-- ===== src/Crypto.antt =====
-- services/common/crypto/src/lib.rs: the sealing of fields and of tenants' data keys. Bytes are numbers.
-- AES-256-GCM, SHA-256 and HMAC are arguments, and so are the nonces drawn. A key is an array of 32
-- bytes in the source, so the refusals of other lengths by the ciphers do not come up.
pub mod RoundTrip
pub mod Tests
use peanut_pos.Base.{ℕ, Option, none, some, List, [], ◌∷◌, ◌++◌, ◌==◌, leb, if◌then◌else◌}
use peanut_pos.Base.Lists.{length, take, drop}
use peanut_pos.Base.Api.{Result, ok, err}

abbrev pub Bytes : Type 0
Bytes = List ℕ

pub data CryptoError : Type 0 where
  invalid_key_length missing_nonce encrypt_failure decrypt_failure : CryptoError

-- The crates aes_gcm, sha2 and hmac: key, nonce and text of a cipher; key and text of a digest.
pub record Ciphers : Type 0 where
  pub encrypt : Bytes → Bytes → Bytes → Option Bytes
  pub decrypt : Bytes → Bytes → Bytes → Option Bytes
  pub sha256 : Bytes → Bytes
  pub hmac_sha256 : Bytes → Bytes → Bytes

abbrev pub key_length : ℕ
key_length = 32

abbrev pub nonce_length : ℕ
nonce_length = 12

-- b"novapos-hash-key".
abbrev pub hash_label : Bytes
hash_label =
    110 ∷ 111 ∷ 118 ∷ 97 ∷ 112 ∷ 111 ∷ 115 ∷ 45 ∷ 104 ∷ 97 ∷ 115 ∷ 104 ∷ 45 ∷ 107 ∷ 101 ∷ 121 ∷ []

module _ (lib : Ciphers) where
  unfoldable pub encrypt_with_key : Bytes → Bytes → Bytes → Result CryptoError Bytes
  encrypt_with_key key nonce plaintext = elim (lib.encrypt key nonce plaintext) [
    | none ↦ err encrypt_failure
    | some ciphertext ↦ ok (nonce ++ ciphertext)
  ]

  unfoldable pub decrypt_with_key : Bytes → Bytes → Result CryptoError Bytes
  unfolding take drop
  decrypt_with_key key blob =
      if leb (length blob) nonce_length
      then err missing_nonce
      else elim (lib.decrypt key (take nonce_length blob) (drop nonce_length blob)) [
        | none ↦ err decrypt_failure
        | some plaintext ↦ ok plaintext
      ]

  abbrev pub encrypt_field : Bytes → Bytes → Bytes → Result CryptoError Bytes
  encrypt_field = encrypt_with_key

  abbrev pub decrypt_field : Bytes → Bytes → Result CryptoError Bytes
  decrypt_field = decrypt_with_key

  unfoldable pub encrypt_tenant_dek : Bytes → Bytes → Bytes → Result CryptoError Bytes
  unfolding encrypt_with_key
  encrypt_tenant_dek master nonce dek = encrypt_with_key master nonce dek

  unfoldable pub decrypt_tenant_dek : Bytes → Bytes → Result CryptoError Bytes
  unfolding decrypt_with_key
  decrypt_tenant_dek master blob = elim (decrypt_with_key master blob) [
    | err e ↦ err e
    | ok plaintext ↦ if length plaintext == key_length then ok plaintext else err invalid_key_length
  ]

  unfoldable pub derive_hash_key : Bytes → Bytes
  derive_hash_key key = lib.sha256 (key ++ hash_label)

  unfoldable pub deterministic_hash : Bytes → Bytes → Bytes
  unfolding derive_hash_key
  deterministic_hash key value = lib.hmac_sha256 (derive_hash_key key) value
