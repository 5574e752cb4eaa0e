-- ===== src/Keys.antt =====
-- src/keys.rs and the check of src/passwords.rs: the credentials of the clients. The ciphers and
-- bcrypt are parameters.
pub mod Reload
pub mod Passwords
pub mod LastLine
use psrt.Prelude.{
  ℕ, ◌-◌, ◌≡◌, Bool, true, false, Option, none, some, [], ◌∷◌, if◌then◌else◌, ltb, ◌==◌, length,
  take, drop,
}
use psrt.Prelude.Bytes.{Bytes}
use psrt.Prelude.Assoc.{Assoc, lookup}
use psrt.Wire.{auth_login_pass, auth_key_aes128_gcm, auth_key_aes256_gcm}
use psrt.Fault.{Result, ok, err, error_invalid_data, error_access, text, shown}

-- `symm::Cipher`.
pub data Cipher : Type 0 where
  aes_128_gcm aes_256_gcm : Cipher

-- What the crates `openssl` and `bcrypt` compute: `encrypt_aead` gives the ciphertext and the
-- digest, `decrypt_aead` takes the key, the nonce, the ciphertext and the digest.
pub record Crypto : Type 0 where
  pub encrypt_aead : Cipher → Bytes → Bytes → Bytes → Result (Bytes × Bytes)
  pub decrypt_aead : Cipher → Bytes → Bytes → Bytes → Bytes → Result Bytes
  pub bcrypt_verify : Bytes → Bytes → Result Bool

-- The documented behaviour of AES-GCM in `openssl`, with a digest of 16 bytes.
pub record CryptoLaws (C : Crypto) : Type 0 where
  pub tag_length :
      (cipher : Cipher) (key iv plain coded tag : Bytes)
      → C.encrypt_aead cipher key iv plain ≡ ok (coded, tag)
      → length tag ≡ 16
  pub coded_length :
      (cipher : Cipher) (key iv plain coded tag : Bytes)
      → C.encrypt_aead cipher key iv plain ≡ ok (coded, tag)
      → length coded ≡ length plain
  pub decrypts :
      (cipher : Cipher) (key iv plain coded tag : Bytes)
      → C.encrypt_aead cipher key iv plain ≡ ok (coded, tag)
      → C.decrypt_aead cipher key iv coded tag ≡ ok plain

pub data EncryptionType : Type 0 where
  no aes128_gcm aes256_gcm : EncryptionType

unfoldable pub from_byte : ℕ → Result EncryptionType
from_byte b =
    if b == auth_login_pass
    then ok no
    else if b == auth_key_aes128_gcm
    then ok aes128_gcm
    else if b == auth_key_aes256_gcm
    then ok aes256_gcm
    else err (error_invalid_data (text "unsupported encryption type" ∷ []))

abbrev pub need_decrypt : EncryptionType → Bool
need_decrypt no = false
need_decrypt aes128_gcm = true
need_decrypt aes256_gcm = true

pub record Key : Type 0 where
  pub cipher_aes_128 : Bytes
  pub cipher_aes_256 : Bytes

-- `Keys` and `Passwords`, `none` before a file was loaded.
abbrev pub Keys : Type 0
Keys = Option (Assoc Key)

abbrev pub Passwords : Type 0
Passwords = Option (Assoc Bytes)

module _ (C : Crypto) where
  -- `decrypt`: the digest is the last 16 bytes.
  unfoldable pub decrypt : Cipher → Bytes → Bytes → Bytes → Result Bytes
  decrypt cipher key iv data_block =
      let digest_pos = length data_block - 16 in
      C.decrypt_aead cipher key iv (take digest_pos data_block) (drop digest_pos data_block)

  -- `EncryptionType::No` panics in the source; no caller passes it.
  unfoldable pub decrypt_with : Key → EncryptionType → Bytes → Result Bytes
  unfolding decrypt
  decrypt_with key no block = err (error_invalid_data (text "Attempt to decrypt unencrypted" ∷ []))
  decrypt_with key aes128_gcm block =
      decrypt aes_128_gcm key.cipher_aes_128 (take 12 block) (drop 12 block)
  decrypt_with key aes256_gcm block =
      decrypt aes_256_gcm key.cipher_aes_256 (take 12 block) (drop 12 block)

  abbrev pub key_of : Bytes → Keys → Option Key
  key_of key_id none = none
  key_of key_id (some keys) = lookup key_id keys

  abbrev pub decrypt_known : Option Key → Bytes → Bytes → EncryptionType → Result Bytes
  decrypt_known none block key_id tp =
      err (error_access (text "no such key id: " ∷ shown key_id ∷ []))
  decrypt_known (some key) block key_id tp =
      if ltb (length block) 29
      then err (error_invalid_data (text "Invalid encrypted data" ∷ []))
      else decrypt_with key tp block

  unfoldable pub auth_and_decr : Keys → Bytes → Bytes → EncryptionType → Result Bytes
  unfolding decrypt_with lookup
  auth_and_decr keys block key_id tp = decrypt_known (key_of key_id keys) block key_id tp

  -- `unwrap_or(false)` on what bcrypt gives.
  abbrev pub verified : Result Bool → Bool
  verified (ok b) = b
  verified (err e) = false

  abbrev pub verify_hash : Option Bytes → Bytes → Bool
  verify_hash none password = false
  verify_hash (some hash) password = verified (C.bcrypt_verify password hash)

  -- `Passwords::verify`.
  unfoldable pub verify : Passwords → Bytes → Bytes → Bool
  unfolding lookup
  verify none login password = false
  verify (some map) login password = verify_hash (lookup login map) password
