-- ===== src/Lanplus/Crypto.antt =====
-- src/plugins/lanplus/lanplus_crypt_impl.c: what the code relies on of OpenSSL, and the dispatch
-- of `lanplus_HMAC`, `lanplus_encrypt_aes_cbc_128` and `lanplus_decrypt_aes_cbc_128` on it.
use ipmitool.Common.{ℕ, ◌%◌, ◌≡◌, List, [], Option, none, some, ◌==◌, ◌||◌, if◌then◌else◌, length}

pub data Hash : Type 0 where
  sha1 md5 sha256 : Hash

abbrev pub digest_length : Hash → ℕ
digest_length sha1 = 20
digest_length md5 = 16
digest_length sha256 = 32

-- `HMAC` and the AES-128-CBC functions without padding, with their documented properties: the
-- length of a digest, that encryption keeps the length of whole blocks, and that decryption with
-- the same key and initialization vector undoes it.
pub record OpenSsl : Type 0 where
  pub hmac : Hash → List ℕ → List ℕ → List ℕ
  pub hmac_length : (h : Hash) (key d : List ℕ) → length (hmac h key d) ≡ digest_length h
  pub aes_encrypt : List ℕ → List ℕ → List ℕ → List ℕ
  pub aes_decrypt : List ℕ → List ℕ → List ℕ → List ℕ
  pub encrypt_length :
      (iv key d : List ℕ) → length d % 16 ≡ 0 → length (aes_encrypt iv key d) ≡ length d
  pub decrypt_encrypt :
      (iv key d : List ℕ) → length d % 16 ≡ 0 → aes_decrypt iv key (aes_encrypt iv key d) ≡ d

abbrev pub auth_rakp_none : ℕ
auth_rakp_none = 0

abbrev pub auth_rakp_hmac_sha1 : ℕ
auth_rakp_hmac_sha1 = 1

abbrev pub auth_rakp_hmac_md5 : ℕ
auth_rakp_hmac_md5 = 2

abbrev pub auth_rakp_hmac_sha256 : ℕ
auth_rakp_hmac_sha256 = 3

abbrev pub integrity_none : ℕ
integrity_none = 0

abbrev pub integrity_hmac_sha1_96 : ℕ
integrity_hmac_sha1_96 = 1

abbrev pub integrity_hmac_md5_128 : ℕ
integrity_hmac_md5_128 = 2

abbrev pub integrity_md5_128 : ℕ
integrity_md5_128 = 3

abbrev pub integrity_hmac_sha256_128 : ℕ
integrity_hmac_sha256_128 = 4

abbrev pub crypt_none : ℕ
crypt_none = 0

abbrev pub crypt_aes_cbc_128 : ℕ
crypt_aes_cbc_128 = 1

abbrev pub crypt_xrc4_128 : ℕ
crypt_xrc4_128 = 2

abbrev pub crypt_xrc4_40 : ℕ
crypt_xrc4_40 = 3

-- The digest that `lanplus_HMAC` takes for a number, from either table; `none` is its assertion.
unfoldable pub mac_hash : ℕ → Option Hash
mac_hash mac =
    if mac == auth_rakp_hmac_sha1 || mac == integrity_hmac_sha1_96
    then some sha1
    else if mac == auth_rakp_hmac_md5 || mac == integrity_hmac_md5_128
    then some md5
    else if mac == auth_rakp_hmac_sha256 || mac == integrity_hmac_sha256_128
    then some sha256
    else none

module _ (ssl : OpenSsl) where
  unfoldable pub lanplus_hmac : ℕ → List ℕ → List ℕ → Option (List ℕ)
  unfolding mac_hash
  lanplus_hmac mac key d = elim (mac_hash mac) [ none ↦ none | some h ↦ some (ssl.hmac h key d) ]

  -- No bytes are written for an empty input; the assertion on whole blocks is `none`.
  unfoldable pub encrypt_aes_cbc_128 : List ℕ → List ℕ → List ℕ → Option (List ℕ)
  encrypt_aes_cbc_128 iv key input =
      if length input == 0
      then some []
      else if length input % 16 == 0
      then some (ssl.aes_encrypt iv key input)
      else none

  unfoldable pub decrypt_aes_cbc_128 : List ℕ → List ℕ → List ℕ → Option (List ℕ)
  decrypt_aes_cbc_128 iv key input =
      if length input == 0
      then some []
      else if length input % 16 == 0
      then some (ssl.aes_decrypt iv key input)
      else none
