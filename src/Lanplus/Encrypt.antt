-- ===== src/Lanplus/Encrypt.antt =====
-- src/plugins/lanplus/lanplus_crypt.c: `lanplus_encrypt_payload` and `lanplus_decrypt_payload`.
pub mod RoundTrip
use ipmitool.Common.{
  ℕ, zero, suc, ◌+◌, ◌-◌, ◌%◌, List, [], ◌∷◌, ◌++◌, Option, none, some, ◌==◌, ltb, true, false,
  if◌then◌else◌, length, get_elem?, take, drop, u16,
}
use ipmitool.Lanplus.Crypto.{
  OpenSsl, crypt_none, crypt_aes_cbc_128, encrypt_aes_cbc_128, decrypt_aes_cbc_128,
}

abbrev pub aes_block_size : ℕ
aes_block_size = 16

abbrev pub max_payload_size : ℕ
max_payload_size = 0xFFFF

-- The length of the pad, and the pad 1, 2, 3, ...
unfoldable pub pad_length : ℕ → ℕ
pad_length input_length =
    let rem = (input_length + 1) % aes_block_size in if rem == 0 then 0 else aes_block_size - rem

unfoldable pub pad_from : ℕ → ℕ → List ℕ
pad_from i zero = []
pad_from i (suc n) = (i + 1) ∷ pad_from (i + 1) n

unfoldable pub padded_input : List ℕ → List ℕ
unfolding pad_length pad_from
padded_input input = let pad = pad_length (length input) in input ++ (pad_from 0 pad ++ pad ∷ [])

-- The output buffer and `*bytes_written`, a uint16_t; or a return value of 1; or an assertion.
pub data Encrypted : Type 0 where
  encrypted : List ℕ → ℕ → Encrypted
  no_iv encrypt_assert : Encrypted

pub data Decrypted : Type 0 where
  decrypted : List ℕ → Decrypted
  decrypt_assert overread : Decrypted

-- The test of the padding: an assertion on a wrong byte, and a read behind the buffer.
pub data PadCheck : Type 0 where
  pad_good pad_malformed pad_overread : PadCheck

-- The loop at `i` with `left` rounds to go, on the bytes from `payload_size`.
unfoldable pub check_pad : List ℕ → ℕ → ℕ → ℕ → PadCheck
check_pad plain size i zero = pad_good
check_pad plain size i (suc left) = elim (get_elem? plain (size + i)) [
  | none ↦ pad_overread
  | some b ↦ elim (b == i + 1) [ true ↦ check_pad plain size (i + 1) left | false ↦ pad_malformed ]
]

-- What follows a successful decryption.
unfoldable pub strip_pad : List ℕ → Decrypted
strip_pad plain = elim (get_elem? plain (length plain - 1)) [
  | none ↦ decrypt_assert
  | some conf_pad_length ↦
      let payload_size = u16 (length plain + 65536 - conf_pad_length - 1) in
      elim (check_pad plain payload_size 0 conf_pad_length) [
        | pad_good ↦ decrypted (take payload_size plain)
        | pad_malformed ↦ decrypt_assert
        | pad_overread ↦ overread
      ]
]

module _ (ssl : OpenSsl) where
  -- `iv` is what `lanplus_rand` gave, `none` where it failed.
  unfoldable pub encrypt_payload : ℕ → List ℕ → Option (List ℕ) → List ℕ → Encrypted
  encrypt_payload crypt_alg key rand input =
      if crypt_alg == crypt_none
      then encrypted input (u16 (length input))
      else if crypt_alg == crypt_aes_cbc_128
      then if ltb max_payload_size (length input) then encrypt_assert else elim rand [
        | none ↦ no_iv
        | some iv ↦ elim (encrypt_aes_cbc_128 ssl iv key (padded_input input)) [
          | none ↦ encrypt_assert
          | some out ↦ encrypted (iv ++ out) (u16 (aes_block_size + length out))
        ]
      ]
      else encrypt_assert

  unfoldable pub decrypt_payload : ℕ → List ℕ → List ℕ → Decrypted
  decrypt_payload crypt_alg key input =
      if crypt_alg == crypt_none
      then decrypted input
      else if crypt_alg == crypt_aes_cbc_128
      then elim (decrypt_aes_cbc_128 ssl (take aes_block_size input) key
          (drop aes_block_size input)) [ none ↦ decrypt_assert | some plain ↦ strip_pad plain ]
      else decrypt_assert
