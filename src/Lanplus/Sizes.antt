-- ===== src/Lanplus/Sizes.antt =====
-- src/plugins/lanplus/lanplus.c: `ipmi_lanp_set_max_rq_data_size` and its response counterpart,
-- as the interface's own setters of the sizes.
use ipmitool.Lanplus.Crypto.{OpenSsl, crypt_aes_cbc_128}
use ipmitool.Lanplus.Encrypt.{encrypted, encrypt_payload}
use ipmitool.Lanplus.Encrypt.RoundTrip.{encrypt_payload-length, pad_length_lem}
use ipmitool.Common.{
  List, length, some, ltb, ltb-false, false, ℕ, ◌+◌, ◌-◌, ◌*◌, ◌/◌, ◌≤◌, ◌<◌, ◌≡◌, refl, ◌==◌,
  if◌then◌else◌, u16, arith,
}
use ipmitool.Intf.{get_bridging_level, Intf, get_bridging_level_le}
use ipmitool.Intf.Sizes.{data_size, get_max_request_data_size, set_max_request_data_size}

-- `size &= ~15` and `size -= 17` on a uint16_t.
unfoldable pub encrypted_size : ℕ → ℕ → ℕ
encrypted_size cipher_suite_id size =
    if cipher_suite_id == 3 then u16 (size / 16 * 16 + 65536 - 17) else size

unfoldable pub set_max_rq_data_size : ℕ → Intf → ℕ → Intf
unfolding encrypted_size
set_max_rq_data_size cipher_suite_id intf size = record intf {
  max_request_data_size = encrypted_size cipher_suite_id size;
}

unfoldable pub set_max_rp_data_size : ℕ → Intf → ℕ → Intf
unfolding encrypted_size
set_max_rp_data_size cipher_suite_id intf size = record intf {
  max_response_data_size = encrypted_size cipher_suite_id size;
}

negative_size : (level : ℕ) → level ≤ 2 → data_size 8 level 65535 ≡ 0
unfolding data_size
negative_size level h = ground arith

-- With cipher suite 3, a size from 25 to 31, which `ipmi_intf_set_max_request_data_size` lets
-- through, wraps to 65535, and the interface then allows no data at all in a request.
set_max_rq_data_size-wraps :
    (intf : Intf) (size : ℕ)
    → 25 ≤ size
    → size < 32
    → ((set_max_request_data_size (set_max_rq_data_size 3) intf size).max_request_data_size ≡ 65535)
      × (get_max_request_data_size (set_max_request_data_size (set_max_rq_data_size 3) intf size)
          ≡ 0)
unfolding set_max_request_data_size set_max_rq_data_size encrypted_size get_max_request_data_size
set_max_rq_data_size-wraps intf size low high =
    let wide : ltb size 25 ≡ false = ltb-false size 25 low in
    let wrapped : u16 (size / 16 * 16 + 65536 - 17) ≡ 65535 = omega arith in
    let set = record intf { max_request_data_size = 65535 } in
    rw wide (rw wrapped (refl, negative_size (get_bridging_level set) (get_bridging_level_le set)))

-- With cipher suite 3 and a size of at least 32, a payload that is no longer than the size that is
-- stored is no longer than the size that was asked for once it is encrypted.
pub encrypted_size-fits :
    (ssl : OpenSsl) (key iv input : List ℕ) (size : ℕ)
    → length iv ≡ 16
    → 32 ≤ size
    → size < 65536
    → length input ≤ encrypted_size 3 size
    → (out : List ℕ) × (written : ℕ) × (encrypt_payload ssl crypt_aes_cbc_128 key (some iv) input
        ≡ encrypted out written)
      × (length out ≤ size)
unfolding encrypted_size
encrypted_size-fits ssl key iv input size iv_size low high fits =
    let (out, written, is, len) =
      encrypt_payload-length ssl key iv input iv_size (omega (arith, fits)) in
    (out, written, is, omega (arith, len, fits, pad_length_lem (length input)))
