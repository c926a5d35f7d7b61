-- ===== src/Tests/Lanplus.antt =====
-- The RMCP+ interface on concrete sessions, with stand-ins for the cryptographic functions.
use ipmitool.Common.{
  ap, ℕ, ◌+◌, ◌%◌, ◌≤◌, ◌≡◌, ◌⊎◌, ◌↔◌, inl, refl, List, [], ◌∷◌, some, true, false, zero, suc,
  length, take, total, arith, u8, u16,
}
use ipmitool.Lanplus.Crypto.{OpenSsl, sha1, digest_length, crypt_aes_cbc_128}
use ipmitool.Lanplus.Encrypt.{encrypted, decrypted, encrypt_payload, decrypt_payload}
use ipmitool.Lanplus.Encrypt.RoundTrip.{decrypt-encrypt_payload}
use ipmitool.Lanplus.Session.{Session, active}
use ipmitool.Lanplus.Ciphers.{
  Algorithms, Usable, get_requested_ciphers, offered, find_best_cipher_suite, find_best-Usable,
}
use ipmitool.Lanplus.Request.{ipmi_wire_rep, nested, ipmi_wire_rep-nested}
use ipmitool.Lanplus.Rakp.{Handshake, rakp2_input, hashed_role, matches, rakp2_hmac_matches}
use ipmitool.Lanplus.Rakp.Inputs.{Sized, rakp2_input-injective}
use ipmitool.Lanplus.Rakp.Keys.{rakp2_matches_exact}
use ipmitool.Intf.{Intf}
use ipmitool.Serial.Message.{IpmiRq}

abbrev copies : ℕ → ℕ → List ℕ
copies zero b = []
copies (suc n) b = b ∷ copies n b

length-copies : (n b : ℕ) → length (copies n b) ≡ n
length-copies zero b = refl
length-copies (suc n) b = ap suc (length-copies n b)

-- A digest of the sum of key and data, and a cipher that changes nothing.
abbrev plain_ssl : OpenSsl
plain_ssl = record {
  hmac = λ h key d. copies (digest_length h) (u8 (total key + total d));
  hmac_length = λ h key d. length-copies (digest_length h) (u8 (total key + total d));
  aes_encrypt = λ iv key d. d;
  aes_decrypt = λ iv key d. d;
  encrypt_length = λ iv key d e. refl;
  decrypt_encrypt = λ iv key d e. refl;
}

abbrev sixteen : List ℕ
sixteen = 1 ∷ 2 ∷ 3 ∷ 4 ∷ 5 ∷ 6 ∷ 7 ∷ 8 ∷ 9 ∷ 10 ∷ 11 ∷ 12 ∷ 13 ∷ 14 ∷ 15 ∷ 16 ∷ []

abbrev console : Session
console = record {
  state = active;
  auth_alg = 1;
  integrity_alg = 1;
  crypt_alg = 1;
  console_id = 0xA0A2A3A4;
  bmc_id = 0x11223344;
  k1 = 1 ∷ 2 ∷ [];
  k2 = 3 ∷ 4 ∷ [];
  out_seq = 7;
}

abbrev bmc : Session
bmc = record console { console_id = 0x11223344; bmc_id = 0xA0A2A3A4 }

decrypt-encrypt_payload_example :
    (out : List ℕ) × (written : ℕ) × (encrypt_payload plain_ssl crypt_aes_cbc_128
        (1 ∷ [])
        (some sixteen)
        (5 ∷ 6 ∷ [])
      ≡ encrypted out written)
    × (written ≡ u16 (length out))
    × (length out % 16 ≡ 0)
    × (length out ≤ 2 + 32)
    × (decrypt_payload plain_ssl crypt_aes_cbc_128 (1 ∷ []) out ≡ decrypted (5 ∷ 6 ∷ []))
decrypt-encrypt_payload_example =
    decrypt-encrypt_payload plain_ssl (1 ∷ []) sixteen (5 ∷ 6 ∷ []) refl (omega arith)

find_best-Usable_example :
    (a : Algorithms) × (get_requested_ciphers (find_best_cipher_suite (some (3 ∷ 17 ∷ [])))
      ≡ some a)
    × Usable a
    × ((find_best_cipher_suite (some (3 ∷ 17 ∷ [])) ≡ 3)
        ⊎ ((suites : List ℕ) × (some (3 ∷ 17 ∷ []) ≡ some suites)
            × (offered (find_best_cipher_suite (some (3 ∷ 17 ∷ []))) suites ≡ true)))
find_best-Usable_example = find_best-Usable (some (3 ∷ 17 ∷ []))

abbrev bridged : Intf
bridged = record {
  my_addr = 0x20;
  target_addr = 0x72;
  target_channel = 7;
  transit_addr = 0x82;
  transit_channel = 0;
  max_request_data_size = 0;
  max_response_data_size = 0;
}

abbrev get_device_id : IpmiRq
get_device_id = record { netfn = 6; lun = 0; cmd = 1; bytes = [] }

ipmi_wire_rep-nested_example :
    ((ipmi_wire_rep bridged true get_device_id 3 4).0 ≡ nested bridged true get_device_id 3 4)
    × ((ipmi_wire_rep bridged true get_device_id 3 4).1
        ≡ length (ipmi_wire_rep bridged true get_device_id 3 4).0)
ipmi_wire_rep-nested_example = ipmi_wire_rep-nested bridged true get_device_id 3 4 (omega arith)

abbrev handshake : Handshake
handshake = record {
  auth_alg = 1;
  integrity_alg = 1;
  console_id = 0xA0A2A3A4;
  bmc_id = 0x11223344;
  console_rand = sixteen;
  bmc_rand = sixteen;
  bmc_guid = sixteen;
  requested_role = 0x14;
  privlvl = 4;
  username = 0x61 ∷ 0x62 ∷ [];
  authcode = 1 ∷ 2 ∷ 3 ∷ [];
  kg = [];
  intelplus = false;
  i82571spt = false;
}

handshake_is : Sized handshake
handshake_is = record {
  console_lt = omega arith;
  bmc_lt = omega arith;
  console_rand_16 = refl;
  bmc_rand_16 = refl;
  guid_16 = refl;
  name_16 = omega arith;
}

other_is : Sized (record handshake { privlvl = 2; kg = 1 ∷ [] })
other_is = record {
  console_lt = omega arith;
  bmc_lt = omega arith;
  console_rand_16 = refl;
  bmc_rand_16 = refl;
  guid_16 = refl;
  name_16 = omega arith;
}

rakp2_input-injective_example :
    (handshake.console_id ≡ 0xA0A2A3A4)
    × (handshake.bmc_id ≡ 0x11223344)
    × (sixteen ≡ sixteen)
    × (sixteen ≡ sixteen)
    × (sixteen ≡ sixteen)
    × (hashed_role handshake ≡ hashed_role handshake)
    × (handshake.username ≡ 0x61 ∷ 0x62 ∷ [])
unfolding rakp2_input
rakp2_input-injective_example =
    rakp2_input-injective handshake (record handshake { privlvl = 2; kg = 1 ∷ [] }) handshake_is
      other_is refl

rakp2_matches_exact_example :
    (rakp2_hmac_matches plain_ssl handshake true sixteen ≡ matches)
    ↔ (take 20 sixteen ≡ plain_ssl.hmac sha1 (1 ∷ 2 ∷ 3 ∷ []) (rakp2_input handshake))
rakp2_matches_exact_example =
    rakp2_matches_exact plain_ssl handshake sha1 sixteen (inl (refl, refl))
