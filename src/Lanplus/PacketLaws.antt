-- ===== src/Lanplus/PacketLaws.antt =====
-- What `ipmi_lanplus_build_v2x_msg` packs, the other end of the session reads.
use ipmitool.Common.{
  ℕ, ◌+◌, ◌*◌, ◌/◌, ◌≤◌, ◌<◌, ◌≡◌, refl, List, ◌∷◌, ◌++◌, some, Bool, true, false, not, ◌==◌,
  if◌then◌else◌, length, arith, u8, inl, inr, ◌⊎◌,
}
use ipmitool.Lanplus.Crypto.{
  OpenSsl, integrity_none, crypt_none, crypt_aes_cbc_128, integrity_hmac_sha1_96,
  integrity_hmac_md5_128, integrity_hmac_sha256_128,
}
use ipmitool.Lanplus.Encrypt.{decrypted, encrypt_payload, decrypt_payload}
use ipmitool.Lanplus.Encrypt.RoundTrip.{decrypt-encrypt_payload}
use ipmitool.Lanplus.Session.{Session, active, le32, le16, type_byte, type_byte_fields}
use ipmitool.Lanplus.Packet.{rmcp_hdr, session_header, outgoing_payload}
use ipmitool.Lanplus.Read.{read_session_data_v2x, SessionHdr, read_session_data, authtype_rmcp_plus}

-- The other end of an active session: the same algorithms and keys, and its session id.
pub record Mirrors (s r : Session) : Type 0 where
  pub s_active : s.state ≡ active
  pub r_active : r.state ≡ active
  pub id_is : r.console_id ≡ s.bmc_id
  pub integrity_is : r.integrity_alg ≡ s.integrity_alg
  pub crypt_is : r.crypt_alg ≡ s.crypt_alg
  pub k1_is : r.k1 ≡ s.k1
  pub k2_is : r.k2 ≡ s.k2
  pub id_lt : s.bmc_id < 4294967296
  pub seq_lt : s.out_seq < 4294967296

-- The algorithms that the code supports.
abbrev pub CryptSupported : Session → Type 0
CryptSupported s = (s.crypt_alg ≡ crypt_none) ⊎ (s.crypt_alg ≡ crypt_aes_cbc_128)

abbrev pub IntegritySupported : Session → Type 0
IntegritySupported s =
    (s.integrity_alg ≡ integrity_none)
    ⊎ (s.integrity_alg ≡ integrity_hmac_sha1_96)
    ⊎ (s.integrity_alg ≡ integrity_hmac_md5_128)
    ⊎ (s.integrity_alg ≡ integrity_hmac_sha256_128)

-- The header that a packet of `s` is read back to.
abbrev pub header_read : Session → ℕ → ℕ → SessionHdr
header_read s t n = record {
  authtype = authtype_rmcp_plus;
  payloadtype = t;
  b_encrypted = not (s.crypt_alg == crypt_none);
  b_authenticated = not (s.integrity_alg == integrity_none);
  id = s.bmc_id;
  seq = s.out_seq;
  msglen = n;
  offset = 16;
}

bytes_of_32 :
    (x : ℕ)
    → x < 4294967296
    → u8 x + u8 (x / 256) * 256 + u8 (x / 65536) * 65536 + u8 (x / 16777216) * 16777216 ≡ x
bytes_of_32 x h = omega arith

bytes_of_16 : (x : ℕ) → x < 65536 → u8 x + u8 (x / 256) * 256 ≡ x
bytes_of_16 x h = omega arith

flag_read : (b : Bool) (n : ℕ) → 0 < n → not ((if b then n else 0) == 0) ≡ b
flag_read true n h = ground arith
flag_read false n h = refl

-- Reading back the twelve bytes of a header, field by field.
read_v2x_lem :
    (enc auth : Bool) (t id seq n : ℕ) (rest : List ℕ)
    → t < 64
    → id < 4294967296
    → seq < 4294967296
    → n < 65536
    → read_session_data_v2x
        (rmcp_hdr ++ ((6 ∷ type_byte enc auth t ∷ (le32 id ++ (le32 seq ++ le16 n))) ++ rest))
        4
      ≡ record {
        authtype = authtype_rmcp_plus;
        payloadtype = t;
        b_encrypted = enc;
        b_authenticated = auth;
        id = id;
        seq = seq;
        msglen = n;
        offset = 16;
      }
unfolding read_session_data_v2x
read_v2x_lem enc auth t id seq n rest ht hid hseq hn =
    let fields = type_byte_fields enc auth t ht in
    rw fields.0 (
      rw fields.1 (
        rw fields.2 (
          rw (flag_read enc 0x80 (omega arith), flag_read auth 0x40 (omega arith))
            (rw (bytes_of_32 id hid) (rw (bytes_of_32 seq hseq) (rw (bytes_of_16 n hn) refl))))))

module _ (s : Session) (act : s.state ≡ active) (t : ℕ) where
  pub session_header_lem :
      (n : ℕ)
      → session_header s t n
        ≡ 6
          ∷ type_byte (not (s.crypt_alg == crypt_none)) (not (s.integrity_alg == integrity_none)) t
          ∷ (le32 s.bmc_id ++ (le32 s.out_seq ++ le16 n))
  unfolding session_header
  session_header_lem n = rw act refl

module _ (s : Session) (act : s.state ≡ active) (t : ℕ) (small : t < 64)
    (id_lt : s.bmc_id < 4294967296) (seq_lt : s.out_seq < 4294967296) where
  pub read-session_header :
      (old_id old_seq n : ℕ) (rest : List ℕ)
      → n < 65536
      → read_session_data old_id old_seq (rmcp_hdr ++ (session_header s t n ++ rest)) 4
        ≡ header_read s t n
  unfolding read_session_data
  read-session_header old_id old_seq n rest fits = rw (session_header_lem s act t n) (
      read_v2x_lem (not (s.crypt_alg == crypt_none)) (not (s.integrity_alg == integrity_none)) t
        s.bmc_id s.out_seq n rest small id_lt seq_lt fits)

-- What is sent is decrypted to what was to be sent, whichever the algorithm.
pub outgoing_payload_lem :
    (ssl : OpenSsl) (s : Session) (iv wire : List ℕ)
    → s.state ≡ active
    → CryptSupported s
    → length iv ≡ 16
    → length wire ≤ 65000
    → (sent : List ℕ) × (outgoing_payload ssl s (some iv) wire ≡ some sent)
      × (length sent ≤ length wire + 32)
      × (decrypt_payload ssl s.crypt_alg s.k2 sent ≡ decrypted wire)
unfolding outgoing_payload
outgoing_payload_lem ssl s iv wire act (inl e) iv_size fits = (
  wire,
  rw (act, e) (unfold encrypt_payload in refl),
  omega arith,
  rw e (unfold decrypt_payload in refl),
)
outgoing_payload_lem ssl s iv wire act (inr e) iv_size fits =
    let r = decrypt-encrypt_payload ssl s.k2 iv wire iv_size (omega arith) in
    (r.0, rw (act, e) (rw r.2 refl), r.5, rw e r.6)
