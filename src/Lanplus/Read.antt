-- ===== src/Lanplus/Read.antt =====
-- src/plugins/lanplus: reading a packet. `read_session_data` and its two forms (lanplus.c),
-- `lanplus_has_valid_auth_code` (lanplus_crypt.c), and the part of `ipmi_lan_poll_single` that
-- takes the payload out. `buffer` is the receive buffer: the packet, then whatever it held before.
use ipmitool.Common.{
  ℕ, ◌+◌, ◌-◌, List, none, some, Bool, true, false, not, ◌==◌, ltb, ◌&&◌, ◌||◌, if◌then◌else◌,
  get_or, take, drop, bit_and, [], ◌∷◌, ◌++◌, Option, length,
}
use ipmitool.Lanplus.Crypto.{OpenSsl, integrity_none, lanplus_hmac}
use ipmitool.Lanplus.Encrypt.{decrypted, decrypt_payload}
use ipmitool.Lanplus.Session.{Session, is_active, authcode_length, read32, read16}

abbrev pub authtype_rmcp_plus : ℕ
authtype_rmcp_plus = 0x06

abbrev pub payload_type_ipmi : ℕ
payload_type_ipmi = 0

-- The session part of `struct ipmi_rs`, and the offset at which the payload starts.
pub record SessionHdr : Type 0 where
  pub authtype : ℕ
  pub payloadtype : ℕ
  pub b_encrypted : Bool
  pub b_authenticated : Bool
  pub id : ℕ
  pub seq : ℕ
  pub msglen : ℕ
  pub offset : ℕ

unfoldable pub read_session_data_v2x : List ℕ → ℕ → SessionHdr
read_session_data_v2x buffer offset = record {
  authtype = get_or buffer offset 0;
  payloadtype = bit_and (get_or buffer (offset + 1) 0) 0x3F;
  b_encrypted = not (bit_and (get_or buffer (offset + 1) 0) 0x80 == 0);
  b_authenticated = not (bit_and (get_or buffer (offset + 1) 0) 0x40 == 0);
  id = read32 buffer (offset + 2);
  seq = read32 buffer (offset + 6);
  msglen = read16 buffer (offset + 10);
  offset = offset + 12;
}

-- The id and the sequence number of a v1.5 header are skipped: `id` and `seq` keep what the
-- static response held, which is given here.
unfoldable pub read_session_data_v15 : ℕ → ℕ → List ℕ → ℕ → SessionHdr
read_session_data_v15 old_id old_seq buffer offset = record {
  authtype = get_or buffer offset 0;
  payloadtype = payload_type_ipmi;
  b_encrypted = false;
  b_authenticated = false;
  id = old_id;
  seq = old_seq;
  msglen = get_or buffer (offset + 9) 0;
  offset = offset + 10;
}

unfoldable pub read_session_data : ℕ → ℕ → List ℕ → ℕ → SessionHdr
unfolding read_session_data_v2x read_session_data_v15
read_session_data old_id old_seq buffer offset =
    if get_or buffer offset 0 == authtype_rmcp_plus
    then read_session_data_v2x buffer offset
    else read_session_data_v15 old_id old_seq buffer offset

pub data AuthCheck : Type 0 where
  valid invalid : AuthCheck
  auth_assert auth_overread : AuthCheck

unfoldable pub same_bytes : List ℕ → List ℕ → Bool
same_bytes [] [] = true
same_bytes (x ∷ xs) (y ∷ ys) = x == y && same_bytes xs ys
same_bytes _ _ = false

-- `skip` is the pointer 1 (another packet is read), `dropped` is NULL, `fault` an assertion or
-- undefined behaviour; else the header and the decrypted payload.
pub data Incoming : Type 0 where
  skip dropped fault : Incoming
  payload : SessionHdr → List ℕ → Incoming

-- `IPMI_BUF_SIZE`, the size of the array of a response.
abbrev pub ipmi_buf_size : ℕ
ipmi_buf_size = 1024

-- `ipmi_lan_recv_packet`: `recv` gives at most as many bytes as the array has and drops the rest of
-- the datagram; a NUL follows them, then what the array held. `none` is NULL.
unfoldable pub recv_packet : List ℕ → List ℕ → Option (List ℕ × ℕ)
recv_packet old_data datagram =
    let bytes = take ipmi_buf_size datagram in
    if length bytes == 0
    then none
    else some (bytes ++ 0 ∷ drop (length bytes + 1) old_data, length bytes)

-- What the test ends in; a short packet puts `bmc_authcode` before the buffer (`auth_overread`).
module _ (ssl : OpenSsl) where
  unfoldable pub check_authcode : Session → List ℕ → ℕ → AuthCheck
  check_authcode s buffer data_len = elim (authcode_length s.integrity_alg) [
    | none ↦ auth_assert
    | some n ↦
        if ltb data_len (4 + n)
        then auth_overread
        else elim (lanplus_hmac ssl s.integrity_alg s.k1
            (take (data_len - 4 - n) (drop 4 buffer))) [
              | none ↦ auth_assert
              | some mac ↦
                  if same_bytes (take n (drop (data_len - n) buffer)) (take n mac)
                  then valid
                  else invalid
            ]
  ]

  unfoldable pub has_valid_auth_code : Session → SessionHdr → List ℕ → ℕ → AuthCheck
  has_valid_auth_code s h buffer data_len =
      if not (h.authtype == authtype_rmcp_plus)
        || not (is_active s.state)
        || not h.b_authenticated
        || s.integrity_alg == integrity_none
      then valid
      else check_authcode s buffer data_len

  unfoldable pub incoming_payload : Session → SessionHdr → List ℕ → Incoming
  incoming_payload s h buffer =
      let bytes = take h.msglen (drop h.offset buffer) in
      if is_active s.state && h.authtype == authtype_rmcp_plus && h.b_encrypted
      then elim (decrypt_payload ssl s.crypt_alg s.k2 bytes) [
        | decrypted plain ↦ payload h plain
        | _ ↦ fault
      ]
      else payload h bytes

  -- The part of `ipmi_lan_poll_single` behind the headers, up to the dispatch on the payload type.
  unfoldable pub open_packet : Session → ℕ → ℕ → List ℕ → ℕ → Incoming
  open_packet s old_id old_seq buffer data_len =
      let h = read_session_data old_id old_seq buffer 4 in
      if is_active s.state && h.authtype == authtype_rmcp_plus && not (h.id == s.console_id)
      then skip
      else elim (has_valid_auth_code s h buffer data_len) [
        | valid ↦ incoming_payload s h buffer
        | invalid ↦ dropped
        | _ ↦ fault
      ]

  -- `ipmi_lan_poll_single` with a datagram of the RMCP class IPMI; `old_data` is what the static
  -- response held.
  unfoldable pub receive_packet : Session → ℕ → ℕ → List ℕ → List ℕ → Incoming
  receive_packet s old_id old_seq old_data datagram = elim (recv_packet old_data datagram) [
    | none ↦ dropped
    | some (buffer, data_len) ↦ open_packet s old_id old_seq buffer data_len
  ]
