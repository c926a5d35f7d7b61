-- ===== src/Lanplus/Packet.antt =====
-- src/plugins/lanplus/lanplus.c: `ipmi_lanplus_build_v2x_msg`, from the wire form of a payload on:
-- headers, encryption, integrity pad and authcode. A payload with its encryption is taken to be
-- below 2^16 bytes, as `payload_length` is a uint16_t.
use ipmitool.Common.{
  ℕ, zero, suc, ◌+◌, ◌-◌, ◌%◌, List, [], ◌∷◌, ◌++◌, Option, none, some, Bool, not, ◌==◌, ◌&&◌,
  if◌then◌else◌, length, take, u32,
}
use ipmitool.Lanplus.Crypto.{OpenSsl, integrity_none, crypt_none, lanplus_hmac}
use ipmitool.Lanplus.Encrypt.{encrypted, no_iv, encrypt_assert, encrypt_payload}
use ipmitool.Lanplus.Session.{Session, is_active, authcode_length, le32, le16, type_byte}

-- `RMCP_VERSION_1`, reserved, the sequence number that asks for no acknowledgement, and
-- `RMCP_CLASS_IPMI`.
abbrev pub rmcp_hdr : List ℕ
rmcp_hdr = 0x06 ∷ 0x00 ∷ 0xFF ∷ 0x07 ∷ []

-- The 12 bytes from the authtype to the payload size. Outside an active session the id, the
-- sequence number and the two bits are zero.
unfoldable pub session_header : Session → ℕ → ℕ → List ℕ
unfolding type_byte
session_header s payload_type payload_length =
    let act = is_active s.state in
    let t =
      type_byte (act && not (s.crypt_alg == crypt_none))
        (act && not (s.integrity_alg == integrity_none)) payload_type in
    let id = if act then s.bmc_id else 0 in
    let seq = if act then s.out_seq else 0 in
    0x06 ∷ t ∷ (le32 id ++ (le32 seq ++ le16 payload_length))

unfoldable pub replicate : ℕ → ℕ → List ℕ
replicate zero b = []
replicate (suc n) b = b ∷ replicate n b

-- The pad makes the range under the authcode a multiple of 4; for the "icts" firmware the pad
-- length and the next header are not counted.
unfoldable pub integrity_pad_size : Bool → ℕ → ℕ
integrity_pad_size icts payload_length =
    let before = if icts then 12 + payload_length else 12 + payload_length + 1 + 1 in
    if before % 4 == 0 then 0 else 4 - before % 4

unfoldable pub integrity_trailer : Bool → ℕ → List ℕ
unfolding integrity_pad_size replicate
integrity_trailer icts payload_length =
    let pad = integrity_pad_size icts payload_length in replicate pad 0xFF ++ pad ∷ 0x07 ∷ []

-- The sequence number skips zero when it wraps.
unfoldable pub next_out_seq : ℕ → ℕ
next_out_seq seq = if u32 (seq + 1) == 0 then 1 else u32 (seq + 1)

pub data BuildResult : Type 0 where
  built : List ℕ → Session → BuildResult
  build_assert : BuildResult

module _ (ssl : OpenSsl) where
  -- The payload as it stands in the message. The value that `lanplus_encrypt_payload` returns is
  -- not looked at: without an initialization vector the payload stays as it was.
  unfoldable pub outgoing_payload : Session → Option (List ℕ) → List ℕ → Option (List ℕ)
  outgoing_payload s rand wire =
      if is_active s.state
      then elim (encrypt_payload ssl s.crypt_alg s.k2 rand wire) [
        | encrypted out n ↦ some out
        | no_iv ↦ some wire
        | encrypt_assert ↦ none
      ]
      else some wire

  -- What follows the authenticated bytes; the assertions are on the algorithm.
  unfoldable pub authcode : Session → List ℕ → Option (List ℕ)
  authcode s covered = elim (authcode_length s.integrity_alg) [
    | none ↦ none
    | some n ↦ elim (lanplus_hmac ssl s.integrity_alg s.k1 covered) [
      | none ↦ none
      | some mac ↦ some (take n mac)
    ]
  ]

  unfoldable pub session_trailer : Session → Bool → List ℕ → List ℕ → Option (List ℕ)
  session_trailer s icts header payload =
      if is_active s.state && not (s.integrity_alg == integrity_none)
      then (let tail = integrity_trailer icts (length payload) in
          elim (authcode s (header ++ (payload ++ tail))) [
            | none ↦ none
            | some code ↦ some (tail ++ code)
          ])
      else some []

  -- `wire` is the payload in its wire form, `rand` what `lanplus_rand` gives.
  unfoldable pub build_v2x_msg : Session → Bool → ℕ → Option (List ℕ) → List ℕ → BuildResult
  build_v2x_msg s icts payload_type rand wire = elim (outgoing_payload s rand wire) [
    | none ↦ build_assert
    | some payload ↦
        let header = session_header s payload_type (length payload) in
        elim (session_trailer s icts header payload) [
          | none ↦ build_assert
          | some trailer ↦
              built (rmcp_hdr ++ (header ++ (payload ++ trailer)))
                (record s { out_seq = next_out_seq s.out_seq })
        ]
  ]
