-- ===== src/Lanplus/Sol.antt =====
-- src/plugins/lanplus/lanplus.c: serial over LAN. The SOL packet on the wire
-- (`getSolPayloadWireRep`, `read_sol_packet`), sending (`ipmi_lanplus_send_sol` and its helpers)
-- and receiving (`check_sol_packet_for_new_data`, `ack_sol_packet`). What
-- `ipmi_lanplus_send_payload` returns for each packet sent is a parameter.
pub mod SendLaws
pub mod StreamLaws
pub mod WireLaws
use ipmitool.Common.{
  ℕ, ◌+◌, ◌-◌, List, [], ◌∷◌, ◌++◌, Option, none, some, Bool, true, false, not, ◌==◌, ltb, ◌&&◌,
  if◌then◌else◌, get_or, take, drop, bit_and, bit_or, u8, u16,
}
use ipmitool.Common.Int.{ℤ, pos, ◌-ℤ◌}
use ipmitool.Lanplus.Read.{authtype_rmcp_plus}

abbrev pub payload_type_sol : ℕ
payload_type_sol = 1

-- The `sol_packet` of an outgoing `struct ipmi_v2_payload`; `bytes` is its `character_count`
-- characters.
pub record SolPayload : Type 0 where
  pub payload_type : ℕ
  pub bytes : List ℕ
  pub character_count : ℕ
  pub packet_sequence_number : ℕ
  pub acked_packet_number : ℕ
  pub accepted_character_count : ℕ
  pub is_nack : Bool
  pub assert_ring_wor : Bool
  pub generate_break : Bool
  pub deassert_cts : Bool
  pub deassert_dcd_dsr : Bool
  pub flush_inbound : Bool
  pub flush_outbound : Bool

abbrev flag : Bool → ℕ → ℕ
flag b n = if b then n else 0

-- The fourth byte, one `|=` after the other: nack, ring, break, CTS, DCD/DSR and the two flushes.
abbrev pub operation_byte : Bool → Bool → Bool → Bool → Bool → Bool → Bool → ℕ
operation_byte nack ring brk cts dcd flush_in flush_out =
    bit_or
      (bit_or
        (bit_or
          (bit_or (bit_or (bit_or (flag nack 0x40) (flag ring 0x20)) (flag brk 0x10))
            (flag cts 0x08))
          (flag dcd 0x04))
        (flag flush_in 0x02))
      (flag flush_out 0x01)

unfoldable pub operation : SolPayload → ℕ
operation p =
    operation_byte p.is_nack p.assert_ring_wor p.generate_break p.deassert_cts p.deassert_dcd_dsr
      p.flush_inbound p.flush_outbound

unfoldable pub sol_wire_rep : SolPayload → List ℕ
unfolding operation
sol_wire_rep p =
    p.packet_sequence_number
    ∷ p.acked_packet_number
    ∷ p.accepted_character_count
    ∷ operation p
    ∷ take p.character_count p.bytes

-- The `sol_packet` of a `struct ipmi_rs`, each flag as the test of its byte.
pub record SolPacket : Type 0 where
  pub packet_sequence_number : ℕ
  pub acked_packet_number : ℕ
  pub accepted_character_count : ℕ
  pub is_nack : Bool
  pub transfer_unavailable : Bool
  pub sol_inactive : Bool
  pub transmit_overrun : Bool
  pub break_detected : Bool

unfoldable pub read_sol_packet : List ℕ → ℕ → SolPacket × ℕ
read_sol_packet bytes offset = (
  record {
    packet_sequence_number = bit_and (get_or bytes offset 0) 0x0F;
    acked_packet_number = bit_and (get_or bytes (offset + 1) 0) 0x0F;
    accepted_character_count = get_or bytes (offset + 2) 0;
    is_nack = not (bit_and (get_or bytes (offset + 3) 0) 0x40 == 0);
    transfer_unavailable = not (bit_and (get_or bytes (offset + 3) 0) 0x20 == 0);
    sol_inactive = not (bit_and (get_or bytes (offset + 3) 0) 0x10 == 0);
    transmit_overrun = not (bit_and (get_or bytes (offset + 3) 0) 0x08 == 0);
    break_detected = not (bit_and (get_or bytes (offset + 3) 0) 0x04 == 0);
  },
  offset + 4,
)

-- A response: `bytes` is the buffer, of which the first `data_len` bytes count.
pub record SolRs : Type 0 where
  pub authtype : ℕ
  pub payloadtype : ℕ
  pub bytes : List ℕ
  pub data_len : ℕ
  pub sol_packet : SolPacket

unfoldable pub is_sol_packet : SolRs → Bool
is_sol_packet rsp = rsp.authtype == authtype_rmcp_plus && rsp.payloadtype == payload_type_sol

unfoldable pub sol_response_acks_packet : SolRs → SolPayload → Bool
unfolding is_sol_packet
sol_response_acks_packet rsp p =
    is_sol_packet rsp
    && p.payload_type == payload_type_sol
    && rsp.sol_packet.acked_packet_number == p.packet_sequence_number

-- `intelplus` is `ipmi_oem_active(intf, "intelplus")`.
unfoldable pub is_sol_partial_ack : Bool → SolPayload → Option SolRs → ℕ
is_sol_partial_ack intelplus p none = 0
is_sol_partial_ack intelplus p (some rs) =
    if is_sol_packet rs
      && sol_response_acks_packet rs p
      && ltb rs.sol_packet.accepted_character_count p.character_count
    then (if intelplus && rs.sol_packet.accepted_character_count == 0
        then 0
        else p.character_count - rs.sol_packet.accepted_character_count)
    else 0

-- The session's sequence number afterwards, and the one that the packet takes.
unfoldable pub set_sol_packet_sequence_number : ℕ → ℕ × ℕ
set_sol_packet_sequence_number sequence_number =
    if ltb 0x0F sequence_number then (2, 1) else (u8 (sequence_number + 1), sequence_number)

-- A run of `ipmi_lanplus_send_sol`: the packets sent, the responses handed to
-- `sol_input_handler`, the sequence number of the session, and the response returned.
pub record SolRun : Type 0 where
  pub sent : List SolPayload
  pub handled : List SolRs
  pub sequence_number : ℕ
  pub response : Option SolRs
  pub finished : Bool

-- The condition of the loop.
unfoldable pub resends : SolRs → ℕ → Bool
resends rs chars_to_resend =
    not rs.sol_packet.transfer_unavailable
    && not rs.sol_packet.is_nack
    && not (chars_to_resend == 0)

-- The packet of the next round.
unfoldable pub resend_packet : SolPayload → SolRs → ℕ → ℕ → SolPayload
resend_packet p rs seq chars_to_resend = record p {
  packet_sequence_number = (set_sol_packet_sequence_number seq).1;
  bytes = take chars_to_resend (drop rs.sol_packet.accepted_character_count p.bytes);
  character_count = chars_to_resend;
}

-- From the sending of `p` on; `replies` are what `ipmi_lanplus_send_payload` returns for the
-- packets, in order. A run that needs more replies than there are is not finished.
unfoldable pub send_from : Bool → ℕ → SolPayload → List (Option SolRs) → SolRun
send_from intelplus seq p [] = record {
  sent = p ∷ [];
  handled = [];
  sequence_number = seq;
  response = none;
  finished = false;
}
send_from intelplus seq p (none ∷ replies) = record {
  sent = p ∷ [];
  handled = [];
  sequence_number = seq;
  response = none;
  finished = true;
}
send_from intelplus seq p (some rs ∷ replies) =
    let chars_to_resend = is_sol_partial_ack intelplus p (some rs) in
    let rest =
      send_from intelplus (set_sol_packet_sequence_number seq).0
        (resend_packet p rs seq chars_to_resend) replies in
    if resends rs chars_to_resend
    then record rest {
      sent = p ∷ rest.sent;
      handled = if rs.data_len == 0 then rest.handled else rs ∷ rest.handled;
    }
    else record {
      sent = p ∷ [];
      handled = [];
      sequence_number = seq;
      response = some rs;
      finished = true;
    }

-- The packet that is sent first.
unfoldable pub first_packet : ℕ → SolPayload → SolPayload
first_packet sequence_number p = record p {
  payload_type = payload_type_sol;
  acked_packet_number = 0;
  packet_sequence_number = (set_sol_packet_sequence_number sequence_number).1;
  accepted_character_count = 0;
}

unfoldable pub send_sol : Bool → ℕ → SolPayload → List (Option SolRs) → SolRun
send_sol intelplus sequence_number p replies =
    send_from intelplus (set_sol_packet_sequence_number sequence_number).0
      (first_packet sequence_number p) replies

-- The two static variables of `check_sol_packet_for_new_data`.
pub record SolMemory : Type 0 where
  pub last_received_sequence_number : ℕ
  pub last_received_byte_count : ℕ

-- The buffer, the length (an int, that can become negative), what is returned, and the memory.
pub record SolNews : Type 0 where
  pub bytes : List ℕ
  pub data_len : ℤ
  pub new_data_size : ℤ
  pub memory : SolMemory

unfoldable pub move_new : List ℕ → ℕ → ℤ → List ℕ
move_new bytes data_len (pos new_size) =
    take new_size (drop (data_len - new_size) bytes) ++ drop new_size bytes
move_new bytes data_len _ = bytes

unfoldable pub check_sol_packet_for_new_data : SolMemory → SolRs → SolNews
check_sol_packet_for_new_data m rsp =
    if is_sol_packet rsp
    then (let seq = rsp.sol_packet.packet_sequence_number in
        let repeat = seq == m.last_received_sequence_number in
        let new_size = pos rsp.data_len -ℤ pos m.last_received_byte_count in
        record {
          bytes = if repeat then move_new rsp.bytes rsp.data_len new_size else rsp.bytes;
          data_len = if repeat then new_size else pos rsp.data_len;
          new_data_size = if repeat then new_size else pos 0;
          memory = if seq == 0 then m else record {
            last_received_sequence_number = seq;
            last_received_byte_count = u8 rsp.data_len;
          };
        })
    else record {
      bytes = rsp.bytes;
      data_len = pos rsp.data_len;
      new_data_size = pos 0;
      memory = m;
    }

-- The acknowledgement that is sent, if any.
unfoldable pub ack_sol_packet : SolRs → Option SolPayload
ack_sol_packet rsp =
    if is_sol_packet rsp && not (rsp.sol_packet.packet_sequence_number == 0)
    then some record {
      payload_type = payload_type_sol;
      bytes = [];
      character_count = 0;
      packet_sequence_number = 0;
      acked_packet_number = rsp.sol_packet.packet_sequence_number;
      accepted_character_count = u8 rsp.data_len;
      is_nack = false;
      assert_ring_wor = false;
      generate_break = false;
      deassert_cts = false;
      deassert_dcd_dsr = false;
      flush_inbound = false;
      flush_outbound = false;
    }
    else none
