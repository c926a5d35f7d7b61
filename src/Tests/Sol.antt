-- ===== src/Tests/Sol.antt =====
-- Serial over LAN on concrete packets.
use ipmitool.Common.{
  ℕ, ◌<◌, ◌≡◌, refl, List, [], ◌∷◌, ◌++◌, Option, some, true, false, length, arith,
}
use ipmitool.Lanplus.Sol.{
  resends, sol_response_acks_packet, is_sol_partial_ack, set_sol_packet_sequence_number, send_from,
  SolPayload, SolPacket, SolRs, SolMemory, is_sol_packet, send_sol, first_packet, resend_packet,
  send_from, set_sol_packet_sequence_number, is_sol_partial_ack, sol_response_acks_packet, resends,
}
use ipmitool.Lanplus.Sol.SendLaws.{carried, send_sol-carried}
use ipmitool.Lanplus.Sol.StreamLaws.{shown, Carries, settled, again, shown-retransmitted}

abbrev hello : SolPayload
hello = record {
  payload_type = 1;
  bytes = 0x68 ∷ 0x65 ∷ 0x79 ∷ [];
  character_count = 3;
  packet_sequence_number = 5;
  acked_packet_number = 0;
  accepted_character_count = 0;
  is_nack = false;
  assert_ring_wor = false;
  generate_break = true;
  deassert_cts = false;
  deassert_dcd_dsr = false;
  flush_inbound = false;
  flush_outbound = true;
}

abbrev ack : ℕ → ℕ → SolPacket
ack number accepted = record {
  packet_sequence_number = 0;
  acked_packet_number = number;
  accepted_character_count = accepted;
  is_nack = false;
  transfer_unavailable = false;
  sol_inactive = false;
  transmit_overrun = false;
  break_detected = false;
}

abbrev reply : ℕ → ℕ → Option SolRs
reply number accepted = some record {
  authtype = 6;
  payloadtype = 1;
  bytes = [];
  data_len = 0;
  sol_packet = ack number accepted;
}

-- One character of packet 15 is taken, then packet 1 in full.
abbrev replies : List (Option SolRs)
replies = reply 15 1 ∷ reply 1 2 ∷ []

sent_twice : length (send_sol false 15 hello replies).sent ≡ 2
unfolding send_sol first_packet resend_packet send_from set_sol_packet_sequence_number
    is_sol_partial_ack is_sol_packet sol_response_acks_packet resends
sent_twice = refl

send_sol-carried_example :
    carried (send_sol false 15 hello replies).sent replies ≡ 0x68 ∷ 0x65 ∷ 0x79 ∷ []
send_sol-carried_example = send_sol-carried false 15 hello replies refl

abbrev packet : List ℕ → SolRs
packet bytes = record {
  authtype = 6;
  payloadtype = 1;
  bytes = bytes ++ 0 ∷ 0 ∷ [];
  data_len = length bytes;
  sol_packet = record (ack 0 0) { packet_sequence_number = 4 };
}

abbrev memory : SolMemory
memory = record { last_received_sequence_number = 3; last_received_byte_count = 9 }

packet-Carries : (bytes : List ℕ) → length bytes < 256 → Carries 4 bytes (packet bytes)
unfolding is_sol_packet
packet-Carries bytes small = record {
  rest = 0 ∷ 0 ∷ [];
  sol = refl;
  number = refl;
  len = refl;
  small = small;
  bytes_are = refl;
}

shown-retransmitted_example :
    shown memory (packet (7 ∷ 8 ∷ []) ∷ packet (7 ∷ 8 ∷ 9 ∷ []) ∷ []) ≡ 7 ∷ 8 ∷ 9 ∷ []
shown-retransmitted_example =
    shown-retransmitted 4 memory (7 ∷ 8 ∷ []) (7 ∷ 8 ∷ 9 ∷ []) (packet (7 ∷ 8 ∷ []))
      (packet (7 ∷ 8 ∷ 9 ∷ []) ∷ []) (omega arith) (λ e. cc e)
      (packet-Carries (7 ∷ 8 ∷ []) (omega arith))
      (again (9 ∷ []) (packet-Carries (7 ∷ 8 ∷ 9 ∷ []) (omega arith)) settled)
