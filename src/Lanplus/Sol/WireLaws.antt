-- ===== src/Lanplus/Sol/WireLaws.antt =====
-- src/plugins/lanplus/lanplus.c: a SOL packet as it is written and as it is read.
use ipmitool.Common.{
  arith, ℕ, ◌<◌, ◌≡◌, refl, sym, Bool, true, false, not, ◌==◌, ==→eq, ◌&&◌, bit_and, take, drop,
  holds_below_sound,
}
use ipmitool.Common.Bytes.{holds_below}
use ipmitool.Lanplus.Sol.{SolPayload, operation_byte, operation, sol_wire_rep, read_sol_packet}

low_four : (x : ℕ) → x < 16 → bit_and x 0x0F ≡ x
unfolding holds_below
low_four x h = ==→eq (bit_and x 0x0F) x (holds_below_sound 16 (λ y. bit_and y 0x0F == y) x refl h)

abbrev Flags : Type 0
Flags = Bool → Bool → Bool → Bool → Bool → Bool → Bool → Bool

-- Does the test hold of both values, and of every combination of the seven flags?
each : (Bool → Bool) → Bool
each f = f true && f false

each_sound : (f : Bool → Bool) → each f ≡ true → (b : Bool) → f b ≡ true
unfolding each
each_sound f h true = ground (arith, h)
each_sound f h false = ground (arith, h)

same : Bool → Bool → Bool
same true b = b
same false b = not b

same_sound : (a b : Bool) → same a b ≡ true → a ≡ b
unfolding same
same_sound true b h = sym h
same_sound false true h = h
same_sound false false h = refl

every : Flags → Bool
unfolding each
every t =
    each
      (λ a. each (λ b. each (λ c. each (λ d. each (λ e. each (λ f. each (λ g. t a b c d e f g)))))))

every_sound : (t : Flags) → every t ≡ true → (a b c d e f g : Bool) → t a b c d e f g ≡ true
unfolding every
every_sound t h a b c d e f g =
    let h1 =
      each_sound
        (λ a.
          each (λ b. each (λ c. each (λ d. each (λ e. each (λ f. each (λ g. t a b c d e f g)))))))
        h a in
    let h2 =
      each_sound (λ b. each (λ c. each (λ d. each (λ e. each (λ f. each (λ g. t a b c d e f g))))))
        h1 b in
    let h3 =
      each_sound (λ c. each (λ d. each (λ e. each (λ f. each (λ g. t a b c d e f g))))) h2 c in
    let h4 = each_sound (λ d. each (λ e. each (λ f. each (λ g. t a b c d e f g)))) h3 d in
    let h5 = each_sound (λ e. each (λ f. each (λ g. t a b c d e f g))) h4 e in
    let h6 = each_sound (λ f. each (λ g. t a b c d e f g)) h5 f in
    each_sound (λ g. t a b c d e f g) h6 g

-- One bit of the byte is one of the flags.
bit_is :
    (mask : ℕ) (flag : Flags)
    → every (λ a b c d e f g.
      same (not (bit_and (operation_byte a b c d e f g) mask == 0)) (flag a b c d e f g))
      ≡ true
    → (a b c d e f g : Bool)
    → not (bit_and (operation_byte a b c d e f g) mask == 0) ≡ flag a b c d e f g
bit_is mask flag h a b c d e f g =
    same_sound (not (bit_and (operation_byte a b c d e f g) mask == 0)) (flag a b c d e f g) (
      every_sound
        (λ a b c d e f g.
          same (not (bit_and (operation_byte a b c d e f g) mask == 0)) (flag a b c d e f g))
        h a b c d e f g)

-- The fourth byte of a packet, tested.
flags_read :
    (p : SolPayload)
    → (not (bit_and (operation p) 0x40 == 0) ≡ p.is_nack)
      × (not (bit_and (operation p) 0x20 == 0) ≡ p.assert_ring_wor)
      × (not (bit_and (operation p) 0x10 == 0) ≡ p.generate_break)
      × (not (bit_and (operation p) 0x08 == 0) ≡ p.deassert_cts)
      × (not (bit_and (operation p) 0x04 == 0) ≡ p.deassert_dcd_dsr)
unfolding operation every same
flags_read p = (
  bit_is 0x40 (λ a b c d e f g. a) refl p.is_nack p.assert_ring_wor p.generate_break p.deassert_cts
      p.deassert_dcd_dsr p.flush_inbound p.flush_outbound,
  bit_is 0x20 (λ a b c d e f g. b) refl p.is_nack p.assert_ring_wor p.generate_break p.deassert_cts
      p.deassert_dcd_dsr p.flush_inbound p.flush_outbound,
  bit_is 0x10 (λ a b c d e f g. c) refl p.is_nack p.assert_ring_wor p.generate_break p.deassert_cts
      p.deassert_dcd_dsr p.flush_inbound p.flush_outbound,
  bit_is 0x08 (λ a b c d e f g. d) refl p.is_nack p.assert_ring_wor p.generate_break p.deassert_cts
      p.deassert_dcd_dsr p.flush_inbound p.flush_outbound,
  bit_is 0x04 (λ a b c d e f g. e) refl p.is_nack p.assert_ring_wor p.generate_break p.deassert_cts
      p.deassert_dcd_dsr p.flush_inbound p.flush_outbound,
)

-- A packet whose two numbers are below 16, written and then read, gives its numbers, its count of
-- accepted characters and its first five operation bits back, and its characters follow where
-- the reader stops.
pub read-sol_wire_rep :
    (p : SolPayload)
    → p.packet_sequence_number < 16
    → p.acked_packet_number < 16
    → ((read_sol_packet (sol_wire_rep p) 0).0 ≡ record {
      packet_sequence_number = p.packet_sequence_number;
      acked_packet_number = p.acked_packet_number;
      accepted_character_count = p.accepted_character_count;
      is_nack = p.is_nack;
      transfer_unavailable = p.assert_ring_wor;
      sol_inactive = p.generate_break;
      transmit_overrun = p.deassert_cts;
      break_detected = p.deassert_dcd_dsr;
    })
      × (drop (read_sol_packet (sol_wire_rep p) 0).1 (sol_wire_rep p)
          ≡ take p.character_count p.bytes)
unfolding read_sol_packet sol_wire_rep
read-sol_wire_rep p seq ack =
    let f = flags_read p in
    (
      rw (low_four p.packet_sequence_number seq, low_four p.acked_packet_number ack)
          (rw (f.0, f.1, f.2, f.3, f.4) refl),
      refl,
    )
