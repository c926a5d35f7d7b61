-- ===== src/Lanplus/Sol/SendLaws.antt =====
-- src/plugins/lanplus/lanplus.c: `ipmi_lanplus_send_sol`, whatever the other end acknowledges.
use ipmitool.Common.{
  ℕ, ◌-◌, ◌≤◌, ◌<◌, ◌≡◌, refl, sym, List, [], ◌∷◌, ◌++◌, Option, none, some, Bool, true, false,
  if◌then◌else◌, length, length-drop, take, drop, take_long, take-drop, ◌⊎◌, inl, inr, arith, ap,
  ◌∙◌, Bool-cases, All,
}
use ipmitool.Lanplus.Sol.{
  SolPayload, SolRs, is_sol_partial_ack, set_sol_packet_sequence_number, resends, resend_packet,
  send_from, first_packet, send_sol,
}

is_empty : List SolPayload → Bool
is_empty [] = true
is_empty (p ∷ ps) = false

-- What the packets sent carry, by the replies: of each packet the characters that were accepted,
-- and the last packet in full.
unfoldable pub carried : List SolPayload → List (Option SolRs) → List ℕ
unfolding is_empty
carried [] replies = []
carried (p ∷ ps) [] = p.bytes
carried (p ∷ ps) (none ∷ replies) = p.bytes
carried (p ∷ ps) (some rs ∷ replies) =
    if is_empty ps
    then p.bytes
    else take rs.sol_packet.accepted_character_count p.bytes ++ carried ps replies

-- Either nothing is to be sent again, or what was not accepted.
partial_ack_cases :
    (intelplus : Bool) (p : SolPayload) (rs : SolRs)
    → (is_sol_partial_ack intelplus p (some rs) ≡ 0)
      ⊎ ((rs.sol_packet.accepted_character_count < p.character_count)
          × (is_sol_partial_ack intelplus p (some rs)
              ≡ p.character_count - rs.sol_packet.accepted_character_count))
unfolding is_sol_partial_ack
partial_ack_cases intelplus p rs = ground arith

not_empty :
    (intelplus : Bool) (replies : List (Option SolRs)) (seq : ℕ) (p : SolPayload)
    → is_empty (send_from intelplus seq p replies).sent ≡ false
unfolding send_from is_empty
not_empty intelplus [] seq p = refl
not_empty intelplus (none ∷ replies) seq p = refl
not_empty intelplus (some rs ∷ replies) seq p =
    elim (Bool-cases (resends rs (is_sol_partial_ack intelplus p (some rs)))) [
      | inl go ↦ rw (go, send_from) refl
      | inr stop ↦ rw (stop, send_from) refl
    ]

resends-zero : (rs : SolRs) → resends rs 0 ≡ false
unfolding resends
resends-zero rs = ground arith

-- What is sent again is what was not accepted.
resent :
    (intelplus : Bool) (p : SolPayload) (rs : SolRs)
    → resends rs (is_sol_partial_ack intelplus p (some rs)) ≡ true
    → is_sol_partial_ack intelplus p (some rs)
      ≡ p.character_count - rs.sol_packet.accepted_character_count
resent intelplus p rs go = elim (partial_ack_cases intelplus p rs) [
  | inl none_left ↦
      let stopped : true ≡ false = sym go ∙ ap (resends rs) none_left ∙ resends-zero rs in
      absurd (ground (arith, stopped))
  | inr some_left ↦ some_left.1
]

send_from-carried :
    (intelplus : Bool) (replies : List (Option SolRs)) (seq : ℕ) (p : SolPayload)
    → length p.bytes ≡ p.character_count
    → carried (send_from intelplus seq p replies).sent replies ≡ p.bytes
unfolding send_from carried
send_from-carried intelplus [] seq p h = refl
send_from-carried intelplus (none ∷ replies) seq p h = refl
send_from-carried intelplus (some rs ∷ replies) seq p h =
    elim (Bool-cases (resends rs (is_sol_partial_ack intelplus p (some rs)))) [
      | inl go ↦
          let acc = rs.sol_packet.accepted_character_count in
          let n = is_sol_partial_ack intelplus p (some rs) in
          let left : n ≡ p.character_count - acc = resent intelplus p rs go in
          let kept : take n (drop acc p.bytes) ≡ drop acc p.bytes =
            take_long n (drop acc p.bytes) (omega (arith, length-drop acc p.bytes, left, h)) in
          let whole : length (take n (drop acc p.bytes)) ≡ n =
            ap length kept ∙ omega (arith, length-drop acc p.bytes, left, h) in
          let next = (set_sol_packet_sequence_number seq).0 in
          let more = not_empty intelplus replies next (resend_packet p rs seq n) in
          let rest =
            send_from-carried intelplus replies next (resend_packet p rs seq n)
              (unfold resend_packet in whole) in
          let kept_bytes : (resend_packet p rs seq n).bytes ≡ drop acc p.bytes =
            unfold resend_packet in kept in
          rw (go, send_from)
            (rw (more, carried)
              (ap (λ (x : List ℕ). take acc p.bytes ++ x) (rest ∙ kept_bytes)
                ∙ take-drop acc p.bytes))
      | inr stop ↦ rw (stop, send_from) refl
    ]

-- Whatever the other end replies, accepting any part of each packet, what it accepted of the
-- packets sent before the last one, followed by the last packet, is exactly the data given to
-- `ipmi_lanplus_send_sol`: no character is skipped and none is sent again once accepted.
pub send_sol-carried :
    (intelplus : Bool) (seq : ℕ) (p : SolPayload) (replies : List (Option SolRs))
    → length p.bytes ≡ p.character_count
    → carried (send_sol intelplus seq p replies).sent replies ≡ p.bytes
unfolding send_sol first_packet
send_sol-carried intelplus seq p replies h =
    send_from-carried intelplus replies (set_sol_packet_sequence_number seq).0 (first_packet seq p)
      h

abbrev pub Numbered : SolPayload → Type 0
Numbered p = (1 ≤ p.packet_sequence_number) × (p.packet_sequence_number ≤ 15)

set_number_lem :
    (seq : ℕ)
    → 1 ≤ seq
    → (1 ≤ (set_sol_packet_sequence_number seq).0)
      × (1 ≤ (set_sol_packet_sequence_number seq).1)
      × ((set_sol_packet_sequence_number seq).1 ≤ 15)
unfolding set_sol_packet_sequence_number
set_number_lem seq h = ground arith

send_from-Numbered :
    (intelplus : Bool) (replies : List (Option SolRs)) (seq : ℕ) (p : SolPayload)
    → 1 ≤ seq
    → Numbered p
    → All Numbered (send_from intelplus seq p replies).sent
      × (1 ≤ (send_from intelplus seq p replies).sequence_number)
unfolding send_from
send_from-Numbered intelplus [] seq p h n = ((n, tt), h)
send_from-Numbered intelplus (none ∷ replies) seq p h n = ((n, tt), h)
send_from-Numbered intelplus (some rs ∷ replies) seq p h n =
    let chars = is_sol_partial_ack intelplus p (some rs) in
    let next = set_number_lem seq h in
    let rest =
      send_from-Numbered intelplus replies (set_sol_packet_sequence_number seq).0
        (resend_packet p rs seq chars) next.0 (unfold resend_packet in (next.1, next.2)) in
    elim (Bool-cases (resends rs chars)) [
      | inl go ↦ rw (go, send_from) ((n, rest.0), rest.1)
      | inr stop ↦ rw (stop, send_from) ((n, tt), h)
    ]

-- From a session whose sequence number is not 0, every packet that `ipmi_lanplus_send_sol`
-- sends has a number from 1 to 15, and the number left in the session is again not 0.
send_sol-Numbered :
    (intelplus : Bool) (seq : ℕ) (p : SolPayload) (replies : List (Option SolRs))
    → 1 ≤ seq
    → All Numbered (send_sol intelplus seq p replies).sent
      × (1 ≤ (send_sol intelplus seq p replies).sequence_number)
unfolding send_sol first_packet
send_sol-Numbered intelplus seq p replies h =
    let next = set_number_lem seq h in
    send_from-Numbered intelplus replies (set_sol_packet_sequence_number seq).0 (first_packet seq p)
      next.0 (next.1, next.2)
