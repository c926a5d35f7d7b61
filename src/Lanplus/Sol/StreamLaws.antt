-- ===== src/Lanplus/Sol/StreamLaws.antt =====
-- src/plugins/lanplus/lanplus.c: what a SOL console is shown of the packets it receives
-- (`check_sol_packet_for_new_data`).
use ipmitool.Common.{
  leb, ℕ, ◌+◌, ◌-◌, ◌<◌, ◌≡◌, refl, List, [], ◌∷◌, ◌++◌, true, false, ◌==◌, length, length-append,
  take, drop, take_middle, drop_middle, append_assoc, append-nil, arith, ap, ◌∙◌, u8, sym,
}
use ipmitool.Common.Int.{pos_part, pos, ◌-ℤ◌}
use ipmitool.Lanplus.Sol.{SolRs, is_sol_packet, SolMemory, move_new, check_sol_packet_for_new_data}

-- The characters that the packets, one after the other, leave for the handler.
unfoldable pub shown : SolMemory → List SolRs → List ℕ
shown m [] = []
shown m (r ∷ rs) =
    let news = check_sol_packet_for_new_data m r in
    take (pos_part news.data_len) news.bytes ++ shown news.memory rs

-- `r` is the SOL packet number `q` with the characters `chars`.
pub record Carries (q : ℕ) (chars : List ℕ) (r : SolRs) : Type 0 where
  pub rest : List ℕ
  pub sol : is_sol_packet r ≡ true
  pub number : r.sol_packet.packet_sequence_number ≡ q
  pub len : r.data_len ≡ length chars
  pub small : length chars < 256
  pub bytes_are : r.bytes ≡ chars ++ rest

-- The packet `q`, of which `chars` are known, is sent again, each time with what was sent and
-- perhaps more; at the end it has the characters of the last index.
pub data Retransmits (q : ℕ) : List ℕ → List SolRs → List ℕ → Type 0 where
  settled : {chars : List ℕ} → Retransmits q chars [] chars
  again :
      {chars all : List ℕ} (more : List ℕ) {r : SolRs} {rs : List SolRs}
      → Carries q (chars ++ more) r
      → Retransmits q (chars ++ more) rs all
      → Retransmits q chars (r ∷ rs) all

new_size :
    (chars more : List ℕ) → pos (length (chars ++ more)) -ℤ pos (length chars) ≡ pos (length more)
unfolding ◌-ℤ◌
new_size chars more =
    let size = length-append chars more in
    let le : leb (0 + length chars) (length (chars ++ more) + 0) ≡ true = ground (arith, size) in
    rw le (ap pos (omega (arith, size)))

move_more :
    {q : ℕ} (chars more : List ℕ) (r : SolRs) (c : Carries q (chars ++ more) r)
    → move_new r.bytes (length (chars ++ more)) (pos (length more))
      ≡ more ++ drop (length more) r.bytes
unfolding move_new
move_more chars more r c =
    let skipped : length (chars ++ more) - length more ≡ length chars =
      omega (arith, length-append chars more) in
    let bytes : drop (length chars) r.bytes ≡ more ++ c.rest =
      ap (drop (length chars)) (c.bytes_are ∙ append_assoc chars more c.rest)
      ∙ drop_middle (length chars) chars (more ++ c.rest) refl in
    rw skipped (
      ap (λ (x : List ℕ). take (length more) x ++ drop (length more) r.bytes) bytes
      ∙ ap (λ (x : List ℕ). x ++ drop (length more) r.bytes)
          (take_middle (length more) more c.rest refl))

module _ (q : ℕ) (positive : 0 < q) where
  abbrev remembered : List ℕ → SolMemory
  remembered chars = record {
    last_received_sequence_number = q;
    last_received_byte_count = length chars;
  }

  check-first :
      (m : SolMemory) (chars : List ℕ) (r : SolRs)
      → Carries q chars r
      → (m.last_received_sequence_number ≡ q → ⊥)
      → check_sol_packet_for_new_data m r ≡ record {
        bytes = r.bytes;
        data_len = pos (length chars);
        new_data_size = pos 0;
        memory = remembered chars;
      }
  unfolding check_sol_packet_for_new_data
  check-first m chars r c new =
      let other : (q == m.last_received_sequence_number) ≡ false = ground (arith, new) in
      let known : (q == 0) ≡ false = ground arith in
      let kept : u8 (length chars) ≡ length chars = omega (arith, c.small) in
      rw c.sol (rw (c.number, c.len) (rw (other, known) (rw kept refl)))

  check-again :
      (chars more : List ℕ) (r : SolRs) (c : Carries q (chars ++ more) r)
      → check_sol_packet_for_new_data (remembered chars) r ≡ record {
        bytes = more ++ drop (length more) r.bytes;
        data_len = pos (length more);
        new_data_size = pos (length more);
        memory = remembered (chars ++ more);
      }
  unfolding check_sol_packet_for_new_data
  check-again chars more r c =
      let same : (q == q) ≡ true = ground arith in
      let known : (q == 0) ≡ false = ground arith in
      let kept : u8 (length (chars ++ more)) ≡ length (chars ++ more) = omega (arith, c.small) in
      rw c.sol (
        rw (c.number, c.len)
          (rw (same, known) (rw (kept, new_size chars more) (rw (move_more chars more r c) refl))))

  take_first :
      (chars : List ℕ) (r : SolRs) → Carries q chars r → take (length chars) r.bytes ≡ chars
  take_first chars r c = rw c.bytes_are (take_middle (length chars) chars c.rest refl)

  shown-Retransmits :
      (chars all : List ℕ) (rs : List SolRs)
      → Retransmits q chars rs all
      → chars ++ shown (remembered chars) rs ≡ all
  unfolding shown
  shown-Retransmits chars all rs settled = append-nil chars
  shown-Retransmits chars all (r ∷ rs) (again more c rest) =
      let news = check-again chars more r c in
      rw news (
        rw (take_middle (length more) more (drop (length more) r.bytes) refl) (
          sym (append_assoc chars more (shown (remembered (chars ++ more)) rs))
          ∙ shown-Retransmits (chars ++ more) all rs rest))

-- When packet `q`, not 0 and not the number remembered, arrives and is then sent again any number
-- of times, each time with what it had and perhaps more (below 256 characters), what the
-- console is shown in total is the content of its last transmission: nothing twice, nothing lost.
pub shown-retransmitted :
    (q : ℕ) (m : SolMemory) (chars all : List ℕ) (r : SolRs) (rs : List SolRs)
    → 0 < q
    → (m.last_received_sequence_number ≡ q → ⊥)
    → Carries q chars r
    → Retransmits q chars rs all
    → shown m (r ∷ rs) ≡ all
unfolding shown
shown-retransmitted q m chars all r rs positive new c later =
    rw (check-first q positive m chars r c new)
      (rw (take_first q positive chars r c) (shown-Retransmits q positive chars all rs later))
