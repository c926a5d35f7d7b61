-- ===== src/Serial/Terminal/CommandLaws.antt =====
-- serial_terminal.c: commands that are answered, after tries that were lost.
use ipmitool.Common.{
  inr, inl, Bool-cases, ℕ, zero, suc, ◌+◌, ◌-◌, ◌*◌, ◌≤◌, ◌<◌, ◌≡◌, refl, List, [], ◌∷◌, ◌++◌, true,
  false, ◌==◌, leb, ltb, length, length-append, arith, ◌∙◌, All, Bool, bit_and, bit_or, u8, ap, sym,
  drop, take_all, same_on_bytes_sound, ltb→lt, holds_below_sound, append_assoc,
}
use ipmitool.Common.Bytes.{holds_below}
use ipmitool.Intf.{Intf}
use ipmitool.Serial.Message.{ipmb_hdr, IpmiRq, net_fn_lun, system_fixup, inner_rq}
use ipmitool.Serial.MessageLaws.{net_fn_lun-lt}
use ipmitool.Serial.Terminal.{
  TermEvent, silent, got, TermCtx, msg_text, is_answer, waited, wait_response, recv_response,
  read_message, read_line, max_response,
}
use ipmitool.Serial.Terminal.TextLaws.{arrive, arrive-append}
use ipmitool.Serial.Terminal.WaitLaws.{left_eol, all_text, Fits, wait_response-answer}
use ipmitool.Serial.Terminal.Message.{term_build_at}
use ipmitool.Serial.Terminal.Command.{
  answered, wait_all, done, respond, checked, attempt, on_bridged,
}

-- A wait for an answer among others.
length-arrive :
    (s : List ℕ) (events : List TermEvent) → length (arrive s events) ≡ length s + length events
length-arrive [] events = omega arith
length-arrive (c ∷ s) events = omega (arith, length-arrive s events)

all_text_long :
    (others : List (List ℕ)) (answer : List ℕ) → length others ≤ length (all_text others answer)
unfolding msg_text
all_text_long [] answer = omega arith
all_text_long (msg ∷ others) answer =
    omega
      (arith, length-append (msg_text msg) (all_text others answer), all_text_long others answer)

abbrev pub Foreign : TermCtx → List (List ℕ) → Type 0
Foreign ctx others = All (λ msg. Fits max_response msg × (is_answer ctx msg ≡ false)) others

pub wait_all-answer :
    (einval eol : Bool) (ctx : TermCtx) (others : List (List ℕ)) (answer : List ℕ)
    (events : List TermEvent)
    → Foreign ctx others
    → Fits max_response answer
    → is_answer ctx answer ≡ true
    → wait_all einval ctx (arrive (left_eol eol ++ all_text others answer) events)
      ≡ waited (drop 3 answer) (got 10 ∷ events)
unfolding wait_all
wait_all-answer einval eol ctx others answer events foreign fits found =
    let text = left_eol eol ++ all_text others answer in
    wait_response-answer einval eol (suc (length (arrive text events))) ctx max_response others
      answer events foreign fits found
      (omega (
        arith,
        length-arrive text events,
        length-append (left_eol eol) (all_text others answer),
        all_text_long others answer,
      ))

pub wait_all-silent :
    (einval : Bool) (ctx : TermCtx) (events : List TermEvent)
    → wait_all einval ctx (silent ∷ events) ≡ waited [] events
unfolding wait_all wait_response recv_response read_message read_line
wait_all-silent einval ctx events = refl

-- The header of an answer, and an answer to a message with that header.
abbrev pub answer_to : ℕ → ℕ → ℕ → List ℕ → List ℕ
answer_to net_fn counter cmd bytes = bit_or net_fn 4 ∷ u8 (counter * 4) ∷ cmd ∷ bytes

eq_self : (n : ℕ) → (n == n) ≡ true
eq_self n = ground arith

seq_kept : (counter : ℕ) → bit_and (u8 (counter * 4)) 0xFC ≡ u8 (counter * 4)
unfolding holds_below
seq_kept counter =
    let c = u8 counter in
    let same : u8 (counter * 4) ≡ u8 (c * 4) = omega arith in
    rw same
      (same_on_bytes_sound (λ x. bit_and (u8 (x * 4)) 0xFC) (λ x. u8 (x * 4)) c refl (omega arith))

pub answer_to-is_answer :
    (net_fn sa counter cmd cc : ℕ) (bytes : List ℕ)
    → is_answer
        (record { net_fn = net_fn; sa = sa; seq = u8 (counter * 4); cmd = cmd })
        (answer_to net_fn counter cmd (cc ∷ bytes))
      ≡ true
unfolding is_answer
answer_to-is_answer net_fn sa counter cmd cc bytes =
    let long : leb 4 (length (answer_to net_fn counter cmd (cc ∷ bytes))) ≡ true = ground arith in
    rw long (
      rw (eq_self (bit_or net_fn 4))
        (rw (seq_kept counter) (rw (eq_self (u8 (counter * 4))) (eq_self cmd))))

pub bit_or_4-lt : (n : ℕ) → n < 256 → bit_or n 4 < 256
unfolding holds_below
bit_or_4-lt n h = ltb→lt _ _ (holds_below_sound 256 (λ x. ltb (bit_or x 4) 256) n refl h)

pub answer_to-Fits :
    (net_fn counter cmd cc : ℕ) (bytes : List ℕ)
    → net_fn < 256
    → cmd < 256
    → All (λ b. b < 256) (cc ∷ bytes)
    → length bytes + 4 ≤ max_response
    → Fits max_response (answer_to net_fn counter cmd (cc ∷ bytes))
answer_to-Fits net_fn counter cmd cc bytes nf c small room = (
  (bit_or_4-lt net_fn nf, (omega arith, (c, small))),
  omega arith,
  omega (arith, room),
  omega (arith, room),
)

-- A response that is not to two Send Message requests has its completion code first.
respond_whole :
    (level cc : ℕ) (bytes : List ℕ)
    → (level == 2) ≡ false
    → respond level (cc ∷ bytes) (length (cc ∷ bytes)) ≡ answered cc bytes
unfolding respond
respond_whole level cc bytes single =
    let some_bytes : (length (cc ∷ bytes) == 0) ≡ false = ground arith in
    let count : length (cc ∷ bytes) - 1 ≡ length bytes = omega arith in
    rw single (rw some_bytes (rw count (rw (take_all bytes) refl)))

checked_whole :
    (cc : ℕ) (bytes : List ℕ) → checked 1 (cc ∷ bytes) (length (cc ∷ bytes)) ≡ answered cc bytes
unfolding checked
checked_whole cc bytes = elim (Bool-cases (cc == 0)) [
  | inl good ↦ rw good (respond_whole 1 cc bytes refl)
  | inr bad ↦ rw bad (respond_whole 1 cc bytes refl)
]

-- What the port delivers to a request: the answer among others, or first the response to the Send
-- Message request among others, which says that it was accepted.
abbrev pub script : ℕ → List (List ℕ) → List ℕ → List (List ℕ) → List ℕ → List ℕ
script zero others accepted more answer = all_text more answer
script (suc level) others accepted more answer = all_text others accepted ++ all_text more answer

module _ (einval eol : Bool) (timeout : ℕ) (intf : Intf) (req : IpmiRq) (counter cc : ℕ)
    (bytes : List ℕ) (ticks : List ℕ) (others more : List (List ℕ)) (events : List TermEvent)
    (is_cmd : req.cmd < 256) (small : All (λ b. b < 256) (cc ∷ bytes))
    (room : length bytes + 4 ≤ max_response) where
  abbrev pub answer : List ℕ
  answer = answer_to (net_fn_lun req) counter req.cmd (cc ∷ bytes)

  abbrev pub accepted : List ℕ
  accepted = answer_to 0x18 counter 0x34 (0 ∷ [])

  abbrev pub direct_ctx : TermCtx
  direct_ctx = record { net_fn = net_fn_lun req; sa = 0; seq = u8 (counter * 4); cmd = req.cmd }

  abbrev pub bridged_ctx : TermCtx
  bridged_ctx = record direct_ctx { sa = intf.target_addr }

  abbrev pub outer_ctx : TermCtx
  outer_ctx = record { net_fn = 0x18; sa = 0; seq = u8 (counter * 4); cmd = 0x34 }

  answer-wait :
      (sa : ℕ) (eol : Bool)
      → Foreign (record direct_ctx { sa = sa }) more
      → wait_all einval
          (record direct_ctx { sa = sa })
          (arrive (left_eol eol ++ all_text more answer) events)
        ≡ waited (cc ∷ bytes) (got 10 ∷ events)
  answer-wait sa eol foreign =
      wait_all-answer einval eol (record direct_ctx { sa = sa }) more answer events foreign
        (answer_to-Fits (net_fn_lun req) counter req.cmd cc bytes (net_fn_lun-lt req) is_cmd small
          room)
        (answer_to-is_answer (net_fn_lun req) sa counter req.cmd cc bytes)

  pub attempt_direct :
      Foreign direct_ctx more
      → attempt einval false timeout
          (term_build_at false intf req counter 0)
          ticks
          (arrive (left_eol eol ++ all_text more answer) events)
        ≡ done (answered cc bytes) counter (got 10 ∷ events)
  unfolding attempt term_build_at
  attempt_direct foreign = rw (answer-wait 0 eol foreign) (rw (respond_whole 0 cc bytes refl) refl)

  pub attempt_bridged :
      Foreign outer_ctx others
      → Foreign bridged_ctx more
      → attempt einval false timeout
          (term_build_at false intf req counter 1)
          ticks
          (arrive (left_eol eol ++ (all_text others accepted ++ all_text more answer)) events)
        ≡ done (answered cc bytes) counter (got 10 ∷ events)
  unfolding attempt term_build_at on_bridged inner_rq system_fixup ipmb_hdr
  attempt_bridged foreign foreign' =
      let rest = arrive (all_text more answer) events in
      let split =
        ap (λ (text : List ℕ). arrive text events)
          (sym (append_assoc (left_eol eol) (all_text others accepted) (all_text more answer)))
        ∙ arrive-append (left_eol eol ++ all_text others accepted) (all_text more answer) events in
      let first =
        wait_all-answer einval eol outer_ctx others accepted rest foreign
          (answer_to-Fits 0x18 counter 0x34 0 [] (omega arith) (omega arith) (omega arith)
            (omega arith))
          (answer_to-is_answer 0x18 0 counter 0x34 0 []) in
      rw split (
        rw first
          (rw (answer-wait intf.target_addr true foreign') (rw (checked_whole cc bytes) refl)))
