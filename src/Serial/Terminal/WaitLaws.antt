-- ===== src/Serial/Terminal/WaitLaws.antt =====
-- serial_terminal.c: responses one behind the other, received and searched for the awaited one.
use ipmitool.Common.{
  inr, inl, Bool-cases, ℕ, zero, suc, ◌+◌, ◌-◌, ◌*◌, ◌≤◌, ◌<◌, ◌≡◌, refl, List, [], ◌∷◌, ◌++◌, some,
  true, false, ◌==◌, if◌then◌else◌, length, length-append, arith, ◌∙◌, All, Bool, take, take_middle,
  sym, ap, drop, append_assoc,
}
use ipmitool.Serial.Terminal.{
  TermEvent, got, read_line, msg_digits, msg_text, ends_message, read_message, line_size, line_read,
  recv_response, term_received, TermCtx, is_answer, waited, wait_response,
}
use ipmitool.Serial.Terminal.TextLaws.{
  arrive, arrive-append, msg_digits-Digit, length-msg_digits, read_line-digits, ends_message-closed,
  parse_line-digits,
}

-- The line feed of an earlier message, when it is still to be read.
abbrev pub left_eol : Bool → List ℕ
left_eol false = []
left_eol true = 10 ∷ []

msg_text-arrive :
    (msg : List ℕ) (events : List TermEvent)
    → arrive (msg_text msg) events
      ≡ got 91 ∷ arrive (msg_digits msg) (got 93 ∷ got 13 ∷ got 10 ∷ events)
unfolding msg_text
msg_text-arrive msg events =
    ap (λ (l : List TermEvent). got 91 ∷ l)
      (arrive-append (msg_digits msg) (93 ∷ 13 ∷ 10 ∷ []) events)

opened_line :
    (msg : List ℕ) (len : ℕ) (events : List TermEvent)
    → All (λ b. b < 256) msg
    → length msg * 2 + 3 ≤ len
    → read_line (got 91 ∷ arrive (msg_digits msg) (got 93 ∷ got 13 ∷ events)) len
      ≡ record { text = some (91 ∷ (msg_digits msg ++ 93 ∷ 13 ∷ [])); events = events }
unfolding read_line
opened_line msg zero events small room = absurd (omega (arith, room))
opened_line msg (suc len) events small room =
    rw
      (read_line-digits (msg_digits msg) len events (msg_digits-Digit msg small)
        (omega (arith, room, length-msg_digits msg)))
      refl

-- The last character, which the NUL is written over.
end_replaced :
    (t : List ℕ) → take (length (t ++ 93 ∷ 13 ∷ []) - 1) (t ++ 93 ∷ 13 ∷ []) ≡ t ++ 93 ∷ []
end_replaced t =
    let n : length (t ++ 93 ∷ 13 ∷ []) - 1 ≡ length (t ++ 93 ∷ []) =
      omega (arith, length-append t (93 ∷ 13 ∷ []), length-append t (93 ∷ [])) in
    ap (λ (k : ℕ). take k (t ++ 93 ∷ 13 ∷ [])) n
    ∙ ap (take (length (t ++ 93 ∷ []))) (sym (append_assoc t (93 ∷ []) (13 ∷ [])))
    ∙ take_middle (length (t ++ 93 ∷ [])) (t ++ 93 ∷ []) (13 ∷ []) refl

closed_at :
    (text t : List ℕ)
    → (ends_message (text ++ (t ++ 93 ∷ 13 ∷ [])) ≡ true)
      × (take (length (text ++ (t ++ 93 ∷ 13 ∷ [])) - 1) (text ++ (t ++ 93 ∷ 13 ∷ []))
          ≡ text ++ (t ++ 93 ∷ []))
closed_at text t =
    let joined = sym (append_assoc text t (93 ∷ 13 ∷ [])) in
    (
      rw joined (ends_message-closed (text ++ t)),
      rw joined (end_replaced (text ++ t) ∙ append_assoc text t (93 ∷ [])),
    )

read_message-closed :
    (fuel : ℕ) (text t : List ℕ) (events next : List TermEvent)
    → (length text == line_size) ≡ false
    → read_line events (line_size - length text)
      ≡ record { text = some (t ++ 93 ∷ 13 ∷ []); events = next }
    → read_message (suc fuel) text events
      ≡ record { reading = line_read (text ++ (t ++ 93 ∷ [])); events = next }
unfolding read_message
read_message-closed fuel text t events next room line =
    let closed = closed_at text t in
    rw (room, read_message)
      (rw (line, read_message) (rw (closed.0, read_message) (rw (closed.1) (rw line refl))))

eol_skipped :
    (events : List TermEvent)
    → read_message (line_size + 1) [] (got 10 ∷ events) ≡ read_message line_size (10 ∷ []) events
unfolding read_message read_line ends_message
eol_skipped events = refl

-- A response is received whether or not the line feed of an earlier one is still to be read, and
-- leaves its own.
recv_response-text :
    (einval eol : Bool) (len : ℕ) (msg : List ℕ) (events : List TermEvent)
    → All (λ b. b < 256) msg
    → length msg ≤ len
    → length msg * 2 + 4 ≤ line_size
    → recv_response einval len (arrive (left_eol eol ++ msg_text msg) events)
      ≡ record { result = term_received msg; events = got 10 ∷ events }
unfolding recv_response
recv_response-text einval false len msg events small fits room =
    let r =
      read_message-closed line_size [] (91 ∷ msg_digits msg)
        (got 91 ∷ arrive (msg_digits msg) (got 93 ∷ got 13 ∷ got 10 ∷ events)) (got 10 ∷ events)
        refl (opened_line msg line_size (got 10 ∷ events) small (omega (arith, room))) in
    rw (msg_text-arrive msg events)
      (rw r (rw ((parse_line-digits einval len msg small fits).0) refl))
recv_response-text einval true len msg events small fits room =
    let r =
      read_message-closed 767 (10 ∷ []) (91 ∷ msg_digits msg)
        (got 91 ∷ arrive (msg_digits msg) (got 93 ∷ got 13 ∷ got 10 ∷ events)) (got 10 ∷ events)
        refl (opened_line msg 767 (got 10 ∷ events) small (omega (arith, room))) in
    rw (msg_text-arrive msg events) (
      rw (eol_skipped (arrive (91 ∷ msg_digits msg) (got 93 ∷ got 13 ∷ got 10 ∷ events)))
        (rw r (rw ((parse_line-digits einval len msg small fits).1) refl)))

-- A message of bytes that fits into the buffer of the response and, as text, into the line.
abbrev pub Fits : ℕ → List ℕ → Type 0
Fits len msg =
    (All (λ b. b < 256) msg)
    × (1 ≤ length msg)
    × (length msg ≤ len)
    × (length msg * 2 + 4 ≤ line_size)

-- Messages as text, one behind the other, the last one given apart.
abbrev pub all_text : List (List ℕ) → List ℕ → List ℕ
all_text [] answer = msg_text answer
all_text (msg ∷ msgs) answer = msg_text msg ++ all_text msgs answer

wait_response-text :
    (einval eol : Bool) (fuel : ℕ) (ctx : TermCtx) (len : ℕ) (msg : List ℕ)
    (events : List TermEvent)
    → Fits len msg
    → wait_response einval (suc fuel) ctx len (arrive (left_eol eol ++ msg_text msg) events) ≡ (
        if is_answer ctx msg
        then waited (drop 3 msg) (got 10 ∷ events)
        else wait_response einval fuel ctx len (got 10 ∷ events))
unfolding wait_response
wait_response-text einval eol fuel ctx len msg events fits =
    let r = recv_response-text einval eol len msg events fits.0 fits.2 fits.3 in
    let some_bytes : (length msg == 0) ≡ false = ground (arith, fits.1) in
    rw (r, wait_response)
      (rw (some_bytes, wait_response)
        (elim (Bool-cases (is_answer ctx msg)) [
          | inl found ↦ rw (found, wait_response) (rw r refl)
          | inr other ↦ rw (other, wait_response) (rw r refl)
        ]))

-- Responses that stand one behind the other in the port, whether or not the line feed of an
-- earlier one is still to be read, each of bytes and fitting: those before the awaited one are
-- passed over, and what is returned is the awaited one from its completion code on, with its
-- line feed and what follows still to be read.
pub wait_response-answer :
    (einval eol : Bool) (fuel : ℕ) (ctx : TermCtx) (len : ℕ) (others : List (List ℕ))
    (answer : List ℕ) (events : List TermEvent)
    → All (λ msg. Fits len msg × (is_answer ctx msg ≡ false)) others
    → Fits len answer
    → is_answer ctx answer ≡ true
    → length others < fuel
    → wait_response einval fuel ctx len (arrive (left_eol eol ++ all_text others answer) events)
      ≡ waited (drop 3 answer) (got 10 ∷ events)
wait_response-answer einval eol zero ctx len others answer events foreign fits found enough =
    absurd (omega (arith, enough))
wait_response-answer einval eol (suc fuel) ctx len [] answer events foreign fits found enough =
    wait_response-text einval eol fuel ctx len answer events fits ∙ rw found refl
wait_response-answer einval eol (suc fuel) ctx len (msg ∷ others) answer events foreign fits found
      enough =
    let rest = arrive (all_text others answer) events in
    let split =
      ap (λ (text : List ℕ). arrive text events)
        (sym (append_assoc (left_eol eol) (msg_text msg) (all_text others answer)))
      ∙ arrive-append (left_eol eol ++ msg_text msg) (all_text others answer) events in
    ap (wait_response einval (suc fuel) ctx len) split
    ∙ wait_response-text einval eol fuel ctx len msg rest foreign.0.0
    ∙ rw (foreign.0.1) (
        wait_response-answer einval true fuel ctx len others answer events foreign.1 fits found
          (omega (arith, enough)))
