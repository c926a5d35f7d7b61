-- ===== src/Serial/Terminal/TotalLaws.antt =====
-- serial_terminal.c: the loops that receive end on a finite sequence of events.
use mathlib.Core.Path.{subst}
use ipmitool.Common.{
  ◌⊎◌, inl, inr, ℕ, zero, suc, ◌+◌, ◌-◌, ◌≤◌, ◌<◌, ◌≡◌, refl, List, [], ◌∷◌, ◌++◌, Option, none,
  some, true, false, ◌==◌, if◌then◌else◌, length, length-append, arith, Bool, drop, Bool-cases,
  Option-cases,
}
use ipmitool.Serial.Terminal.{
  before_close, parse_bytes, err_text, c_string, same_text, after_last_open, TermEvent, silent,
  failed, got, is_eol, read_line, longer, ends_message, read_message, line_size, Reading, line_read,
  line_failed, line_overrun, unread, reading_result, recv_response, term_received, term_failed,
  term_overrun, term_unread, TermResult, TermCtx, is_answer, waited, wait_overrun, wait_response,
  parse_line, parse_response, term_result,
}

-- A line has characters, no more than may be read, and leaves fewer events.
abbrev Taken : ℕ → ℕ → Option (List ℕ) → ℕ → Type 0
Taken len n none m = m ≤ n
Taken len n (some text) m = (1 ≤ length text) × (length text ≤ len) × (m < n)

longer-Taken :
    (c len n m : ℕ) (text : Option (List ℕ))
    → Taken len n text m
    → Taken (suc len) (suc n) (longer c text) m
longer-Taken c len n m none h = omega (arith, h)
longer-Taken c len n m (some text) h = (omega arith, omega (arith, h.1), omega (arith, h.2))

read_line-Taken :
    (events : List TermEvent) (len : ℕ)
    → Taken len (length events) (read_line events len).text (length (read_line events len).events)
unfolding read_line
read_line-Taken [] zero = omega arith
read_line-Taken (e ∷ events) zero = omega arith
read_line-Taken [] (suc len) = omega arith
read_line-Taken (silent ∷ events) (suc len) = omega arith
read_line-Taken (failed ∷ events) (suc len) = omega arith
read_line-Taken (got c ∷ events) (suc len) = elim (Bool-cases (is_eol c)) [
  | inl end ↦ rw end (omega arith, omega arith, omega arith)
  | inr more ↦ rw more (
      longer-Taken c len (length events) (length (read_line events len).events)
        (read_line events len).text (read_line-Taken events len))
]

-- A reading that has ended, and left fewer events if it is a line.
abbrev Ended : Reading → ℕ → ℕ → Type 0
Ended (line_read text) n m = m < n
Ended line_failed n m = Unit
Ended line_overrun n m = Unit
Ended unread n m = 1 ≤ 0

Ended-le : (r : Reading) (k n m : ℕ) → Ended r k m → k ≤ n → Ended r n m
Ended-le (line_read text) k n m h le = omega (arith, h, le)
Ended-le line_failed k n m h le = tt
Ended-le line_overrun k n m h le = tt
Ended-le unread k n m h le = h

read_message-Ended :
    (fuel : ℕ) (text : List ℕ) (events : List TermEvent)
    → length text ≤ line_size
    → line_size < fuel + length text
    → Ended
        (read_message fuel text events).reading
        (length events)
        (length (read_message fuel text events).events)
unfolding read_message
read_message-Ended zero text events room enough = absurd (omega (arith, room, enough))
read_message-Ended (suc fuel) text events room enough =
    let line = read_line events (line_size - length text) in
    let taken = read_line-Taken events (line_size - length text) in
    elim (Bool-cases (length text == line_size)) [
      | inl full ↦ rw (full, read_message) tt
      | inr space ↦ elim (Option-cases (line.text)) [
        | inl none_read ↦ rw (space, read_message) (rw (none_read, read_message) tt)
        | inr (more, some_read) ↦
            let t =
              subst (λ o. Taken (line_size - length text) (length events) o (length line.events))
                some_read taken in
            let sum = length-append text more in
            elim (Bool-cases (ends_message (text ++ more))) [
              | inl end ↦
                  rw (space, read_message)
                    (rw (some_read, read_message) (rw (end, read_message) (t.2)))
              | inr on ↦
                  rw (space, read_message)
                    (rw (some_read, read_message)
                      (rw (on, read_message)
                        (Ended-le (read_message fuel (text ++ more) line.events).reading
                          (length line.events) (length events)
                          (length (read_message fuel (text ++ more) line.events).events)
                          (read_message-Ended fuel (text ++ more) line.events
                            (omega (arith, sum, t.1, room)) (omega (arith, sum, t.0, enough)))
                          (omega (arith, t.2)))))
            ]
      ]
    ]

-- What a response was, with fewer events left if it has bytes.
abbrev Settled : TermResult → ℕ → ℕ → Type 0
Settled (term_received msg) n m = m < n
Settled term_failed n m = Unit
Settled term_overrun n m = Unit
Settled term_unread n m = 1 ≤ 0

term_result-Settled : (o : Option (List ℕ)) (n m : ℕ) → m < n → Settled (term_result o) n m
term_result-Settled none n m h = tt
term_result-Settled (some bytes) n m h = h

parse_response-Settled :
    (einval : Bool) (len n m : ℕ) (text : List ℕ)
    → m < n
    → Settled (parse_response einval len text) n m
unfolding parse_response
parse_response-Settled einval len n m text h = elim (Bool-cases (same_text text err_text)) [
  | inl err ↦
      rw err (elim einval as (λ e. Settled (if e then term_failed else term_received []) n m) [
        | true ↦ tt
        | false ↦ h
      ])
  | inr bytes ↦ rw bytes (term_result-Settled (parse_bytes text none len) n m h)
]

parse_line-Settled :
    (einval : Bool) (len n m : ℕ) (line : List ℕ) → m < n → Settled (parse_line einval len line) n m
unfolding parse_line
parse_line-Settled einval len n m line h = elim (Option-cases (after_last_open (c_string line))) [
  | inl nowhere ↦ rw (nowhere, parse_line) tt
  | inr (opened, at) ↦ elim (Option-cases (before_close opened)) [
    | inl open_end ↦ rw (at, parse_line) (rw (open_end, parse_line) tt)
    | inr (text, closed) ↦
        rw (at, parse_line) (rw (closed, parse_line) (parse_response-Settled einval len n m text h))
  ]
]

reading_result-Settled :
    (einval : Bool) (len n m : ℕ) (r : Reading)
    → Ended r n m
    → Settled (reading_result einval len r) n m
reading_result-Settled einval len n m (line_read line) h = parse_line-Settled einval len n m line h
reading_result-Settled einval len n m line_failed h = tt
reading_result-Settled einval len n m line_overrun h = tt
reading_result-Settled einval len n m unread h = h

recv_response-Settled :
    (einval : Bool) (len : ℕ) (events : List TermEvent)
    → Settled
        (recv_response einval len events).result
        (length events)
        (length (recv_response einval len events).events)
unfolding recv_response
recv_response-Settled einval len events =
    let r = read_message (line_size + 1) [] events in
    reading_result-Settled einval len (length events) (length r.events) r.reading
      (read_message-Ended (line_size + 1) [] events (omega arith) (omega arith))

result_cases :
    (r : TermResult)
    → (((msg : List ℕ) × (r ≡ term_received msg)) ⊎ (r ≡ term_failed))
      ⊎ ((r ≡ term_overrun) ⊎ (r ≡ term_unread))
result_cases (term_received msg) = inl (inl (msg, refl))
result_cases term_failed = inl (inr refl)
result_cases term_overrun = inr (inl refl)
result_cases term_unread = inr (inr refl)

-- On any finite sequence of events, behind which the port is silent, the wait for a response ends
-- with a return value, unless a NUL is written behind the line: with more turns than there are
-- events it never runs out of them.
pub wait_response-returns :
    (einval : Bool) (fuel : ℕ) (ctx : TermCtx) (len : ℕ) (events : List TermEvent)
    → length events < fuel
    → ((msg : List ℕ) × (rest : List TermEvent) × (wait_response einval fuel ctx len events
          ≡ waited msg rest))
      ⊎ (wait_response einval fuel ctx len events ≡ wait_overrun)
unfolding wait_response
wait_response-returns einval zero ctx len events enough = absurd (omega (arith, enough))
wait_response-returns einval (suc fuel) ctx len events enough =
    let r = recv_response einval len events in
    elim (result_cases r.result) [
      | inl (inl (msg, e)) ↦
          let fewer : length r.events < length events =
            subst (λ o. Settled o (length events) (length r.events)) e
              (recv_response-Settled einval len events) in
          let rest =
            wait_response-returns einval fuel ctx len r.events (omega (arith, fewer, enough)) in
          elim (Bool-cases (length msg == 0)) [
            | inl nothing ↦
                inl ([], r.events, rw (e, wait_response) (rw (nothing, wait_response) refl))
            | inr bytes ↦ elim (Bool-cases (is_answer ctx msg)) [
              | inl found ↦ inl (
                drop 3 msg,
                r.events,
                rw (e, wait_response) (rw (bytes, wait_response) (rw (found, wait_response) refl)),
              )
              | inr other ↦
                  rw (e, wait_response) (rw (bytes, wait_response) (rw (other, wait_response) rest))
            ]
          ]
      | inl (inr e) ↦ inl ([], r.events, rw (e, wait_response) refl)
      | inr (inl e) ↦ inr (rw (e, wait_response) refl)
      | inr (inr e) ↦
          let never : 1 ≤ 0 =
            subst (λ o. Settled o (length events) (length r.events)) e
              (recv_response-Settled einval len events) in
          absurd (omega (arith, never))
    ]
