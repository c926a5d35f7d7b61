-- ===== src/Serial/Terminal.antt =====
-- src/plugins/serial/serial_terminal.c, the terminal mode of the serial interface: a message is a
-- line of hexadecimal digits in brackets. Each event is what one `poll` and `read` of a byte
-- give; what a flush discards is not among them.
pub mod TextLaws
pub mod WaitLaws
pub mod TotalLaws
pub mod Message
pub mod Command
pub mod CommandLaws
pub mod SendLaws
pub mod Returns
pub mod EnclosedLaws
use ipmitool.Common.{
  ℕ, zero, suc, ◌+◌, ◌-◌, ◌*◌, List, [], ◌∷◌, ◌++◌, Bool, true, false, Option, none, some, ◌==◌,
  leb, ◌&&◌, ◌||◌, if◌then◌else◌, length, get_or, take, drop, bit_and, bit_or,
}
use ipmitool.Hex.{hex_byte, is_xdigit, digit}

abbrev pub max_response : ℕ
max_response = 256

-- `sizeof (hex_rs)`
abbrev pub line_size : ℕ
line_size = max_response * 3

pub data TermEvent : Type 0 where
  silent failed : TermEvent
  got : ℕ → TermEvent

abbrev pub is_eol : ℕ → Bool
is_eol c = c == 10 || c == 13

-- The line with its end, or `none` for -1, and the events that follow.
pub record Line : Type 0 where
  pub text : Option (List ℕ)
  pub events : List TermEvent

abbrev pub longer : ℕ → Option (List ℕ) → Option (List ℕ)
longer c none = none
longer c (some text) = some (c ∷ text)

-- `serial_read_line`, with `len` as the characters that may still be read.
unfoldable pub read_line : List TermEvent → ℕ → Line
read_line events zero = record { text = none; events = events }
read_line [] (suc len) = record { text = none; events = [] }
read_line (silent ∷ events) (suc len) = record { text = none; events = events }
read_line (failed ∷ events) (suc len) = record { text = none; events = events }
read_line (got c ∷ events) (suc len) =
    let rest = read_line events len in
    if is_eol c
    then record { text = some (c ∷ []); events = events }
    else record { text = longer c rest.text; events = rest.events }

-- `serial_term_send_msg`: the text for `write`.
unfoldable pub msg_digits : List ℕ → List ℕ
msg_digits [] = []
msg_digits (b ∷ msg) = hex_byte b ++ msg_digits msg

unfoldable pub msg_text : List ℕ → List ℕ
unfolding msg_digits
msg_text msg = 91 ∷ (msg_digits msg ++ 93 ∷ 13 ∷ 10 ∷ [])

-- What `recv_response` has read: the text before the NUL over its end of line, -1, or a NUL
-- written behind `hex_rs`. `unread` is a loop that has not ended within its fuel.
pub data Reading : Type 0 where
  line_read : List ℕ → Reading
  line_failed line_overrun unread : Reading

pub record TextRead : Type 0 where
  pub reading : Reading
  pub events : List TermEvent

unfoldable pub ends_message : List ℕ → Bool
ends_message text =
    leb 2 (length text)
    && (get_or text (length text - 2) 0 == 93 && is_eol (get_or text (length text - 1) 0))

-- The loop of `recv_response`, with the text so far. `serial_read_line` begins with a NUL where
-- it is to read to, also when no room is left.
unfoldable pub read_message : ℕ → List ℕ → List TermEvent → TextRead
read_message zero text events = record { reading = unread; events = events }
read_message (suc fuel) text events = elim (length text == line_size) [
  | true ↦ record { reading = line_overrun; events = events }
  | false ↦
      let line = read_line events (line_size - length text) in
      elim (line.text) [
        | none ↦ record { reading = line_failed; events = line.events }
        | some more ↦
            let now = text ++ more in
            elim (ends_message now) [
              | true ↦ record {
                reading = line_read (take (length now - 1) now);
                events = line.events;
              }
              | false ↦ read_message fuel now line.events
            ]
      ]
]

-- A C string ends with its first NUL.
unfoldable pub c_string : List ℕ → List ℕ
c_string [] = []
c_string (c ∷ text) = if c == 0 then [] else c ∷ c_string text

-- `strrchr (text, '[')` and one further.
unfoldable pub after_last_open : List ℕ → Option (List ℕ)
after_last_open [] = none
after_last_open (c ∷ text) = elim (after_last_open text) [
  | some found ↦ some found
  | none ↦ if c == 91 then some text else none
]

-- The text before `strchr (text, ']')`.
unfoldable pub before_close : List ℕ → Option (List ℕ)
before_close [] = none
before_close (c ∷ text) = if c == 93 then some [] else longer c (before_close text)

unfoldable pub is_space : ℕ → Bool
is_space c = c == 32 || (leb 9 c && leb c 13)

-- The bytes of the digits: `held` is the first digit of a byte, `room` is `len - i`. A digit that
-- is left over at the end is dropped. `none` is -1.
unfoldable pub parse_bytes : List ℕ → Option ℕ → ℕ → Option (List ℕ)
parse_bytes [] held room = some []
parse_bytes (c ∷ text) held room = elim (room == 0) [
  | true ↦ none
  | false ↦ elim (is_xdigit c) [
    | true ↦ elim held [
      | none ↦ parse_bytes text (some c) room
      | some h ↦ longer (digit h * 16 + digit c) (parse_bytes text none (room - 1))
    ]
    | false ↦ elim held [
      | some h ↦ none
      | none ↦ elim (is_space c) [ true ↦ parse_bytes text none room | false ↦ none ]
    ]
  ]
]

-- `strcmp (text, other) == 0`
unfoldable pub same_text : List ℕ → List ℕ → Bool
same_text [] [] = true
same_text [] (d ∷ other) = false
same_text (c ∷ text) [] = false
same_text (c ∷ text) (d ∷ other) = c == d && same_text text other

-- `ERR `
abbrev pub err_text : List ℕ
err_text = 69 ∷ 82 ∷ 82 ∷ 32 ∷ []

-- The return value, with the bytes; 0 is no bytes.
pub data TermResult : Type 0 where
  term_received : List ℕ → TermResult
  term_failed term_overrun term_unread : TermResult

abbrev pub term_result : Option (List ℕ) → TermResult
term_result none = term_failed
term_result (some bytes) = term_received bytes

-- What is done with the text between the brackets. The code reads a number behind `ERR ` after
-- having compared the whole text with it, so `strtoul` always sees the empty text, for which it
-- gives 0 and may set `errno`: `einval` is whether it does.
unfoldable pub parse_response : Bool → ℕ → List ℕ → TermResult
parse_response einval len text =
    if same_text text err_text
    then (if einval then term_failed else term_received [])
    else term_result (parse_bytes text none len)

unfoldable pub parse_line : Bool → ℕ → List ℕ → TermResult
parse_line einval len line = elim (after_last_open (c_string line)) [
  | none ↦ term_failed
  | some opened ↦ elim (before_close opened) [
    | none ↦ term_failed
    | some text ↦ parse_response einval len text
  ]
]

abbrev pub reading_result : Bool → ℕ → Reading → TermResult
reading_result einval len (line_read line) = parse_line einval len line
reading_result einval len line_failed = term_failed
reading_result einval len line_overrun = term_overrun
reading_result einval len unread = term_unread

pub record TermReceived : Type 0 where
  pub result : TermResult
  pub events : List TermEvent

-- Each turn of the loop stores a character at least.
unfoldable pub recv_response : Bool → ℕ → List TermEvent → TermReceived
recv_response einval len events =
    let r = read_message (line_size + 1) [] events in
    record { result = reading_result einval len r.reading; events = r.events }

-- `struct serial_term_request_ctx`
pub record TermCtx : Type 0 where
  pub net_fn : ℕ
  pub sa : ℕ
  pub seq : ℕ
  pub cmd : ℕ

-- The tests of `serial_term_wait_response` on a message.
unfoldable pub is_answer : TermCtx → List ℕ → Bool
is_answer ctx msg =
    leb 4 (length msg)
    && (get_or msg 0 0 == bit_or ctx.net_fn 4
        && (bit_and (get_or msg 1 0) 0xFC == ctx.seq && get_or msg 2 0 == ctx.cmd))

-- `waited` holds the return value with its bytes, from the completion code on; 0 is no bytes.
pub data Waited : Type 0 where
  waited : List ℕ → List TermEvent → Waited
  wait_overrun wait_unread : Waited

unfoldable pub wait_response : Bool → ℕ → TermCtx → ℕ → List TermEvent → Waited
wait_response einval zero ctx len events = wait_unread
wait_response einval (suc fuel) ctx len events =
    let r = recv_response einval len events in
    elim (r.result) [
      | term_failed ↦ waited [] r.events
      | term_overrun ↦ wait_overrun
      | term_unread ↦ wait_unread
      | term_received msg ↦ elim (length msg == 0) [
        | true ↦ waited [] r.events
        | false ↦ elim (is_answer ctx msg) [
          | true ↦ waited (drop 3 msg) r.events
          | false ↦ wait_response einval fuel ctx len r.events
        ]
      ]
    ]
