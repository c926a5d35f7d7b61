-- ===== src/Serial/Terminal/TextLaws.antt =====
-- serial_terminal.c: a line of brackets and digits, found and read.
use ipmitool.Common.{
  ◌⊎◌, ℕ, suc, zero, ◌+◌, ◌-◌, ◌*◌, ◌/◌, ◌%◌, ◌≤◌, ◌<◌, ◌≡◌, refl, List, [], ◌∷◌, ◌++◌, none, some,
  true, false, ◌==◌, leb, ltb, length, length-append, arith, ◌∙◌, inl, inr, Bool-cases, All,
  same_on_bytes_sound, holds_below_sound, Bool, get_or-behind, ap,
}
use ipmitool.Common.Bytes.{holds_below}
use ipmitool.Hex.{nibble, is_xdigit, digit}
use ipmitool.Serial.Terminal.{
  TermEvent, got, is_eol, read_line, longer, msg_digits, ends_message, c_string, after_last_open,
  before_close, parse_bytes, same_text, err_text, parse_response, parse_line, term_received,
}

-- The bytes of a text, delivered before the other events.
abbrev pub arrive : List ℕ → List TermEvent → List TermEvent
arrive [] events = events
arrive (c ∷ text) events = got c ∷ arrive text events

-- A character that `%02x` writes.
abbrev pub Digit : ℕ → Type 0
Digit c = (48 ≤ c) × (c ≤ 102) × ((c ≤ 57) ⊎ (97 ≤ c))

nibble-Digit : (n : ℕ) → n < 16 → Digit (nibble n)
nibble-Digit n h = (
  ground (arith, h),
  ground (arith, h),
  elim (Bool-cases (ltb n 10)) [
    | inl low ↦ inl (ground (arith, low))
    | inr high ↦ inr (ground (arith, high))
  ],
)

pub msg_digits-Digit : (msg : List ℕ) → All (λ b. b < 256) msg → All Digit (msg_digits msg)
unfolding msg_digits
msg_digits-Digit [] small = tt
msg_digits-Digit (b ∷ msg) small = (
  nibble-Digit (b / 16) (omega (arith, small.0)),
  (nibble-Digit (b % 16) (omega arith), msg_digits-Digit msg small.1),
)

pub length-msg_digits : (msg : List ℕ) → length (msg_digits msg) ≡ length msg * 2
unfolding msg_digits
length-msg_digits [] = refl
length-msg_digits (b ∷ msg) = omega (arith, length-msg_digits msg)

pub arrive-append :
    (s t : List ℕ) (events : List TermEvent) → arrive (s ++ t) events ≡ arrive s (arrive t events)
arrive-append [] t events = refl
arrive-append (c ∷ s) t events = ap (λ (l : List TermEvent). got c ∷ l) (arrive-append s t events)

eol-Digit : (c : ℕ) → Digit c → is_eol c ≡ false
eol-Digit c h = ground (arith, h)

-- A line of digits that is closed and ended is read as it stands.
pub read_line-digits :
    (digits : List ℕ) (len : ℕ) (events : List TermEvent)
    → All Digit digits
    → length digits + 2 ≤ len
    → read_line (arrive digits (got 93 ∷ got 13 ∷ events)) len
      ≡ record { text = some (digits ++ 93 ∷ 13 ∷ []); events = events }
unfolding read_line
read_line-digits digits zero events ok room = absurd (omega (arith, room))
read_line-digits [] (suc zero) events ok room = absurd (omega (arith, room))
read_line-digits [] (suc (suc len)) events ok room = refl
read_line-digits (c ∷ digits) (suc len) events ok room =
    rw (eol-Digit c ok.0) (rw (read_line-digits digits len events ok.1 (omega (arith, room))) refl)

pub ends_message-closed : (t : List ℕ) → ends_message (t ++ 93 ∷ 13 ∷ []) ≡ true
unfolding ends_message
ends_message-closed t =
    let total = length-append t (93 ∷ 13 ∷ []) in
    let two : length (t ++ 93 ∷ 13 ∷ []) - 2 ≡ length t + 0 = omega (arith, total) in
    let one : length (t ++ 93 ∷ 13 ∷ []) - 1 ≡ length t + 1 = omega (arith, total) in
    let long : leb 2 (length (t ++ 93 ∷ 13 ∷ [])) ≡ true = ground (arith, total) in
    rw long (
      rw (two, one)
        (rw
          (
            get_or-behind (length t) 0 0 t (93 ∷ 13 ∷ []) refl,
            get_or-behind (length t) 1 0 t (93 ∷ 13 ∷ []) refl,
          )
          refl))

c_string-digits :
    (digits : List ℕ) → All Digit digits → c_string (digits ++ 93 ∷ []) ≡ digits ++ 93 ∷ []
unfolding c_string
c_string-digits [] ok = refl
c_string-digits (c ∷ digits) ok =
    let e : (c == 0) ≡ false = ground (arith, ok.0) in rw e (rw (c_string-digits digits ok.1) refl)

after_last_open-digits :
    (digits : List ℕ) → All Digit digits → after_last_open (digits ++ 93 ∷ []) ≡ none
unfolding after_last_open
after_last_open-digits [] ok = refl
after_last_open-digits (c ∷ digits) ok =
    let e : (c == 91) ≡ false = ground (arith, ok.0) in
    rw (after_last_open-digits digits ok.1) (rw e refl)

before_close-digits :
    (digits : List ℕ) → All Digit digits → before_close (digits ++ 93 ∷ []) ≡ some digits
unfolding before_close
before_close-digits [] ok = refl
before_close-digits (c ∷ digits) ok =
    let e : (c == 93) ≡ false = ground (arith, ok.0) in
    rw e (rw (before_close-digits digits ok.1) refl)

-- The two digits of a byte and its value.
byte_read :
    (b : ℕ)
    → b < 256
    → (is_xdigit (nibble (b / 16)) ≡ true)
      × (is_xdigit (nibble (b % 16)) ≡ true)
      × (digit (nibble (b / 16)) * 16 + digit (nibble (b % 16)) ≡ b)
unfolding holds_below
byte_read b h = (
  holds_below_sound 256 (λ b. is_xdigit (nibble (b / 16))) b refl h,
  holds_below_sound 256 (λ b. is_xdigit (nibble (b % 16))) b refl h,
  same_on_bytes_sound (λ b. digit (nibble (b / 16)) * 16 + digit (nibble (b % 16))) (λ b. b) b refl
      h,
)

parse_bytes-byte :
    (c d : ℕ) (text : List ℕ) (room : ℕ)
    → (room == 0) ≡ false
    → is_xdigit c ≡ true
    → is_xdigit d ≡ true
    → parse_bytes (c ∷ d ∷ text) none room
      ≡ longer (digit c * 16 + digit d) (parse_bytes text none (room - 1))
unfolding parse_bytes
parse_bytes-byte c d text room e first second =
    rw (e, parse_bytes)
      (rw (first, parse_bytes) (rw (e, parse_bytes) (rw (second, parse_bytes) refl)))

parse_bytes-digits :
    (msg : List ℕ) (room : ℕ)
    → All (λ b. b < 256) msg
    → length msg ≤ room
    → parse_bytes (msg_digits msg) none room ≡ some msg
unfolding msg_digits
parse_bytes-digits [] room small fits = unfold parse_bytes in refl
parse_bytes-digits (b ∷ msg) room small fits =
    let (first, second, value) = byte_read b small.0 in
    let rest = parse_bytes-digits msg (room - 1) small.1 (omega (arith, fits)) in
    parse_bytes-byte (nibble (b / 16)) (nibble (b % 16)) (msg_digits msg) room
      (ground (arith, fits)) first second
    ∙ rw rest (rw value refl)

-- The digits of a message are not the text of an error: its second character is no digit.
same_text-digits :
    (msg : List ℕ) → All (λ b. b < 256) msg → same_text (msg_digits msg) err_text ≡ false
unfolding same_text msg_digits
same_text-digits [] small = refl
same_text-digits (b ∷ msg) small =
    let h = nibble-Digit (b / 16) (omega (arith, small.0)) in
    let e : (nibble (b / 16) == 69) ≡ false = ground (arith, h) in rw e refl

parse_line_lem :
    (einval : Bool) (len : ℕ) (line opened text : List ℕ)
    → after_last_open (c_string line) ≡ some opened
    → before_close opened ≡ some text
    → parse_line einval len line ≡ parse_response einval len text
unfolding parse_line
parse_line_lem einval len line opened text o b = rw (o, parse_line) (rw (b, parse_line) refl)

-- The last bracket of a line of digits, behind an end of line that was left or not.
opened_digits :
    (digits : List ℕ)
    → All Digit digits
    → (after_last_open (c_string (91 ∷ (digits ++ 93 ∷ []))) ≡ some (digits ++ 93 ∷ []))
      × (after_last_open (c_string (10 ∷ 91 ∷ (digits ++ 93 ∷ []))) ≡ some (digits ++ 93 ∷ []))
unfolding c_string after_last_open
opened_digits digits ok =
    let c = c_string-digits digits ok in
    let o = after_last_open-digits digits ok in
    (
      rw (c_string, c) (rw (after_last_open, o) refl),
      rw (c_string, c) (rw (after_last_open, o) refl),
    )

parse_response-digits :
    (einval : Bool) (len : ℕ) (msg : List ℕ)
    → All (λ b. b < 256) msg
    → length msg ≤ len
    → parse_response einval len (msg_digits msg) ≡ term_received msg
unfolding parse_response
parse_response-digits einval len msg small fits =
    rw (same_text-digits msg small) (rw (parse_bytes-digits msg len small fits) refl)

-- The line of a message, behind an end of line that was left or not, is read as its bytes.
pub parse_line-digits :
    (einval : Bool) (len : ℕ) (msg : List ℕ)
    → All (λ b. b < 256) msg
    → length msg ≤ len
    → (parse_line einval len (91 ∷ (msg_digits msg ++ 93 ∷ [])) ≡ term_received msg)
      × (parse_line einval len (10 ∷ 91 ∷ (msg_digits msg ++ 93 ∷ [])) ≡ term_received msg)
parse_line-digits einval len msg small fits =
    let digits = msg_digits msg in
    let ok = msg_digits-Digit msg small in
    let o = opened_digits digits ok in
    let b = before_close-digits digits ok in
    let p = parse_response-digits einval len msg small fits in
    (
      parse_line_lem einval len (91 ∷ (digits ++ 93 ∷ [])) (digits ++ 93 ∷ []) digits o.0 b ∙ p,
      parse_line_lem einval len (10 ∷ 91 ∷ (digits ++ 93 ∷ [])) (digits ++ 93 ∷ []) digits o.1 b
          ∙ p,
    )
