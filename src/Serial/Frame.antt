-- ===== src/Serial/Frame.antt =====
-- serial_basic.c: the table of special characters, and the framing half of `serial_bm_send_msg`.
use ipmitool.Common.{
  ℕ, ◌+◌, ◌≡◌, List, [], ◌∷◌, ◌++◌, Option, none, some, ◌==◌, if◌then◌else◌, arith, length,
  length-append,
}

abbrev pub bm_start : ℕ
bm_start = 0xA0

abbrev pub bm_stop : ℕ
bm_stop = 0xA5

abbrev pub bm_handshake : ℕ
bm_handshake = 0xA6

abbrev pub bm_escape : ℕ
bm_escape = 0xAA

-- A row of the table `characters`.
pub record Special : Type 0 where
  pub character : ℕ
  pub escape : ℕ

abbrev pub characters : List Special
characters =
    record { character = bm_start; escape = 0xB0 }
    ∷ record { character = bm_stop; escape = 0xB5 }
    ∷ record { character = bm_handshake; escape = 0xB6 }
    ∷ record { character = bm_escape; escape = 0xBA }
    ∷ record { character = 0x1B; escape = 0x3B }
    ∷ []

find_escaped : List Special → ℕ → ℕ
find_escaped [] c = c
find_escaped (r ∷ rs) c = if r.character == c then r.escape else find_escaped rs c

find_unescaped : List Special → ℕ → ℕ
find_unescaped [] c = c
find_unescaped (r ∷ rs) c = if r.escape == c then r.character else find_unescaped rs c

unfoldable pub get_escaped_char : ℕ → ℕ
unfolding find_escaped
get_escaped_char c = find_escaped characters c

unfoldable pub get_unescaped_char : ℕ → ℕ
unfolding find_unescaped
get_unescaped_char c = find_unescaped characters c

-- One turn of the copying loop.
unfoldable pub stuff_byte : ℕ → List ℕ
stuff_byte c = let tmp = get_escaped_char c in if tmp == c then c ∷ [] else bm_escape ∷ tmp ∷ []

unfoldable pub stuff : List ℕ → List ℕ
stuff [] = []
stuff (c ∷ msg) = stuff_byte c ++ stuff msg

-- The bytes handed to `write`.
unfoldable pub frame : List ℕ → List ℕ
frame msg = bm_start ∷ (stuff msg ++ bm_stop ∷ [])

-- The first loop: the number of characters that need an escape.
unfoldable pub count_escaped : List ℕ → ℕ
count_escaped [] = 0
count_escaped (c ∷ msg) = (if get_escaped_char c == c then 0 else 1) + count_escaped msg

-- The size of the buffer on the stack.
unfoldable pub frame_size : List ℕ → ℕ
unfolding count_escaped
frame_size msg = length msg + count_escaped msg + 2

-- What the function gives back: `write` returned the number in `some`, or -1 (`none`).
pub data SendResult : Type 0 where
  sent : List ℕ → SendResult
  write_error : SendResult

unfoldable pub send_msg : (List ℕ → Option ℕ) → List ℕ → SendResult
unfolding frame stuff stuff_byte get_escaped_char
send_msg write msg = elim (write (frame msg)) [
  | none ↦ write_error
  | some n ↦ if n == 0 then write_error else sent (frame msg)
]

length-stuff_byte : (c : ℕ) → length (stuff_byte c) ≡ 1 + (if get_escaped_char c == c then 0 else 1)
unfolding stuff_byte
length-stuff_byte c = ground arith

length-stuff : (msg : List ℕ) → length (stuff msg) ≡ length msg + count_escaped msg
unfolding stuff count_escaped
length-stuff [] = omega arith
length-stuff (c ∷ msg) =
    omega (arith, length-append (stuff_byte c) (stuff msg), length-stuff_byte c, length-stuff msg)

-- The bytes that are written fill the allocated buffer exactly: none is written past its end.
pub length-frame : (msg : List ℕ) → length (frame msg) ≡ frame_size msg
unfolding frame frame_size
length-frame msg = omega (arith, length-append (stuff msg) (bm_stop ∷ []), length-stuff msg)
