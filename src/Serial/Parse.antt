-- ===== src/Serial/Parse.antt =====
-- serial_basic.c: `serial_bm_parse_buffer`, the state machine that takes IPMB messages out of the
-- byte stream. `msg` holds the first `msg_len` bytes of the caller's buffer.
use ipmitool.Common.{
  refl, ◌≡◌, ℕ, ◌+◌, ◌≤◌, List, [], ◌∷◌, ◌++◌, Bool, true, false, not, Option, none, some, ◌==◌,
  leb, if◌then◌else◌, length,
}
use ipmitool.Serial.Frame.{bm_start, bm_stop, bm_handshake, bm_escape, get_unescaped_char}

pub data ParseState : Type 0 where
  msg_none msg_in_progress msg_done : ParseState

pub record ParseCtx : Type 0 where
  pub state : ParseState
  pub msg : List ℕ
  pub max_len : ℕ
  pub escape : Bool

abbrev pub is_in_progress : ParseState → Bool
is_in_progress msg_in_progress = true
is_in_progress _ = false

-- What one turn of the loop does: goes on, returns `i + 1`, or returns -1.
pub data Turn : Type 0 where
  go_on stop too_long : ParseCtx → Turn

-- The branch that continues an escape sequence.
unfoldable pub parse_escaped : ℕ → ParseCtx → Turn
parse_escaped b ctx =
    let tmp = get_unescaped_char b in
    if tmp == b
    then go_on (record ctx { state = msg_none })
    else if leb ctx.max_len (length ctx.msg)
    then go_on (record ctx { state = msg_none })
    else go_on (record ctx { msg = ctx.msg ++ tmp ∷ []; escape = false })

-- The last branch: an ordinary character.
unfoldable pub parse_plain : ℕ → ParseCtx → Turn
parse_plain b ctx =
    if leb ctx.max_len (length ctx.msg)
    then too_long ctx
    else go_on (record ctx { msg = ctx.msg ++ b ∷ [] })

unfoldable pub parse_byte : ℕ → ParseCtx → Turn
parse_byte b ctx =
    if b == bm_start
    then go_on (record ctx { state = msg_in_progress; escape = false; msg = [] })
    else if not (is_in_progress ctx.state)
    then go_on ctx
    else if ctx.escape
    then parse_escaped b ctx
    else if b == bm_escape
    then go_on (record ctx { escape = true })
    else if b == bm_stop
    then stop (record ctx { state = msg_done })
    else if b == bm_handshake
    then go_on ctx
    else parse_plain b ctx

-- The value returned, `none` for -1, and the context as it is left.
pub record Parsed : Type 0 where
  pub count : Option ℕ
  pub ctx : ParseCtx

-- The loop, with `i` bytes already taken.
unfoldable pub parse_from : List ℕ → ℕ → ParseCtx → Parsed
parse_from [] i ctx = record { count = some i; ctx = ctx }
parse_from (b ∷ rest) i ctx = elim (parse_byte b ctx) [
  | go_on c ↦ parse_from rest (i + 1) c
  | stop c ↦ record { count = some (i + 1); ctx = c }
  | too_long c ↦ record { count = none; ctx = c }
]

unfoldable pub parse_buffer : List ℕ → ParseCtx → Parsed
unfolding parse_from parse_byte parse_escaped parse_plain get_unescaped_char
parse_buffer bytes ctx = parse_from bytes 0 ctx

-- What the array holds never passes the size the caller gave.
abbrev pub Fits : ParseCtx → Type 0
Fits c = length c.msg ≤ c.max_len

pub parse_buffer_lem : (bytes : List ℕ) (c : ParseCtx) → parse_buffer bytes c ≡ parse_from bytes 0 c
unfolding parse_buffer
parse_buffer_lem bytes c = refl
