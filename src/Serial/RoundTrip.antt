-- ===== src/Serial/RoundTrip.antt =====
-- What `serial_bm_send_msg` puts on the line, `serial_bm_parse_buffer` takes off it.
use ipmitool.Common.{
  ℕ, ◌+◌, ◌<◌, ◌≤◌, ◌≡◌, ◌≢◌, refl, List, [], ◌∷◌, ◌++◌, true, false, some, ◌==◌, arith, length,
  length-append, append_assoc, append-nil, ap, ap₂, ◌∙◌, All, Bool-cases, inl, inr,
}
use ipmitool.Serial.Frame.{
  bm_start, bm_stop, bm_escape, get_escaped_char, get_unescaped_char, stuff_byte, stuff, frame,
}
use ipmitool.Serial.Parse.{
  msg_in_progress, msg_done, ParseCtx, go_on, stop, parse_escaped, parse_plain, parse_byte,
  parse_from, parse_buffer, parse_buffer_lem,
}

-- The context inside a message of which `msg` has been received.
abbrev receiving : List ℕ → ℕ → ParseCtx
receiving msg max = record { state = msg_in_progress; msg = msg; max_len = max; escape = false }

parse_byte-plain :
    (b max : ℕ) (msg : List ℕ)
    → length msg < max
    → (get_escaped_char b == b) ≡ true
    → parse_byte b (receiving msg max) ≡ go_on (receiving (msg ++ b ∷ []) max)
unfolding parse_byte parse_plain get_escaped_char
parse_byte-plain b max msg room h = ground arith

parse_byte-escape :
    (max : ℕ) (msg : List ℕ)
    → parse_byte bm_escape (receiving msg max)
      ≡ go_on (record (receiving msg max) { escape = true })
unfolding parse_byte
parse_byte-escape max msg = refl

parse_byte-escaped :
    (b max : ℕ) (msg : List ℕ)
    → length msg < max
    → (get_escaped_char b == b) ≡ false
    → parse_byte (get_escaped_char b) (record (receiving msg max) { escape = true })
      ≡ go_on (receiving (msg ++ b ∷ []) max)
unfolding parse_byte parse_escaped get_escaped_char get_unescaped_char
parse_byte-escaped b max msg room h = ground arith

parse-stuff_byte :
    (b max i : ℕ) (msg rest : List ℕ)
    → length msg < max
    → parse_from (stuff_byte b ++ rest) i (receiving msg max)
      ≡ parse_from rest (i + length (stuff_byte b)) (receiving (msg ++ b ∷ []) max)
unfolding stuff_byte parse_from
parse-stuff_byte b max i msg rest room = elim (Bool-cases (get_escaped_char b == b)) [
  | inl plain ↦ rw plain (rw (parse_byte-plain b max msg room plain, parse_from) refl)
  | inr special ↦ rw special (
      rw (parse_byte-escape max msg, parse_from)
        (rw (parse_byte-escaped b max msg room special, parse_from)
          (ap (λ (n : ℕ). parse_from rest n (receiving (msg ++ b ∷ []) max)) (omega arith))))
]

parse-stuff :
    (todo msg : List ℕ) (max i : ℕ) (rest : List ℕ)
    → length msg + length todo ≤ max
    → parse_from (stuff todo ++ rest) i (receiving msg max)
      ≡ parse_from rest (i + length (stuff todo)) (receiving (msg ++ todo) max)
unfolding stuff
parse-stuff [] msg max i rest room =
    rw append-nil (ap (λ (n : ℕ). parse_from rest n (receiving msg max)) (omega arith))
parse-stuff (b ∷ todo) msg max i rest room = rw append_assoc (
    parse-stuff_byte b max i msg (stuff todo ++ rest) (omega arith)
    ∙ parse-stuff todo (msg ++ b ∷ []) max (i + length (stuff_byte b)) rest
        (omega (arith, length-append msg (b ∷ [])))
    ∙ ap₂ (λ (n : ℕ) (m : List ℕ). parse_from rest n (receiving m max))
        (omega (arith, length-append (stuff_byte b) (stuff todo))) (append_assoc msg (b ∷ []) todo))

parse_byte-start : (c : ParseCtx) → parse_byte bm_start c ≡ go_on (receiving [] c.max_len)
unfolding parse_byte
parse_byte-start c = refl

parse_byte-stop_receiving :
    (msg : List ℕ) (max : ℕ)
    → parse_byte bm_stop (receiving msg max)
      ≡ stop (record (receiving msg max) { state = msg_done })
unfolding parse_byte
parse_byte-stop_receiving msg max = refl

-- Whatever the parser was doing before, a framed message that fits the caller's buffer is parsed
-- to exactly itself, is marked as complete, and uses up exactly its own frame: the bytes behind
-- it are left for the next call.
pub parse-frame :
    (msg rest : List ℕ) (c : ParseCtx)
    → length msg ≤ c.max_len
    → parse_buffer (frame msg ++ rest) c ≡ record {
      count = some (length (frame msg));
      ctx = record { state = msg_done; msg = msg; max_len = c.max_len; escape = false };
    }
unfolding frame parse_from
parse-frame msg rest c fits =
    parse_buffer_lem (frame msg ++ rest) c
    ∙ rw (parse_byte-start c, parse_from)
        (rw append_assoc (
          parse-stuff msg [] c.max_len 1 (bm_stop ∷ rest) (omega arith)
          ∙ rw (parse_byte-stop_receiving msg c.max_len, parse_from)
              (ground (arith, length-append (stuff msg) (bm_stop ∷ [])))))

parse_byte-noise :
    (b : ℕ) (c : ParseCtx) → b ≢ bm_start → c.state ≢ msg_in_progress → parse_byte b c ≡ go_on c
unfolding parse_byte
parse_byte-noise b c nb ns = ground arith

-- Outside a message, bytes other than the start character are dropped: they change nothing in the
-- context and are counted.
pub parse_from-noise :
    (noise rest : List ℕ) (i : ℕ) (c : ParseCtx)
    → All (λ b. b ≢ bm_start) noise
    → c.state ≢ msg_in_progress
    → parse_from (noise ++ rest) i c ≡ parse_from rest (i + length noise) c
unfolding parse_from
parse_from-noise [] rest i c h ns = ap (λ (n : ℕ). parse_from rest n c) (omega arith)
parse_from-noise (b ∷ noise) rest i c h ns =
    rw (parse_byte-noise b c h.0 ns, parse_from)
      (parse_from-noise noise rest (i + 1) c h.1 ns
        ∙ ap (λ (n : ℕ). parse_from rest n c) (omega arith))
