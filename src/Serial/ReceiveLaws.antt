-- ===== src/Serial/ReceiveLaws.antt =====
-- The receive buffer of `serial_bm_recv_msg`: messages that arrive in pieces.
use ipmitool.Common.{
  take_long, ℕ, ◌+◌, ◌≤◌, ◌≡◌, ◌≢◌, refl, List, [], ◌∷◌, ◌++◌, Option, none, some, true, false, ltb,
  ltb-false, arith, length, length-append, length-drop, take, drop, take-append, ap, ◌∙◌, sym, inl,
  inr, All, Bool-cases,
}
use mathlib.Core.Bool.{false≢true}
use ipmitool.Serial.Parse.{
  msg_none, msg_done, ParseCtx, Parsed, parse_from, parse_buffer, parse_buffer_lem,
}
use ipmitool.Serial.ParseLaws.{parse_from-append}
use ipmitool.Serial.ParseMore.{
  shift, parse_from-shift, parse_from-done, parse_from-none, parse_from-all,
}
use ipmitool.Serial.Frame.{bm_start, frame}
use ipmitool.Serial.RoundTrip.{parse-frame, parse_from-noise}
use ipmitool.Serial.Receive.{
  PortEvent, ready, RecvCtx, received, read_count, store_read, consume, ssize_max, is_done,
  recv_loop, recv_msg,
}

-- A buffer with nothing in it, of the array's size, which `read` can be asked to fill.
pub record IsEmpty (r : RecvCtx) : Type 0 where
  pub size_zero : r.buffer_size ≡ 0
  pub whole : length r.buffer ≡ r.max_buffer_size
  pub fits_word : r.max_buffer_size ≤ ssize_max

-- The buffer after a read of `bytes` into an empty one.
abbrev pub filled : RecvCtx → List ℕ → RecvCtx
filled r bytes = record r {
  buffer = bytes ++ drop (length bytes) r.buffer;
  buffer_size = length bytes;
}

read_count-IsEmpty : (r : RecvCtx) → IsEmpty r → read_count r ≡ r.max_buffer_size
unfolding read_count
read_count-IsEmpty r e = omega arith

module _ (r : RecvCtx) (bytes : List ℕ) (e : IsEmpty r)
    (fits : length bytes ≤ r.max_buffer_size) where
  store_read-IsEmpty : store_read r (take (read_count r) bytes) ≡ some (filled r bytes)
  unfolding store_read
  store_read-IsEmpty =
      rw (read_count-IsEmpty r e, take_long r.max_buffer_size bytes fits, e.size_zero)
        (let z : 0 + length bytes ≡ length bytes = omega arith in
          rw (z, ltb-false (length r.buffer) (length bytes) (omega (arith, e.whole))) refl)

  asked : ltb ssize_max (read_count r) ≡ false
  asked = rw (read_count-IsEmpty r e) (ltb-false ssize_max r.max_buffer_size e.fits_word)

  consume_all : IsEmpty (consume (some (length bytes)) (filled r bytes))
  unfolding consume
  consume_all = record {
    size_zero = omega arith;
    whole = rw (ltb-false (length bytes) (length bytes) (omega arith)) (
        omega (
          arith,
          length-append bytes (drop (length bytes) r.buffer),
          length-drop (length bytes) r.buffer,
          e.whole,
        ));
    fits_word = e.fits_word;
  }

  parse-filled :
      (c : ParseCtx)
      → parse_buffer (take (length bytes) (filled r bytes).buffer) c ≡ parse_from bytes 0 c
  parse-filled c = rw (take-append bytes (drop (length bytes) r.buffer)) (parse_buffer_lem bytes c)

  -- One turn of the loop on a buffer that is empty.
  recv_loop-done :
      (events : List PortEvent) (c : ParseCtx)
      → is_done (parse_from bytes 0 c).ctx.state ≡ true
      → (recv_loop (ready bytes ∷ events) c r).result ≡ received (parse_from bytes 0 c).ctx.msg
  unfolding recv_loop
  recv_loop-done events c done =
      rw (asked, recv_loop)
        (rw (store_read-IsEmpty, recv_loop)
          (rw (parse-filled c, recv_loop)
            (rw (done, recv_loop) (ap (λ (p : Parsed). received p.ctx.msg) (parse-filled c)))))

  pub recv_loop-turn :
      (events : List PortEvent) (c : ParseCtx)
      → is_done (parse_from bytes 0 c).ctx.state ≡ false
      → recv_loop (ready bytes ∷ events) c r
        ≡ recv_loop events
            (parse_from bytes 0 c).ctx
            (consume (parse_from bytes 0 c).count (filled r bytes))
  unfolding recv_loop
  recv_loop-turn events c more =
      rw (asked, recv_loop)
        (rw (store_read-IsEmpty, recv_loop)
          (rw (parse-filled c, recv_loop)
            (rw (more, recv_loop)
              (ap (λ (p : Parsed). recv_loop events p.ctx (consume p.count (filled r bytes)))
                (parse-filled c)))))

  recv_loop-more :
      (events : List PortEvent) (c : ParseCtx)
      → is_done (parse_from bytes 0 c).ctx.state ≡ false
      → (parse_from bytes 0 c).count ≡ some (length bytes)
      → recv_loop (ready bytes ∷ events) c r
        ≡ recv_loop events
            (parse_from bytes 0 c).ctx
            (consume (some (length bytes)) (filled r bytes))
  recv_loop-more events c more count =
      recv_loop-turn events c more
      ∙ ap
          (λ (n : Option ℕ).
            recv_loop events (parse_from bytes 0 c).ctx (consume n (filled r bytes)))
          count

abbrev pub flat : List (List ℕ) → List ℕ
flat [] = []
flat (x ∷ xs) = x ++ flat xs

abbrev pub ready_all : List (List ℕ) → List PortEvent
ready_all [] = []
ready_all (x ∷ xs) = ready x ∷ ready_all xs

-- A piece that completes nothing, and what the parser then makes of the rest.
parse_from-piece :
    (x ys : List ℕ) (c : ParseCtx)
    → (parse_from x 0 c).count ≢ none
    → is_done (parse_from x 0 c).ctx.state ≡ false
    → parse_from (x ++ ys) 0 c ≡ shift (length x) (parse_from ys 0 (parse_from x 0 c).ctx)
parse_from-piece x ys c ok more =
    parse_from-append x ys 0 c ok (λ h. false≢true (sym more ∙ ap is_done h))
    ∙ ap (λ (n : ℕ). parse_from ys n (parse_from x 0 c).ctx) (omega arith)
    ∙ parse_from-shift ys (length x) 0 (parse_from x 0 c).ctx

parse_from_nil : (c : ParseCtx) → (parse_from [] 0 c).ctx ≡ c
unfolding parse_from
parse_from_nil c = refl

-- However the port splits the bytes (in pieces that fit the empty receive buffer), if the parser
-- completes a message in them and reports no error, then `serial_bm_recv_msg` returns that message.
recv_loop-pieces :
    (pieces : List (List ℕ)) (c : ParseCtx) (r : RecvCtx)
    → IsEmpty r
    → All (λ piece. length piece ≤ r.max_buffer_size) pieces
    → is_done c.state ≡ false
    → (parse_from (flat pieces) 0 c).count ≢ none
    → is_done (parse_from (flat pieces) 0 c).ctx.state ≡ true
    → (recv_loop (ready_all pieces) c r).result ≡ received (parse_from (flat pieces) 0 c).ctx.msg
unfolding consume
recv_loop-pieces [] c r e fits n ok done =
    absurd
      (false≢true (sym n ∙ ap (λ (d : ParseCtx). is_done d.state) (sym (parse_from_nil c)) ∙ done))
recv_loop-pieces (x ∷ pieces) c r e fits n ok done =
    elim (Bool-cases (is_done (parse_from x 0 c).ctx.state)) [
      | inl here ↦
          recv_loop-done r x e fits.0 (ready_all pieces) c here
          ∙ ap (λ (p : Parsed). received p.ctx.msg)
              (sym (parse_from-done x (flat pieces) 0 c n here))
      | inr more ↦
          let okx : (parse_from x 0 c).count ≢ none =
            λ h. ok (parse_from-none x (flat pieces) 0 c h) in
          let step = parse_from-piece x (flat pieces) c okx more in
          let count = parse_from-all x 0 c okx more ∙ ap some (omega arith) in
          rw (recv_loop-more r x e fits.0 (ready_all pieces) c more count, step)
            (recv_loop-pieces pieces (parse_from x 0 c).ctx (consume (some (length x)) (filled r x))
              (consume_all r x e fits.0) fits.1 more
              (λ h. ok (ap (λ (p : Parsed). p.count) step ∙ rw h refl)) (rw step at done))
    ]

abbrev ctx_start : ℕ → ParseCtx
ctx_start max = record { state = msg_none; msg = []; max_len = max; escape = false }

parse_from-noise_frame :
    (noise msg rest : List ℕ) (max : ℕ)
    → All (λ b. b ≢ bm_start) noise
    → length msg ≤ max
    → parse_from (noise ++ (frame msg ++ rest)) 0 (ctx_start max)
      ≡ shift (length noise) (record {
        count = some (length (frame msg));
        ctx = record { state = msg_done; msg = msg; max_len = max; escape = false };
      })
parse_from-noise_frame noise msg rest max quiet fits =
    parse_from-noise noise (frame msg ++ rest) 0 (ctx_start max) quiet (λ e. cc e)
    ∙ ap (λ (n : ℕ). parse_from (frame msg ++ rest) n (ctx_start max)) (omega arith)
    ∙ parse_from-shift (frame msg ++ rest) (length noise) 0 (ctx_start max)
    ∙ ap (shift (length noise))
        (sym (parse_buffer_lem (frame msg ++ rest) _) ∙ parse-frame msg rest (ctx_start max) fits)

-- A message of at most `msg_len` bytes that was framed by the sender is received as it was sent,
-- into an empty receive buffer, whatever came before it that is not a start character, whatever
-- comes behind it, and however the port splits the bytes into pieces of at most the buffer's size.
pub recv_msg-frame :
    (pieces : List (List ℕ)) (noise msg rest : List ℕ) (r : RecvCtx) (msg_len : ℕ)
    → IsEmpty r
    → All (λ piece. length piece ≤ r.max_buffer_size) pieces
    → flat pieces ≡ noise ++ (frame msg ++ rest)
    → All (λ b. b ≢ bm_start) noise
    → length msg ≤ msg_len
    → (recv_msg (ready_all pieces) r msg_len).result ≡ received msg
unfolding recv_msg
recv_msg-frame pieces noise msg rest r msg_len e fits whole quiet room =
    let parsed = parse_from-noise_frame noise msg rest msg_len quiet room in
    recv_loop-pieces pieces (ctx_start msg_len) r e fits refl (rw (whole, parsed) (λ h. cc h))
      (rw (whole, parsed) refl)
    ∙ rw (whole, parsed) refl
