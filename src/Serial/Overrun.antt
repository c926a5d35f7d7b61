-- ===== src/Serial/Overrun.antt =====
-- serial_basic.c: the count of bytes in the receive buffer of `serial_bm_recv_msg`.
use ipmitool.Common.{ℕ, ◌-◌, ◌<◌, ◌≡◌, refl, lt→ltb, List, ◌∷◌, none, false, arith, length, ap, ◌∙◌}
use ipmitool.Serial.Parse.{ParseCtx, parse_from}
use ipmitool.Serial.Receive.{
  bad_count, ssize_max, PortEvent, ready, RecvCtx, Received, read_count, consume, size_mod, is_done,
  recv_loop,
}
use ipmitool.Serial.ReceiveLaws.{IsEmpty, filled, recv_loop-turn}

recv_loop-asked :
    (more : List ℕ) (events : List PortEvent) (c : ParseCtx) (r : RecvCtx)
    → ssize_max < read_count r
    → (recv_loop (ready more ∷ events) c r).result ≡ bad_count
unfolding recv_loop
recv_loop-asked more events c r h = rw (lt→ltb ssize_max (read_count r) h, recv_loop) refl

-- The defect of the -1 branch. When bytes that fill the empty receive buffer to its end make the
-- parser report a message that is too long, the count of bytes in the buffer ends up above its
-- size, and the next `read` is asked for 2^64 - 1 bytes, more than it can be asked for.
pub recv_loop-bad_count :
    (bytes more : List ℕ) (events : List PortEvent) (c : ParseCtx) (r : RecvCtx)
    → IsEmpty r
    → length bytes ≡ r.max_buffer_size
    → (parse_from bytes 0 c).count ≡ none
    → is_done (parse_from bytes 0 c).ctx.state ≡ false
    → (read_count (consume none (filled r bytes)) ≡ size_mod - 1)
      × ((recv_loop (ready bytes ∷ ready more ∷ events) c r).result ≡ bad_count)
unfolding consume read_count
recv_loop-bad_count bytes more events c r e full long undone =
    let r2 = consume none (filled r bytes) in
    let fits = e.fits_word in
    let asked : ssize_max < read_count r2 = omega (arith, fits, full) in
    (
      omega (arith, fits, full),
      ap (λ (t : Received). t.result)
            (recv_loop-turn r bytes e (omega arith) (ready more ∷ events) c undone)
          ∙ rw long (recv_loop-asked more events _ r2 asked),
    )
