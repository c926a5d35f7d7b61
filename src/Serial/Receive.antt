-- ===== src/Serial/Receive.antt =====
-- serial_basic.c: `serial_bm_recv_msg`, which fills a buffer from the port and parses it.
-- Each event is the outcome of one `poll` and `read`; `read` returns at most the bytes asked for.
use ipmitool.Common.{
  true, false, Bool, ℕ, ◌+◌, ◌-◌, ◌%◌, ◌&&◌, ◌==◌, not, ◌^◌, List, [], ◌∷◌, ◌++◌, Option, none,
  some, ltb, if◌then◌else◌, length, take, drop,
}
use ipmitool.Serial.Parse.{ParseState, msg_none, msg_done, ParseCtx, parse_buffer}

pub data PortEvent : Type 0 where
  no_data read_error : PortEvent
  ready : List ℕ → PortEvent

-- `struct serial_bm_recv_ctx`
pub record RecvCtx : Type 0 where
  pub buffer : List ℕ
  pub buffer_size : ℕ
  pub max_buffer_size : ℕ

-- What is returned: the length and the bytes of the message, 0, -1; `overrun` is a write past the
-- end of the array, which C leaves undefined; `bad_count` a `read` for more than SSIZE_MAX bytes
-- that reports no error, which POSIX leaves to the implementation (Linux reports one).
pub data RecvResult : Type 0 where
  received : List ℕ → RecvResult
  timed_out io_error overrun bad_count : RecvResult

-- `max_buffer_size - buffer_size` and the other sums in a size_t.
abbrev pub size_mod : ℕ
size_mod = 2 ^ 64

abbrev pub ssize_max : ℕ
ssize_max = 2 ^ 63 - 1

unfoldable pub read_count : RecvCtx → ℕ
read_count r = (r.max_buffer_size + size_mod - r.buffer_size) % size_mod

-- `read` into the buffer behind what it holds; the bytes are those that the call delivered.
unfoldable pub store_read : RecvCtx → List ℕ → Option RecvCtx
store_read r bytes =
    if ltb (length r.buffer) (r.buffer_size + length bytes) && not (length bytes == 0)
    then none
    else some (record r {
      buffer =
          take r.buffer_size r.buffer ++ (bytes ++ drop (r.buffer_size + length bytes) r.buffer);
      buffer_size = r.buffer_size + length bytes;
    })

-- The end of the turn. With a return value of -1 the test `rv < buffer_size`, between an int and
-- a size_t, fails, and `buffer_size -= rv` adds one.
unfoldable pub consume : Option ℕ → RecvCtx → RecvCtx
consume none r = record r { buffer_size = (r.buffer_size + 1) % size_mod }
consume (some rv) r =
    let moved =
      take (r.buffer_size - rv) (drop rv r.buffer) ++ drop (r.buffer_size - rv) r.buffer in
    record r {
      buffer = if ltb rv r.buffer_size then moved else r.buffer;
      buffer_size = r.buffer_size - rv;
    }

pub record Received : Type 0 where
  pub result : RecvResult
  pub recv : RecvCtx
  pub events : List PortEvent

abbrev pub is_done : ParseState → Bool
is_done msg_done = true
is_done _ = false

-- The loop, on the events that are left. No event left is a port that stays silent.
unfoldable pub recv_loop : List PortEvent → ParseCtx → RecvCtx → Received
recv_loop [] c r = record { result = timed_out; recv = r; events = [] }
recv_loop (no_data ∷ events) c r = record { result = timed_out; recv = r; events = events }
recv_loop (read_error ∷ events) c r = record { result = io_error; recv = r; events = events }
recv_loop (ready bytes ∷ events) c r = elim (ltb ssize_max (read_count r)) [
  | true ↦ record { result = bad_count; recv = r; events = events }
  | false ↦ elim (store_read r (take (read_count r) bytes)) [
    | none ↦ record { result = overrun; recv = r; events = events }
    | some r1 ↦
        let p = parse_buffer (take r1.buffer_size r1.buffer) c in
        let r2 = consume p.count r1 in
        elim (is_done p.ctx.state) [
          | true ↦ record { result = received p.ctx.msg; recv = r2; events = events }
          | false ↦ recv_loop events p.ctx r2
        ]
  ]
]

unfoldable pub recv_msg : List PortEvent → RecvCtx → ℕ → Received
unfolding recv_loop
recv_msg events r msg_len =
    recv_loop events (record { state = msg_none; msg = []; max_len = msg_len; escape = false }) r
