-- ===== src/Serial/Terminal/Command.antt =====
-- serial_terminal.c: `ipmi_serial_term_send_cmd` on an open port, with the message queue of a system
-- interface, `serial_term_get_message`. What flushing and writing do is not among the events.
use ipmitool.Common.{
  ℕ, zero, suc, ◌-◌, ◌*◌, List, [], ◌∷◌, Bool, true, false, Option, none, some, ◌==◌, not, ltb,
  ◌&&◌, if◌then◌else◌, length, get_or, get_elem?, take, drop, bit_and, bit_or, u8,
}
use ipmitool.Intf.{Intf}
use ipmitool.Serial.Message.{IpmiRq}
use ipmitool.Serial.Terminal.{
  TermEvent, TermCtx, Waited, waited, wait_overrun, wait_unread, wait_response, max_response,
}
use ipmitool.Serial.Terminal.Message.{TermBuilt, term_build_msg, term_alloc_seq}

-- The response, or NULL; a length that was never set; a byte of the buffer that the response did
-- not write; a negative length of `memcpy`; a NUL behind the line; a wait that has not ended.
pub data CmdResult : Type 0 where
  answered : ℕ → List ℕ → CmdResult
  no_answer length_unset stale_read negative_copy line_overrun still_waiting : CmdResult

-- A wait with a turn for every event.
unfoldable pub wait_all : Bool → TermCtx → List TermEvent → Waited
wait_all einval ctx events = wait_response einval (suc (length events)) ctx max_response events

-- The fields of a response in the queue, compared in their order.
pub data Match : Type 0 where
  matched unmatched unwritten : Match

unfoldable pub match_fields : List (ℕ × ℕ) → List ℕ → Match
match_fields [] rp = matched
match_fields ((i, v) ∷ fields) rp = elim (get_elem? rp i) [
  | none ↦ unwritten
  | some b ↦ elim (b == v) [ true ↦ match_fields fields rp | false ↦ unmatched ]
]

unfoldable pub queue_fields : TermCtx → List (ℕ × ℕ)
queue_fields ctx =
    (2, bit_or (bit_or (bit_and ctx.net_fn 0xFC) (bit_and ctx.seq 3)) 4)
    ∷ (4, ctx.sa)
    ∷ (5, bit_and ctx.seq 0xFC)
    ∷ (6, ctx.cmd)
    ∷ []

-- A turn of the loop over the queue: it returns a message, of no bytes for 0, or goes on.
pub data QueueTurn : Type 0 where
  turn_returns : List ℕ → List TermEvent → QueueTurn
  turn_ends : CmdResult → List TermEvent → QueueTurn
  turn_goes_on : List TermEvent → QueueTurn

unfoldable pub judge_queued : TermCtx → List ℕ → List TermEvent → QueueTurn
judge_queued ctx rp events =
    if get_or rp 0 0 == 0
    then elim (match_fields (queue_fields ctx) rp) [
      | unwritten ↦ turn_ends stale_read events
      | unmatched ↦ turn_goes_on events
      | matched ↦
          if ltb (length rp) 8
          then turn_ends negative_copy events
          else turn_returns (take (length rp - 8) (drop 7 rp)) events
    ]
    else if get_or rp 0 0 == 0x80
    then turn_goes_on events
    else turn_returns [] events

unfoldable pub queue_turn : Bool → TermCtx → ℕ → List TermEvent → QueueTurn
queue_turn einval ctx seq events =
    let get : TermCtx = record { net_fn = 0x18; sa = 0; seq = u8 (seq * 4); cmd = 0x33 } in
    elim (wait_all einval get events) [
      | waited [] rest ↦ turn_returns [] rest
      | waited (b ∷ rp) rest ↦ judge_queued ctx (b ∷ rp) rest
      | wait_overrun ↦ turn_ends line_overrun []
      | wait_unread ↦ turn_ends still_waiting events
    ]

-- What a try leaves: its result, or the state for the next one. `ticks` are the seconds that the
-- clock shows to have passed each time that it is read; without any left the time is over.
pub data Try : Type 0 where
  done : CmdResult → ℕ → List TermEvent → Try
  again : ℕ → List ℕ → List TermEvent → Try

pub record Fetched : Type 0 where
  pub turn : QueueTurn
  pub seq : ℕ
  pub ticks : List ℕ

abbrev pub when_over : QueueTurn → QueueTurn
when_over (turn_goes_on events) = turn_returns [] events
when_over turn = turn

abbrev pub goes_on : QueueTurn → Option (List TermEvent)
goes_on (turn_goes_on events) = some events
goes_on turn = none

unfoldable pub get_message : Bool → ℕ → TermCtx → ℕ → List ℕ → List TermEvent → Fetched
get_message einval timeout ctx seq [] events =
    let next = term_alloc_seq seq in
    record { turn = when_over (queue_turn einval ctx next events); seq = next; ticks = [] }
get_message einval timeout ctx seq (tm ∷ ticks) events =
    let next = term_alloc_seq seq in
    let turn = queue_turn einval ctx next events in
    elim (goes_on turn) [
      | none ↦ record { turn = turn; seq = next; ticks = tm ∷ ticks }
      | some rest ↦ elim (ltb tm timeout) [
        | true ↦ get_message einval timeout ctx next ticks rest
        | false ↦ record { turn = when_over turn; seq = next; ticks = ticks }
      ]
    ]

-- The end of the function, for the `rv` bytes from `resp` on.
unfoldable pub respond : ℕ → List ℕ → ℕ → CmdResult
respond level resp rv =
    if (level == 2) && (get_or resp 0 0 == 0)
    then if ltb rv 9
      then negative_copy
      else answered (get_or resp 7 0) (take (rv - 9) (drop 8 resp))
    else if rv == 0
    then negative_copy
    else answered (get_or resp 0 0) (take (rv - 1) (drop 1 resp))

unfoldable pub checked : ℕ → List ℕ → ℕ → CmdResult
checked level resp rv =
    if (get_or resp 0 0 == 0) && ((level == 2) && ltb rv 8)
    then no_answer
    else respond level resp rv

-- A response that encloses the one to the inner request: its last byte is a checksum.
unfoldable pub enclosed : ℕ → List ℕ → CmdResult
enclosed level msg =
    if ltb (length msg) 8 then stale_read else checked level (drop 7 msg) (length msg - 8)

-- `ctx[1]`, which is set where it is used.
abbrev pub ctx_behind : TermBuilt → TermCtx
ctx_behind b = elim (b.ctx1) [ none ↦ b.ctx0 | some ctx ↦ ctx ]

abbrev pub if_received :
    ℕ → List ℕ → List TermEvent → Waited → (List ℕ → List TermEvent → Try) → Try
if_received seq ticks events (waited [] rest) then_do = again seq ticks rest
if_received seq ticks events (waited (b ∷ msg) rest) then_do = then_do (b ∷ msg) rest
if_received seq ticks events wait_overrun then_do = done line_overrun seq []
if_received seq ticks events wait_unread then_do = done still_waiting seq events

unfoldable pub from_queue : ℕ → Fetched → Try
from_queue level f = elim (f.turn) [
  | turn_returns [] rest ↦ again f.seq f.ticks rest
  | turn_returns (b ∷ msg) rest ↦ done (checked level (b ∷ msg) (length (b ∷ msg))) f.seq rest
  | turn_ends r rest ↦ done r f.seq rest
  | turn_goes_on rest ↦ done still_waiting f.seq rest
]

unfoldable pub on_bridged : Bool → Bool → ℕ → TermBuilt → List ℕ → List ℕ → List TermEvent → Try
on_bridged einval is_system timeout b ticks msg events =
    if is_system
    then from_queue b.level (get_message einval timeout (ctx_behind b) b.seq ticks events)
    else if length msg == 1
    then if_received b.seq ticks events (wait_all einval (ctx_behind b) events)
        (λ resp rest. done (checked b.level resp (length resp)) b.seq rest)
    else done (enclosed b.level msg) b.seq events

unfoldable pub attempt : Bool → Bool → ℕ → TermBuilt → List ℕ → List TermEvent → Try
attempt einval is_system timeout b ticks events =
    if_received b.seq ticks events (wait_all einval b.ctx0 events) (λ msg rest.
      if not (b.level == 0) && (get_or msg 0 0 == 0)
      then on_bridged einval is_system timeout b ticks msg rest
      else done (respond b.level msg (length msg)) b.seq rest)

pub record CmdSent : Type 0 where
  pub result : CmdResult
  pub seq : ℕ
  pub events : List TermEvent

-- The loop, with the number of tries.
unfoldable pub send_cmd :
    Bool → Bool → ℕ → Intf → IpmiRq → ℕ → ℕ → List ℕ → List TermEvent → CmdSent
send_cmd einval is_system timeout intf req zero seq ticks events = record {
  result = no_answer;
  seq = seq;
  events = events;
}
send_cmd einval is_system timeout intf req (suc retry) seq ticks events =
    elim (term_build_msg is_system intf req max_response seq) [
      | none ↦ record { result = length_unset; seq = seq; events = events }
      | some b ↦ elim (attempt einval is_system timeout b ticks events) [
        | done r seq' rest ↦ record { result = r; seq = seq'; events = rest }
        | again seq' ticks' rest ↦ send_cmd einval is_system timeout intf req retry seq' ticks' rest
      ]
    ]
