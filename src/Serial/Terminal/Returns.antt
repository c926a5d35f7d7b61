-- ===== src/Serial/Terminal/Returns.antt =====
-- serial_terminal.c: the fuel of the waits in `ipmi_serial_term_send_cmd` is enough.
use mathlib.Core.Path.{subst}
use ipmitool.Common.{
  ℕ, zero, suc, ◌*◌, ◌≡◌, ◌≢◌, ◌⊎◌, inl, inr, refl, List, [], ◌∷◌, none, ◌==◌, ltb, not, ◌&&◌,
  if◌then◌else◌, arith, Bool, Bool-cases, Option-cases, length, u8, get_or,
}
use ipmitool.Intf.{Intf}
use ipmitool.Serial.Message.{IpmiRq}
use ipmitool.Serial.Terminal.{TermEvent, TermCtx, waited, wait_overrun, max_response}
use ipmitool.Serial.Terminal.TotalLaws.{wait_response-returns}
use ipmitool.Serial.Terminal.Message.{TermBuilt, term_build_msg, term_alloc_seq}
use ipmitool.Serial.Terminal.Command.{
  CmdResult, still_waiting, wait_all, match_fields, queue_fields, Match, matched, unmatched,
  unwritten, QueueTurn, turn_returns, turn_ends, turn_goes_on, judge_queued, queue_turn, Try, done,
  again, Fetched, when_over, goes_on, get_message, respond, checked, enclosed, ctx_behind,
  if_received, from_queue, on_bridged, attempt, send_cmd,
}

abbrev Settles : CmdResult → Type 0
Settles r = r ≢ still_waiting

wait_all_cases :
    (einval : Bool) (ctx : TermCtx) (events : List TermEvent)
    → ((msg : List ℕ) × (rest : List TermEvent) × (wait_all einval ctx events ≡ waited msg rest))
      ⊎ (wait_all einval ctx events ≡ wait_overrun)
unfolding wait_all
wait_all_cases einval ctx events =
    wait_response-returns einval (suc (length events)) ctx max_response events (omega arith)

respond-Settles : (level rv : ℕ) (resp : List ℕ) → Settles (respond level resp rv)
unfolding respond
respond-Settles level rv resp = ground arith

checked-Settles : (level rv : ℕ) (resp : List ℕ) → Settles (checked level resp rv)
unfolding checked
checked-Settles level rv resp = ground (arith, respond-Settles level rv resp)

enclosed-Settles : (level : ℕ) (msg : List ℕ) → Settles (enclosed level msg)
unfolding enclosed
enclosed-Settles level msg = grind (arith, checked-Settles)

-- A turn over the queue that has no open end.
abbrev TurnSettles : QueueTurn → Type 0
TurnSettles (turn_returns msg rest) = Unit
TurnSettles (turn_ends r rest) = Settles r
TurnSettles (turn_goes_on rest) = Unit

abbrev Final : QueueTurn → Type 0
Final (turn_returns msg rest) = Unit
Final (turn_ends r rest) = Settles r
Final (turn_goes_on rest) = ⊥

abbrev TrySettles : Try → Type 0
TrySettles (done r seq rest) = Settles r
TrySettles (again seq ticks rest) = Unit

match_cases : (m : Match) → (m ≡ matched) ⊎ ((m ≡ unmatched) ⊎ (m ≡ unwritten))
match_cases matched = inl refl
match_cases unmatched = inr (inl refl)
match_cases unwritten = inr (inr refl)

judge_queued-TurnSettles :
    (ctx : TermCtx) (rp : List ℕ) (events : List TermEvent)
    → TurnSettles (judge_queued ctx rp events)
unfolding judge_queued
judge_queued-TurnSettles ctx rp events = elim (Bool-cases (get_or rp 0 0 == 0)) [
  | inl good ↦ elim (match_cases (match_fields (queue_fields ctx) rp)) [
    | inl e ↦ elim (Bool-cases (ltb (length rp) 8)) [
      | inl short ↦ rw good (rw (e, judge_queued) (rw short (λ p. cc)))
      | inr long ↦ rw good (rw (e, judge_queued) (rw long tt))
    ]
    | inr (inl e) ↦ rw good (rw (e, judge_queued) tt)
    | inr (inr e) ↦ rw good (rw (e, judge_queued) (λ p. cc))
  ]
  | inr bad ↦ elim (Bool-cases (get_or rp 0 0 == 0x80)) [
    | inl nothing ↦ rw bad (rw nothing tt)
    | inr other ↦ rw bad (rw other tt)
  ]
]

queue_turn-TurnSettles :
    (einval : Bool) (ctx : TermCtx) (seq : ℕ) (events : List TermEvent)
    → TurnSettles (queue_turn einval ctx seq events)
unfolding queue_turn
queue_turn-TurnSettles einval ctx seq events =
    elim (wait_all_cases einval (record { net_fn = 0x18; sa = 0; seq = u8 (seq * 4); cmd = 0x33 })
      events) [
        | inl ([], rest, e) ↦ rw (e, queue_turn) tt
        | inl (b ∷ rp, rest, e) ↦ rw (e, queue_turn) (judge_queued-TurnSettles ctx (b ∷ rp) rest)
        | inr e ↦ rw (e, queue_turn) (λ p. cc)
      ]

when_over-Final : (t : QueueTurn) → TurnSettles t → Final (when_over t)
when_over-Final (turn_returns msg rest) h = tt
when_over-Final (turn_ends r rest) h = h
when_over-Final (turn_goes_on rest) h = tt

goes_on-Final : (t : QueueTurn) → goes_on t ≡ none → TurnSettles t → Final t
goes_on-Final (turn_returns msg rest) e h = tt
goes_on-Final (turn_ends r rest) e h = h
goes_on-Final (turn_goes_on rest) e h = cc

get_message-Final :
    (einval : Bool) (timeout : ℕ) (ctx : TermCtx) (seq : ℕ) (ticks : List ℕ)
    (events : List TermEvent)
    → Final (get_message einval timeout ctx seq ticks events).turn
unfolding get_message
get_message-Final einval timeout ctx seq [] events =
    when_over-Final (queue_turn einval ctx (term_alloc_seq seq) events)
      (queue_turn-TurnSettles einval ctx (term_alloc_seq seq) events)
get_message-Final einval timeout ctx seq (tm ∷ ticks) events =
    let turn = queue_turn einval ctx (term_alloc_seq seq) events in
    let h = queue_turn-TurnSettles einval ctx (term_alloc_seq seq) events in
    elim (Option-cases (goes_on turn)) [
      | inl e ↦ rw (e, get_message) (goes_on-Final turn e h)
      | inr (rest, e) ↦ elim (Bool-cases (ltb tm timeout)) [
        | inl early ↦
            rw (e, get_message)
              (rw (early, get_message)
                (get_message-Final einval timeout ctx (term_alloc_seq seq) ticks rest))
        | inr late ↦ rw (e, get_message) (rw (late, get_message) (when_over-Final turn h))
      ]
    ]

-- What happens with a wait: its message is judged, or the try has another end.
if_received-TrySettles :
    (einval : Bool) (ctx : TermCtx) (seq : ℕ) (ticks : List ℕ) (events : List TermEvent)
    (then_do : List ℕ → List TermEvent → Try)
    → ((msg : List ℕ) (rest : List TermEvent) → TrySettles (then_do msg rest))
    → TrySettles (if_received seq ticks events (wait_all einval ctx events) then_do)
if_received-TrySettles einval ctx seq ticks events then_do h =
    elim (wait_all_cases einval ctx events) [
      | inl ([], rest, e) ↦ rw e tt
      | inl (b ∷ msg, rest, e) ↦ rw e (h (b ∷ msg) rest)
      | inr e ↦ rw e (λ p. cc)
    ]

from_queue-TrySettles : (level : ℕ) (f : Fetched) → Final f.turn → TrySettles (from_queue level f)
unfolding from_queue
from_queue-TrySettles level f h = judged level f f.turn refl h
  where
    judged :
        (level : ℕ) (f : Fetched) (t : QueueTurn)
        → f.turn ≡ t
        → Final t
        → TrySettles (from_queue level f)
    judged level f (turn_returns [] rest) e h = rw (e, from_queue) tt
    judged level f (turn_returns (b ∷ msg) rest) e h =
        rw (e, from_queue) (checked-Settles level (length (b ∷ msg)) (b ∷ msg))
    judged level f (turn_ends r rest) e h = rw (e, from_queue) h
    judged level f (turn_goes_on rest) e h = absurd h

module _ (einval : Bool) (is_system : Bool) (timeout : ℕ) where
  on_bridged-TrySettles :
      (b : TermBuilt) (ticks : List ℕ) (msg : List ℕ) (events : List TermEvent)
      → TrySettles (on_bridged einval is_system timeout b ticks msg events)
  unfolding on_bridged
  on_bridged-TrySettles b ticks msg events = elim (Bool-cases is_system) [
    | inl system ↦ rw system (
        from_queue-TrySettles b.level (get_message einval timeout (ctx_behind b) b.seq ticks events)
          (get_message-Final einval timeout (ctx_behind b) b.seq ticks events))
    | inr other ↦ elim (Bool-cases (length msg == 1)) [
      | inl alone ↦ rw other (
          rw alone (
            if_received-TrySettles einval (ctx_behind b) b.seq ticks events
              (λ resp rest. done (checked b.level resp (length resp)) b.seq rest)
              (λ resp rest. checked-Settles b.level (length resp) resp)))
      | inr more ↦ rw other (rw more (enclosed-Settles b.level msg))
    ]
  ]

  attempt-TrySettles :
      (b : TermBuilt) (ticks : List ℕ) (events : List TermEvent)
      → TrySettles (attempt einval is_system timeout b ticks events)
  unfolding attempt
  attempt-TrySettles b ticks events =
      if_received-TrySettles einval b.ctx0 b.seq ticks events
        (λ msg rest.
          if not (b.level == 0) && (get_or msg 0 0 == 0)
          then on_bridged einval is_system timeout b ticks msg rest
          else done (respond b.level msg (length msg)) b.seq rest)
        (λ msg rest. elim (Bool-cases (not (b.level == 0) && (get_or msg 0 0 == 0))) [
          | inl bridged ↦ rw bridged (on_bridged-TrySettles b ticks msg rest)
          | inr direct ↦ rw direct (respond-Settles b.level (length msg) msg)
        ])

Try_cases :
    (t : Try)
    → ((r : CmdResult) × (seq : ℕ) × (rest : List TermEvent) × (t ≡ done r seq rest))
      ⊎ ((seq : ℕ) × (ticks : List ℕ) × (rest : List TermEvent) × (t ≡ again seq ticks rest))
Try_cases (done r seq rest) = inl (r, seq, rest, refl)
Try_cases (again seq ticks rest) = inr (seq, ticks, rest, refl)

-- On any finite sequence of events, behind which the port is silent, no wait of a command runs out
-- of its fuel, a turn for each event.
send_cmd-returns :
    (einval is_system : Bool) (timeout : ℕ) (intf : Intf) (req : IpmiRq) (retry seq : ℕ)
    (ticks : List ℕ) (events : List TermEvent)
    → (send_cmd einval is_system timeout intf req retry seq ticks events).result ≢ still_waiting
unfolding send_cmd
send_cmd-returns einval sys timeout intf req zero seq ticks events = λ p. cc
send_cmd-returns einval sys timeout intf req (suc retry) seq ticks events =
    elim (Option-cases (term_build_msg sys intf req max_response seq)) [
      | inl e ↦ rw (e, send_cmd) (λ p. cc)
      | inr (b, e) ↦ elim (Try_cases (attempt einval sys timeout b ticks events)) [
        | inl (r, seq', rest, t) ↦
            rw (e, send_cmd)
              (rw (t, send_cmd)
                (subst TrySettles t (attempt-TrySettles einval sys timeout b ticks events)))
        | inr (seq', ticks', rest, t) ↦
            rw (e, send_cmd)
              (rw (t, send_cmd)
                (send_cmd-returns einval sys timeout intf req retry seq' ticks' rest))
      ]
    ]
