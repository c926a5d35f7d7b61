-- ===== src/Serial/Terminal/EnclosedLaws.antt =====
-- serial_terminal.c: responses that enclose the answer to a bridged request.
use ipmitool.Common.{
  ℕ, zero, suc, ◌+◌, ◌-◌, ◌*◌, ◌≤◌, ◌<◌, ◌≡◌, refl, List, [], ◌∷◌, ◌++◌, false, ◌==◌, ltb, length,
  length-append, arith, ◌∙◌, All, Bool, take_middle, append_assoc, Bool-cases, inl, inr,
}
use ipmitool.Intf.{Intf, get_bridging_level}
use ipmitool.Serial.Message.{IpmiRq, IpmbHdr, hdr_bytes}
use ipmitool.Serial.Terminal.{TermEvent, got, max_response, waited}
use ipmitool.Serial.Terminal.TextLaws.{arrive}
use ipmitool.Serial.Terminal.WaitLaws.{left_eol, all_text}
use ipmitool.Serial.Terminal.Message.{term_build_at, term_alloc_seq}
use ipmitool.Serial.Terminal.Command.{
  wait_all, answered, done, respond, checked, enclosed, on_bridged, attempt, send_cmd,
}
use ipmitool.Serial.Terminal.CommandLaws.{
  Foreign, answer_to, answer_to-Fits, answer_to-is_answer, wait_all-answer,
}
use ipmitool.Serial.Terminal.SendLaws.{
  nth_seq, after_silence, outer_awaited, send_cmd-done, send_cmd-try,
}

-- A message inside another: its header, and its checksum behind it.
abbrev pub inside : IpmbHdr → List ℕ → ℕ → List ℕ
inside hdr payload sum = hdr_bytes hdr ++ (payload ++ sum ∷ [])

respond_single :
    (cc sum : ℕ) (bytes : List ℕ)
    → respond 1 (cc ∷ (bytes ++ sum ∷ [])) (length bytes + 1) ≡ answered cc bytes
unfolding respond
respond_single cc sum bytes =
    let some_bytes : (length bytes + 1 == 0) ≡ false = ground arith in
    let count : length bytes + 1 - 1 ≡ length bytes = omega arith in
    rw some_bytes (rw count (rw (take_middle (length bytes) bytes (sum ∷ []) refl) refl))

respond_double :
    (cc sum sum' : ℕ) (hdr : IpmbHdr) (bytes : List ℕ)
    → respond 2 (0 ∷ (inside hdr (cc ∷ bytes) sum ++ sum' ∷ [])) (length bytes + 9)
      ≡ answered cc bytes
unfolding respond
respond_double cc sum sum' hdr bytes =
    let enough : ltb (length bytes + 9) 9 ≡ false = ground arith in
    let count : length bytes + 9 - 9 ≡ length bytes = omega arith in
    rw enough (
      rw count (
        rw (append_assoc bytes (sum ∷ []) (sum' ∷ []))
          (rw (take_middle (length bytes) bytes (sum ∷ sum' ∷ []) refl) refl)))

checked_single :
    (cc sum : ℕ) (bytes : List ℕ)
    → checked 1 (cc ∷ (bytes ++ sum ∷ [])) (length bytes + 1) ≡ answered cc bytes
unfolding checked
checked_single cc sum bytes = elim (Bool-cases (cc == 0)) [
  | inl good ↦ rw good (respond_single cc sum bytes)
  | inr bad ↦ rw bad (respond_single cc sum bytes)
]

checked_double :
    (cc sum sum' : ℕ) (hdr : IpmbHdr) (bytes : List ℕ)
    → checked 2 (0 ∷ (inside hdr (cc ∷ bytes) sum ++ sum' ∷ [])) (length bytes + 9)
      ≡ answered cc bytes
unfolding checked
checked_double cc sum sum' hdr bytes =
    let enough : ltb (length bytes + 9) 8 ≡ false = ground arith in
    rw enough (respond_double cc sum sum' hdr bytes)

-- What a response to a Send Message request encloses, behind its completion code: the answer, or
-- the response to the second Send Message request with the answer in it.
abbrev pub enclosing : ℕ → IpmbHdr → IpmbHdr → ℕ → ℕ → List ℕ → List ℕ
enclosing zero outer inner sum sum' answer = []
enclosing (suc zero) outer inner sum sum' answer = inside inner answer sum
enclosing (suc (suc level)) outer inner sum sum' answer =
    inside outer (0 ∷ inside inner answer sum) sum'

enclosed-answered :
    (level cc sum sum' : ℕ) (outer inner : IpmbHdr) (bytes : List ℕ)
    → 1 ≤ level
    → level ≤ 2
    → enclosed level (0 ∷ enclosing level outer inner sum sum' (cc ∷ bytes)) ≡ answered cc bytes
unfolding enclosed
enclosed-answered zero cc sum sum' outer inner bytes low high = absurd (omega (arith, low))
enclosed-answered (suc zero) cc sum sum' outer inner bytes low high =
    let total = length-append bytes (sum ∷ []) in
    let enough : ltb (length (0 ∷ inside inner (cc ∷ bytes) sum)) 8 ≡ false =
      ground (arith, total) in
    let count : length (0 ∷ inside inner (cc ∷ bytes) sum) - 8 ≡ length bytes + 1 =
      omega (arith, total) in
    rw enough (rw count (checked_single cc sum bytes))
enclosed-answered (suc (suc zero)) cc sum sum' outer inner bytes low high =
    let msg = 0 ∷ inside outer (0 ∷ inside inner (cc ∷ bytes) sum) sum' in
    let first = length-append (bytes ++ sum ∷ []) (sum' ∷ []) in
    let second = length-append bytes (sum ∷ []) in
    let enough : ltb (length msg) 8 ≡ false = ground (arith, first, second) in
    let count : length msg - 8 ≡ length bytes + 9 = omega (arith, first, second) in
    rw enough (rw count (checked_double cc sum sum' inner bytes))
enclosed-answered (suc (suc (suc level))) cc sum sum' outer inner bytes low high =
    absurd (omega (arith, high))

enclosing-some :
    (level sum sum' : ℕ) (outer inner : IpmbHdr) (answer : List ℕ)
    → 1 ≤ level
    → (length (0 ∷ enclosing level outer inner sum sum' answer) == 1) ≡ false
enclosing-some zero sum sum' outer inner answer low = absurd (omega (arith, low))
enclosing-some (suc zero) sum sum' outer inner answer low = ground arith
enclosing-some (suc (suc level)) sum sum' outer inner answer low = ground arith

-- A try on a request through bridges, whose response is not alone.
attempt-enclosed :
    (einval : Bool) (timeout counter level : ℕ) (intf : Intf) (req : IpmiRq) (ticks : List ℕ)
    (msg : List ℕ) (events rest : List TermEvent)
    → 1 ≤ level
    → level ≤ 2
    → wait_all einval (outer_awaited counter) events ≡ waited (0 ∷ msg) rest
    → (length (0 ∷ msg) == 1) ≡ false
    → attempt einval false timeout (term_build_at false intf req counter level) ticks events
      ≡ done (enclosed level (0 ∷ msg)) counter rest
unfolding attempt term_build_at on_bridged
attempt-enclosed einval timeout counter zero intf req ticks msg events rest low high w many =
    absurd (omega (arith, low))
attempt-enclosed einval timeout counter (suc zero) intf req ticks msg events rest low high w many =
    rw w (rw many refl)
attempt-enclosed einval timeout counter (suc (suc zero)) intf req ticks msg events rest low high w
      many =
    rw w (rw many refl)
attempt-enclosed einval timeout counter (suc (suc (suc level))) intf req ticks msg events rest low
      high w many =
    absurd (omega (arith, high))

-- What a controller sends that answers a request through bridges in one response.
abbrev pub enclosed_response : ℕ → ℕ → IpmbHdr → IpmbHdr → ℕ → ℕ → List ℕ → List ℕ
enclosed_response level counter outer inner sum sum' answer =
    answer_to 0x18 counter 0x34 (0 ∷ enclosing level outer inner sum sum' answer)

enclosed-wait :
    (einval eol : Bool) (level counter sum sum' : ℕ) (outer inner : IpmbHdr) (answer : List ℕ)
    (others : List (List ℕ)) (events : List TermEvent)
    → All (λ b. b < 256) (enclosing level outer inner sum sum' answer)
    → length (enclosing level outer inner sum sum' answer) + 4 ≤ max_response
    → Foreign (outer_awaited counter) others
    → wait_all einval (outer_awaited counter) (
        arrive
          (left_eol eol
            ++ all_text others (enclosed_response level counter outer inner sum sum' answer))
          events)
      ≡ waited (0 ∷ enclosing level outer inner sum sum' answer) (got 10 ∷ events)
enclosed-wait einval eol level counter sum sum' outer inner answer others events small room
      foreign =
    wait_all-answer einval eol (outer_awaited counter) others
      (enclosed_response level counter outer inner sum sum' answer) events foreign
      (answer_to-Fits 0x18 counter 0x34 0 (enclosing level outer inner sum sum' answer)
        (omega arith) (omega arith) (omega arith, small) room)
      (answer_to-is_answer 0x18 0 counter 0x34 0 (enclosing level outer inner sum sum' answer))

-- A request through one or two bridges, that fits the buffer, on an interface that is no system
-- interface, answered by one response that encloses the answer in a message for each bridge with
-- its header and checksum. When fewer tries are lost to silence than are made, and the port
-- delivers that response behind any that are not awaited: exactly the completion code and the
-- data of the innermost message are returned, without the headers and checksums around them.
pub send_cmd-enclosed :
    (einval eol : Bool) (timeout level lost retry seq cc sum sum' : ℕ) (intf : Intf) (req : IpmiRq)
    (outer inner : IpmbHdr) (bytes ticks : List ℕ) (others : List (List ℕ))
    (events : List TermEvent)
    → get_bridging_level intf ≡ level
    → 1 ≤ level
    → level ≤ 2
    → length req.bytes + 3 + level * 8 ≤ max_response
    → All (λ b. b < 256) (enclosing level outer inner sum sum' (cc ∷ bytes))
    → length (enclosing level outer inner sum sum' (cc ∷ bytes)) + 4 ≤ max_response
    → Foreign (outer_awaited (nth_seq lost seq)) others
    → lost < retry
    → send_cmd einval false timeout intf req retry seq ticks (
        after_silence lost (
          arrive
            (left_eol eol
              ++ all_text others
                  (enclosed_response level (nth_seq lost seq) outer inner sum sum' (cc ∷ bytes)))
            events))
      ≡ record { result = answered cc bytes; seq = nth_seq lost seq; events = got 10 ∷ events }
send_cmd-enclosed einval eol timeout level lost zero seq cc sum sum' intf req outer inner bytes
      ticks others events e low high fits small room foreign enough =
    absurd (omega (arith, enough))
send_cmd-enclosed einval eol timeout level zero (suc retry) seq cc sum sum' intf req outer inner
      bytes ticks others events e low high fits small room foreign enough =
    send_cmd-done einval false timeout level retry seq intf req ticks _ (got 10 ∷ events) cc bytes e
      fits
      (attempt-enclosed einval timeout (term_alloc_seq seq) level intf req ticks
          (enclosing level outer inner sum sum' (cc ∷ bytes)) _ (got 10 ∷ events) low high
          (enclosed-wait einval eol level (term_alloc_seq seq) sum sum' outer inner (cc ∷ bytes)
            others events small room foreign)
          (enclosing-some level sum sum' outer inner (cc ∷ bytes) low)
        ∙ rw (enclosed-answered level cc sum sum' outer inner bytes low high) refl)
send_cmd-enclosed einval eol timeout level (suc lost) (suc retry) seq cc sum sum' intf req outer
      inner bytes ticks others events e low high fits small room foreign enough =
    send_cmd-try einval false timeout level retry seq intf req ticks _ e fits
    ∙ send_cmd-enclosed einval eol timeout level lost retry (term_alloc_seq seq) cc sum sum' intf
        req outer inner bytes ticks others events e low high fits small room foreign
        (omega (arith, enough))
