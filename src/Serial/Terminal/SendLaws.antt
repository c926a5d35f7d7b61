-- ===== src/Serial/Terminal/SendLaws.antt =====
-- serial_terminal.c: the tries of `ipmi_serial_term_send_cmd`.
use ipmitool.Common.{
  ℕ, zero, suc, ◌+◌, ◌*◌, ◌≤◌, ◌<◌, ◌≡◌, refl, List, [], ◌∷◌, ◌++◌, some, false, ltb-false, arith,
  ◌∙◌, All, Bool, u8, length,
}
use ipmitool.Intf.{Intf, get_bridging_level}
use ipmitool.Serial.Message.{IpmiRq, net_fn_lun}
use ipmitool.Serial.Terminal.{TermEvent, silent, got, TermCtx, max_response}
use ipmitool.Serial.Terminal.TextLaws.{arrive}
use ipmitool.Serial.Terminal.WaitLaws.{left_eol}
use ipmitool.Serial.Terminal.Message.{term_build_at, term_build_msg, term_alloc_seq}
use ipmitool.Serial.Terminal.Command.{answered, done, again, attempt, send_cmd}
use ipmitool.Serial.Terminal.CommandLaws.{
  Foreign, answer_to, script, wait_all-silent, attempt_direct, attempt_bridged,
}

-- The number of the try after `lost` ones, and what the port delivers while they are lost.
abbrev pub nth_seq : ℕ → ℕ → ℕ
nth_seq zero seq = term_alloc_seq seq
nth_seq (suc lost) seq = nth_seq lost (term_alloc_seq seq)

abbrev pub after_silence : ℕ → List TermEvent → List TermEvent
after_silence zero events = events
after_silence (suc lost) events = silent ∷ after_silence lost events

-- What a response in the port is compared with: for the Send Message request around a bridged
-- request, and for the request itself.
abbrev pub outer_awaited : ℕ → TermCtx
outer_awaited counter = record { net_fn = 0x18; sa = 0; seq = u8 (counter * 4); cmd = 0x34 }

abbrev pub awaited : ℕ → Intf → IpmiRq → ℕ → TermCtx
awaited zero intf req counter = record {
  net_fn = net_fn_lun req;
  sa = 0;
  seq = u8 (counter * 4);
  cmd = req.cmd;
}
awaited (suc level) intf req counter = record {
  net_fn = net_fn_lun req;
  sa = intf.target_addr;
  seq = u8 (counter * 4);
  cmd = req.cmd;
}

built :
    (sys : Bool) (intf : Intf) (req : IpmiRq) (seq level : ℕ)
    → get_bridging_level intf ≡ level
    → length req.bytes + 3 + level * 8 ≤ max_response
    → term_build_msg sys intf req max_response seq
      ≡ some (term_build_at sys intf req (term_alloc_seq seq) level)
unfolding term_build_msg
built sys intf req seq level e fits = rw e (rw (ltb-false _ _ fits) refl)

build_at-seq :
    (sys : Bool) (intf : Intf) (req : IpmiRq) (counter level : ℕ)
    → (term_build_at sys intf req counter level).seq ≡ counter
unfolding term_build_at
build_at-seq sys intf req counter level = ground arith

attempt-silent :
    (einval sys : Bool) (timeout counter level : ℕ) (intf : Intf) (req : IpmiRq) (ticks : List ℕ)
    (events : List TermEvent)
    → attempt einval sys timeout (term_build_at sys intf req counter level) ticks (silent ∷ events)
      ≡ again counter ticks events
unfolding attempt
attempt-silent einval sys timeout counter level intf req ticks events =
    let b = term_build_at sys intf req counter level in
    rw (wait_all-silent einval b.ctx0 events) (rw (build_at-seq sys intf req counter level) refl)

pub send_cmd-try :
    (einval sys : Bool) (timeout level retry seq : ℕ) (intf : Intf) (req : IpmiRq) (ticks : List ℕ)
    (events : List TermEvent)
    → get_bridging_level intf ≡ level
    → length req.bytes + 3 + level * 8 ≤ max_response
    → send_cmd einval sys timeout intf req (suc retry) seq ticks (silent ∷ events)
      ≡ send_cmd einval sys timeout intf req retry (term_alloc_seq seq) ticks events
unfolding send_cmd
send_cmd-try einval sys timeout level retry seq intf req ticks events e fits =
    rw (built sys intf req seq level e fits, send_cmd)
      (rw
        (
          attempt-silent einval sys timeout (term_alloc_seq seq) level intf req ticks events,
          send_cmd,
        )
        refl)

pub send_cmd-done :
    (einval sys : Bool) (timeout level retry seq : ℕ) (intf : Intf) (req : IpmiRq) (ticks : List ℕ)
    (events rest : List TermEvent) (cc : ℕ) (bytes : List ℕ)
    → get_bridging_level intf ≡ level
    → length req.bytes + 3 + level * 8 ≤ max_response
    → attempt einval sys timeout
        (term_build_at sys intf req (term_alloc_seq seq) level)
        ticks
        events
      ≡ done (answered cc bytes) (term_alloc_seq seq) rest
    → send_cmd einval sys timeout intf req (suc retry) seq ticks events
      ≡ record { result = answered cc bytes; seq = term_alloc_seq seq; events = rest }
unfolding send_cmd
send_cmd-done einval sys timeout level retry seq intf req ticks events rest cc bytes e fits tried =
    rw (built sys intf req seq level e fits, send_cmd) (rw (tried, send_cmd) refl)

-- A request to the controller itself or through one bridge, that fits the buffer, on an interface
-- that is no system interface. When fewer tries are lost to silence than are made, and to the next
-- one the port delivers the answer behind any responses that are not awaited, with the acceptance
-- of the Send Message request before it if there is a bridge: the completion code and exactly the
-- data of the answer are returned, whether or not a line feed of an earlier message was left; the
-- sequence number is that of the try, and the line feed of the answer and what follows are still
-- to be read.
pub send_cmd-answered :
    (einval eol : Bool) (timeout level lost retry seq cc : ℕ) (intf : Intf) (req : IpmiRq)
    (bytes : List ℕ) (ticks : List ℕ) (others more : List (List ℕ)) (events : List TermEvent)
    → get_bridging_level intf ≡ level
    → level ≤ 1
    → length req.bytes + 3 + level * 8 ≤ max_response
    → req.cmd < 256
    → All (λ b. b < 256) (cc ∷ bytes)
    → length bytes + 4 ≤ max_response
    → Foreign (outer_awaited (nth_seq lost seq)) others
    → Foreign (awaited level intf req (nth_seq lost seq)) more
    → lost < retry
    → send_cmd einval false timeout intf req retry seq ticks (
        after_silence lost (
          arrive
            (left_eol eol
              ++ script level others
                  (answer_to 0x18 (nth_seq lost seq) 0x34 (0 ∷ []))
                  more
                  (answer_to (net_fn_lun req) (nth_seq lost seq) req.cmd (cc ∷ bytes)))
            events))
      ≡ record { result = answered cc bytes; seq = nth_seq lost seq; events = got 10 ∷ events }
send_cmd-answered einval eol timeout level lost zero seq cc intf req bytes ticks others more events
      e low fits c small room first second enough =
    absurd (omega (arith, enough))
send_cmd-answered einval eol timeout zero zero (suc retry) seq cc intf req bytes ticks others more
      events e low fits c small room first second enough =
    send_cmd-done einval false timeout 0 retry seq intf req ticks _ (got 10 ∷ events) cc bytes e
      fits
      (attempt_direct einval eol timeout intf req (term_alloc_seq seq) cc bytes ticks others more
        events c small room second)
send_cmd-answered einval eol timeout (suc zero) zero (suc retry) seq cc intf req bytes ticks others
      more events e low fits c small room first second enough =
    send_cmd-done einval false timeout 1 retry seq intf req ticks _ (got 10 ∷ events) cc bytes e
      fits
      (attempt_bridged einval eol timeout intf req (term_alloc_seq seq) cc bytes ticks others more
        events c small room first second)
send_cmd-answered einval eol timeout (suc (suc level)) zero (suc retry) seq cc intf req bytes ticks
      others more events e low fits c small room first second enough =
    absurd (omega (arith, low))
send_cmd-answered einval eol timeout level (suc lost) (suc retry) seq cc intf req bytes ticks others
      more events e low fits c small room first second enough =
    send_cmd-try einval false timeout level retry seq intf req ticks _ e fits
    ∙ send_cmd-answered einval eol timeout level lost retry (term_alloc_seq seq) cc intf req bytes
        ticks others more events e low fits c small room first second (omega (arith, enough))
