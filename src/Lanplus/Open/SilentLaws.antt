-- ===== src/Lanplus/Open/SilentLaws.antt =====
-- src/plugins/lanplus/lanplus.c: the rounds of `ipmi_lanplus_open` when nothing answers.
use ipmitool.Common.{
  ℕ, zero, suc, ◌≡◌, refl, ap, ◌∙◌, List, Option, none, some, Bool, true, false, ◌==◌,
}
use ipmitool.Lanplus.Crypto.{OpenSsl}
use ipmitool.Lanplus.Session.{is_active, presession}
use ipmitool.Lanplus.Ciphers.{Algorithms, get_requested_ciphers, cipher_suite_reserved}
use ipmitool.Lanplus.Open.{
  Opening, Line, rc_timeout, Outcome, on_open_response, open_request, open_session, rakp1, rakp3,
}
use ipmitool.Lanplus.Open.FirstLaws.{Idle}
use ipmitool.Lanplus.Open.Sequence.{
  Opened, opened, then_next, Commands, rounds, privileged, capable_open, after_rounds, open_with,
  lanplus_open, ipmi_lan_retry,
}

-- A line on which nothing answers.
abbrev pub Silent : {Net : Type 0} → Line Net → Type 0
Silent {Net = Net} line =
    (net : Net) (type : ℕ) (message : List ℕ) → (line.send net type message).0 ≡ none

module _ {Net : Type 0} (ssl : OpenSsl) (line : Line Net) (silent : Silent line) where
  on_open-silent :
      (c : Opening) (answer : Option (List ℕ)) (net : Net)
      → answer ≡ none
      → on_open_response c (answer, net) ≡ record { rc = rc_timeout; session = c; net = net }
  unfolding on_open_response
  on_open-silent c answer net e = ap (λ (x : Option (List ℕ)). on_open_response c (x, net)) e

  open_session-silent :
      (id : ℕ) (a : Algorithms) (c : Opening) (net : Net)
      → get_requested_ciphers id ≡ some a
      → (c' : Opening) × (net' : Net) × (open_session line id c net
          ≡ record { rc = rc_timeout; session = c'; net = net' })
        × (c'.state ≡ c.state)
        × (c'.hs.i82571spt ≡ c.hs.i82571spt)
  unfolding open_session
  open_session-silent id a c net suite =
      let c' : Opening = record c { hs = record c.hs { console_id = 0xA0A2A3A4 }; requested = a } in
      let sent = line.send net 0x10 (open_request c') in
      (
        c',
        sent.1,
        rw (suite, open_session)
            (on_open-silent c' sent.0 sent.1 (silent net 0x10 (open_request c'))),
        refl,
        refl,
      )

  round_over :
      {o : Outcome Net} {c : Opening} {net : Net} (next retry : Opening → Net → Opened Net)
      → o ≡ record { rc = rc_timeout; session = c; net = net }
      → then_next o next retry ≡ retry c net
  unfolding then_next
  round_over next retry e = ap (λ (o : Outcome Net). then_next o next retry) e

  rounds-silent :
      (id lookupbit : ℕ) (a : Algorithms) (n : ℕ) (c : Opening) (net : Net)
      → get_requested_ciphers id ≡ some a
      → Idle c
      → (c' : Opening) × (net' : Net) × (rounds ssl line id lookupbit n c net ≡ opened c' net')
        × Idle c'
        × (c'.hs.i82571spt ≡ c.hs.i82571spt)
  unfolding rounds then_next
  rounds-silent id lookupbit a zero c net suite idle = (c, net, refl, idle, refl)
  rounds-silent id lookupbit a (suc retry) c net suite idle =
      let first = open_session-silent id a (record c { state = presession }) net suite in
      let idle' : Idle first.0 = ap is_active first.3 in
      let rest = rounds-silent id lookupbit a retry first.0 first.1 suite idle' in
      let again = rounds ssl line id lookupbit retry in
      (
        rest.0,
        rest.1,
        round_over
              (λ c1 net1.
                then_next (rakp1 ssl line lookupbit c1 net1)
                  (λ c2 net2. then_next (rakp3 ssl line c2 net2) opened again) again)
              again first.2
            ∙ rest.2,
        rest.3,
        rest.4 ∙ first.4,
      )

  -- Where no payload is answered in any of the rounds, `ipmi_lanplus_open` returns as if the
  -- session was open, although it is not active: for the controller that is not sent the command
  -- for the privilege level, and a supported cipher suite that is given.
  pub lanplus_open-silent :
      (commands : Commands Net) (id lookupbit : ℕ) (a : Algorithms) (c : Opening) (net : Net)
      → get_requested_ciphers id ≡ some a
      → (id == cipher_suite_reserved) ≡ false
      → Idle c
      → c.hs.i82571spt ≡ true
      → (c' : Opening) × (net' : Net) × (lanplus_open ssl line commands id lookupbit c net
          ≡ opened c' net')
        × Idle c'
  unfolding lanplus_open capable_open open_with after_rounds privileged
  lanplus_open-silent commands id lookupbit a c net suite given idle spt =
      let done = rounds-silent id lookupbit a ipmi_lan_retry c net suite idle in
      let still : done.0.hs.i82571spt ≡ true = done.4 ∙ spt in
      (
        done.0,
        done.1,
        ap (λ (b : Bool). capable_open ssl line commands b id lookupbit c net) spt
            ∙ rw (given, open_with) refl
            ∙ ap (after_rounds ssl line commands) done.2
            ∙ ap (λ (b : Bool). privileged ssl line commands b done.0 done.1) still,
        done.3,
      )
