-- ===== src/Lanplus/Open/Sequence.antt =====
-- src/plugins/lanplus/lanplus.c: `ipmi_lanplus_open`, on a socket that can be connected and with
-- its parameters set. What the commands before and behind the exchange find out is a parameter.
use ipmitool.Common.{ℕ, zero, suc, List, Option, Bool, true, false, ◌==◌, if◌then◌else◌}
use ipmitool.Lanplus.Crypto.{OpenSsl}
use ipmitool.Lanplus.Session.{presession}
use ipmitool.Lanplus.Ciphers.{cipher_suite_reserved, find_best_cipher_suite}
use ipmitool.Lanplus.Open.{
  Opening, Line, rc_success, rc_error, rc_timeout, rc_assert, Outcome, open_session, rakp1, rakp3,
}

-- `IPMI_LAN_RETRY`
abbrev pub ipmi_lan_retry : ℕ
ipmi_lan_retry = 4

-- What `ipmi_lanplus_open` returns: the file descriptor, or -1 after the label `fail`, or an
-- assertion.
pub data Opened (Net : Type 0) : Type 0 where
  opened failed asserted : Opening → Net → Opened Net

-- The outcome of a message: the next message, the next round, or the end.
unfoldable pub then_next :
    {Net : Type 0}
    → Outcome Net
    → (Opening → Net → Opened Net)
    → (Opening → Net → Opened Net)
    → Opened Net
then_next o next retry = elim o.rc [
  | rc_success ↦ next o.session o.net
  | rc_error ↦ failed o.session o.net
  | rc_timeout ↦ retry o.session o.net
  | rc_assert ↦ asserted o.session o.net
]

-- `ipmi_get_auth_capabilities_cmd` with its answer, `ipmi_get_channel_cipher_suites`, and
-- `ipmi_set_session_privlvl_cmd`: whether the data of v2.0 are available, the suites, and whether
-- the privilege level was set.
pub record Commands (Net : Type 0) : Type 0 where
  pub v20_available : Net → Bool × Net
  pub cipher_suites : Net → Option (List ℕ) × Net
  pub set_privlvl : Opening → Net → Bool × Net

module _ {Net : Type 0} (ssl : OpenSsl) (line : Line Net) (id lookupbit : ℕ) where
  -- The loop over the rounds that are left, and what follows it.
  unfoldable pub rounds : ℕ → Opening → Net → Opened Net
  unfolding then_next
  rounds zero c net = opened c net
  rounds (suc retry) c net =
      then_next (open_session line id (record c { state = presession }) net)
        (λ c1 net1.
          then_next (rakp1 ssl line lookupbit c1 net1)
            (λ c2 net2. then_next (rakp3 ssl line c2 net2) opened (rounds retry)) (rounds retry))
        (rounds retry)

module _ {Net : Type 0} (ssl : OpenSsl) (line : Line Net) (commands : Commands Net) where
  -- Setting the privilege level, but for one controller.
  unfoldable pub privileged : Bool → Opening → Net → Opened Net
  privileged true c net = opened c net
  privileged false c net =
      let set = commands.set_privlvl c net in if set.0 then opened c set.1 else failed c set.1

  -- What follows the loop.
  unfoldable pub after_rounds : Opened Net → Opened Net
  unfolding privileged
  after_rounds (failed c net) = failed c net
  after_rounds (asserted c net) = asserted c net
  after_rounds (opened c net) = privileged c.hs.i82571spt c net

  -- From the choice of the cipher suite on.
  unfoldable pub open_with : ℕ → ℕ → Opening → Net → Opened Net
  unfolding rounds after_rounds
  open_with id lookupbit c net = elim (id == cipher_suite_reserved) [
    | true ↦
        let asked = commands.cipher_suites net in
        after_rounds
          (rounds ssl line (find_best_cipher_suite asked.0) lookupbit ipmi_lan_retry c asked.1)
    | false ↦ after_rounds (rounds ssl line id lookupbit ipmi_lan_retry c net)
  ]

  -- Asking for the authentication capabilities, but for one controller.
  unfoldable pub capable_open : Bool → ℕ → ℕ → Opening → Net → Opened Net
  unfolding open_with
  capable_open true id lookupbit c net = open_with id lookupbit c net
  capable_open false id lookupbit c net =
      let asked = commands.v20_available net in
      elim asked.0 [ true ↦ open_with id lookupbit c asked.1 | false ↦ failed c asked.1 ]

  -- `ipmi_lanplus_open` behind the set-up of the session.
  unfoldable pub lanplus_open : ℕ → ℕ → Opening → Net → Opened Net
  unfolding capable_open
  lanplus_open id lookupbit c net = capable_open c.hs.i82571spt id lookupbit c net
