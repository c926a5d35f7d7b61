-- ===== src/Lanplus/Open/SecureLaws.antt =====
-- src/plugins/lanplus/lanplus.c: what a session that `ipmi_lanplus_open` opened stands for.
use ipmitool.Common.{ℕ, ◌≡◌, ◌⊎◌, List, Option}
use ipmitool.Lanplus.Crypto.{OpenSsl}
use ipmitool.Lanplus.Ciphers.{find_best_cipher_suite}
use ipmitool.Lanplus.Open.{Line}
use ipmitool.Lanplus.Open.FirstLaws.{Idle, Authenticated}
use ipmitool.Lanplus.Open.Sequence.{Opened, opened, failed, asserted}

module _ {Net : Type 0} (ssl : OpenSsl) (line : Line Net) (id : ℕ) where
  -- What is asked of a result: the session is not active, or it was opened and is authenticated.
  abbrev pub Secure : Opened Net → Type 0
  Secure (opened c net) = Idle c ⊎ Authenticated ssl line id c
  Secure (failed c net) = Idle c ⊎ Authenticated ssl line id c
  Secure (asserted c net) = Idle c

-- The suite that is negotiated: the one that was given, or the best of the BMC's answer.
abbrev pub Chosen : ℕ → ℕ → Type 0
Chosen given suite =
    (suite ≡ given) ⊎ ((answer : Option (List ℕ)) × (suite ≡ find_best_cipher_suite answer))
