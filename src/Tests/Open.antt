-- ===== src/Tests/Open.antt =====
-- The exchange that opens an RMCP+ session on concrete inputs.
use ipmitool.Common.{
  ◌+◌, if◌then◌else◌, ℕ, zero, suc, ◌≡◌, refl, ap, inl, List, [], ◌∷◌, none, some, true, false,
  ◌==◌, length, arith,
}
use ipmitool.Lanplus.Crypto.{OpenSsl, sha1, digest_length}
use ipmitool.Lanplus.Session.{is_active, presession}
use ipmitool.Lanplus.Ciphers.{get_requested_ciphers}
use ipmitool.Lanplus.Open.{Opening, Line}
use ipmitool.Lanplus.Open.FirstLaws.{Idle}
use ipmitool.Lanplus.Open.Sequence.{opened, Commands, rounds, lanplus_open}
use ipmitool.Lanplus.Open.SilentLaws.{lanplus_open-silent}
use ipmitool.Tests.Controller.{
  agreement, keyed_ssl, controller, Memory, nothing, own_key, controller-Knows,
}
use ipmitool.Lanplus.Open.Honest.{sik_of}
use ipmitool.Lanplus.Open.HonestLaws.{rounds-opened}

abbrev zero_bytes : ℕ → List ℕ
zero_bytes zero = []
zero_bytes (suc n) = 0 ∷ zero_bytes n

length-zero_bytes : (n : ℕ) → length (zero_bytes n) ≡ n
length-zero_bytes zero = refl
length-zero_bytes (suc n) = ap suc (length-zero_bytes n)

-- A digest of zeros, and a cipher that changes nothing.
abbrev zero_ssl : OpenSsl
zero_ssl = record {
  hmac = λ h key d. zero_bytes (digest_length h);
  hmac_length = λ h key d. length-zero_bytes (digest_length h);
  aes_encrypt = λ iv key d. d;
  aes_decrypt = λ iv key d. d;
  encrypt_length = λ iv key d e. refl;
  decrypt_encrypt = λ iv key d e. refl;
}

-- A controller that agrees, and answers the other messages with zeros; it counts the messages.
abbrev agreeing : Line ℕ
agreeing = record {
  send = λ n type message. ((if type == 0x10 then some (agreement message) else some []), n + 1);
  rand = λ n. (some (n ∷ []), n);
}

-- A session before it is opened.
abbrev fresh : Opening
fresh = record {
  hs = record {
    auth_alg = 0;
    integrity_alg = 0;
    console_id = 0;
    bmc_id = 0;
    console_rand = [];
    bmc_rand = [];
    bmc_guid = [];
    requested_role = 0;
    privlvl = 4;
    username = 0x61 ∷ 0x62 ∷ [];
    authcode = 1 ∷ 2 ∷ 3 ∷ [];
    kg = [];
    intelplus = false;
    i82571spt = false;
  };
  crypt_alg = 0;
  requested = record { auth = 0; integrity = 0; crypt = 0 };
  state = presession;
  max_priv_level = 0;
  rakp2_return_code = 0;
  sik = [];
  k1 = [];
  k2 = [];
}

abbrev fresh_spt : Opening
fresh_spt = record fresh { hs = record fresh.hs { i82571spt = true } }

abbrev willing : Commands ℕ
willing = record {
  v20_available = λ n. (true, n);
  cipher_suites = λ n. (some (3 ∷ []), n);
  set_privlvl = λ c n. (true, n);
}

abbrev dead : Line ℕ
dead = record { send = λ n type message. (none, n + 1); rand = λ n. (some (n ∷ []), n) }

lanplus_open-silent_example :
    (c : Opening) × (n : ℕ) × (lanplus_open zero_ssl dead willing 3 0 fresh_spt 0 ≡ opened c n)
    × Idle c
lanplus_open-silent_example =
    lanplus_open-silent zero_ssl dead (λ n type message. refl) willing 3 0
      (record { auth = 1; integrity = 1; crypt = 1 }) fresh_spt 0
      (unfold get_requested_ciphers in refl) refl refl refl

rounds-opened_example :
    (c : Opening) × (m : Memory) × (rounds keyed_ssl controller 3 0 4 fresh nothing ≡ opened c m)
    × (is_active c.state ≡ true)
    × (c.sik ≡ sik_of keyed_ssl sha1 c.hs)
rounds-opened_example =
    rounds-opened keyed_ssl controller sha1 own_key [] controller-Knows 3 0 3
      (record { auth = 1; integrity = 1; crypt = 1 }) fresh nothing
      (unfold get_requested_ciphers in refl) (inl (refl, refl)) refl (omega arith) refl refl refl
