-- ===== src/Lanplus/Open.antt =====
-- src/plugins/lanplus/lanplus.c: the exchange that opens a session, `ipmi_lanplus_open_session`,
-- `ipmi_lanplus_rakp1` and `ipmi_lanplus_rakp3`. `malloc` gives a block.
pub mod Sequence
pub mod Laws
pub mod FirstLaws
pub mod SilentLaws
pub mod SecureLaws
pub mod HonestLaws
pub mod Honest
use ipmitool.Common.{
  ℕ, zero, suc, ◌+◌, ◌-◌, List, [], ◌∷◌, ◌++◌, Option, none, some, Bool, true, false, not, ltb,
  ◌==◌, ◌&&◌, ◌||◌, if◌then◌else◌, get_or, length, take, u8, bit_or,
}
use ipmitool.Lanplus.Crypto.{OpenSsl}
use ipmitool.Lanplus.Session.{
  SessionState, rakp_2_received, open_session_received, active, le32, read32,
}
use ipmitool.Lanplus.Ciphers.{Algorithms, get_requested_ciphers}
use ipmitool.Lanplus.Rakp.{
  Handshake, supported_auth, Match, matches, differs, match_assert, KeyResult, key_is, key_bytes,
  key_failed, key_assert, rakp2_hmac_matches, rakp4_hmac_matches, generate_rakp3_authcode,
  generate_sik, generate_k1, generate_k2, name_bytes,
}

-- The session while it is opened: `v2_data` and the parameters that the messages depend on.
pub record Opening : Type 0 where
  pub hs : Handshake
  pub crypt_alg : ℕ
  pub requested : Algorithms
  pub state : SessionState
  pub max_priv_level : ℕ
  pub rakp2_return_code : ℕ
  pub sik : List ℕ
  pub k1 : List ℕ
  pub k2 : List ℕ

-- The other end and the channel to it: the bytes of the payload that answers a payload of a type,
-- or none where `ipmi_lanplus_send_payload` gives no response, and the bytes of `lanplus_rand`.
pub record Line (Net : Type 0) : Type 0 where
  pub send : Net → ℕ → List ℕ → Option (List ℕ) × Net
  pub rand : Net → Option (List ℕ) × Net

-- Return values 0, 1 and 2, or an assertion.
pub data Rc : Type 0 where
  rc_success rc_error rc_timeout rc_assert : Rc

pub record Outcome (Net : Type 0) : Type 0 where
  pub rc : Rc
  pub session : Opening
  pub net : Net

-- `n` bytes of a response; what stands behind its end counts as 0.
unfoldable pub bytes_at : ℕ → ℕ → List ℕ → List ℕ
bytes_at zero off bytes = []
bytes_at (suc n) off bytes = get_or bytes off 0 ∷ bytes_at n (off + 1) bytes

unfoldable pub padding : ℕ → List ℕ
padding zero = []
padding (suc n) = 0 ∷ padding n

-- The request to open a session: three payloads of 8 bytes behind the console's id.
unfoldable pub open_request : Opening → List ℕ
open_request c =
    0
    ∷ (if c.hs.intelplus || not (c.hs.privlvl == 4) then c.hs.privlvl else 0)
    ∷ 0
    ∷ 0
    ∷ (le32 c.hs.console_id
        ++ (0 ∷ 0 ∷ 0 ∷ 8 ∷ c.requested.auth ∷ 0 ∷ 0 ∷ 0 ∷ 1 ∷ 0 ∷ 0 ∷ 8 ∷ c.requested.integrity ∷ 0
            ∷ 0 ∷ 0 ∷ 2 ∷ 0 ∷ 0 ∷ 8 ∷ c.requested.crypt ∷ 0 ∷ 0 ∷ 0 ∷ []))

-- `read_open_session_response` without an error, and what is kept of it.
unfoldable pub opened_with : List ℕ → Opening → Opening
opened_with rsp c = record c {
  hs = record c.hs {
    bmc_id = read32 rsp 8;
    auth_alg = get_or rsp 16 0;
    integrity_alg = get_or rsp 24 0;
  };
  crypt_alg = get_or rsp 32 0;
  max_priv_level = get_or rsp 2 0;
  state = open_session_received;
}

unfoldable pub agreed : Opening → Bool
agreed c =
    c.hs.auth_alg == c.requested.auth
    && (c.hs.integrity_alg == c.requested.integrity && c.crypt_alg == c.requested.crypt)

module _ {Net : Type 0} where
  abbrev pub ends : Rc → Opening → Net → Outcome Net
  ends rc c net = record { rc = rc; session = c; net = net }

  unfoldable pub on_open_response : Opening → Option (List ℕ) × Net → Outcome Net
  unfolding opened_with agreed
  on_open_response c (none, net) = ends rc_timeout c net
  on_open_response c (some rsp, net) =
      if get_or rsp 1 0 == 0
      then ends (if agreed (opened_with rsp c) then rc_success else rc_error) (opened_with rsp c)
          net
      else ends rc_error c net

  -- `ipmi_lanplus_open_session` for a cipher suite.
  unfoldable pub open_session : Line Net → ℕ → Opening → Net → Outcome Net
  unfolding on_open_response open_request
  open_session line id c net =
      let c' = record c { hs = record c.hs { console_id = 0xA0A2A3A4 } } in
      elim (get_requested_ciphers id) [
        | none ↦ ends rc_error c' net
        | some a ↦
            let c'' = record c' { requested = a } in
            on_open_response c'' (line.send net 0x10 (open_request c''))
      ]

-- The message of RAKP 1: the name padded to 16 bytes for one controller.
unfoldable pub rakp1_message : Opening → List ℕ
unfolding padding
rakp1_message c =
    0
    ∷ 0
    ∷ 0
    ∷ 0
    ∷ (le32 c.hs.bmc_id
        ++ (c.hs.console_rand
            ++ (c.hs.requested_role
                ∷ 0
                ∷ 0
                ∷ (name_bytes c.hs
                    ++ padding (if c.hs.i82571spt then 16 - u8 (length c.hs.username) else 0)))))

-- The bytes of the code in a RAKP 2 message, and in a RAKP 4 message.
abbrev pub rakp2_code_size : ℕ → ℕ
rakp2_code_size alg = if alg == 1 then 20 else if alg == 2 then 16 else if alg == 3 then 32 else 0

abbrev pub rakp4_code_size : ℕ → ℕ
rakp4_code_size alg = if alg == 1 then 12 else if alg == 2 then 16 else if alg == 3 then 16 else 0

abbrev pub readable : ℕ → Bool
readable alg = alg == 0 || supported_auth alg

unfoldable pub rakp2_code : Opening → List ℕ → List ℕ
unfolding bytes_at
rakp2_code c rsp = bytes_at (rakp2_code_size c.hs.auth_alg) 40 rsp

unfoldable pub rakp4_code : Opening → List ℕ → List ℕ
unfolding bytes_at
rakp4_code c rsp = bytes_at (rakp4_code_size c.hs.auth_alg) 8 rsp

-- The session with the numbers of a RAKP 2 message.
unfoldable pub with_bmc : List ℕ → Opening → Opening
unfolding bytes_at
with_bmc rsp c = record c {
  hs = record c.hs { bmc_rand = bytes_at 16 8 rsp; bmc_guid = bytes_at 16 24 rsp };
  state = rakp_2_received;
}

-- What `ipmi_lanplus_rakp3` asserts.
abbrev pub is_rakp_2_received : SessionState → Bool
is_rakp_2_received rakp_2_received = true
is_rakp_2_received _ = false

abbrev pub rakp3_head : Opening → List ℕ
rakp3_head c = 0 ∷ c.rakp2_return_code ∷ 0 ∷ 0 ∷ le32 c.hs.bmc_id

module _ {Net : Type 0} (ssl : OpenSsl) where
  unfoldable pub judge_rakp2 : Match → Opening → Net → Outcome Net
  judge_rakp2 matches c net = ends rc_success (record c { rakp2_return_code = 0 }) net
  judge_rakp2 differs c net = ends rc_error (record c { rakp2_return_code = 0x0F }) net
  judge_rakp2 match_assert c net = ends rc_assert c net

  unfoldable pub on_rakp2 : Opening → Option (List ℕ) × Net → Outcome Net
  unfolding judge_rakp2 with_bmc rakp2_code
  on_rakp2 c (none, net) = ends rc_timeout c net
  on_rakp2 c (some rsp, net) =
      if not (readable c.hs.auth_alg)
      then ends rc_assert c net
      else (if get_or rsp 1 0 == 0
          then judge_rakp2 (rakp2_hmac_matches ssl (with_bmc rsp c).hs true (rakp2_code c rsp))
              (with_bmc rsp c) net
          else ends rc_error (record c { state = rakp_2_received }) net)

  -- `ipmi_lanplus_rakp1`.
  unfoldable pub rakp1 : Line Net → ℕ → Opening → Net → Outcome Net
  unfolding on_rakp2 rakp1_message
  rakp1 line lookupbit c net = elim (line.rand net).0 [
    | none ↦ ends rc_error c (line.rand net).1
    | some bytes ↦
        let net' = (line.rand net).1 in
        let c' = record c {
          hs = record c.hs { console_rand = bytes; requested_role = bit_or c.hs.privlvl lookupbit };
        } in
        if ltb 16 (u8 (length c.hs.username))
        then ends rc_error c' net'
        else on_rakp2 c' (line.send net' 0x12 (rakp1_message c'))
  ]

  -- A key that is made, where its length is left as it was if it is only copied.
  unfoldable pub with_key :
      List ℕ → KeyResult → Opening → Net → (List ℕ → Outcome Net) → Outcome Net
  with_key old (key_is key) c net go = go key
  with_key old (key_bytes key) c net go = go (take (length old) key)
  with_key old key_failed c net go = ends rc_error c net
  with_key old key_assert c net go = ends rc_assert c net

  unfoldable pub judge_rakp4 : Match → Opening → Net → Outcome Net
  judge_rakp4 matches c net = ends rc_success (record c { state = active }) net
  judge_rakp4 differs c net = ends rc_error c net
  judge_rakp4 match_assert c net = ends rc_assert c net

  unfoldable pub on_rakp4 : Opening → Option (List ℕ) × Net → Outcome Net
  unfolding judge_rakp4 rakp4_code
  on_rakp4 c (none, net) = ends rc_timeout c net
  on_rakp4 c (some rsp, net) =
      if not (readable c.hs.auth_alg)
      then ends rc_assert c net
      else (if get_or rsp 1 0 == 0
          then judge_rakp4 (rakp4_hmac_matches ssl c.hs c.sik true (rakp4_code c rsp)) c net
          else ends rc_error c net)

  -- The session with its keys, and the rest of `ipmi_lanplus_rakp3` with the authcode.
  unfoldable pub rakp3_keyed : Line Net → Opening → Net → List ℕ → Outcome Net
  unfolding with_key on_rakp4
  rakp3_keyed line c net code = with_key c.sik (generate_sik ssl c.hs true) c net (λ sik.
      let c1 = record c { sik = sik } in
      with_key c.k1 (generate_k1 ssl c.hs.auth_alg sik) c1 net (λ k1.
        let c2 = record c1 { k1 = k1 } in
        with_key c.k2 (generate_k2 ssl c.hs.auth_alg sik) c2 net (λ k2.
          let c3 = record c2 { k2 = k2 } in
          on_rakp4 c3 (line.send net 0x14 (rakp3_head c ++ code)))))

  -- `ipmi_lanplus_rakp3`. After an error in RAKP 2 the message is sent only to say so.
  unfoldable pub rakp3 : Line Net → Opening → Net → Outcome Net
  unfolding rakp3_keyed
  rakp3 line c net = elim (is_rakp_2_received c.state) [
    | true ↦
        if c.rakp2_return_code == 0
        then with_key [] (generate_rakp3_authcode ssl c.hs true) c net (rakp3_keyed line c net)
        else ends rc_error c (line.send net 0x14 (rakp3_head c)).1
    | false ↦ ends rc_assert c net
  ]
