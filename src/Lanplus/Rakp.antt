-- ===== src/Lanplus/Rakp.antt =====
-- src/plugins/lanplus/lanplus_crypt.c: what is hashed in the RAKP messages 2, 3 and 4 and for the
-- session keys, and the tests of the other end's codes. Little-endian, with HAVE_CRYPTO_SHA256.
-- `allocated` is the success of `malloc`.
pub mod Inputs
pub mod Keys
pub mod Shown
use ipmitool.Common.{
  ℕ, ◌+◌, List, [], ◌∷◌, ◌++◌, Option, none, some, Bool, true, false, not, ◌==◌, ◌&&◌, ◌||◌,
  if◌then◌else◌, length, get_or, take, u8, bit_and,
}
use ipmitool.Lanplus.Crypto.{
  OpenSsl, auth_rakp_none, auth_rakp_hmac_sha1, auth_rakp_hmac_md5, auth_rakp_hmac_sha256,
  integrity_none, integrity_hmac_sha1_96, integrity_hmac_md5_128, lanplus_hmac,
}
use ipmitool.Lanplus.Session.{le32}
use ipmitool.Lanplus.Read.{same_bytes}

-- The fields of the session, of its parameters and of the OEM options that are hashed; `authcode`
-- and `kg` with the 20 bytes that serve as key.
pub record Handshake : Type 0 where
  pub auth_alg : ℕ
  pub integrity_alg : ℕ
  pub console_id : ℕ
  pub bmc_id : ℕ
  pub console_rand : List ℕ
  pub bmc_rand : List ℕ
  pub bmc_guid : List ℕ
  pub requested_role : ℕ
  pub privlvl : ℕ
  pub username : List ℕ
  pub authcode : List ℕ
  pub kg : List ℕ
  pub intelplus : Bool
  pub i82571spt : Bool

-- The length of the name, and the characters that are copied.
abbrev pub name_bytes : Handshake → List ℕ
name_bytes h = u8 (length h.username) ∷ take (u8 (length h.username)) h.username

-- The role, less a bit for one controller.
abbrev pub hashed_role : Handshake → ℕ
hashed_role h = if h.i82571spt then bit_and h.requested_role 0xEF else h.requested_role

unfoldable pub rakp2_input : Handshake → List ℕ
rakp2_input h =
    le32 h.console_id
    ++ (le32 h.bmc_id
        ++ (h.console_rand ++ (h.bmc_rand ++ (h.bmc_guid ++ hashed_role h ∷ name_bytes h))))

unfoldable pub rakp3_input : Handshake → List ℕ
rakp3_input h =
    h.bmc_rand
    ++ (le32 h.console_id
        ++ (if h.intelplus || h.i82571spt then h.privlvl else h.requested_role) ∷ name_bytes h)

unfoldable pub rakp4_input : Handshake → List ℕ
rakp4_input h = h.console_rand ++ (le32 h.bmc_id ++ h.bmc_guid)

unfoldable pub sik_input : Handshake → List ℕ
sik_input h = h.console_rand ++ (h.bmc_rand ++ hashed_role h ∷ name_bytes h)

abbrev pub supported_auth : ℕ → Bool
supported_auth alg =
    alg == auth_rakp_hmac_sha1 || alg == auth_rakp_hmac_md5 || alg == auth_rakp_hmac_sha256

-- A return value of 1, of 0, or an assertion.
pub data Match : Type 0 where
  matches differs match_assert : Match

-- The bytes of a RAKP 4 code that are compared, for each algorithm.
unfoldable pub cmp_length : Bool → ℕ → Option ℕ
cmp_length intelplus alg =
    if alg == 1
    then some 12
    else if alg == 2
    then some 16
    else if not intelplus && alg == auth_rakp_hmac_sha256
    then some 16
    else none

-- A key with its length, or bytes whose length field is left as it was; or an assertion, or a
-- return value of 1.
pub data KeyResult : Type 0 where
  key_is key_bytes : List ℕ → KeyResult
  key_failed key_assert : KeyResult

abbrev repeated : ℕ → List ℕ
repeated b = b ∷ b ∷ b ∷ b ∷ b ∷ b ∷ b ∷ b ∷ b ∷ b ∷ b ∷ b ∷ b ∷ b ∷ b ∷ b ∷ b ∷ b ∷ b ∷ b ∷ []

abbrev pub const_1 : List ℕ
const_1 = repeated 0x01

abbrev pub const_2 : List ℕ
const_2 = repeated 0x02

module _ (ssl : OpenSsl) where
  unfoldable pub rakp2_hmac_matches : Handshake → Bool → List ℕ → Match
  rakp2_hmac_matches h allocated bmc_mac =
      if h.auth_alg == auth_rakp_none
      then matches
      else if not (supported_auth h.auth_alg)
      then match_assert
      else if not allocated
      then matches
      else elim (lanplus_hmac ssl h.auth_alg h.authcode (rakp2_input h)) [
        | none ↦ match_assert
        | some mac ↦ if same_bytes (take (length mac) bmc_mac) mac then matches else differs
      ]

  -- `intelplus` takes the integrity algorithm in place of the other.
  unfoldable pub rakp4_hmac_matches : Handshake → List ℕ → Bool → List ℕ → Match
  rakp4_hmac_matches h sik allocated bmc_mac =
      let alg = if h.intelplus then h.integrity_alg else h.auth_alg in
      if alg == 0 then matches else elim (cmp_length h.intelplus alg) [
        | none ↦ match_assert
        | some n ↦
            if not allocated then matches else elim (lanplus_hmac ssl alg sik (rakp4_input h)) [
              | none ↦ match_assert
              | some mac ↦ if same_bytes (take n bmc_mac) (take n mac) then matches else differs
            ]
      ]

  unfoldable pub generate_rakp3_authcode : Handshake → Bool → KeyResult
  generate_rakp3_authcode h allocated =
      if h.auth_alg == auth_rakp_none
      then key_is []
      else if not (supported_auth h.auth_alg)
      then key_assert
      else if not allocated
      then key_failed
      else elim (lanplus_hmac ssl h.auth_alg h.authcode (rakp3_input h)) [
        | none ↦ key_assert
        | some mac ↦ key_is mac
      ]

  unfoldable pub generate_sik : Handshake → Bool → KeyResult
  generate_sik h allocated =
      if h.auth_alg == auth_rakp_none
      then key_is []
      else if not (supported_auth h.auth_alg)
      then key_assert
      else if not allocated
      then key_failed
      else elim (lanplus_hmac ssl h.auth_alg (if get_or h.kg 0 0 == 0 then h.authcode else h.kg)
          (sik_input h)) [ none ↦ key_assert | some mac ↦ key_is mac ]

  -- K1 of the constant 1, K2 of the constant 2.
  unfoldable pub generate_k : List ℕ → ℕ → List ℕ → KeyResult
  generate_k constant auth_alg sik =
      if auth_alg == auth_rakp_none
      then key_bytes constant
      else elim (lanplus_hmac ssl auth_alg sik constant) [
        | none ↦ key_assert
        | some mac ↦ if supported_auth auth_alg then key_is mac else key_assert
      ]

  unfoldable pub generate_k1 : ℕ → List ℕ → KeyResult
  unfolding generate_k
  generate_k1 auth_alg sik = generate_k const_1 auth_alg sik

  unfoldable pub generate_k2 : ℕ → List ℕ → KeyResult
  unfolding generate_k
  generate_k2 auth_alg sik = generate_k const_2 auth_alg sik
