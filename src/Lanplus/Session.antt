-- ===== src/Lanplus/Session.antt =====
-- src/plugins/lanplus: the state of an RMCP+ session that the packets depend on, and the fields of
-- a packet that are packed into bytes.
use ipmitool.Common.{
  ℕ, ◌+◌, ◌*◌, ◌/◌, ◌<◌, ◌≡◌, refl, List, [], ◌∷◌, Option, none, some, Bool, true, false, ◌==◌,
  if◌then◌else◌, bit_and, bit_or, get_or, u8, holds_below_sound, ==→eq,
}
use ipmitool.Common.Bytes.{holds_below}
use ipmitool.Lanplus.Crypto.{
  integrity_hmac_sha1_96, integrity_hmac_md5_128, integrity_hmac_sha256_128,
}

-- `enum LANPLUS_SESSION_STATE`
pub data SessionState : Type 0 where
  presession open_session_sent open_session_received rakp_1_sent : SessionState
  rakp_2_received rakp_3_sent active close_sent : SessionState

abbrev pub is_active : SessionState → Bool
is_active active = true
is_active _ = false

-- The fields of `struct ipmi_session` and of its `v2_data`; `k1` and `k2` with their lengths.
pub record Session : Type 0 where
  pub state : SessionState
  pub auth_alg : ℕ
  pub integrity_alg : ℕ
  pub crypt_alg : ℕ
  pub console_id : ℕ
  pub bmc_id : ℕ
  pub k1 : List ℕ
  pub k2 : List ℕ
  pub out_seq : ℕ

-- The first bytes of the HMAC that serve as authcode; `none` is the assertion.
unfoldable pub authcode_length : ℕ → Option ℕ
authcode_length alg =
    if alg == integrity_hmac_sha1_96
    then some 12
    else if alg == integrity_hmac_md5_128
    then some 16
    else if alg == integrity_hmac_sha256_128
    then some 16
    else none

-- Little-endian bytes of a uint32_t and of a uint16_t, and back (`ipmi32toh`, `ipmi16toh`).
abbrev pub le32 : ℕ → List ℕ
le32 x = u8 x ∷ u8 (x / 256) ∷ u8 (x / 65536) ∷ u8 (x / 16777216) ∷ []

abbrev pub le16 : ℕ → List ℕ
le16 x = u8 x ∷ u8 (x / 256) ∷ []

abbrev pub read32 : List ℕ → ℕ → ℕ
read32 bytes i =
    get_or bytes i 0
    + get_or bytes (i + 1) 0 * 256
    + get_or bytes (i + 2) 0 * 65536
    + get_or bytes (i + 3) 0 * 16777216

abbrev pub read16 : List ℕ → ℕ → ℕ
read16 bytes i = get_or bytes i 0 + get_or bytes (i + 1) 0 * 256

-- The byte of the payload type with the bits for encrypted and authenticated.
unfoldable pub type_byte : Bool → Bool → ℕ → ℕ
type_byte enc auth t = bit_or (bit_or t (if enc then 0x80 else 0x00)) (if auth then 0x40 else 0x00)

same_below_64 : (f g : ℕ → ℕ) (x : ℕ) → holds_below 64 (λ y. f y == g y) ≡ true → x < 64 → f x ≡ g x
same_below_64 f g x h lt = ==→eq (f x) (g x) (holds_below_sound 64 (λ y. f y == g y) x h lt)

-- Its three fields are read back.
pub type_byte_fields :
    (enc auth : Bool) (t : ℕ)
    → t < 64
    → (bit_and (type_byte enc auth t) 0x80 ≡ (if enc then 0x80 else 0))
      × (bit_and (type_byte enc auth t) 0x40 ≡ (if auth then 0x40 else 0))
      × (bit_and (type_byte enc auth t) 0x3F ≡ t)
unfolding type_byte holds_below
type_byte_fields true true t h = (
  same_below_64 (λ t. bit_and (type_byte true true t) 0x80) (λ t. 0x80) t refl h,
  same_below_64 (λ t. bit_and (type_byte true true t) 0x40) (λ t. 0x40) t refl h,
  same_below_64 (λ t. bit_and (type_byte true true t) 0x3F) (λ t. t) t refl h,
)
type_byte_fields true false t h = (
  same_below_64 (λ t. bit_and (type_byte true false t) 0x80) (λ t. 0x80) t refl h,
  same_below_64 (λ t. bit_and (type_byte true false t) 0x40) (λ t. 0) t refl h,
  same_below_64 (λ t. bit_and (type_byte true false t) 0x3F) (λ t. t) t refl h,
)
type_byte_fields false true t h = (
  same_below_64 (λ t. bit_and (type_byte false true t) 0x80) (λ t. 0) t refl h,
  same_below_64 (λ t. bit_and (type_byte false true t) 0x40) (λ t. 0x40) t refl h,
  same_below_64 (λ t. bit_and (type_byte false true t) 0x3F) (λ t. t) t refl h,
)
type_byte_fields false false t h = (
  same_below_64 (λ t. bit_and (type_byte false false t) 0x80) (λ t. 0) t refl h,
  same_below_64 (λ t. bit_and (type_byte false false t) 0x40) (λ t. 0) t refl h,
  same_below_64 (λ t. bit_and (type_byte false false t) 0x3F) (λ t. t) t refl h,
)
