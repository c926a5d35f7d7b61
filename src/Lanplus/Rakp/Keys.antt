-- ===== src/Lanplus/Rakp/Keys.antt =====
-- src/plugins/lanplus/lanplus_crypt.c: the session keys, and the codes of RAKP 2 and 4.
use ipmitool.Common.{
  ℕ, ◌≤◌, ◌≡◌, ◌↔◌, refl, List, [], ◌∷◌, some, true, false, ◌==◌, if◌then◌else◌, length, take,
  get_or, ◌⊎◌, inl, inr, arith,
}
use ipmitool.Lanplus.Crypto.{
  OpenSsl, Hash, sha1, md5, sha256, digest_length, mac_hash, lanplus_hmac,
}
use ipmitool.Lanplus.Read.{same_bytes}
use ipmitool.Lanplus.Authcode.{same_bytes_refl}
use ipmitool.Lanplus.Rakp.{
  Handshake, rakp2_input, sik_input, supported_auth, matches, key_is, rakp2_hmac_matches,
  generate_sik, generate_k, generate_k1, generate_k2, const_1, const_2,
}

-- The three authentication algorithms with their hashes.
abbrev pub AuthHash : ℕ → Hash → Type 0
AuthHash alg h = ((alg ≡ 1) × (h ≡ sha1)) ⊎ ((alg ≡ 2) × (h ≡ md5)) ⊎ ((alg ≡ 3) × (h ≡ sha256))

-- What the code needs to know of an algorithm.
pub record Auth (alg : ℕ) (h : Hash) : Type 0 where
  pub not_none : (alg == 0) ≡ false
  pub supported : supported_auth alg ≡ true
  pub hash_is : mac_hash alg ≡ some h

pub auth : (alg : ℕ) (h : Hash) → AuthHash alg h → Auth alg h
unfolding mac_hash
auth alg h (inl (e, k)) = rw (e, k) (record { not_none = refl; supported = refl; hash_is = refl })
auth alg h (inr (inl (e, k))) =
    rw (e, k) (record { not_none = refl; supported = refl; hash_is = refl })
auth alg h (inr (inr (e, k))) =
    rw (e, k) (record { not_none = refl; supported = refl; hash_is = refl })

pub same_bytes_sound : (xs ys : List ℕ) → same_bytes xs ys ≡ true → xs ≡ ys
unfolding same_bytes
same_bytes_sound [] [] e = refl
same_bytes_sound [] (y ∷ ys) e = absurd (ground (arith, e))
same_bytes_sound (x ∷ xs) [] e = absurd (ground (arith, e))
same_bytes_sound (x ∷ xs) (y ∷ ys) e =
    let head : x ≡ y = ground (arith, e) in
    let tail = same_bytes_sound xs ys (ground (arith, e)) in cc (head, tail)

digest_wide : (hash : Hash) → 16 ≤ digest_length hash
digest_wide sha1 = omega arith
digest_wide md5 = omega arith
digest_wide sha256 = omega arith

pub hmac_is :
    (ssl : OpenSsl) (alg : ℕ) (h : Hash) (key d : List ℕ)
    → Auth alg h
    → lanplus_hmac ssl alg key d ≡ some (ssl.hmac h key d)
unfolding lanplus_hmac
hmac_is ssl alg h key d a = rw (a.hash_is, lanplus_hmac) refl

-- With a supported authentication algorithm and memory for the buffer, the code of a RAKP 2
-- message is accepted exactly if it begins with the HMAC, under the user's key, of the console's
-- own view of the handshake.
pub rakp2_matches_exact :
    (ssl : OpenSsl) (h : Handshake) (hash : Hash) (bmc_mac : List ℕ)
    → AuthHash h.auth_alg hash
    → (rakp2_hmac_matches ssl h true bmc_mac ≡ matches)
      ↔ (take (digest_length hash) bmc_mac ≡ ssl.hmac hash h.authcode (rakp2_input h))
unfolding rakp2_hmac_matches
rakp2_matches_exact ssl h hash bmc_mac which =
    let a = auth h.auth_alg hash which in
    let mac = ssl.hmac hash h.authcode (rakp2_input h) in
    let is = hmac_is ssl h.auth_alg hash h.authcode (rakp2_input h) a in
    let len = ssl.hmac_length hash h.authcode (rakp2_input h) in
    rw (a.not_none, a.supported)
      (rw (is, rakp2_hmac_matches)
        (rw len (
          (λ e. same_bytes_sound (take (digest_length hash) bmc_mac) mac (ground (arith, e))),
          (λ e. rw e (rw (same_bytes_refl mac) refl)),
        )))

-- With a supported authentication algorithm and memory for the buffer, the session integrity key
-- and from it K1 and K2 are made without an assertion, each of the length of the digest, which
-- is enough for the 16 bytes that AES-128 takes from K2.
pub session_keys-length :
    (ssl : OpenSsl) (h : Handshake) (hash : Hash)
    → AuthHash h.auth_alg hash
    → (sik k1 k2 : List ℕ) × (generate_sik ssl h true ≡ key_is sik)
      × (generate_k1 ssl h.auth_alg sik ≡ key_is k1)
      × (generate_k2 ssl h.auth_alg sik ≡ key_is k2)
      × (length sik ≡ digest_length hash)
      × (length k1 ≡ digest_length hash)
      × (length k2 ≡ digest_length hash)
      × (16 ≤ length k2)
unfolding generate_sik generate_k1 generate_k2 generate_k
session_keys-length ssl h hash which =
    let a = auth h.auth_alg hash which in
    let key = if get_or h.kg 0 0 == 0 then h.authcode else h.kg in
    let sik = ssl.hmac hash key (sik_input h) in
    let k2 = ssl.hmac hash sik const_2 in
    (
      sik,
      ssl.hmac hash sik const_1,
      k2,
      rw (a.not_none, a.supported) (rw (hmac_is ssl h.auth_alg hash key (sik_input h) a) refl),
      rw a.not_none (rw (hmac_is ssl h.auth_alg hash sik const_1 a) (rw a.supported refl)),
      rw a.not_none (rw (hmac_is ssl h.auth_alg hash sik const_2 a) (rw a.supported refl)),
      ssl.hmac_length hash key (sik_input h),
      ssl.hmac_length hash sik const_1,
      ssl.hmac_length hash sik const_2,
      omega (arith, digest_wide hash, ssl.hmac_length hash sik const_2),
    )
