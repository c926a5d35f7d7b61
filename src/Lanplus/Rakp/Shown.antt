-- ===== src/Lanplus/Rakp/Shown.antt =====
-- src/plugins/lanplus/lanplus_crypt.c: what a code that is accepted shows of the other end.
use ipmitool.Common.{
  ℕ, ◌≡◌, ◌⊎◌, inl, inr, List, some, true, ◌==◌, if◌then◌else◌, take, arith, Bool-cases,
  Option-cases, ==→eq, refl,
}
use ipmitool.Lanplus.Crypto.{OpenSsl, Hash, sha1, md5, sha256, digest_length, lanplus_hmac}
use ipmitool.Lanplus.Read.{same_bytes}
use ipmitool.Lanplus.Rakp.{
  Handshake, matches, differs, match_assert, supported_auth, cmp_length, rakp2_hmac_matches,
  rakp4_hmac_matches, rakp2_input, rakp4_input,
}
use ipmitool.Lanplus.Rakp.Keys.{AuthHash, same_bytes_sound, rakp2_matches_exact}

-- No authentication, or the code of RAKP 2 begins with the HMAC of the handshake under the user's
-- key.
abbrev pub Rakp2Shown : OpenSsl → Handshake → List ℕ → Type 0
Rakp2Shown ssl h code =
    (h.auth_alg ≡ 0)
    ⊎ ((hash : Hash) × AuthHash h.auth_alg hash
        × (take (digest_length hash) code ≡ ssl.hmac hash h.authcode (rakp2_input h)))

-- The algorithm of RAKP 4, where one OEM option takes that of the integrity.
abbrev pub rakp4_alg : Handshake → ℕ
rakp4_alg h = if h.intelplus then h.integrity_alg else h.auth_alg

-- No such algorithm, or the code of RAKP 4 begins with as much of the HMAC of the handshake under
-- the integrity key as is compared for the algorithm.
abbrev pub Rakp4Shown : OpenSsl → Handshake → List ℕ → List ℕ → Type 0
Rakp4Shown ssl h sik code =
    (rakp4_alg h ≡ 0)
    ⊎ ((n : ℕ) × (mac : List ℕ) × (cmp_length h.intelplus (rakp4_alg h) ≡ some n)
        × (lanplus_hmac ssl (rakp4_alg h) sik (rakp4_input h) ≡ some mac)
        × (take n code ≡ take n mac))

supported_hash : (alg : ℕ) → supported_auth alg ≡ true → (hash : Hash) × AuthHash alg hash
supported_hash alg e = elim (Bool-cases (alg == 1)) [
  | inl one ↦ (sha1, inl (==→eq alg 1 one, refl))
  | inr other ↦ elim (Bool-cases (alg == 2)) [
    | inl two ↦ (md5, inr (inl (==→eq alg 2 two, refl)))
    | inr others ↦ (sha256, inr (inr (ground (arith, e), refl)))
  ]
]

pub rakp2_shown :
    (ssl : OpenSsl) (h : Handshake) (code : List ℕ)
    → rakp2_hmac_matches ssl h true code ≡ matches
    → Rakp2Shown ssl h code
rakp2_shown ssl h code e = elim (Bool-cases (h.auth_alg == 0)) [
  | inl without ↦ inl (==→eq h.auth_alg 0 without)
  | inr some_alg ↦ elim (Bool-cases (supported_auth h.auth_alg)) [
    | inl known ↦
        let (hash, which) = supported_hash h.auth_alg known in
        inr (hash, which, (rakp2_matches_exact ssl h hash code which).0 e)
    | inr unknown ↦
        let asserted : rakp2_hmac_matches ssl h true code ≡ match_assert =
          unfold rakp2_hmac_matches in rw (some_alg, unknown) refl in
        cc (asserted, e)
  ]
]

pub rakp4_shown :
    (ssl : OpenSsl) (h : Handshake) (sik code : List ℕ)
    → rakp4_hmac_matches ssl h sik true code ≡ matches
    → Rakp4Shown ssl h sik code
rakp4_shown ssl h sik code e = elim (Bool-cases (rakp4_alg h == 0)) [
  | inl without ↦ inl (==→eq (rakp4_alg h) 0 without)
  | inr some_alg ↦ elim (Option-cases (cmp_length h.intelplus (rakp4_alg h))) [
    | inl no_length ↦
        let asserted : rakp4_hmac_matches ssl h sik true code ≡ match_assert =
          unfold rakp4_hmac_matches in rw some_alg (rw (no_length, rakp4_hmac_matches) refl) in
        cc (asserted, e)
    | inr (n, size) ↦ elim (Option-cases (lanplus_hmac ssl (rakp4_alg h) sik (rakp4_input h))) [
      | inl no_mac ↦
          let asserted : rakp4_hmac_matches ssl h sik true code ≡ match_assert =
            unfold rakp4_hmac_matches in
            rw some_alg (rw (size, rakp4_hmac_matches) (rw (no_mac, rakp4_hmac_matches) refl)) in
          cc (asserted, e)
      | inr (mac, is) ↦ elim (Bool-cases (same_bytes (take n code) (take n mac))) [
        | inl same ↦ inr (n, mac, size, is, same_bytes_sound (take n code) (take n mac) same)
        | inr other ↦
            let differing : rakp4_hmac_matches ssl h sik true code ≡ differs =
              unfold rakp4_hmac_matches in
              rw some_alg
                (rw (size, rakp4_hmac_matches) (rw (is, rakp4_hmac_matches) (rw other refl))) in
            cc (differing, e)
      ]
    ]
  ]
]
