-- ===== src/Lanplus/Ciphers.antt =====
-- src/plugins/lanplus/lanplus.c: the algorithms of a cipher suite
-- (`lanplus_get_requested_ciphers`) and the choice of a suite (`ipmi_find_best_cipher_suite`), as
-- built with HAVE_CRYPTO_SHA256. What `ipmi_get_channel_cipher_suites` answers is a parameter.
use ipmitool.Common.{
  ℕ, List, [], ◌∷◌, Option, none, some, Bool, true, false, ◌==◌, if◌then◌else◌, ◌≡◌, refl, ◌⊎◌, inl,
  inr, Bool-cases,
}
use ipmitool.Lanplus.Crypto.{
  auth_rakp_none, auth_rakp_hmac_sha1, auth_rakp_hmac_md5, auth_rakp_hmac_sha256, integrity_none,
  integrity_hmac_sha1_96, integrity_hmac_md5_128, integrity_md5_128, integrity_hmac_sha256_128,
  crypt_none, crypt_aes_cbc_128, crypt_xrc4_128, crypt_xrc4_40,
}
use ipmitool.Lanplus.Session.{authcode_length}

pub record Algorithms : Type 0 where
  pub auth : ℕ
  pub integrity : ℕ
  pub crypt : ℕ

abbrev suite : ℕ → ℕ → ℕ → Option Algorithms
suite a i c = some record { auth = a; integrity = i; crypt = c }

-- `none` is the return value of 1.
unfoldable pub get_requested_ciphers : ℕ → Option Algorithms
get_requested_ciphers id =
    if id == 0
    then suite auth_rakp_none integrity_none crypt_none
    else if id == 1
    then suite auth_rakp_hmac_sha1 integrity_none crypt_none
    else if id == 2
    then suite auth_rakp_hmac_sha1 integrity_hmac_sha1_96 crypt_none
    else if id == 3
    then suite auth_rakp_hmac_sha1 integrity_hmac_sha1_96 crypt_aes_cbc_128
    else if id == 4
    then suite auth_rakp_hmac_sha1 integrity_hmac_sha1_96 crypt_xrc4_128
    else if id == 5
    then suite auth_rakp_hmac_sha1 integrity_hmac_sha1_96 crypt_xrc4_40
    else if id == 6
    then suite auth_rakp_hmac_md5 integrity_none crypt_none
    else if id == 7
    then suite auth_rakp_hmac_md5 integrity_hmac_md5_128 crypt_none
    else if id == 8
    then suite auth_rakp_hmac_md5 integrity_hmac_md5_128 crypt_aes_cbc_128
    else if id == 9
    then suite auth_rakp_hmac_md5 integrity_hmac_md5_128 crypt_xrc4_128
    else if id == 10
    then suite auth_rakp_hmac_md5 integrity_hmac_md5_128 crypt_xrc4_40
    else if id == 11
    then suite auth_rakp_hmac_md5 integrity_md5_128 crypt_none
    else if id == 12
    then suite auth_rakp_hmac_md5 integrity_md5_128 crypt_aes_cbc_128
    else if id == 13
    then suite auth_rakp_hmac_md5 integrity_md5_128 crypt_xrc4_128
    else if id == 14
    then suite auth_rakp_hmac_md5 integrity_md5_128 crypt_xrc4_40
    else if id == 15
    then suite auth_rakp_hmac_sha256 integrity_none crypt_none
    else if id == 16
    then suite auth_rakp_hmac_sha256 integrity_hmac_sha256_128 crypt_none
    else if id == 17
    then suite auth_rakp_hmac_sha256 integrity_hmac_sha256_128 crypt_aes_cbc_128
    else none

abbrev pub cipher_suite_reserved : ℕ
cipher_suite_reserved = 0xFF

-- One round of the inner loop.
unfoldable pub offered : ℕ → List ℕ → Bool
offered id [] = false
offered id (s ∷ suites) = if id == s then true else offered id suites

-- The outer loop ends when a suite was found.
unfoldable pub first_offered : List ℕ → List ℕ → ℕ
unfolding offered
first_offered [] suites = cipher_suite_reserved
first_offered (id ∷ preferred) suites =
    if offered id suites then id else first_offered preferred suites

-- The ids that the BMC lists, or `none` where it could not be asked.
unfoldable pub find_best_cipher_suite : Option (List ℕ) → ℕ
unfolding first_offered
find_best_cipher_suite none = 3
find_best_cipher_suite (some suites) =
    let best_suite = first_offered (17 ∷ 3 ∷ []) suites in
    if best_suite == cipher_suite_reserved then 3 else best_suite

-- An end that accepts only suites with a working implementation of the three algorithms.
abbrev pub Usable : Algorithms → Type 0
Usable a =
    ((a.integrity ≡ integrity_none) ⊎ ((n : ℕ) × (authcode_length a.integrity ≡ some n)))
    × ((a.crypt ≡ crypt_none) ⊎ (a.crypt ≡ crypt_aes_cbc_128))

find_best-cases :
    (answer : Option (List ℕ))
    → (find_best_cipher_suite answer ≡ 3)
      ⊎ ((find_best_cipher_suite answer ≡ 17)
          × ((suites : List ℕ) × (answer ≡ some suites) × (offered 17 suites ≡ true)))
unfolding find_best_cipher_suite
find_best-cases none = inl refl
find_best-cases (some suites) = elim (Bool-cases (offered 17 suites)) [
  | inl hit ↦ inr (rw hit refl, (suites, refl, hit))
  | inr miss ↦ inl (elim (Bool-cases (offered 3 suites)) [
    | inl hit ↦ rw (miss, hit) refl
    | inr not_either ↦ rw (miss, not_either) refl
  ])
]

-- Whatever the BMC answers, the suite that is chosen has algorithms, and lanplus implements its
-- integrity and its encryption algorithm; a suite other than 3 is one that the BMC listed.
pub find_best-Usable :
    (answer : Option (List ℕ))
    → (a : Algorithms) × (get_requested_ciphers (find_best_cipher_suite answer) ≡ some a)
      × Usable a
      × ((find_best_cipher_suite answer ≡ 3)
          ⊎ ((suites : List ℕ) × (answer ≡ some suites)
              × (offered (find_best_cipher_suite answer) suites ≡ true)))
unfolding get_requested_ciphers authcode_length
find_best-Usable answer = elim (find_best-cases answer) [
  | inl three ↦
      rw three
        (record { auth = 1; integrity = 1; crypt = 1 }, refl, (inr (12, refl), inr refl), inl refl)
  | inr (best, found) ↦
      rw best
        (record { auth = 3; integrity = 4; crypt = 1 }, refl, (inr (16, refl), inr refl), inr found)
]
