-- ===== src/Lanplus/Authcode.antt =====
-- The authcode that `ipmi_lanplus_build_v2x_msg` appends passes `lanplus_has_valid_auth_code`.
use ipmitool.Common.{
  suc, drop-append, ℕ, ◌+◌, ◌-◌, ◌≤◌, ◌≡◌, refl, List, [], ◌∷◌, ◌++◌, some, true, false, ◌==◌,
  ltb-false, length, length-take, take, drop, take_middle, ◌⊎◌, inl, inr, arith, ap, ◌∙◌,
}
use ipmitool.Lanplus.Crypto.{
  OpenSsl, Hash, sha1, md5, sha256, digest_length, mac_hash, lanplus_hmac, integrity_none,
  integrity_hmac_sha1_96, integrity_hmac_md5_128, integrity_hmac_sha256_128,
}
use ipmitool.Lanplus.Session.{Session, authcode_length}
use ipmitool.Lanplus.Packet.{rmcp_hdr, authcode}
use ipmitool.Lanplus.Read.{valid, same_bytes, check_authcode}

-- The authcode of the bytes `covered`: the first `size` bytes of their HMAC.
pub record Mac (ssl : OpenSsl) (alg : ℕ) (key covered : List ℕ) : Type 0 where
  pub size : ℕ
  pub mac : List ℕ
  pub size_is : authcode_length alg ≡ some size
  pub mac_is : lanplus_hmac ssl alg key covered ≡ some mac
  pub length_is : length (take size mac) ≡ size
  pub not_none : (alg == integrity_none) ≡ false

abbrev pub Authenticates : ℕ → Type 0
Authenticates alg =
    (alg ≡ integrity_hmac_sha1_96)
    ⊎ (alg ≡ integrity_hmac_md5_128)
    ⊎ (alg ≡ integrity_hmac_sha256_128)

cut_digest :
    (ssl : OpenSsl) (alg : ℕ) (key covered : List ℕ) (n : ℕ) (h : Hash)
    → authcode_length alg ≡ some n
    → mac_hash alg ≡ some h
    → n ≤ digest_length h
    → (alg == integrity_none) ≡ false
    → Mac ssl alg key covered
unfolding lanplus_hmac
cut_digest ssl alg key covered n h size hash le known =
    let digest = ssl.hmac h key covered in
    record {
      size = n;
      mac = digest;
      size_is = size;
      mac_is = rw (hash, lanplus_hmac) refl;
      length_is = length-take n digest (omega (arith, ssl.hmac_length h key covered, le));
      not_none = known;
    }

pub authenticated :
    (ssl : OpenSsl) (alg : ℕ) (key covered : List ℕ) → Authenticates alg → Mac ssl alg key covered
authenticated ssl alg key covered (inl e) = rw e (
    cut_digest ssl 1 key covered 12 sha1 (unfold authcode_length in refl) (unfold mac_hash in refl)
      (omega arith) refl)
authenticated ssl alg key covered (inr (inl e)) = rw e (
    cut_digest ssl 2 key covered 16 md5 (unfold authcode_length in refl) (unfold mac_hash in refl)
      (omega arith) refl)
authenticated ssl alg key covered (inr (inr e)) = rw e (
    cut_digest ssl 4 key covered 16 sha256 (unfold authcode_length in refl)
      (unfold mac_hash in refl) (omega arith) refl)

pub same_bytes_refl : (xs : List ℕ) → same_bytes xs xs ≡ true
unfolding same_bytes
same_bytes_refl [] = refl
same_bytes_refl (x ∷ xs) = let e : (x == x) ≡ true = ground arith in rw e (same_bytes_refl xs)

module _ (ssl : OpenSsl) (s r : Session) (covered : List ℕ) where
  pub authcode_lem :
      (m : Mac ssl s.integrity_alg s.k1 covered) → authcode ssl s covered ≡ some (take m.size m.mac)
  unfolding authcode
  authcode_lem m = rw (m.size_is, authcode) (rw m.mac_is refl)

  pub check_authcode_lem :
      (stale : List ℕ) (m : Mac ssl s.integrity_alg s.k1 covered) (data_len : ℕ)
      → r.integrity_alg ≡ s.integrity_alg
      → r.k1 ≡ s.k1
      → data_len ≡ 4 + length covered + m.size
      → check_authcode ssl r (rmcp_hdr ++ (covered ++ (take m.size m.mac ++ stale))) data_len
        ≡ valid
  unfolding check_authcode
  check_authcode_lem stale m data_len alg key len =
      let n = m.size in
      let code = take n m.mac in
      let here : take (data_len - 4 - n) (covered ++ (code ++ stale)) ≡ covered =
        take_middle (data_len - 4 - n) covered (code ++ stale) (omega (arith, len)) in
      let after : data_len - n ≡ suc (suc (suc (suc (length covered)))) = omega (arith, len) in
      let there : take n (drop (data_len - n) (rmcp_hdr ++ (covered ++ (code ++ stale)))) ≡ code =
        rw after (
          ap (take n) (drop-append covered (code ++ stale))
          ∙ take_middle n code stale m.length_is) in
      rw (alg, key)
        (rw (m.size_is, check_authcode)
          (rw (ltb-false data_len (4 + n) (omega (arith, len)))
            (rw here (rw m.mac_is (rw there (rw (same_bytes_refl code) refl))))))
