-- ===== src/Lanplus/Open/Honest.antt =====
-- src/plugins/lanplus/lanplus.c: a controller that knows the user's key, and its codes.
use ipmitool.Common.{
  ap, sym, ◌∙◌, length, [], ℕ, ◌≡◌, refl, inl, inr, List, ◌++◌, some, Bool, true, false, ◌==◌,
  if◌then◌else◌, get_or, length-take_le, take, take_long, arith,
}
use ipmitool.Lanplus.Crypto.{OpenSsl, Hash, digest_length}
use ipmitool.Lanplus.Authcode.{same_bytes_refl}
use ipmitool.Lanplus.Rakp.{
  Handshake, matches, key_is, cmp_length, rakp2_hmac_matches, rakp4_hmac_matches, rakp2_input,
  rakp3_input, rakp4_input, sik_input, generate_sik, generate_rakp3_authcode, KeyResult,
}
use ipmitool.Lanplus.Rakp.Keys.{AuthHash, auth, hmac_is, rakp2_matches_exact}
use ipmitool.Lanplus.Open.{
  Opening, Line, agreed, opened_with, open_request, with_bmc, readable, rakp2_code, rakp4_code,
  rakp4_code_size, rakp1_message, rakp3_head,
}

-- What the console and the controller share of a user: the key, the key of the controller, and
-- the id that the console gives to itself; and no option of one controller.
pub record Shares (key kg : List ℕ) (h : Handshake) : Type 0 where
  pub has_key : h.authcode ≡ key
  pub has_kg : h.kg ≡ kg
  pub has_console : h.console_id ≡ 0xA0A2A3A4
  pub has_no_option : h.i82571spt ≡ false

-- The integrity key of a handshake.
abbrev pub sik_of : OpenSsl → Hash → Handshake → List ℕ
sik_of ssl hash h = ssl.hmac hash (if get_or h.kg 0 0 == 0 then h.authcode else h.kg) (sik_input h)

-- A controller that knows the keys and answers every message of the exchange. It agrees to the
-- algorithms and has then greeted the console; for a RAKP 1 message of a handshake that it has
-- greeted it sends numbers of its own with the HMAC of the handshake under the user's key, and
-- then holds the handshake; for the RAKP 3 message of a handshake that it holds it sends the HMAC
-- under its integrity key. What it keeps to that end is up to it.
pub record Knows {Net : Type 0} (ssl : OpenSsl) (line : Line Net) (hash : Hash) (key kg : List ℕ)
    : Type 1 where
  pub Greeted : Net → Handshake → Type 0
  pub Holds : Net → Handshake → Type 0
  pub open_rsp : Net → Opening → List ℕ
  pub opens :
      (net : Net) (c : Opening) → (line.send net 0x10 (open_request c)).0 ≡ some (open_rsp net c)
  pub open_fine : (net : Net) (c : Opening) → (get_or (open_rsp net c) 1 0 == 0) ≡ true
  pub agrees : (net : Net) (c : Opening) → agreed (opened_with (open_rsp net c) c) ≡ true
  pub greets :
      (net : Net) (c : Opening)
      → Greeted (line.send net 0x10 (open_request c)).1 (opened_with (open_rsp net c) c).hs
  pub bytes : Net → List ℕ
  pub random : (net : Net) → (line.rand net).0 ≡ some (bytes net)
  pub sixteen : (net : Net) → length (bytes net) ≡ 16
  pub still_greeted :
      (net : Net) (h : Handshake) (role : ℕ)
      → Greeted net h
      → Greeted (line.rand net).1 (record h { console_rand = bytes net; requested_role = role })
  pub rakp2_rsp : Net → Opening → List ℕ
  pub rakp2_comes :
      (net : Net) (c : Opening) → (line.send net 0x12 (rakp1_message c)).0 ≡ some (rakp2_rsp net c)
  pub rakp2_fine : (net : Net) (c : Opening) → (get_or (rakp2_rsp net c) 1 0 == 0) ≡ true
  pub rakp2_code_is :
      (net : Net) (c : Opening)
      → AuthHash c.hs.auth_alg hash
      → Shares key kg c.hs
      → Greeted net c.hs
      → length c.hs.console_rand ≡ 16
      → rakp2_code c (rakp2_rsp net c)
        ≡ ssl.hmac hash key (rakp2_input (with_bmc (rakp2_rsp net c) c).hs)
  pub holds :
      (net : Net) (c : Opening)
      → Shares key kg c.hs
      → Greeted net c.hs
      → length c.hs.console_rand ≡ 16
      → Holds (line.send net 0x12 (rakp1_message c)).1 (with_bmc (rakp2_rsp net c) c).hs
  pub rakp4_rsp : Net → Opening → List ℕ → List ℕ
  pub rakp4_comes :
      (net : Net) (c : Opening) (code : List ℕ)
      → (line.send net 0x14 (rakp3_head c ++ code)).0 ≡ some (rakp4_rsp net c code)
  pub rakp4_fine :
      (net : Net) (c : Opening) (code : List ℕ) → (get_or (rakp4_rsp net c code) 1 0 == 0) ≡ true
  pub rakp4_code_is :
      (net : Net) (c : Opening) (code : List ℕ)
      → AuthHash c.hs.auth_alg hash
      → Shares key kg c.hs
      → Holds net c.hs
      → rakp4_code c (rakp4_rsp net c code)
        ≡ take
            (rakp4_code_size c.hs.auth_alg)
            (ssl.hmac hash (sik_of ssl hash c.hs) (rakp4_input c.hs))

-- The integrity key that the console makes is that of the handshake.
pub sik_made :
    (ssl : OpenSsl) (h : Handshake) (hash : Hash)
    → AuthHash h.auth_alg hash
    → generate_sik ssl h true ≡ key_is (sik_of ssl hash h)
unfolding generate_sik
sik_made ssl h hash which =
    let a = auth h.auth_alg hash which in
    let key = if get_or h.kg 0 0 == 0 then h.authcode else h.kg in
    rw (a.not_none, a.supported) (rw (hmac_is ssl h.auth_alg hash key (sik_input h) a) refl)

abbrev key_of : KeyResult → List ℕ
key_of (key_is key) = key
key_of _ = []

pub same_sik :
    (ssl : OpenSsl) (h : Handshake) (hash : Hash) (sik : List ℕ)
    → AuthHash h.auth_alg hash
    → generate_sik ssl h true ≡ key_is sik
    → sik ≡ sik_of ssl hash h
same_sik ssl h hash sik which e = ap key_of (sym e ∙ sik_made ssl h hash which)

compared :
    (plain : Bool) (alg : ℕ) (hash : Hash)
    → AuthHash alg hash
    → plain ≡ false
    → cmp_length plain alg ≡ some (rakp4_code_size alg)
unfolding cmp_length
compared plain alg hash (inl (e, k)) p = rw e refl
compared plain alg hash (inr (inl (e, k))) p = rw e refl
compared plain alg hash (inr (inr (e, k))) p = rw (e, p) refl

one_alg : (plain : Bool) (m n : ℕ) → plain ≡ false → (if plain then m else n) ≡ n
one_alg plain m n e = rw e refl

pub rakp4_matches_lem :
    (ssl : OpenSsl) (h : Handshake) (hash : Hash) (sik : List ℕ)
    → AuthHash h.auth_alg hash
    → h.intelplus ≡ false
    → rakp4_hmac_matches ssl h sik true
        (take (rakp4_code_size h.auth_alg) (ssl.hmac hash sik (rakp4_input h)))
      ≡ matches
unfolding rakp4_hmac_matches
rakp4_matches_lem ssl h hash sik which plain =
    let n = rakp4_code_size h.auth_alg in
    let mac = ssl.hmac hash sik (rakp4_input h) in
    let a = auth h.auth_alg hash which in
    let whole : take n (take n mac) ≡ take n mac =
      take_long n (take n mac) (length-take_le n mac) in
    let one = one_alg h.intelplus h.integrity_alg h.auth_alg plain in
    rw (one, a.not_none, compared h.intelplus h.auth_alg hash which plain)
      (rw
        (
          one,
          hmac_is ssl h.auth_alg hash sik (rakp4_input h) a,
          whole,
          same_bytes_refl (take n mac),
        )
        refl)

pub rakp2_matches_lem :
    (ssl : OpenSsl) (h : Handshake) (hash : Hash)
    → AuthHash h.auth_alg hash
    → rakp2_hmac_matches ssl h true (ssl.hmac hash h.authcode (rakp2_input h)) ≡ matches
rakp2_matches_lem ssl h hash which =
    let mac = ssl.hmac hash h.authcode (rakp2_input h) in
    (rakp2_matches_exact ssl h hash mac which).1 (
      take_long (digest_length hash) mac
        (omega (arith, ssl.hmac_length hash h.authcode (rakp2_input h))))

pub authcode_made :
    (ssl : OpenSsl) (h : Handshake) (hash : Hash)
    → AuthHash h.auth_alg hash
    → generate_rakp3_authcode ssl h true ≡ key_is (ssl.hmac hash h.authcode (rakp3_input h))
unfolding generate_rakp3_authcode
authcode_made ssl h hash which =
    let a = auth h.auth_alg hash which in
    rw (a.not_none, a.supported)
      (rw (hmac_is ssl h.auth_alg hash h.authcode (rakp3_input h) a) refl)

pub readable_lem : (alg : ℕ) (hash : Hash) → AuthHash alg hash → readable alg ≡ true
readable_lem alg hash (inl (e, k)) = rw e refl
readable_lem alg hash (inr (inl (e, k))) = rw e refl
readable_lem alg hash (inr (inr (e, k))) = rw e refl
