-- ===== src/Lanplus/Open/FirstLaws.antt =====
-- src/plugins/lanplus/lanplus.c: what the answers to the open session request and to RAKP 1 prove of
-- the other end.
use mathlib.Core.Path.{subst⁻¹}
use ipmitool.Common.{
  ℕ, ◌≡◌, refl, sym, ap, ap₂, ◌∙◌, inl, inr, Bool-cases, Option-cases, List, Option, none, some,
  true, false, ltb, ◌==◌, get_or, length, u8, bit_or, arith,
}
use ipmitool.Lanplus.Crypto.{OpenSsl}
use ipmitool.Lanplus.Session.{is_active}
use ipmitool.Lanplus.Ciphers.{Algorithms, get_requested_ciphers}
use ipmitool.Lanplus.Rakp.{
  Match, matches, differs, match_assert, key_is, rakp2_hmac_matches, generate_sik,
}
use ipmitool.Lanplus.Rakp.Shown.{Rakp2Shown, Rakp4Shown, rakp2_shown}
use ipmitool.Lanplus.Open.{
  Opening, Line, Rc, rc_success, rc_error, Outcome, opened_with, agreed, open_request,
  on_open_response, open_session, with_bmc, readable, rakp2_code, rakp4_code, judge_rakp2, on_rakp2,
  rakp1_message, rakp1, ends,
}

abbrev pub Idle : Opening → Type 0
Idle c = is_active c.state ≡ false

-- The algorithms in use are those of the cipher suite.
abbrev pub Agreed : ℕ → Opening → Type 0
Agreed id c =
    get_requested_ciphers id
    ≡ some (record { auth = c.hs.auth_alg; integrity = c.hs.integrity_alg; crypt = c.crypt_alg })

-- A property of a session in an outcome without an error.
abbrev pub When : Rc → Type 0 → Type 0
When rc_success P = P
When _ P = Unit

module _ {Net : Type 0} (ssl : OpenSsl) (line : Line Net) where
  -- A RAKP 2 message came, and its code shows what the suite asks for.
  abbrev pub Rakp2Matches : Opening → Type 0
  Rakp2Matches c =
      (net : Net) × (message : List ℕ) × (rsp : List ℕ) × ((line.send net 0x12 message).0
        ≡ some rsp)
      × Rakp2Shown ssl c.hs (rakp2_code c rsp)

  -- A RAKP 4 message came, and its code shows what the suite asks for.
  abbrev pub Rakp4Matches : Opening → Type 0
  Rakp4Matches c =
      (net : Net) × (message : List ℕ) × (rsp : List ℕ) × ((line.send net 0x14 message).0
        ≡ some rsp)
      × Rakp4Shown ssl c.hs c.sik (rakp4_code c rsp)

  -- What a session that is active stands for.
  pub record Authenticated (id : ℕ) (c : Opening) : Type 0 where
    pub suite : Agreed id c
    pub rakp2 : Rakp2Matches c
    pub keyed : generate_sik ssl c.hs true ≡ key_is c.sik
    pub rakp4 : Rakp4Matches c

agreed_lem :
    (c : Opening)
    → agreed c ≡ true
    → record { auth = c.hs.auth_alg; integrity = c.hs.integrity_alg; crypt = c.crypt_alg }
      ≡ c.requested
unfolding agreed
agreed_lem c e =
    let a : c.hs.auth_alg ≡ c.requested.auth = ground (arith, e) in
    let i : c.hs.integrity_alg ≡ c.requested.integrity = ground (arith, e) in
    let k : c.crypt_alg ≡ c.requested.crypt = ground (arith, e) in
    ap₂ (λ (x y : ℕ). record { auth = x; integrity = y; crypt = c.crypt_alg }) a i
    ∙ ap
        (λ (x : ℕ). record {
          auth = c.requested.auth;
          integrity = c.requested.integrity;
          crypt = x;
        })
        k

on_open_response_lem :
    {Net : Type 0} (id : ℕ) (c : Opening) (answer : Option (List ℕ) × Net)
    → Idle c
    → get_requested_ciphers id ≡ some c.requested
    → Idle (on_open_response c answer).session
      × When (on_open_response c answer).rc (Agreed id (on_open_response c answer).session)
unfolding on_open_response opened_with
on_open_response_lem id c (none, net) idle suite = (idle, tt)
on_open_response_lem id c (some rsp, net) idle suite = elim (Bool-cases (get_or rsp 1 0 == 0)) [
  | inl fine ↦ elim (Bool-cases (agreed (opened_with rsp c))) [
    | inl same ↦
        rw (fine, same, on_open_response)
          (
            refl,
            suite ∙ ap (λ (a : Algorithms). some a) (sym (agreed_lem (opened_with rsp c) same)),
          )
    | inr other ↦ rw (fine, other, on_open_response) (refl, tt)
  ]
  | inr bad ↦ rw (bad, on_open_response) (idle, tt)
]

-- No session becomes active when it is opened, and the algorithms are those of the suite.
pub open_session_lem :
    {Net : Type 0} (line : Line Net) (id : ℕ) (c : Opening) (net : Net)
    → Idle c
    → Idle (open_session line id c net).session
      × When (open_session line id c net).rc (Agreed id (open_session line id c net).session)
unfolding open_session
open_session_lem line id c net idle = elim (Option-cases (get_requested_ciphers id)) [
  | inl without ↦ rw (without, open_session) (idle, tt)
  | inr (a, suite) ↦
      let c' : Opening = record c { hs = record c.hs { console_id = 0xA0A2A3A4 }; requested = a } in
      let sent = line.send net 0x10 (open_request c') in
      let step : open_session line id c net ≡ on_open_response c' sent =
        rw (suite, open_session) refl in
      subst⁻¹ (λ o. Idle o.session × When o.rc (Agreed id o.session)) step
        (on_open_response_lem id c' sent idle suite)
]

module _ {Net : Type 0} (ssl : OpenSsl) (line : Line Net) (id : ℕ) where
  -- What holds behind RAKP 2.
  abbrev pub Checked : Opening → Type 0
  Checked c = Agreed id c × Rakp2Matches ssl line c

  abbrev pub StillFine : Outcome Net → Type 0
  StillFine o = Idle o.session × When o.rc (Checked o.session)

  judge_rakp2_lem :
      (m : Match) (c : Opening) (net : Net)
      → Idle c
      → Agreed id c
      → (m ≡ matches → Rakp2Matches ssl line c)
      → StillFine (judge_rakp2 ssl m c net)
  unfolding judge_rakp2 rakp2_code
  judge_rakp2_lem matches c net idle suite found = (idle, (suite, found refl))
  judge_rakp2_lem differs c net idle suite found = (idle, tt)
  judge_rakp2_lem match_assert c net idle suite found = (idle, tt)

  -- A response of a type that came from the line.
  abbrev Came : ℕ → List ℕ → Type 0
  Came type rsp = (net : Net) × (message : List ℕ) × ((line.send net type message).0 ≡ some rsp)

  on_rakp2_lem :
      (c : Opening) (answer : Option (List ℕ)) (net : Net)
      → Idle c
      → Agreed id c
      → ((rsp : List ℕ) → answer ≡ some rsp → Came 0x12 rsp)
      → StillFine (on_rakp2 ssl c (answer, net))
  unfolding on_rakp2 with_bmc rakp2_code
  on_rakp2_lem c none net idle suite came = (idle, tt)
  on_rakp2_lem c (some rsp) net idle suite came =
      let here = came rsp refl in
      let c' = with_bmc rsp c in
      let m = rakp2_hmac_matches ssl c'.hs true (rakp2_code c rsp) in
      let judged =
        judge_rakp2_lem m c' net refl suite
          (λ e. (here.0, here.1, rsp, here.2, rakp2_shown ssl c'.hs (rakp2_code c rsp) e)) in
      elim (Bool-cases (readable c.hs.auth_alg)) [
        | inl known ↦ elim (Bool-cases (get_or rsp 1 0 == 0)) [
          | inl fine ↦
              let step : on_rakp2 ssl c (some rsp, net) ≡ judge_rakp2 ssl m c' net =
                rw (known, fine, on_rakp2) refl in
              subst⁻¹ StillFine step judged
          | inr bad ↦ rw (known, bad, on_rakp2) (refl, tt)
        ]
        | inr unknown ↦ rw (unknown, on_rakp2) (idle, tt)
      ]

  -- Behind `ipmi_lanplus_rakp1`, the session is not active, and without an error the other end has
  -- shown the code of RAKP 2.
  pub rakp1_lem :
      (lookupbit : ℕ) (c : Opening) (net : Net)
      → Idle c
      → Agreed id c
      → StillFine (rakp1 ssl line lookupbit c net)
  unfolding rakp1
  rakp1_lem lookupbit c net idle suite = elim (Option-cases (line.rand net).0) [
    | inl without ↦ rw (without, rakp1) (idle, tt)
    | inr (bytes, random) ↦
        let net' = (line.rand net).1 in
        let c' : Opening = record c {
          hs = record c.hs { console_rand = bytes; requested_role = bit_or c.hs.privlvl lookupbit };
        } in
        let message = rakp1_message c' in
        let sent = line.send net' 0x12 message in
        elim (Bool-cases (ltb 16 (u8 (length c.hs.username)))) [
          | inl long ↦
              let step : rakp1 ssl line lookupbit c net ≡ ends rc_error c' net' =
                rw (random, long, rakp1) refl in
              subst⁻¹ StillFine step (idle, tt)
          | inr fits ↦
              let step : rakp1 ssl line lookupbit c net ≡ on_rakp2 ssl c' sent =
                rw (random, fits, rakp1) refl in
              subst⁻¹ StillFine step
                (on_rakp2_lem c' sent.0 sent.1 idle suite (λ rsp e. (net', message, e)))
        ]
  ]
