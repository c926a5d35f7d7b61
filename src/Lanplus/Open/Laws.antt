-- ===== src/Lanplus/Open/Laws.antt =====
-- src/plugins/lanplus/lanplus.c: what each message of the exchange that opens a session proves of
-- the other end.
use mathlib.Core.Path.{subst, subst⁻¹}
use ipmitool.Common.{
  ℕ, ◌≡◌, refl, ◌⊎◌, inl, inr, Bool-cases, Option-cases, List, [], ◌++◌, Option, none, some, true,
  ◌==◌, if◌then◌else◌, get_or, length, take,
}
use ipmitool.Lanplus.Crypto.{OpenSsl, lanplus_hmac}
use ipmitool.Lanplus.Rakp.{
  Handshake, supported_auth, Match, matches, differs, match_assert, KeyResult, key_is, key_bytes,
  key_failed, key_assert, rakp4_hmac_matches, generate_rakp3_authcode, generate_sik, sik_input,
  generate_k1, generate_k2,
}
use ipmitool.Lanplus.Rakp.Shown.{rakp4_shown}
use ipmitool.Lanplus.Open.{
  is_rakp_2_received, Opening, Line, rc_success, rc_error, rc_assert, Outcome, readable, rakp2_code,
  rakp4_code, with_key, judge_rakp4, on_rakp4, rakp3_head, rakp3_keyed, rakp3, ends,
}
use ipmitool.Lanplus.Open.FirstLaws.{Idle, Authenticated, Checked}

-- The integrity key is made, not copied.
abbrev NotCopied : KeyResult → Type 0
NotCopied (key_bytes key) = ⊥
NotCopied _ = Unit

made_key :
    (r : KeyResult) (key : List ℕ)
    → NotCopied r
    → ((r ≡ key_is key) ⊎ ((copied : List ℕ) × (r ≡ key_bytes copied)))
    → r ≡ key_is key
made_key r key not_copied (inl e) = e
made_key r key not_copied (inr (copied, e)) = absurd (subst NotCopied e not_copied)

generate_sik-NotCopied : (ssl : OpenSsl) (h : Handshake) → NotCopied (generate_sik ssl h true)
unfolding generate_sik
generate_sik-NotCopied ssl h =
    let key = if get_or h.kg 0 0 == 0 then h.authcode else h.kg in
    elim (Bool-cases (h.auth_alg == 0)) [
      | inl without ↦ rw (without, generate_sik) tt
      | inr some_alg ↦ elim (Bool-cases (supported_auth h.auth_alg)) [
        | inl known ↦ elim (Option-cases (lanplus_hmac ssl h.auth_alg key (sik_input h))) [
          | inl no_mac ↦ rw (some_alg, known, no_mac, generate_sik) tt
          | inr mac ↦ rw (some_alg, known, mac.1, generate_sik) tt
        ]
        | inr unknown ↦ rw (some_alg, unknown, generate_sik) tt
      ]
    ]

module _ {Net : Type 0} (ssl : OpenSsl) (line : Line Net) (id : ℕ) where
  abbrev pub Final : Outcome Net → Type 0
  Final o = elim o.rc [ rc_success ↦ Authenticated ssl line id o.session | _ ↦ Idle o.session ]

  with_key-Final :
      (old : List ℕ) (r : KeyResult) (c : Opening) (net : Net) (go : List ℕ → Outcome Net)
      → Idle c
      → ((key : List ℕ)
          → ((r ≡ key_is key) ⊎ ((copied : List ℕ) × (r ≡ key_bytes copied)))
          → Final (go key))
      → Final (with_key ssl old r c net go)
  unfolding with_key
  with_key-Final old (key_is key) c net go idle h = h key (inl refl)
  with_key-Final old (key_bytes key) c net go idle h = h (take (length old) key) (inr (key, refl))
  with_key-Final old key_failed c net go idle h = idle
  with_key-Final old key_assert c net go idle h = idle

  judge_rakp4_lem :
      (m : Match) (c : Opening) (net : Net)
      → Idle c
      → (m ≡ matches → Authenticated ssl line id c)
      → Final (judge_rakp4 ssl m c net)
  unfolding judge_rakp4 rakp2_code rakp4_code
  judge_rakp4_lem matches c net idle found =
      let a = found refl in
      record { suite = a.suite; rakp2 = a.rakp2; keyed = a.keyed; rakp4 = a.rakp4 }
  judge_rakp4_lem differs c net idle found = idle
  judge_rakp4_lem match_assert c net idle found = idle

  on_rakp4_lem :
      (c : Opening) (answer : Option (List ℕ)) (net : Net)
      → Idle c
      → Checked ssl line id c
      → generate_sik ssl c.hs true ≡ key_is c.sik
      → ((rsp : List ℕ)
          → answer ≡ some rsp
          → (net : Net) × (message : List ℕ) × ((line.send net 0x14 message).0 ≡ some rsp))
      → Final (on_rakp4 ssl c (answer, net))
  unfolding on_rakp4
  on_rakp4_lem c none net idle checked keyed came = idle
  on_rakp4_lem c (some rsp) net idle checked keyed came =
      let here = came rsp refl in
      let m = rakp4_hmac_matches ssl c.hs c.sik true (rakp4_code c rsp) in
      let judged = judge_rakp4_lem m c net idle (λ e. record {
        suite = checked.0;
        rakp2 = checked.1;
        keyed = keyed;
        rakp4 = (here.0, here.1, rsp, here.2, rakp4_shown ssl c.hs c.sik (rakp4_code c rsp) e);
      }) in
      elim (Bool-cases (readable c.hs.auth_alg)) [
        | inl known ↦ elim (Bool-cases (get_or rsp 1 0 == 0)) [
          | inl fine ↦
              let step : on_rakp4 ssl c (some rsp, net) ≡ judge_rakp4 ssl m c net =
                rw (known, fine, on_rakp4) refl in
              subst⁻¹ Final step judged
          | inr bad ↦ rw (known, bad, on_rakp4) idle
        ]
        | inr unknown ↦ rw (unknown, on_rakp4) idle
      ]

  rakp3_keyed_lem :
      (c : Opening) (net : Net) (code : List ℕ)
      → Idle c
      → Checked ssl line id c
      → Final (rakp3_keyed ssl line c net code)
  unfolding rakp3_keyed rakp2_code
  rakp3_keyed_lem c net code idle checked =
      with_key-Final c.sik (generate_sik ssl c.hs true) c net _ idle (λ sik made.
        let c1 : Opening = record c { sik = sik } in
        with_key-Final c.k1 (generate_k1 ssl c.hs.auth_alg sik) c1 net _ idle (λ k1 made1.
          let c2 : Opening = record c1 { k1 = k1 } in
          with_key-Final c.k2 (generate_k2 ssl c.hs.auth_alg sik) c2 net _ idle (λ k2 made2.
            let c3 : Opening = record c2 { k2 = k2 } in
            let sent = line.send net 0x14 (rakp3_head c ++ code) in
            on_rakp4_lem c3 sent.0 sent.1 idle checked
              (made_key (generate_sik ssl c.hs true) sik (generate_sik-NotCopied ssl c.hs) made)
              (λ rsp e. (net, rakp3_head c ++ code, e)))))

  -- Behind `ipmi_lanplus_rakp3`, the session is active only if the other end has also shown the
  -- code of RAKP 4.
  pub rakp3_lem :
      (c : Opening) (net : Net) → Idle c → Checked ssl line id c → Final (rakp3 ssl line c net)
  unfolding rakp3
  rakp3_lem c net idle checked = elim (Bool-cases (is_rakp_2_received c.state)) [
    | inl received ↦ elim (Bool-cases (c.rakp2_return_code == 0)) [
      | inl fine ↦
          let code = generate_rakp3_authcode ssl c.hs true in
          let step : rakp3 ssl line c net
              ≡ with_key ssl [] code c net (rakp3_keyed ssl line c net) =
            rw (received, fine, rakp3) refl in
          subst⁻¹ Final step (
            with_key-Final [] code c net (rakp3_keyed ssl line c net) idle
              (λ key made. rakp3_keyed_lem c net key idle checked))
      | inr told ↦
          let step : rakp3 ssl line c net ≡ ends rc_error c (line.send net 0x14 (rakp3_head c)).1 =
            rw (received, told, rakp3) refl in
          subst⁻¹ Final step idle
    ]
    | inr early ↦
        let step : rakp3 ssl line c net ≡ ends rc_assert c net = rw (early, rakp3) refl in
        subst⁻¹ Final step idle
  ]
