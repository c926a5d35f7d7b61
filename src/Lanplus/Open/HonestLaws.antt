-- ===== src/Lanplus/Open/HonestLaws.antt =====
-- src/plugins/lanplus/lanplus.c: the exchange with a controller that knows the user's key.
use mathlib.Core.Path.{subst⁻¹}
use ipmitool.Common.{
  sym, ℕ, suc, ◌≤◌, ◌≡◌, refl, ap, ◌∙◌, ltb-false, List, [], ◌++◌, Option, some, true, false, ◌==◌,
  ltb, get_or, length, take, u8, bit_or, arith,
}
use ipmitool.Lanplus.Crypto.{OpenSsl, Hash}
use ipmitool.Lanplus.Session.{is_active, presession, active}
use ipmitool.Lanplus.Ciphers.{Algorithms, get_requested_ciphers}
use ipmitool.Lanplus.Rakp.{
  Match, matches, key_is, rakp2_hmac_matches, rakp4_hmac_matches, rakp2_input, rakp3_input,
  rakp4_input, generate_sik, generate_k1, generate_k2,
}
use ipmitool.Lanplus.Rakp.Keys.{AuthHash, session_keys-length}
use ipmitool.Lanplus.Open.{
  is_rakp_2_received, Opening, Line, rc_success, Outcome, agreed, opened_with, open_request,
  on_open_response, open_session, with_bmc, rakp2_code, rakp4_code, rakp4_code_size, rakp1_message,
  judge_rakp2, on_rakp2, rakp1, with_key, judge_rakp4, on_rakp4, rakp3_head, rakp3_keyed, rakp3,
}
use ipmitool.Lanplus.Open.Sequence.{opened, then_next, rounds}
use ipmitool.Lanplus.Open.Honest.{
  sik_of, rakp4_matches_lem, rakp2_matches_lem, authcode_made, readable_lem, Knows, Shares,
  same_sik,
}

-- What holds behind each message: the algorithm with its hash, and the options that stay.
record Live (hash : Hash) (key kg : List ℕ) (c : Opening) : Type 0 where
  hashes : AuthHash c.hs.auth_alg hash
  plain : c.hs.intelplus ≡ false
  short : length c.hs.username ≤ 16
  shares : Shares key kg c.hs

-- The outcome of a message that succeeds in the state `state`.
abbrev Succeeds : {Net : Type 0} → Outcome Net → (Opening → Net → Type 0) → Type 0
Succeeds {Net = Net} o P =
    (c : Opening) × (net : Net) × (o ≡ record { rc = rc_success; session = c; net = net }) × P c net

module _ {Net : Type 0} (ssl : OpenSsl) (line : Line Net) (hash : Hash) (key kg : List ℕ)
    (k : Knows ssl line hash key kg) where
  on_open-answered :
      (c : Opening) (answer : Option (List ℕ)) (net : Net) (rsp : List ℕ)
      → answer ≡ some rsp
      → (get_or rsp 1 0 == 0) ≡ true
      → agreed (opened_with rsp c) ≡ true
      → on_open_response c (answer, net)
        ≡ record { rc = rc_success; session = opened_with rsp c; net = net }
  unfolding on_open_response
  on_open-answered c answer net rsp e fine same =
      ap (λ (x : Option (List ℕ)). on_open_response c (x, net)) e
      ∙ rw (fine, same, on_open_response) refl

  open-answered :
      (id : ℕ) (a : Algorithms) (c : Opening) (net : Net)
      → get_requested_ciphers id ≡ some a
      → AuthHash a.auth hash
      → c.hs.intelplus ≡ false
      → length c.hs.username ≤ 16
      → c.hs.authcode ≡ key
      → c.hs.kg ≡ kg
      → c.hs.i82571spt ≡ false
      → Succeeds
          (open_session line id c net)
          (λ c'. λ net'. Live hash key kg c' × k.Greeted net' c'.hs)
  unfolding open_session opened_with agreed
  open-answered id a c net suite which plain short same_key same_kg no_option =
      let c' : Opening = record c { hs = record c.hs { console_id = 0xA0A2A3A4 }; requested = a } in
      let rsp = k.open_rsp net c' in
      let sent = line.send net 0x10 (open_request c') in
      let same : get_or rsp 16 0 ≡ a.auth = ground (arith, k.agrees net c') in
      (
        opened_with rsp c',
        sent.1,
        rw (suite, open_session)
            (on_open-answered c' sent.0 sent.1 rsp (k.opens net c') (k.open_fine net c')
              (k.agrees net c')),
        (
          record {
            hashes = subst⁻¹ (λ (x : ℕ). AuthHash x hash) same which;
            plain = plain;
            short = short;
            shares = record {
              has_key = same_key;
              has_kg = same_kg;
              has_console = refl;
              has_no_option = no_option;
            };
          },
          k.greets net c',
        ),
      )

  -- Ready for RAKP 3.
  abbrev Ready : Opening → Net → Type 0
  Ready c net =
      Live hash key kg c
      × k.Holds net c.hs
      × (is_rakp_2_received c.state ≡ true)
      × ((c.rakp2_return_code == 0) ≡ true)

  on_rakp2-answered :
      (c : Opening) (answer : Option (List ℕ)) (net : Net) (rsp : List ℕ)
      → Live hash key kg c
      → answer ≡ some rsp
      → (get_or rsp 1 0 == 0) ≡ true
      → rakp2_code c rsp ≡ ssl.hmac hash key (rakp2_input (with_bmc rsp c).hs)
      → k.Holds net (with_bmc rsp c).hs
      → Succeeds (on_rakp2 ssl c (answer, net)) Ready
  unfolding on_rakp2 with_bmc judge_rakp2
  on_rakp2-answered c answer net rsp live e fine code held =
      let c' = with_bmc rsp c in
      let known = readable_lem c.hs.auth_alg hash live.hashes in
      let m = rakp2_matches_lem ssl c'.hs hash live.hashes in
      let judged : rakp2_hmac_matches ssl c'.hs true (rakp2_code c rsp) ≡ matches =
        ap (rakp2_hmac_matches ssl c'.hs true) (
          code ∙ ap (λ (x : List ℕ). ssl.hmac hash x (rakp2_input c'.hs)) (sym live.shares.has_key))
        ∙ m in
      (
        record c' { rakp2_return_code = 0 },
        net,
        ap (λ (x : Option (List ℕ)). on_rakp2 ssl c (x, net)) e
            ∙ rw (known, fine, on_rakp2) (ap (λ (x : Match). judge_rakp2 ssl x c' net) judged),
        (
          record {
            hashes = live.hashes;
            plain = live.plain;
            short = live.short;
            shares = record {
              has_key = live.shares.has_key;
              has_kg = live.shares.has_kg;
              has_console = live.shares.has_console;
              has_no_option = live.shares.has_no_option;
            };
          },
          held,
          refl,
          refl,
        ),
      )

  rakp1-answered :
      (lookupbit : ℕ) (c : Opening) (net : Net)
      → Live hash key kg c × k.Greeted net c.hs
      → Succeeds (rakp1 ssl line lookupbit c net) Ready
  unfolding rakp1
  rakp1-answered lookupbit c net (live, greeted) =
      let net' = (line.rand net).1 in
      let c' : Opening = record c {
        hs = record c.hs {
          console_rand = k.bytes net;
          requested_role = bit_or c.hs.privlvl lookupbit;
        };
      } in
      let live' : Live hash key kg c' = record {
        hashes = live.hashes;
        plain = live.plain;
        short = live.short;
        shares = record {
          has_key = live.shares.has_key;
          has_kg = live.shares.has_kg;
          has_console = live.shares.has_console;
          has_no_option = live.shares.has_no_option;
        };
      } in
      let met = k.still_greeted net c.hs c'.hs.requested_role greeted in
      let sent = line.send net' 0x12 (rakp1_message c') in
      let fits : ltb 16 (u8 (length c.hs.username)) ≡ false =
        ltb-false 16 (u8 (length c.hs.username)) (omega (arith, live.short)) in
      let done =
        on_rakp2-answered c' sent.0 sent.1 (k.rakp2_rsp net' c') live' (k.rakp2_comes net' c')
          (k.rakp2_fine net' c')
          (k.rakp2_code_is net' c' live.hashes live'.shares met (k.sixteen net))
          (k.holds net' c' live'.shares met (k.sixteen net)) in
      let step : rakp1 ssl line lookupbit c net ≡ on_rakp2 ssl c' sent =
        rw (k.random net, fits, rakp1) refl in
      (done.0, done.1, step ∙ done.2, done.3)

  on_rakp4-answered :
      (c : Opening) (answer : Option (List ℕ)) (net : Net) (rsp : List ℕ)
      → Live hash key kg c
      → answer ≡ some rsp
      → (get_or rsp 1 0 == 0) ≡ true
      → rakp4_code c rsp
        ≡ take (rakp4_code_size c.hs.auth_alg) (ssl.hmac hash c.sik (rakp4_input c.hs))
      → Succeeds
          (on_rakp4 ssl c (answer, net))
          (λ c'. λ net'. (is_active c'.state ≡ true) × (c'.hs ≡ c.hs) × (c'.sik ≡ c.sik))
  unfolding on_rakp4 judge_rakp4
  on_rakp4-answered c answer net rsp live e fine code =
      let known = readable_lem c.hs.auth_alg hash live.hashes in
      let judged : rakp4_hmac_matches ssl c.hs c.sik true (rakp4_code c rsp) ≡ matches =
        ap (rakp4_hmac_matches ssl c.hs c.sik true) code
        ∙ rakp4_matches_lem ssl c.hs hash c.sik live.hashes live.plain in
      (
        record c { state = active },
        net,
        ap (λ (x : Option (List ℕ)). on_rakp4 ssl c (x, net)) e
            ∙ rw (known, fine, on_rakp4) (ap (λ (x : Match). judge_rakp4 ssl x c net) judged),
        (refl, refl, refl),
      )

  keyed_lem :
      (c : Opening) (net : Net) (code sik k1 k2 : List ℕ)
      → generate_sik ssl c.hs true ≡ key_is sik
      → generate_k1 ssl c.hs.auth_alg sik ≡ key_is k1
      → generate_k2 ssl c.hs.auth_alg sik ≡ key_is k2
      → rakp3_keyed ssl line c net code
        ≡ on_rakp4 ssl
            (record c { sik = sik; k1 = k1; k2 = k2 })
            (line.send net 0x14 (rakp3_head c ++ code))
  unfolding rakp3_keyed with_key
  keyed_lem c net code sik k1 k2 e1 e2 e3 =
      rw (e1, rakp3_keyed, with_key) (rw (e2, with_key) (rw (e3, with_key) refl))

  rakp3-answered :
      (c : Opening) (net : Net)
      → Ready c net
      → Succeeds
          (rakp3 ssl line c net)
          (λ c'. λ net'. (is_active c'.state ≡ true) × (c'.sik ≡ sik_of ssl hash c'.hs))
  unfolding rakp3 with_key rakp4_code
  rakp3-answered c net (live, held, received, fine) =
      let keys = session_keys-length ssl c.hs hash live.hashes in
      let code = ssl.hmac hash c.hs.authcode (rakp3_input c.hs) in
      let c3 : Opening = record c { sik = keys.0; k1 = keys.1; k2 = keys.2 } in
      let live3 : Live hash key kg c3 = record {
        hashes = live.hashes;
        plain = live.plain;
        short = live.short;
        shares = record {
          has_key = live.shares.has_key;
          has_kg = live.shares.has_kg;
          has_console = live.shares.has_console;
          has_no_option = live.shares.has_no_option;
        };
      } in
      let same = same_sik ssl c.hs hash keys.0 live.hashes keys.3 in
      let coded =
        k.rakp4_code_is net c3 code live.hashes live3.shares held
        ∙ ap
            (λ (x : List ℕ).
              take (rakp4_code_size c.hs.auth_alg) (ssl.hmac hash x (rakp4_input c.hs)))
            (sym same) in
      let sent = line.send net 0x14 (rakp3_head c3 ++ code) in
      let done =
        on_rakp4-answered c3 sent.0 sent.1 (k.rakp4_rsp net c3 code) live3
          (k.rakp4_comes net c3 code) (k.rakp4_fine net c3 code) coded in
      let first : rakp3 ssl line c net ≡ rakp3_keyed ssl line c net code =
        rw (received, fine, rakp3)
          (ap (λ r. with_key ssl [] r c net (rakp3_keyed ssl line c net))
            (authcode_made ssl c.hs hash live.hashes)) in
      let second : rakp3_keyed ssl line c net code ≡ on_rakp4 ssl c3 sent =
        keyed_lem c net code keys.0 keys.1 keys.2 keys.3 keys.4 keys.5 in
      (
        done.0,
        done.1,
        first ∙ second ∙ done.2,
        (done.3.0, done.3.2 ∙ same ∙ ap (sik_of ssl hash) (sym done.3.1)),
      )

  -- With a controller that answers every message, agrees to the algorithms, knows the user's key
  -- and the key of the controller, and computes its codes under them from the messages that it
  -- got, the first round opens the session, and it is active with the integrity key that the
  -- controller makes of its keys and the handshake. The console has the same keys, the user name
  -- has up to 16 characters, the cipher suite has a supported authentication algorithm, and there
  -- is no OEM option that pads the name or takes the integrity algorithm for the authentication.
  pub rounds-opened :
      (id lookupbit retry : ℕ) (a : Algorithms) (c : Opening) (net : Net)
      → get_requested_ciphers id ≡ some a
      → AuthHash a.auth hash
      → c.hs.intelplus ≡ false
      → length c.hs.username ≤ 16
      → c.hs.authcode ≡ key
      → c.hs.kg ≡ kg
      → c.hs.i82571spt ≡ false
      → (c' : Opening) × (net' : Net) × (rounds ssl line id lookupbit (suc retry) c net
          ≡ opened c' net')
        × (is_active c'.state ≡ true)
        × (c'.sik ≡ sik_of ssl hash c'.hs)
  unfolding rounds then_next
  rounds-opened id lookupbit retry a c net suite which plain short same_key same_kg no_option =
      let again = rounds ssl line id lookupbit retry in
      let one =
        open-answered id a (record c { state = presession }) net suite which plain short same_key
          same_kg no_option in
      let two = rakp1-answered lookupbit one.0 one.1 one.3 in
      let three = rakp3-answered two.0 two.1 two.3 in
      (
        three.0,
        three.1,
        ap
              (λ o.
                then_next o
                  (λ c1 net1.
                    then_next (rakp1 ssl line lookupbit c1 net1)
                      (λ c2 net2. then_next (rakp3 ssl line c2 net2) opened again) again)
                  again)
              one.2
            ∙ ap
                (λ o.
                  then_next o (λ c2 net2. then_next (rakp3 ssl line c2 net2) opened again) again)
                two.2
            ∙ ap (λ o. then_next o opened again) three.2,
        three.3.0,
        three.3.1,
      )
