-- ===== src/Tests/Controller.antt =====
-- A controller that knows a key, and computes the codes of its messages from what it has heard.
use ipmitool.Common.{
  ◌+◌, ◌*◌, ◌%◌, if◌then◌else◌, get_or, ℕ, zero, suc, ◌≡◌, refl, ap, sym, ◌∙◌, inl, inr, List, [],
  ◌∷◌, ◌++◌, some, true, false, ◌==◌, length, take, drop, take_middle, drop_middle, arith,
}
use ipmitool.Lanplus.Crypto.{OpenSsl, sha1, digest_length}
use ipmitool.Lanplus.Session.{le32}
use ipmitool.Lanplus.Rakp.{Handshake, name_bytes, rakp2_input, rakp4_input, sik_input}
use ipmitool.Lanplus.Rakp.Keys.{AuthHash}
use ipmitool.Lanplus.Open.{
  rakp2_code_size, rakp4_code_size, bytes_at, padding, open_request, Opening, Line, agreed,
  opened_with, rakp2_code, rakp4_code, rakp1_message, with_bmc,
}
use ipmitool.Lanplus.Open.Honest.{Knows, Shares, sik_of}

-- A digest that depends on every byte of the key and of the data.
abbrev filled : ℕ → ℕ → List ℕ
filled zero x = []
filled (suc n) x = x ∷ filled n x

pub length-filled : (n x : ℕ) → length (filled n x) ≡ n
length-filled zero x = refl
length-filled (suc n) x = ap suc (length-filled n x)

abbrev weigh : ℕ → List ℕ → ℕ
weigh acc [] = acc
weigh acc (x ∷ xs) = weigh ((acc * 31 + x) % 256) xs

abbrev pub keyed_ssl : OpenSsl
keyed_ssl = record {
  hmac = λ h key d. filled (digest_length h) (weigh (weigh 7 key) d);
  hmac_length = λ h key d. length-filled (digest_length h) (weigh (weigh 7 key) d);
  aes_encrypt = λ iv key d. d;
  aes_decrypt = λ iv key d. d;
  encrypt_length = λ iv key d e. refl;
  decrypt_encrypt = λ iv key d e. refl;
}

-- The answer to the request to open a session with its algorithms.
abbrev pub agreement : List ℕ → List ℕ
agreement message =
    0
    ∷ 0
    ∷ 4
    ∷ 0
    ∷ 0xA4
    ∷ 0xA3
    ∷ 0xA2
    ∷ 0xA0
    ∷ 1
    ∷ 0
    ∷ 0
    ∷ 0
    ∷ 0
    ∷ 0
    ∷ 0
    ∷ 8
    ∷ get_or message 12 0
    ∷ 0
    ∷ 0
    ∷ 0
    ∷ 1
    ∷ 0
    ∷ 0
    ∷ 8
    ∷ get_or message 20 0
    ∷ 0
    ∷ 0
    ∷ 0
    ∷ 2
    ∷ 0
    ∷ 0
    ∷ 8
    ∷ get_or message 28 0
    ∷ 0
    ∷ 0
    ∷ 0
    ∷ []

abbrev pub own_key : List ℕ
own_key = 1 ∷ 2 ∷ 3 ∷ []

abbrev own_rand : List ℕ
own_rand = 9 ∷ 8 ∷ 7 ∷ 6 ∷ 5 ∷ 4 ∷ 3 ∷ 2 ∷ 1 ∷ 9 ∷ 8 ∷ 7 ∷ 6 ∷ 5 ∷ 4 ∷ 3 ∷ []

abbrev own_guid : List ℕ
own_guid = 1 ∷ 1 ∷ 2 ∷ 2 ∷ 3 ∷ 3 ∷ 4 ∷ 4 ∷ 5 ∷ 5 ∷ 6 ∷ 6 ∷ 7 ∷ 7 ∷ 8 ∷ 8 ∷ []

-- What the controller keeps of a RAKP 1 message.
pub record Memory : Type 0 where
  heard_rand : List ℕ
  heard_role : ℕ
  heard_name : List ℕ

abbrev pub nothing : Memory
nothing = record { heard_rand = []; heard_role = 0; heard_name = [] }

abbrev heard : List ℕ → Memory
heard message =
    let rest = drop 8 message in
    record {
      heard_rand = take 16 rest;
      heard_role = get_or (drop 16 rest) 0 0;
      heard_name = drop 3 (drop 16 rest);
    }

abbrev memory_of : Handshake → Memory
memory_of h = record {
  heard_rand = h.console_rand;
  heard_role = h.requested_role;
  heard_name = name_bytes h;
}

abbrev zeros : List ℕ → List ℕ
zeros rest = 0 ∷ 0 ∷ 0 ∷ 0 ∷ 0 ∷ 0 ∷ 0 ∷ 0 ∷ rest

-- The codes of the controller, and its RAKP 2 and RAKP 4 messages.
abbrev code_2 : Memory → List ℕ
code_2 m = keyed_ssl.hmac sha1 own_key (
    le32 0xA0A2A3A4
    ++ (le32 1 ++ (m.heard_rand ++ (own_rand ++ (own_guid ++ m.heard_role ∷ m.heard_name)))))

abbrev answer_2 : Memory → List ℕ
answer_2 m = zeros (own_rand ++ (own_guid ++ code_2 m))

abbrev code_4 : Memory → List ℕ
code_4 m =
    keyed_ssl.hmac sha1
      (keyed_ssl.hmac sha1 own_key (m.heard_rand ++ (own_rand ++ m.heard_role ∷ m.heard_name)))
      (m.heard_rand ++ (le32 1 ++ own_guid))

abbrev answer_4 : Memory → List ℕ
answer_4 m = zeros (take 12 (code_4 m))

abbrev pub controller : Line Memory
controller = record {
  send = λ m type message.
      if type == 0x10
      then (some (agreement message), m)
      else if type == 0x12
      then (some (answer_2 (heard message)), heard message)
      else (some (answer_4 m), m);
  rand = λ m. (some (filled 16 5), m);
}

same_number : (n : ℕ) → (n == n) ≡ true
same_number n = ground arith

sha1_alg : (alg : ℕ) → AuthHash alg sha1 → alg ≡ 1
sha1_alg alg (inl (e, k)) = e
sha1_alg alg (inr (inl (e, k))) = absurd (omega (arith, ap digest_length k))
sha1_alg alg (inr (inr (e, k))) = absurd (omega (arith, ap digest_length k))

++-[] : (xs : List ℕ) → xs ++ [] ≡ xs
++-[] [] = refl
++-[] (x ∷ xs) = ap (λ (t : List ℕ). x ∷ t) (++-[] xs)

heard-rakp1_message :
    (c : Opening)
    → length c.hs.console_rand ≡ 16
    → c.hs.i82571spt ≡ false
    → heard (rakp1_message c) ≡ memory_of c.hs
unfolding rakp1_message padding
heard-rakp1_message c len no_option =
    let name = name_bytes c.hs in
    let rest : List ℕ = c.hs.requested_role ∷ 0 ∷ 0 ∷ (name ++ []) in
    rw no_option (
      rw
        (
          take_middle 16 c.hs.console_rand rest len,
          drop_middle 16 c.hs.console_rand rest len,
          ++-[] name,
        )
        refl)

abbrev Greets : Memory → Handshake → Type 0
Greets m h = h.bmc_id ≡ 1

abbrev Keeps : Memory → Handshake → Type 0
Keeps m h = (m ≡ memory_of h) × (h.bmc_id ≡ 1) × (h.bmc_rand ≡ own_rand) × (h.bmc_guid ≡ own_guid)

code_2-rakp2_input :
    (h : Handshake)
    → Shares own_key [] h
    → h.bmc_id ≡ 1
    → h.bmc_rand ≡ own_rand
    → h.bmc_guid ≡ own_guid
    → code_2 (memory_of h) ≡ keyed_ssl.hmac sha1 own_key (rakp2_input h)
unfolding rakp2_input
code_2-rakp2_input h shares id rand guid =
    rw (shares.has_console, shares.has_no_option, id, rand, guid) refl

code_4-rakp4_input :
    (h : Handshake)
    → Shares own_key [] h
    → h.bmc_id ≡ 1
    → h.bmc_rand ≡ own_rand
    → h.bmc_guid ≡ own_guid
    → code_4 (memory_of h) ≡ keyed_ssl.hmac sha1 (sik_of keyed_ssl sha1 h) (rakp4_input h)
unfolding rakp4_input sik_input
code_4-rakp4_input h shares id rand guid =
    rw (shares.has_key, shares.has_kg, shares.has_no_option, id, rand, guid) refl

pub controller-Knows : Knows keyed_ssl controller sha1 own_key []
unfolding agreed opened_with rakp2_code rakp4_code open_request bytes_at with_bmc
controller-Knows = record {
  Greeted = Greets;
  Holds = Keeps;
  open_rsp = λ m c. agreement (open_request c);
  opens = λ m c. refl;
  open_fine = λ m c. refl;
  agrees = λ m c.
      rw
        (
          same_number c.requested.auth,
          same_number c.requested.integrity,
          same_number c.requested.crypt,
        )
        refl;
  greets = λ m c. refl;
  bytes = λ m. filled 16 5;
  random = λ m. refl;
  sixteen = λ m. refl;
  still_greeted = λ m h role greeted. greeted;
  rakp2_rsp = λ m c. answer_2 (heard (rakp1_message c));
  rakp2_comes = λ m c. refl;
  rakp2_fine = λ m c. refl;
  rakp2_code_is = λ m c which shares greeted len.
      ap (λ (alg : ℕ). bytes_at (rakp2_code_size alg) 40 (answer_2 (heard (rakp1_message c))))
        (sha1_alg c.hs.auth_alg which)
      ∙ ap code_2 (heard-rakp1_message c len shares.has_no_option)
      ∙ code_2-rakp2_input (with_bmc (answer_2 (heard (rakp1_message c))) c).hs
          (record {
            has_key = shares.has_key;
            has_kg = shares.has_kg;
            has_console = shares.has_console;
            has_no_option = shares.has_no_option;
          })
          greeted refl refl;
  holds = λ m c shares greeted len.
      (heard-rakp1_message c len shares.has_no_option, greeted, refl, refl);
  rakp4_rsp = λ m c code. answer_4 m;
  rakp4_comes = λ m c code. refl;
  rakp4_fine = λ m c code. refl;
  rakp4_code_is = λ m c code which shares (same, id, rand, guid).
      let alg_1 = sha1_alg c.hs.auth_alg which in
      let mac = keyed_ssl.hmac sha1 (sik_of keyed_ssl sha1 c.hs) (rakp4_input c.hs) in
      ap (λ (alg : ℕ). bytes_at (rakp4_code_size alg) 8 (answer_4 m)) alg_1
      ∙ ap (take 12) (ap code_4 same ∙ code_4-rakp4_input c.hs shares id rand guid)
      ∙ ap (λ (alg : ℕ). take (rakp4_code_size alg) mac) (sym alg_1);
}
