-- ===== src/Serial/ResponseLaws.antt =====
-- `serial_bm_wait_response` against an independent description of an IPMB response.
use mathlib.Core.Path.{subst}
use ipmitool.Common.{
  ◌↔◌, ◌≢◌, ◌≢◌, ◌-◌, take, ltb-false, length, ◌≤◌, some, length-append, take-append, sym, ◌∙◌, suc,
  zero, All, ap, ℕ, ◌+◌, ◌*◌, ◌<◌, ◌≡◌, refl, List, [], ◌∷◌, ◌++◌, ◌==◌, bit_and, bit_or, true,
  arith, set_four, clear_low_two, keep_low_two, bit_or_lun, total-append, sym,
}
use ipmitool.Checksum.{ipmi_csum-total, ipmi_csum, ipmi_csum_zero, total-ipmi_csum}
use ipmitool.Serial.Message.{RequestCtx}
use ipmitool.Serial.Response.{check_response, response_net_fn, response_rq_seq, is_waited}

-- A request header of bytes, whose network function is a request's (even): `netfn` is half of it.
pub record IsRequest (ctx : RequestCtx) (netfn rs_lun seq rq_lun : ℕ) : Type 0 where
  pub net_fn_is : ctx.net_fn ≡ netfn * 8 + rs_lun
  pub rq_seq_is : ctx.rq_seq ≡ seq * 4 + rq_lun
  pub netfn_lt : netfn < 32
  pub rs_lun_lt : rs_lun < 4
  pub seq_lt : seq < 64
  pub rq_lun_lt : rq_lun < 4

response_net_fn_lem :
    {ctx : RequestCtx} {netfn rs_lun seq rq_lun : ℕ}
    → IsRequest ctx netfn rs_lun seq rq_lun
    → response_net_fn ctx ≡ netfn * 8 + 4 + rq_lun
unfolding response_net_fn
response_net_fn_lem {ctx} {netfn} {rs_lun} {seq} {rq_lun} r =
    let e1 : bit_and (bit_or ctx.net_fn 4) 0xFC ≡ (netfn * 2 + 1) * 4 =
      omega (arith, set_four ctx.net_fn (omega arith)) in
    let e2 : bit_and ctx.rq_seq 3 ≡ rq_lun = omega (arith, keep_low_two ctx.rq_seq (omega arith)) in
    rw (e1, e2) (omega (arith, bit_or_lun (netfn * 2 + 1) rq_lun (omega arith) (omega arith)))

response_rq_seq_lem :
    {ctx : RequestCtx} {netfn rs_lun seq rq_lun : ℕ}
    → IsRequest ctx netfn rs_lun seq rq_lun
    → response_rq_seq ctx ≡ seq * 4 + rs_lun
unfolding response_rq_seq
response_rq_seq_lem {ctx} {netfn} {rs_lun} {seq} {rq_lun} r =
    let e1 : bit_and ctx.rq_seq 0xFC ≡ seq * 4 =
      omega (arith, clear_low_two ctx.rq_seq (omega arith)) in
    let e2 : bit_and ctx.net_fn 3 ≡ rs_lun = omega (arith, keep_low_two ctx.net_fn (omega arith)) in
    rw (e1, e2) (bit_or_lun seq rs_lun r.seq_lt r.rs_lun_lt)

-- The response that the IPMB specification describes: the requester's address, the response's
-- network function with the requester's LUN, the checksum, then the responder's address, the
-- sequence number with the responder's LUN, the command, `body` and the second checksum.
abbrev pub ipmb_response : RequestCtx → ℕ → ℕ → ℕ → ℕ → List ℕ → List ℕ
ipmb_response ctx netfn rs_lun seq rq_lun body =
    let head = ctx.rq_sa ∷ (netfn * 8 + 4 + rq_lun) ∷ [] in
    let tail = ctx.rs_sa ∷ (seq * 4 + rs_lun) ∷ ctx.cmd ∷ body in
    head ++ ipmi_csum head ∷ (tail ++ ipmi_csum tail ∷ [])

csum_appended : (d : List ℕ) → ipmi_csum (d ++ ipmi_csum d ∷ []) ≡ 0
csum_appended d =
    ipmi_csum_zero _ (omega (arith, total-append d (ipmi_csum d ∷ []), total-ipmi_csum d))

==_self : (a b : ℕ) → a ≡ b → (a == b) ≡ true
==_self a b h = ground arith

module _ {ctx : RequestCtx} {netfn rs_lun seq rq_lun : ℕ}
    (r : IsRequest ctx netfn rs_lun seq rq_lun) where
  ipmb_response-is_waited :
      (body : List ℕ) → is_waited ctx (ipmb_response ctx netfn rs_lun seq rq_lun body) ≡ true
  unfolding is_waited
  ipmb_response-is_waited body =
      rw
        (
          ==_self (netfn * 8 + 4 + rq_lun) (response_net_fn ctx) (sym (response_net_fn_lem r)),
          ==_self (seq * 4 + rs_lun) (response_rq_seq ctx) (sym (response_rq_seq_lem r)),
          ==_self ctx.rq_sa ctx.rq_sa refl,
          ==_self ctx.rs_sa ctx.rs_sa refl,
          ==_self ctx.cmd ctx.cmd refl,
        )
        refl

csum_unique : (d : List ℕ) (x : ℕ) → x < 256 → ipmi_csum (d ++ x ∷ []) ≡ 0 → x ≡ ipmi_csum d
csum_unique d x h e =
    omega (arith, total-append d (x ∷ []), ipmi_csum-total d, ipmi_csum-total (d ++ x ∷ []))

split_last : (n : ℕ) (xs : List ℕ) → length xs ≡ suc n → (x : ℕ) × (xs ≡ take n xs ++ x ∷ [])
split_last n [] h = absurd (omega arith)
split_last zero (x ∷ []) h = (x, refl)
split_last zero (x ∷ y ∷ xs) h = absurd (omega arith)
split_last (suc n) (x ∷ xs) h =
    let (y, e) = split_last n xs (omega arith) in (y, ap (λ (t : List ℕ). x ∷ t) e)

last_byte : (xs : List ℕ) (x : ℕ) → All (λ b. b < 256) (xs ++ x ∷ []) → x < 256
last_byte [] x h = h.0
last_byte (y ∷ xs) x h = last_byte xs x h.1

-- What the tests of `check_response` say of a message of six header bytes and more.
record Accepted (ctx : RequestCtx) (m0 m1 m2 m3 m4 m5 : ℕ) (rest body : List ℕ) : Type 0 where
  pub m0_is : m0 ≡ ctx.rq_sa
  pub m1_is : m1 ≡ response_net_fn ctx
  pub m3_is : m3 ≡ ctx.rs_sa
  pub m4_is : m4 ≡ response_rq_seq ctx
  pub m5_is : m5 ≡ ctx.cmd
  pub long : 2 ≤ length rest
  pub csum_head : ipmi_csum (m0 ∷ m1 ∷ m2 ∷ []) ≡ 0
  pub csum_tail : ipmi_csum (m3 ∷ m4 ∷ m5 ∷ rest) ≡ 0
  pub body_is : take (length rest - 1) rest ≡ body

check_response-Accepted :
    (ctx : RequestCtx) (m0 m1 m2 m3 m4 m5 : ℕ) (rest body : List ℕ)
    → check_response ctx (m0 ∷ m1 ∷ m2 ∷ m3 ∷ m4 ∷ m5 ∷ rest) ≡ some body
    → Accepted ctx m0 m1 m2 m3 m4 m5 rest body
unfolding check_response is_waited
check_response-Accepted ctx m0 m1 m2 m3 m4 m5 rest body h =
    let kept : take (length (m0 ∷ m1 ∷ m2 ∷ m3 ∷ m4 ∷ m5 ∷ rest) - 7) rest ≡ body = ground arith in
    record {
      m0_is = ground arith;
      m1_is = ground arith;
      m3_is = ground arith;
      m4_is = ground arith;
      m5_is = ground arith;
      long = ground arith;
      csum_head = ground arith;
      csum_tail = ground arith;
      body_is = ap (λ (n : ℕ). take n rest) (omega arith) ∙ kept;
    }

check_response-short :
    (ctx : RequestCtx) (msg body : List ℕ) → length msg < 8 → check_response ctx msg ≢ some body
unfolding check_response
check_response-short ctx msg body h e = ground arith

module _ {ctx : RequestCtx} {netfn rs_lun seq rq_lun : ℕ}
    (r : IsRequest ctx netfn rs_lun seq rq_lun) where
  ipmb_response-check_response :
      (body : List ℕ)
      → 1 ≤ length body
      → check_response ctx (ipmb_response ctx netfn rs_lun seq rq_lun body) ≡ some body
  unfolding check_response
  ipmb_response-check_response body long =
      let head = ctx.rq_sa ∷ (netfn * 8 + 4 + rq_lun) ∷ [] in
      let tail = ctx.rs_sa ∷ (seq * 4 + rs_lun) ∷ ctx.cmd ∷ body in
      let c = ipmi_csum tail in
      let size = length-append body (c ∷ []) in
      rw
        (
          ltb-false (length (ipmb_response ctx netfn rs_lun seq rq_lun body)) 8
              (omega (arith, size)),
          csum_appended head,
          csum_appended tail,
          ipmb_response-is_waited r body,
        )
        (ap some (
          ap (λ (n : ℕ). take n (body ++ c ∷ [])) (omega (arith, size))
          ∙ take-append body (c ∷ [])))

  Accepted-ipmb_response :
      (m0 m1 m2 m3 m4 m5 : ℕ) (rest body : List ℕ)
      → All (λ b. b < 256) (m0 ∷ m1 ∷ m2 ∷ m3 ∷ m4 ∷ m5 ∷ rest)
      → Accepted ctx m0 m1 m2 m3 m4 m5 rest body
      → m0 ∷ m1 ∷ m2 ∷ m3 ∷ m4 ∷ m5 ∷ rest ≡ ipmb_response ctx netfn rs_lun seq rq_lun body
  Accepted-ipmb_response m0 m1 m2 m3 m4 m5 rest body small a =
      let (c, e) = split_last (length rest - 1) rest (omega arith) in
      let whole : rest ≡ body ++ c ∷ [] = e ∙ ap (λ (t : List ℕ). t ++ c ∷ []) a.body_is in
      let bytes : All (λ b. b < 256) (body ++ c ∷ []) =
        subst (λ (t : List ℕ). All (λ b. b < 256) t) whole small.1.1.1.1.1.1 in
      let e2 = csum_unique (m0 ∷ m1 ∷ []) m2 small.1.1.0 a.csum_head in
      let e3 =
        csum_unique (m3 ∷ m4 ∷ m5 ∷ body) c (last_byte body c bytes)
          (subst (λ (t : List ℕ). ipmi_csum (m3 ∷ m4 ∷ m5 ∷ t) ≡ 0) whole a.csum_tail) in
      cc (whole, e2, e3, response_net_fn_lem r, response_rq_seq_lem r)

  -- Of byte messages, the one that is accepted for a request, with completion code and data `body`,
  -- is exactly the IPMB response to that request with `body`, provided that there is at least a
  -- completion code: every such response is accepted, and nothing else is.
  pub check_response_exact :
      (msg body : List ℕ)
      → All (λ b. b < 256) msg
      → 1 ≤ length body
      → (check_response ctx msg ≡ some body)
        ↔ (msg ≡ ipmb_response ctx netfn rs_lun seq rq_lun body)
  check_response_exact msg body small long =
      ((λ h. accepted msg small h), (λ e. rw e (ipmb_response-check_response body long)))
    where
      accepted :
          (msg : List ℕ)
          → All (λ b. b < 256) msg
          → check_response ctx msg ≡ some body
          → msg ≡ ipmb_response ctx netfn rs_lun seq rq_lun body
      accepted (m0 ∷ m1 ∷ m2 ∷ m3 ∷ m4 ∷ m5 ∷ rest) small h =
          Accepted-ipmb_response m0 m1 m2 m3 m4 m5 rest body small
            (check_response-Accepted ctx m0 m1 m2 m3 m4 m5 rest body h)
      accepted msg small h = absurd (check_response-short ctx msg body (omega arith) h)
