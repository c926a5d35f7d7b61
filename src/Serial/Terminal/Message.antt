-- ===== src/Serial/Terminal/Message.antt =====
-- serial_terminal.c: `serial_term_build_msg`, the request behind the header of the terminal mode,
-- direct or wrapped in one or two Send Message requests, and `ipmi_serial_term_setup`. The Send
-- Message requests and their change for a system interface read as in serial_basic.c.
use ipmitool.Common.{
  ℕ, zero, suc, ◌+◌, ◌*◌, ◌≤◌, ◌<◌, ◌≡◌, refl, List, [], ◌∷◌, ◌++◌, Bool, Option, none, some, ◌==◌,
  ltb, if◌then◌else◌, length, u8, length-append, total-append, drop, arith, ltb-false,
}
use ipmitool.Checksum.{ipmi_csum, total-ipmi_csum, ipmi_csum_zero}
use ipmitool.Intf.{Intf, get_bridging_level, get_bridging_level_le}
use ipmitool.Serial.Message.{
  IpmbHdr, SendMessageRq, IpmiRq, hdr_tail, send_message_bytes, net_fn_lun, system_fixup, inner_rq,
  outer_rq,
}
use ipmitool.Serial.MessageLaws.{
  IsClosedHdr, IsClosed, system_fixup-IsClosedHdr, inner_rq-IsClosedHdr, outer_rq-IsClosedHdr,
}
use ipmitool.Serial.Terminal.{TermCtx}

-- `serial_term_alloc_seq`
unfoldable pub term_alloc_seq : ℕ → ℕ
term_alloc_seq seq = if u8 (seq + 1) == 64 then 0 else u8 (seq + 1)

-- `struct serial_term_hdr`
pub record TermHdr : Type 0 where
  pub net_fn : ℕ
  pub seq : ℕ
  pub cmd : ℕ

abbrev pub term_hdr_bytes : TermHdr → List ℕ
term_hdr_bytes h = h.net_fn ∷ h.seq ∷ h.cmd ∷ []

-- `ctx[0]`, whose address is not set, and `ctx[1]`.
abbrev pub first_ctx : TermHdr → TermCtx
first_ctx h = record { net_fn = h.net_fn; sa = 0; seq = h.seq; cmd = h.cmd }

abbrev pub second_ctx : IpmbHdr → TermCtx
second_ctx h = record { net_fn = h.net_fn; sa = h.rs_sa; seq = h.rq_seq; cmd = h.cmd }

pub record TermBuilt : Type 0 where
  pub level : ℕ
  pub msg : List ℕ
  pub ctx0 : TermCtx
  pub ctx1 : Option TermCtx
  pub seq : ℕ

-- One Send Message request, and two.
unfoldable pub term_bridged : TermHdr → SendMessageRq → List ℕ → List ℕ
term_bridged hdr inner bytes =
    term_hdr_bytes hdr
    ++ (send_message_bytes inner ++ (bytes ++ ipmi_csum (hdr_tail inner.msg ++ bytes) ∷ []))

unfoldable pub term_double_bridged : TermHdr → SendMessageRq → SendMessageRq → List ℕ → List ℕ
term_double_bridged hdr outer inner bytes =
    term_hdr_bytes hdr
    ++ (send_message_bytes outer
        ++ (send_message_bytes inner
            ++ (bytes
                ++ ipmi_csum (hdr_tail inner.msg ++ bytes)
                  ∷ ipmi_csum (hdr_tail outer.msg ++ inner.channel ∷ [])
                  ∷ [])))

unfoldable pub term_build_at : Bool → Intf → IpmiRq → ℕ → ℕ → TermBuilt
term_build_at is_system intf req counter level =
    let seq = u8 (counter * 4) in
    let send_message : TermHdr = record { net_fn = 0x18; seq = seq; cmd = 0x34 } in
    let direct : TermHdr = record { net_fn = net_fn_lun req; seq = seq; cmd = req.cmd } in
    let single = system_fixup is_system (inner_rq intf req seq) in
    let outer = system_fixup is_system (outer_rq intf seq) in
    if level == 0
    then record {
      level = level;
      msg = term_hdr_bytes direct ++ req.bytes;
      ctx0 = first_ctx direct;
      ctx1 = none;
      seq = counter;
    }
    else if level == 2
    then record {
      level = level;
      msg = term_double_bridged send_message outer (inner_rq intf req seq) req.bytes;
      ctx0 = first_ctx send_message;
      ctx1 = some (second_ctx outer.msg);
      seq = counter;
    }
    else record {
      level = level;
      msg = term_bridged send_message single req.bytes;
      ctx0 = first_ctx send_message;
      ctx1 = some (second_ctx single.msg);
      seq = counter;
    }

-- `none` is the -1 for a message that is too long.
unfoldable pub term_build_msg : Bool → Intf → IpmiRq → ℕ → ℕ → Option TermBuilt
term_build_msg is_system intf req max_len seq =
    let level = get_bridging_level intf in
    if ltb max_len (length req.bytes + 3 + level * 8)
    then none
    else some (term_build_at is_system intf req (term_alloc_seq seq) level)

unfoldable pub term_setup : Intf → Intf
term_setup intf = record intf { max_request_data_size = 37; max_response_data_size = 36 }

-- What stands behind the header, and in a Send Message request behind its channel.
abbrev Behind : ℕ → List ℕ → List ℕ → Type 0
Behind zero bytes msg = drop 3 msg ≡ bytes
Behind (suc level) bytes msg = IsClosed (drop 4 msg)

term_bridged-IsClosed :
    (hdr : TermHdr) (inner : SendMessageRq) (bytes : List ℕ)
    → IsClosedHdr inner.msg
    → IsClosed (drop 4 (term_bridged hdr inner bytes))
      × (length (term_bridged hdr inner bytes) ≡ length bytes + 11)
unfolding term_bridged
term_bridged-IsClosed hdr inner bytes h =
    let c = ipmi_csum (hdr_tail inner.msg ++ bytes) in
    (
      (
        ipmi_csum_zero _ (omega (arith, h)),
        ipmi_csum_zero _ (
            omega
              (arith, total-append bytes (c ∷ []), total-ipmi_csum (hdr_tail inner.msg ++ bytes))),
      ),
      omega (arith, length-append bytes (c ∷ [])),
    )

term_double_bridged-IsClosed :
    (hdr : TermHdr) (outer inner : SendMessageRq) (bytes : List ℕ)
    → IsClosedHdr outer.msg
    → IsClosedHdr inner.msg
    → IsClosed (drop 4 (term_double_bridged hdr outer inner bytes))
      × (length (term_double_bridged hdr outer inner bytes) ≡ length bytes + 19)
unfolding term_double_bridged
term_double_bridged-IsClosed hdr outer inner bytes h k =
    let c1 = ipmi_csum (hdr_tail inner.msg ++ bytes) in
    let c2 = ipmi_csum (hdr_tail outer.msg ++ inner.channel ∷ []) in
    (
      (
        ipmi_csum_zero _ (omega (arith, h)),
        ipmi_csum_zero _ (
            omega (
              arith,
              k,
              total-append bytes (c1 ∷ c2 ∷ []),
              total-ipmi_csum (hdr_tail inner.msg ++ bytes),
              total-ipmi_csum (hdr_tail outer.msg ++ inner.channel ∷ []),
            )),
      ),
      omega (arith, length-append bytes (c1 ∷ c2 ∷ [])),
    )

term_build_at-Behind :
    (sys : Bool) (intf : Intf) (req : IpmiRq) (counter level : ℕ)
    → intf.target_addr < 256
    → intf.transit_addr < 256
    → level ≤ 2
    → let m = (term_build_at sys intf req counter level).msg in
      Behind level req.bytes m × (length m ≡ length req.bytes + 3 + level * 8)
unfolding term_build_at
term_build_at-Behind sys intf req counter zero target transit h = (refl, omega arith)
term_build_at-Behind sys intf req counter (suc zero) target transit h =
    let r =
      term_bridged-IsClosed _ _ req.bytes (
        system_fixup-IsClosedHdr sys _ (inner_rq-IsClosedHdr intf req (u8 (counter * 4)) target)) in
    (r.0, omega (arith, r.1))
term_build_at-Behind sys intf req counter (suc (suc zero)) target transit h =
    let r =
      term_double_bridged-IsClosed _ _ _ req.bytes
        (system_fixup-IsClosedHdr sys _ (outer_rq-IsClosedHdr intf (u8 (counter * 4)) transit))
        (inner_rq-IsClosedHdr intf req (u8 (counter * 4)) target) in
    (r.0, omega (arith, r.1))
term_build_at-Behind sys intf req counter (suc (suc (suc n))) target transit h =
    absurd (omega (arith, h))

-- For byte-sized addresses, a request that fits the buffer is built; the message has the length
-- that was tested, and behind its header the data of a direct request, or behind the channel of
-- a bridged one an IPMB message that passes both checksum tests.
pub term_build_msg-Behind :
    (sys : Bool) (intf : Intf) (req : IpmiRq) (max_len seq : ℕ)
    → intf.target_addr < 256
    → intf.transit_addr < 256
    → length req.bytes + 3 + get_bridging_level intf * 8 ≤ max_len
    → (b : TermBuilt) × (term_build_msg sys intf req max_len seq ≡ some b)
      × (length b.msg ≤ max_len)
      × Behind (get_bridging_level intf) req.bytes b.msg
unfolding term_build_msg
term_build_msg-Behind sys intf req max_len seq target transit fits =
    let level = get_bridging_level intf in
    let r =
      term_build_at-Behind sys intf req (term_alloc_seq seq) level target transit
        (get_bridging_level_le intf) in
    (
      term_build_at sys intf req (term_alloc_seq seq) level,
      rw (ltb-false _ _ fits) refl,
      omega (arith, r.1, fits),
      r.0,
    )
