-- ===== src/Serial/MessageLaws.antt =====
-- The messages that `serial_bm_build_msg` builds: their length and their checksums.
use ipmitool.Common.{
  ltb-false, lt→ltb, u8, Bool, zero, suc, refl, ◌*◌, ◌≤◌, none, some, ℕ, ◌+◌, ◌%◌, ◌<◌, ◌≡◌, List,
  [], ◌∷◌, ◌++◌, Bool, true, false, length, length-append, total-append, take, drop, arith,
}
use ipmitool.Intf.{Intf, get_bridging_level, get_bridging_level_le}
use ipmitool.Checksum.{ipmi_csum, total-ipmi_csum, ipmi_csum_zero}
use ipmitool.Serial.Message.{
  Built, build_at, build_msg, alloc_seq, IpmbHdr, SendMessageRq, IpmiRq, hdr_tail, ipmb_hdr,
  net_fn_lun, system_fixup, inner_rq, outer_rq, direct_msg, bridged_msg, double_bridged_msg,
}

-- Three bytes that close a header, and a message that passes both tests of the receiver.
abbrev pub IsClosedHdr : IpmbHdr → Type 0
IsClosedHdr h = (h.rs_sa + h.net_fn + h.csum1) % 256 ≡ 0

abbrev pub IsClosed : List ℕ → Type 0
IsClosed msg = (ipmi_csum (take 3 msg) ≡ 0) × (ipmi_csum (drop 3 msg) ≡ 0)

ipmb_hdr-IsClosedHdr :
    (rs nf rq seq cmd : ℕ) → rs < 256 → nf < 256 → IsClosedHdr (ipmb_hdr rs nf rq seq cmd)
unfolding ipmb_hdr
ipmb_hdr-IsClosedHdr rs nf rq seq cmd p q = omega arith

pub system_fixup-IsClosedHdr :
    (b : Bool) (rq : SendMessageRq) → IsClosedHdr rq.msg → IsClosedHdr (system_fixup b rq).msg
unfolding system_fixup
system_fixup-IsClosedHdr true rq h = h
system_fixup-IsClosedHdr false rq h = h

pub net_fn_lun-lt : (req : IpmiRq) → net_fn_lun req < 256
unfolding net_fn_lun
net_fn_lun-lt req = omega arith

pub inner_rq-IsClosedHdr :
    (intf : Intf) (req : IpmiRq) (seq : ℕ)
    → intf.target_addr < 256
    → IsClosedHdr (inner_rq intf req seq).msg
unfolding inner_rq
inner_rq-IsClosedHdr intf req seq h = ipmb_hdr-IsClosedHdr _ _ _ _ _ h (net_fn_lun-lt req)

pub outer_rq-IsClosedHdr :
    (intf : Intf) (seq : ℕ) → intf.transit_addr < 256 → IsClosedHdr (outer_rq intf seq).msg
unfolding outer_rq
outer_rq-IsClosedHdr intf seq h = ipmb_hdr-IsClosedHdr _ _ _ _ _ h (omega arith)

module _ (hdr : IpmbHdr) (bytes : List ℕ) (closed : IsClosedHdr hdr) where
  direct_msg-IsClosed :
      IsClosed (direct_msg hdr bytes) × (length (direct_msg hdr bytes) ≡ length bytes + 7)
  unfolding direct_msg
  direct_msg-IsClosed =
      let c = ipmi_csum (hdr_tail hdr ++ bytes) in
      let sum = total-append bytes (c ∷ []) in
      (
        (
          ipmi_csum_zero _ (omega arith),
          ipmi_csum_zero _ (omega (arith, sum, total-ipmi_csum (hdr_tail hdr ++ bytes))),
        ),
        omega (arith, length-append bytes (c ∷ [])),
      )

  bridged_msg-IsClosed :
      (inner : SendMessageRq)
      → IsClosedHdr inner.msg
      → IsClosed (bridged_msg hdr inner bytes)
        × (length (bridged_msg hdr inner bytes) ≡ length bytes + 15)
  unfolding bridged_msg
  bridged_msg-IsClosed inner h =
      let c1 = ipmi_csum (hdr_tail inner.msg ++ bytes) in
      let c2 = ipmi_csum (hdr_tail hdr ++ inner.channel ∷ []) in
      let sum = total-append bytes (c1 ∷ c2 ∷ []) in
      (
        (
          ipmi_csum_zero _ (omega arith),
          ipmi_csum_zero _ (
              omega (
                arith,
                sum,
                total-ipmi_csum (hdr_tail inner.msg ++ bytes),
                total-ipmi_csum (hdr_tail hdr ++ inner.channel ∷ []),
              )),
        ),
        omega (arith, length-append bytes (c1 ∷ c2 ∷ [])),
      )

  double_bridged_msg-IsClosed :
      (outer inner : SendMessageRq)
      → IsClosedHdr outer.msg
      → IsClosedHdr inner.msg
      → IsClosed (double_bridged_msg hdr outer inner bytes)
        × (length (double_bridged_msg hdr outer inner bytes) ≡ length bytes + 23)
  unfolding double_bridged_msg
  double_bridged_msg-IsClosed outer inner h k =
      let c1 = ipmi_csum (hdr_tail inner.msg ++ bytes) in
      let c2 = ipmi_csum (hdr_tail outer.msg ++ inner.channel ∷ []) in
      let c3 = ipmi_csum (hdr_tail hdr ++ outer.channel ∷ []) in
      let sum = total-append bytes (c1 ∷ c2 ∷ c3 ∷ []) in
      (
        (
          ipmi_csum_zero _ (omega arith),
          ipmi_csum_zero _ (
              omega (
                arith,
                sum,
                total-ipmi_csum (hdr_tail inner.msg ++ bytes),
                total-ipmi_csum (hdr_tail outer.msg ++ inner.channel ∷ []),
                total-ipmi_csum (hdr_tail hdr ++ outer.channel ∷ []),
              )),
        ),
        omega (arith, length-append bytes (c1 ∷ c2 ∷ c3 ∷ [])),
      )

module _ (sys : Bool) (intf : Intf) (req : IpmiRq) (counter : ℕ) (target : intf.target_addr < 256)
    (transit : intf.transit_addr < 256) where
  build_at-IsClosed :
      (level : ℕ)
      → level ≤ 2
      → let m = (build_at sys intf req counter level).msg in
        IsClosed m × (length m ≡ length req.bytes + 7 + level * 8)
  unfolding build_at
  build_at-IsClosed zero h =
      let r =
        direct_msg-IsClosed _ req.bytes
          (ipmb_hdr-IsClosedHdr _ _ _ (u8 (counter * 4)) _ (omega arith) (net_fn_lun-lt req)) in
      (r.0, omega (arith, r.1))
  build_at-IsClosed (suc zero) h =
      let r =
        bridged_msg-IsClosed _ req.bytes
          (ipmb_hdr-IsClosedHdr _ _ _ (u8 (counter * 4)) _ (omega arith) (omega arith)) _
          (system_fixup-IsClosedHdr sys _
            (inner_rq-IsClosedHdr intf req (u8 (counter * 4)) target)) in
      (r.0, omega (arith, r.1))
  build_at-IsClosed (suc (suc zero)) h =
      let r =
        double_bridged_msg-IsClosed _ req.bytes
          (ipmb_hdr-IsClosedHdr _ _ _ (u8 (counter * 4)) _ (omega arith) (omega arith)) _ _
          (system_fixup-IsClosedHdr sys _ (outer_rq-IsClosedHdr intf (u8 (counter * 4)) transit))
          (inner_rq-IsClosedHdr intf req (u8 (counter * 4)) target) in
      (r.0, omega (arith, r.1))
  build_at-IsClosed (suc (suc (suc n))) h = absurd (omega arith)

-- For byte-sized addresses, a request that fits the buffer is built; the message then has the
-- announced length, which is within the buffer, and passes both checksum tests of a receiver,
-- whether it is direct, bridged or double bridged, on a system interface or not.
pub build_msg-IsClosed :
    (sys : Bool) (intf : Intf) (req : IpmiRq) (max_len seq : ℕ)
    → intf.target_addr < 256
    → intf.transit_addr < 256
    → length req.bytes + 7 + get_bridging_level intf * 8 ≤ max_len
    → (b : Built) × (build_msg sys intf req max_len seq ≡ some b)
      × (length b.msg ≡ length req.bytes + 7 + get_bridging_level intf * 8)
      × (length b.msg ≤ max_len)
      × (ipmi_csum (take 3 b.msg) ≡ 0)
      × (ipmi_csum (drop 3 b.msg) ≡ 0)
unfolding build_msg
build_msg-IsClosed sys intf req max_len seq target transit fits =
    let level = get_bridging_level intf in
    let r =
      build_at-IsClosed sys intf req (alloc_seq seq) target transit level
        (get_bridging_level_le intf) in
    (
      build_at sys intf req (alloc_seq seq) level,
      rw (ltb-false _ _ fits) refl,
      r.1,
      omega (arith, r.1),
      r.0.0,
      r.0.1,
    )

-- A message that does not fit is refused.
build_msg_too_long :
    (sys : Bool) (intf : Intf) (req : IpmiRq) (max_len seq : ℕ)
    → max_len < length req.bytes + 7 + get_bridging_level intf * 8
    → build_msg sys intf req max_len seq ≡ none
unfolding build_msg
build_msg_too_long sys intf req max_len seq h = rw (lt→ltb _ _ h) refl
