-- ===== src/Serial/Message.antt =====
-- serial_basic.c: `serial_bm_build_msg`, the IPMB request, direct or wrapped in one or two Send
-- Message requests, with its checksums.
use ipmitool.Common.{
  ℕ, ◌+◌, ◌-◌, ◌*◌, List, [], ◌∷◌, ◌++◌, Bool, true, false, Option, none, some, ◌==◌, ltb,
  if◌then◌else◌, length, bit_and, bit_or, u8,
}
use ipmitool.Checksum.{ipmi_csum}
use ipmitool.Intf.{Intf, get_bridging_level}

abbrev pub ipmi_bmc_slave_addr : ℕ
ipmi_bmc_slave_addr = 0x20

abbrev pub ipmi_remote_swid : ℕ
ipmi_remote_swid = 0x81

abbrev pub max_msg_size : ℕ
max_msg_size = 47

-- `struct ipmb_msg_hdr`
pub record IpmbHdr : Type 0 where
  pub rs_sa : ℕ
  pub net_fn : ℕ
  pub csum1 : ℕ
  pub rq_sa : ℕ
  pub rq_seq : ℕ
  pub cmd : ℕ

-- `struct ipmi_send_message_rq`
pub record SendMessageRq : Type 0 where
  pub channel : ℕ
  pub msg : IpmbHdr

-- `struct ipmi_rq`: a 6-bit netfn and a 2-bit lun.
pub record IpmiRq : Type 0 where
  pub netfn : ℕ
  pub lun : ℕ
  pub cmd : ℕ
  pub bytes : List ℕ

-- `struct serial_bm_request_ctx`
pub record RequestCtx : Type 0 where
  pub rs_sa : ℕ
  pub net_fn : ℕ
  pub rq_sa : ℕ
  pub rq_seq : ℕ
  pub cmd : ℕ

abbrev pub hdr_bytes : IpmbHdr → List ℕ
hdr_bytes h = h.rs_sa ∷ h.net_fn ∷ h.csum1 ∷ h.rq_sa ∷ h.rq_seq ∷ h.cmd ∷ []

abbrev pub send_message_bytes : SendMessageRq → List ℕ
send_message_bytes s = s.channel ∷ hdr_bytes s.msg

-- The bytes from `rqSA` on, which the second checksum of a message begins with.
abbrev pub hdr_tail : IpmbHdr → List ℕ
hdr_tail h = h.rq_sa ∷ h.rq_seq ∷ h.cmd ∷ []

abbrev pub ctx_of : IpmbHdr → RequestCtx
ctx_of h = record {
  rs_sa = h.rs_sa;
  net_fn = h.net_fn;
  rq_sa = h.rq_sa;
  rq_seq = h.rq_seq;
  cmd = h.cmd;
}

-- A header whose first checksum is -(rsSA + netFn), in a uint8_t.
unfoldable pub ipmb_hdr : ℕ → ℕ → ℕ → ℕ → ℕ → IpmbHdr
ipmb_hdr rs_sa net_fn rq_sa rq_seq cmd = record {
  rs_sa = rs_sa;
  net_fn = net_fn;
  csum1 = u8 (512 - (rs_sa + net_fn));
  rq_sa = rq_sa;
  rq_seq = rq_seq;
  cmd = cmd;
}

-- `serial_bm_alloc_seq`: the static counter and the number that it gives.
unfoldable pub alloc_seq : ℕ → ℕ
alloc_seq seq = if u8 (seq + 1) == 64 then 0 else u8 (seq + 1)

unfoldable pub net_fn_lun : IpmiRq → ℕ
net_fn_lun req = u8 (bit_or (req.netfn * 4) req.lun)

-- What the code writes into the outermost Send Message request of a system interface.
unfoldable pub system_fixup : Bool → SendMessageRq → SendMessageRq
system_fixup false rq = rq
system_fixup true rq =
    let channel = bit_and rq.channel 0xBF in
    record {
      channel = channel;
      msg = record (rq.msg) {
        rq_seq = bit_or rq.msg.rq_seq 2;
        rq_sa = if channel == 0 then rq.msg.rq_sa else ipmi_bmc_slave_addr;
      };
    }

unfoldable pub inner_rq : Intf → IpmiRq → ℕ → SendMessageRq
inner_rq intf req seq = record {
  channel = bit_or intf.target_channel 0x40;
  msg = ipmb_hdr intf.target_addr (net_fn_lun req) intf.my_addr seq req.cmd;
}

unfoldable pub outer_rq : Intf → ℕ → SendMessageRq
outer_rq intf seq = record {
  channel = bit_or intf.transit_channel 0x40;
  msg = ipmb_hdr intf.transit_addr 0x18 intf.my_addr seq 0x34;
}

-- The direct message; one Send Message request around it (`outer_rq` and `inner_rq` are then the
-- same); two. Each list ends with the checksums, from the inside out.
unfoldable pub direct_msg : IpmbHdr → List ℕ → List ℕ
direct_msg hdr bytes = hdr_bytes hdr ++ (bytes ++ ipmi_csum (hdr_tail hdr ++ bytes) ∷ [])

unfoldable pub bridged_msg : IpmbHdr → SendMessageRq → List ℕ → List ℕ
bridged_msg hdr inner bytes =
    hdr_bytes hdr
    ++ (send_message_bytes inner
        ++ (bytes
            ++ ipmi_csum (hdr_tail inner.msg ++ bytes)
              ∷ ipmi_csum (hdr_tail hdr ++ inner.channel ∷ [])
              ∷ []))

unfoldable pub double_bridged_msg : IpmbHdr → SendMessageRq → SendMessageRq → List ℕ → List ℕ
double_bridged_msg hdr outer inner bytes =
    hdr_bytes hdr
    ++ (send_message_bytes outer
        ++ (send_message_bytes inner
            ++ (bytes
                ++ ipmi_csum (hdr_tail inner.msg ++ bytes)
                  ∷ ipmi_csum (hdr_tail outer.msg ++ inner.channel ∷ [])
                  ∷ ipmi_csum (hdr_tail hdr ++ outer.channel ∷ [])
                  ∷ [])))

-- What the caller finds in its variables: the bridging level that is returned, the message, the
-- contexts `ctx[0]` and `ctx[1]`, and the counter of sequence numbers.
pub record Built : Type 0 where
  pub level : ℕ
  pub msg : List ℕ
  pub ctx0 : RequestCtx
  pub ctx1 : Option RequestCtx
  pub seq : ℕ

unfoldable pub build_at : Bool → Intf → IpmiRq → ℕ → ℕ → Built
build_at is_system intf req counter level =
    let seq = u8 (counter * 4) in
    let send_message = ipmb_hdr ipmi_bmc_slave_addr 0x18 ipmi_remote_swid seq 0x34 in
    let direct = ipmb_hdr ipmi_bmc_slave_addr (net_fn_lun req) ipmi_remote_swid seq req.cmd in
    let single = system_fixup is_system (inner_rq intf req seq) in
    let outer = system_fixup is_system (outer_rq intf seq) in
    if level == 0
    then record {
      level = level;
      msg = direct_msg direct req.bytes;
      ctx0 = ctx_of direct;
      ctx1 = none;
      seq = counter;
    }
    else if level == 2
    then record {
      level = level;
      msg = double_bridged_msg send_message outer (inner_rq intf req seq) req.bytes;
      ctx0 = ctx_of send_message;
      ctx1 = some (ctx_of outer.msg);
      seq = counter;
    }
    else record {
      level = level;
      msg = bridged_msg send_message single req.bytes;
      ctx0 = ctx_of send_message;
      ctx1 = some (ctx_of single.msg);
      seq = counter;
    }

-- `none` is the -1 for a message that is too long.
unfoldable pub build_msg : Bool → Intf → IpmiRq → ℕ → ℕ → Option Built
build_msg is_system intf req max_len seq =
    let level = get_bridging_level intf in
    if ltb max_len (length req.bytes + 7 + level * 8)
    then none
    else some (build_at is_system intf req (alloc_seq seq) level)
