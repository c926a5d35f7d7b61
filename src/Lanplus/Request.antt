-- ===== src/Lanplus/Request.antt =====
-- src/plugins/lanplus/lanplus.c: `getIpmiPayloadWireRep`, the IPMI request in a payload, direct or
-- in one or two Send Message requests.
use ipmitool.Common.{
  inr, inl, ◌⊎◌, ℕ, ◌+◌, ◌*◌, ◌≡◌, refl, sym, ap, ◌∙◌, List, [], ◌∷◌, ◌++◌, Bool, not, ◌==◌, ◌&&◌,
  ◌||◌, if◌then◌else◌, length, length-append, drop, u8, u16, ◌<◌, bit_and, bit_or, arith,
}
use ipmitool.Checksum.{ipmi_csum}
use ipmitool.Intf.{Intf}
use ipmitool.Serial.Message.{IpmiRq}

abbrev pub bmc_slave_addr : ℕ
bmc_slave_addr = 0x20

abbrev pub remote_swid : ℕ
remote_swid = 0x81

abbrev pub netfn_app : ℕ
netfn_app = 0x06

-- `bridgePossible` is the global variable of that name.
unfoldable pub bridged_request : Intf → Bool → ℕ
bridged_request intf bridge_possible =
    let our_address = if intf.my_addr == 0 then bmc_slave_addr else intf.my_addr in
    if intf.target_addr == our_address || not bridge_possible
    then 0
    else if not (intf.transit_addr == our_address) && not (intf.transit_addr == 0)
    then 2
    else 1

-- `msg[len++] = ipmi_csum(msg + cs, len - cs)`
unfoldable pub add_csum : ℕ → List ℕ → List ℕ
add_csum cs msg = msg ++ ipmi_csum (drop cs msg) ∷ []

-- The header of a Send Message request at the end of `msg`.
unfoldable pub send_message : List ℕ → ℕ → ℕ → ℕ → List ℕ
unfolding add_csum
send_message msg addr curr_seq channel =
    add_csum (length msg) (msg ++ addr ∷ netfn_app * 4 ∷ [])
    ++ remote_swid ∷ u8 (curr_seq * 4) ∷ 0x34 ∷ bit_or 0x40 channel ∷ []

-- The address, the net Fn, its checksum, and the rest of the innermost message.
unfoldable pub inner_message : List ℕ → Intf → ℕ → IpmiRq → ℕ → List ℕ
unfolding add_csum
inner_message msg intf bridged req rq_seq =
    let head = add_csum (length msg) (
      msg
      ++ (if bridged == 0 then bmc_slave_addr else intf.target_addr)
        ∷ bit_or (req.netfn * 4) (bit_and req.lun 3)
        ∷ []) in
    add_csum (length head) (
      head
      ++ (if bridged == 2 then intf.my_addr else remote_swid)
        ∷ u8 (rq_seq * 4)
        ∷ req.cmd
        ∷ req.bytes)

-- The message and the payload length, a uint16_t that counts 7 bytes and the data to begin with.
unfoldable pub ipmi_wire_rep : Intf → Bool → IpmiRq → ℕ → ℕ → List ℕ × ℕ
unfolding bridged_request send_message inner_message add_csum
ipmi_wire_rep intf bridge_possible req rq_seq curr_seq =
    let bridged = bridged_request intf bridge_possible in
    let payload_length = u16 (length req.bytes + 7) in
    let outer =
      if bridged == 0
      then []
      else send_message [] bmc_slave_addr curr_seq
          (if bridged == 2 then intf.transit_channel else intf.target_channel) in
    let middle =
      if bridged == 2
      then send_message outer intf.transit_addr curr_seq intf.target_channel
      else outer in
    let inner = inner_message middle intf bridged req rq_seq in
    let inner' = if bridged == 2 then add_csum (length outer + 3) inner else inner in
    (
      if bridged == 0 then inner' else add_csum 3 inner',
      u16 (payload_length + (if bridged == 0 then 0 else 8) + (if bridged == 2 then 8 else 0)),
    )

-- An IPMB message: two bytes and their checksum, then the rest and its checksum.
abbrev pub ipmb : ℕ → ℕ → List ℕ → List ℕ
ipmb addr netfn rest = addr ∷ netfn ∷ ipmi_csum (addr ∷ netfn ∷ []) ∷ (rest ++ ipmi_csum rest ∷ [])

abbrev pub request_of : Intf → ℕ → IpmiRq → ℕ → List ℕ
request_of intf level req rq_seq =
    ipmb (if level == 0 then bmc_slave_addr else intf.target_addr)
      (bit_or (req.netfn * 4) (bit_and req.lun 3))
      ((if level == 2 then intf.my_addr else remote_swid) ∷ u8 (rq_seq * 4) ∷ req.cmd ∷ req.bytes)

-- A message in the Send Message request that carries it.
abbrev pub wrapped : ℕ → ℕ → ℕ → List ℕ → List ℕ
wrapped addr channel curr_seq msg =
    ipmb addr (netfn_app * 4) (remote_swid ∷ u8 (curr_seq * 4) ∷ 0x34 ∷ bit_or 0x40 channel ∷ msg)

module _ (intf : Intf) (bridge_possible : Bool) (req : IpmiRq) (rq_seq curr_seq : ℕ) where
  -- The message of each bridging level, by its nesting.
  abbrev pub nested : List ℕ
  nested =
      let level = bridged_request intf bridge_possible in
      if level == 0
      then request_of intf 0 req rq_seq
      else if level == 1
      then wrapped bmc_slave_addr intf.target_channel curr_seq (request_of intf 1 req rq_seq)
      else wrapped bmc_slave_addr intf.transit_channel curr_seq
          (wrapped intf.transit_addr intf.target_channel curr_seq (request_of intf 2 req rq_seq))

bridged_cases :
    (intf : Intf) (bridge_possible : Bool)
    → (bridged_request intf bridge_possible ≡ 0)
      ⊎ (bridged_request intf bridge_possible ≡ 1)
      ⊎ (bridged_request intf bridge_possible ≡ 2)
unfolding bridged_request
bridged_cases intf bridge_possible = ground arith

pub length-ipmb : (addr netfn : ℕ) (rest : List ℕ) → length (ipmb addr netfn rest) ≡ length rest + 4
length-ipmb addr netfn rest = omega (arith, length-append rest (ipmi_csum rest ∷ []))

length-request_of :
    (intf : Intf) (level : ℕ) (req : IpmiRq) (rq_seq : ℕ)
    → length (request_of intf level req rq_seq) ≡ length req.bytes + 7
length-request_of intf level req rq_seq =
    length-ipmb (if level == 0 then bmc_slave_addr else intf.target_addr)
      (bit_or (req.netfn * 4) (bit_and req.lun 3))
      ((if level == 2 then intf.my_addr else remote_swid) ∷ u8 (rq_seq * 4) ∷ req.cmd ∷ req.bytes)
    ∙ omega arith

length-wrapped :
    (addr channel curr_seq : ℕ) (msg : List ℕ)
    → length (wrapped addr channel curr_seq msg) ≡ length msg + 8
length-wrapped addr channel curr_seq msg =
    length-ipmb addr (netfn_app * 4)
      (remote_swid ∷ u8 (curr_seq * 4) ∷ 0x34 ∷ bit_or 0x40 channel ∷ msg)
    ∙ omega arith

module _ (intf : Intf) (bridge_possible : Bool) (req : IpmiRq) (rq_seq curr_seq : ℕ) where
  wire_rep_bytes :
      (ipmi_wire_rep intf bridge_possible req rq_seq curr_seq).0
      ≡ nested intf bridge_possible req rq_seq curr_seq
  unfolding ipmi_wire_rep
  wire_rep_bytes = elim (bridged_cases intf bridge_possible) [
    | inl e ↦ rw e refl
    | inr (inl e) ↦ rw e refl
    | inr (inr e) ↦ rw e refl
  ]

  wire_rep_length :
      length req.bytes + 23 < 65536
      → (ipmi_wire_rep intf bridge_possible req rq_seq curr_seq).1
        ≡ length (nested intf bridge_possible req rq_seq curr_seq)
  unfolding ipmi_wire_rep
  wire_rep_length fits = elim (bridged_cases intf bridge_possible) [
    | inl e ↦ rw e (omega (arith, length-request_of intf 0 req rq_seq))
    | inr (inl e) ↦
        let inner = request_of intf 1 req rq_seq in
        rw e (
          omega (
            arith,
            length-request_of intf 1 req rq_seq,
            length-wrapped bmc_slave_addr intf.target_channel curr_seq inner,
          ))
    | inr (inr e) ↦
        let inner = request_of intf 2 req rq_seq in
        let middle = wrapped intf.transit_addr intf.target_channel curr_seq inner in
        rw e (
          omega (
            arith,
            length-request_of intf 2 req rq_seq,
            length-wrapped intf.transit_addr intf.target_channel curr_seq inner,
            length-wrapped bmc_slave_addr intf.transit_channel curr_seq middle,
          ))
  ]

-- The message that is written step by step, with the start of each checksum remembered, is the
-- request in its Send Message requests, outermost first, every one with its two checksums; and
-- where the data and the 23 bytes of two bridges are below 65536, the uint16_t of the payload
-- length counts exactly its bytes.
pub ipmi_wire_rep-nested :
    (intf : Intf) (bridge_possible : Bool) (req : IpmiRq) (rq_seq curr_seq : ℕ)
    → length req.bytes + 23 < 65536
    → ((ipmi_wire_rep intf bridge_possible req rq_seq curr_seq).0
        ≡ nested intf bridge_possible req rq_seq curr_seq)
      × ((ipmi_wire_rep intf bridge_possible req rq_seq curr_seq).1
          ≡ length (ipmi_wire_rep intf bridge_possible req rq_seq curr_seq).0)
ipmi_wire_rep-nested intf bridge_possible req rq_seq curr_seq fits =
    let bytes = wire_rep_bytes intf bridge_possible req rq_seq curr_seq in
    (bytes, wire_rep_length intf bridge_possible req rq_seq curr_seq fits ∙ sym (ap length bytes))
