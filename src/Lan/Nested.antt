-- ===== src/Lan/Nested.antt =====
-- src/plugins/lan/lan.c: the message of `ipmi_lan_build_cmd` by its nesting, and its length.
use ipmitool.Common.{
  ℕ, ◌+◌, ◌*◌, ◌≡◌, ◌⊎◌, inl, inr, refl, ◌∙◌, List, ◌∷◌, Bool, ◌==◌, if◌then◌else◌, length, u8,
  bit_and, bit_or, arith,
}
use ipmitool.Intf.{Intf}
use ipmitool.Serial.Message.{IpmiRq}
use ipmitool.Lanplus.Request.{bmc_slave_addr, remote_swid, netfn_app, ipmb, length-ipmb}
use ipmitool.Lan.{new_bridging_level, message}

-- A request, and the Send Message request that carries one, from the address of who sends it.
abbrev request_of : Intf → ℕ → IpmiRq → ℕ → List ℕ
request_of intf level req seq =
    ipmb (if level == 0 then bmc_slave_addr else intf.target_addr)
      (bit_or (req.netfn * 4) (bit_and req.lun 3))
      ((if level == 0 then remote_swid else intf.my_addr) ∷ u8 (seq * 4) ∷ req.cmd ∷ req.bytes)

abbrev wrapped : ℕ → ℕ → ℕ → ℕ → List ℕ → List ℕ
wrapped addr rq_addr channel seq msg =
    ipmb addr (netfn_app * 4) (rq_addr ∷ u8 (seq * 4) ∷ 0x34 ∷ bit_or 0x40 channel ∷ msg)

-- The message of each bridging level, by its nesting.
abbrev pub nested : Intf → ℕ → IpmiRq → ℕ → List ℕ
nested intf level req seq =
    if level == 0
    then request_of intf 0 req seq
    else if level == 1
    then wrapped bmc_slave_addr remote_swid intf.target_channel seq (request_of intf 1 req seq)
    else wrapped bmc_slave_addr remote_swid intf.transit_channel seq
        (wrapped intf.transit_addr intf.my_addr intf.target_channel seq (request_of intf 2 req seq))

level_cases :
    (intf : Intf) (bridge_possible : Bool)
    → (new_bridging_level intf bridge_possible ≡ 0)
      ⊎ (new_bridging_level intf bridge_possible ≡ 1)
      ⊎ (new_bridging_level intf bridge_possible ≡ 2)
unfolding new_bridging_level
level_cases intf bridge_possible = ground arith

pub message_lem :
    (intf : Intf) (bridge_possible : Bool) (req : IpmiRq) (seq : ℕ)
    → let level = new_bridging_level intf bridge_possible in
      message intf level req seq ≡ nested intf level req seq
unfolding message
message_lem intf bridge_possible req seq = elim (level_cases intf bridge_possible) [
  | inl e ↦ rw e refl
  | inr (inl e) ↦ rw e refl
  | inr (inr e) ↦ rw e refl
]

length-request :
    (intf : Intf) (level : ℕ) (req : IpmiRq) (seq : ℕ)
    → length (request_of intf level req seq) ≡ length req.bytes + 7
length-request intf level req seq =
    length-ipmb (if level == 0 then bmc_slave_addr else intf.target_addr)
      (bit_or (req.netfn * 4) (bit_and req.lun 3))
      ((if level == 0 then remote_swid else intf.my_addr) ∷ u8 (seq * 4) ∷ req.cmd ∷ req.bytes)
    ∙ omega arith

length-wrapped :
    (addr rq_addr channel seq : ℕ) (msg : List ℕ)
    → length (wrapped addr rq_addr channel seq msg) ≡ length msg + 8
length-wrapped addr rq_addr channel seq msg =
    length-ipmb addr (netfn_app * 4) (rq_addr ∷ u8 (seq * 4) ∷ 0x34 ∷ bit_or 0x40 channel ∷ msg)
    ∙ omega arith

pub length-nested :
    (intf : Intf) (bridge_possible : Bool) (req : IpmiRq) (seq : ℕ)
    → let level = new_bridging_level intf bridge_possible in
      length (nested intf level req seq) ≡ length req.bytes + 7 + level * 8
length-nested intf bridge_possible req seq = elim (level_cases intf bridge_possible) [
  | inl e ↦ rw e (omega (arith, length-request intf 0 req seq))
  | inr (inl e) ↦
      let inner = request_of intf 1 req seq in
      rw e (
        omega (
          arith,
          length-request intf 1 req seq,
          length-wrapped bmc_slave_addr remote_swid intf.target_channel seq inner,
        ))
  | inr (inr e) ↦
      let inner = request_of intf 2 req seq in
      let middle = wrapped intf.transit_addr intf.my_addr intf.target_channel seq inner in
      rw e (
        omega (
          arith,
          length-request intf 2 req seq,
          length-wrapped intf.transit_addr intf.my_addr intf.target_channel seq inner,
          length-wrapped bmc_slave_addr remote_swid intf.transit_channel seq middle,
        ))
]
