-- ===== src/Serial/Setup.antt =====
-- serial_basic.c: `serial_bm_setup`, and the requests that the sizes it sets allow.
use ipmitool.Common.{ℕ, ◌+◌, ◌*◌, ◌≤◌, ◌<◌, ◌≡◌, some, Bool, length, arith}
use ipmitool.Intf.{Intf, get_bridging_level, get_bridging_level_le}
use ipmitool.Intf.Sizes.{data_size, data_size_lem, get_max_request_data_size}
use ipmitool.Serial.Message.{IpmiRq, Built, build_msg, max_msg_size}
use ipmitool.Serial.MessageLaws.{build_msg-IsClosed}

abbrev pub max_rq_size : ℕ
max_rq_size = 33

abbrev pub max_rs_size : ℕ
max_rs_size = 32

unfoldable pub setup : Intf → Intf
setup intf = record intf {
  max_request_data_size = max_rq_size;
  max_response_data_size = max_rs_size;
}

data_size_room :
    (level n : ℕ) → level ≤ 2 → n ≤ data_size 8 level 33 → n + 7 + level * 8 ≤ max_msg_size
data_size_room level n l h = ground (arith, data_size_lem 8 level 33)

-- After `serial_bm_setup`, every request whose data is within the size that the interface
-- announces is built into the 47 bytes of the message buffer, at every bridging level.
pub setup-build_msg :
    (sys : Bool) (intf : Intf) (req : IpmiRq) (seq : ℕ)
    → intf.target_addr < 256
    → intf.transit_addr < 256
    → length req.bytes ≤ get_max_request_data_size (setup intf)
    → (b : Built) × (build_msg sys (setup intf) req max_msg_size seq ≡ some b)
      × (length b.msg ≤ max_msg_size)
unfolding setup
setup-build_msg sys intf req seq target transit fits =
    let i = setup intf in
    let room =
      data_size_room (get_bridging_level i) (length req.bytes) (get_bridging_level_le i)
        (unfold get_max_request_data_size in fits) in
    let (b, built, _, small, _, _) =
      build_msg-IsClosed sys i req max_msg_size seq target transit room in
    (b, built, small)
