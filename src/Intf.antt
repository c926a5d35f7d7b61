-- ===== src/Intf.antt =====
-- src/plugins/ipmi_intf.c: the addressing of an interface, the bridging level that follows from
-- it, and the sizes of data that a message may carry.
pub mod Sizes
use ipmitool.Common.{ℕ, ◌≤◌, ◌≡◌, refl, true, ◌==◌, ◌&&◌, ◌||◌, not, if◌then◌else◌, arith}

-- The fields of `struct ipmi_intf` that address a target and bound the data of a message. The
-- sizes are uint16_t, and 0 where they are not specified.
pub record Intf : Type 0 where
  pub my_addr : ℕ
  pub target_addr : ℕ
  pub target_channel : ℕ
  pub transit_addr : ℕ
  pub transit_channel : ℕ
  pub max_request_data_size : ℕ
  pub max_response_data_size : ℕ

unfoldable pub get_bridging_level : Intf → ℕ
get_bridging_level intf =
    if not (intf.target_addr == 0) && not (intf.target_addr == intf.my_addr)
    then if not (intf.transit_addr == 0)
        && (not (intf.transit_addr == intf.target_addr)
            || not (intf.transit_channel == intf.target_channel))
      then 2
      else 1
    else 0

pub get_bridging_level_le : (intf : Intf) → get_bridging_level intf ≤ 2
unfolding get_bridging_level
get_bridging_level_le intf = ground arith
