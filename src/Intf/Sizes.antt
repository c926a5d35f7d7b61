-- ===== src/Intf/Sizes.antt =====
-- src/plugins/ipmi_intf.c: `ipmi_intf_get_max_request_data_size` and its response counterpart, in
-- the int16_t that the code computes with, and the setters.
use ipmitool.Common.{ℕ, ◌+◌, ◌-◌, ◌≤◌, ◌<◌, ◌≡◌, ◌==◌, ltb, if◌then◌else◌, arith}
use ipmitool.Common.Int.{ℤ, pos, pos_part, ◌+ℤ◌, ◌-ℤ◌, ltb_ℤ, is_zero, int16}
use ipmitool.Intf.{Intf, get_bridging_level}

abbrev pub ipmi_default_payload_size : ℕ
ipmi_default_payload_size = 25

-- The part that a forwarded message leaves: one Send Message, the default payload, and a second
-- Send Message.
unfoldable pub forwarded_size : ℕ → ℤ → ℤ
unfolding ◌-ℤ◌
forwarded_size level size =
    let size1 = size -ℤ pos 8 in
    let size2 =
      if ltb_ℤ (pos ipmi_default_payload_size) size1
      then pos ipmi_default_payload_size
      else size1 in
    if level == 2 then size2 -ℤ pos 8 else size2

-- Both functions; `room` is what an unspecified size allows for a forwarded message.
unfoldable pub data_size : ℕ → ℕ → ℕ → ℕ
unfolding forwarded_size ◌+ℤ◌
data_size room level max =
    let size0 = int16 max in
    let size =
      if is_zero size0
      then if level == 0
        then pos ipmi_default_payload_size
        else pos ipmi_default_payload_size +ℤ pos room
      else size0 in
    let size' = if level == 0 then size else forwarded_size level size in
    if ltb_ℤ size' (pos 0) then 0 else pos_part size'

unfoldable pub get_max_request_data_size : Intf → ℕ
unfolding data_size get_bridging_level
get_max_request_data_size intf = data_size 8 (get_bridging_level intf) intf.max_request_data_size

unfoldable pub get_max_response_data_size : Intf → ℕ
unfolding data_size get_bridging_level
get_max_response_data_size intf = data_size 7 (get_bridging_level intf) intf.max_response_data_size

-- The setters leave the size alone where it is too small. `set_size` is the interface's own
-- setter, or the plain store.
unfoldable pub set_max_request_data_size : (Intf → ℕ → Intf) → Intf → ℕ → Intf
set_max_request_data_size set_size intf size =
    if ltb size ipmi_default_payload_size then intf else set_size intf size

unfoldable pub set_max_response_data_size : (Intf → ℕ → Intf) → Intf → ℕ → Intf
set_max_response_data_size set_size intf size =
    if ltb size (ipmi_default_payload_size - 1) then intf else set_size intf size

-- The default setter.
abbrev pub store_request_size : Intf → ℕ → Intf
store_request_size intf size = record intf { max_request_data_size = size }

-- What the size comes to without signed arithmetic.
abbrev clamp : ℕ → ℕ → ℕ
clamp limit n = if ltb limit n then limit else n

pub data_size_lem :
    (room level max : ℕ)
    → max < 32768
    → level ≤ 2
    → let size = if max == 0 then (if level == 0 then 25 else 25 + room) else max in
      data_size room level max ≡ (
        if level == 0
        then size
        else if level == 2
        then clamp 25 (size - 8) - 8
        else clamp 25 (size - 8))
unfolding data_size
data_size_lem room level max h l = ground arith
