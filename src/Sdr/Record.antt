-- ===== src/Sdr/Record.antt =====
-- lib/ipmi_sdr.c: `ipmi_sdr_get_record`, which reads a record in pieces. `malloc` gives a block; the
-- NUL behind the record is left out.
use ipmitool.Common.{
  ℕ, zero, suc, ◌+◌, ◌-◌, ◌%◌, List, [], ◌++◌, Option, none, some, Bool, true, false, not, ltb,
  ◌==◌, ◌||◌, if◌then◌else◌, length, take, drop, u8,
}
use ipmitool.Common.Int.{ℤ, pos, negsuc, sub_ℕ, ltb_ℤ, is_zero}
use ipmitool.Intf.{Intf}
use ipmitool.Intf.Sizes.{get_max_response_data_size}
use ipmitool.Fru.{Rs}
use ipmitool.Sdr.{Header, Iterator, Send, sdr_request, get_reservation, record_length_valid}

-- The variables of the loop; `max_read_len` is the static `sdr_max_read_len`, and `body` what is
-- stored in `data`, up to `i`.
pub record RecordState (Device : Type 0) : Type 0 where
  pub max_read_len : ℤ
  pub body : List ℕ
  pub reservation : ℕ
  pub device : Device

-- The end of a round: NULL is returned, or the loop goes on.
pub data RecordTurn (Device : Type 0) : Type 0 where
  gives_up goes_on : RecordState Device → RecordTurn Device

-- The number of bytes that is asked for when `left` bytes are missing.
unfoldable pub read_length : ℕ → ℤ → ℕ
read_length left (pos m) = if ltb left m then left else u8 m
read_length left (negsuc m) = u8 (256 - (m + 1) % 256)

-- Nothing came, or it was too much.
unfoldable pub shorter : {Device : Type 0} → ℕ → RecordState Device → RecordTurn Device
shorter count s =
    let s' = record s { max_read_len = sub_ℕ count 1 } in
    if ltb 1 count then goes_on s' else gives_up s'

-- The reservation was lost.
unfoldable pub renewed :
    {Device : Type 0} → Option ℕ × Device → RecordState Device → RecordTurn Device
renewed (none, device) s = gives_up (record s { device = device })
renewed (some r, device) s = goes_on (record s { reservation = r; device = device })

unfoldable pub store_part : {Device : Type 0} → ℕ → Rs → RecordState Device → RecordTurn Device
store_part count rsp s =
    if not (rsp.ccode == 0) || ltb (length rsp.bytes) (2 + count)
    then gives_up s
    else goes_on (record s { body = s.body ++ take count (drop 2 rsp.bytes) })

module _ {Device : Type 0} (send : Send Device) (use_built_in : Bool) (header : Header) where
  unfoldable pub on_part : ℕ → Option Rs → RecordState Device → RecordTurn Device
  unfolding shorter renewed store_part
  on_part count none s = shorter count s
  on_part count (some rsp) s =
      if rsp.ccode == 0xCA
      then shorter count s
      else (if rsp.ccode == 0xC5
          then renewed (get_reservation send use_built_in s.device) s
          else store_part count rsp s)

  unfoldable pub record_turn : RecordState Device → RecordTurn Device
  unfolding on_part read_length
  record_turn s =
      let i = length s.body in
      let count = read_length (header.len - i) s.max_read_len in
      let sent = send s.device (sdr_request use_built_in s.reservation header.id (i + 5) count) in
      on_part count sent.0 (record s { device = sent.1 })

  -- The loop: the record or NULL, with the variables at the end; none without fuel.
  unfoldable pub record_loop :
      ℕ → RecordState Device → Option (Option (List ℕ) × RecordState Device)
  unfolding record_turn
  record_loop zero s = none
  record_loop (suc fuel) s = elim (ltb (length s.body) header.len) [
    | false ↦ some (some s.body, s)
    | true ↦ elim (record_turn s) [
      | gives_up s' ↦ some (none, s')
      | goes_on s' ↦ record_loop fuel s'
    ]
  ]

-- The size of the first request, where it is not known.
unfoldable pub first_read_len : Intf → ℤ
first_read_len intf =
    let most = sub_ℕ (get_max_response_data_size intf) 2 in
    if ltb_ℤ (pos 0xFE) most then pos 0xFE else most

-- A record that is complete is returned if its length is valid.
unfoldable pub if_valid :
    {Device : Type 0}
    → Header
    → Option (Option (List ℕ) × RecordState Device)
    → Option (Option (List ℕ) × RecordState Device)
if_valid header none = none
if_valid header (some (none, s)) = some (none, s)
if_valid header (some (some body, s)) =
    some ((if record_length_valid header.record_type header.len body then some body else none), s)

-- `ipmi_sdr_get_record`
unfoldable pub get_record :
    {Device : Type 0}
    → Send Device
    → ℕ
    → Intf
    → ℤ
    → Header
    → Iterator
    → Device
    → Option (Option (List ℕ) × RecordState Device)
unfolding record_loop if_valid first_read_len
get_record {Device = Device} send fuel intf max_read_len header itr device =
    let s : RecordState Device = record {
      max_read_len = (if is_zero max_read_len then first_read_len intf else max_read_len);
      body = [];
      reservation = itr.reservation;
      device = device;
    } in
    elim (ltb header.len 1) [
      | true ↦ some (none, record s { max_read_len = max_read_len })
      | false ↦ if_valid header (record_loop send itr.use_built_in header fuel s)
    ]
