-- ===== src/Hpm/Upload.antt =====
-- lib/ipmi_hpmfwupg.c: `HpmFwupgActionUploadFirmware`, the upload of one component. Pointers into the
-- image are offsets. `malloc` gives a block, and what is printed is left out.
use ipmitool.Common.{
  ◌^◌, ℕ, zero, suc, ◌+◌, ◌-◌, ◌/◌, List, Bool, true, false, ltb, leb, ◌==◌, ◌&&◌, ◌||◌,
  if◌then◌else◌, length, u8, u16, u32, bit_and,
}
use ipmitool.Lanplus.Session.{read32}
use ipmitool.Intf.{Intf}
use ipmitool.Intf.Sizes.{get_max_request_data_size}
use ipmitool.Fru.Slices.{slice}
use ipmitool.Hpm.{
  Rc, success, error, upload_block_length, upload_retry, is_success, Run, done, overrun,
  out_of_fuel, ◌>>=◌, Port, Target,
}
use ipmitool.Hpm.Block.{
  Answer, initiate_upgrade_action, upload_firmware_block, finish_firmware_upload,
}

-- The variables of the loop; `data_at` and `temp_at` are `pData` and `pDataTemp`, from
-- `pDataInitial` on.
pub record Upload (Device : Type 0) : Type 0 where
  pub data_at : ℕ
  pub temp_at : ℕ
  pub length_of_block : ℕ
  pub buf_length : ℕ
  pub buf_length_is_set : Bool
  pub total_sent : ℕ
  pub block_number : ℕ
  pub port : Port Device

unfoldable pub count_of : {Device : Type 0} → Upload Device → ℕ
count_of s =
    if leb (s.data_at + s.buf_length) (s.temp_at + s.length_of_block)
    then s.buf_length
    else u16 (s.temp_at + s.length_of_block - s.data_at)

-- The block was too long.
unfoldable pub reduced : {Device : Type 0} → Bool → Upload Device → Rc × Upload Device
reduced is_lan s =
    if s.buf_length_is_set
    then (error, s)
    else if is_lan && ltb 8 s.buf_length
    then (success, record s { buf_length = s.buf_length - 8 })
    else if s.buf_length == 0
    then (error, s)
    else (success, record s { buf_length = s.buf_length - 1 })

-- The block was taken.
unfoldable pub taken : {Device : Type 0} → ℕ → ℕ → ℕ → ℕ → Upload Device → Rc × Upload Device
taken firmware_length count image_offset block_length s =
    let end = u32 (image_offset + block_length) in
    let set = record s { buf_length_is_set = true } in
    if ltb firmware_length end || ltb end block_length
    then (error, set)
    else if image_offset == 0
    then (
      success,
      record set {
        data_at = s.data_at + count;
        total_sent = u32 (s.total_sent + count);
        block_number = u8 (s.block_number + 1);
      },
    )
    else (
      success,
      record set {
        data_at = image_offset;
        temp_at = image_offset;
        length_of_block = block_length;
        total_sent = u32 (s.total_sent + count);
        block_number = u8 (s.block_number + 1);
      },
    )

unfoldable pub on_answer :
    {Device : Type 0} → Bool → ℕ → ℕ → Upload Device → Answer Device → Rc × Upload Device
unfolding reduced taken
on_answer is_lan firmware_length count s a =
    let s' = record s { port = a.port } in
    elim a.rc [
      | success ↦ taken firmware_length count a.image_offset a.block_length s'
      | upload_block_length ↦ reduced is_lan s'
      | upload_retry ↦ (success, s')
      | error ↦ (error, s')
    ]

-- `image` is the image in memory, and `start` the offset of the firmware in it.
module _ {Device : Type 0} (t : Target Device) (fuel stale : ℕ) (is_lan : Bool) (image : List ℕ)
    (start firmware_length : ℕ) where
  unfoldable pub upload_turn : Upload Device → Run (Rc × Upload Device)
  unfolding count_of on_answer upload_firmware_block
  upload_turn s =
      let count = count_of s in
      let answered =
        upload_firmware_block t fuel stale s.block_number (slice (start + s.data_at) count image)
          s.port
        >>= λ a. done (on_answer is_lan firmware_length count s a) in
      if ltb (length image) (start + s.data_at + count) then overrun else answered

  unfoldable pub upload_loop : ℕ → Rc → Upload Device → Run (Rc × Upload Device)
  unfolding upload_turn
  upload_loop zero rc s = out_of_fuel
  upload_loop (suc n) rc s = elim (ltb s.data_at (s.temp_at + s.length_of_block) && is_success rc) [
    | false ↦ done (rc, s)
    | true ↦ upload_turn s >>= λ r. upload_loop n r.0 r.1
  ]

-- The number of the highest component of the mask: the shifts until nothing is left.
unfoldable pub shifts : ℕ → ℕ → ℕ
shifts zero mask = 0
shifts (suc n) mask = elim (mask / 2 == 0) [ true ↦ 0 | false ↦ suc (shifts n (mask / 2)) ]

unfoldable pub component_id_of : ℕ → ℕ
unfolding shifts
component_id_of mask = shifts 8 mask

abbrev pub action_record_size : ℕ
action_record_size = 3

abbrev pub firmware_image_size : ℕ
firmware_image_size = 31

-- What is left when the function returns: its result, `*pImagePtr`, and the port.
pub record Uploaded (Device : Type 0) : Type 0 where
  pub rc : Rc
  pub image_at : ℕ
  pub port : Port Device

-- The options of an upgrade: the mask of the components, and whether images are compared.
pub record Plan : Type 0 where
  pub update_mask : ℕ
  pub compares : Bool
  pub is_lan : Bool

module _ {Device : Type 0} (t : Target Device) (fuel stale : ℕ) (intf : Intf) (plan : Plan)
    (image : List ℕ) where
  -- The end of the upload: the command that finishes it.
  unfoldable pub finish : ℕ → ℕ → ℕ → Rc × Upload Device → Run (Uploaded Device)
  unfolding finish_firmware_upload
  finish component_id at behind (rc, s) =
      let finishing =
        finish_firmware_upload t fuel stale plan.compares component_id s.total_sent s.port >>= λ r.
        done (record { rc = r.0; image_at = behind; port = r.1 }) in
      if is_success rc then finishing else done (record { rc = rc; image_at = at; port = s.port })

  -- The upload itself, after the action was initiated.
  unfoldable pub upload_from : ℕ → ℕ → ℕ → ℕ → ℕ → Rc × Port Device → Run (Uploaded Device)
  unfolding upload_loop finish
  upload_from component_id at buf_length start firmware_length (rc, p) =
      let s : Upload Device = record {
        data_at = 0;
        temp_at = 0;
        length_of_block = firmware_length;
        buf_length = buf_length;
        buf_length_is_set = false;
        total_sent = 0;
        block_number = 0;
        port = p;
      } in
      let uploading =
        upload_loop t fuel stale plan.is_lan image start firmware_length fuel success s
        >>= finish component_id at (start + firmware_length) in
      if is_success rc
      then uploading
      else done (record { rc = rc; image_at = start + firmware_length; port = p })

  unfoldable pub action_upload_firmware : ℕ → ℕ → Port Device → Run (Uploaded Device)
  unfolding upload_from component_id_of get_max_request_data_size initiate_upgrade_action
  action_upload_firmware mask at p =
      let component_id = component_id_of mask in
      let start = at + action_record_size + firmware_image_size in
      let max_rq_size = get_max_request_data_size intf in
      let firmware_length = read32 image (at + action_record_size + 27) in
      let uploading =
        initiate_upgrade_action t fuel stale mask (if plan.compares then 3 else 2) p
        >>= upload_from component_id at (u16 (max_rq_size - 2)) start firmware_length in
      if leb max_rq_size 2
      then done (record { rc = error; image_at = at; port = p })
      else if ltb (length image) start
      then overrun
      else if bit_and (2 ^ component_id) plan.update_mask == 0
      then done (record { rc = success; image_at = start + firmware_length; port = p })
      else uploading
