-- ===== src/Hpm/Block.antt =====
-- lib/ipmi_hpmfwupg.c: the commands of an upload, `HpmfwupgInitiateUpgradeAction`,
-- `HpmfwupgUploadFirmwareBlock` and `HpmfwupgFinishFirmwareUpload`.
use ipmitool.Common.{
  ℕ, List, [], ◌∷◌, Option, none, some, Bool, ltb, ◌==◌, ◌&&◌, ◌||◌, if◌then◌else◌, length, u32,
}
use ipmitool.Lanplus.Session.{le32, read32}
use ipmitool.Fru.{Rs}
use ipmitool.Hpm.{
  Rc, success, error, upload_block_length, upload_retry, Run, done, ◌>>=◌, Port, Target,
  is_retryable, send_cmd, wait_long_duration,
}

-- A command that has no other codes than 0 and that it goes on: `HpmfwupgInitiateUpgradeAction`.
-- The code `comparison` is no error of `HpmfwupgFinishFirmwareUpload` when images are compared.
module _ {Device : Type 0} (t : Target Device) (fuel stale : ℕ) where
  unfoldable pub on_plain : Bool → Option Rs → Port Device → Run (Rc × Port Device)
  unfolding wait_long_duration
  on_plain compares none p = done (error, p)
  on_plain compares (some rsp) p =
      if rsp.ccode == 0x80
      then wait_long_duration t fuel stale p
      else if (compares && rsp.ccode == 0x83) || rsp.ccode == 0
      then done (success, p)
      else done (error, p)

  unfoldable pub initiate_upgrade_action : ℕ → ℕ → Port Device → Run (Rc × Port Device)
  unfolding on_plain send_cmd
  initiate_upgrade_action mask action p =
      let sent = send_cmd t (0x2C ∷ 0x31 ∷ 0 ∷ mask ∷ action ∷ []) p in
      on_plain Bool.false sent.0 sent.1

  unfoldable pub finish_firmware_upload : Bool → ℕ → ℕ → Port Device → Run (Rc × Port Device)
  unfolding on_plain send_cmd
  finish_firmware_upload compares component_id image_length p =
      let sent = send_cmd t (0x2C ∷ 0x33 ∷ 0 ∷ component_id ∷ le32 image_length) p in
      on_plain compares sent.0 sent.1

-- The result of a block, and the offset and the length that the target may ask for, which are 0
-- where it does not.
pub record Answer (Device : Type 0) : Type 0 where
  pub rc : Rc
  pub image_offset : ℕ
  pub block_length : ℕ
  pub port : Port Device

-- The code with the offset and the length of a response: a response with data that is not 9 bytes
-- has another code.
unfoldable pub offsets_of : Rs → ℕ × (ℕ × ℕ)
offsets_of rsp =
    if (rsp.ccode == 0x80 || rsp.ccode == 0) && ltb 1 (length rsp.bytes)
    then (if length rsp.bytes == 9
        then (rsp.ccode, (u32 (read32 rsp.bytes 1), u32 (read32 rsp.bytes 5)))
        else (0x82, (0, 0)))
    else (rsp.ccode, (0, 0))

-- What a code that is not 0 and not 80h comes to.
unfoldable pub refusal : {Device : Type 0} → ℕ → Port Device → Rc × Port Device
unfolding is_retryable
refusal code p =
    let retryable = is_retryable code p.error_count in
    let p' = record p { error_count = retryable.1 } in
    if retryable.0
    then (upload_retry, p')
    else (if code == 0xC7 || code == 0xC8 then (upload_block_length, p') else (error, p'))

unfoldable pub with_offsets : {Device : Type 0} → ℕ × ℕ → Rc × Port Device → Answer Device
with_offsets offsets (rc, p) = record {
  rc = rc;
  image_offset = offsets.0;
  block_length = offsets.1;
  port = p;
}

module _ {Device : Type 0} (t : Target Device) (fuel stale : ℕ) where
  unfoldable pub on_block : Option Rs → Port Device → Run (Answer Device)
  unfolding offsets_of refusal with_offsets wait_long_duration
  on_block none p = done (with_offsets (0, 0) (error, p))
  on_block (some rsp) p =
      let got = offsets_of rsp in
      let waiting = wait_long_duration t fuel stale p >>= λ r. done (with_offsets got.1 r) in
      if got.0 == 0x80
      then waiting
      else if got.0 == 0
      then done (with_offsets got.1 (success, p))
      else done (with_offsets got.1 (refusal got.0 p))

  unfoldable pub upload_firmware_block : ℕ → List ℕ → Port Device → Run (Answer Device)
  unfolding on_block send_cmd
  upload_firmware_block block_number bytes p =
      let sent = send_cmd t (0x2C ∷ 0x32 ∷ 0 ∷ block_number ∷ bytes) p in on_block sent.0 sent.1
