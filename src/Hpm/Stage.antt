-- ===== src/Hpm/Stage.antt =====
-- lib/ipmi_hpmfwupg.c: `HpmfwupgValidateImageIntegrity` and `HpmfwupgUpgradeStage`, the walk over the
-- action records of an image.
use ipmitool.Common.{
  ℕ, zero, suc, ◌+◌, ◌-◌, List, [], ◌∷◌, Bool, true, false, ltb, not, ◌==◌, ◌&&◌, ◌||◌,
  if◌then◌else◌, length, get_or, take, drop, bit_and,
}
use ipmitool.Lanplus.Session.{read16}
use ipmitool.Intf.{Intf}
use ipmitool.Fru.Slices.{slice}
use ipmitool.Hpm.{
  Rc, success, error, is_success, Run, done, overrun, out_of_fuel, ◌>>=◌, Port, Target,
  calculate_checksum,
}
use ipmitool.Hpm.Block.{initiate_upgrade_action}
use ipmitool.Hpm.Upload.{
  Plan, Uploaded, action_upload_firmware, action_record_size, firmware_image_size,
}

abbrev pub md5_signature_length : ℕ
md5_signature_length = 16

-- `sizeof(struct HpmfwupgImageHeader)`, packed.
abbrev pub image_header_size : ℕ
image_header_size = 34

-- "PICMGFWU"
abbrev pub image_signature : List ℕ
image_signature = 80 ∷ 73 ∷ 67 ∷ 77 ∷ 71 ∷ 70 ∷ 87 ∷ 85 ∷ []

-- Equality of two byte sequences, as `memcmp` and `strncmp` test it on bytes that are not NUL.
unfoldable pub same_bytes : List ℕ → List ℕ → Bool
same_bytes [] [] = true
same_bytes [] (y ∷ ys) = false
same_bytes (x ∷ xs) [] = false
same_bytes (x ∷ xs) (y ∷ ys) = x == y && same_bytes xs ys

abbrev pub ok_if : Bool → Rc
ok_if b = if b then success else error

-- `HpmfwupgValidateImageIntegrity`; `md5` is the digest of the library that is used for it. Behind
-- the header stand the OEM data and a checksum, 34 bytes of the header hold their length.
unfoldable pub validate_image_integrity : (List ℕ → List ℕ) → List ℕ → Run Rc
unfolding same_bytes calculate_checksum
validate_image_integrity md5 image =
    let body = length image - md5_signature_length in
    let header_length = image_header_size + read16 image 32 + 1 in
    if ltb (length image) md5_signature_length
    then overrun
    else if not (same_bytes (md5 (take body image)) (drop body image))
    then done error
    else if ltb (length image) image_header_size
    then overrun
    else if not (same_bytes (take 8 image) image_signature)
    then done error
    else if not (get_or image 8 0 == 0)
    then done error
    else if ltb (length image) header_length
    then overrun
    else done (ok_if (calculate_checksum (take header_length image) == 0))

-- `HpmfwupgValidateActionRecordChecksum`, for a record that lies within the image with its first
-- three bytes. The 34 bytes of an upload record are the record and the firmware's header.
unfoldable pub validate_action_record : List ℕ → ℕ → Run Rc
unfolding calculate_checksum
validate_action_record image at =
    if calculate_checksum (slice at action_record_size image) == 0
    then done success
    else if not (get_or image at 0 == 2)
    then done error
    else if ltb (length image) (at + action_record_size + firmware_image_size)
    then overrun
    else done (
        ok_if (calculate_checksum (slice at (action_record_size + firmware_image_size) image) == 0))

module _ {Device : Type 0} (t : Target Device) (fuel stale : ℕ) (intf : Intf) (plan : Plan)
    (image : List ℕ) where
  -- The backup or the preparation of components, with nothing to do where images are compared or
  -- no component is selected.
  unfoldable pub action_on_components : ℕ → ℕ → ℕ → Port Device → Run (Uploaded Device)
  unfolding initiate_upgrade_action
  action_on_components action mask at p =
      let behind = at + action_record_size in
      let initiating = initiate_upgrade_action t fuel stale mask action p >>= λ r.
      done (record { rc = r.0; image_at = behind; port = r.1 }) in
      if plan.compares || mask == 0
      then done (record { rc = success; image_at = behind; port = p })
      else initiating

  -- One action record, that is valid.
  unfoldable pub perform_action : ℕ → Port Device → Run (Uploaded Device)
  unfolding action_on_components action_upload_firmware
  perform_action at p =
      let action_type = get_or image at 0 in
      let components = get_or image (at + 1) 0 in
      let selected = bit_and plan.update_mask components in
      if action_type == 0
      then action_on_components 0 selected at p
      else if action_type == 1
      then action_on_components 1 selected at p
      else if action_type == 2
      then action_upload_firmware t fuel stale intf plan image components at p
      else done (record { rc = error; image_at = at; port = p })

  unfoldable pub action_round : ℕ → Port Device → Run (Uploaded Device)
  unfolding validate_action_record perform_action
  action_round at p = validate_action_record image at >>= λ rc.
      if is_success rc
      then perform_action at p
      else done (record { rc = rc; image_at = at; port = p })

  -- The loop, up to the MD5 signature at the end of the image.
  unfoldable pub stage_loop : ℕ → Uploaded Device → Run (Uploaded Device)
  unfolding action_round
  stage_loop zero u = out_of_fuel
  stage_loop (suc rounds) u =
      elim (ltb u.image_at (length image - md5_signature_length) && is_success u.rc) [
        | false ↦ done u
        | true ↦ action_round u.image_at u.port >>= stage_loop rounds
      ]

  -- `HpmfwupgUpgradeStage`, with a round for every byte of the image and one more.
  unfoldable pub upgrade_stage : Port Device → Run (Uploaded Device)
  unfolding stage_loop
  upgrade_stage p =
      let first = image_header_size + read16 image 32 + 1 in
      stage_loop (suc (length image)) (record { rc = success; image_at = first; port = p })
