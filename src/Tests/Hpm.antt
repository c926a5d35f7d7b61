-- ===== src/Tests/Hpm.antt =====
-- The upload of firmware on concrete inputs.
use ipmitool.Common.{
  zero, suc, ℕ, ◌+◌, ◌≡◌, ◌≢◌, refl, inl, inr, Bool-cases, ltb→lt, ltb-false_le, ltb, ◌==◌,
  if◌then◌else◌, get_or, drop, length, List, [], ◌∷◌, ◌++◌, some, true, false, u8, arith,
}
use ipmitool.Intf.{Intf}
use ipmitool.Intf.Sizes.{get_max_request_data_size}
use ipmitool.Hpm.{success, done, overrun, Port, Target}
use ipmitool.Hpm.Upload.{Plan, Uploaded, action_upload_firmware, component_id_of}
use ipmitool.Hpm.Stage.{upgrade_stage, validate_image_integrity}
use ipmitool.Hpm.Records.{ImageRecord, prepare, firmware}
use ipmitool.Hpm.StageLaws.{all_bytes, perform_all, upgrade_stage-performs}
use ipmitool.Hpm.Bounds.{action_upload_firmware_within}
use ipmitool.Hpm.Accepting.{at_once, too_long, TakesFirmware}
use ipmitool.Hpm.ActionLaws.{Ready, action_upload_firmware_exact, action_upload_firmware_overruns}

-- A target with the bytes that it has received and the block that it expects. Blocks of more than
-- three bytes are too long for it.
abbrev three_bytes : Target (List ℕ × ℕ)
three_bytes = record {
  send = λ d req.
      if get_or req 1 0 == 0x32
      then (if ltb 3 (length (drop 4 req))
          then (some (record { ccode = 0xC7; bytes = [] }), d)
          else (some (record { ccode = 0; bytes = 0 ∷ [] }), (d.0 ++ drop 4 req, u8 (d.1 + 1))))
      else (if get_or req 1 0 == 0x31
          then (some (record { ccode = 0; bytes = [] }), ([], 0))
          else (some (record { ccode = 0; bytes = [] }), d));
  now = λ d. (0, d);
  upgrade_timeout = 0;
}

three_bytes-TakesFirmware : TakesFirmware three_bytes 100 0 (λ d. d.0) (λ d. d.1) 3
unfolding TakesFirmware
three_bytes-TakesFirmware p bytes some_bytes = elim (Bool-cases (ltb 3 (length bytes))) [
  | inl long ↦
      too_long 0xC7 [] (inl refl) (ltb→lt 3 (length bytes) long) (rw long refl)
        (rw long (record { stored = refl; counted = refl }))
  | inr short ↦
      at_once (0 ∷ []) (omega arith) (ltb-false_le 3 (length bytes) short) (rw short refl)
        (rw short (record { stored = refl; counted = refl }))
]

abbrev hpm_intf : Intf
hpm_intf = record {
  my_addr = 0x20;
  target_addr = 0x20;
  target_channel = 0;
  transit_addr = 0;
  transit_channel = 0;
  max_request_data_size = 8;
  max_response_data_size = 40;
}

abbrev hpm_plan : Plan
hpm_plan = record { update_mask = 1; compares = false; is_lan = true }

-- The record of an upload with its header, up to the length.
abbrev upload_header : List ℕ
upload_header =
    2 ∷ 1 ∷ 0xFD ∷ 1 ∷ 0 ∷ 0 ∷ 0 ∷ 0 ∷ 0 ∷ 65 ∷ 0 ∷ 0 ∷ 0 ∷ 0 ∷ 0 ∷ 0 ∷ 0 ∷ 0 ∷ 0 ∷ 0 ∷ 0 ∷ 0 ∷ 0
    ∷ 0 ∷ 0 ∷ 0 ∷ 0 ∷ 0 ∷ 0 ∷ 0 ∷ []

abbrev five_byte_image : List ℕ
five_byte_image = upload_header ++ 5 ∷ 0 ∷ 0 ∷ 0 ∷ 11 ∷ 22 ∷ 33 ∷ 44 ∷ 55 ∷ []

-- Its header says 9 bytes.
abbrev cut_off_image : List ℕ
cut_off_image = upload_header ++ 9 ∷ 0 ∷ 0 ∷ 0 ∷ 11 ∷ 22 ∷ 33 ∷ 44 ∷ 55 ∷ []

abbrev hpm_port : Port (List ℕ × ℕ)
hpm_port = record { error_count = 0; device = (7 ∷ [], 9) }

abbrev ReadyFor : List ℕ → Type 0
ReadyFor image =
    Ready three_bytes 100 0 (λ d. d.0) (λ d. d.1) 3 three_bytes-TakesFirmware (omega arith) hpm_intf
      hpm_plan image 1 0 hpm_port

five_byte-Ready : ReadyFor five_byte_image
unfolding get_max_request_data_size component_id_of
five_byte-Ready = record {
  room = omega arith;
  small = omega arith;
  selected = refl;
  word = omega arith;
  header = omega arith;
  enough = omega arith;
  begins = ([], refl);
  none_yet = refl;
  first = refl;
}

cut_off-Ready : ReadyFor cut_off_image
unfolding get_max_request_data_size component_id_of
cut_off-Ready = record {
  room = omega arith;
  small = omega arith;
  selected = refl;
  word = omega arith;
  header = omega arith;
  enough = omega arith;
  begins = ([], refl);
  none_yet = refl;
  first = refl;
}

action_upload_firmware_exact_example :
    (u : Uploaded (List ℕ × ℕ)) × (action_upload_firmware three_bytes 100 0 hpm_intf hpm_plan
        five_byte_image 1 0 hpm_port
      ≡ done u)
    × (u.rc ≡ success)
    × (u.image_at ≡ 39)
    × (u.port.device.0 ≡ 11 ∷ 22 ∷ 33 ∷ 44 ∷ 55 ∷ [])
action_upload_firmware_exact_example =
    action_upload_firmware_exact three_bytes 100 0 (λ d. d.0) (λ d. d.1) 3 three_bytes-TakesFirmware
      (omega arith) hpm_intf hpm_plan five_byte_image 1 0 hpm_port five_byte-Ready (omega arith)
      (λ d h. (([], refl), refl))

action_upload_firmware_overruns_example :
    action_upload_firmware three_bytes 100 0 hpm_intf hpm_plan cut_off_image 1 0 hpm_port ≡ overrun
action_upload_firmware_overruns_example =
    action_upload_firmware_overruns three_bytes 100 0 (λ d. d.0) (λ d. d.1) 3
      three_bytes-TakesFirmware (omega arith) hpm_intf hpm_plan cut_off_image 1 0 hpm_port
      cut_off-Ready (omega arith)

-- A target that asks for what is not there: offset 200 and length 3.
abbrev asking : Target ℕ
asking = record {
  send =
      λ d req. (some (record { ccode = 0; bytes = 0 ∷ 200 ∷ 0 ∷ 0 ∷ 0 ∷ 3 ∷ 0 ∷ 0 ∷ 0 ∷ [] }), d);
  now = λ d. (0, d);
  upgrade_timeout = 0;
}

action_upload_firmware_within_example :
    action_upload_firmware asking 100 0 hpm_intf hpm_plan five_byte_image 1 0
      (record { error_count = 0; device = 0 })
    ≢ overrun
action_upload_firmware_within_example =
    action_upload_firmware_within asking 100 0 hpm_intf hpm_plan five_byte_image 1 0
      (record { error_count = 0; device = 0 }) (omega arith)

-- Its blocks are of three bytes and of the rest.
uploads :
    action_upload_firmware three_bytes 100 0 hpm_intf hpm_plan five_byte_image 1 0 hpm_port
    ≡ done (record {
      rc = success;
      image_at = 39;
      port = record { error_count = 0; device = (11 ∷ 22 ∷ 33 ∷ 44 ∷ 55 ∷ [], 2) };
    })
unfolding action_upload_firmware
uploads = refl

-- An image with a record of preparation and one of an upload, between its header and its signature.
abbrev hpm_header : List ℕ
hpm_header =
    80 ∷ 73 ∷ 67 ∷ 77 ∷ 71 ∷ 70 ∷ 87 ∷ 85 ∷ 0 ∷ 0 ∷ 0 ∷ 0 ∷ 0 ∷ 0 ∷ 0 ∷ 0 ∷ 0 ∷ 0 ∷ 0 ∷ 0 ∷ 0 ∷ 0
    ∷ 0 ∷ 0 ∷ 0 ∷ 0 ∷ 0 ∷ 0 ∷ 0 ∷ 0 ∷ 0 ∷ 0 ∷ 0 ∷ 0 ∷ 0x9E ∷ []

abbrev zeros : ℕ → List ℕ
zeros zero = []
zeros (suc n) = 0 ∷ zeros n

abbrev records : List ImageRecord
records = prepare 1 ∷ firmware 1 (zeros 27) (11 ∷ 22 ∷ 33 ∷ 44 ∷ 55 ∷ []) ∷ []

abbrev whole_image : List ℕ
whole_image = hpm_header ++ (all_bytes records ++ zeros 16)

upgrade_stage-performs_example :
    upgrade_stage three_bytes 100 0 hpm_intf hpm_plan whole_image hpm_port
    ≡ perform_all three_bytes 100 0 hpm_intf hpm_plan whole_image records
        (record { rc = success; image_at = 35; port = hpm_port })
upgrade_stage-performs_example =
    upgrade_stage-performs three_bytes 100 0 hpm_intf hpm_plan whole_image records hpm_header
      (zeros 16) hpm_port (tt, ((refl, omega arith), tt)) refl refl refl

-- The target has all of it, and the walk ends at the signature.
upgrades :
    upgrade_stage three_bytes 100 0 hpm_intf hpm_plan whole_image hpm_port
    ≡ done (record {
      rc = success;
      image_at = 77;
      port = record { error_count = 0; device = (11 ∷ 22 ∷ 33 ∷ 44 ∷ 55 ∷ [], 2) };
    })
unfolding upgrade_stage
upgrades = refl

-- The image is intact, for a digest that is its signature.
intact : validate_image_integrity (λ bytes. zeros 16) whole_image ≡ done success
unfolding validate_image_integrity
intact = refl
