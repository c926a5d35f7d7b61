-- ===== src/Hpm/ActionLaws.antt =====
-- lib/ipmi_hpmfwupg.c: `HpmFwupgActionUploadFirmware` as a whole, against a target that takes the
-- firmware.
use ipmitool.Common.{
  ℕ, ◌+◌, ◌-◌, ◌*◌, ◌^◌, ◌≤◌, ◌<◌, ◌≡◌, refl, sym, ap, ◌∙◌, false, leb, ◌==◌, if◌then◌else◌,
  ltb-false, List, [], length, bit_and, u16, arith,
}
use ipmitool.Intf.{Intf}
use ipmitool.Intf.Sizes.{get_max_request_data_size}
use ipmitool.Lanplus.Session.{read32}
use ipmitool.Fru.Slices.{slice}
use ipmitool.Hpm.{Rc, success, Run, done, overrun, ◌>>=◌, Port, Target}
use ipmitool.Hpm.Block.{initiate_upgrade_action, finish_firmware_upload}
use ipmitool.Hpm.Upload.{
  Upload, upload_loop, Plan, Uploaded, finish, upload_from, action_upload_firmware, component_id_of,
}
use ipmitool.Hpm.Accepting.{TakesFirmware}
use ipmitool.Hpm.UploadLaws.{Reached, left_to_do, loop_exact, loop_overruns}
use ipmitool.Hpm.Commands.{initiated_lem, finished_lem, initiate_request, finish_request, Done}

module _ {Device : Type 0} (t : Target Device) (fuel stale : ℕ) (received : Device → List ℕ)
    (expected : Device → ℕ) (limit : ℕ) (takes : TakesFirmware t fuel stale received expected limit)
    (some_limit : 1 ≤ limit) (intf : Intf) (plan : Plan) (image : List ℕ) (mask at : ℕ) where
  abbrev pub firmware_at : ℕ
  firmware_at = at + 34

  abbrev pub firmware_length : ℕ
  firmware_length = read32 image (at + 30)

  -- The component is selected, requests have room for data, and the target accepts the action.
  pub record Ready (p : Port Device) : Type 0 where
    pub room : 3 ≤ get_max_request_data_size intf
    pub small : get_max_request_data_size intf < 65536
    pub selected : (bit_and (2 ^ component_id_of mask) plan.update_mask == 0) ≡ false
    pub word : firmware_length < 4294967296
    pub header : firmware_at ≤ length image
    pub enough : firmware_length * 4 + 3 + get_max_request_data_size intf < fuel
    pub begins : Done t (initiate_request mask plan) p.device
    pub none_yet : received (t.send p.device (initiate_request mask plan)).1 ≡ []
    pub first : expected (t.send p.device (initiate_request mask plan)).1 ≡ 0

  abbrev first_state : Port Device → Upload Device
  first_state p = record {
    data_at = 0;
    temp_at = 0;
    length_of_block = firmware_length;
    buf_length = u16 (get_max_request_data_size intf - 2);
    buf_length_is_set = false;
    total_sent = 0;
    block_number = 0;
    port = p;
  }

  abbrev run_from : Port Device → Run (Rc × Upload Device)
  run_from p =
      upload_loop t fuel stale plan.is_lan image firmware_at firmware_length fuel success
        (first_state p)

  action_lem :
      (p p' : Port Device)
      → Ready p
      → initiate_upgrade_action t fuel stale mask (if plan.compares then 3 else 2) p
        ≡ done (success, p')
      → action_upload_firmware t fuel stale intf plan image mask at p ≡ (
          run_from p'
          >>= finish t fuel stale intf plan image
              (component_id_of mask)
              at
              (firmware_at + firmware_length))
  unfolding action_upload_firmware upload_from
  action_lem p p' ready e =
      let wide : leb (get_max_request_data_size intf) 2 ≡ false = ground (arith, ready.room) in
      let begin : at + 3 + 31 ≡ at + 34 = omega arith in
      let word_at : at + 3 + 27 ≡ at + 30 = omega arith in
      let inside = ltb-false (length image) firmware_at ready.header in
      rw (wide, begin, word_at, inside, ready.selected, e, action_upload_firmware) refl

  begin_lem :
      (p p' : Port Device) (ready : Ready p)
      → p'.device ≡ (t.send p.device (initiate_request mask plan)).1
      → Reached t fuel stale received expected limit takes some_limit plan.is_lan image firmware_at
          firmware_length ready.word 0
          (first_state p')
  begin_lem p p' ready e = record {
    at = refl;
    temp = refl;
    len = refl;
    n_le = omega arith;
    sent = refl;
    stored = ap received e ∙ ready.none_yet;
    number = sym (ap expected e ∙ ready.first);
    some_buf = omega (arith, ready.room, ready.small);
    small_buf = omega (arith, ready.room, ready.small);
    settled = λ set. cc set;
  }

  finish_lem :
      (s : Upload Device) (p' : Port Device)
      → s.total_sent ≡ firmware_length
      → finish_firmware_upload t fuel stale plan.compares
          (component_id_of mask)
          firmware_length
          s.port
        ≡ done (success, p')
      → finish t fuel stale intf plan image
          (component_id_of mask)
          at
          (firmware_at + firmware_length)
          (success, s)
        ≡ done (record { rc = success; image_at = firmware_at + firmware_length; port = p' })
  unfolding finish
  finish_lem s p' sent e = rw (sent, e, finish) refl

  abbrev to_do_at : firmware_length < 4294967296 → Port Device → ℕ
  to_do_at ready_word p =
      left_to_do t fuel stale received expected limit takes some_limit plan.is_lan image firmware_at
        firmware_length ready_word 0 (first_state p)

  few_rounds : (p p' : Port Device) (ready : Ready p) → to_do_at ready.word p' < fuel
  few_rounds p p' ready = omega (arith, ready.enough, ready.room, ready.small)

  -- The upload of a component succeeds, the pointer into the image is then behind the firmware, and
  -- the target has received exactly the firmware that stands in the image: where the component is
  -- selected, requests have room for a byte or more, and the firmware is within the image; with a
  -- target that begins and finishes the upload, expects blocks in order, takes them up to a limit,
  -- at once or after a wait, refuses longer ones, and may be busy as often as the count of errors
  -- allows; with rounds for the length of the firmware.
  pub action_upload_firmware_exact :
      (p : Port Device)
      → Ready p
      → firmware_at + firmware_length ≤ length image
      → ((d : Device)
          → received d ≡ slice firmware_at firmware_length image
          → Done t (finish_request mask firmware_length) d
            × (received (t.send d (finish_request mask firmware_length)).1 ≡ received d))
      → (u : Uploaded Device) × (action_upload_firmware t fuel stale intf plan image mask at p
          ≡ done u)
        × (u.rc ≡ success)
        × (u.image_at ≡ firmware_at + firmware_length)
        × (received u.port.device ≡ slice firmware_at firmware_length image)
  action_upload_firmware_exact p ready inside finishes =
      let begun = initiated_lem t fuel stale mask plan p ready.begins in
      let first = begin_lem p begun.0 ready begun.1.1 in
      let looped =
        loop_exact t fuel stale received expected limit takes some_limit plan.is_lan image
          firmware_at firmware_length ready.word fuel 0 (first_state begun.0) inside first
          (few_rounds p begun.0 ready) in
      let s = looped.0 in
      let whole = looped.1.1.stored in
      let end = finishes s.port.device whole in
      let finished = finished_lem t fuel stale mask firmware_length plan.compares s.port end.0 in
      (
        record { rc = success; image_at = firmware_at + firmware_length; port = finished.0 },
        action_lem p begun.0 ready begun.1.0
            ∙ ap
                (λ r.
                  r
                  >>= finish t fuel stale intf plan image (component_id_of mask) at
                      (firmware_at + firmware_length))
                looped.1.0
            ∙ finish_lem s finished.0 looped.1.1.sent finished.1.0,
        refl,
        refl,
        ap received finished.1.1 ∙ end.1 ∙ whole,
      )

  -- The defect of the unchecked length. Where the length in the firmware's header goes beyond the
  -- image, and everything else is as it should be, the upload reads behind the image in memory.
  pub action_upload_firmware_overruns :
      (p : Port Device)
      → Ready p
      → length image < firmware_at + firmware_length
      → action_upload_firmware t fuel stale intf plan image mask at p ≡ overrun
  action_upload_firmware_overruns p ready outside =
      let begun = initiated_lem t fuel stale mask plan p ready.begins in
      let first = begin_lem p begun.0 ready begun.1.1 in
      action_lem p begun.0 ready begun.1.0
      ∙ ap
          (λ r.
            r
            >>= finish t fuel stale intf plan image (component_id_of mask) at
                (firmware_at + firmware_length))
          (loop_overruns t fuel stale received expected limit takes some_limit plan.is_lan image
            firmware_at firmware_length ready.word fuel 0 (first_state begun.0) outside
            (omega (arith, ready.header)) first (few_rounds p begun.0 ready))
