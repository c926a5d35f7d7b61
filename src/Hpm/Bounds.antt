-- ===== src/Hpm/Bounds.antt =====
-- lib/ipmi_hpmfwupg.c: what the upload of a component reads of the image, whatever the target answers.
use ipmitool.Common.{
  ◌^◌, ℕ, zero, suc, ◌+◌, ◌-◌, ◌≤◌, ◌<◌, ◌≡◌, ◌≢◌, refl, inl, inr, Bool-cases, Bool, true, false,
  ltb, ltb→lt, ltb-false, ◌&&◌, ◌==◌, leb, if◌then◌else◌, List, length, u16, bit_and, arith,
}
use ipmitool.Intf.{Intf}
use ipmitool.Intf.Sizes.{get_max_request_data_size}
use ipmitool.Lanplus.Session.{read32}
use ipmitool.Fru.Slices.{slice}
use ipmitool.Hpm.{
  Rc, success, error, upload_block_length, upload_retry, is_success, overrun, Port, Target,
}
use ipmitool.Hpm.Block.{upload_firmware_block, initiate_upgrade_action, finish_firmware_upload}
use ipmitool.Hpm.Upload.{
  Upload, count_of, reduced, taken, on_answer, upload_turn, upload_loop, Plan, Uploaded, finish,
  upload_from, action_upload_firmware, component_id_of,
}
use ipmitool.Hpm.Runs.{
  block-Words, initiating-Within, Within, Anything, >>=-Within, Within-ne, if-Within, Words,
  finishing-Within,
}

-- The part of the firmware that is uploaded ends within it.
abbrev InFirmware : {Device : Type 0} → ℕ → Upload Device → Type 0
InFirmware firmware_length s = s.temp_at + s.length_of_block ≤ firmware_length

module _ {Device : Type 0} (firmware_length : ℕ) where
  taken-InFirmware :
      (count offset len : ℕ) (s : Upload Device)
      → offset < 4294967296
      → len < 4294967296
      → InFirmware firmware_length s
      → InFirmware firmware_length (taken firmware_length count offset len s).1
  unfolding taken
  taken-InFirmware count offset len s p q h = ground arith

  reduced-InFirmware :
      (is_lan : Bool) (s : Upload Device)
      → InFirmware firmware_length s
      → InFirmware firmware_length (reduced is_lan s).1
  unfolding reduced
  reduced-InFirmware is_lan s h = ground arith

  answer-InFirmware :
      (is_lan : Bool) (count : ℕ) (s : Upload Device) (rc : Rc) (offset len : ℕ) (p : Port Device)
      → offset < 4294967296
      → len < 4294967296
      → InFirmware firmware_length s
      → InFirmware firmware_length
          (on_answer is_lan firmware_length count s
            (record { rc = rc; image_offset = offset; block_length = len; port = p })).1
  unfolding on_answer
  answer-InFirmware is_lan count s success offset len p a b h =
      taken-InFirmware count offset len (record s { port = p }) a b h
  answer-InFirmware is_lan count s error offset len p a b h = h
  answer-InFirmware is_lan count s upload_block_length offset len p a b h =
      reduced-InFirmware is_lan (record s { port = p }) h
  answer-InFirmware is_lan count s upload_retry offset len p a b h = h

-- A block does not go beyond the part that is uploaded.
count_of_le :
    {Device : Type 0} (s : Upload Device)
    → s.data_at < s.temp_at + s.length_of_block
    → s.data_at + count_of s ≤ s.temp_at + s.length_of_block
unfolding count_of
count_of_le s h = ground arith

not_both : {b : Bool} → b ≡ false → b ≡ true → ⊥
not_both no_ yes_ = cc

&&-true : (a b : Bool) → (a && b) ≡ true → (a ≡ true) × (b ≡ true)
&&-true true true h = (refl, refl)
&&-true true false h = cc
&&-true false b h = cc

module _ {Device : Type 0} (t : Target Device) (fuel stale : ℕ) (is_lan : Bool) (image : List ℕ)
    (start firmware_length : ℕ) (inside : start + firmware_length ≤ length image) where
  abbrev RunInFirmware : Rc × Upload Device → Type 0
  RunInFirmware r = InFirmware firmware_length r.1

  turn-Within :
      (s : Upload Device)
      → s.data_at < s.temp_at + s.length_of_block
      → InFirmware firmware_length s
      → Within RunInFirmware (upload_turn t fuel stale is_lan image start firmware_length s)
  unfolding upload_turn
  turn-Within s more h =
      let count = count_of s in
      let bytes = slice (start + s.data_at) count image in
      let answered = upload_firmware_block t fuel stale s.block_number bytes s.port in
      let small : ltb (length image) (start + s.data_at + count) ≡ false =
        ltb-false (length image) (start + s.data_at + count)
          (omega (arith, count_of_le s more, h, inside)) in
      rw (small, upload_turn)
        (>>=-Within Words RunInFirmware answered _
          (block-Words t fuel stale s.block_number bytes s.port)
          (λ a w.
            answer-InFirmware firmware_length is_lan count s a.rc a.image_offset a.block_length
              a.port w.0 w.1 h))

  loop-Within :
      (n : ℕ) (rc : Rc) (s : Upload Device)
      → InFirmware firmware_length s
      → Within RunInFirmware (upload_loop t fuel stale is_lan image start firmware_length n rc s)
  unfolding upload_loop
  loop-Within zero rc s h = tt
  loop-Within (suc n) rc s h =
      elim (Bool-cases (ltb s.data_at (s.temp_at + s.length_of_block) && is_success rc)) [
        | inr over ↦ rw (over, upload_loop) h
        | inl more ↦
            let lt =
              ltb→lt s.data_at (s.temp_at + s.length_of_block) (&&-true _ (is_success rc) more).0 in
            rw (more, upload_loop)
              (>>=-Within RunInFirmware RunInFirmware
                (upload_turn t fuel stale is_lan image start firmware_length s) _
                (turn-Within s lt h) (λ r k. loop-Within n r.0 r.1 k))
      ]

module _ {Device : Type 0} (t : Target Device) (fuel stale : ℕ) (intf : Intf) (plan : Plan)
    (image : List ℕ) where
  finish-Within :
      (component_id at behind : ℕ) (r : Rc × Upload Device)
      → Within Anything (finish t fuel stale intf plan image component_id at behind r)
  unfolding finish
  finish-Within component_id at behind (rc, s) =
      if-Within Anything (is_success rc) _ _
        (λ _.
          >>=-Within {A = Rc × Port Device} {B = Uploaded Device} Anything Anything
            (finish_firmware_upload t fuel stale plan.compares component_id s.total_sent s.port) _
            (finishing-Within t fuel stale plan.compares component_id s.total_sent s.port)
            (λ _ _. tt))
        (λ _. tt)

  from-Within :
      (component_id at buf_length start firmware_length : ℕ) (r : Rc × Port Device)
      → start + firmware_length ≤ length image
      → Within Anything (
          upload_from t fuel stale intf plan image component_id at buf_length start firmware_length
            r)
  unfolding upload_from
  from-Within component_id at buf_length start firmware_length (rc, p) h =
      if-Within Anything (is_success rc) _ _
        (λ _.
          >>=-Within (RunInFirmware t fuel stale plan.is_lan image start firmware_length h) Anything
            _ _
            (loop-Within t fuel stale plan.is_lan image start firmware_length h fuel success _
              (omega arith))
            (λ r _. finish-Within component_id at (start + firmware_length) r))
        (λ _. tt)

  -- Whatever the target answers, and whichever offsets it asks for, the upload of a component reads
  -- nothing behind the image in memory, if the firmware ends within the image by the length that
  -- its header gives.
  pub action_upload_firmware_within :
      (mask at : ℕ) (p : Port Device)
      → at + 34 + read32 image (at + 30) ≤ length image
      → action_upload_firmware t fuel stale intf plan image mask at p ≢ overrun
  unfolding action_upload_firmware
  action_upload_firmware_within mask at p h =
      let start = at + 3 + 31 in
      let firmware_length = read32 image (at + 3 + 27) in
      let word : at + 3 + 27 ≡ at + 30 = omega arith in
      let inside : start + firmware_length ≤ length image = rw word (omega (arith, h)) in
      let room : ltb (length image) start ≡ false =
        ltb-false (length image) start (omega (arith, inside)) in
      let component_id = component_id_of mask in
      let max_rq_size = get_max_request_data_size intf in
      let action : ℕ = if plan.compares then 3 else 2 in
      Within-ne Anything (action_upload_firmware t fuel stale intf plan image mask at p) (
        if-Within {A = Uploaded Device} Anything (leb max_rq_size 2) _ _ (λ _. tt)
          (λ _.
            if-Within {A = Uploaded Device} Anything (ltb (length image) start) _ _
              (λ over. absurd (not_both room over))
              (λ _.
                if-Within {A = Uploaded Device} Anything
                  (bit_and (2 ^ component_id) plan.update_mask == 0) _ _ (λ _. tt)
                  (λ _.
                    >>=-Within {A = Rc × Port Device} {B = Uploaded Device} Anything Anything
                      (initiate_upgrade_action t fuel stale mask action p) _
                      (initiating-Within t fuel stale mask action p)
                      (λ r _.
                        from-Within component_id at (u16 (max_rq_size - 2)) start firmware_length r
                          inside)))))
