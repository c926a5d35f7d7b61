-- ===== src/Hpm/Commands.antt =====
-- lib/ipmi_hpmfwupg.c: the commands that begin and finish an upload, when they are answered with 0.
use ipmitool.Common.{ℕ, ◌≡◌, refl, Bool, true, false, if◌then◌else◌, List, [], ◌∷◌, Option, some}
use ipmitool.Lanplus.Session.{le32}
use ipmitool.Fru.{Rs}
use ipmitool.Hpm.{success, done, Port, Target, send_cmd}
use ipmitool.Hpm.Block.{on_plain, initiate_upgrade_action, finish_firmware_upload}
use ipmitool.Hpm.Upload.{Plan, component_id_of}

abbrev pub initiate_request : ℕ → Plan → List ℕ
initiate_request mask plan = 0x2C ∷ 0x31 ∷ 0 ∷ mask ∷ (if plan.compares then 3 else 2) ∷ []

abbrev pub finish_request : ℕ → ℕ → List ℕ
finish_request mask image_length = 0x2C ∷ 0x33 ∷ 0 ∷ component_id_of mask ∷ le32 image_length

-- The command is answered with code 0.
abbrev pub Done : {Device : Type 0} → Target Device → List ℕ → Device → Type 0
Done t req d = (rest : List ℕ) × ((t.send d req).0 ≡ some (record { ccode = 0; bytes = rest }))

module _ {Device : Type 0} (t : Target Device) (fuel stale : ℕ) where
  plain_done :
      (compares : Bool) (rsp : Option Rs) (p : Port Device) (rest : List ℕ)
      → rsp ≡ some (record { ccode = 0; bytes = rest })
      → on_plain t fuel stale compares rsp p ≡ done (success, p)
  unfolding on_plain
  plain_done true rsp p rest e = rw (e, on_plain) refl
  plain_done false rsp p rest e = rw (e, on_plain) refl

  pub initiated_lem :
      (mask : ℕ) (plan : Plan) (p : Port Device)
      → Done t (initiate_request mask plan) p.device
      → (p' : Port Device) × ((initiate_upgrade_action t fuel stale mask
              (if plan.compares then 3 else 2)
              p
            ≡ done (success, p'))
          × (p'.device ≡ (t.send p.device (initiate_request mask plan)).1))
  unfolding initiate_upgrade_action
  initiated_lem mask plan p (rest, e) =
      let sent = send_cmd t (initiate_request mask plan) p in
      (sent.1, (plain_done false sent.0 sent.1 rest (first_lem e), device_lem))
    where
      first_lem :
          {x : Option Rs}
          → (t.send p.device (initiate_request mask plan)).0 ≡ x
          → (send_cmd t (initiate_request mask plan) p).0 ≡ x
      first_lem e = unfold send_cmd in e

      device_lem :
          (send_cmd t (initiate_request mask plan) p).1.device
          ≡ (t.send p.device (initiate_request mask plan)).1
      device_lem = unfold send_cmd in refl

  pub finished_lem :
      (mask image_length : ℕ) (compares : Bool) (p : Port Device)
      → Done t (finish_request mask image_length) p.device
      → (p' : Port Device) × ((finish_firmware_upload t fuel stale compares
              (component_id_of mask)
              image_length
              p
            ≡ done (success, p'))
          × (p'.device ≡ (t.send p.device (finish_request mask image_length)).1))
  unfolding finish_firmware_upload
  finished_lem mask image_length compares p (rest, e) =
      let sent = send_cmd t (finish_request mask image_length) p in
      (sent.1, (plain_done compares sent.0 sent.1 rest (first_lem e), device_lem))
    where
      first_lem :
          {x : Option Rs}
          → (t.send p.device (finish_request mask image_length)).0 ≡ x
          → (send_cmd t (finish_request mask image_length) p).0 ≡ x
      first_lem e = unfold send_cmd in e

      device_lem :
          (send_cmd t (finish_request mask image_length) p).1.device
          ≡ (t.send p.device (finish_request mask image_length)).1
      device_lem = unfold send_cmd in refl
