-- ===== src/Hpm/Records.antt =====
-- lib/ipmi_hpmfwupg.c: the action records of an image as they are written, and where the action of each
-- leaves the pointer into the image.
use ipmitool.Common.{
  ℕ, ◌+◌, ◌-◌, ◌%◌, ◌<◌, ◌≡◌, refl, Bool, true, false, ltb, leb, ◌==◌, ◌||◌, ◌^◌, if◌then◌else◌,
  List, [], ◌∷◌, ◌++◌, length, u16, bit_and, arith,
}
use ipmitool.Lanplus.Session.{le32, read32}
use ipmitool.Intf.{Intf}
use ipmitool.Intf.Sizes.{get_max_request_data_size}
use ipmitool.Hpm.{
  Rc, success, error, upload_block_length, upload_retry, is_success, Run, done, overrun,
  out_of_fuel, ◌>>=◌, Port, Target,
}
use ipmitool.Hpm.Block.{initiate_upgrade_action, finish_firmware_upload}
use ipmitool.Hpm.Upload.{
  Plan, Upload, Uploaded, upload_loop, finish, upload_from, action_upload_firmware, component_id_of,
}
use ipmitool.Hpm.Stage.{action_on_components}

-- An action record: the backup or the preparation of the components of a mask, or the upload of
-- firmware with its version and its description.
pub data ImageRecord : Type 0 where
  backup prepare : ℕ → ImageRecord
  firmware : ℕ → List ℕ → List ℕ → ImageRecord

-- The byte that makes the sum of three bytes a multiple of 256.
abbrev pub closing : ℕ → ℕ → ℕ
closing action mask = (256 - (action + mask) % 256) % 256

abbrev pub record_bytes : ImageRecord → List ℕ
record_bytes (backup mask) = 0 ∷ mask ∷ closing 0 mask ∷ []
record_bytes (prepare mask) = 1 ∷ mask ∷ closing 1 mask ∷ []
record_bytes (firmware mask names bytes) =
    2 ∷ mask ∷ closing 2 mask ∷ (names ++ (le32 (length bytes) ++ bytes))

-- The version and the description have 27 bytes, and the length of the firmware fits its field.
abbrev pub IsWritable : ImageRecord → Type 0
IsWritable (backup mask) = Unit
IsWritable (prepare mask) = Unit
IsWritable (firmware mask names bytes) = (length names ≡ 27) × (length bytes < 4294967296)

-- A property of what a run gives, if it ends.
abbrev pub Ends : {A : Type 0} → (A → Type 0) → Run A → Type 0
Ends P (done a) = P a
Ends P overrun = Unit
Ends P out_of_fuel = Unit

>>=-Ends :
    {A B : Type 0} (Q : B → Type 0) (m : Run A) (f : A → Run B)
    → ((a : A) → Ends Q (f a))
    → Ends Q (m >>= f)
>>=-Ends Q (done a) f k = k a
>>=-Ends Q overrun f k = tt
>>=-Ends Q out_of_fuel f k = tt

-- Two continuations that agree where the run may end.
pub >>=-same :
    {A B : Type 0} (P : A → Type 0) (m : Run A) (f g : A → Run B)
    → Ends P m
    → ((a : A) → P a → f a ≡ g a)
    → (m >>= f) ≡ (m >>= g)
>>=-same P (done a) f g h k = k a h
>>=-same P overrun f g h k = refl
>>=-same P out_of_fuel f g h k = refl

-- A run that succeeds leaves the pointer behind the record.
abbrev pub Behind : {Device : Type 0} → ℕ → Uploaded Device → Type 0
Behind behind u = is_success u.rc ≡ true → u.image_at ≡ behind

if-Ends :
    {A : Type 0} (P : A → Type 0) (b : Bool) (x y : Run A)
    → Ends P x
    → Ends P y
    → Ends P (if b then x else y)
if-Ends P true x y h k = h
if-Ends P false x y h k = k

module _ {Device : Type 0} (t : Target Device) (fuel stale : ℕ) (intf : Intf) (plan : Plan)
    (image : List ℕ) where
  pub components-Ends :
      (action mask at : ℕ) (p : Port Device)
      → Ends (Behind (at + 3)) (action_on_components t fuel stale intf plan image action mask at p)
  unfolding action_on_components
  components-Ends action mask at p =
      if-Ends (Behind (at + 3)) (plan.compares || mask == 0) _ _ (λ _. refl)
        (>>=-Ends (Behind (at + 3)) (initiate_upgrade_action t fuel stale mask action p) _
          (λ r _. refl))

  finish-Ends :
      (component_id at behind : ℕ) (r : Rc × Upload Device)
      → Ends (Behind behind) (finish t fuel stale intf plan image component_id at behind r)
  unfolding finish
  finish-Ends component_id at behind (success, s) =
      >>=-Ends (Behind behind)
        (finish_firmware_upload t fuel stale plan.compares component_id s.total_sent s.port) _
        (λ r _. refl)
  finish-Ends component_id at behind (error, s) = λ e. cc e
  finish-Ends component_id at behind (upload_block_length, s) = λ e. cc e
  finish-Ends component_id at behind (upload_retry, s) = λ e. cc e

  from-Ends :
      (component_id at buf_length start firmware_length : ℕ) (r : Rc × Port Device)
      → Ends (Behind (start + firmware_length)) (
          upload_from t fuel stale intf plan image component_id at buf_length start firmware_length
            r)
  unfolding upload_from
  from-Ends component_id at buf_length start firmware_length (rc, p) =
      let behind = start + firmware_length in
      if-Ends (Behind behind) (is_success rc) _ _
        (>>=-Ends (Behind behind)
          (upload_loop t fuel stale plan.is_lan image start firmware_length fuel success _) _
          (finish-Ends component_id at behind))
        (λ _. refl)

  pub firmware-Ends :
      (mask at : ℕ) (p : Port Device)
      → Ends
          (Behind (at + 34 + read32 image (at + 30)))
          (action_upload_firmware t fuel stale intf plan image mask at p)
  unfolding action_upload_firmware
  firmware-Ends mask at p =
      let start : at + 3 + 31 ≡ at + 34 = omega arith in
      let field : at + 3 + 27 ≡ at + 30 = omega arith in
      let behind = at + 34 + read32 image (at + 30) in
      rw (start, field, action_upload_firmware)
        (if-Ends (Behind behind) (leb (get_max_request_data_size intf) 2) _ _ (λ e. cc e)
          (if-Ends (Behind behind) (ltb (length image) (at + 34)) _ _ tt (
            if-Ends (Behind behind) (bit_and (2 ^ component_id_of mask) plan.update_mask == 0) _ _
              (λ _. refl)
              (>>=-Ends (Behind behind)
                (initiate_upgrade_action t fuel stale mask (if plan.compares then 3 else 2) p) _
                (from-Ends (component_id_of mask) at (u16 (get_max_request_data_size intf - 2))
                  (at + 34) (read32 image (at + 30)))))))
