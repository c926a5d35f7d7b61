-- ===== src/Hpm/Runs.antt =====
-- lib/ipmi_hpmfwupg.c: runs that do not read behind the image, and the commands of an upload as such
-- runs.
use ipmitool.Common.{
  [], ◌||◌, ◌∷◌, ℕ, zero, suc, ◌<◌, ◌≡◌, ◌≢◌, refl, inl, inr, Bool-cases, Bool, true, false, ◌&&◌,
  ◌==◌, if◌then◌else◌, List, Option, none, some, u32, arith,
}
use ipmitool.Lanplus.Session.{le32}
use ipmitool.Fru.{Rs}
use ipmitool.Hpm.{
  Rc, success, error, Run, done, overrun, out_of_fuel, ◌>>=◌, Port, Target, send_cmd,
  get_upgrade_status, still_waits, wait_polls, wait_long_duration,
}
use ipmitool.Hpm.Block.{
  Answer, offsets_of, with_offsets, on_block, upload_firmware_block, on_plain,
  initiate_upgrade_action, finish_firmware_upload,
}

-- A run that does not read behind the image, with a property of what it gives.
abbrev pub Within : {A : Type 0} → (A → Type 0) → Run A → Type 0
Within P (done a) = P a
Within P overrun = ⊥
Within P out_of_fuel = Unit

abbrev pub Anything : {A : Type 0} → A → Type 0
Anything a = Unit

pub >>=-Within :
    {A B : Type 0} (P : A → Type 0) (Q : B → Type 0) (m : Run A) (f : A → Run B)
    → Within P m
    → ((a : A) → P a → Within Q (f a))
    → Within Q (m >>= f)
>>=-Within P Q (done a) f h k = k a h
>>=-Within P Q overrun f h k = h
>>=-Within P Q out_of_fuel f h k = h

pub Within-ne : {A : Type 0} (P : A → Type 0) (m : Run A) → Within P m → m ≢ overrun
Within-ne P (done a) h e = cc
Within-ne P overrun h e = h
Within-ne P out_of_fuel h e = cc

pub if-Within :
    {A : Type 0} (P : A → Type 0) (b : Bool) (x y : Run A)
    → (b ≡ true → Within P x)
    → (b ≡ false → Within P y)
    → Within P (if b then x else y)
if-Within P true x y h k = h refl
if-Within P false x y h k = k refl

module _ {Device : Type 0} (t : Target Device) where
  polls-Within :
      (fuel start latest : ℕ) (status : Rc × ℕ) (p : Port Device)
      → Within Anything (wait_polls t fuel start latest status p)
  unfolding wait_polls
  polls-Within zero start latest status p = tt
  polls-Within (suc fuel) start latest status p =
      elim (Bool-cases (still_waits t start latest status)) [
        | inl waits ↦
            let clock = t.now p.device in
            let next = get_upgrade_status t status.1 (record p { device = clock.1 }) in
            rw (waits, wait_polls) (polls-Within fuel start (u32 clock.0) next.0 next.1)
        | inr over ↦ rw (over, wait_polls) tt
      ]

  wait-Within :
      (fuel stale : ℕ) (p : Port Device) → Within Anything (wait_long_duration t fuel stale p)
  unfolding wait_long_duration
  wait-Within fuel stale p =
      let clock = t.now p.device in
      let first = get_upgrade_status t stale (record p { device = clock.1 }) in
      polls-Within fuel (u32 clock.0) (u32 clock.0) first.0 first.1

-- The offset and the length that a target may ask for are words.
abbrev pub Words : {Device : Type 0} → Answer Device → Type 0
Words a = (a.image_offset < 4294967296) × (a.block_length < 4294967296)

offsets_of_lt :
    (rsp : Rs) → ((offsets_of rsp).1.0 < 4294967296) × ((offsets_of rsp).1.1 < 4294967296)
unfolding offsets_of
offsets_of_lt rsp = ground arith

module _ {Device : Type 0} (t : Target Device) (fuel stale : ℕ) where
  on_block-Words : (rsp : Option Rs) (p : Port Device) → Within Words (on_block t fuel stale rsp p)
  unfolding on_block with_offsets
  on_block-Words none p = (omega arith, omega arith)
  on_block-Words (some rsp) p =
      let got = offsets_of rsp in
      let words = offsets_of_lt rsp in
      if-Within Words (got.0 == 0x80) _ _
        (λ _.
          >>=-Within Anything Words (wait_long_duration t fuel stale p) _
            (wait-Within t fuel stale p) (λ a _. words))
        (λ _. if-Within Words (got.0 == 0) _ _ (λ _. words) (λ _. words))

  plain-Within :
      (compares : Bool) (rsp : Option Rs) (p : Port Device)
      → Within Anything (on_plain t fuel stale compares rsp p)
  unfolding on_plain
  plain-Within compares none p = tt
  plain-Within compares (some rsp) p =
      if-Within Anything (rsp.ccode == 0x80) _ _ (λ _. wait-Within t fuel stale p)
        (λ _.
          if-Within {A = Rc × Port Device} Anything
            ((compares && rsp.ccode == 0x83) || rsp.ccode == 0) (done (success, p))
            (done (error, p)) (λ _. tt) (λ _. tt))

  pub block-Words :
      (block_number : ℕ) (bytes : List ℕ) (p : Port Device)
      → Within Words (upload_firmware_block t fuel stale block_number bytes p)
  unfolding upload_firmware_block
  block-Words block_number bytes p =
      let sent = send_cmd t (0x2C ∷ 0x32 ∷ 0 ∷ block_number ∷ bytes) p in
      on_block-Words sent.0 sent.1

module _ {Device : Type 0} (t : Target Device) (fuel stale : ℕ) where
  pub finishing-Within :
      (compares : Bool) (component_id image_length : ℕ) (p : Port Device)
      → Within Anything (finish_firmware_upload t fuel stale compares component_id image_length p)
  unfolding finish_firmware_upload
  finishing-Within compares component_id image_length p =
      let sent = send_cmd t (0x2C ∷ 0x33 ∷ 0 ∷ component_id ∷ le32 image_length) p in
      plain-Within t fuel stale compares sent.0 sent.1

  pub initiating-Within :
      (mask action : ℕ) (p : Port Device)
      → Within Anything (initiate_upgrade_action t fuel stale mask action p)
  unfolding initiate_upgrade_action
  initiating-Within mask action p =
      let sent = send_cmd t (0x2C ∷ 0x31 ∷ 0 ∷ mask ∷ action ∷ []) p in
      plain-Within t fuel stale false sent.0 sent.1
