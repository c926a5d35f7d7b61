-- ===== src/Hpm.antt =====
-- lib/ipmi_hpmfwupg.c: the upgrade of firmware by HPM.1. The results, the commands, and the polls of a
-- long command. `Device` is what the target and the channel to it remember.
pub mod Block
pub mod Upload
pub mod Stage
pub mod Records
pub mod Actions
pub mod StageLaws
pub mod Runs
pub mod Bounds
pub mod Accepting
pub mod Rounds
pub mod UploadLaws
pub mod Commands
pub mod ActionLaws
use ipmitool.Common.{
  ℕ, zero, suc, ◌+◌, ◌-◌, ◌*◌, List, [], ◌∷◌, Option, none, some, Bool, true, false, ltb, ◌==◌,
  ◌&&◌, ◌||◌, if◌then◌else◌, get_or, total, u8, u32,
}
use ipmitool.Fru.{Rs, sub_u32}
use ipmitool.Sdr.{Send}

-- HPMFWUPG_SUCCESS, HPMFWUPG_ERROR, HPMFWUPG_UPLOAD_BLOCK_LENGTH and HPMFWUPG_UPLOAD_RETRY.
pub data Rc : Type 0 where
  success error upload_block_length upload_retry : Rc

abbrev pub is_success : Rc → Bool
is_success success = true
is_success error = false
is_success upload_block_length = false
is_success upload_retry = false

-- A run ends, or reads behind the image in memory, or has used up the fuel of the model.
pub data Run (A : Type 0) : Type 0 where
  done : A → Run A
  overrun : Run A
  out_of_fuel : Run A

infixl 5 ◌>>=◌
abbrev pub ◌>>=◌ : {A B : Type 0} → Run A → (A → Run B) → Run B
done a >>= f = f a
overrun >>= f = overrun
out_of_fuel >>= f = out_of_fuel

-- The static `errorCount`, and the rest.
pub record Port (Device : Type 0) : Type 0 where
  pub error_count : ℕ
  pub device : Device

-- `HpmfwupgSendCmd` with its retries, given the network function, the command and the data; the
-- clock; and the upgrade timeout of the target's capabilities.
pub record Target (Device : Type 0) : Type 0 where
  pub send : Send Device
  pub now : Device → ℕ × Device
  pub upgrade_timeout : ℕ

-- `HpmfwupgCalculateChecksum`
unfoldable pub calculate_checksum : List ℕ → ℕ
calculate_checksum bytes = u8 (total bytes)

-- `HPMFWUPG_IS_RETRYABLE`, with the count after it.
unfoldable pub is_retryable : ℕ → ℕ → Bool × ℕ
is_retryable code count =
    if code == 0x83 || code == 0x82 || code == 0x80
    then (ltb count 3, count + 1)
    else (false, count)

-- A command that is answered with code 0 clears the count.
unfoldable pub count_after : Option Rs → ℕ → ℕ
count_after none count = count
count_after (some rsp) count = if rsp.ccode == 0 then 0 else count

module _ {Device : Type 0} (t : Target Device) where
  unfoldable pub send_cmd : List ℕ → Port Device → Option Rs × Port Device
  unfolding count_after
  send_cmd req p =
      let sent = t.send p.device req in
      (sent.0, record { error_count = count_after sent.0 p.error_count; device = sent.1 })

-- `HpmfwupgGetUpgradeStatus`, after its command: the result and `lastCmdCompCode`, which is `last`
-- before.
unfoldable pub status_of : {Device : Type 0} → ℕ → Option Rs → Port Device → (Rc × ℕ) × Port Device
unfolding is_retryable
status_of last none p = ((error, last), p)
status_of last (some rsp) p =
    if rsp.ccode == 0
    then ((success, get_or rsp.bytes 2 0), p)
    else let retryable = is_retryable rsp.ccode p.error_count in
      let p' = record p { error_count = retryable.1 } in
      (if retryable.0 then ((success, 0x80), p') else ((error, last), p'))

-- The end of `HpmfwupgWaitLongDurationCmd`.
unfoldable pub waited : Rc × ℕ → Rc
waited (rc, last) = if last == 0 then rc else error

module _ {Device : Type 0} (t : Target Device) where
  unfoldable pub get_upgrade_status : ℕ → Port Device → (Rc × ℕ) × Port Device
  unfolding status_of send_cmd
  get_upgrade_status last p =
      let sent = send_cmd t (0x2C ∷ 0x34 ∷ 0 ∷ []) p in status_of last sent.0 sent.1

  -- Is the command in progress, and the time not over?
  unfoldable pub still_waits : ℕ → ℕ → Rc × ℕ → Bool
  still_waits start latest (rc, last) =
      (last == 0x80 || last == 0xD5)
      && ltb (sub_u32 latest start) (u32 (t.upgrade_timeout * 5))
      && is_success rc

  -- The loop, from the time `start` and the last time that was read.
  unfoldable pub wait_polls : ℕ → ℕ → ℕ → Rc × ℕ → Port Device → Run (Rc × Port Device)
  unfolding still_waits get_upgrade_status waited
  wait_polls zero start latest status p = out_of_fuel
  wait_polls (suc fuel) start latest status p = elim (still_waits start latest status) [
    | false ↦ done (waited status, p)
    | true ↦
        let clock = t.now p.device in
        let next = get_upgrade_status status.1 (record p { device = clock.1 }) in
        wait_polls fuel start (u32 clock.0) next.0 next.1
  ]

  -- `HpmfwupgWaitLongDurationCmd` in the context of an upgrade; `stale` is what `lastCmdCompCode`
  -- holds when the function begins, which does not set it.
  unfoldable pub wait_long_duration : ℕ → ℕ → Port Device → Run (Rc × Port Device)
  unfolding wait_polls get_upgrade_status
  wait_long_duration fuel stale p =
      let clock = t.now p.device in
      let first = get_upgrade_status stale (record p { device = clock.1 }) in
      wait_polls fuel (u32 clock.0) (u32 clock.0) first.0 first.1
