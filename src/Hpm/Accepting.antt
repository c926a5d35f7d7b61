-- ===== src/Hpm/Accepting.antt =====
-- lib/ipmi_hpmfwupg.c: a target that takes the firmware, and what `HpmfwupgUploadFirmwareBlock` makes
-- of each of its answers.
use ipmitool.Common.{
  ℕ, ◌+◌, ◌≤◌, ◌<◌, ◌≡◌, ◌⊎◌, inl, inr, refl, ap, ltb, ltb-false, lt→ltb, List, ◌∷◌, ◌++◌, Option,
  some, true, false, length, u8,
}
use ipmitool.Fru.{Rs}
use ipmitool.Hpm.{
  Rc, success, upload_block_length, upload_retry, Run, done, Port, Target, is_retryable,
  count_after, send_cmd, wait_long_duration,
}
use ipmitool.Hpm.Block.{Answer, offsets_of, refusal, with_offsets, on_block, upload_firmware_block}

abbrev pub block_request : ℕ → List ℕ → List ℕ
block_request number bytes = 0x2C ∷ 0x32 ∷ 0 ∷ number ∷ bytes

abbrev pub answer_of : {Device : Type 0} → Rc → Port Device → Answer Device
answer_of rc p = record { rc = rc; image_offset = 0; block_length = 0; port = p }

-- A target with what it has received, and the block number that it expects. It takes a block of up
-- to `limit` bytes, at once or after a wait, and refuses a longer one. It may be busy, as long as
-- the count of errors allows another try. It asks for no offset.
module _ {Device : Type 0} (t : Target Device) (fuel stale : ℕ) (received : Device → List ℕ)
    (expected : Device → ℕ) (limit : ℕ) where
  pub record Took (p : Port Device) (bytes : List ℕ) (d : Device) : Type 0 where
    pub stored : received d ≡ received p.device ++ bytes
    pub counted : expected d ≡ u8 (expected p.device + 1)

  pub record Left (p : Port Device) (d : Device) : Type 0 where
    pub stored : received d ≡ received p.device
    pub counted : expected d ≡ expected p.device

  pub data Blocked (p : Port Device) (bytes : List ℕ) : Type 0 where
    at_once :
        (rest : List ℕ)
        → length rest ≤ 1
        → length bytes ≤ limit
        → (t.send p.device (block_request (expected p.device) bytes)).0
          ≡ some (record { ccode = 0; bytes = rest })
        → Took p bytes (t.send p.device (block_request (expected p.device) bytes)).1
        → Blocked p bytes
    in_progress :
        (rest : List ℕ) (p' : Port Device)
        → length rest ≤ 1
        → length bytes ≤ limit
        → (t.send p.device (block_request (expected p.device) bytes)).0
          ≡ some (record { ccode = 0x80; bytes = rest })
        → wait_long_duration t fuel stale (record {
          error_count = p.error_count;
          device = (t.send p.device (block_request (expected p.device) bytes)).1;
        })
          ≡ done (success, p')
        → Took p bytes p'.device
        → Blocked p bytes
    too_long :
        (code : ℕ) (rest : List ℕ)
        → (code ≡ 0xC7) ⊎ (code ≡ 0xC8)
        → limit < length bytes
        → (t.send p.device (block_request (expected p.device) bytes)).0
          ≡ some (record { ccode = code; bytes = rest })
        → Left p (t.send p.device (block_request (expected p.device) bytes)).1
        → Blocked p bytes
    busy :
        (code : ℕ) (rest : List ℕ)
        → (code ≡ 0x82) ⊎ (code ≡ 0x83)
        → p.error_count < 3
        → (t.send p.device (block_request (expected p.device) bytes)).0
          ≡ some (record { ccode = code; bytes = rest })
        → Left p (t.send p.device (block_request (expected p.device) bytes)).1
        → Blocked p bytes

  unfoldable pub TakesFirmware : Type 0
  TakesFirmware = (p : Port Device) (bytes : List ℕ) → 1 ≤ length bytes → Blocked p bytes

  abbrev block_of : Port Device → List ℕ → Run (Answer Device)
  block_of p bytes = upload_firmware_block t fuel stale (expected p.device) bytes p

  abbrev sent_to : Port Device → List ℕ → Device
  sent_to p bytes = (t.send p.device (block_request (expected p.device) bytes)).1

  sent_lem :
      (p : Port Device) (bytes : List ℕ) (rsp : Rs)
      → (t.send p.device (block_request (expected p.device) bytes)).0 ≡ some rsp
      → block_of p bytes
        ≡ on_block t fuel stale (some rsp) (record {
          error_count = count_after (some rsp) p.error_count;
          device = sent_to p bytes;
        })
  unfolding upload_firmware_block send_cmd
  sent_lem p bytes rsp e =
      ap
        (λ (x : Option Rs).
          on_block t fuel stale x
            (record { error_count = count_after x p.error_count; device = sent_to p bytes }))
        e

  pub at_once_lem :
      (p : Port Device) (bytes rest : List ℕ)
      → length rest ≤ 1
      → (t.send p.device (block_request (expected p.device) bytes)).0
        ≡ some (record { ccode = 0; bytes = rest })
      → block_of p bytes
        ≡ done (answer_of success (record { error_count = 0; device = sent_to p bytes }))
  unfolding on_block offsets_of with_offsets count_after
  at_once_lem p bytes rest short e =
      let none_more : ltb 1 (length rest) ≡ false = ltb-false 1 (length rest) short in
      rw (sent_lem p bytes (record { ccode = 0; bytes = rest }) e, none_more, on_block) refl

  pub in_progress_lem :
      (p p' : Port Device) (bytes rest : List ℕ)
      → length rest ≤ 1
      → (t.send p.device (block_request (expected p.device) bytes)).0
        ≡ some (record { ccode = 0x80; bytes = rest })
      → wait_long_duration t fuel stale
          (record { error_count = p.error_count; device = sent_to p bytes })
        ≡ done (success, p')
      → block_of p bytes ≡ done (answer_of success p')
  unfolding on_block offsets_of with_offsets count_after
  in_progress_lem p p' bytes rest short e waited =
      let none_more : ltb 1 (length rest) ≡ false = ltb-false 1 (length rest) short in
      rw (sent_lem p bytes (record { ccode = 0x80; bytes = rest }) e, none_more, waited, on_block)
        refl

  pub too_long_lem :
      (code : ℕ) (p : Port Device) (bytes rest : List ℕ)
      → (code ≡ 0xC7) ⊎ (code ≡ 0xC8)
      → (t.send p.device (block_request (expected p.device) bytes)).0
        ≡ some (record { ccode = code; bytes = rest })
      → block_of p bytes
        ≡ done (
            answer_of upload_block_length
              (record { error_count = p.error_count; device = sent_to p bytes }))
  unfolding on_block offsets_of with_offsets count_after refusal is_retryable
  too_long_lem code p bytes rest (inl c) e =
      rw (sent_lem p bytes (record { ccode = code; bytes = rest }) e, c, on_block) refl
  too_long_lem code p bytes rest (inr c) e =
      rw (sent_lem p bytes (record { ccode = code; bytes = rest }) e, c, on_block) refl

  pub busy_lem :
      (code : ℕ) (p : Port Device) (bytes rest : List ℕ)
      → (code ≡ 0x82) ⊎ (code ≡ 0x83)
      → p.error_count < 3
      → (t.send p.device (block_request (expected p.device) bytes)).0
        ≡ some (record { ccode = code; bytes = rest })
      → block_of p bytes
        ≡ done (
            answer_of upload_retry
              (record { error_count = p.error_count + 1; device = sent_to p bytes }))
  unfolding on_block offsets_of with_offsets count_after refusal is_retryable
  busy_lem code p bytes rest (inl c) few e =
      let again : ltb p.error_count 3 ≡ true = lt→ltb p.error_count 3 few in
      rw (sent_lem p bytes (record { ccode = code; bytes = rest }) e, c, again, on_block) refl
  busy_lem code p bytes rest (inr c) few e =
      let again : ltb p.error_count 3 ≡ true = lt→ltb p.error_count 3 few in
      rw (sent_lem p bytes (record { ccode = code; bytes = rest }) e, c, again, on_block) refl
