-- ===== src/Hpm/UploadLaws.antt =====
-- lib/ipmi_hpmfwupg.c: the loop of `HpmFwupgActionUploadFirmware` against a target that takes the
-- firmware.
use mathlib.Core.Path.{subst}
use ipmitool.Common.{
  ℕ, zero, suc, ◌+◌, ◌≤◌, ◌<◌, ◌≡◌, ◌⊎◌, inl, inr, refl, ap₂, ◌∙◌, Bool-cases, Bool, true, false,
  ltb, ltb-false, ltb-false_le, ltb→lt, lt→ltb, List, length, arith,
}
use ipmitool.Fru.Slices.{slice, length-slice}
use ipmitool.Hpm.{Rc, success, Run, done, overrun, Target}
use ipmitool.Hpm.Block.{Answer, upload_firmware_block}
use ipmitool.Hpm.Upload.{Upload, count_of, on_answer, upload_turn, upload_loop}
use ipmitool.Hpm.Accepting.{
  at_once, in_progress, too_long, busy, TakesFirmware, at_once_lem, in_progress_lem, too_long_lem,
  busy_lem,
}
use ipmitool.Hpm.Rounds.{
  Progress, to_do, Advances, count_of_lem, after_taken, after_reduced, after_busy,
}

module _ {Device : Type 0} (t : Target Device) (fuel stale : ℕ) (received : Device → List ℕ)
    (expected : Device → ℕ) (limit : ℕ) (takes : TakesFirmware t fuel stale received expected limit)
    (some_limit : 1 ≤ limit) (is_lan : Bool) (image : List ℕ) (start firmware_length : ℕ)
    (word : firmware_length < 4294967296) where
  -- The same for these parameters.
  abbrev pub Reached : ℕ → Upload Device → Type 0
  Reached n s =
      Progress t fuel stale received expected limit takes some_limit is_lan image start
        firmware_length word n s

  abbrev pub left_to_do : ℕ → Upload Device → ℕ
  left_to_do n s =
      to_do t fuel stale received expected limit takes some_limit is_lan image start firmware_length
        word n s

  abbrev Advance : ℕ → ℕ → Upload Device → Run (Rc × Upload Device) → Type 0
  Advance n count s r =
      Advances t fuel stale received expected limit takes some_limit is_lan image start
        firmware_length word n count s r

  turn_lem :
      (s : Upload Device) (a : Answer Device)
      → s.block_number ≡ expected s.port.device
      → start + s.data_at + count_of s ≤ length image
      → upload_firmware_block t fuel stale
          (expected s.port.device)
          (slice (start + s.data_at) (count_of s) image)
          s.port
        ≡ done a
      → upload_turn t fuel stale is_lan image start firmware_length s
        ≡ done (on_answer is_lan firmware_length (count_of s) s a)
  unfolding upload_turn
  turn_lem s a number room e =
      let small : ltb (length image) (start + s.data_at + count_of s) ≡ false =
        ltb-false (length image) (start + s.data_at + count_of s) room in
      rw (small, number, e, upload_turn) refl

  not_settled :
      (n : ℕ) (s : Upload Device)
      → Reached n s
      → n < firmware_length
      → limit < s.buf_length
      → s.buf_length_is_set ≡ false
  not_settled n s p lt over = elim (Bool-cases s.buf_length_is_set) [
    | inr fresh ↦ fresh
    | inl set ↦ absurd (clash (p.settled set))
  ]
    where
      clash : (s.buf_length ≤ limit) ⊎ (n ≡ firmware_length) → ⊥
      clash (inl low) = omega (arith, low, over)
      clash (inr last) = omega (arith, last, lt)

  advance :
      (n : ℕ) (s : Upload Device)
      → Reached n s
      → n < firmware_length
      → start + n + count_of s ≤ length image
      → Advance n (count_of s) s (upload_turn t fuel stale is_lan image start firmware_length s)
  unfolding TakesFirmware on_answer
  advance n s p lt room =
      let count = count_of s in
      let bytes = slice (start + s.data_at) count image in
      let room' : start + s.data_at + count ≤ length image = omega (arith, room, p.at) in
      let chunk : length bytes ≡ count = length-slice (start + s.data_at) count image room' in
      let sizes =
        count_of_lem t fuel stale received expected limit takes some_limit is_lan image start
          firmware_length word n s p lt in
      let turn = upload_turn t fuel stale is_lan image start firmware_length s in
      elim (takes s.port bytes (omega (arith, chunk, sizes.0))) [
        | at_once rest short fits e took ↦
            after_taken t fuel stale received expected limit takes some_limit is_lan image start
              firmware_length word n count s _ turn p sizes room (omega (arith, chunk, fits)) took
              (turn_lem s _ p.number room'
                (at_once_lem t fuel stale received expected limit s.port bytes rest short e))
        | in_progress rest p' short fits e waits took ↦
            after_taken t fuel stale received expected limit takes some_limit is_lan image start
              firmware_length word n count s p' turn p sizes room (omega (arith, chunk, fits)) took
              (turn_lem s _ p.number room' (
                in_progress_lem t fuel stale received expected limit s.port p' bytes rest short e
                  waits))
        | too_long code rest c over e left ↦
            let longer : limit < s.buf_length = omega (arith, chunk, over, sizes.1) in
            after_reduced t fuel stale received expected limit takes some_limit is_lan image start
              firmware_length word n count s _ turn p (not_settled n s p lt longer)
              (omega (arith, longer, some_limit)) left
              (turn_lem s _ p.number room'
                (too_long_lem t fuel stale received expected limit code s.port bytes rest c e))
        | busy code rest c few e left ↦
            after_busy t fuel stale received expected limit takes some_limit is_lan image start
              firmware_length word n count s _ turn p few left
              (turn_lem s _ p.number room'
                (busy_lem t fuel stale received expected limit code s.port bytes rest c few e))
      ]

  goes_on_lem :
      (n : ℕ) (s : Upload Device)
      → Reached n s
      → ltb s.data_at (s.temp_at + s.length_of_block) ≡ ltb n firmware_length
  goes_on_lem n s p = ap₂ ltb p.at (ap₂ (λ (a b : ℕ). a + b) p.temp p.len ∙ omega arith)

  abbrev loop : ℕ → Upload Device → Run (Rc × Upload Device)
  loop rounds s = upload_loop t fuel stale is_lan image start firmware_length rounds success s

  -- The whole firmware is received.
  pub loop_exact :
      (rounds n : ℕ) (s : Upload Device)
      → start + firmware_length ≤ length image
      → Reached n s
      → left_to_do n s < rounds
      → (s' : Upload Device) × ((loop rounds s ≡ done (success, s')) × Reached firmware_length s')
  unfolding upload_loop
  loop_exact zero n s inside p h = absurd (omega (arith, h))
  loop_exact (suc rounds) n s inside p h = elim (Bool-cases (ltb n firmware_length)) [
    | inl more ↦
        let lt = ltb→lt n firmware_length more in
        let next = advance n s p lt (
          omega (
            arith,
            (count_of_lem t fuel stale received expected limit takes some_limit is_lan image start
                firmware_length word n s p lt).2,
            inside,
          )) in
        let rest =
          loop_exact rounds next.0 next.1 inside next.2.1.0 (omega (arith, next.2.1.1.0, h)) in
        (rest.0, (rw (goes_on_lem n s p, more, next.2.0, upload_loop) rest.1.0, rest.1.1))
    | inr over ↦
        let whole : n ≡ firmware_length =
          omega (arith, p.n_le, ltb-false_le n firmware_length over) in
        (s, (rw (goes_on_lem n s p, over, upload_loop) refl, subst (λ k. Reached k s) whole p))
  ]

  -- Firmware that does not end within the image is read beyond it.
  pub loop_overruns :
      (rounds n : ℕ) (s : Upload Device)
      → length image < start + firmware_length
      → start + n ≤ length image
      → Reached n s
      → left_to_do n s < rounds
      → loop rounds s ≡ overrun
  unfolding upload_loop
  loop_overruns zero n s outside before p h = absurd (omega (arith, h))
  loop_overruns (suc rounds) n s outside before p h =
      let lt : n < firmware_length = omega (arith, outside, before) in
      let more = lt→ltb n firmware_length lt in
      elim (Bool-cases (ltb (length image) (start + s.data_at + count_of s))) [
        | inl over ↦ rw (goes_on_lem n s p, more, over_lem s over, upload_loop) refl
        | inr within ↦
            let room : start + n + count_of s ≤ length image =
              omega (
                arith,
                ltb-false_le (length image) (start + s.data_at + count_of s) within,
                p.at,
              ) in
            let next = advance n s p lt room in
            rw (goes_on_lem n s p, more, next.2.0, upload_loop)
              (loop_overruns rounds next.0 next.1 outside (omega (arith, next.2.1.1.1, room))
                next.2.1.0 (omega (arith, next.2.1.1.0, h)))
      ]
    where
      over_lem :
          (s : Upload Device)
          → ltb (length image) (start + s.data_at + count_of s) ≡ true
          → upload_turn t fuel stale is_lan image start firmware_length s ≡ overrun
      over_lem s over = rw (over, upload_turn) refl
