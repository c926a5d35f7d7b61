-- ===== src/Hpm/Actions.antt =====
-- lib/ipmi_hpmfwupg.c: what `HpmfwupgUpgradeStage` does where a record stands in the image.
use mathlib.Core.Path.{subst⁻¹}
use ipmitool.Common.{
  ℕ, ◌+◌, ◌≤◌, ◌<◌, ◌≡◌, refl, sym, ap, ◌∙◌, List, [], ◌∷◌, ◌++◌, append_assoc, length,
  length-append, get_or, get_or-behind, take, drop_middle, u8, bit_and, arith,
}
use ipmitool.Lanplus.Session.{le32, read32}
use ipmitool.Intf.{Intf}
use ipmitool.Fru.Slices.{slice}
use ipmitool.Hpm.{success, Run, done, Port, Target, calculate_checksum}
use ipmitool.Hpm.Upload.{Plan, Uploaded, action_upload_firmware}
use ipmitool.Hpm.Stage.{validate_action_record, action_on_components, perform_action, action_round}
use ipmitool.Hpm.Records.{
  ImageRecord, backup, prepare, firmware, closing, record_bytes, IsWritable, Ends, Behind,
  components-Ends, firmware-Ends,
}

-- What stands right behind a part of the image.
get_or_at : (x : ℕ) (front rest : List ℕ) → get_or (front ++ x ∷ rest) (length front) 0 ≡ x
get_or_at x [] rest = refl
get_or_at x (y ∷ front) rest = get_or_at x front rest

module _ (action mask : ℕ) (front rest : List ℕ) where
  abbrev with_record : List ℕ
  with_record = front ++ action ∷ mask ∷ closing action mask ∷ rest

  valid_record : validate_action_record with_record (length front) ≡ done success
  unfolding validate_action_record calculate_checksum
  valid_record =
      let three = action ∷ mask ∷ closing action mask ∷ [] in
      let piece : slice (length front) 3 with_record ≡ three =
        ap (take 3)
          (drop_middle (length front) front (action ∷ mask ∷ closing action mask ∷ rest) refl) in
      let closed : u8 (action + (mask + (closing action mask + 0))) ≡ 0 = omega arith in
      rw (piece, closed) refl

  mask_at : get_or with_record (length front + 1) 0 ≡ mask
  mask_at = get_or-behind (length front) 1 0 front (action ∷ mask ∷ closing action mask ∷ rest) refl

-- The length of the firmware in the image.
firmware_length_at :
    (mask : ℕ) (names bytes front rest : List ℕ)
    → length names ≡ 27
    → length bytes < 4294967296
    → read32 (front ++ (record_bytes (firmware mask names bytes) ++ rest)) (length front + 30)
      ≡ length bytes
firmware_length_at mask names bytes front rest size word =
    let head = front ++ 2 ∷ mask ∷ closing 2 mask ∷ names in
    let at : length head ≡ length front + 30 =
      omega (arith, length-append front (2 ∷ mask ∷ closing 2 mask ∷ names), size) in
    let field = le32 (length bytes) ++ (bytes ++ rest) in
    let whole : front ++ (record_bytes (firmware mask names bytes) ++ rest) ≡ head ++ field =
      ap (λ (t : List ℕ). front ++ 2 ∷ mask ∷ closing 2 mask ∷ t)
        (append_assoc names (le32 (length bytes) ++ bytes) rest)
      ∙ sym (append_assoc front (2 ∷ mask ∷ closing 2 mask ∷ names) field) in
    let x = length front + 30 in
    let e0 : get_or (head ++ field) x 0 ≡ u8 (length bytes) =
      ap (get_or_of (head ++ field)) (sym at) ∙ get_or_at _ head _ in
    let e1 = get_or-behind x 1 0 head field at in
    let e2 = get_or-behind x 2 0 head field at in
    let e3 = get_or-behind x 3 0 head field at in rw (whole, e0, e1, e2, e3) (omega (arith, word))
  where
    get_or_of : List ℕ → ℕ → ℕ
    get_or_of xs i = get_or xs i 0

pub some_bytes : (r : ImageRecord) → 3 ≤ length (record_bytes r)
some_bytes (backup mask) = omega arith
some_bytes (prepare mask) = omega arith
some_bytes (firmware mask names bytes) = omega arith

module _ {Device : Type 0} (t : Target Device) (fuel stale : ℕ) (intf : Intf) (plan : Plan)
    (image : List ℕ) where
  -- The action of one record, that stands at `at`.
  abbrev pub perform : ImageRecord → ℕ → Port Device → Run (Uploaded Device)
  perform (backup mask) at p =
      action_on_components t fuel stale intf plan image 0 (bit_and plan.update_mask mask) at p
  perform (prepare mask) at p =
      action_on_components t fuel stale intf plan image 1 (bit_and plan.update_mask mask) at p
  perform (firmware mask names bytes) at p =
      action_upload_firmware t fuel stale intf plan image mask at p

  performed :
      (action mask : ℕ) (front rest : List ℕ) (p : Port Device)
      → image ≡ front ++ action ∷ mask ∷ closing action mask ∷ rest
      → action_round t fuel stale intf plan image (length front) p
        ≡ perform_action t fuel stale intf plan image (length front) p
  unfolding action_round
  performed action mask front rest p e =
      let valid : validate_action_record image (length front) ≡ done success =
        ap (λ (i : List ℕ). validate_action_record i (length front)) e
        ∙ valid_record action mask front rest in
      rw (valid, action_round) refl

  module _ (action mask : ℕ) (front rest : List ℕ)
      (e : image ≡ front ++ action ∷ mask ∷ closing action mask ∷ rest) where
    action_is : get_or image (length front) 0 ≡ action
    action_is =
        ap (λ (i : List ℕ). get_or i (length front) 0) e
        ∙ get_or_at action front (mask ∷ closing action mask ∷ rest)

    mask_is : get_or image (length front + 1) 0 ≡ mask
    mask_is = ap (λ (i : List ℕ). get_or i (length front + 1) 0) e ∙ mask_at action mask front rest

  pub round_lem :
      (r : ImageRecord) (front rest : List ℕ) (p : Port Device)
      → image ≡ front ++ (record_bytes r ++ rest)
      → action_round t fuel stale intf plan image (length front) p ≡ perform r (length front) p
  unfolding perform_action
  round_lem (backup mask) front rest p e =
      performed 0 mask front rest p e
      ∙ rw (action_is 0 mask front rest e, mask_is 0 mask front rest e) refl
  round_lem (prepare mask) front rest p e =
      performed 1 mask front rest p e
      ∙ rw (action_is 1 mask front rest e, mask_is 1 mask front rest e) refl
  round_lem (firmware mask names bytes) front rest p e =
      let behind = (names ++ (le32 (length bytes) ++ bytes)) ++ rest in
      performed 2 mask front behind p e
      ∙ rw (action_is 2 mask front behind e, mask_is 2 mask front behind e) refl

  pub perform-Ends :
      (r : ImageRecord) (front rest : List ℕ) (p : Port Device)
      → IsWritable r
      → image ≡ front ++ (record_bytes r ++ rest)
      → Ends (Behind (length (front ++ record_bytes r))) (perform r (length front) p)
  perform-Ends (backup mask) front rest p w e =
      let bytes = record_bytes (backup mask) in
      rw (length-append front bytes) (
        components-Ends t fuel stale intf plan image 0 (bit_and plan.update_mask mask)
          (length front) p)
  perform-Ends (prepare mask) front rest p w e =
      let bytes = record_bytes (prepare mask) in
      rw (length-append front bytes) (
        components-Ends t fuel stale intf plan image 1 (bit_and plan.update_mask mask)
          (length front) p)
  perform-Ends (firmware mask names bytes) front rest p w e =
      let size : length (front ++ record_bytes (firmware mask names bytes))
          ≡ length front + 34 + length bytes =
        length-append front (record_bytes (firmware mask names bytes))
        ∙ omega (arith, length-append names (le32 (length bytes) ++ bytes), w.0) in
      let field : read32 image (length front + 30) ≡ length bytes =
        ap (λ (i : List ℕ). read32 i (length front + 30)) e
        ∙ firmware_length_at mask names bytes front rest w.0 w.1 in
      let same : length (front ++ record_bytes (firmware mask names bytes))
          ≡ length front + 34 + read32 image (length front + 30) =
        size ∙ ap (λ (k : ℕ). length front + 34 + k) (sym field) in
      subst⁻¹ (λ (k : ℕ). Ends (Behind k) (perform (firmware mask names bytes) (length front) p))
        same (firmware-Ends t fuel stale intf plan image mask (length front) p)
