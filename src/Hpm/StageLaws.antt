-- ===== src/Hpm/StageLaws.antt =====
-- lib/ipmi_hpmfwupg.c: the walk of `HpmfwupgUpgradeStage` over an image of action records.
use ipmitool.Common.{
  ℕ, zero, suc, ◌+◌, ◌-◌, ◌≤◌, ◌<◌, ◌≡◌, refl, sym, ap, ◌∙◌, inl, inr, Bool-cases, Bool, true,
  false, ltb, lt→ltb, ltb-false, ◌&&◌, List, [], ◌∷◌, ◌++◌, All, append_assoc, length,
  length-append, arith,
}
use ipmitool.Lanplus.Session.{read16}
use ipmitool.Intf.{Intf}
use ipmitool.Hpm.{success, is_success, Run, done, ◌>>=◌, Port, Target}
use ipmitool.Hpm.Upload.{Plan, Uploaded}
use ipmitool.Hpm.Stage.{action_round, stage_loop, upgrade_stage}
use ipmitool.Hpm.Records.{ImageRecord, record_bytes, IsWritable, >>=-same, Behind}
use ipmitool.Hpm.Actions.{some_bytes, perform, round_lem, perform-Ends}

abbrev pub all_bytes : List ImageRecord → List ℕ
all_bytes [] = []
all_bytes (r ∷ rs) = record_bytes r ++ all_bytes rs

and_false : (a b : Bool) → b ≡ false → (a && b) ≡ false
and_false true b h = h
and_false false b h = refl

module _ {Device : Type 0} (t : Target Device) (fuel stale : ℕ) (intf : Intf) (plan : Plan)
    (image : List ℕ) where
  abbrev pub act : ImageRecord → ℕ → Port Device → Run (Uploaded Device)
  act r at p = perform t fuel stale intf plan image r at p

  -- The actions in their order, up to the first that fails.
  abbrev pub perform_all : List ImageRecord → Uploaded Device → Run (Uploaded Device)
  perform_all [] u = done u
  perform_all (r ∷ rs) u = elim (is_success u.rc) [
    | true ↦ act r u.image_at u.port >>= perform_all rs
    | false ↦ done u
  ]

  abbrev loop : ℕ → Uploaded Device → Run (Uploaded Device)
  loop rounds u = stage_loop t fuel stale intf plan image rounds u

  perform_all-failed :
      (r : ImageRecord) (rs : List ImageRecord) (u : Uploaded Device)
      → is_success u.rc ≡ false
      → perform_all (r ∷ rs) u ≡ done u
  perform_all-failed r rs u failed = rw (failed, perform_all) refl

  perform_all-next :
      (r : ImageRecord) (rs : List ImageRecord) (u : Uploaded Device)
      → is_success u.rc ≡ true
      → perform_all (r ∷ rs) u ≡ (act r u.image_at u.port >>= perform_all rs)
  perform_all-next r rs u fine = rw (fine, perform_all) refl

  goes_on :
      (rounds : ℕ) (u : Uploaded Device)
      → ltb u.image_at (length image - 16) ≡ true
      → is_success u.rc ≡ true
      → loop (suc rounds) u
        ≡ (action_round t fuel stale intf plan image u.image_at u.port >>= loop rounds)
  unfolding stage_loop
  goes_on rounds u more fine = rw (more, fine, stage_loop) refl

  stopped :
      (rounds : ℕ) (rs : List ImageRecord) (u : Uploaded Device)
      → is_success u.rc ≡ false
      → loop (suc rounds) u ≡ perform_all rs u
  unfolding stage_loop
  stopped rounds [] u failed =
      let over = and_false (ltb u.image_at (length image - 16)) (is_success u.rc) failed in
      rw (over, stage_loop) refl
  stopped rounds (r ∷ rs) u failed =
      let over = and_false (ltb u.image_at (length image - 16)) (is_success u.rc) failed in
      rw (over, stage_loop) (sym (perform_all-failed r rs u failed))

  at_end :
      (rounds : ℕ) (front signature : List ℕ) (u : Uploaded Device)
      → image ≡ front ++ signature
      → length signature ≡ 16
      → u.image_at ≡ length front
      → loop (suc rounds) u ≡ done u
  unfolding stage_loop
  at_end rounds front signature u e sixteen at =
      let over : ltb u.image_at (length image - 16) ≡ false =
        ltb-false u.image_at (length image - 16)
          (omega (arith, ap length e, length-append front signature, sixteen, at)) in
      rw (over, stage_loop) refl

  one_more :
      (rounds : ℕ) (r : ImageRecord) (rs : List ImageRecord) (front rest : List ℕ)
      (u : Uploaded Device)
      → IsWritable r
      → image ≡ front ++ (record_bytes r ++ rest)
      → is_success u.rc ≡ true
      → u.image_at ≡ length front
      → ((u' : Uploaded Device)
          → Behind (length (front ++ record_bytes r)) u'
          → loop rounds u' ≡ perform_all rs u')
      → 16 ≤ length rest
      → loop (suc rounds) u ≡ perform_all (r ∷ rs) u
  unfolding stage_loop
  one_more rounds r rs front rest u w e fine at same long =
      let size = ap length e ∙ length-append front (record_bytes r ++ rest) in
      let more : ltb u.image_at (length image - 16) ≡ true =
        lt→ltb u.image_at (length image - 16)
          (omega (arith, size, length-append (record_bytes r) rest, some_bytes r, at, long)) in
      goes_on rounds u more fine
      ∙ ap (λ (m : Run (Uploaded Device)). m >>= loop rounds)
          (ap (λ (k : ℕ). action_round t fuel stale intf plan image k u.port) at
            ∙ round_lem t fuel stale intf plan image r front rest u.port e)
      ∙ >>=-same (Behind (length (front ++ record_bytes r))) (act r (length front) u.port) _ _
          (perform-Ends t fuel stale intf plan image r front rest u.port w e) same
      ∙ ap (λ (k : ℕ). act r k u.port >>= perform_all rs) (sym at)
      ∙ sym (perform_all-next r rs u fine)

  loop-performs :
      (rounds : ℕ) (rs : List ImageRecord) (front signature : List ℕ) (u : Uploaded Device)
      → All IsWritable rs
      → image ≡ front ++ (all_bytes rs ++ signature)
      → length signature ≡ 16
      → (is_success u.rc ≡ true → u.image_at ≡ length front)
      → length rs < rounds
      → loop rounds u ≡ perform_all rs u
  unfolding stage_loop
  loop-performs zero rs front signature u w e sixteen at enough = absurd (omega (arith, enough))
  loop-performs (suc rounds) [] front signature u w e sixteen at enough =
      elim (Bool-cases (is_success u.rc)) [
        | inr failed ↦ stopped rounds [] u failed
        | inl fine ↦ at_end rounds front signature u e sixteen (at fine)
      ]
  loop-performs (suc rounds) (r ∷ rs) front signature u w e sixteen at enough =
      let rest = all_bytes rs ++ signature in
      let here : image ≡ front ++ (record_bytes r ++ rest) =
        e
        ∙ ap (λ (t : List ℕ). front ++ t)
            (append_assoc (record_bytes r) (all_bytes rs) signature) in
      let next : image ≡ (front ++ record_bytes r) ++ rest =
        here ∙ sym (append_assoc front (record_bytes r) rest) in
      elim (Bool-cases (is_success u.rc)) [
        | inr failed ↦ stopped rounds (r ∷ rs) u failed
        | inl fine ↦
            one_more rounds r rs front rest u w.0 here fine (at fine)
              (λ u' behind.
                loop-performs rounds rs (front ++ record_bytes r) signature u' w.1 next sixteen
                  behind (omega (arith, enough)))
              (omega (arith, sixteen, length-append (all_bytes rs) signature))
      ]

  some_records : (rs : List ImageRecord) → length rs ≤ length (all_bytes rs)
  some_records [] = omega arith
  some_records (r ∷ rs) =
      omega (arith, some_records rs, some_bytes r, length-append (record_bytes r) (all_bytes rs))

  -- `HpmfwupgUpgradeStage` performs exactly the actions of an image, in their order and up to the
  -- first that fails, each with the pointer at its own record: for an image that consists of its
  -- header, with its OEM data and its checksum, any number of action records closed by their
  -- checksums, and the signature. The walk never stops for want of rounds.
  pub upgrade_stage-performs :
      (rs : List ImageRecord) (front signature : List ℕ) (p : Port Device)
      → All IsWritable rs
      → image ≡ front ++ (all_bytes rs ++ signature)
      → length signature ≡ 16
      → length front ≡ 34 + read16 image 32 + 1
      → upgrade_stage t fuel stale intf plan image p
        ≡ perform_all rs (record { rc = success; image_at = length front; port = p })
  unfolding upgrade_stage
  upgrade_stage-performs rs front signature p w e sixteen first =
      let u : Uploaded Device = record { rc = success; image_at = length front; port = p } in
      let size = ap length e ∙ length-append front (all_bytes rs ++ signature) in
      ap (λ (k : ℕ). loop (suc (length image)) (record { rc = success; image_at = k; port = p }))
        (sym first)
      ∙ loop-performs (suc (length image)) rs front signature u w e sixteen (λ _. refl)
          (omega (arith, size, some_records rs, length-append (all_bytes rs) signature))
