-- ===== src/Fru/Storing.antt =====
-- lib/ipmi_fru.c: a device that stores what it is sent, and what `write_fru_area` does in one round.
use ipmitool.Common.{
  ℕ, ◌+◌, ◌-◌, ◌≤◌, ◌<◌, ◌≡◌, refl, ap, ◌∙◌, inl, inr, Bool-cases, lt→ltb, List, [], ◌∷◌, Option,
  some, true, false, leb, length, u16, arith,
}
use ipmitool.Intf.{Intf}
use ipmitool.Fru.{FruInfo, fru_cc_rq2big}
use ipmitool.Fru.Slices.{write_at}
use ipmitool.Fru.Blocs.{Bloc}
use ipmitool.Fru.Write.{
  bloc_at, end_bloc, write_request, WriteState, continues, on_write, known_write_size,
  first_write_size, write_done, write_result,
}

pub end_bloc_lem :
    (blocs : List Bloc) (doffset finish : ℕ)
    → doffset < finish
    → (doffset < end_bloc (bloc_at blocs doffset) finish)
      × (end_bloc (bloc_at blocs doffset) finish ≤ finish)
unfolding end_bloc bloc_at
end_bloc_lem [] doffset finish h = (h, omega arith)
end_bloc_lem (b ∷ blocs) doffset finish h = elim (Bool-cases (leb (b.start + b.size) doffset)) [
  | inl before ↦ rw (before, bloc_at) (end_bloc_lem blocs doffset finish h)
  | inr behind ↦ rw (behind, bloc_at) (ground arith)
]

pub known_write_size_lem :
    (intf : Intf) (fru : FruInfo) (size : ℕ)
    → fru.access ≡ false
    → fru.max_write_size ≤ 255
    → known_write_size intf fru ≡ some size
    → (1 ≤ size) × (size ≤ 255)
unfolding known_write_size first_write_size
known_write_size_lem intf fru size byte le e = ground arith

-- A device whose bytes are `memory`: it stores the bytes of a request within its memory, or says
-- that they were too many, unless they are 32 or fewer, and stores none.
module _ {Device : Type 0} (send : Device → List ℕ → Option ℕ × Device) (memory : Device → List ℕ)
    (id : ℕ) where
  pub data Stored (d : Device) (off : ℕ) (bytes : List ℕ) : Type 0 where
    refused :
        (ccode : ℕ)
        → (send d (write_request false id off bytes)).0 ≡ some ccode
        → fru_cc_rq2big ccode ≡ true
        → 32 < length bytes
        → memory (send d (write_request false id off bytes)).1 ≡ memory d
        → Stored d off bytes
    stored :
        (send d (write_request false id off bytes)).0 ≡ some 0
        → memory (send d (write_request false id off bytes)).1 ≡ write_at off bytes (memory d)
        → Stored d off bytes

  unfoldable pub Stores : Type 0
  Stores =
      (d : Device) (off : ℕ) (bytes : List ℕ)
      → 1 ≤ length bytes
      → length bytes ≤ 255
      → off + length bytes ≤ length (memory d)
      → off + length bytes < 65536
      → Stored d off bytes

module _ {Device : Type 0} (last written : ℕ) (s : WriteState Device) where
  pub refused_lem :
      (ccode : ℕ)
      → fru_cc_rq2big ccode ≡ true
      → 32 < s.max_write
      → on_write last written (some ccode) s ≡ continues (record s { max_write = s.max_write - 8 })
  unfolding on_write
  refused_lem ccode c h = rw (c, lt→ltb 32 s.max_write h, on_write) refl

  pub stored_lem :
      on_write last written (some 0) s
      ≡ continues
          (record s { soffset = u16 (s.soffset + written); doffset = u16 (s.doffset + written) })
  unfolding on_write
  stored_lem = refl

pub write_result_lem :
    {Device : Type 0} (finish : ℕ) (fru : FruInfo) (device : Device)
    (r : Option (WriteState Device)) (s : WriteState Device)
    → r ≡ some s
    → finish ≤ s.doffset
    → write_result finish fru device r
      ≡ (write_done, (record fru { max_write_size = s.max_write }, s.device))
unfolding write_result
write_result_lem finish fru device r s e h =
    let past : leb finish s.doffset ≡ true = ground arith in
    ap (write_result finish fru device) e ∙ rw (past, write_result) refl
